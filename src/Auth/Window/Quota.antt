-- ===== src/Auth/Window/Quota.antt =====
-- How many requests one key gets through in a window.
use kritvia_global_dashboard.Auth.Window.{RateStore, Window, enforce_window_rate, get, minute, set}
use kritvia_global_dashboard.Base.{
  All, List, Option-cases, Outcome-cases, String, [], arith, eq_iff, fail, if◌then◌else◌, inl, inr,
  length, ltb, min, ok, refl, some, suc, too_many_requests, ℕ, ◌+◌, ◌-◌, ◌<◌, ◌===◌, ◌∙◌, ◌∷◌, ◌≡◌,
  ◌≢◌, ◌≤◌,
}

-- Setting a key changes that key alone.
pub get-set :
    (j k : String) (w : Window) (store : RateStore)
    → get j (set k w store) ≡ (if k === j then some w else get j store)
unfolding get set
get-set j k w [] = refl
get-set j k w ((i, v) ∷ store) =
    ground (arith, eq_iff k j, eq_iff i k, eq_iff i j, get-set j k w store)

-- The requests of one key at the given times, in order: the store after them, and how many passed.
unfoldable pub run : RateStore → String → ℕ → List ℕ → RateStore × ℕ
run store key limit [] = (store, 0)
run store key limit (now ∷ times) = elim (enforce_window_rate store key limit now) [
  | ok next ↦ let (last, passed) = run next key limit times in (last, suc passed)
  | fail e ↦ run store key limit times
]

abbrev pub Within : Window → List ℕ → Type 0
Within w times = All (λ now. now - w.window_started_at < minute) times

-- One request inside the window passes while the count is below the limit, and is then counted.
enforce_window_rate_live :
    (store : RateStore) (key : String) (limit now : ℕ) (w : Window)
    → get key store ≡ some w
    → now - w.window_started_at < minute
    → enforce_window_rate store key limit now ≡ (
        if ltb limit (w.count + 1)
        then fail too_many_requests
        else ok (set key (record w { count = w.count + 1 }) store))
unfolding enforce_window_rate
enforce_window_rate_live store key limit now w e h = ground arith

get-set_self : (k : String) (w : Window) (store : RateStore) → get k (set k w store) ≡ some w
get-set_self k w store = ground (arith, get-set k k w store, eq_iff k k)

run-live :
    (store : RateStore) (key : String) (limit : ℕ) (times : List ℕ) (w : Window)
    → get key store ≡ some w
    → Within w times
    → (run store key limit times).1 ≡ min (length times) (limit - w.count)
unfolding run
run-live store key limit [] w e h = omega arith
run-live store key limit (now ∷ times) w e h = ground (
  arith,
  enforce_window_rate_live store key limit now w e h.0,
  get-set_self key (record w { count = w.count + 1 }) store,
  run-live store key limit times w e h.1,
  run-live (set key (record w { count = w.count + 1 }) store) key limit times
      (record w { count = w.count + 1 }) (get-set_self key _ store) h.1,
)

-- Whether the key has a window at this time that still counts.
abbrev pub Fresh : RateStore → String → ℕ → Type 0
Fresh store key now = (w : Window) → get key store ≡ some w → minute ≤ now - w.window_started_at

-- The first request of a key whose last window has run out opens a new window.
enforce_window_rate-Fresh :
    (store : RateStore) (key : String) (limit now : ℕ)
    → Fresh store key now
    → enforce_window_rate store key limit now
      ≡ ok (set key (record { window_started_at = now; count = 1 }) store)
unfolding enforce_window_rate
enforce_window_rate-Fresh store key limit now h = elim (Option-cases (get key store)) [
  | inl e ↦ ground arith
  | inr (w, e) ↦ ground (arith, h w e)
]

-- Of the requests of a key in the minute that the first of them opens, exactly as many pass as the
-- limit allows, counted from the first.
pub run_quota :
    (store : RateStore) (key : String) (limit start : ℕ) (times : List ℕ)
    → 0 < limit
    → Fresh store key start
    → All (λ now. now - start < minute) times
    → (run store key limit (start ∷ times)).1 ≡ min (suc (length times)) limit
unfolding run
run_quota store key limit start times pos fresh h =
    let opened : Window = record { window_started_at = start; count = 1 } in
    ground (
      arith,
      enforce_window_rate-Fresh store key limit start fresh,
      run-live (set key opened store) key limit times opened (get-set_self key opened store) h,
    )

enforce_window_rate_other :
    (store next : RateStore) (key j : String) (limit now : ℕ)
    → j ≢ key
    → enforce_window_rate store key limit now ≡ ok next
    → get j next ≡ get j store
unfolding enforce_window_rate
enforce_window_rate_other store next key j limit now ne e = elim (Option-cases (get key store)) [
  | inl none_yet ↦
      ground
        (arith, eq_iff key j, get-set j key (record { window_started_at = now; count = 1 }) store)
  | inr (w, found) ↦ ground (
    arith,
    eq_iff key j,
    get-set j key (record { window_started_at = now; count = 1 }) store,
    get-set j key (record w { count = w.count + 1 }) store,
  )
]

-- Requests of one key leave the window of every other key as it was.
pub run_others :
    (store : RateStore) (key j : String) (limit : ℕ) (times : List ℕ)
    → j ≢ key
    → get j (run store key limit times).0 ≡ get j store
unfolding run
run_others store key j limit [] ne = refl
run_others store key j limit (now ∷ times) ne =
    elim (Outcome-cases (enforce_window_rate store key limit now)) [
      | inl (next, e) ↦
          rw (e, run)
            (run_others next key j limit times ne
              ∙ enforce_window_rate_other store next key j limit now ne e)
      | inr (x, e) ↦ rw (e, run) (run_others store key j limit times ne)
    ]
