-- ===== src/Auth/Window.antt =====
-- The per-minute request limits of auth/jwt-auth.guard.ts: a map from a key to the window that it
-- is in. Times are milliseconds; a map is an association list in which a key stands once.
pub mod Quota
use Prim.Native.String as Str
use kritvia_global_dashboard.Base.{
  AuthUserContext, Bool, List, Option, Outcome, Role, String, [], admin, ceo, count, fail, finance,
  if◌then◌else◌, leb, ltb, none, ok, ops, or_else, sales, some, too_many_requests, ℕ, ◌+◌, ◌-◌,
  ◌===◌, ◌∷◌,
}

pub record Window : Type 0 where
  pub window_started_at : ℕ
  pub count : ℕ

abbrev pub RateStore : Type 0
RateStore = List (String × Window)

-- `store.get(key)`
unfoldable pub get : String → RateStore → Option Window
get key [] = none
get key ((k, w) ∷ store) = if k === key then some w else get key store

-- `store.set(key, window)`
unfoldable pub set : String → Window → RateStore → RateStore
set key w [] = (key, w) ∷ []
set key w ((k, v) ∷ store) = if k === key then (key, w) ∷ store else (k, v) ∷ set key w store

abbrev pub minute : ℕ
minute = 60000

-- Whether a window has run out (`now - windowStartedAt >= 60_000`).
abbrev pub expired : ℕ → Window → Bool
expired now w = leb minute (now - w.window_started_at)

-- An exception leaves the store as it was.
unfoldable pub enforce_window_rate : RateStore → String → ℕ → ℕ → Outcome RateStore
enforce_window_rate store key max_per_minute now = elim (get key store) [
  | none ↦ ok (set key (record { window_started_at = now; count = 1 }) store)
  | some state ↦
      if expired now state
      then ok (set key (record { window_started_at = now; count = 1 }) store)
      else if ltb max_per_minute (state.count + 1)
      then fail too_many_requests
      else ok (set key (record state { count = state.count + 1 }) store)
]

abbrev pub limit_for_role : Role → ℕ
limit_for_role ceo = 120
limit_for_role admin = 120
limit_for_role ops = 90
limit_for_role _ = 100

abbrev pub role_text : Role → String
role_text ceo = "CEO"
role_text ops = "OPS"
role_text Role.sales = "SALES"
role_text Role.finance = "FINANCE"
role_text admin = "ADMIN"

pub record RateState : Type 0 where
  pub user_rate_state : RateStore
  pub org_rate_state : RateStore

unfoldable pub enforce_org_fallback_rate_limit :
    RateState → String → ℕ → RateState × Outcome (Unit {0})
enforce_org_fallback_rate_limit s org_id now =
    elim (enforce_window_rate s.org_rate_state org_id 500 now) [
      | ok orgs ↦ (record s { org_rate_state = orgs }, ok tt)
      | fail e ↦ (s, fail e)
    ]

-- The user's window is counted first, and stays counted when the organisation's is full.
unfoldable pub enforce_user_and_org_rate_limits :
    RateState → AuthUserContext → ℕ → RateState × Outcome (Unit {0})
unfolding enforce_org_fallback_rate_limit
enforce_user_and_org_rate_limits s user now =
    let key = Str.◌++◌ user.user_id (Str.◌++◌ ":" (role_text user.role)) in
    elim (enforce_window_rate s.user_rate_state key (limit_for_role user.role) now) [
      | fail e ↦ (s, fail e)
      | ok users ↦
          enforce_org_fallback_rate_limit (record s { user_rate_state = users })
            (or_else user.active_org_id user.org_id) now
    ]
