-- ===== src/OnCall/Answers.antt =====
-- Which schedule `resolveNow` answers with.
use mathlib.Core.Option
use kritvia_global_dashboard.Base.{
  All, Bool, List, Memᴰ, Option-cases, String, [], arith, false, find-mem, find_none-All, inl, inr,
  leb, length, mem-All, none, or_else, refl, some, suc, true, ℕ, ◌∷◌, ◌≡◌, ◌⊎◌,
}
use kritvia_global_dashboard.OnCall.{Platform, Schedule}
use kritvia_global_dashboard.OnCall.Coverage.{get_schedule_state}
use kritvia_global_dashboard.OnCall.Fallback.{fallback_search_reached, fallback_search_total}
use kritvia_global_dashboard.OnCall.Resolver.{
  Chased, OnCallResolvedNow, answer_for, exhausted, fallback_search, first_active, load_schedules,
  nobody, reached, resolve_fallback_chain, resolve_in_order, resolve_now,
}

leb-suc-zero : (n : ℕ) → leb (suc n) 0 ≡ false
leb-suc-zero n = ground arith

module _ (p : Platform) (now : ℕ) where
  -- Where no schedule covers the moment, no chain of fallbacks gives an answer.
  resolve_fallback_chain-none :
      (schedules : List Schedule)
      → first_active p now schedules ≡ none
      → resolve_fallback_chain p schedules now ≡ none
  unfolding resolve_fallback_chain
  resolve_fallback_chain-none schedules h =
      let (r, e) = fallback_search_total p schedules now in by_outcome r e
    where
      by_outcome :
          (r : Chased)
          → fallback_search p schedules now ≡ some r
          → resolve_fallback_chain p schedules now ≡ none
      by_outcome (exhausted visited) e = rw (e, resolve_fallback_chain) refl
      by_outcome (reached s) e =
          let (m, on) = fallback_search_reached p schedules now s e in
          let idle =
            find_none-All (λ t. (get_schedule_state p t now).active) schedules (rw h refl) in
          let off = mem-All (λ t. (get_schedule_state p t now).active ≡ false) m idle in absurd (cc)

  resolve_in_order_first :
      (schedules : List Schedule)
      → resolve_in_order p schedules now
        ≡ or_else (Option.map (answer_for p now) (first_active p now schedules)) nobody
  unfolding resolve_in_order
  resolve_in_order_first schedules = elim (Option-cases (first_active p now schedules)) [
    | inl e ↦ rw (e, resolve_in_order) (rw (resolve_fallback_chain-none schedules e) refl)
    | inr (s, e) ↦ rw (e, resolve_in_order) refl
  ]

  -- Unless the fallback is forced, the fallbacks of the schedules have no effect on who is on call:
  -- the answer is that of the first enabled schedule of the organisation that covers the moment, in
  -- the order of creation, and nobody if there is none.
  pub resolve_now_first :
      (table : List Schedule) (org_id : String)
      → resolve_now p table org_id now false
        ≡ or_else
            (Option.map (answer_for p now) (first_active p now (load_schedules table org_id now)))
            nobody
  unfolding resolve_now
  resolve_now_first table org_id = by_length (load_schedules table org_id now) refl
    where
      by_length :
          (schedules : List Schedule)
          → load_schedules table org_id now ≡ schedules
          → resolve_now p table org_id now false
            ≡ or_else
                (Option.map
                  (answer_for p now)
                  (first_active p now (load_schedules table org_id now)))
                nobody
      by_length [] e = rw (e, resolve_now) refl
      by_length (s ∷ ss) e =
          rw (e, resolve_now, leb-suc-zero (length ss)) (resolve_in_order_first (s ∷ ss))

  -- An answer of one of the schedules that covers the moment, or nobody, when none of them does.
  abbrev pub Covers : List Schedule → OnCallResolvedNow → Type 0
  Covers schedules answer =
      ((s : Schedule) × Memᴰ s schedules
        × ((get_schedule_state p s now).active ≡ true)
        × (answer ≡ answer_for p now s))
      ⊎ (All (λ s. (get_schedule_state p s now).active ≡ false) schedules × (answer ≡ nobody))

  first_active-Covers :
      (schedules : List Schedule)
      → Covers schedules
          (or_else (Option.map (answer_for p now) (first_active p now schedules)) nobody)
  first_active-Covers schedules = elim (Option-cases (first_active p now schedules)) [
    | inl e ↦
        inr (
          find_none-All (λ t. (get_schedule_state p t now).active) schedules (rw e refl),
          rw e refl,
        )
    | inr (s, e) ↦
        let (m, on) = find-mem (λ t. (get_schedule_state p t now).active) schedules s e in
        inl (s, m, on, rw e refl)
  ]

  resolve_in_order-Covers :
      (schedules : List Schedule) → Covers schedules (resolve_in_order p schedules now)
  resolve_in_order-Covers schedules =
      rw (resolve_in_order_first schedules) (first_active-Covers schedules)

  -- The answer where the fallback is forced and there are schedules.
  abbrev forced : List Schedule → OnCallResolvedNow
  forced schedules =
      or_else (resolve_fallback_chain p schedules now) (resolve_in_order p schedules now)

  forced-Covers : (schedules : List Schedule) → Covers schedules (forced schedules)
  unfolding resolve_fallback_chain
  forced-Covers schedules = let (r, e) = fallback_search_total p schedules now in by_outcome r e
    where
      by_outcome :
          (r : Chased)
          → fallback_search p schedules now ≡ some r
          → Covers schedules (forced schedules)
      by_outcome (exhausted visited) e =
          let none_yet : resolve_fallback_chain p schedules now ≡ none =
            rw (e, resolve_fallback_chain) refl in
          rw none_yet (resolve_in_order-Covers schedules)
      by_outcome (reached s) e =
          let (m, on) = fallback_search_reached p schedules now s e in
          let answer : resolve_fallback_chain p schedules now ≡ some (answer_for p now s) =
            rw (e, resolve_fallback_chain) refl in
          inl (s, m, on, rw answer refl)

  -- Whether the fallback is forced or not, the answer is that of an enabled schedule of the
  -- organisation that covers the moment; or nobody, when none of them covers it.
  pub resolve_now-Covers :
      (table : List Schedule) (org_id : String) (force_fallback : Bool)
      → Covers (load_schedules table org_id now) (resolve_now p table org_id now force_fallback)
  unfolding resolve_now
  resolve_now-Covers table org_id force_fallback =
      by_length (load_schedules table org_id now) refl force_fallback
    where
      by_length :
          (schedules : List Schedule)
          → load_schedules table org_id now ≡ schedules
          → (f : Bool) → Covers (load_schedules table org_id now) (resolve_now p table org_id now f)
      by_length [] e f = rw (e, resolve_now) (inr (tt, refl))
      by_length (s ∷ ss) e true =
          rw (e, resolve_now, leb-suc-zero (length ss)) (forced-Covers (s ∷ ss))
      by_length (s ∷ ss) e false =
          rw (e, resolve_now, leb-suc-zero (length ss)) (resolve_in_order-Covers (s ∷ ss))
