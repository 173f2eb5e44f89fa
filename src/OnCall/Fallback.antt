-- ===== src/OnCall/Fallback.antt =====
-- The search along the fallbacks ends, and finds an active schedule if there is one on the way.
use kritvia_global_dashboard.Base.{
  Bool, Bool-cases, List, Memᴰ, Option, Option-cases, String, [], arith, eq_iff, eq_refl, false,
  find-mem, inl, inr, is_some, keep, length, length-keep-le, none, not, refl, some, suc, sym, true,
  zero, ℕ, ◌<◌, ◌===◌, ◌∙◌, ◌∷◌, ◌≡◌, ◌≤◌,
}
use kritvia_global_dashboard.OnCall.{Platform, Schedule}
use kritvia_global_dashboard.OnCall.Coverage.{get_schedule_state}
use kritvia_global_dashboard.OnCall.Resolver.{
  Chased, chase, chase_all, exhausted, fallback_search, present, reached, schedule_map, visits,
}

module _ (schedules : List Schedule) where
  -- The schedules that the search has not met.
  abbrev unvisited : List String → ℕ
  unvisited visited = length (keep (λ s. not (visits visited s.id)) schedules)

  visits-cons :
      (visited : List String) (id k : String)
      → visits visited k ≡ true
      → visits (id ∷ visited) k ≡ true
  visits-cons visited id k h = elim (Bool-cases (id === k)) [ inl e ↦ rw e | inr e ↦ rw (e, h) ]

  visits_self : (visited : List String) (id : String) → visits (id ∷ visited) id ≡ true
  visits_self visited id = rw eq_refl

length-keep_mono {ℓ} :
    {A : Type ℓ} (p q : A → Bool) (xs : List A)
    → ((x : A) → p x ≡ true → q x ≡ true)
    → length (keep p xs) ≤ length (keep q xs)
length-keep_mono p q [] h = omega arith
length-keep_mono p q (x ∷ xs) h = ground (arith, h x, length-keep_mono p q xs h)

length-keep_strict {ℓ} :
    {A : Type ℓ} (p q : A → Bool) (xs : List A) (y : A)
    → ((x : A) → p x ≡ true → q x ≡ true)
    → Memᴰ y xs
    → p y ≡ false
    → q y ≡ true
    → length (keep p xs) < length (keep q xs)
length-keep_strict p q [] y h m py qy = elim m [ ]
length-keep_strict p q (x ∷ xs) y h (Memᴰ.head e) py qy =
    let px : p x ≡ false = rw (← e) py in
    let qx : q x ≡ true = rw (← e) qy in ground (arith, length-keep_mono p q xs h)
length-keep_strict p q (x ∷ xs) y h (Memᴰ.tail m) py qy =
    ground (arith, h x, length-keep_strict p q xs y h m py qy)

module _ (p : Platform) (schedules : List Schedule) (now : ℕ) where
  abbrev active : Schedule → Bool
  active s = (get_schedule_state p s now).active

  -- With more fuel than schedules that are not visited, the inner loop ends.
  pub chase_total :
      (fuel : ℕ) (visited : List String) (next_id : Option String)
      → unvisited schedules visited < fuel
      → (r : Chased) × (chase p schedules now fuel visited next_id ≡ some r)
  unfolding chase
  chase_total zero visited next_id h = absurd (omega arith)
  chase_total (suc fuel) visited next_id h = elim (Option-cases (present next_id)) [
    | inl e ↦ (exhausted visited, rw (e, chase))
    | inr (id, e) ↦ elim (Bool-cases (visits visited id)) [
      | inl seen ↦ (exhausted visited, rw (e, seen, chase))
      | inr new ↦ elim (Option-cases (schedule_map schedules id)) [
        | inl missing ↦ (exhausted (id ∷ visited), rw (e, new, missing, chase))
        | inr (s, found) ↦ elim (Bool-cases (active s)) [
          | inl on ↦ (reached s, rw (e, new, found, on, chase))
          | inr off ↦
              let (m, same_id) = find-mem (λ t. t.id === id) schedules s found in
              let same : s.id ≡ id = (eq_iff s.id id).0 same_id in
              let fewer =
                length-keep_strict (λ t. not (visits (id ∷ visited) t.id))
                  (λ t. not (visits visited t.id)) schedules s
                  (λ t e. ground (arith, visits-cons schedules visited id t.id)) m
                  (rw (same, eq_refl)) (rw (same, new)) in
              let (r, run) = chase_total fuel (id ∷ visited) s.fallback_schedule_id (omega arith) in
              (r, rw (e, new, found, off, chase) run)
        ]
      ]
    ]
  ]

  -- The loop over the roots ends as well.
  chase_all_total :
      (fuel : ℕ) (visited : List String) (roots : List Schedule)
      → length schedules < fuel
      → (r : Chased) × (chase_all p schedules now fuel visited roots ≡ some r)
  unfolding chase_all
  chase_all_total fuel visited [] h = (exhausted visited, refl)
  chase_all_total fuel visited (root ∷ roots) h =
      let fits = length-keep-le (λ s. not (visits visited s.id)) schedules in
      let (r, chased) = chase_total fuel visited root.fallback_schedule_id (omega arith) in
      ended (λ more. chase_all_total fuel more roots h) r chased
    where
      ended :
          ((more : List String)
            → (q : Chased) × (chase_all p schedules now fuel more roots ≡ some q))
          → (r : Chased) → chase p schedules now fuel visited root.fallback_schedule_id ≡ some r
          → (q : Chased) × (chase_all p schedules now fuel visited (root ∷ roots) ≡ some q)
      ended rest (reached s) e = (reached s, rw (e, chase_all) refl)
      ended rest (exhausted more) e = let (q, f) = rest more in (q, rw (e, chase_all) f)

  -- The search always ends: its rounds suffice, whatever circle the fallbacks form.
  pub fallback_search_total : (r : Chased) × (fallback_search p schedules now ≡ some r)
  unfolding fallback_search
  fallback_search_total =
      chase_all_total (suc (length schedules)) []
        (keep (λ s. is_some (present s.fallback_schedule_id)) schedules) (omega arith)

  -- What the inner loop reaches is a schedule of the list, and active.
  chase_reached :
      (fuel : ℕ) (visited : List String) (next_id : Option String) (s : Schedule)
      → chase p schedules now fuel visited next_id ≡ some (reached s)
      → Memᴰ s schedules × (active s ≡ true)
  unfolding chase
  chase_reached zero visited next_id s h = absurd (cc)
  chase_reached (suc fuel) visited next_id s h = elim (Option-cases (present next_id)) [
    | inl e ↦
        let q : chase p schedules now (suc fuel) visited next_id ≡ some (exhausted visited) =
          rw (e, chase) refl in
        absurd (cc)
    | inr (id, e) ↦ elim (Bool-cases (visits visited id)) [
      | inl seen ↦
          let q : chase p schedules now (suc fuel) visited next_id ≡ some (exhausted visited) =
            rw (e, seen, chase) refl in
          absurd (cc)
      | inr new ↦ elim (Option-cases (schedule_map schedules id)) [
        | inl missing ↦
            let q : chase p schedules now (suc fuel) visited next_id
                ≡ some (exhausted (id ∷ visited)) =
              rw (e, new, missing, chase) refl in
            absurd (cc)
        | inr (t, seek) ↦ elim (Bool-cases (active t)) [
          | inl on ↦
              let q : chase p schedules now (suc fuel) visited next_id ≡ some (reached t) =
                rw (e, new, seek, on, chase) refl in
              let same_one : t ≡ s = cc in
              (rw (← same_one) (find-mem (λ x. x.id === id) schedules t seek).0, rw (← same_one) on)
          | inr off ↦
              let q : chase p schedules now (suc fuel) visited next_id
                  ≡ chase p schedules now fuel (id ∷ visited) t.fallback_schedule_id =
                rw (e, new, seek, off, chase) refl in
              chase_reached fuel (id ∷ visited) t.fallback_schedule_id s (sym q ∙ h)
        ]
      ]
    ]
  ]

  chase_all_reached :
      (fuel : ℕ) (visited : List String) (roots : List Schedule) (s : Schedule)
      → chase_all p schedules now fuel visited roots ≡ some (reached s)
      → Memᴰ s schedules × (active s ≡ true)
  unfolding chase_all
  chase_all_reached fuel visited [] s h = absurd (cc)
  chase_all_reached fuel visited (root ∷ roots) s h =
      elim (Option-cases (chase p schedules now fuel visited root.fallback_schedule_id)) [
        | inl e ↦
            let q : chase_all p schedules now fuel visited (root ∷ roots) ≡ none =
              rw (e, chase_all) refl in
            absurd (cc)
        | inr (r, e) ↦ by_outcome (λ more. chase_all_reached fuel more roots s) r e
      ]
    where
      by_outcome :
          ((more : List String)
            → chase_all p schedules now fuel more roots ≡ some (reached s)
            → Memᴰ s schedules × (active s ≡ true))
          → (r : Chased) → chase p schedules now fuel visited root.fallback_schedule_id ≡ some r
          → Memᴰ s schedules × (active s ≡ true)
      by_outcome rest (reached t) e =
          let q : chase_all p schedules now fuel visited (root ∷ roots) ≡ some (reached t) =
            rw (e, chase_all) refl in
          let same_one : t ≡ s = cc in
          chase_reached fuel visited root.fallback_schedule_id s (e ∙ rw same_one refl)
      by_outcome rest (exhausted more) e =
          let q : chase_all p schedules now fuel visited (root ∷ roots)
              ≡ chase_all p schedules now fuel more roots =
            rw (e, chase_all) refl in
          rest more (sym q ∙ h)

  -- The search reaches only active schedules of the list.
  pub fallback_search_reached :
      (s : Schedule)
      → fallback_search p schedules now ≡ some (reached s)
      → Memᴰ s schedules × (active s ≡ true)
  unfolding fallback_search
  fallback_search_reached s h =
      chase_all_reached (suc (length schedules)) []
        (keep (λ s. is_some (present s.fallback_schedule_id)) schedules) s h
