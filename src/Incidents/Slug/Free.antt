-- ===== src/Incidents/Slug/Free.antt =====
-- The search for a free slug ends, and what it finds is free: the candidates are all different, so
-- more of them are tried than other incidents can hold.
use kritvia_global_dashboard.Base.{
  Bool, Bool-cases, List, Option-cases, String, [], ap, arith, false, find-keep, if◌then◌else◌, inl,
  inr, keep, length, length-append, length-keep-lt, ltb, not, refl, some, suc, sym, true, zero, ℕ,
  ◌%◌, ◌*◌, ◌++◌, ◌+◌, ◌-◌, ◌/◌, ◌<◌, ◌==◌, ◌↔◌, ◌∙◌, ◌∷◌, ◌≡◌, ◌≢◌, ◌≤◌,
}
use kritvia_global_dashboard.Incidents.{Incident}
use kritvia_global_dashboard.Incidents.Slug.{
  decimal, generate_unique_public_slug, has_slug, same_codes, slug_stem, taken, decimal_from,
  find_free,
}
use mathlib.Core.List.{append_cancel_left}

-- The number that a list of digits stands for, read on from another.
value : ℕ → List ℕ → ℕ
value v [] = v
value v (c ∷ cs) = value (v * 10 + (c - 48)) cs

value-decimal_from :
    (fuel n : ℕ) (acc : List ℕ) → n < fuel → value 0 (decimal_from fuel n acc) ≡ value n acc
unfolding decimal_from value
value-decimal_from zero n acc h = absurd (omega arith)
value-decimal_from (suc fuel) n acc h = elim (Bool-cases (ltb n 10)) [
  | inl small ↦ rw small (ap (λ v. value v acc) (omega arith))
  | inr large ↦
      let less : n / 10 < fuel = ground arith in
      rw large (
        value-decimal_from fuel (n / 10) ((48 + n % 10) ∷ acc) less
        ∙ ap (λ v. value v acc) (omega arith))
]

value-decimal : (n : ℕ) → value 0 (decimal n) ≡ n
unfolding decimal value
value-decimal n = value-decimal_from (suc n) n [] (omega arith)

decimal-injective : (m n : ℕ) → decimal m ≡ decimal n → m ≡ n
decimal-injective m n h = sym (value-decimal m) ∙ ap (value 0) h ∙ value-decimal n

-- The candidate that is tried with the counter at `k`.
candidate : List ℕ → ℕ → List ℕ
candidate stem k = if k == 1 then stem else stem ++ b'-' ∷ decimal k

candidate-later :
    (stem : List ℕ) (k : ℕ) → 1 ≤ k → candidate stem (k + 1) ≡ stem ++ b'-' ∷ decimal (k + 1)
unfolding candidate
candidate-later stem k one = ground arith

candidate-first : (stem : List ℕ) → candidate stem 1 ≡ stem
unfolding candidate
candidate-first stem = refl

append-ne_self : (xs : List ℕ) (y : ℕ) (ys : List ℕ) → xs ++ y ∷ ys ≢ xs
append-ne_self xs y ys e =
    let counted = ap length e in absurd (omega (arith, length-append xs (y ∷ ys)))

tail_eq : {x y : ℕ} {xs ys : List ℕ} → x ∷ xs ≡ y ∷ ys → xs ≡ ys
tail_eq e = cc

candidate-injective : (stem : List ℕ) (j k : ℕ) → candidate stem j ≡ candidate stem k → j ≡ k
unfolding candidate
candidate-injective stem j k h = elim (Bool-cases (j == 1)) [
  | inl first ↦ elim (Bool-cases (k == 1)) [
    | inl also ↦ ground arith
    | inr later ↦ absurd (append-ne_self stem b'-' (decimal k) (sym (rw (first, later) at h)))
  ]
  | inr later ↦ elim (Bool-cases (k == 1)) [
    | inl first ↦ absurd (append-ne_self stem b'-' (decimal j) (rw (later, first) at h))
    | inr also ↦
        decimal-injective j k (tail_eq (append_cancel_left stem _ _ (rw (later, also) at h)))
  ]
]

pub same_codes_iff : (xs ys : List ℕ) → (same_codes xs ys ≡ true) ↔ (xs ≡ ys)
same_codes_iff [] [] = (λ h. refl, λ h. refl)
same_codes_iff [] (y ∷ ys) = (λ h. ground arith, λ h. ground arith)
same_codes_iff (x ∷ xs) [] = (λ h. ground arith, λ h. ground arith)
same_codes_iff (x ∷ xs) (y ∷ ys) =
    (λ h. ground (arith, same_codes_iff xs ys), λ h. ground (arith, same_codes_iff xs ys))

-- What the search finds is free.
find_free_sound :
    (fuel : ℕ) (clash : List ℕ → Bool) (stem c : List ℕ) (k : ℕ) (slug : List ℕ)
    → find_free fuel clash stem c k ≡ some slug
    → clash slug ≡ false
unfolding find_free
find_free_sound zero clash stem c k slug h = absurd (cc)
find_free_sound (suc fuel) clash stem c k slug h = elim (Bool-cases (clash c)) [
  | inl used ↦
      find_free_sound fuel clash stem (stem ++ b'-' ∷ decimal (k + 1)) (k + 1) slug
        (rw (used, find_free) at h)
  | inr free ↦ let same : c ≡ slug = ground arith in rw (← same) free
]

module _ (incident_id : String) (stem : List ℕ) where
  abbrev without : ℕ → List Incident → List Incident
  without k rows = keep (λ i. not (has_slug (candidate stem k) i)) rows

  has_slug→eq : (a b : List ℕ) (i : Incident) → has_slug a i ≡ true → has_slug b i ≡ true → a ≡ b
  has_slug→eq a b i ha hb = elim (Option-cases i.public_slug) [
    | inl e ↦ absurd (ground arith)
    | inr (t, e) ↦ ground (arith, same_codes_iff t a, same_codes_iff t b)
  ]

  length-without :
      (k : ℕ) (rows : List Incident)
      → taken incident_id rows (candidate stem k) ≡ true
      → length (without k rows) < length rows
  length-without k rows h = length-keep-lt _ _ rows (λ i e. ground arith) h

  taken-without :
      (j k : ℕ) (rows : List Incident)
      → j ≢ k
      → taken incident_id (without k rows) (candidate stem j)
        ≡ taken incident_id rows (candidate stem j)
  taken-without j k rows ne = find-keep _ _ rows λ i e.
      elim (Bool-cases (has_slug (candidate stem k) i)) [
        | inl both ↦
            absurd (ne (candidate-injective stem j k (has_slug→eq _ _ i (ground arith) both)))
        | inr free ↦ rw free
      ]

  find_free_total :
      (fuel k : ℕ) (clash : List ℕ → Bool) (rows : List Incident)
      → 1 ≤ k
      → length rows < fuel
      → ((j : ℕ) → k ≤ j → clash (candidate stem j) ≡ taken incident_id rows (candidate stem j))
      → (slug : List ℕ) × (find_free fuel clash stem (candidate stem k) k ≡ some slug)
  unfolding find_free
  find_free_total zero k clash rows one room agree = absurd (omega arith)
  find_free_total (suc fuel) k clash rows one room agree =
      elim (Bool-cases (clash (candidate stem k))) [
        | inr free ↦ (candidate stem k, rw (free, find_free))
        | inl used ↦
            let fewer = length-without k rows (sym (agree k (omega arith)) ∙ used) in
            let (slug, found) =
              find_free_total fuel (k + 1) clash (without k rows) (omega arith) (omega arith)
                (λ j above. agree j (omega arith) ∙ sym (taken-without j k rows (omega arith))) in
            (slug, rw used (rw (candidate-later stem k one) at found))
      ]

-- The search gives a slug, whatever the incidents are, and no other incident has it.
pub generate_unique_public_slug-free :
    (rows : List Incident) (title incident_id : String)
    → (slug : List ℕ) × (generate_unique_public_slug rows title incident_id ≡ some slug)
      × (taken incident_id rows slug ≡ false)
unfolding generate_unique_public_slug
generate_unique_public_slug-free rows title incident_id =
    let stem = slug_stem title incident_id in
    let (slug, found) =
      find_free_total incident_id stem (suc (length rows)) 1 (taken incident_id rows) rows
        (omega arith) (omega arith) (λ j above. refl) in
    let run = rw (candidate-first stem) at found in
    (slug, run, find_free_sound (suc (length rows)) (taken incident_id rows) stem stem 1 slug run)
