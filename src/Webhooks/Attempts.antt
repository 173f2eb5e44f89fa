-- ===== src/Webhooks/Attempts.antt =====
-- The attempts of one dispatch.
use kritvia_global_dashboard.Base.{
  Bool, Bool-cases, List, [], any, ap, if◌then◌else◌, inl, inr, length, map, refl, true, ℕ, ◌++◌,
  ◌∷◌, ◌≡◌,
}
use kritvia_global_dashboard.Webhooks.{DispatchJobPayload, Hooks}
use kritvia_global_dashboard.Webhooks.Delivery.{
  Net, attempt_from, delivery_of, dispatch_to_endpoint, endpoint_exists, on_failure, on_success,
  request_of, returned, succeeded, thrown,
}

-- The attempts are numbered from one, and end with the first that succeeds, or the third.
abbrev pub attempts_made : (ℕ → Bool) → List ℕ
attempts_made success =
    if success 1 then 1 ∷ [] else if success 2 then 1 ∷ 2 ∷ [] else 1 ∷ 2 ∷ 3 ∷ []

abbrev pub any_success : (ℕ → Bool) → Bool
any_success success = any success (1 ∷ 2 ∷ 3 ∷ [])

abbrev pub copies {ℓ} : {A : Type ℓ} → A → List ℕ → List A
copies a [] = []
copies a (n ∷ ns) = a ∷ copies a ns

append-append {ℓ} : {A : Type ℓ} (xs ys zs : List A) → (xs ++ ys) ++ zs ≡ xs ++ (ys ++ zs)
append-append [] ys zs = refl
append-append (x ∷ xs) ys zs = ap (λ l. x ∷ l) (append-append xs ys zs)

module _ (net : Net) (job : DispatchJobPayload) where
  abbrev pub success_at : ℕ → Bool
  success_at attempt = succeeded (net.fetch attempt)

  -- The tables once the attempts are made.
  abbrev pub after_attempts : Hooks → Hooks
  after_attempts s = record s {
    requests = s.requests ++ copies (request_of net job) (attempts_made success_at);
    deliveries = s.deliveries ++ map (delivery_of net job) (attempts_made success_at);
  }

  -- The attempt that ends the dispatch.
  abbrev pub last_attempt : ℕ
  last_attempt = length (attempts_made success_at)

  -- A dispatch to an endpoint of the table sends the request and records a delivery once for each
  -- attempt, up to the first that succeeds and at most three times. If one succeeds, it returns
  -- with the failures reset; otherwise it counts one failure, records the spike and throws.
  pub dispatch_to_endpoint_lem :
      (s : Hooks)
      → endpoint_exists net job s ≡ true
      → dispatch_to_endpoint net job s ≡ (
          if any_success success_at
          then (on_success net job (net.clock last_attempt) (after_attempts s), returned)
          else (on_failure net job 3 (net.clock 3) (after_attempts s), thrown))
  unfolding dispatch_to_endpoint attempt_from
  dispatch_to_endpoint_lem s known = elim (Bool-cases (success_at 1)) [
    | inl first ↦ simp (known, first)
    | inr no_first ↦ elim (Bool-cases (success_at 2)) [
      | inl second ↦ simp (known, no_first, second, append-append)
      | inr no_second ↦ elim (Bool-cases (success_at 3)) [
        | inl third ↦ simp (known, no_first, no_second, third, append-append)
        | inr no_third ↦ simp (known, no_first, no_second, no_third, append-append)
      ]
    ]
  ]
