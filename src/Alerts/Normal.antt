-- ===== src/Alerts/Normal.antt =====
-- The form that the steps of a policy are stored and read in.
use kritvia_global_dashboard.Alerts.{
  EscalationStep, JsonNumber, JsonStep, JsonSteps, no_entry, no_steps, step_entry, step_list,
}
use kritvia_global_dashboard.Alerts.Steps.{
  insert_step, is_route, normalize_alert_severity, normalize_escalation_steps, normalize_step,
  normalize_step_entries, normalize_step_severity, round_at_least_one, rounded, route_types,
  sort_steps, step_to_json,
}
use kritvia_global_dashboard.Base.{
  All, All-map, All-mem, Bool, Bool-cases, List, Pairs, String, [], any-mem, ap, arith, eq_iff,
  false, inl, inr, keep, leb, length, ltb, map, mem-All, mem-keep, none, refl, some, suc, sym, true,
  zero, ℕ, ◌===◌, ◌∙◌, ◌∷◌, ◌≡◌, ◌≤◌, ◌⊎◌,
}
use kritvia_global_dashboard.Invoices.{negsuc, pos, ℤ}

-- What a normalised step has: at least a minute, at least one route, known routes only, and one of
-- three severities.
pub record IsNormal (x : EscalationStep) : Type 0 where
  pub late : 1 ≤ x.after_minutes
  pub some_route : ltb 0 (length x.route_to) ≡ true
  pub routes : All (λ r. is_route r ≡ true) x.route_to
  pub severity :
      (x.min_severity ≡ "CRITICAL") ⊎ ((x.min_severity ≡ "HIGH") ⊎ (x.min_severity ≡ "MEDIUM"))

abbrev pub NoLater : EscalationStep → EscalationStep → Type 0
NoLater a b = a.after_minutes ≤ b.after_minutes

insert_step-All {κ} :
    (P : EscalationStep → Type κ) (a : EscalationStep) (bs : List EscalationStep)
    → P a
    → All P bs
    → All P (insert_step a bs)
insert_step-All P a [] h k = (h, tt)
insert_step-All P a (b ∷ bs) h (k, ks) = elim (Bool-cases (leb a.after_minutes b.after_minutes)) [
  | inl e ↦ rw e (h, (k, ks))
  | inr e ↦ rw e (k, insert_step-All P a bs h ks)
]

sort_steps-All {κ} :
    (P : EscalationStep → Type κ) (xs : List EscalationStep) → All P xs → All P (sort_steps xs)
sort_steps-All P [] h = tt
sort_steps-All P (x ∷ xs) (h, hs) = insert_step-All P x (sort_steps xs) h (sort_steps-All P xs hs)

insert_step-NoLater :
    (a : EscalationStep) (bs : List EscalationStep)
    → Pairs NoLater bs
    → Pairs NoLater (insert_step a bs)
insert_step-NoLater a [] h = (tt, tt)
insert_step-NoLater a (b ∷ bs) (h, hs) = elim (Bool-cases (leb a.after_minutes b.after_minutes)) [
  | inl e ↦
      let first : NoLater a b = ground arith in
      rw e ((first, All-map (NoLater b) (NoLater a) bs (λ x k. omega (arith, first, k)) h), (h, hs))
  | inr e ↦ rw e (insert_step-All (NoLater b) a bs (ground arith) h, insert_step-NoLater a bs hs)
]

sort_steps-NoLater : (xs : List EscalationStep) → Pairs NoLater (sort_steps xs)
sort_steps-NoLater [] = tt
sort_steps-NoLater (x ∷ xs) = insert_step-NoLater x (sort_steps xs) (sort_steps-NoLater xs)

insert_step_first :
    (a : EscalationStep) (bs : List EscalationStep) → All (NoLater a) bs → insert_step a bs ≡ a ∷ bs
insert_step_first a [] h = refl
insert_step_first a (b ∷ bs) (h, hs) = ground arith

sort_steps_sorted : (xs : List EscalationStep) → Pairs NoLater xs → sort_steps xs ≡ xs
sort_steps_sorted [] h = refl
sort_steps_sorted (x ∷ xs) (h, hs) =
    ap (insert_step x) (sort_steps_sorted xs hs) ∙ insert_step_first x xs h

round_at_least_one_bound : (x : JsonNumber) → 1 ≤ round_at_least_one x
round_at_least_one_bound x = rounded_bound x.whole x.rounds_up
  where
    rounded_bound : (z : ℤ) (up : Bool) → 1 ≤ rounded z up
    rounded_bound (pos zero) up = omega arith
    rounded_bound (pos (suc n)) true = omega arith
    rounded_bound (pos (suc n)) false = omega arith
    rounded_bound (negsuc n) up = omega arith

normalize_step_severity-cases :
    (upper : String → String) (value : String)
    → let n = normalize_step_severity upper value in
      (n ≡ "CRITICAL") ⊎ ((n ≡ "HIGH") ⊎ (n ≡ "MEDIUM"))
unfolding normalize_step_severity
normalize_step_severity-cases upper value =
    elim (Bool-cases (normalize_alert_severity upper value === "CRITICAL")) [
      | inl e ↦ rw e (inl ((eq_iff _ _).0 e))
      | inr e ↦ elim (Bool-cases (normalize_alert_severity upper value === "HIGH")) [
        | inl f ↦ rw (e, f) (inr (inl ((eq_iff _ _).0 f)))
        | inr f ↦ rw (e, f) (inr (inr refl))
      ]
    ]

-- A step but for the test of an empty list of routes.
record IsNearly (x : EscalationStep) : Type 0 where
  late : 1 ≤ x.after_minutes
  routes : All (λ r. is_route r ≡ true) x.route_to
  severity :
      (x.min_severity ≡ "CRITICAL") ⊎ ((x.min_severity ≡ "HIGH") ⊎ (x.min_severity ≡ "MEDIUM"))

keep-All {ℓ} : {A : Type ℓ} (f : A → Bool) (xs : List A) → All (λ x. f x ≡ true) (keep f xs)
keep-All f xs = All-mem (keep f xs) (λ x m. (mem-keep f xs x m).1)

normalize_step_entries-IsNearly :
    (upper : String → String) (entries : List JsonStep)
    → All IsNearly (normalize_step_entries upper entries)
unfolding normalize_step_entries
normalize_step_entries-IsNearly upper [] = tt
normalize_step_entries-IsNearly upper (no_entry ∷ es) = normalize_step_entries-IsNearly upper es
normalize_step_entries-IsNearly upper (step_entry none r v ∷ es) =
    normalize_step_entries-IsNearly upper es
normalize_step_entries-IsNearly upper (step_entry (some n) none v ∷ es) =
    normalize_step_entries-IsNearly upper es
normalize_step_entries-IsNearly upper (step_entry (some n) (some []) v ∷ es) =
    normalize_step_entries-IsNearly upper es
normalize_step_entries-IsNearly upper (step_entry (some n) (some (r ∷ rs)) none ∷ es) =
    normalize_step_entries-IsNearly upper es
normalize_step_entries-IsNearly upper (step_entry (some n) (some (r ∷ rs)) (some v) ∷ es) = (
  record {
    late = round_at_least_one_bound n;
    routes = keep-All is_route (map upper (r ∷ rs));
    severity = normalize_step_severity-cases upper v;
  },
  normalize_step_entries-IsNearly upper es,
)

-- The steps that a policy is read with are normal and stand in the order of their minutes, whatever
-- the column holds.
pub normalize_escalation_steps-IsNormal :
    (upper : String → String) (raw : JsonSteps)
    → let steps = normalize_escalation_steps upper raw in All IsNormal steps × Pairs NoLater steps
unfolding normalize_escalation_steps
normalize_escalation_steps-IsNormal upper no_steps = (tt, tt)
normalize_escalation_steps-IsNormal upper (step_list entries) = (
  sort_steps-All IsNormal _ (
      All-mem _ λ x m.
        let (there, e) =
          mem-keep (λ s. ltb 0 (length s.route_to)) (normalize_step_entries upper entries) x m in
        let near = mem-All IsNearly there (normalize_step_entries-IsNearly upper entries) in
        record {
          late = near.late;
          some_route = e;
          routes = near.routes;
          severity = near.severity;
        }),
  sort_steps-NoLater (keep (λ s. ltb 0 (length s.route_to)) (normalize_step_entries upper entries)),
)

-- The words in capitals are those that toUpperCase leaves as they are.
abbrev pub Keeps : (String → String) → Type 0
Keeps upper = All (λ t. upper t ≡ t) ("CRITICAL" ∷ "HIGH" ∷ "MEDIUM" ∷ route_types)

keep-eq_self {ℓ} :
    {A : Type ℓ} (f : A → Bool) (xs : List A) → All (λ x. f x ≡ true) xs → keep f xs ≡ xs
keep-eq_self f [] h = refl
keep-eq_self f (x ∷ xs) (h, hs) = rw h (ap (λ l. x ∷ l) (keep-eq_self f xs hs))

map_same :
    (upper : String → String) (xs : List String) → All (λ t. upper t ≡ t) xs → map upper xs ≡ xs
map_same upper [] h = refl
map_same upper (x ∷ xs) (h, hs) = rw (h, map_same upper xs hs) refl

is_route-upper :
    (upper : String → String) → Keeps upper → (r : String) → is_route r ≡ true → upper r ≡ r
is_route-upper upper (_, (_, (_, h))) r e =
    let (k, m, same_text) = any-mem (λ t. t === r) route_types e in
    let q : upper k ≡ k = mem-All (λ t. upper t ≡ t) m h in
    ap upper (sym ((eq_iff k r).0 same_text)) ∙ q ∙ (eq_iff k r).0 same_text

step_severity_again :
    (upper : String → String)
    → Keeps upper
    → (x : EscalationStep) → IsNormal x
    → normalize_step_severity upper x.min_severity ≡ x.min_severity
unfolding normalize_step_severity
step_severity_again upper (c, (h, (m, _))) x normal = elim normal.severity [
  | inl e ↦ rw (e, c) refl
  | inr (inl e) ↦ rw (e, h) refl
  | inr (inr e) ↦ rw (e, m) refl
]

rounded_again : (n : ℕ) → 1 ≤ n → rounded (pos n) false ≡ n
rounded_again zero h = omega (arith, h)
rounded_again (suc n) h = refl

routes_again :
    (upper : String → String)
    → Keeps upper
    → (routes : List String) → All (λ r. is_route r ≡ true) routes
    → keep is_route (map upper routes) ≡ routes
routes_again upper k routes h =
    ap (keep is_route) (map_same upper routes (All-map _ _ routes (is_route-upper upper k) h))
    ∙ keep-eq_self is_route routes h

normalize_step_filled :
    (upper : String → String) (n : JsonNumber) (routes : List String) (value : String)
    → ltb 0 (length routes) ≡ true
    → normalize_step upper (step_entry (some n) (some routes) (some value))
      ≡ some (record {
        after_minutes = round_at_least_one n;
        route_to = keep is_route (map upper routes);
        min_severity = normalize_step_severity upper value;
      })
unfolding normalize_step
normalize_step_filled upper n [] value h = absurd (ground arith)
normalize_step_filled upper n (r ∷ rs) value h = refl

normalize_step_again :
    (upper : String → String)
    → Keeps upper
    → (x : EscalationStep) → IsNormal x
    → normalize_step upper (step_to_json x) ≡ some x
normalize_step_again upper k x h =
    normalize_step_filled upper _ x.route_to x.min_severity h.some_route
    ∙ rw
        (
          rounded_again x.after_minutes h.late,
          routes_again upper k x.route_to h.routes,
          step_severity_again upper k x h,
        )
        refl

normalize_step_entries_again :
    (upper : String → String)
    → Keeps upper
    → (xs : List EscalationStep) → All IsNormal xs
    → normalize_step_entries upper (map step_to_json xs) ≡ xs
unfolding normalize_step_entries
normalize_step_entries_again upper k [] h = refl
normalize_step_entries_again upper k (x ∷ xs) (h, hs) =
    rw (normalize_step_again upper k x h)
      (ap (λ l. x ∷ l) (normalize_step_entries_again upper k xs hs))

-- Normalised steps that are stored, as an update of the policy does, are read back unchanged, if
-- toUpperCase leaves the words of the severities and the routes as they are.
pub normalize_escalation_steps-stored :
    (upper : String → String) (raw : JsonSteps)
    → Keeps upper
    → let steps = normalize_escalation_steps upper raw in
      normalize_escalation_steps upper (step_list (map step_to_json steps)) ≡ steps
unfolding normalize_escalation_steps
normalize_escalation_steps-stored upper raw k =
    let steps = normalize_escalation_steps upper raw in
    let (normal, order) = normalize_escalation_steps-IsNormal upper raw in
    ap (λ l. sort_steps (keep (λ s. ltb 0 (length s.route_to)) l))
      (normalize_step_entries_again upper k steps normal)
    ∙ ap sort_steps (keep-eq_self _ steps (All-map IsNormal _ steps (λ x h. h.some_route) normal))
    ∙ sort_steps_sorted steps order
