-- ===== src/Alerts/History.antt =====
-- The counter of failures in memory against the list of all failures.
use kritvia_global_dashboard.Alerts.Bursts.{count_in_window-Counted}
use kritvia_global_dashboard.Alerts.Spikes.{
  AlertRule, Failure, Watch, counter_of, ensure_default_rules_for_org, joined, next_window,
  record_all, record_failure, rule_for, set_counter, window_of,
}
use kritvia_global_dashboard.Base.{
  All, All-map, All-mem, Bool, Bool-cases, List, Pairs, String, [], ap, arith, eq_refl, find,
  find-append, inl, inr, keep, leb, map, refl, some, sym, true, ℕ, ◌++◌, ◌-◌, ◌===◌, ◌∙◌, ◌∷◌, ◌≡◌,
  ◌≤◌,
}
use mathlib.Core.List.{append-nil, append_assoc}

counter_of-set_counter :
    (key : String) (times : List ℕ) (store : List (String × List ℕ))
    → counter_of key (set_counter key times store) ≡ times
counter_of-set_counter key times [] = rw (eq_refl key) refl
counter_of-set_counter key times ((k, old) ∷ rest) = elim (Bool-cases (k === key)) [
  | inl e ↦ rw e (rw (eq_refl key) refl)
  | inr e ↦ rw e (rw e (counter_of-set_counter key times rest))
]

-- A later cutoff does not see what an earlier one left out.
keep-keep :
    (c d : ℕ) (times : List ℕ)
    → c ≤ d
    → keep (λ t. leb d t) (keep (λ t. leb c t) times) ≡ keep (λ t. leb d t) times
keep-keep c d [] h = refl
keep-keep c d (t ∷ ts) h = ground (arith, keep-keep c d ts h)

keep-concat {ℓ} :
    {A : Type ℓ} (p : A → Bool) (xs : List A) (y : A)
    → p y ≡ true
    → keep p (xs ++ y ∷ []) ≡ keep p xs ++ y ∷ []
keep-concat p [] y h = rw h refl
keep-concat p (x ∷ xs) y h = elim (Bool-cases (p x)) [
  | inl e ↦ rw e (ap (λ l. x ∷ l) (keep-concat p xs y h))
  | inr e ↦ rw e (keep-concat p xs y h)
]

next_window_history :
    (window now c : ℕ) (times history : List ℕ)
    → times ≡ keep (λ t. leb c t) history
    → c ≤ now - window
    → next_window window now times ≡ keep (λ t. leb (now - window) t) (history ++ now ∷ [])
next_window_history window now c times history e h =
    let first : keep (λ t. leb (now - window) t) times ≡ keep (λ t. leb (now - window) t) history =
      ap (keep (λ t. leb (now - window) t)) e ∙ keep-keep c (now - window) history h in
    ap (λ l. l ++ now ∷ []) first
    ∙ sym (keep-concat (λ t. leb (now - window) t) history now (ground arith))

-- The failures are of one organisation and type.
abbrev pub OfKind : String → String → Failure → Type 0
OfKind org_id type f = (f.org_id ≡ org_id) × (f.type ≡ type)

abbrev pub TimeOrder : Failure → Failure → Type 0
TimeOrder f g = f.now ≤ g.now

-- The rule is found, and the counter has what a cutoff leaves of the history.
pub record Logged (org_id type : String) (r : AlertRule) (history : List ℕ) (c : ℕ) (s : Watch)
    : Type 0 where
  pub rule : find (rule_for org_id type) s.rules ≡ some r
  pub times : counter_of (joined org_id type) s.counter_state ≡ keep (λ t. leb c t) history

module _ (upper : String → String) where
  record_failure_own :
      (f : Failure) (r : AlertRule) (s : Watch) (history : List ℕ) (c : ℕ)
      → c ≤ f.now - window_of r
      → Logged f.org_id f.type r history c s
      → Logged f.org_id f.type r
          (history ++ f.now ∷ [])
          (f.now - window_of r)
          (record_failure upper f s)
  unfolding record_failure
  record_failure_own f r s history c h k =
      let rules = ensure_default_rules_for_org f.org_id f.new_rule_id s.rules in
      let seen : find (rule_for f.org_id f.type) rules ≡ some r =
        find-append (rule_for f.org_id f.type) s.rules _ r k.rule in
      let ends = count_in_window-Counted upper r f (record s { rules = rules }) in
      rw (seen, record_failure)
        (record {
          rule = ap (find (rule_for f.org_id f.type)) ends.same_rules ∙ seen;
          times =
              ap (counter_of (joined f.org_id f.type)) ends.counter
              ∙ counter_of-set_counter _ _ s.counter_state
              ∙ next_window_history (window_of r) f.now c _ history k.times h;
        })

module _ (upper : String → String) (org_id type : String) (r : AlertRule) where
  record_failure-Logged :
      (f : Failure) (s : Watch) (history : List ℕ) (c : ℕ)
      → OfKind org_id type f
      → c ≤ f.now - window_of r
      → Logged org_id type r history c s
      → Logged org_id type r
          (history ++ f.now ∷ [])
          (f.now - window_of r)
          (record_failure upper f s)
  record_failure-Logged f s history c (same_org, same_type) h k =
      let own : Logged f.org_id f.type r history c s = rw (same_org, same_type) k in
      rw (← same_org, ← same_type) (record_failure_own upper f r s history c h own)

  record_all-Logged :
      (fs : List Failure) (f : Failure) (s : Watch) (history : List ℕ) (c : ℕ)
      → All (OfKind org_id type) (fs ++ f ∷ [])
      → Pairs TimeOrder (fs ++ f ∷ [])
      → All (λ g. c ≤ g.now - window_of r) (fs ++ f ∷ [])
      → Logged org_id type r history c s
      → Logged org_id type r
          ((history ++ map (λ g. g.now) fs) ++ f.now ∷ [])
          (f.now - window_of r)
          (record_all upper (fs ++ f ∷ []) s)
  unfolding record_all
  record_all-Logged [] f s history c (k, _) o (l, _) h =
      rw (append-nil history) (record_failure-Logged f s history c k l h)
  record_all-Logged (g ∷ gs) f s history c (k, ks) (o, os) (l, ls) h =
      rw (sym (append_assoc history (g.now ∷ []) (map (λ x. x.now) gs))) (
        record_all-Logged gs f _ (history ++ g.now ∷ []) (g.now - window_of r) ks os
          (All-map (TimeOrder g) _ (gs ++ f ∷ []) (λ x e. omega (arith, e)) o)
          (record_failure-Logged g s history c k l h))

-- After a run of failures of one organisation and type, in the order of time, the counter in memory
-- holds just those of all the failures that lie in the window of the rule before the last: dropping
-- old ones on the way loses none that counts. The rule is in the table and the counter is empty at
-- the start.
pub record_all-window :
    (upper : String → String) (org_id type : String) (r : AlertRule) (fs : List Failure)
    (f : Failure) (s : Watch)
    → find (rule_for org_id type) s.rules ≡ some r
    → counter_of (joined org_id type) s.counter_state ≡ []
    → All (OfKind org_id type) (fs ++ f ∷ [])
    → Pairs TimeOrder (fs ++ f ∷ [])
    → counter_of (joined org_id type) (record_all upper (fs ++ f ∷ []) s).counter_state
      ≡ keep (λ t. leb (f.now - window_of r) t) (map (λ g. g.now) fs ++ f.now ∷ [])
record_all-window upper org_id type r fs f s rule empty kinds order =
    (record_all-Logged upper org_id type r fs f s [] 0 kinds order
      (All-mem (fs ++ f ∷ []) (λ g m. omega arith)) (record { rule = rule; times = empty })).times
