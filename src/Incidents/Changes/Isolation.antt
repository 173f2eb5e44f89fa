-- ===== src/Incidents/Changes/Isolation.antt =====
-- A call leaves the incidents of all other organisations as they were.
use kritvia_global_dashboard.Base.{
  All, All-map, Bool, Bool-cases, List, Memᴰ, Option, Pairs, String, [], arith, eq_iff, false, inl,
  inr, is_text, keep, mem-All, not, ok, refl, some, sym, update, ◌++◌, ◌∷◌, ◌≡◌, ◌≢◌,
}
use kritvia_global_dashboard.Incidents.{Incident, Store, has_id}
use kritvia_global_dashboard.Incidents.Changes.{
  Change, Env, FreshId, Keeps, Op, acts_for, added, edited, published, same, step,
}
use kritvia_global_dashboard.Incidents.Changes.Steps.{step-Change}
use kritvia_global_dashboard.Incidents.FromAlerts.{new_incident}

abbrev pub DifferentIds : Incident → Incident → Type 0
DifferentIds i j = i.id ≢ j.id

-- The primary key of the table.
abbrev pub UniqueIds : List Incident → Type 0
UniqueIds = Pairs DifferentIds

abbrev pub foreign : Option String → Incident → Bool
foreign org i = not (is_text org i.org_id)

-- In a table with unique identifiers a row is known by its identifier.
same_row :
    (rows : List Incident) (i : Incident)
    → UniqueIds rows
    → Memᴰ i rows
    → All (λ j. j.id ≡ i.id → j.org_id ≡ i.org_id) rows
same_row [] i _ m = elim m [ ]
same_row (j ∷ rows) i (differ, unique) (Memᴰ.head e) =
    (λ k. rw e, All-map _ _ rows (λ k ne same. absurd (ne (rw (← e) (sym same)))) differ)
same_row (j ∷ rows) i (differ, unique) (Memᴰ.tail m) =
    (λ same. absurd (mem-All _ m differ same), same_row rows i unique m)

keep-append :
    (p : Incident → Bool) (xs : List Incident) (x : Incident)
    → p x ≡ false
    → keep p (xs ++ x ∷ []) ≡ keep p xs
keep-append p [] x h = ground arith
keep-append p (y ∷ ys) x h = ground (arith, keep-append p ys x h)

keep-update :
    (org : Option String) (i : Incident) (f : Incident → Incident) (rows : List Incident)
    → org ≡ some i.org_id
    → Keeps f
    → All (λ j. j.id ≡ i.id → j.org_id ≡ i.org_id) rows
    → keep (foreign org) (update (has_id i.id) f rows) ≡ keep (foreign org) rows
keep-update org i f [] e k h = refl
keep-update org i f (j ∷ rows) e k (hj, h) = elim (Bool-cases (has_id i.id j)) [
  | inr other ↦ rw (other, keep-update org i f rows e k h)
  | inl this ↦
      let own : j.org_id ≡ i.org_id = hj ((eq_iff j.id i.id).0 this) in
      let gone : foreign org j ≡ false = ground (arith, eq_iff i.org_id j.org_id) in
      let gone' : foreign org (f j) ≡ false = ground (arith, k.org_id j) in
      rw (this, gone, gone', keep-update org i f rows e k h)
]

Change-foreign :
    (org : Option String) (before after_rows : List Incident)
    → UniqueIds before
    → Change org before after_rows
    → keep (foreign org) after_rows ≡ keep (foreign org) before
Change-foreign org before _ unique same = refl
Change-foreign org before _ unique (edited i f m e k slug) =
    keep-update org i f before e k (same_row before i unique m)
Change-foreign org before _ unique (published i f slug m e k s free) =
    keep-update org i f before e k (same_row before i unique m)
Change-foreign org before _ unique (added e new_id severity now same_org fresh free) =
    keep-append (foreign org) before (new_incident new_id e severity now)
      (ground (arith, eq_iff e.org_id e.org_id))

-- Where identifiers are unique, and that of a new row is fresh, a call for one organisation leaves the incidents of every other
-- organisation as they were, in content and in order.
pub step-foreign :
    (env : Env) (s s' : Store) (op : Op)
    → UniqueIds s.incidents
    → FreshId s op
    → step env s op ≡ ok s'
    → keep (foreign (acts_for s op)) s'.incidents ≡ keep (foreign (acts_for s op)) s.incidents
step-foreign env s s' op unique fresh h =
    Change-foreign (acts_for s op) s.incidents s'.incidents unique (step-Change env s s' op fresh h)
