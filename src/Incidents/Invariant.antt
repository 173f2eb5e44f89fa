-- ===== src/Incidents/Invariant.antt =====
-- What holds of the table of incidents after any history of calls.
use kritvia_global_dashboard.Base.{
  All, All-map, Bool, Bool-cases, List, Option, Pairs, Pairs-concat, Pairs-update, String, Unit-All,
  [], arith, changed, eq_iff, false, find_none-All, inl, inr, is_text_self, ok, some, sym, update,
  ℕ, ◌++◌, ◌∙◌, ◌∷◌, ◌≡◌, ◌≢◌,
}
use kritvia_global_dashboard.Incidents.{AlertEvent, Incident, Store, has_id}
use kritvia_global_dashboard.Incidents.Changes.{
  Change, Env, FreshId, Keeps, Op, acts_for, added, edited, published, same, step,
}
use kritvia_global_dashboard.Incidents.Changes.Isolation.{DifferentIds, UniqueIds}
use kritvia_global_dashboard.Incidents.Changes.Steps.{step-Change}
use kritvia_global_dashboard.Incidents.FromAlerts.{from_alert, new_incident}
use kritvia_global_dashboard.Incidents.Slug.{taken}
use kritvia_global_dashboard.Incidents.Slug.Free.{same_codes_iff}

-- Not both made from the same alert event of one organisation.
abbrev pub DifferentAlerts : Incident → Incident → Type 0
DifferentAlerts i j =
    (a : String) → i.org_id ≡ j.org_id → i.alert_event_id ≡ some a → j.alert_event_id ≡ some a → ⊥

abbrev pub DifferentSlugs : Incident → Incident → Type 0
DifferentSlugs i j = (t : List ℕ) → i.public_slug ≡ some t → j.public_slug ≡ some t → ⊥

pub record Inv (rows : List Incident) : Type 0 where
  pub unique_ids : UniqueIds rows
  pub once_per_alert : Pairs DifferentAlerts rows
  pub unique_slugs : Pairs DifferentSlugs rows

-- Keeping the key columns of every row keeps what is said of any two rows by these alone.
module _ (rows : List Incident) (p : Incident → Bool) (f : Incident → Incident) (k : Keeps f) where
  changed-id : (i : Incident) → (changed p f i).id ≡ i.id
  changed-id i = ground (arith, k.id i)

  changed-org_id : (i : Incident) → (changed p f i).org_id ≡ i.org_id
  changed-org_id i = ground (arith, k.org_id i)

  changed-alert : (i : Incident) → (changed p f i).alert_event_id ≡ i.alert_event_id
  changed-alert i = ground (arith, k.alert_event_id i)

  update-UniqueIds : UniqueIds rows → UniqueIds (update p f rows)
  update-UniqueIds =
      Pairs-update (λ i. Unit {0}) p f DifferentIds DifferentIds rows
        (λ i j _ _ ne e. ne (sym (changed-id i) ∙ e ∙ changed-id j)) (Unit-All rows)

  update-once_per_alert : Pairs DifferentAlerts rows → Pairs DifferentAlerts (update p f rows)
  update-once_per_alert =
      Pairs-update (λ i. Unit {0}) p f DifferentAlerts DifferentAlerts rows
        (λ i j _ _ ne a same e₁ e₂.
          ne a (sym (changed-org_id i) ∙ same ∙ changed-org_id j) (sym (changed-alert i) ∙ e₁)
            (sym (changed-alert j) ∙ e₂))
        (Unit-All rows)

  update-unique_slugs :
      ((i : Incident) → (f i).public_slug ≡ i.public_slug)
      → Pairs DifferentSlugs rows
      → Pairs DifferentSlugs (update p f rows)
  update-unique_slugs keeps =
      Pairs-update (λ i. Unit {0}) p f DifferentSlugs DifferentSlugs rows
        (λ i j _ _ ne t e₁ e₂. ne t (sym (slug i) ∙ e₁) (sym (slug j) ∙ e₂)) (Unit-All rows)
    where
      slug : (i : Incident) → (changed p f i).public_slug ≡ i.public_slug
      slug i = ground (arith, keeps i)

-- A row that is not the published one has another slug than the new one.
abbrev SlugFree : String → List ℕ → Incident → Type 0
SlugFree id slug i = i.id ≢ id → i.public_slug ≢ some slug

SlugFree-taken :
    (rows : List Incident) (id : String) (slug : List ℕ)
    → taken id rows slug ≡ false
    → All (SlugFree id slug) rows
SlugFree-taken rows id slug h =
    All-map _ _ rows (λ i e ne has. ground (arith, eq_iff i.id id, same_codes_iff slug slug))
      (find_none-All _ rows h)

module _ (i : Incident) (f : Incident → Incident) (slug : List ℕ) where
  slug_after :
      ((j : Incident) → (f j).public_slug ≡ some slug)
      → (x y : Incident) → SlugFree i.id slug x
      → SlugFree i.id slug y
      → DifferentIds x y × DifferentSlugs x y
      → DifferentSlugs (changed (has_id i.id) f x) (changed (has_id i.id) f y)
  slug_after sets x y fx fy (ne, different) t ex ey = elim (Bool-cases (has_id i.id x)) [
    | inl x_is ↦ elim (Bool-cases (has_id i.id y)) [
      | inl y_is ↦ ne ((eq_iff _ _).0 x_is ∙ sym ((eq_iff _ _).0 y_is))
      | inr y_not ↦ ground (arith, sets x, fy, eq_iff y.id i.id)
    ]
    | inr x_not ↦ elim (Bool-cases (has_id i.id y)) [
      | inl y_is ↦ ground (arith, sets y, fx, eq_iff x.id i.id)
      | inr y_not ↦ different t (rw x_not at ex) (rw y_not at ey)
    ]
  ]

both {ℓ} :
    (R S : Incident → Incident → Type ℓ) (rows : List Incident)
    → Pairs R rows
    → Pairs S rows
    → Pairs (λ i j. R i j × S i j) rows
both R S [] _ _ = tt
both R S (i ∷ rows) (r, rs) (s, ss) = (zipped rows r s, both R S rows rs ss)
  where
    zipped : (xs : List Incident) → All (R i) xs → All (S i) xs → All (λ j. R i j × S i j) xs
    zipped [] _ _ = tt
    zipped (x ∷ xs) (a, as_) (b, bs) = ((a, b), zipped xs as_ bs)

from_alert-Different :
    (e : AlertEvent) (new_id severity : String) (now : ℕ) (i : Incident)
    → from_alert e i ≡ false
    → DifferentAlerts i (new_incident new_id e severity now)
from_alert-Different e new_id severity now i h a same_org e₁ e₂ =
    let same_alert : i.alert_event_id ≡ some e.id = e₁ ∙ sym e₂ in
    ground (arith, eq_iff i.org_id e.org_id, is_text_self e.id)

Change-Inv :
    (org : Option String) (before rows : List Incident)
    → Change org before rows
    → Inv before
    → Inv rows
Change-Inv org before _ same v = v
Change-Inv org before _ (edited i f m e k slug) v = record {
  unique_ids = update-UniqueIds before (has_id i.id) f k v.unique_ids;
  once_per_alert = update-once_per_alert before (has_id i.id) f k v.once_per_alert;
  unique_slugs = update-unique_slugs before (has_id i.id) f k slug v.unique_slugs;
}
Change-Inv org before _ (published i f slug m e k sets free) v = record {
  unique_ids = update-UniqueIds before (has_id i.id) f k v.unique_ids;
  once_per_alert = update-once_per_alert before (has_id i.id) f k v.once_per_alert;
  unique_slugs =
      Pairs-update (SlugFree i.id slug) (has_id i.id) f
        (λ x y. DifferentIds x y × DifferentSlugs x y) DifferentSlugs before
        (slug_after i f slug sets) (SlugFree-taken before i.id slug free)
        (both DifferentIds DifferentSlugs before v.unique_ids v.unique_slugs);
}
Change-Inv org before _ (added e new_id severity now same_org fresh free) v = record {
  unique_ids = Pairs-concat DifferentIds before _ v.unique_ids fresh;
  once_per_alert = Pairs-concat DifferentAlerts before _ v.once_per_alert (
      All-map _ _ before (from_alert-Different e new_id severity now)
        (find_none-All _ before free));
  unique_slugs =
      Pairs-concat DifferentSlugs before _ v.unique_slugs
        (All-map _ _ before (λ i _ t e₁ e₂. cc) fresh);
}

-- The stores that a history of calls and of new alert events can lead to.
pub data Reach (env : Env) : Store → Type 0 where
  start : (s : Store) → s.incidents ≡ [] → Reach env s
  alerted :
      {s : Store} (e : AlertEvent)
      → Reach env s
      → Reach env (record s { alert_events = s.alert_events ++ e ∷ [] })
  called :
      {s s' : Store} (op : Op) → Reach env s → FreshId s op → step env s op ≡ ok s' → Reach env s'

-- After any history that begins with no incident, identifiers are unique, no alert event has two
-- incidents in its organisation, and no two incidents share a public slug.
pub Reach-Inv : (env : Env) (s : Store) → Reach env s → Inv s.incidents
Reach-Inv env s (start _ e) =
    rw e (record { unique_ids = tt; once_per_alert = tt; unique_slugs = tt })
Reach-Inv env _ (alerted {s} e r) = Reach-Inv env s r
Reach-Inv env s' (called {s} op r fresh h) =
    Change-Inv (acts_for s op) s.incidents s'.incidents (step-Change env s s' op fresh h)
      (Reach-Inv env s r)
