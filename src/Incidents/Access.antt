-- ===== src/Incidents/Access.antt =====
-- Who may acknowledge and resolve an incident, and what that does to it.
use kritvia_global_dashboard.Base.{
  >>-eq-ok, >>=-eq-ok, All, All-update, AuthUserContext, Bool-cases, Memᴰ, Option, Outcome-cases,
  String, Unit-All, admin, ap, arith, ceo, changed, eq_iff, eq_refl, find, find-mem,
  get_active_org_id, inl, inr, is_ceo_or_admin, is_text, is_text_self, is_text→eq, mem-All,
  mem-find, mem-update, ok, refl, require-eq-ok, some, sym, true, update, ℕ, ◌&&◌, ◌===◌, ◌||◌, ◌↔◌,
  ◌∙◌, ◌≡◌, ◌⊎◌, ◌>>=◌,
}
use kritvia_global_dashboard.Incidents.{Incident, Store, acknowledged, assert_incident, has_id}
use kritvia_global_dashboard.Incidents.Changes.Requests.{assert_incident-ok, with_incident-ok}
use kritvia_global_dashboard.Incidents.Lifecycle.{
  IncidentView, acknowledge_incident, acknowledge_row, acknowledge_tables, assert_can_acknowledge,
  get_incident,
}
use mathlib.Core.Bool.{false≢true, and-eq-true_iff}

abbrev pub IsChief : AuthUserContext → Type 0
IsChief user = (user.role ≡ ceo) ⊎ (user.role ≡ admin)

-- The user's organisation has the incident, and the user is a chief or on call for it.
pub record MayAcknowledge (primary : String → Option String) (s : Store) (user : AuthUserContext)
    (id : String) : Type 0 where
  pub incident : Incident
  pub listed : Memᴰ incident s.incidents
  pub same_id : incident.id ≡ id
  pub own_org : get_active_org_id user ≡ ok incident.org_id
  pub entitled : IsChief user ⊎ (primary incident.org_id ≡ some user.user_id)

-- The same with the owner in place of the one on call.
pub record MayResolve (s : Store) (user : AuthUserContext) (incident : Incident) : Type 0 where
  pub listed : Memᴰ incident s.incidents
  pub own_org : get_active_org_id user ≡ ok incident.org_id
  pub entitled : IsChief user ⊎ (incident.owner_user_id ≡ some user.user_id)

IsChief-test : (user : AuthUserContext) → is_ceo_or_admin user.role ≡ true → IsChief user
IsChief-test user h = ground arith

entitled-test :
    (user : AuthUserContext) (o : Option String)
    → (is_ceo_or_admin user.role || is_text o user.user_id) ≡ true
    → IsChief user ⊎ (o ≡ some user.user_id)
entitled-test user o h = elim (Bool-cases (is_ceo_or_admin user.role)) [
  | inl chief ↦ inl (IsChief-test user chief)
  | inr other ↦ inr (is_text→eq o user.user_id (ground arith))
]

test-entitled :
    (user : AuthUserContext) (o : Option String)
    → IsChief user ⊎ (o ≡ some user.user_id)
    → (is_ceo_or_admin user.role || is_text o user.user_id) ≡ true
test-entitled user o (inl chief) = ground arith
test-entitled user o (inr e) = ground (arith, is_text_self user.user_id)

-- The row that a table holds for an identifier after an update of that row.
find-update :
    (s t : Store) (org_id id : String) (f : Incident → Incident) (P : Incident → Type 0)
    (i : Incident)
    → t.incidents ≡ update (has_id id) f s.incidents
    → ((j : Incident) → P (f j))
    → assert_incident t org_id id ≡ ok i
    → P i × (i.id ≡ id)
find-update s t org_id id f P i e holds h =
    let (m, same_id, same_org) = assert_incident-ok t org_id id i h in
    let all : All (λ j. has_id id j ≡ true → P j) t.incidents = rw e (
      All-update (λ j. Unit {0}) (has_id id) f (λ j. has_id id j ≡ true → P j) s.incidents
        (λ j _ passes. updated j passes) (Unit-All s.incidents)) in
    (mem-All _ m all ((eq_iff i.id id).1 same_id), same_id)
  where
    updated :
        (j : Incident) → has_id id (changed (has_id id) f j) ≡ true → P (changed (has_id id) f j)
    updated j passes = elim (Bool-cases (has_id id j)) [
      | inl hit ↦ rw hit (holds j)
      | inr miss ↦ absurd (false≢true (sym miss ∙ (rw miss at passes)))
    ]

-- A row of the organisation is still found after an update that keeps its key columns.
get_incident_updated :
    (s t : Store) (user : AuthUserContext) (i : Incident) (f : Incident → Incident)
    → Memᴰ i s.incidents
    → get_active_org_id user ≡ ok i.org_id
    → t.incidents ≡ update (has_id i.id) f s.incidents
    → ((j : Incident) → (f j).id ≡ j.id)
    → ((j : Incident) → (f j).org_id ≡ j.org_id)
    → (view : IncidentView) × (get_incident t user i.id ≡ ok view)
unfolding get_incident assert_incident
get_incident_updated s t user i f m org e keeps_id keeps_org =
    let same : changed (has_id i.id) f i ≡ f i = rw eq_refl in
    let m' : Memᴰ (f i) t.incidents = rw (e, ← same) (mem-update (has_id i.id) f m) in
    let (y, found) =
      mem-find (λ j. has_id i.id j && j.org_id === i.org_id) m'
        (rw (keeps_id i, keeps_org i, eq_refl i.id, eq_refl i.org_id)) in
    elim (Outcome-cases (get_incident t user i.id)) [
      | inl found_view ↦ found_view
      | inr (x, failed) ↦ absurd (ground arith)
    ]

module _ (primary : String → Option String) (s : Store) (user : AuthUserContext) (id : String)
    (now : ℕ) where
  acknowledge-MayAcknowledge :
      (s' : Store) (view : IncidentView)
      → acknowledge_incident primary s user id now ≡ ok (s', view)
      → MayAcknowledge primary s user id
  unfolding acknowledge_incident
  acknowledge-MayAcknowledge s' view h =
      let (org_id, i, found, rest) = with_incident-ok s user id _ (s', view) h in
      let (may, rest1) =
        >>-eq-ok (assert_can_acknowledge user (primary org_id)) _ (s', view) rest in
      record {
        incident = i;
        listed = found.member;
        same_id = found.same_id;
        own_org = rw found.same_org found.org;
        entitled = rw found.same_org (entitled-test user (primary org_id) (require-eq-ok _ _ may));
      }

  acknowledge_run :
      (org : String) (y : Incident) (view : IncidentView)
      → get_active_org_id user ≡ ok org
      → find (λ i. has_id id i && i.org_id === org) s.incidents ≡ some y
      → (is_ceo_or_admin user.role || is_text (primary org) user.user_id) ≡ true
      → get_incident (acknowledge_tables y user org now s) user y.id ≡ ok view
      → acknowledge_incident primary s user id now ≡ ok (acknowledge_tables y user org now s, view)
  unfolding acknowledge_incident
  acknowledge_run org y view own found test answered =
      rw (own, found, test, answered, acknowledge_incident) refl

  MayAcknowledge-acknowledge :
      MayAcknowledge primary s user id
      → (r : Store × IncidentView) × (acknowledge_incident primary s user id now ≡ ok r)
  unfolding acknowledge_incident
  MayAcknowledge-acknowledge may =
      let org = may.incident.org_id in
      let (y, found) =
        mem-find (λ i. has_id id i && i.org_id === org) may.listed
          (rw (may.same_id, eq_refl id, eq_refl org)) in
      let (member, passes) = find-mem (λ i. has_id id i && i.org_id === org) s.incidents y found in
      let own : y.org_id ≡ org =
        (eq_iff y.org_id org).0 ((and-eq-true_iff (has_id id y) (y.org_id === org)).0 passes).1 in
      let test = test-entitled user (primary org) may.entitled in
      let t = acknowledge_tables y user org now s in
      let (view, answered) =
        get_incident_updated s t user y (acknowledge_row user.user_id now) member
          (may.own_org ∙ ap (λ o. ok o) (sym own)) refl (λ j. refl) (λ j. refl) in
      ((t, view), acknowledge_run org y view may.own_org found test answered)

  answer_of :
      (t : Store) (org_id : String) (i : Incident) (view : IncidentView)
      → get_incident t user i.id ≡ ok view
      → get_active_org_id user ≡ ok org_id
      → assert_incident t org_id i.id ≡ ok view.incident
  unfolding get_incident
  answer_of t org_id i view h own =
      let (o, got, h1) = >>=-eq-ok (get_active_org_id user) _ view h in
      let (j, found, h2) = >>=-eq-ok (assert_incident t o i.id) _ view h1 in
      let same : o ≡ org_id = ground arith in
      let answer : j ≡ view.incident = ground arith in rw (← same, ← answer) found

view_answer :
    (t s' : Store) (user : AuthUserContext) (i : Incident) (view : IncidentView)
    → ◌>>=◌ {B = Store × IncidentView} (get_incident t user i.id) (λ v. ok (t, v)) ≡ ok (s', view)
    → get_incident t user i.id ≡ ok view
view_answer t s' user i view h =
    let (v, got, h1) = >>=-eq-ok (get_incident t user i.id) _ (s', view) h in
    let same : v ≡ view = ground arith in rw (← same) got

-- Acknowledging succeeds exactly when the user's organisation has the incident and the user is a
-- CEO, an administrator or the organisation's primary on call. It gives an answer in no other case.
pub acknowledge_incident_iff :
    (primary : String → Option String) (s : Store) (user : AuthUserContext) (id : String) (now : ℕ)
    → ((r : Store × IncidentView) × (acknowledge_incident primary s user id now ≡ ok r))
      ↔ MayAcknowledge primary s user id
acknowledge_incident_iff primary s user id now = (
  λ (r, e). acknowledge-MayAcknowledge primary s user id now r.0 r.1 e,
  MayAcknowledge-acknowledge primary s user id now,
)

-- The answer shows the incident acknowledged at that moment, with the user as its owner.
pub acknowledge_incident_effect :
    (primary : String → Option String) (s s' : Store) (user : AuthUserContext) (id : String)
    (now : ℕ) (view : IncidentView)
    → acknowledge_incident primary s user id now ≡ ok (s', view)
    → (view.incident.id ≡ id)
      × (view.incident.status ≡ acknowledged)
      × (view.incident.owner_user_id ≡ some user.user_id)
      × (view.incident.acknowledged_at ≡ some now)
unfolding acknowledge_incident
acknowledge_incident_effect primary s s' user id now view h =
    let (org_id, i, found, rest) = with_incident-ok s user id _ (s', view) h in
    let (may, rest1) = >>-eq-ok (assert_can_acknowledge user (primary org_id)) _ (s', view) rest in
    let t = acknowledge_tables i user org_id now s in
    let answer =
      answer_of primary s user id now t org_id i view (view_answer t s' user i view rest1)
        found.org in
    let (effect, same_id) =
      find-update s t org_id i.id (acknowledge_row user.user_id now)
        (λ j.
          (j.status ≡ acknowledged)
          × (j.owner_user_id ≡ some user.user_id)
          × (j.acknowledged_at ≡ some now))
        view.incident refl (λ j. (refl, refl, refl)) answer in
    (same_id ∙ found.same_id, effect.0, effect.1, effect.2)
