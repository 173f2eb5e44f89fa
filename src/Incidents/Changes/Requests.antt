-- ===== src/Incidents/Changes/Requests.antt =====
-- What each request of a user does to the table of incidents.
use kritvia_global_dashboard.Base.{
  >>-eq-ok, >>=-eq-ok, AuthUserContext, Bool-cases, Memᴰ, Option, Outcome, String, [], arith,
  eq_iff, fail, find-mem, forbidden, get_active_org_id, inl, inr, is_ceo_or_admin, is_text, ok,
  or_else, or_throw-eq-ok, refl, require, some, trim, update, ℕ, ◌===◌, ◌>>=◌, ◌||◌, ◌≡◌,
}
use kritvia_global_dashboard.Incidents.{Incident, Postmortem, Store, assert_incident, has_id}
use kritvia_global_dashboard.Incidents.Changes.{
  Change, active_org, edited, published, same, state_of,
}
use kritvia_global_dashboard.Incidents.Lifecycle.{
  IncidentView, acknowledge_incident, acknowledge_row, add_incident_note, assert_can_acknowledge,
  get_incident, resolve_incident, resolve_row, severity_row, update_incident_severity,
}
use kritvia_global_dashboard.Incidents.Publication.{
  PostmortemDto, PublishDto, add_public_update, normalize_component_keys, postmortem_row,
  publish_incident, publish_row, unpublish_incident, unpublish_row, update_row, upsert_postmortem,
  with_update,
}
use kritvia_global_dashboard.Incidents.Slug.Free.{generate_unique_public_slug-free}
use mathlib.Core.Bool.{and-eq-true_iff}

-- What a handler has found when it goes on behind `assertIncident`.
pub record Found (s : Store) (user : AuthUserContext) (incident_id org_id : String) (i : Incident)
    : Type 0 where
  pub acts : active_org user ≡ some i.org_id
  pub org : get_active_org_id user ≡ ok org_id
  pub member : Memᴰ i s.incidents
  pub same_id : i.id ≡ incident_id
  pub same_org : i.org_id ≡ org_id

pub assert_incident-ok :
    (s : Store) (org_id incident_id : String) (i : Incident)
    → assert_incident s org_id incident_id ≡ ok i
    → Memᴰ i s.incidents × (i.id ≡ incident_id) × (i.org_id ≡ org_id)
unfolding assert_incident
assert_incident-ok s org_id incident_id i h =
    let (m, e) = find-mem _ s.incidents i (or_throw-eq-ok _ _ i h) in
    let (same_id, same_org) = (and-eq-true_iff _ _).0 e in
    (m, (eq_iff _ _).0 same_id, (eq_iff _ _).0 same_org)

-- The handlers begin alike.
pub with_incident-ok {ℓ} :
    {B : Type ℓ} (s : Store) (user : AuthUserContext) (incident_id : String)
    (rest : String → Incident → Outcome B) (b : B)
    → (get_active_org_id user >>= λ org_id. assert_incident s org_id incident_id >>= rest org_id)
      ≡ ok b
    → (org_id : String) × (i : Incident) × Found s user incident_id org_id i
      × (rest org_id i ≡ ok b)
with_incident-ok s user incident_id rest b h =
    let (org_id, got, h1) = >>=-eq-ok (get_active_org_id user) _ b h in
    let (i, found, h2) = >>=-eq-ok (assert_incident s org_id incident_id) _ b h1 in
    let (m, same_id, same_org) = assert_incident-ok s org_id incident_id i found in
    (
      org_id,
      i,
      record { acts = ground arith; org = got; member = m; same_id = same_id; same_org = same_org },
      h2,
    )

pub state_of-ok {ℓ} :
    {B : Type ℓ} (m : Outcome (Store × B)) (s : Store)
    → state_of m ≡ ok s
    → (b : B) × (m ≡ ok (s, b))
state_of-ok (ok (t, b)) s h = (b, ground arith)
state_of-ok (fail e) s h = absurd (cc)

-- A call that ends with a state and an answer.
abbrev done : {B : Type 0} → Store → B → Outcome (Store × B)
done s b = ok (s, b)

ok_state : {B : Type 0} (s t : Store) (b c : B) → done s b ≡ done t c → s ≡ t
ok_state s t b c e = ground arith

module _ (s s' : Store) (user : AuthUserContext) (incident_id : String) where
  -- The last steps of a handler that answers with `getIncident`.
  pub view_state :
      (t : Store) (i : Incident) (view : IncidentView)
      → ◌>>=◌ {B = Store × IncidentView} (get_incident t user i.id) (λ v. ok (t, v)) ≡ done s' view
      → t ≡ s'
  view_state t i view h =
      let (v, got, h1) = >>=-eq-ok (get_incident t user i.id) _ (s', view) h in
      ok_state t s' v view h1

  pub acknowledge-Change :
      (primary : String → Option String) (now : ℕ) (view : IncidentView)
      → acknowledge_incident primary s user incident_id now ≡ ok (s', view)
      → Change (active_org user) s.incidents s'.incidents
  unfolding acknowledge_incident
  acknowledge-Change primary now view h =
      let (org_id, i, found, rest) = with_incident-ok s user incident_id _ (s', view) h in
      let (may, rest1) =
        >>-eq-ok (assert_can_acknowledge user (primary org_id)) _ (s', view) rest in
      rw (← view_state _ i view rest1) (
        edited i (acknowledge_row user.user_id now) found.member found.acts
          (record { id = λ j. refl; org_id = λ j. refl; alert_event_id = λ j. refl }) (λ j. refl))

  pub resolve-Change :
      (now : ℕ) (view : IncidentView)
      → resolve_incident s user incident_id now ≡ ok (s', view)
      → Change (active_org user) s.incidents s'.incidents
  unfolding resolve_incident
  resolve-Change now view h =
      let (org_id, i, found, rest) = with_incident-ok s user incident_id _ (s', view) h in
      let (may, rest1) =
        >>-eq-ok
          (require (is_ceo_or_admin user.role || is_text i.owner_user_id user.user_id) forbidden) _
          (s', view) rest in
      rw (← view_state _ i view rest1) (
        edited i (resolve_row now) found.member found.acts
          (record { id = λ j. refl; org_id = λ j. refl; alert_event_id = λ j. refl }) (λ j. refl))

  pub severity-Change :
      (severity : String) (view : IncidentView)
      → update_incident_severity s user incident_id severity ≡ ok (s', view)
      → Change (active_org user) s.incidents s'.incidents
  unfolding update_incident_severity
  severity-Change severity view h =
      let (org_id, i, found, rest) = with_incident-ok s user incident_id _ (s', view) h in
      let (may, rest1) =
        >>-eq-ok (require (is_ceo_or_admin user.role) forbidden) _ (s', view) rest in
      let e = view_state _ i view rest1 in
      elim (Bool-cases (i.severity === severity)) [
        | inl equal ↦ rw (← rw equal at e) same
        | inr other ↦ rw (← rw other at e) (
            edited i (severity_row severity) found.member found.acts
              (record { id = λ j. refl; org_id = λ j. refl; alert_event_id = λ j. refl })
              (λ j. refl))
      ]

  pub note-Change :
      (message : String)
      → add_incident_note s user incident_id message ≡ ok s'
      → Change (active_org user) s.incidents s'.incidents
  unfolding add_incident_note
  note-Change message h =
      let (org_id, i, found, rest) = with_incident-ok s user incident_id _ s' h in
      let e : s.incidents ≡ s'.incidents = ground arith in rw (← e) same

  pub postmortem-Change :
      (dto : PostmortemDto) (row : Postmortem)
      → upsert_postmortem s user incident_id dto ≡ ok (s', row)
      → Change (active_org user) s.incidents s'.incidents
  unfolding upsert_postmortem
  postmortem-Change dto row h =
      let (org_id, i, found, rest) = with_incident-ok s user incident_id _ (s', row) h in
      let e : update (has_id incident_id) postmortem_row s.incidents ≡ s'.incidents =
        ground arith in
      rw (← e, ← found.same_id)
        (edited i postmortem_row found.member found.acts
          (record { id = λ j. refl; org_id = λ j. refl; alert_event_id = λ j. refl }) (λ j. refl))

  pub unpublish-Change :
      (row : Incident)
      → unpublish_incident s user incident_id ≡ ok (s', row)
      → Change (active_org user) s.incidents s'.incidents
  unfolding unpublish_incident
  unpublish-Change row h =
      let (org_id, i, found, rest) = with_incident-ok s user incident_id _ (s', row) h in
      let e : update (has_id i.id) unpublish_row s.incidents ≡ s'.incidents = ground arith in
      rw (← e) (
        edited i unpublish_row found.member found.acts
          (record { id = λ j. refl; org_id = λ j. refl; alert_event_id = λ j. refl }) (λ j. refl))

  pub publish-Change :
      (iso : ℕ → String) (lower : String → String) (dto : PublishDto) (now : ℕ) (row : Incident)
      → publish_incident iso lower s user incident_id dto now ≡ ok (s', row)
      → Change (active_org user) s.incidents s'.incidents
  unfolding publish_incident
  publish-Change iso lower dto now row h =
      let (org_id, i, found, rest) = with_incident-ok s user incident_id _ (s', row) h in
      let (slug, got, free) = generate_unique_public_slug-free s.incidents i.title i.id in
      let keys = normalize_component_keys lower (or_else dto.component_keys []) in
      let updates = with_update i.public_updates (iso now) (trim dto.public_summary) in
      let f = publish_row (trim dto.public_summary) slug keys updates in
      let e : update (has_id i.id) f s.incidents ≡ s'.incidents = ground arith in
      rw (← e) (
        published i f slug found.member found.acts
          (record { id = λ j. refl; org_id = λ j. refl; alert_event_id = λ j. refl }) (λ j. refl)
          free)

  pub update-Change :
      (iso : ℕ → String) (lower : String → String) (message : String) (now : ℕ) (row : Incident)
      → add_public_update iso lower s user incident_id message now ≡ ok (s', row)
      → Change (active_org user) s.incidents s'.incidents
  unfolding add_public_update
  update-Change iso lower message now row h =
      let (org_id, i, found, rest) = with_incident-ok s user incident_id _ (s', row) h in
      let f = update_row (with_update i.public_updates (iso now) (trim message)) in
      let e : update (has_id i.id) f s.incidents ≡ s'.incidents = ground arith in
      rw (← e) (
        edited i f found.member found.acts
          (record { id = λ j. refl; org_id = λ j. refl; alert_event_id = λ j. refl }) (λ j. refl))
