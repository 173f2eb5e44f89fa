-- ===== src/Incidents/Lifecycle.antt =====
-- The handlers of incidents/incidents.service.ts that change the tables. `iso` is Date.toISOString;
-- `primary_on_call` is what the on-call resolver answers for an organisation at that moment. The
-- notice to the status page is recorded as a call that succeeds.
use Prim.Native.String as Str
use kritvia_global_dashboard.Base.{
  AuthUserContext, Bool, List, Option, Outcome, String, [], any, forbidden, get_active_org_id,
  if◌then◌else◌, is_ceo_or_admin, is_text, keep, none, ok, require, some, trim, update, ℕ, ◌&&◌,
  ◌++◌, ◌===◌, ◌>>=◌, ◌>>◌, ◌||◌, ◌∷◌,
}
use kritvia_global_dashboard.Incidents.{
  Incident, Metadata, Participant, Store, TimelineEntry, acknowledged, acknowledgement,
  add_timeline_entry, assert_incident, compute_mtta_minutes, compute_mttr_minutes, log_activity,
  no_metadata, notify, resolution, resolved, severity_change, update_incident,
}

-- The answer of `getIncident`.
pub record IncidentView : Type 0 where
  pub incident : Incident
  pub participants : List Participant
  pub timeline : List TimelineEntry
  pub mtta_minutes : Option ℕ
  pub mttr_minutes : Option ℕ

abbrev pub entry_of : String → String → Option String → Metadata → Option String → TimelineEntry
entry_of incident_id type message metadata actor = record {
  incident_id = incident_id;
  type = type;
  message = message;
  metadata = metadata;
  actor_user_id = actor;
}

unfoldable pub get_incident : Store → AuthUserContext → String → Outcome IncidentView
unfolding get_active_org_id assert_incident compute_mtta_minutes compute_mttr_minutes
get_incident s user incident_id = do
  org_id ← get_active_org_id user
  i ← assert_incident s org_id incident_id
  ok (record {
    incident = i;
    participants = keep (λ p. p.incident_id === incident_id) s.participants;
    timeline = keep (λ e. e.incident_id === incident_id) s.timeline;
    mtta_minutes = compute_mtta_minutes i.created_at i.acknowledged_at;
    mttr_minutes = compute_mttr_minutes i.created_at i.resolved_at;
  })

abbrev is_row : String → String → Participant → Bool
is_row incident_id user_id p = p.incident_id === incident_id && p.user_id === user_id

-- `upsert` on the pair of incident and user.
pub upsert_owner : String → String → List Participant → List Participant
upsert_owner incident_id user_id rows =
    if any (is_row incident_id user_id) rows
    then update (is_row incident_id user_id) (λ p. record p { role = "OWNER" }) rows
    else rows ++ record { incident_id = incident_id; user_id = user_id; role = "OWNER" } ∷ []

pub assert_can_acknowledge : AuthUserContext → Option String → Outcome (Unit {0})
assert_can_acknowledge user primary =
    require (is_ceo_or_admin user.role || is_text primary user.user_id) forbidden

abbrev pub acknowledge_row : String → ℕ → Incident → Incident
acknowledge_row user_id now i = record i {
  owner_user_id = some user_id;
  status = acknowledged;
  acknowledged_at = some now;
}

abbrev pub acknowledge_tables : Incident → AuthUserContext → String → ℕ → Store → Store
acknowledge_tables i user org_id now s =
    let s1 = update_incident i.id (acknowledge_row user.user_id now) s in
    let s2 = record s1 { participants = upsert_owner i.id user.user_id s1.participants } in
    let s3 =
      add_timeline_entry
        (entry_of i.id "ACKNOWLEDGED" none
          (acknowledgement now (compute_mtta_minutes i.created_at (some now))) (some user.user_id))
        s2 in
    log_activity
      (record {
        org_id = org_id;
        actor_user_id = user.user_id;
        entity_id = i.id;
        action = "INCIDENT_ACKNOWLEDGED";
      })
      s3

unfoldable pub acknowledge_incident :
    (String → Option String) → Store → AuthUserContext → String → ℕ → Outcome (Store × IncidentView)
unfolding get_active_org_id assert_incident upsert_owner assert_can_acknowledge compute_mtta_minutes
acknowledge_incident primary_on_call s user incident_id now = do
  org_id ← get_active_org_id user
  i ← assert_incident s org_id incident_id
  assert_can_acknowledge user (primary_on_call org_id)
  let s' = acknowledge_tables i user org_id now s
  view ← get_incident s' user i.id
  ok (s', view)

abbrev pub resolve_row : ℕ → Incident → Incident
resolve_row now i = record i { status = resolved; resolved_at = some now }

abbrev pub resolve_tables : Incident → AuthUserContext → String → ℕ → Store → Store
resolve_tables i user org_id now s =
    let s1 = update_incident i.id (resolve_row now) s in
    let s2 =
      add_timeline_entry
        (entry_of i.id "RESOLVED" none
          (resolution now (compute_mttr_minutes i.created_at (some now))) (some user.user_id))
        s1 in
    let s3 =
      log_activity
        (record {
          org_id = org_id;
          actor_user_id = user.user_id;
          entity_id = i.id;
          action = "INCIDENT_RESOLVED";
        })
        s2 in
    notify (resolve_row now i) "RESOLVED" s3

unfoldable pub resolve_incident :
    Store → AuthUserContext → String → ℕ → Outcome (Store × IncidentView)
unfolding get_active_org_id assert_incident compute_mttr_minutes
resolve_incident s user incident_id now = do
  org_id ← get_active_org_id user
  i ← assert_incident s org_id incident_id
  require (is_ceo_or_admin user.role || is_text i.owner_user_id user.user_id) forbidden
  let s' = resolve_tables i user org_id now s
  view ← get_incident s' user i.id
  ok (s', view)

abbrev pub severity_row : String → Incident → Incident
severity_row severity i = record i { severity = severity }

abbrev severity_tables : Incident → AuthUserContext → String → Store → Store
severity_tables i user severity s =
    add_timeline_entry
      (entry_of i.id "SEVERITY_CHANGED"
        (some (Str.◌++◌ "Severity changed from " (Str.◌++◌ i.severity (Str.◌++◌ " to " severity))))
        (severity_change i.severity severity) (some user.user_id))
      (update_incident i.id (severity_row severity) s)

unfoldable pub update_incident_severity :
    Store → AuthUserContext → String → String → Outcome (Store × IncidentView)
unfolding get_active_org_id assert_incident
update_incident_severity s user incident_id severity = do
  org_id ← get_active_org_id user
  i ← assert_incident s org_id incident_id
  require (is_ceo_or_admin user.role) forbidden
  let s' = if i.severity === severity then s else severity_tables i user severity s
  view ← get_incident s' user i.id
  ok (s', view)

unfoldable pub add_incident_note : Store → AuthUserContext → String → String → Outcome Store
unfolding get_active_org_id assert_incident
add_incident_note s user incident_id message = do
  org_id ← get_active_org_id user
  i ← assert_incident s org_id incident_id
  ok (
      add_timeline_entry
        (entry_of i.id "NOTE" (some (trim message)) no_metadata (some user.user_id)) s)
