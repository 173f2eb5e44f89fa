-- ===== src/Incidents/Publication.antt =====
-- The handlers for postmortems and for what the status page shows of an incident.
use Prim.Native.String as Str
use kritvia_global_dashboard.Base.{
  AuthUserContext, Bool, List, Option, Outcome, String, [], alt, any, bad_request, false, find,
  forbidden, get_active_org_id, internal_error, is_ceo_or_admin, keep, map, none, ok, or_else,
  or_throw, require, some, trim, true, update, ℕ, ◌++◌, ◌===◌, ◌>>=◌, ◌>>◌, ◌∷◌,
}
use kritvia_global_dashboard.Incidents.{
  Incident, JsonUpdates, Postmortem, Store, add_timeline_entry, assert_incident, no_metadata,
  normalize_public_updates, notify, postmortem, publication, to_json, update_incident,
}
use kritvia_global_dashboard.Incidents.Lifecycle.{entry_of}
use kritvia_global_dashboard.Incidents.Slug.{generate_unique_public_slug}

pub record PostmortemDto : Type 0 where
  pub summary : Option String
  pub root_cause : Option String
  pub impact : Option String
  pub detection_gap : Option String
  pub corrective_actions : Option String

-- A field that is not given stays as it was.
abbrev rewritten : PostmortemDto → Postmortem → Postmortem
rewritten dto p = record p {
  summary = alt dto.summary p.summary;
  root_cause = alt dto.root_cause p.root_cause;
  impact = alt dto.impact p.impact;
  detection_gap = alt dto.detection_gap p.detection_gap;
  corrective_actions = alt dto.corrective_actions p.corrective_actions;
}

abbrev created : PostmortemDto → String → String → Postmortem
created dto incident_id org_id = record {
  incident_id = incident_id;
  org_id = org_id;
  summary = dto.summary;
  root_cause = dto.root_cause;
  impact = dto.impact;
  detection_gap = dto.detection_gap;
  corrective_actions = dto.corrective_actions;
}

-- `upsert` on the incident: the new row, and the table.
pub upsert_row : PostmortemDto → String → String → List Postmortem → Postmortem × List Postmortem
upsert_row dto incident_id org_id rows = elim (find (λ p. p.incident_id === incident_id) rows) [
  | some p ↦ (rewritten dto p, update (λ q. q.incident_id === incident_id) (rewritten dto) rows)
  | none ↦ (created dto incident_id org_id, rows ++ created dto incident_id org_id ∷ [])
]

abbrev pub postmortem_row : Incident → Incident
postmortem_row i = record i { status = postmortem }

unfoldable pub upsert_postmortem :
    Store → AuthUserContext → String → PostmortemDto → Outcome (Store × Postmortem)
unfolding get_active_org_id assert_incident upsert_row
upsert_postmortem s user incident_id dto = do
  org_id ← get_active_org_id user
  i ← assert_incident s org_id incident_id
  require (is_ceo_or_admin user.role) forbidden
  let (row, rows) = upsert_row dto incident_id org_id s.postmortems
  let s1 = update_incident incident_id postmortem_row (record s { postmortems = rows })
  ok (
    add_timeline_entry
        (entry_of incident_id "NOTE" (some "Postmortem updated") no_metadata (some user.user_id))
        s1,
    row,
  )

abbrev component_allowed : String → Bool
component_allowed key =
    any (λ k. k === key) ("api" ∷ "web" ∷ "db" ∷ "webhooks" ∷ "ai" ∷ "billing" ∷ [])

-- `lower` is String.toLowerCase.
pub normalize_component_keys : (String → String) → List String → List String
normalize_component_keys lower keys = keep component_allowed (map (λ k. lower (trim k)) keys)

pub record PublishDto : Type 0 where
  pub public_summary : String
  pub component_keys : Option (List String)

abbrev pub publish_row : String → List ℕ → List String → JsonUpdates → Incident → Incident
publish_row summary slug keys updates i = record i {
  is_public = true;
  public_summary = some summary;
  public_slug = some slug;
  public_component_keys = keys;
  public_updates = updates;
}

abbrev publish_tables :
    Incident → AuthUserContext → (Incident → Incident) → List ℕ → List String → Store → Store
publish_tables i user row slug keys s = notify (row i) "CREATED" (
    add_timeline_entry
      (entry_of i.id "NOTE" (some "Published to status page") (publication slug keys)
        (some user.user_id))
      (update_incident i.id row s))

abbrev pub update_row : JsonUpdates → Incident → Incident
update_row updates i = record i { public_updates = updates }

abbrev pub unpublish_row : Incident → Incident
unpublish_row i = record i { is_public = false }

abbrev pub with_update : JsonUpdates → String → String → JsonUpdates
with_update updates ts message =
    to_json (normalize_public_updates updates ++ record { ts = ts; message = message } ∷ [])

module _ (iso : ℕ → String) (lower : String → String) where
  -- The search for a slug always ends (Slug.Free), so its exception is never thrown.
  unfoldable pub publish_incident :
      Store → AuthUserContext → String → PublishDto → ℕ → Outcome (Store × Incident)
  unfolding get_active_org_id assert_incident normalize_component_keys normalize_public_updates
  publish_incident s user incident_id dto now = do
    org_id ← get_active_org_id user
    i ← assert_incident s org_id incident_id
    slug ← or_throw (generate_unique_public_slug s.incidents i.title i.id) internal_error
    let keys = normalize_component_keys lower (or_else dto.component_keys [])
    let updates = with_update i.public_updates (iso now) (trim dto.public_summary)
    let row = publish_row (trim dto.public_summary) slug keys updates
    ok (publish_tables i user row slug keys s, row i)

  unfoldable pub add_public_update :
      Store → AuthUserContext → String → String → ℕ → Outcome (Store × Incident)
  unfolding get_active_org_id assert_incident normalize_public_updates
  add_public_update s user incident_id message now = do
    org_id ← get_active_org_id user
    i ← assert_incident s org_id incident_id
    require i.is_public bad_request
    let row = update_row (with_update i.public_updates (iso now) (trim message))
    let noted =
        add_timeline_entry
          (entry_of i.id "NOTE" (some (Str.◌++◌ "Public update: " (trim message))) no_metadata
            (some user.user_id))
          (update_incident i.id row s)
    ok (notify (row i) "UPDATED" noted, row i)

unfoldable pub unpublish_incident : Store → AuthUserContext → String → Outcome (Store × Incident)
unfolding get_active_org_id assert_incident
unpublish_incident s user incident_id = do
  org_id ← get_active_org_id user
  i ← assert_incident s org_id incident_id
  ok (
    add_timeline_entry
        (entry_of i.id "NOTE" (some "Unpublished from status page") no_metadata (some user.user_id))
        (update_incident i.id unpublish_row s),
    unpublish_row i,
  )
