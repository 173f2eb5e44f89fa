-- ===== src/Incidents/Changes.antt =====
-- One request or alert at a time: what each does to the table of incidents.
pub mod Requests
pub mod Steps
pub mod Isolation
use mathlib.Core.Option
use kritvia_global_dashboard.Base.{
  All, AuthUserContext, Bool, List, Memᴰ, Option, Outcome, String, [], fail, false, find,
  get_active_org_id, is_some, map, none, ok, some, update, ℕ, ◌++◌, ◌===◌, ◌∷◌, ◌≡◌, ◌≢◌,
}
use kritvia_global_dashboard.Incidents.{AlertEvent, Incident, Store, has_id}
use kritvia_global_dashboard.Incidents.FromAlerts.{
  add_escalation_timeline_by_alert_event_id, add_mitigation_timeline_by_alert_event_id,
  create_incident_from_alert_event, from_alert, new_incident,
}
use kritvia_global_dashboard.Incidents.Lifecycle.{
  acknowledge_incident, add_incident_note, resolve_incident, update_incident_severity,
}
use kritvia_global_dashboard.Incidents.Publication.{
  PostmortemDto, PublishDto, add_public_update, publish_incident, unpublish_incident,
  upsert_postmortem,
}
use kritvia_global_dashboard.Incidents.Slug.{taken}

-- The functions of the language and of the on-call resolver that the service calls.
pub record Env : Type 0 where
  pub iso : ℕ → String
  pub lower : String → String
  pub upper : String → String
  pub primary_on_call : String → Option String

pub data Op : Type 0 where
  acknowledge resolve : AuthUserContext → String → ℕ → Op
  change_severity add_note : AuthUserContext → String → String → Op
  write_postmortem : AuthUserContext → String → PostmortemDto → Op
  publish : AuthUserContext → String → PublishDto → ℕ → Op
  unpublish : AuthUserContext → String → Op
  post_update : AuthUserContext → String → String → ℕ → Op
  from_alert_event : String → String → ℕ → Op
  escalate : String → ℕ → List String → Bool → Option String → Op
  mitigate : String → List (String × String) → Op

-- The state that a call leaves, without its answer.
abbrev pub state_of {ℓ} : {B : Type ℓ} → Outcome (Store × B) → Outcome Store
state_of (ok (s, b)) = ok s
state_of (fail e) = fail e

unfoldable pub step : Env → Store → Op → Outcome Store
step env s (acknowledge user id now) =
    state_of (acknowledge_incident env.primary_on_call s user id now)
step env s (resolve user id now) = state_of (resolve_incident s user id now)
step env s (change_severity user id severity) =
    state_of (update_incident_severity s user id severity)
step env s (add_note user id message) = add_incident_note s user id message
step env s (write_postmortem user id dto) = state_of (upsert_postmortem s user id dto)
step env s (publish user id dto now) =
    state_of (publish_incident env.iso env.lower s user id dto now)
step env s (unpublish user id) = state_of (unpublish_incident s user id)
step env s (post_update user id message now) =
    state_of (add_public_update env.iso env.lower s user id message now)
step env s (from_alert_event alert_id new_id now) =
    ok (create_incident_from_alert_event env.upper s alert_id new_id now)
step env s (escalate alert_id n routed suppressed reason) =
    ok (add_escalation_timeline_by_alert_event_id s alert_id n routed suppressed reason)
step env s (mitigate alert_id details) =
    ok (add_mitigation_timeline_by_alert_event_id s alert_id details)

-- The organisation that an operation acts for, if it is known.
abbrev pub active_org : AuthUserContext → Option String
active_org user = elim (get_active_org_id user) [ ok o ↦ some o | fail e ↦ none ]

abbrev pub alert_org : Store → String → Option String
alert_org s alert_id = Option.map (λ e. e.org_id) (find (λ e. e.id === alert_id) s.alert_events)

abbrev pub acts_for : Store → Op → Option String
acts_for s (acknowledge user id now) = active_org user
acts_for s (resolve user id now) = active_org user
acts_for s (change_severity user id severity) = active_org user
acts_for s (add_note user id message) = active_org user
acts_for s (write_postmortem user id dto) = active_org user
acts_for s (publish user id dto now) = active_org user
acts_for s (unpublish user id) = active_org user
acts_for s (post_update user id message now) = active_org user
acts_for s (from_alert_event alert_id new_id now) = alert_org s alert_id
acts_for s (escalate alert_id n routed suppressed reason) = alert_org s alert_id
acts_for s (mitigate alert_id details) = alert_org s alert_id

-- No incident has the identifier.
abbrev pub IsFresh : String → List Incident → Type 0
IsFresh id rows = All (λ i. i.id ≢ id) rows

-- The identifier that the database gives a new row is no other row's.
abbrev pub FreshId : Store → Op → Type 0
FreshId s (from_alert_event alert_id new_id now) = IsFresh new_id s.incidents
FreshId s _ = Unit

-- What no handler changes in a row.
pub record Keeps (f : Incident → Incident) : Type 0 where
  pub id : (i : Incident) → (f i).id ≡ i.id
  pub org_id : (i : Incident) → (f i).org_id ≡ i.org_id
  pub alert_event_id : (i : Incident) → (f i).alert_event_id ≡ i.alert_event_id

-- The changes of the table for an organisation: none, one row that keeps its slug, one row with a
-- slug that no other row has, and one new row for an alert event that has none.
pub data Change (org : Option String) (before : List Incident) : List Incident → Type 0 where
  same : Change org before before
  edited :
      (i : Incident) (f : Incident → Incident)
      → Memᴰ i before
      → org ≡ some i.org_id
      → Keeps f
      → ((j : Incident) → (f j).public_slug ≡ j.public_slug)
      → Change org before (update (has_id i.id) f before)
  published :
      (i : Incident) (f : Incident → Incident) (slug : List ℕ)
      → Memᴰ i before
      → org ≡ some i.org_id
      → Keeps f
      → ((j : Incident) → (f j).public_slug ≡ some slug)
      → taken i.id before slug ≡ false
      → Change org before (update (has_id i.id) f before)
  added :
      (e : AlertEvent) (new_id severity : String) (now : ℕ)
      → org ≡ some e.org_id
      → IsFresh new_id before
      → is_some (find (from_alert e) before) ≡ false
      → Change org before (before ++ new_incident new_id e severity now ∷ [])
