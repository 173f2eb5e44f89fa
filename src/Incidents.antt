-- ===== src/Incidents.antt =====
-- apps/api/src/incidents/incidents.service.ts: the tables that it reads and writes, as one state,
-- and its private helpers. Times are milliseconds. A handler runs to its end before the next.
pub mod Slug
pub mod Range
pub mod Metrics
pub mod Averages
pub mod Lifecycle
pub mod Publication
pub mod FromAlerts
pub mod Changes
pub mod Access
pub mod Invariant
mod Examples
use kritvia_global_dashboard.Base.{
  Bool, List, Option, Outcome, String, [], find, if◌then◌else◌, is_empty, map, none, or_throw, some,
  update, ℕ, ◌&&◌, ◌++◌, ◌+◌, ◌-◌, ◌/◌, ◌===◌, ◌||◌, ◌∷◌, not_found,
}

-- The column `status`; `opened` is "OPEN".
pub data Status : Type 0 where
  opened acknowledged resolved postmortem : Status

-- An entry of the JSON column `publicUpdates`: an object with the texts `ts` and `message`, where
-- it has them, or another value.
pub data JsonEntry : Type 0 where
  object : Option String → Option String → JsonEntry
  no_object : JsonEntry

pub data JsonUpdates : Type 0 where
  array : List JsonEntry → JsonUpdates
  no_array : JsonUpdates

pub record PublicUpdate : Type 0 where
  pub ts : String
  pub message : String

pub record Incident : Type 0 where
  pub id : String
  pub org_id : String
  pub alert_event_id : Option String
  pub title : String
  pub severity : String
  pub status : Status
  pub owner_user_id : Option String
  pub acknowledged_at : Option ℕ
  pub resolved_at : Option ℕ
  pub is_public : Bool
  pub public_summary : Option String
  pub public_updates : JsonUpdates
  pub public_slug : Option (List ℕ)
  pub public_component_keys : List String
  pub created_at : ℕ

pub record Participant : Type 0 where
  pub incident_id : String
  pub user_id : String
  pub role : String

-- The JSON column `metadata` of the timeline, by what the service writes there.
pub data Metadata : Type 0 where
  no_metadata : Metadata
  acknowledgement resolution : ℕ → Option ℕ → Metadata
  severity_change : String → String → Metadata
  publication : List ℕ → List String → Metadata
  alert : String → String → String → Metadata
  escalation : ℕ → List String → Bool → Option String → Metadata
  mitigation : List (String × String) → Metadata
  fix_action : String → Metadata

pub record TimelineEntry : Type 0 where
  pub incident_id : String
  pub type : String
  pub message : Option String
  pub metadata : Metadata
  pub actor_user_id : Option String

pub record Postmortem : Type 0 where
  pub incident_id : String
  pub org_id : String
  pub summary : Option String
  pub root_cause : Option String
  pub impact : Option String
  pub detection_gap : Option String
  pub corrective_actions : Option String

-- An alert event with the flag `autoCreateIncident` of its rule, if it has one.
pub record AlertEvent : Type 0 where
  pub id : String
  pub org_id : String
  pub type : String
  pub severity : String
  pub title : String
  pub rule_auto_create : Option Bool

pub record Activity : Type 0 where
  pub org_id : String
  pub actor_user_id : String
  pub entity_id : String
  pub action : String

-- The tables, with the calls of `notifyPublicIncidentChange` in their order.
pub record Store : Type 0 where
  pub incidents : List Incident
  pub participants : List Participant
  pub timeline : List TimelineEntry
  pub postmortems : List Postmortem
  pub alert_events : List AlertEvent
  pub activities : List Activity
  pub notifications : List (Incident × String)

abbrev pub has_id : String → Incident → Bool
has_id id i = i.id === id

pub assert_incident : Store → String → String → Outcome Incident
assert_incident s org_id incident_id =
    or_throw (find (λ i. has_id incident_id i && i.org_id === org_id) s.incidents) not_found

abbrev pub update_incident : String → (Incident → Incident) → Store → Store
update_incident id f s = record s { incidents = update (has_id id) f s.incidents }

abbrev pub add_timeline_entry : TimelineEntry → Store → Store
add_timeline_entry entry s = record s { timeline = s.timeline ++ entry ∷ [] }

abbrev pub log_activity : Activity → Store → Store
log_activity entry s = record s { activities = s.activities ++ entry ∷ [] }

abbrev pub notify : Incident → String → Store → Store
notify i event s = record s { notifications = s.notifications ++ (i, event) ∷ [] }

-- `Math.max(0, Math.round((later - earlier) / 60_000))`; a later time before the earlier gives 0.
abbrev pub rounded_minutes : ℕ → ℕ → ℕ
rounded_minutes earlier later = (later - earlier + 30000) / 60000

pub compute_mtta_minutes : ℕ → Option ℕ → Option ℕ
compute_mtta_minutes created_at none = none
compute_mtta_minutes created_at (some acknowledged_at) =
    some (rounded_minutes created_at acknowledged_at)

pub compute_mttr_minutes : ℕ → Option ℕ → Option ℕ
compute_mttr_minutes created_at none = none
compute_mttr_minutes created_at (some resolved_at) = some (rounded_minutes created_at resolved_at)

-- An entry counts if both texts are there and neither is empty.
pub normalize_entry : JsonEntry → Option PublicUpdate
normalize_entry no_object = none
normalize_entry (object none message) = none
normalize_entry (object (some ts) none) = none
normalize_entry (object (some ts) (some message)) =
    if is_empty ts || is_empty message then none else some (record { ts = ts; message = message })

pub normalize_entries : List JsonEntry → List PublicUpdate
normalize_entries [] = []
normalize_entries (e ∷ es) = elim (normalize_entry e) [
  | none ↦ normalize_entries es
  | some u ↦ u ∷ normalize_entries es
]

pub normalize_public_updates : JsonUpdates → List PublicUpdate
unfolding normalize_entry normalize_entries
normalize_public_updates no_array = []
normalize_public_updates (array es) = normalize_entries es

abbrev pub to_json : List PublicUpdate → JsonUpdates
to_json us = array (map (λ u. object (some u.ts) (some u.message)) us)
