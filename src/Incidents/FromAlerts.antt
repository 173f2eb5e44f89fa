-- ===== src/Incidents/FromAlerts.antt =====
-- What alerts do to incidents: creation, and the entries for escalation and mitigation.
use kritvia_global_dashboard.Base.{
  Bool, List, Option, String, [], any, false, find, if◌then◌else◌, is_some, is_text, none, not,
  some, true, ℕ, ◌&&◌, ◌++◌, ◌===◌, ◌||◌, ◌∷◌,
}
use kritvia_global_dashboard.Incidents.{
  AlertEvent, Incident, Status, Store, acknowledged, add_timeline_entry, alert, escalation,
  mitigation, no_array, opened,
}
use kritvia_global_dashboard.Incidents.Lifecycle.{entry_of}

-- `upper` is String.toUpperCase.
pub normalize_severity : (String → String) → String → String
normalize_severity upper value =
    let known = any (λ k. k === upper value) ("CRITICAL" ∷ "HIGH" ∷ "MEDIUM" ∷ "LOW" ∷ []) in
    if known then upper value else "HIGH"

abbrev is_true : Option Bool → Bool
is_true none = false
is_true (some b) = b

pub should_create : String → AlertEvent → Bool
should_create severity e =
    severity === "CRITICAL" || severity === "HIGH" && is_true e.rule_auto_create

abbrev pub from_alert : AlertEvent → Incident → Bool
from_alert e i = i.org_id === e.org_id && is_text i.alert_event_id e.id

abbrev pub new_incident : String → AlertEvent → String → ℕ → Incident
new_incident id e severity now = record {
  id = id;
  org_id = e.org_id;
  alert_event_id = some e.id;
  title = e.title;
  severity = severity;
  status = opened;
  owner_user_id = none;
  acknowledged_at = none;
  resolved_at = none;
  is_public = false;
  public_summary = none;
  public_updates = no_array;
  public_slug = none;
  public_component_keys = [];
  created_at = now;
}

-- `new_id` is the identifier that the database gives the new row.
unfoldable pub create_incident_from_alert_event :
    (String → String) → Store → String → String → ℕ → Store
unfolding normalize_severity should_create
create_incident_from_alert_event upper s alert_event_id new_id now =
    elim (find (λ e. e.id === alert_event_id) s.alert_events) [
      | none ↦ s
      | some e ↦
          let severity = normalize_severity upper e.severity in
          if not (should_create severity e)
          then s
          else if is_some (find (from_alert e) s.incidents)
          then s
          else add_timeline_entry
              (entry_of new_id "CREATED" (some "Incident auto-created from alert")
                (alert e.id e.severity e.type) none)
              (record s { incidents = s.incidents ++ new_incident new_id e severity now ∷ [] })
    ]

abbrev pub is_active : Status → Bool
is_active opened = true
is_active acknowledged = true
is_active _ = false

abbrev pub active_for : String → Incident → Bool
active_for alert_event_id i = is_text i.alert_event_id alert_event_id && is_active i.status

unfoldable pub add_escalation_timeline_by_alert_event_id :
    Store → String → ℕ → List String → Bool → Option String → Store
add_escalation_timeline_by_alert_event_id s alert_event_id step_number routed_to suppressed reason =
    elim (find (active_for alert_event_id) s.incidents) [
      | none ↦ s
      | some i ↦
          add_timeline_entry
            (entry_of i.id "ESCALATED"
              (some (if suppressed then "Escalation suppressed" else "Escalation step executed"))
              (escalation step_number routed_to suppressed reason) none)
            s
    ]

unfoldable pub add_mitigation_timeline_by_alert_event_id :
    Store → String → List (String × String) → Store
add_mitigation_timeline_by_alert_event_id s alert_event_id details =
    elim (find (active_for alert_event_id) s.incidents) [
      | none ↦ s
      | some i ↦
          add_timeline_entry
            (entry_of i.id "MITIGATION" (some "Auto-mitigation applied") (mitigation details) none)
            s
    ]
