-- ===== src/Alerts/Spikes.antt =====
-- apps/api/src/alerts/alerting.service.ts: a spike of failures raises an alert. The counters and
-- the open circuits are in memory; a failure of the routing is only logged.
use Prim.Native.String as Str
use kritvia_global_dashboard.Alerts.{Alert, Desk}
use kritvia_global_dashboard.Alerts.Scan.{router_of}
use kritvia_global_dashboard.Base.{
  Bool, List, Option, String, [], any, false, find, if◌then◌else◌, is_some, keep, leb, length, ltb,
  none, not, some, true, update, ℕ, ◌&&◌, ◌*◌, ◌++◌, ◌-◌, ◌===◌, ◌∷◌,
}
use kritvia_global_dashboard.Incidents.{Activity, AlertEvent}
use kritvia_global_dashboard.Incidents.FromAlerts.{
  add_mitigation_timeline_by_alert_event_id, create_incident_from_alert_event,
}
use kritvia_global_dashboard.OnCall.Resolver.{present}
use kritvia_global_dashboard.Routing.Routes.{queue_route_for_alert_event}

pub record AlertRule : Type 0 where
  pub id : String
  pub org_id : String
  pub type : String
  pub is_enabled : Bool
  pub threshold_count : ℕ
  pub window_minutes : ℕ
  pub severity : String
  pub auto_create_incident : Bool
  pub auto_mitigation : Option String

-- The columns that a mitigation reads and writes; the status of an install is kept by whether it is
-- "DISABLED".
pub record HookEndpoint : Type 0 where
  pub id : String
  pub org_id : String
  pub is_active : Bool
  pub last_failure_at : Option ℕ

pub record AppInstall : Type 0 where
  pub id : String
  pub org_id : String
  pub disabled : Bool
  pub disabled_at : Option ℕ

pub record Watch : Type 0 where
  pub desk : Desk
  pub rules : List AlertRule
  pub counter_state : List (String × List ℕ)
  pub open_circuits : List (String × ℕ)
  pub endpoints : List HookEndpoint
  pub installs : List AppInstall

-- The fields of `AlertFailureMeta` that are read, where they are texts.
pub record AlertFailureMeta : Type 0 where
  pub endpoint_id : Option String
  pub app_install_id : Option String

-- What a mitigation ends with: its action, status and target.
pub record MitigationResult : Type 0 where
  pub action : String
  pub status : String
  pub target_id : Option String

-- A rule of `DEFAULT_ALERT_RULES`, as it is created for an organisation.
abbrev default_rule :
    String → (String → String) → String → ℕ → ℕ → String → Option String → AlertRule
default_rule org_id new_id type threshold window severity action = record {
  id = new_id type;
  org_id = org_id;
  type = type;
  is_enabled = true;
  threshold_count = threshold;
  window_minutes = window;
  severity = severity;
  auto_create_incident = false;
  auto_mitigation = action;
}

abbrev pub default_alert_rules : String → (String → String) → List AlertRule
default_alert_rules org_id new_id =
    default_rule org_id new_id "JOB_FAILURE_SPIKE" 5 10 "HIGH" none
    ∷ default_rule org_id new_id "WEBHOOK_FAILURE_SPIKE" 10 10 "HIGH" (some "DISABLE_WEBHOOK")
    ∷ default_rule org_id new_id "APP_COMMAND_FAILURE_SPIKE" 20 10 "CRITICAL"
        (some "PAUSE_APP_INSTALL")
    ∷ default_rule org_id new_id "OAUTH_REFRESH_FAILURE" 5 60 "HIGH" (some "OPEN_CIRCUIT")
    ∷ []

unfoldable pub ensure_default_rules_for_org :
    String → (String → String) → List AlertRule → List AlertRule
ensure_default_rules_for_org org_id new_id rules =
    let existing = keep (λ r. r.org_id === org_id) rules in
    rules
    ++ keep (λ d. not (any (λ r. r.type === d.type) existing)) (default_alert_rules org_id new_id)

abbrev pub counter_of : String → List (String × List ℕ) → List ℕ
counter_of key [] = []
counter_of key ((k, times) ∷ rest) = if k === key then times else counter_of key rest

abbrev pub set_counter : String → List ℕ → List (String × List ℕ) → List (String × List ℕ)
set_counter key times [] = (key, times) ∷ []
set_counter key times ((k, old) ∷ rest) =
    if k === key then (key, times) ∷ rest else (k, old) ∷ set_counter key times rest

abbrev set_circuit : String → ℕ → List (String × ℕ) → List (String × ℕ)
set_circuit key now [] = (key, now) ∷ []
set_circuit key now ((k, old) ∷ rest) =
    if k === key then (key, now) ∷ rest else (k, old) ∷ set_circuit key now rest

-- `${orgId}:${…}`
abbrev pub joined : String → String → String
joined a b = Str.◌++◌ a (Str.◌++◌ ":" b)

unfoldable pub alert_title : String → String
alert_title type =
    if type === "JOB_FAILURE_SPIKE"
    then "Job failures spiking"
    else if type === "WEBHOOK_FAILURE_SPIKE"
    then "Webhook delivery failures spiking"
    else if type === "APP_COMMAND_FAILURE_SPIKE"
    then "App command failures spiking"
    else if type === "OAUTH_REFRESH_FAILURE"
    then "OAuth refresh failures detected"
    else "Operational alert triggered"

abbrev outcome : String → String → Option String → Option MitigationResult
outcome action status target_id =
    some (record { action = action; status = status; target_id = target_id })

-- An entry of the activity log without an actor.
abbrev auto_entry : String → String → String → Activity
auto_entry org_id entity_id action = record {
  org_id = org_id;
  actor_user_id = "";
  entity_id = entity_id;
  action = action;
}

abbrev log_auto : Activity → Desk → Desk
log_auto entry d = record d { activities = d.activities ++ entry ∷ [] }

unfoldable pub disable_webhook : Watch → String → String → ℕ → Watch × Option MitigationResult
disable_webhook s org_id id now =
    let hit = λ (e : HookEndpoint). e.id === id && e.org_id === org_id && e.is_active in
    if any hit s.endpoints
    then (
      record s {
        endpoints =
            update hit (λ e. record e { is_active = false; last_failure_at = some now })
              s.endpoints;
        desk = log_auto (auto_entry org_id id "WEBHOOK_AUTO_DISABLED") s.desk;
      },
      outcome "DISABLE_WEBHOOK" "applied" (some id),
    )
    else (s, outcome "DISABLE_WEBHOOK" "noop" (some id))

unfoldable pub pause_app_install : Watch → String → String → ℕ → Watch × Option MitigationResult
pause_app_install s org_id id now =
    let hit = λ (e : AppInstall). e.id === id && e.org_id === org_id && not e.disabled in
    if any hit s.installs
    then (
      record s {
        installs =
            update hit (λ e. record e { disabled = true; disabled_at = some now }) s.installs;
        desk = log_auto (auto_entry org_id id "APP_AUTO_DISABLED") s.desk;
      },
      outcome "PAUSE_APP_INSTALL" "applied" (some id),
    )
    else (s, outcome "PAUSE_APP_INSTALL" "noop" (some id))

abbrev pub circuit_key : String → AlertFailureMeta → String
circuit_key org_id meta = joined org_id (elim meta.endpoint_id [
  | some id ↦ joined "webhook" id
  | none ↦ elim meta.app_install_id [ some id ↦ joined "app" id | none ↦ joined "org" org_id ]
])

unfoldable pub apply_auto_mitigation :
    Watch → String → Option String → AlertFailureMeta → ℕ → Watch × Option MitigationResult
unfolding disable_webhook pause_app_install
apply_auto_mitigation s org_id chosen meta now = elim (present chosen) [
  | none ↦ (s, none)
  | some action ↦
      if action === "DISABLE_WEBHOOK"
      then elim (present meta.endpoint_id) [
        | none ↦ (s, outcome action "skipped" none)
        | some id ↦ disable_webhook s org_id id now
      ]
      else if action === "PAUSE_APP_INSTALL"
      then elim (present meta.app_install_id) [
        | none ↦ (s, outcome action "skipped" none)
        | some id ↦ pause_app_install s org_id id now
      ]
      else if action === "OPEN_CIRCUIT"
      then (
        record s { open_circuits = set_circuit (circuit_key org_id meta) now s.open_circuits },
        outcome action "applied" (some (circuit_key org_id meta)),
      )
      else (s, outcome action "skipped" none)
]

abbrev pub window_of : AlertRule → ℕ
window_of r = (if leb 1 r.window_minutes then r.window_minutes else 1) * 60000

abbrev pub next_window : ℕ → ℕ → List ℕ → List ℕ
next_window window now times = keep (λ t. leb (now - window) t) times ++ now ∷ []

abbrev pub rule_for : String → String → AlertRule → Bool
rule_for org_id type r = r.org_id === org_id && (r.type === type && r.is_enabled)

abbrev pub recent_alert : String → String → ℕ → Alert → Bool
recent_alert org_id type from_time a =
    a.org_id === org_id && (a.type === type && leb from_time a.created_at)

abbrev pub raised_alert : AlertRule → String → String → String → ℕ → Alert
raised_alert r org_id type id now = record {
  id = id;
  org_id = org_id;
  rule_id = some r.id;
  type = type;
  severity = r.severity;
  title = alert_title type;
  is_acknowledged = false;
  acknowledged_by_user_id = none;
  acknowledged_at = none;
  created_at = now;
}

-- The row of an alert as the incidents read it.
abbrev pub incident_event : AlertRule → Alert → AlertEvent
incident_event r a = record {
  id = a.id;
  org_id = a.org_id;
  type = a.type;
  severity = a.severity;
  title = a.title;
  rule_auto_create = some r.auto_create_incident;
}

abbrev applied : Option MitigationResult → Bool
applied none = false
applied (some m) = m.status === "applied"

abbrev target_pair : Option String → List (String × String)
target_pair none = []
target_pair (some id) = ("targetId", id) ∷ []

abbrev details_of : Option MitigationResult → List (String × String)
details_of none = []
details_of (some m) = ("action", m.action) ∷ ("status", m.status) ∷ target_pair m.target_id

-- A failure as it is recorded, with the identifiers that the database gives if rows are made.
pub record Failure : Type 0 where
  pub type : String
  pub org_id : String
  pub meta : AlertFailureMeta
  pub now : ℕ
  pub new_rule_id : String → String
  pub new_alert_id : String
  pub new_incident_id : String

module _ (upper : String → String) where
  -- The row, its incident, and the jobs that route it.
  unfoldable pub raise_alert : AlertRule → Failure → Option MitigationResult → Desk → Desk
  unfolding create_incident_from_alert_event add_mitigation_timeline_by_alert_event_id
      queue_route_for_alert_event
  raise_alert r f done_by d =
      let a = raised_alert r f.org_id f.type f.new_alert_id f.now in
      let listed = record d { alerts = d.alerts ++ a ∷ [] } in
      let events = record d.incidents {
        alert_events = d.incidents.alert_events ++ incident_event r a ∷ [];
      } in
      let made = create_incident_from_alert_event upper events a.id f.new_incident_id f.now in
      record listed {
        incidents =
            if applied done_by
            then add_mitigation_timeline_by_alert_event_id made a.id (details_of done_by)
            else made;
        jobs = d.jobs ++ queue_route_for_alert_event (router_of listed) a.id;
      }

  -- What follows the count of a failure by its rule.
  unfoldable pub count_in_window : AlertRule → Failure → Watch → Watch
  unfolding apply_auto_mitigation raise_alert
  count_in_window r f s =
      let key = joined f.org_id f.type in
      let times = next_window (window_of r) f.now (counter_of key s.counter_state) in
      let counted = record s { counter_state = set_counter key times s.counter_state } in
      if ltb (length times) r.threshold_count
      then counted
      else if is_some (find (recent_alert f.org_id f.type (f.now - window_of r)) s.desk.alerts)
      then counted
      else let (w, m) = apply_auto_mitigation counted f.org_id r.auto_mitigation f.meta f.now in
        record w { desk = raise_alert r f m w.desk }

  unfoldable pub record_failure : Failure → Watch → Watch
  unfolding ensure_default_rules_for_org count_in_window
  record_failure f s₀ =
      let rules = ensure_default_rules_for_org f.org_id f.new_rule_id s₀.rules in
      let s = record s₀ { rules = rules } in
      elim (find (rule_for f.org_id f.type) rules) [ none ↦ s | some r ↦ count_in_window r f s ]

  unfoldable pub record_all : List Failure → Watch → Watch
  unfolding record_failure
  record_all [] s = s
  record_all (f ∷ fs) s = record_all fs (record_failure f s)
