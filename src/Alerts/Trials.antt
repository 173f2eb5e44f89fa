-- ===== src/Alerts/Trials.antt =====
-- The tests that a user may start, and what remains of the handlers of alerts/alerts.service.ts
-- that change rows: testEscalationPolicy, testChannel with sendTest of
-- alerts/alert-routing.service.ts, updateRule, and the list of the rows of an alert.
use kritvia_global_dashboard.Alerts.{Alert, AlertEscalation, Desk}
use kritvia_global_dashboard.Alerts.Handlers.{enter, own_alert}
use kritvia_global_dashboard.Alerts.Scan.{
  ScanResult, ensure_escalation_policy_for_org, routed_event, run_escalation_scan_for_org,
}
use kritvia_global_dashboard.Alerts.Spikes.{AlertRule, Watch}
use kritvia_global_dashboard.Base.{
  AuthUserContext, Bool, List, Option, Outcome, String, [], false, find, get_active_org_id, is_some,
  keep, none, ok, or_else, or_throw, require, some, true, update, ℕ, ◌&&◌, ◌++◌, ◌===◌, ◌>>=◌, ◌>>◌,
  ◌∷◌, not_found,
}
use kritvia_global_dashboard.Incidents.{Store}
use kritvia_global_dashboard.Incidents.FromAlerts.{create_incident_from_alert_event}
use kritvia_global_dashboard.OnCall.{Platform}
use kritvia_global_dashboard.Routing.{AlertDelivery, Router}
use kritvia_global_dashboard.Routing.Channels.{Outside}
use kritvia_global_dashboard.Routing.Jobs.{DeliveryJob, process_delivery_job}

-- An alert of a test; the database gives the rest of the row.
abbrev trial_alert : String → String → String → String → String → ℕ → Alert
trial_alert id org_id type severity title now = record {
  id = id;
  org_id = org_id;
  rule_id = none;
  type = type;
  severity = severity;
  title = title;
  is_acknowledged = false;
  acknowledged_by_user_id = none;
  acknowledged_at = none;
  created_at = now;
}

-- The incidents after an alert without a rule is created.
abbrev with_event : (String → String) → Alert → String → ℕ → Store → Store
with_event upper a new_incident_id now s =
    create_incident_from_alert_event upper
      (record s {
        alert_events =
            s.alert_events
            ++ record {
              id = a.id;
              org_id = a.org_id;
              type = a.type;
              severity = a.severity;
              title = a.title;
              rule_auto_create = none;
            }
              ∷ [];
      })
      a.id new_incident_id now

-- The identifiers that the database gives the rows of a test.
pub record TrialIds : Type 0 where
  pub policy_id : String
  pub alert_id : String
  pub incident_id : String

unfoldable pub test_escalation_policy :
    Platform
    → (String → String)
    → (String → Bool)
    → Desk
    → AuthUserContext
    → Option String
    → TrialIds
    → ℕ
    → Outcome (Desk × ScanResult)
unfolding get_active_org_id ensure_escalation_policy_for_org run_escalation_scan_for_org
    create_incident_from_alert_event
test_escalation_policy p lower enterprise s₀ user severity ids now = do
  org_id ← enter enterprise user
  let s = (ensure_escalation_policy_for_org s₀ org_id ids.policy_id).0
  let a =
      trial_alert ids.alert_id org_id "ESCALATION_TEST" (or_else severity "HIGH")
        "Escalation policy test alert" now
  let listed = record s {
    alerts = s.alerts ++ a ∷ [];
    incidents = with_event p.upper a ids.incident_id now s.incidents;
  }
  ok (
      run_escalation_scan_for_org p lower listed org_id ids.policy_id now
        (record { alert_ids = ids.alert_id ∷ []; force = true }))

abbrev delivery_of : String → String → AlertDelivery → Bool
delivery_of alert_event_id channel_id d =
    d.alert_event_id === alert_event_id && d.channel_id === channel_id

-- The latest row of the event and the channel is the last one: `randomUUID` gives the event an
-- identifier that no row has.
unfoldable pub send_test :
    Outside
    → (String → String)
    → Router
    → Store
    → String
    → String
    → String
    → TrialIds
    → ℕ
    → ℕ
    → Router × Store × Option AlertDelivery
unfolding process_delivery_job create_incident_from_alert_event
send_test o upper s incidents channel_id org_id severity ids now ended =
    let a = trial_alert ids.alert_id org_id "TEST_ALERT" severity "Test alert delivery" now in
    let listed = record s { events = s.events ++ routed_event a ∷ [] } in
    let job : DeliveryJob = record {
      alert_event_id = a.id;
      channel_id = channel_id;
      org_id = org_id;
      email_recipients_override = [];
    } in
    let s' = (process_delivery_job o job now ended listed).0 in
    (
      s',
      with_event upper a ids.incident_id now incidents,
      find (delivery_of a.id channel_id) s'.alert_deliveries,
    )

abbrev success_of : Option AlertDelivery → Bool
success_of none = false
success_of (some d) = d.success

unfoldable pub test_channel :
    Outside
    → (String → String)
    → (String → Bool)
    → Router
    → Store
    → AuthUserContext
    → String
    → Option String
    → TrialIds
    → ℕ
    → ℕ
    → Outcome (Router × Store × Bool)
unfolding get_active_org_id send_test
test_channel o upper enterprise s incidents user id severity ids now ended = do
  org_id ← enter enterprise user
  require (is_some (find (λ c. c.id === id && c.org_id === org_id) s.channels)) not_found
  let (s', i', d) = send_test o upper s incidents id org_id (or_else severity "HIGH") ids now ended
  ok (s', i', success_of d)

pub record UpdateAlertRuleDto : Type 0 where
  pub is_enabled : Option Bool
  pub threshold_count : Option ℕ
  pub window_minutes : Option ℕ
  pub severity : Option String
  pub auto_create_incident : Option Bool
  pub auto_mitigation : Option (Option String)

unfoldable pub update_rule :
    (String → Bool)
    → Watch
    → AuthUserContext
    → String
    → UpdateAlertRuleDto
    → Outcome (Watch × AlertRule)
unfolding get_active_org_id
update_rule enterprise s user id dto = do
  org_id ← enter enterprise user
  r ← or_throw (find (λ x. x.id === id && x.org_id === org_id) s.rules) not_found
  let r' = record r {
    is_enabled = or_else dto.is_enabled r.is_enabled;
    threshold_count = or_else dto.threshold_count r.threshold_count;
    window_minutes = or_else dto.window_minutes r.window_minutes;
    severity = or_else dto.severity r.severity;
    auto_create_incident = or_else dto.auto_create_incident r.auto_create_incident;
    auto_mitigation = or_else dto.auto_mitigation r.auto_mitigation;
  }
  ok (record s { rules = update (λ x. x.id === id) (λ x. r') s.rules }, r')

-- In the order of the attempts, in which the rows stand.
unfoldable pub list_escalations_for_alert :
    (String → Bool) → Desk → AuthUserContext → String → Outcome (List AlertEscalation)
unfolding get_active_org_id
list_escalations_for_alert enterprise s user alert_id = do
  org_id ← enter enterprise user
  require (is_some (find (own_alert alert_id org_id) s.alerts)) not_found
  ok (keep (λ r. r.org_id === org_id && r.alert_event_id === alert_id) s.escalations)
