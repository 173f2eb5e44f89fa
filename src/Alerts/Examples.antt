-- ===== src/Alerts/Examples.antt =====
-- The theorems on alerts and their escalation at concrete tables.
use kritvia_global_dashboard.Alerts.{
  Alert, Desk, EscalationPolicy, JsonSteps, no_entry, step_entry, step_list,
}
use kritvia_global_dashboard.Alerts.Bursts.{Apart, record_all-Apart}
use kritvia_global_dashboard.Alerts.Counts.{OtherKey, run_escalation_scan-counts}
use kritvia_global_dashboard.Alerts.Handlers.{
  UpsertEscalationPolicyDto, acknowledge_alert, acknowledged_by,
  build_escalation_policy_update_data,
}
use kritvia_global_dashboard.Alerts.History.{record_all-window}
use kritvia_global_dashboard.Alerts.Loop.{policy_for, steps_for}
use kritvia_global_dashboard.Alerts.Normal.{
  IsNormal, NoLater, normalize_escalation_steps-IsNormal, normalize_escalation_steps-stored,
}
use kritvia_global_dashboard.Alerts.Progress.{run_escalation_scan_for_org-has}
use kritvia_global_dashboard.Alerts.Quiet.{get_suppression_reason}
use kritvia_global_dashboard.Alerts.Quieted.{
  acknowledge_alert-scan, build_escalation_policy_update_data-no_hours,
}
use kritvia_global_dashboard.Alerts.Rows.{Justified, run_escalation_scan_for_org-Justified}
use kritvia_global_dashboard.Alerts.Scan.{
  NumberedStep, channel_routes, default_policy, ensure_escalation_policy_for_org, has_step, in_scan,
  is_due, no_options, resolve_on_call_emails_for_step, rows_of, run_escalation_scan,
  run_escalation_scan_for_org, step_uses_on_call,
}
use kritvia_global_dashboard.Alerts.Silence.{run_escalation_scan_for_org_quiet}
use kritvia_global_dashboard.Alerts.Spikes.{AlertRule, Failure, Watch, counter_of, record_all}
use kritvia_global_dashboard.Alerts.Steps.{normalize_escalation_steps, step_to_json}
use kritvia_global_dashboard.Base.{
  All, AuthUserContext, List, Memᴰ, Pairs, String, [], any, arith, count, false, get_active_org_id,
  keep, leb, length, map, none, not, ok, ops, refl, some, trim, true, zero, ℕ, ◌++◌, ◌+◌, ◌∷◌, ◌≡◌,
  ◌⊎◌,
}
use kritvia_global_dashboard.Incidents.{Store}
use kritvia_global_dashboard.Invoices.{pos}
use kritvia_global_dashboard.OnCall.{Platform}
use kritvia_global_dashboard.Routing.{AlertChannel}

abbrev plain : Platform
plain = record { local = λ z t. none; upper = λ t. t }

abbrev same_case : String → String
same_case t = t

abbrev outage : Alert
outage = record {
  id = "a1";
  org_id = "o1";
  rule_id = none;
  type = "JOB_FAILURE_SPIKE";
  severity = "CRITICAL";
  title = "Job failures spiking";
  is_acknowledged = false;
  acknowledged_by_user_id = none;
  acknowledged_at = none;
  created_at = 0;
}

abbrev slack_channel_row : AlertChannel
slack_channel_row = record {
  id = "c1";
  org_id = "o1";
  type = "SLACK";
  is_enabled = true;
  min_severity = "HIGH";
  config_encrypted = none;
}

abbrev no_store : Store
no_store = record {
  incidents = [];
  participants = [];
  timeline = [];
  postmortems = [];
  alert_events = [];
  activities = [];
  notifications = [];
}

abbrev night_policy : EscalationPolicy
night_policy = record (default_policy "q1" "o1") {
  quiet = record {
    timezone = "UTC";
    quiet_hours_enabled = true;
    quiet_hours_start = some "00:00";
    quiet_hours_end = some "06:00";
    business_days_only = false;
  };
}

abbrev desk_with : List EscalationPolicy → Desk
desk_with rows = record {
  policies = rows;
  alerts = outage ∷ [];
  escalations = [];
  schedules = [];
  users = [];
  channels = slack_channel_row ∷ [];
  jobs = [];
  incidents = no_store;
  activities = [];
}

abbrev eleven_minutes : ℕ
eleven_minutes = 660000

abbrev day_desk : Desk
day_desk = desk_with (default_policy "q1" "o1" ∷ [])

abbrev night_desk : Desk
night_desk = desk_with (night_policy ∷ [])

-- The first step is due, and a job goes to the channel.
day_scan :
    let (s, r) =
      run_escalation_scan_for_org plain same_case day_desk "o1" "q2" eleven_minutes no_options in
    (r.escalated ≡ 1) × (length s.jobs ≡ 1) × (length s.escalations ≡ 1)
unfolding run_escalation_scan_for_org get_suppression_reason step_uses_on_call channel_routes
    resolve_on_call_emails_for_step
day_scan = (refl, refl, refl)

run_escalation_scan_for_org_quiet_example :
    let (s, r) =
      run_escalation_scan_for_org plain same_case night_desk "o1" "q2" eleven_minutes no_options in
    (s.jobs ≡ []) × (r.escalated ≡ 0)
unfolding get_suppression_reason trim ensure_escalation_policy_for_org
run_escalation_scan_for_org_quiet_example =
    run_escalation_scan_for_org_quiet plain same_case night_desk "o1" "q2" eleven_minutes no_options
      "quiet-hours" refl

run_escalation_scan_for_org-Justified_example :
    All
      (λ r.
        Memᴰ r day_desk.escalations
        ⊎ Justified plain
            (policy_for day_desk "o1" "q2")
            (steps_for plain day_desk "o1" "q2")
            day_desk
            "o1"
            eleven_minutes
            no_options
            r)
      (run_escalation_scan_for_org plain same_case day_desk "o1" "q2" eleven_minutes
        no_options).0.escalations
run_escalation_scan_for_org-Justified_example =
    run_escalation_scan_for_org-Justified plain same_case day_desk "o1" "q2" eleven_minutes
      no_options

run_escalation_scan-counts_example :
    let (s', r, _) = run_escalation_scan plain same_case eleven_minutes "q2" day_desk in
    Pairs OtherKey s'.escalations
    × (count (λ x. not x.suppressed) s'.escalations ≡ 0 + r.escalated)
    × (count (λ x. x.suppressed) s'.escalations ≡ 0 + r.suppressed)
run_escalation_scan-counts_example =
    run_escalation_scan-counts plain same_case eleven_minutes "q2" day_desk tt

abbrev first_step : NumberedStep
first_step = record {
  step_number = 1;
  step = record { after_minutes = 10; route_to = "SLACK" ∷ []; min_severity = "CRITICAL" };
}

run_escalation_scan_for_org-has_example :
    any
      (has_step "a1" 1)
      (run_escalation_scan_for_org plain same_case day_desk "o1" "q2" eleven_minutes
        no_options).0.escalations
    ≡ true
unfolding ensure_escalation_policy_for_org in_scan is_due normalize_escalation_steps
run_escalation_scan_for_org-has_example =
    run_escalation_scan_for_org-has plain same_case day_desk "o1" "q2" eleven_minutes no_options
      outage first_step (tt, tt) refl (Memᴰ.head refl) refl (Memᴰ.head refl) refl refl

abbrev raw_steps : JsonSteps
raw_steps = step_list (
    no_entry
    ∷ step_entry (some (record { whole = pos 30; rounds_up = true })) (some ("EMAIL" ∷ "FAX" ∷ []))
        (some "LOW")
    ∷ step_entry (some (record { whole = pos zero; rounds_up = false })) (some ("SLACK" ∷ []))
        (some "HIGH")
    ∷ [])

normalize_escalation_steps-IsNormal_example :
    All IsNormal (normalize_escalation_steps same_case raw_steps)
    × Pairs NoLater (normalize_escalation_steps same_case raw_steps)
normalize_escalation_steps-IsNormal_example =
    normalize_escalation_steps-IsNormal same_case raw_steps

normalize_escalation_steps-stored_example :
    normalize_escalation_steps same_case
      (step_list (map step_to_json (normalize_escalation_steps same_case raw_steps)))
    ≡ normalize_escalation_steps same_case raw_steps
normalize_escalation_steps-stored_example =
    normalize_escalation_steps-stored same_case raw_steps
      (refl, (refl, (refl, (refl, (refl, (refl, (refl, (refl, (refl, (refl, (refl, tt)))))))))))

abbrev on_call_user : AuthUserContext
on_call_user = record {
  user_id = "u1";
  org_id = "o1";
  active_org_id = none;
  role = ops;
  email = "u1@example.org";
  name = "U";
  is_service_account = false;
  service_account_id = none;
  service_account_scopes = none;
}

abbrev outage_acknowledged : Desk
outage_acknowledged = record day_desk {
  alerts = acknowledged_by "u1" 60000 outage ∷ [];
  activities =
      record {
        org_id = "o1";
        actor_user_id = "u1";
        entity_id = "a1";
        action = "ALERT_ACKNOWLEDGED";
      }
      ∷ [];
}

acknowledge_alert-scan_example :
    rows_of "a1"
      (run_escalation_scan_for_org plain same_case outage_acknowledged "o1" "q2" eleven_minutes
        no_options).0.escalations
    ≡ []
unfolding acknowledge_alert get_active_org_id
acknowledge_alert-scan_example =
    acknowledge_alert-scan (λ o. true) plain same_case day_desk outage_acknowledged on_call_user
      "a1" "o1" "q2" 60000 eleven_minutes (some (acknowledged_by "u1" 60000 outage)) no_options refl
      refl

abbrev failure_at : ℕ → String → Failure
failure_at now id = record {
  type = "JOB_FAILURE_SPIKE";
  org_id = "o1";
  meta = record { endpoint_id = none; app_install_id = none };
  now = now;
  new_rule_id = λ t. t;
  new_alert_id = id;
  new_incident_id = "i1";
}

abbrev empty_desk : Desk
empty_desk = record (desk_with []) { alerts = [] }

abbrev watch_rule : AlertRule
watch_rule = record {
  id = "r1";
  org_id = "o1";
  type = "JOB_FAILURE_SPIKE";
  is_enabled = true;
  threshold_count = 2;
  window_minutes = 1;
  severity = "HIGH";
  auto_create_incident = false;
  auto_mitigation = none;
}

abbrev quiet_watch : Watch
quiet_watch = record {
  desk = empty_desk;
  rules = watch_rule ∷ [];
  counter_state = [];
  open_circuits = [];
  endpoints = [];
  installs = [];
}

abbrev burst : List Failure
burst = failure_at 1000 "a1" ∷ failure_at 2000 "a2" ∷ []

burst_raises : length (record_all same_case burst quiet_watch).desk.alerts ≡ 1
unfolding record_all
burst_raises = refl

record_all-Apart_example : Pairs Apart (record_all same_case burst quiet_watch).desk.alerts
record_all-Apart_example = record_all-Apart same_case burst quiet_watch tt

record_all-window_example :
    counter_of "o1:JOB_FAILURE_SPIKE"
      (record_all same_case (burst ++ failure_at 62001 "a3" ∷ []) quiet_watch).counter_state
    ≡ keep (λ t. leb 2001 t) (1000 ∷ 2000 ∷ 62001 ∷ [])
record_all-window_example =
    record_all-window same_case "o1" "JOB_FAILURE_SPIKE" watch_rule burst (failure_at 62001 "a3")
      quiet_watch refl refl ((refl, refl), ((refl, refl), ((refl, refl), tt)))
      ((omega arith, (omega arith, tt)), ((omega arith, tt), (tt, tt)))

abbrev quiet_dto : UpsertEscalationPolicyDto
quiet_dto = record {
  name = none;
  is_enabled = none;
  timezone = none;
  quiet_hours_enabled = some true;
  quiet_hours_start = none;
  quiet_hours_end = none;
  business_days_only = some false;
  sla_critical = none;
  sla_high = none;
  sla_medium = none;
  sla_low = none;
  steps = none;
}

build_escalation_policy_update_data-no_hours_example :
    (q' : EscalationPolicy) × (build_escalation_policy_update_data same_case quiet_dto
        (default_policy "q1" "o1")
      ≡ ok q')
    × (q'.quiet.quiet_hours_enabled ≡ true)
    × ((now : ℕ) → get_suppression_reason plain q'.quiet now ≡ none)
build_escalation_policy_update_data-no_hours_example =
    build_escalation_policy_update_data-no_hours same_case plain quiet_dto
      (default_policy "q1" "o1") refl refl refl refl refl
