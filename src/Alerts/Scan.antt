-- ===== src/Alerts/Scan.antt =====
-- The scan that escalates: ensureEscalationPolicyForOrg, runEscalationScanForOrg and
-- runEscalationScan of alerts/alerts.service.ts. `upper` of the platform is toUpperCase and `lower`
-- toLowerCase; the clock stands still during a scan, and the database numbers the policies.
use kritvia_global_dashboard.Alerts.{
  Alert, AlertEscalation, Contact, Desk, EscalationPolicy, EscalationStep, JsonSteps, QuietHours,
  step_entry, step_list,
}
use kritvia_global_dashboard.Alerts.Quiet.{get_suppression_reason}
use kritvia_global_dashboard.Alerts.Steps.{
  get_sla_minutes, is_alert_eligible, normalize_escalation_steps,
}
use kritvia_global_dashboard.Base.{
  Bool, List, Option, String, [], any, false, find, if◌then◌else◌, is_empty, keep, leb, length, ltb,
  map, none, not, some, suc, trim, true, ℕ, ◌&&◌, ◌*◌, ◌++◌, ◌+◌, ◌-◌, ◌/◌, ◌===◌, ◌==◌, ◌||◌, ◌∷◌,
}
use kritvia_global_dashboard.Incidents.FromAlerts.{add_escalation_timeline_by_alert_event_id}
use kritvia_global_dashboard.Invoices.{pos}
use kritvia_global_dashboard.OnCall.{Platform}
use kritvia_global_dashboard.OnCall.Resolver.{resolve_now}
use kritvia_global_dashboard.Routing.{RoutedEvent, Router}
use kritvia_global_dashboard.Routing.Routes.{route_alert_to_channels}

abbrev pub scan_window_ms : ℕ
scan_window_ms = 48 * 60 * 60 * 1000

abbrev pub escalation_cooldown_ms : ℕ
escalation_cooldown_ms = 10 * 60000

pub record ScanOptions : Type 0 where
  pub alert_ids : List String
  pub force : Bool

abbrev pub no_options : ScanOptions
no_options = record { alert_ids = []; force = false }

-- A step with its number.
pub record NumberedStep : Type 0 where
  pub step_number : ℕ
  pub step : EscalationStep

abbrev pub number_from : ℕ → List EscalationStep → List NumberedStep
number_from n [] = []
number_from n (s ∷ ss) = record { step_number = n; step = s } ∷ number_from (suc n) ss

abbrev pub default_steps : JsonSteps
default_steps = step_list (
    step_entry (some (record { whole = pos 10; rounds_up = false })) (some ("SLACK" ∷ []))
      (some "CRITICAL")
    ∷ step_entry (some (record { whole = pos 30; rounds_up = false }))
        (some ("EMAIL" ∷ "WEBHOOK" ∷ [])) (some "HIGH")
    ∷ step_entry (some (record { whole = pos 180; rounds_up = false })) (some ("EMAIL" ∷ []))
        (some "MEDIUM")
    ∷ [])

abbrev pub default_policy : String → String → EscalationPolicy
default_policy id org_id = record {
  id = id;
  org_id = org_id;
  name = "Default escalation policy";
  is_enabled = true;
  quiet = record {
    timezone = "UTC";
    quiet_hours_enabled = false;
    quiet_hours_start = none;
    quiet_hours_end = none;
    business_days_only = false;
  };
  sla = record { sla_critical = 10; sla_high = 30; sla_medium = 180; sla_low = 1440 };
  steps = default_steps;
}

unfoldable pub ensure_escalation_policy_for_org : Desk → String → String → Desk × EscalationPolicy
ensure_escalation_policy_for_org s org_id new_id =
    elim (find (λ q. q.org_id === org_id) s.policies) [
      | some q ↦ (s, q)
      | none ↦ (
        record s { policies = s.policies ++ default_policy new_id org_id ∷ [] },
        default_policy new_id org_id,
      )
    ]

abbrev pub has_step : String → ℕ → AlertEscalation → Bool
has_step alert_event_id n r = r.alert_event_id === alert_event_id && r.step_number == n

-- `alertEscalation.create` with its `catch`: the pair of alert and step is unique in the table.
unfoldable pub create_escalation : AlertEscalation → List AlertEscalation → List AlertEscalation
create_escalation r rows =
    if any (has_step r.alert_event_id r.step_number) rows then rows else rows ++ r ∷ []

abbrev pub includes : List String → String → Bool
includes routes route = any (λ r. r === route) routes

abbrev pub oncall_routes : List String
oncall_routes =
    "ONCALL_PRIMARY" ∷ "ONCALL_SECONDARY" ∷ "ONCALL_PRIMARY_GLOBAL" ∷ "ONCALL_PRIMARY_EMAIL"
    ∷ "ONCALL_SECONDARY_EMAIL" ∷ []

unfoldable pub step_uses_on_call : List String → Bool
step_uses_on_call routes = any (includes oncall_routes) routes

unfoldable pub channel_routes : List String → List String
channel_routes routes = keep (λ r. not (includes oncall_routes r)) routes

-- `Array.from(new Set(…))`: each text once, where it came first.
abbrev pub distinct : List String → List String → List String
distinct seen [] = []
distinct seen (t ∷ ts) =
    let rest = distinct (t ∷ seen) ts in
    let again = distinct seen ts in if includes seen t then again else t ∷ rest

abbrev pub requires_primary : List String → Bool
requires_primary routes =
    includes routes "ONCALL_PRIMARY_EMAIL"
    || includes routes "ONCALL_PRIMARY"
    || includes routes "ONCALL_PRIMARY_GLOBAL"

abbrev pub requires_secondary : List String → Bool
requires_secondary routes =
    includes routes "ONCALL_SECONDARY_EMAIL" || includes routes "ONCALL_SECONDARY"

abbrev target : Bool → Option String → List String
target false user = []
target true none = []
target true (some id) = if is_empty id then [] else id ∷ []

pub record Tally : Type 0 where
  pub escalated : ℕ
  pub suppressed : ℕ

abbrev pub is_reached : String → List String → Contact → Bool
is_reached org_id ids u = u.org_id === org_id && includes ids u.id && u.is_active

module _ (p : Platform) (lower : String → String) where
  unfoldable pub resolve_on_call_emails_for_step : Desk → String → List String → ℕ → List String
  unfolding resolve_now
  resolve_on_call_emails_for_step s org_id routes now =
      let resolved =
        resolve_now p s.schedules org_id now (includes routes "ONCALL_PRIMARY_GLOBAL") in
      let ids =
        target (requires_primary routes) resolved.primary_user_id
        ++ target (requires_secondary routes) resolved.secondary_user_id in
      if not (requires_primary routes) && not (requires_secondary routes)
      then []
      else if leb (length ids) 0
      then []
      else distinct [] (
          keep (λ t. not (is_empty t))
            (map (λ u. lower (trim u.email)) (keep (is_reached org_id ids) s.users)))

abbrev pub routed_event : Alert → RoutedEvent
routed_event a = record {
  id = a.id;
  org_id = a.org_id;
  type = a.type;
  severity = a.severity;
  title = a.title;
}

-- What the routing reads of the tables.
abbrev pub router_of : Desk → Router
router_of s = record {
  events = map routed_event s.alerts;
  channels = s.channels;
  alert_deliveries = [];
  breakers = [];
}

-- The row of a step with its entry in the timeline of the incident.
unfoldable pub record_step : String → Alert → NumberedStep → ℕ → Bool → Option String → Desk → Desk
unfolding create_escalation add_escalation_timeline_by_alert_event_id
record_step org_id a n now suppressed reason s = record s {
  escalations =
      create_escalation
        (record {
          org_id = org_id;
          alert_event_id = a.id;
          step_number = n.step_number;
          attempted_at = now;
          routed_to = n.step.route_to;
          suppressed = suppressed;
          reason = reason;
        })
        s.escalations;
  incidents =
      add_escalation_timeline_by_alert_event_id s.incidents a.id n.step_number n.step.route_to
        suppressed reason;
}

module _ (p : Platform) (lower : String → String) (org_id : String) (now : ℕ) where
  abbrev pub emails_for : Desk → NumberedStep → List String
  emails_for s n = resolve_on_call_emails_for_step p lower s org_id n.step.route_to now

  abbrev pub routes_for : Desk → NumberedStep → List String
  routes_for s n =
      channel_routes n.step.route_to
      ++ (if ltb 0 (length (emails_for s n)) then "EMAIL" ∷ [] else [])

  unfoldable pub route_step : Alert → NumberedStep → Desk → Desk
  unfolding route_alert_to_channels
  route_step a n s = record s {
    jobs =
        s.jobs
        ++ route_alert_to_channels p.upper (router_of s) a.id (distinct [] (routes_for s n))
            (emails_for s n);
  }

  -- One due step that has no row yet: held back, without on-call coverage, or routed.
  unfoldable pub escalate_step : QuietHours → Alert → NumberedStep → Desk × Tally → Desk × Tally
  unfolding record_step route_step
  escalate_step quiet a n (s, t) = elim (get_suppression_reason p quiet now) [
    | some reason ↦ (
      record_step org_id a n now true (some reason) s,
      record t { suppressed = t.suppressed + 1 },
    )
    | none ↦
        if step_uses_on_call n.step.route_to && leb (length (emails_for s n)) 0
        then (
          record_step org_id a n now true (some "NO_ONCALL_COVERAGE") s,
          record t { suppressed = t.suppressed + 1 },
        )
        else (
          record_step org_id a n now false none (route_step a n s),
          record t { escalated = t.escalated + 1 },
        )
  ]

  -- The loop over the due steps, with the numbers of the rows there were before it.
  unfoldable pub escalate_steps :
      QuietHours → Alert → List ℕ → List NumberedStep → Desk × Tally → Desk × Tally
  unfolding escalate_step
  escalate_steps quiet a done_before [] st = st
  escalate_steps quiet a done_before (n ∷ ns) st =
      escalate_steps quiet a done_before ns
        (if any (λ k. k == n.step_number) done_before then st else escalate_step quiet a n st)

abbrev pub rows_of : String → List AlertEscalation → List AlertEscalation
rows_of alert_event_id rows = keep (λ r. r.alert_event_id === alert_event_id) rows

-- Whether a row was written within the cooldown: the latest row was, if one was.
abbrev pub cooling : ℕ → List AlertEscalation → Bool
cooling now rows = any (λ r. ltb (now - r.attempted_at) escalation_cooldown_ms) rows

unfoldable pub is_due :
    (String → String) → EscalationPolicy → ScanOptions → ℕ → Alert → NumberedStep → Bool
unfolding is_alert_eligible get_sla_minutes
is_due upper q options now a n =
    let elapsed_minutes = (now - a.created_at) / 60000 in
    is_alert_eligible upper a.severity n.step.min_severity
    && (options.force
        || leb n.step.after_minutes elapsed_minutes
          && leb (get_sla_minutes upper q.sla a.severity) elapsed_minutes)

unfoldable pub in_scan : String → ℕ → ScanOptions → Alert → Bool
in_scan org_id now options a =
    a.org_id === org_id
    && not a.is_acknowledged
    && leb (now - scan_window_ms) a.created_at
    && (leb (length options.alert_ids) 0 || includes options.alert_ids a.id)

pub record ScanResult : Type 0 where
  pub total_processed : ℕ
  pub escalated : ℕ
  pub suppressed : ℕ

module _ (p : Platform) (lower : String → String) (org_id : String) (now : ℕ)
    (options : ScanOptions) (q : EscalationPolicy) (steps : List EscalationStep) where
  abbrev pub due_steps : Alert → List NumberedStep
  due_steps a = keep (is_due p.upper q options now a) (number_from 1 steps)

  unfoldable pub scan_alert : Alert → Desk × Tally → Desk × Tally
  unfolding escalate_steps is_due
  scan_alert a (s, t) =
      let rows = rows_of a.id s.escalations in
      if leb (length (due_steps a)) 0
      then (s, t)
      else if not options.force && cooling now rows
      then (s, t)
      else escalate_steps p lower org_id now q.quiet a (map (λ r. r.step_number) rows) (due_steps a)
          (s, t)

  unfoldable pub scan_alerts : List Alert → Desk × Tally → Desk × Tally
  unfolding scan_alert
  scan_alerts [] st = st
  scan_alerts (a ∷ as_) st = scan_alerts as_ (scan_alert a st)

abbrev nothing_done : Tally
nothing_done = record { escalated = 0; suppressed = 0 }

abbrev pub result_of : ℕ → Desk × Tally → Desk × ScanResult
result_of total (s, t) =
    (s, record { total_processed = total; escalated = t.escalated; suppressed = t.suppressed })

unfoldable pub run_escalation_scan_for_org :
    Platform → (String → String) → Desk → String → String → ℕ → ScanOptions → Desk × ScanResult
unfolding ensure_escalation_policy_for_org in_scan scan_alerts normalize_escalation_steps
run_escalation_scan_for_org p lower s₀ org_id new_id now options =
    let (s, q) = ensure_escalation_policy_for_org s₀ org_id new_id in
    let alerts = keep (in_scan org_id now options) s.alerts in
    let steps = normalize_escalation_steps p.upper q.steps in
    if not q.is_enabled
    then result_of 0 (s, nothing_done)
    else if leb (length steps) 0
    then result_of (length alerts) (s, nothing_done)
    else result_of (length alerts)
        (scan_alerts p lower org_id now options q steps alerts (s, nothing_done))

-- The policies are read before the loop; `new_id` is for a policy that none is found for.
module _ (p : Platform) (lower : String → String) (now : ℕ) (new_id : String) where
  unfoldable pub scan_orgs : List String → Desk × ScanResult → Desk × ScanResult
  unfolding run_escalation_scan_for_org
  scan_orgs [] st = st
  scan_orgs (org_id ∷ org_ids) (s, t) =
      let (s', r) = run_escalation_scan_for_org p lower s org_id new_id now no_options in
      scan_orgs org_ids (
        s',
        record {
          total_processed = t.total_processed + r.total_processed;
          escalated = t.escalated + r.escalated;
          suppressed = t.suppressed + r.suppressed;
        },
      )

  unfoldable pub run_escalation_scan : Desk → Desk × ScanResult × ℕ
  unfolding scan_orgs
  run_escalation_scan s =
      let org_ids = map (λ q. q.org_id) (keep (λ q. q.is_enabled) s.policies) in
      let (s', r) =
        scan_orgs org_ids (s, record { total_processed = 0; escalated = 0; suppressed = 0 }) in
      (s', r, length org_ids)
