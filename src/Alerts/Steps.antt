-- ===== src/Alerts/Steps.antt =====
-- The severities and the steps of a policy: normalizeSeverity, isSeverityEligible, getSlaMinutes
-- and normalizeEscalationSteps of alerts/alerts.service.ts. `upper` is toUpperCase.
use kritvia_global_dashboard.Alerts.{
  EscalationStep, JsonNumber, JsonStep, JsonSteps, Sla, no_steps, step_entry, step_list,
}
use kritvia_global_dashboard.Base.{
  Bool, List, Option, String, [], any, false, if◌then◌else◌, keep, leb, length, ltb, map, none,
  or_else, some, suc, zero, ℕ, ◌===◌, ◌||◌, ◌∷◌,
}
use kritvia_global_dashboard.Incidents.Changes.{step}
use kritvia_global_dashboard.Invoices.{negsuc, pos, ℤ}
use kritvia_global_dashboard.Routing.{severity_weight}

unfoldable pub normalize_alert_severity : (String → String) → String → String
normalize_alert_severity upper value =
    let normalized = upper value in
    if any (λ k. k === normalized) ("CRITICAL" ∷ "HIGH" ∷ "MEDIUM" ∷ []) then normalized else "LOW"

unfoldable pub normalize_step_severity : (String → String) → String → String
unfolding normalize_alert_severity
normalize_step_severity upper value =
    let normalized = normalize_alert_severity upper value in
    if normalized === "CRITICAL" || normalized === "HIGH" then normalized else "MEDIUM"

unfoldable pub is_alert_eligible : (String → String) → String → String → Bool
unfolding normalize_alert_severity severity_weight
is_alert_eligible upper actual min_required =
    leb (or_else (severity_weight (normalize_alert_severity upper min_required)) 0)
      (or_else (severity_weight (normalize_alert_severity upper actual)) 0)

unfoldable pub get_sla_minutes : (String → String) → Sla → String → ℕ
unfolding normalize_alert_severity
get_sla_minutes upper sla severity =
    let normalized = normalize_alert_severity upper severity in
    if normalized === "CRITICAL"
    then sla.sla_critical
    else if normalized === "HIGH"
    then sla.sla_high
    else if normalized === "MEDIUM"
    then sla.sla_medium
    else sla.sla_low

abbrev pub rounded : ℤ → Bool → ℕ
rounded (pos zero) up = 1
rounded (pos (suc n)) up = if up then suc (suc n) else suc n
rounded (negsuc n) up = 1

-- `Math.max(1, Math.round(x))`
abbrev pub round_at_least_one : JsonNumber → ℕ
round_at_least_one x = rounded x.whole x.rounds_up

abbrev pub route_types : List String
route_types =
    "WEBHOOK" ∷ "EMAIL" ∷ "SLACK" ∷ "ONCALL_PRIMARY" ∷ "ONCALL_SECONDARY" ∷ "ONCALL_PRIMARY_GLOBAL"
    ∷ "ONCALL_PRIMARY_EMAIL" ∷ "ONCALL_SECONDARY_EMAIL" ∷ []

abbrev pub is_route : String → Bool
is_route route = any (λ r. r === route) route_types

-- The filter of the types and the map, entry by entry; `routeTo` has to be no empty array.
unfoldable pub normalize_step : (String → String) → JsonStep → Option EscalationStep
unfolding normalize_step_severity
normalize_step upper (step_entry (some after_minutes) (some (route ∷ routes)) (some severity)) =
    some (record {
      after_minutes = round_at_least_one after_minutes;
      route_to = keep is_route (map upper (route ∷ routes));
      min_severity = normalize_step_severity upper severity;
    })
normalize_step upper _ = none

unfoldable pub normalize_step_entries : (String → String) → List JsonStep → List EscalationStep
unfolding normalize_step
normalize_step_entries upper [] = []
normalize_step_entries upper (entry ∷ entries) =
    let rest = normalize_step_entries upper entries in
    elim (normalize_step upper entry) [ none ↦ rest | some step ↦ step ∷ rest ]

-- `sort`, which keeps the order of equal minutes.
abbrev pub insert_step : EscalationStep → List EscalationStep → List EscalationStep
insert_step a [] = a ∷ []
insert_step a (b ∷ bs) =
    let rest = insert_step a bs in
    if leb a.after_minutes b.after_minutes then a ∷ b ∷ bs else b ∷ rest

abbrev pub sort_steps : List EscalationStep → List EscalationStep
sort_steps [] = []
sort_steps (a ∷ as_) = insert_step a (sort_steps as_)

unfoldable pub normalize_escalation_steps : (String → String) → JsonSteps → List EscalationStep
unfolding normalize_step_entries
normalize_escalation_steps upper no_steps = []
normalize_escalation_steps upper (step_list entries) =
    sort_steps (keep (λ s. ltb 0 (length s.route_to)) (normalize_step_entries upper entries))

-- How a step is stored in the column.
abbrev pub step_to_json : EscalationStep → JsonStep
step_to_json x =
    step_entry (some (record { whole = pos x.after_minutes; rounds_up = false })) (some x.route_to)
      (some x.min_severity)
