-- ===== src/Autopilot/Conditions.antt =====
-- When a policy applies and when it waits: buildContext, evaluateCondition, mapDriverEntityType,
-- requiresApproval and buildActionInput of autopilot/autopilot.service.ts.
use mathlib.Core.Option
use kritvia_global_dashboard.Autopilot.{
  ConditionField, ConditionOperator, Expected, JsonCondition, PilotSetting, RiskDriver,
  amount_cents_field, due_at_past_days_field, expression, no_condition, op_eq, op_gt, op_gte, op_in,
  op_lt, op_lte, op_other, other_field, risk_score_field, status_field,
}
use kritvia_global_dashboard.Base.{
  AuthUserContext, Bool, List, Option, String, any, false, find, if◌then◌else◌, leb, ltb, none, not,
  or_else, some, true, ℕ, ◌&&◌, ◌*◌, ◌+◌, ◌-◌, ◌/◌, ◌===◌,
}
use kritvia_global_dashboard.Fixes.{RunInput, Shop, StaffUser}
use kritvia_global_dashboard.Fixes.Actions.{is_staff}
use kritvia_global_dashboard.OnCall.{day_ms}
use kritvia_global_dashboard.OnCall.Resolver.{present}

pub data ContextValue : Type 0 where
  number_value : ℕ → ContextValue
  text_value : String → ContextValue

abbrev pub due_at_past_days : Option ℕ → ℕ → ℕ
due_at_past_days none now = 0
due_at_past_days (some due_at) now = if ltb due_at now then (now - due_at) / day_ms else 0

-- A field that the context does not have reads as an empty text.
unfoldable pub context_value : RiskDriver → ℕ → ConditionField → ContextValue
context_value d now risk_score_field = number_value d.risk_score
context_value d now due_at_past_days_field = number_value (due_at_past_days d.due_at now)
context_value d now amount_cents_field = number_value (or_else d.amount_cents 0)
context_value d now status_field = text_value (or_else d.status "")
context_value d now other_field = text_value ""

abbrev pub to_number : PilotSetting → ContextValue → ℕ
to_number o (number_value n) = n
to_number o (text_value t) = o.number_of t

abbrev pub to_text : PilotSetting → ContextValue → String
to_text o (number_value n) = o.digits n
to_text o (text_value t) = t

abbrev in_items : Option (List String) → String → Bool
in_items none t = false
in_items (some items) t = any (λ i. i === t) items

abbrev compare_value : PilotSetting → ConditionOperator → ContextValue → Expected → Bool
compare_value o op_gt v e = ltb e.number (to_number o v)
compare_value o op_gte v e = leb e.number (to_number o v)
compare_value o op_lt v e = ltb (to_number o v) e.number
compare_value o op_lte v e = leb (to_number o v) e.number
compare_value o op_eq v e = to_text o v === e.text
compare_value o op_in v e = in_items e.items (to_text o v)
compare_value o op_other v e = false

unfoldable pub evaluate_condition : PilotSetting → JsonCondition → RiskDriver → ℕ → Bool
unfolding context_value
evaluate_condition o no_condition d now = true
evaluate_condition o (expression field operator value) d now =
    compare_value o operator (context_value d now field) value

unfoldable pub map_driver_entity_type : RiskDriver → Option String
map_driver_entity_type d =
    if d.type === "INVOICE"
    then some "INVOICE"
    else if d.type === "WORK_ITEM"
    then some "WORK_ITEM"
    else if d.type === "INCIDENT"
    then some "INCIDENT"
    else none

unfoldable pub requires_approval : ℕ → Bool → Bool
requires_approval risk_score auto_execute =
    if leb 85 risk_score
    then true
    else if leb 70 risk_score && leb risk_score 84
    then not auto_execute
    else not auto_execute

abbrev pub may_pilot : String → StaffUser → Bool
may_pilot org_id u = u.org_id === org_id && u.is_active && is_staff u.role

unfoldable pub resolve_autopilot_actor : Shop → String → Option AuthUserContext
resolve_autopilot_actor s org_id =
    Option.map
      (λ u. record {
        user_id = u.id;
        org_id = org_id;
        active_org_id = some org_id;
        role = u.role;
        email = u.email;
        name = u.name;
        is_service_account = false;
        service_account_id = none;
        service_account_scopes = none;
      })
      (find (may_pilot org_id) s.users)

abbrev id_of : Option StaffUser → String
id_of none = ""
id_of (some u) = u.id

unfoldable pub build_action_input :
    PilotSetting → Shop → String → String → RiskDriver → ℕ → RunInput
build_action_input o s org_id key d now =
    if key === "SET_DUE_DATE"
    then record {
      assignee_user_id = none;
      due_at = some (o.iso (now + 2 * day_ms));
      reason = some "Autopilot risk mitigation";
    }
    else if key === "REASSIGN_WORK"
    then record {
      assignee_user_id =
          some (or_else (present d.assignee_user_id) (id_of (find (may_pilot org_id) s.users)));
      due_at = none;
      reason = some "Autopilot risk reassignment";
    }
    else record { assignee_user_id = none; due_at = none; reason = some "Autopilot trigger" }
