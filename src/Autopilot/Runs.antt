-- ===== src/Autopilot/Runs.antt =====
-- What users do with policies and runs: approveRun, rollbackRun, createPolicy, updatePolicy and
-- deletePolicy of autopilot/autopilot.service.ts.
use mathlib.Core.Option
use kritvia_global_dashboard.Autopilot.{
  AutoStatus, AutopilotPolicy, AutopilotRun, JsonCondition, Pilot, PilotSetting, approval_required,
  executed,
}
use kritvia_global_dashboard.Autopilot.Evaluate.{change_auto, is_executed, log_auto_run, set_auto}
use kritvia_global_dashboard.Base.{
  AuthUserContext, Bool, Option, Outcome, String, [], alt, any, fail, false, find,
  get_active_org_id, if◌then◌else◌, internal_error, is_some, keep, none, not, ok, or_else, or_throw,
  require, service_unavailable, some, true, update, ℕ, ◌&&◌, ◌++◌, ◌===◌, ◌>>=◌, ◌>>◌, ◌∷◌,
  bad_request, not_found, conflict,
}
use kritvia_global_dashboard.Fixes.{RunResult, Shop, due_changed, reassigned}
use kritvia_global_dashboard.Fixes.Service.{confirm_run, own_template}
use kritvia_global_dashboard.Invoices.{start_of_utc_day}
use kritvia_global_dashboard.OnCall.Resolver.{present}

abbrev pub own_run : String → String → AutopilotRun → Bool
own_run id org_id r = r.id === id && r.org_id === org_id

abbrev pub is_awaiting : AutoStatus → Bool
is_awaiting approval_required = true
is_awaiting _ = false

-- The guards of `approveRun` after the search for the run; the switch is logged.
unfoldable pub approve_run :
    PilotSetting → ℕ → String → AuthUserContext → String → Pilot → Pilot × Outcome (Unit {0})
unfolding get_active_org_id confirm_run
approve_run o now nudge_id user run_id s =
    let found_run = (do
      org_id ← get_active_org_id user
      or_throw (find (own_run run_id org_id) s.auto_runs) not_found) in
    elim found_run [
      | fail e ↦ (s, fail e)
      | ok run ↦
          if o.kill_switch
          then (
            log_auto_run run.org_id user.user_id run.policy_id "AUTOPILOT_SKIPPED" s,
            fail service_unavailable,
          )
          else if not (is_awaiting run.status)
          then (s, fail conflict)
          else elim run.fix_action_run_id [
            | none ↦ (s, fail conflict)
            | some fix_run_id ↦
                let (shop, answer) = confirm_run o.fix now nudge_id user fix_run_id true s.shop in
                let s' = record s { shop = shop } in
                elim answer [
                  | fail e ↦ (s', fail e)
                  | ok r ↦ (
                    log_auto_run run.org_id user.user_id run.policy_id "AUTOPILOT_EXECUTED"
                        (set_auto run.id executed s'),
                    ok tt,
                  )
                ]
          ]
    ]

-- `previousDueAt` and `previousAssigneeUserId` of the preview, where it has them.
abbrev pub previous_due_at : Option RunResult → Option ℕ
previous_due_at (some (due_changed d t previous due)) = previous
previous_due_at _ = none

abbrev pub previous_assignee : Option RunResult → Option String
previous_assignee (some (reassigned d previous assignee)) = previous
previous_assignee _ = none

abbrev pub assign : String → Option String → Shop → Shop
assign id user_id s = record s {
  work_items =
      update (λ w. w.id === id) (λ w. record w { assigned_to_user_id = user_id }) s.work_items;
}

abbrev set_due : String → Option ℕ → Shop → Shop
set_due id due s = record s {
  work_items =
      update (λ w. w.id === id) (λ w. record w { due_date = Option.map start_of_utc_day due })
        s.work_items;
}

abbrev set_invoice : String → ℕ → Shop → Shop
set_invoice id due s = record s {
  invoices =
      update (λ i. i.id === id) (λ i. record i { due_date = start_of_utc_day due }) s.invoices;
}

-- `key` is the template of the policy as it is now. The rows are looked up by their identifiers
-- alone; the update of a missing row throws.
unfoldable pub undo_action : String → AutopilotRun → Shop → Outcome Shop
undo_action key run s =
    if key === "SET_DUE_DATE"
    then (if run.entity_type === "WORK_ITEM"
        then require (any (λ w. w.id === run.entity_id) s.work_items) internal_error
          >> ok (set_due run.entity_id (previous_due_at run.preview) s)
        else if run.entity_type === "INVOICE"
        then elim (previous_due_at run.preview) [
          | none ↦ fail bad_request
          | some due ↦
              require (any (λ i. i.id === run.entity_id) s.invoices) internal_error
              >> ok (set_invoice run.entity_id due s)
        ]
        else fail bad_request)
    else if key === "REASSIGN_WORK"
    then require (any (λ w. w.id === run.entity_id) s.work_items) internal_error
      >> ok (assign run.entity_id (previous_assignee run.preview) s)
    else fail bad_request

unfoldable pub rollback_run : AuthUserContext → String → Pilot → Outcome Pilot
unfolding get_active_org_id undo_action
rollback_run user run_id s = do
  org_id ← get_active_org_id user
  run ← or_throw (find (own_run run_id org_id) s.auto_runs) not_found
  require (is_executed run.status) conflict
  q ← or_throw (find (λ x. x.id === run.policy_id) s.policies) internal_error
  shop ← undo_action q.action_template_key run s.shop
  ok (
      log_auto_run org_id user.user_id run.policy_id "AUTOPILOT_ROLLBACK" (
        change_auto run.id (λ r. record r { rolled_back_by = some user.user_id })
          (record s { shop = shop })))

pub record PolicyDto : Type 0 where
  pub is_enabled : Option Bool
  pub entity_type : Option String
  pub condition : Option JsonCondition
  pub action_template_key : Option String
  pub risk_threshold : Option ℕ
  pub auto_execute : Option Bool
  pub max_executions_per_hour : Option ℕ

-- `assertTemplateExists`
abbrev pub template_exists : Shop → String → String → Bool
template_exists s org_id key = is_some (find (own_template org_id key) s.templates)

module _ (o : PilotSetting) where
  -- The DTO of `createPolicy` has an entity type, a condition and a template.
  unfoldable pub create_policy :
      AuthUserContext → String → String → JsonCondition → String → PolicyDto → Pilot → Outcome Pilot
  unfolding get_active_org_id
  create_policy user new_id entity_type condition key dto s = do
    require o.autopilot_enabled service_unavailable
    org_id ← get_active_org_id user
    require (template_exists s.shop org_id key) bad_request
    let q : AutopilotPolicy = record {
      id = new_id;
      org_id = org_id;
      is_enabled = or_else dto.is_enabled true;
      entity_type = entity_type;
      condition = condition;
      action_template_key = key;
      risk_threshold = dto.risk_threshold;
      auto_execute = or_else dto.auto_execute false;
      max_executions_per_hour = or_else dto.max_executions_per_hour 10;
    }
    ok (
        log_auto_run org_id user.user_id new_id "AUTOPILOT_POLICY_CREATED"
          (record s { policies = s.policies ++ q ∷ [] }))

  abbrev key_known : Shop → String → Option String → Bool
  key_known s org_id key = elim (present key) [ none ↦ true | some k ↦ template_exists s org_id k ]

  unfoldable pub update_policy : AuthUserContext → String → PolicyDto → Pilot → Outcome Pilot
  unfolding get_active_org_id
  update_policy user id dto s = do
    require o.autopilot_enabled service_unavailable
    org_id ← get_active_org_id user
    q ← or_throw (find (λ x. x.id === id && x.org_id === org_id) s.policies) not_found
    require (key_known s.shop org_id dto.action_template_key) bad_request
    let q' = record q {
      is_enabled = or_else dto.is_enabled q.is_enabled;
      entity_type = or_else dto.entity_type q.entity_type;
      condition = or_else dto.condition q.condition;
      action_template_key = or_else dto.action_template_key q.action_template_key;
      risk_threshold = alt dto.risk_threshold q.risk_threshold;
      auto_execute = or_else dto.auto_execute q.auto_execute;
      max_executions_per_hour = or_else dto.max_executions_per_hour q.max_executions_per_hour;
    }
    ok (
        log_auto_run org_id user.user_id id "AUTOPILOT_POLICY_UPDATED"
          (record s { policies = update (λ x. x.id === q.id) (λ x. q') s.policies }))

  -- The runs of the policy go with it.
  unfoldable pub delete_policy : AuthUserContext → String → Pilot → Outcome Pilot
  unfolding get_active_org_id
  delete_policy user id s = do
    require o.autopilot_enabled service_unavailable
    org_id ← get_active_org_id user
    q ← or_throw (find (λ x. x.id === id && x.org_id === org_id) s.policies) not_found
    ok (
        log_auto_run org_id user.user_id id "AUTOPILOT_POLICY_DELETED" (record s {
          policies = keep (λ x. not (x.id === q.id)) s.policies;
          auto_runs = keep (λ r. not (r.policy_id === q.id)) s.auto_runs;
        }))
