-- ===== src/Autopilot/Evaluate.antt =====
-- evaluateAndExecute of autopilot/autopilot.service.ts: a policy after the other, each with a run of
-- its own. An exception of the fix actions marks the run as FAILED; what was written stays.
use kritvia_global_dashboard.Autopilot.{
  AutoStatus, AutopilotPolicy, AutopilotRun, Pilot, PilotSetting, RiskDriver, approval_required,
  dry_run, executed, run_failed, skipped,
}
use kritvia_global_dashboard.Autopilot.Conditions.{
  build_action_input, evaluate_condition, map_driver_entity_type, requires_approval,
  resolve_autopilot_actor,
}
use kritvia_global_dashboard.Base.{
  AuthUserContext, Bool, List, Option, String, [], count, fail, false, if◌then◌else◌, keep, leb,
  ltb, none, not, ok, some, true, update, ℕ, ◌&&◌, ◌++◌, ◌-◌, ◌===◌, ◌∷◌,
}
use kritvia_global_dashboard.Fixes.{RunResult, Shop, log_fix}
use kritvia_global_dashboard.Fixes.Service.{
  CreateFixActionRunDto, RunAnswer, RunOptions, confirm_run, create_run, preview_run,
}

-- The identifiers that the database gives for a policy.
pub record PilotIds : Type 0 where
  pub run_id : String
  pub fix_run_id : String
  pub nudge_id : String

abbrev pub auto_id : String → AutopilotRun → Bool
auto_id id r = r.id === id

abbrev pub change_auto : String → (AutopilotRun → AutopilotRun) → Pilot → Pilot
change_auto id f s = record s { auto_runs = update (auto_id id) f s.auto_runs }

abbrev pub set_auto : String → AutoStatus → Pilot → Pilot
set_auto id status s = change_auto id (λ r. record r { status = status }) s

abbrev pub log_auto_run : String → String → String → String → Pilot → Pilot
log_auto_run org_id actor policy_id action s = record s {
  shop = log_fix org_id actor policy_id action s.shop;
}

abbrev pub is_executed : AutoStatus → Bool
is_executed executed = true
is_executed _ = false

abbrev pub executed_recently : String → ℕ → AutopilotRun → Bool
executed_recently policy_id now r =
    r.policy_id === policy_id && is_executed r.status && leb (now - 3600000) r.created_at

abbrev pub below_threshold : Option ℕ → ℕ → Bool
below_threshold none risk_score = false
below_threshold (some t) risk_score = ltb risk_score t

-- What the runs of one evaluation share.
pub record Round : Type 0 where
  pub org_id : String
  pub actor : AuthUserContext
  pub driver : RiskDriver
  pub entity_type : String
  pub now : ℕ

module _ (o : PilotSetting) (c : Round) (q : AutopilotPolicy) (ids : PilotIds) where
  abbrev pub first_run : AutopilotRun
  first_run = record {
    id = ids.run_id;
    org_id = c.org_id;
    policy_id = q.id;
    entity_type = c.entity_type;
    entity_id = c.driver.entity_id;
    status = dry_run;
    fix_action_run_id = none;
    preview = none;
    rolled_back_by = none;
    created_at = c.now;
  }

  abbrev pub fix_dto : Shop → CreateFixActionRunDto
  fix_dto s = record {
    template_key = q.action_template_key;
    entity_type = c.entity_type;
    entity_id = c.driver.entity_id;
    nudge_id = none;
    idempotency_key = none;
    input = build_action_input o s c.org_id q.action_template_key c.driver c.now;
  }

  -- `skipWithLog`
  abbrev pub skip_with_log : Pilot → Pilot × AutoStatus
  skip_with_log s = (
    log_auto_run c.org_id c.actor.user_id q.id "AUTOPILOT_SKIPPED" (set_auto ids.run_id skipped s),
    skipped,
  )

  -- The `catch`.
  abbrev pub fail_run : Pilot → Pilot × AutoStatus
  fail_run s = (
    log_auto_run c.org_id c.actor.user_id q.id "AUTOPILOT_SKIPPED"
        (set_auto ids.run_id run_failed s),
    run_failed,
  )

  abbrev pub needs_approval : Bool
  needs_approval = requires_approval c.driver.risk_score q.auto_execute

  -- The run of the fix action is confirmed.
  unfoldable pub finish_run : String → Pilot → Pilot × AutoStatus
  unfolding confirm_run
  finish_run fix_run_id s =
      let (shop, answer) = confirm_run o.fix c.now ids.nudge_id c.actor fix_run_id true s.shop in
      let s' = record s { shop = shop } in
      elim answer [
        | fail e ↦ fail_run s'
        | ok r ↦ (
          log_auto_run c.org_id c.actor.user_id q.id "AUTOPILOT_EXECUTED"
              (set_auto ids.run_id executed s'),
          executed,
        )
      ]

  -- The run of the fix action is there: it waits for approval, is stopped, or is confirmed.
  unfoldable pub settle_run : RunAnswer → Pilot → Pilot × AutoStatus
  unfolding finish_run requires_approval
  settle_run answer s₀ =
      let s =
        log_auto_run c.org_id c.actor.user_id q.id "AUTOPILOT_TRIGGERED"
          (change_auto ids.run_id (λ r. record r { fix_action_run_id = some answer.id }) s₀) in
      if needs_approval
      then (
        log_auto_run c.org_id c.actor.user_id q.id "AUTOPILOT_APPROVAL_REQUIRED"
            (set_auto ids.run_id approval_required s),
        approval_required,
      )
      else if o.kill_switch
      then skip_with_log s
      else finish_run answer.id s

  abbrev pub held_options : RunOptions
  held_options = record { force_pending = needs_approval; skip_auto_execute = needs_approval }

  unfoldable pub trigger_run : Pilot → Pilot × AutoStatus
  unfolding settle_run create_run build_action_input
  trigger_run s =
      let (shop, answer) =
        create_run o.fix c.now ids.fix_run_id ids.nudge_id c.actor (fix_dto s.shop) held_options
          s.shop in
      let s' = record s { shop = shop } in
      elim answer [ fail e ↦ fail_run s' | ok a ↦ settle_run a s' ]

  abbrev pub with_preview : RunResult → Pilot → Pilot
  with_preview r s = change_auto ids.run_id (λ x. record x { preview = some r }) s

  unfoldable pub try_policy : Pilot → Pilot × AutoStatus
  unfolding trigger_run preview_run evaluate_condition build_action_input
  try_policy s₀ =
      let s = record s₀ { auto_runs = s₀.auto_runs ++ first_run ∷ [] } in
      if not (evaluate_condition o q.condition c.driver c.now)
      then skip_with_log s
      else if below_threshold q.risk_threshold c.driver.risk_score
      then skip_with_log s
      else elim (preview_run o.fix c.now c.actor (fix_dto s.shop) s.shop) [
        | fail e ↦ fail_run s
        | ok r ↦
            if leb q.max_executions_per_hour
              (count (executed_recently q.id c.now) (with_preview r s).auto_runs)
            then skip_with_log (with_preview r s)
            else trigger_run (with_preview r s)
      ]

-- The policy, the status that it ended with, and its run.
pub record PilotOutcome : Type 0 where
  pub policy_id : String
  pub status : AutoStatus
  pub run_id : String

module _ (o : PilotSetting) (c : Round) (ids : AutopilotPolicy → PilotIds) where
  unfoldable pub try_policies : List AutopilotPolicy → Pilot → Pilot × List PilotOutcome
  unfolding try_policy
  try_policies [] s = (s, [])
  try_policies (q ∷ qs) s =
      let (s', status) = try_policy o c q (ids q) s in
      let (s'', more) = try_policies qs s' in
      (s'', record { policy_id = q.id; status = status; run_id = (ids q).run_id } ∷ more)

abbrev pub policy_applies : String → String → AutopilotPolicy → Bool
policy_applies org_id entity_type q =
    q.org_id === org_id && q.is_enabled && q.entity_type === entity_type

unfoldable pub evaluate_and_execute :
    PilotSetting
    → (AutopilotPolicy → PilotIds)
    → String
    → RiskDriver
    → ℕ
    → Pilot
    → Pilot × List PilotOutcome
unfolding try_policies map_driver_entity_type resolve_autopilot_actor
evaluate_and_execute o ids org_id driver now s =
    if not o.autopilot_enabled
    then (s, [])
    else if not o.org_enabled
    then (s, [])
    else elim (map_driver_entity_type driver) [
      | none ↦ (s, [])
      | some entity_type ↦ elim (resolve_autopilot_actor s.shop org_id) [
        | none ↦ (s, [])
        | some actor ↦
            try_policies o
              (record {
                org_id = org_id;
                actor = actor;
                driver = driver;
                entity_type = entity_type;
                now = now;
              })
              ids (keep (policy_applies org_id entity_type) s.policies) s
      ]
    ]
