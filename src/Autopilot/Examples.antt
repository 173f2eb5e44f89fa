-- ===== src/Autopilot/Examples.antt =====
-- The theorems on the autopilot at concrete tables.
use kritvia_global_dashboard.Autopilot.{
  AutopilotPolicy, AutopilotRun, Pilot, PilotSetting, RiskDriver, executed, no_condition, skipped,
}
use kritvia_global_dashboard.Autopilot.Evaluate.{PilotIds, evaluate_and_execute, is_executed}
use kritvia_global_dashboard.Autopilot.Restraint.{Untouched, evaluate_and_execute-Untouched}
use kritvia_global_dashboard.Autopilot.Runs.{assign, undo_action}
use kritvia_global_dashboard.Autopilot.Undo.{undo_action-reassign, undo_action-unchanged}
use kritvia_global_dashboard.Base.{
  All, Bool, Memᴰ, [], arith, false, inl, map, none, ok, ops, refl, some, trim, true, ℕ, ◌∷◌, ◌≡◌,
}
use kritvia_global_dashboard.Fixes.{
  FixActionRun, RunResult, Shop, WorkItem, log_fix, reassigned, running, unchanged,
}
use kritvia_global_dashboard.Fixes.Actions.{execute_reassign_work}
use kritvia_global_dashboard.Fixes.Samples.{fix_user, reassign_run, setting, work_shop}

abbrev pilot_setting : Bool → PilotSetting
pilot_setting switched_off = record {
  fix = setting true;
  autopilot_enabled = true;
  kill_switch = switched_off;
  org_enabled = true;
  digits = λ n. "0";
  number_of = λ t. 0;
  iso = λ n. "0";
}

abbrev reassign_policy : AutopilotPolicy
reassign_policy = record {
  id = "p1";
  org_id = "o1";
  is_enabled = true;
  entity_type = "WORK_ITEM";
  condition = no_condition;
  action_template_key = "REASSIGN_WORK";
  risk_threshold = some 50;
  auto_execute = true;
  max_executions_per_hour = 10;
}

abbrev work_driver : ℕ → RiskDriver
work_driver risk = record {
  type = "WORK_ITEM";
  entity_id = "w1";
  risk_score = risk;
  due_at = none;
  amount_cents = none;
  status = none;
  assignee_user_id = some "u2";
}

abbrev pilot : Pilot
pilot = record { shop = work_shop []; policies = reassign_policy ∷ []; auto_runs = [] }

abbrev pilot_ids : AutopilotPolicy → PilotIds
pilot_ids q = record { run_id = "a1"; fix_run_id = "r1"; nudge_id = "n1" }

-- The switch is tested after `createRun`, which has executed the action already if its template
-- asks for no confirmation: the run ends as skipped, and the work item has its new assignee.
kill_switch_late :
    let (s, outcomes) =
      evaluate_and_execute (pilot_setting true) pilot_ids "o1" (work_driver 75) 0 pilot in
    (map (λ x. x.status) outcomes ≡ skipped ∷ [])
    × (map (λ w. w.assigned_to_user_id) s.shop.work_items ≡ some "u2" ∷ [])
unfolding evaluate_and_execute trim
kill_switch_late = (refl, refl)

evaluate_and_execute-Untouched_example :
    let (s, outcomes) =
      evaluate_and_execute (pilot_setting false) pilot_ids "o1" (work_driver 90) 0 pilot in
    Untouched (work_shop []) s.shop × All (λ x. is_executed x.status ≡ false) outcomes
evaluate_and_execute-Untouched_example =
    evaluate_and_execute-Untouched (pilot_setting false) pilot_ids "o1" (work_driver 90) 0 pilot
      (inl (omega arith))

abbrev auto_run_with : RunResult → AutopilotRun
auto_run_with seen = record {
  id = "a1";
  org_id = "o1";
  policy_id = "p1";
  entity_type = "WORK_ITEM";
  entity_id = "w1";
  status = executed;
  fix_action_run_id = some "r1";
  preview = some seen;
  rolled_back_by = none;
  created_at = 0;
}

abbrev after_reassign : Shop
after_reassign = log_fix "o1" "u1" "w1" "WORK_REASSIGNED" (assign "w1" (some "u2") (work_shop []))

undo_action-reassign_example :
    (assign "w1" (some "u1") after_reassign).work_items ≡ (work_shop []).work_items
unfolding execute_reassign_work undo_action trim
undo_action-reassign_example =
    undo_action-reassign 0 (reassign_run running) fix_user
      (auto_run_with (reassigned true (some "u1") "u2")) (work_shop []) (work_shop [])
      after_reassign (assign "w1" (some "u1") after_reassign) (some "u1") "u2"
      (reassigned false (some "u1") "u2") (tt, tt) refl refl refl refl refl

abbrev kept_shop : Shop
kept_shop = record (work_shop []) {
  users =
      record { id = "u1"; org_id = "o1"; role = ops; is_active = true; email = ""; name = "" } ∷ [];
}

-- The run that assigns the item to its assignee.
abbrev same_assignee : FixActionRun
same_assignee = record (reassign_run running) {
  input = record { assignee_user_id = some "u1"; due_at = none; reason = none };
}

undo_action-unchanged_example :
    (w : WorkItem) × (s' : Shop) × (execute_reassign_work 0 same_assignee fix_user false kept_shop
      ≡ ok (kept_shop, unchanged "u1"))
    × (undo_action "REASSIGN_WORK" (auto_run_with (unchanged "u1")) kept_shop ≡ ok s')
    × (w.assigned_to_user_id ≡ some "u1")
    × Memᴰ w kept_shop.work_items
    × Memᴰ (record w { assigned_to_user_id = none }) s'.work_items
unfolding execute_reassign_work trim
undo_action-unchanged_example =
    undo_action-unchanged 0 same_assignee fix_user (auto_run_with (unchanged "u1")) kept_shop
      kept_shop "u1" refl refl refl
