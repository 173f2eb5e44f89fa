-- ===== src/Autopilot.antt =====
-- apps/api/src/autopilot/autopilot.service.ts: the policies that answer drivers of risk with fix
-- actions, and their runs. Times are milliseconds. The numbers of a condition are natural ones.
pub mod Conditions
pub mod Evaluate
pub mod Runs
pub mod Restraint
pub mod Undo
mod Examples
use kritvia_global_dashboard.Base.{Bool, List, Option, String, ℕ}
use kritvia_global_dashboard.Fixes.{RunResult, Setting, Shop}

pub data AutoStatus : Type 0 where
  dry_run skipped approval_required executed run_failed : AutoStatus

pub data ConditionField : Type 0 where
  risk_score_field due_at_past_days_field amount_cents_field status_field other_field :
      ConditionField

pub data ConditionOperator : Type 0 where
  op_gt op_gte op_lt op_lte op_eq op_in op_other : ConditionOperator

-- The value of a condition, by what is read of it: its number, its text, and the texts of its
-- items if it is an array.
pub record Expected : Type 0 where
  pub number : ℕ
  pub text : String
  pub items : Option (List String)

-- The JSON column `condition`: an expression with a field and an operator, or anything else.
pub data JsonCondition : Type 0 where
  expression : ConditionField → ConditionOperator → Expected → JsonCondition
  no_condition : JsonCondition

pub record AutopilotPolicy : Type 0 where
  pub id : String
  pub org_id : String
  pub is_enabled : Bool
  pub entity_type : String
  pub condition : JsonCondition
  pub action_template_key : String
  pub risk_threshold : Option ℕ
  pub auto_execute : Bool
  pub max_executions_per_hour : ℕ

pub record AutopilotRun : Type 0 where
  pub id : String
  pub org_id : String
  pub policy_id : String
  pub entity_type : String
  pub entity_id : String
  pub status : AutoStatus
  pub fix_action_run_id : Option String
  pub preview : Option RunResult
  pub rolled_back_by : Option String
  pub created_at : ℕ

-- A driver of the risk engine with its evidence; an unreadable date is none.
pub record RiskDriver : Type 0 where
  pub type : String
  pub entity_id : String
  pub risk_score : ℕ
  pub due_at : Option ℕ
  pub amount_cents : Option ℕ
  pub status : Option String
  pub assignee_user_id : Option String

pub record Pilot : Type 0 where
  pub shop : Shop
  pub policies : List AutopilotPolicy
  pub auto_runs : List AutopilotRun

-- The flags, the switch, the flag of the organisation's policy, and how numbers, texts and dates
-- turn into one another.
pub record PilotSetting : Type 0 where
  pub fix : Setting
  pub autopilot_enabled : Bool
  pub kill_switch : Bool
  pub org_enabled : Bool
  pub digits : ℕ → String
  pub number_of : String → ℕ
  pub iso : ℕ → String
