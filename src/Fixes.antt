-- ===== src/Fixes.antt =====
-- apps/api/src/fix-actions/fix-actions.service.ts: the actions that mend what a driver of risk
-- points at. The tables, with the columns that the service reads or writes. Times are milliseconds; a
-- due date is that of a day.
pub mod Actions
pub mod Service
pub mod Truth
pub mod Settled
pub mod Samples
pub mod Results
mod Examples
use kritvia_global_dashboard.Base.{Bool, List, Option, Role, String, [], ℕ, ◌++◌, ◌∷◌}
use kritvia_global_dashboard.Incidents.{Activity, Store}

pub data FixStatus : Type 0 where
  pending confirmed running succeeded failed cancelled : FixStatus

-- The fields of the JSON column `input` that are read, where they are texts.
pub record RunInput : Type 0 where
  pub assignee_user_id : Option String
  pub due_at : Option String
  pub reason : Option String

-- What an action answers, by its fields: `dryRun`, then `simulated` and the recipient; the assignee
-- before and after; the kind, the due date before and after; `timelineCreated` and `nudgeCreated`.
-- The reason, and what an answer repeats of the row that it is about, is left out.
pub data RunResult : Type 0 where
  deduped : String → RunResult
  reminded : Bool → Bool → String → RunResult
  unchanged : String → RunResult
  reassigned : Bool → Option String → String → RunResult
  due_changed : Bool → String → Option ℕ → ℕ → RunResult
  escalated_incident : Bool → Bool → Bool → RunResult

pub record FixActionTemplate : Type 0 where
  pub id : String
  pub org_id : String
  pub key : String
  pub requires_confirmation : Bool
  pub allowed_roles : List Role
  pub max_due_extension_days : Option ℕ
  pub is_enabled : Bool

pub record FixActionRun : Type 0 where
  pub id : String
  pub org_id : String
  pub template : FixActionTemplate
  pub nudge_id : Option String
  pub entity_type : String
  pub entity_id : String
  pub requested_by_user_id : String
  pub status : FixStatus
  pub idempotency_key : String
  pub input : RunInput
  pub result : Option RunResult
  pub created_at : ℕ

pub record WorkItem : Type 0 where
  pub id : String
  pub org_id : String
  pub assigned_to_user_id : Option String
  pub due_date : Option ℕ

pub record BilledInvoice : Type 0 where
  pub id : String
  pub org_id : String
  pub company_id : String
  pub is_paid : Bool
  pub due_date : ℕ

pub record StaffUser : Type 0 where
  pub id : String
  pub org_id : String
  pub role : Role
  pub is_active : Bool
  pub email : String
  pub name : String

pub record CompanyContact : Type 0 where
  pub org_id : String
  pub company_id : String
  pub email : Option String

pub record NudgeRow : Type 0 where
  pub id : String
  pub org_id : String
  pub target_user_id : String
  pub entity_id : String

-- Users, contacts and templates stand in the order of their creation.
pub record Shop : Type 0 where
  pub templates : List FixActionTemplate
  pub runs : List FixActionRun
  pub work_items : List WorkItem
  pub invoices : List BilledInvoice
  pub incidents : Store
  pub users : List StaffUser
  pub contacts : List CompanyContact
  pub nudges : List NudgeRow
  pub activities : List Activity

-- The environment: the feature flags, whether there is a key for sending mails (RESEND_API_KEY),
-- the reading of a date, and the digest of an input.
pub record Setting : Type 0 where
  pub feature_fix_actions : Bool
  pub feature_execution : Bool
  pub has_mail_key : Bool
  pub parse_date : String → Option ℕ
  pub digest : RunInput → String

abbrev pub log_fix : String → String → String → String → Shop → Shop
log_fix org_id actor entity_id action s = record s {
  activities =
      s.activities
      ++ record { org_id = org_id; actor_user_id = actor; entity_id = entity_id; action = action }
        ∷ [];
}
