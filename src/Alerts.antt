-- ===== src/Alerts.antt =====
-- apps/api/src/alerts: the alerts of an organisation, their rules, and the policy that escalates an
-- alert that nobody acknowledges (alerts.service.ts, alerting.service.ts). Times are milliseconds.
pub mod Steps
pub mod Quiet
pub mod Scan
pub mod Loop
pub mod Normal
pub mod Rows
pub mod Silence
pub mod Counts
pub mod Progress
pub mod Handlers
pub mod Spikes
pub mod Trials
pub mod Quieted
pub mod Bursts
pub mod History
mod Examples
use kritvia_global_dashboard.Base.{Bool, List, Option, String, ℕ}
use kritvia_global_dashboard.Incidents.{Activity, Store}
use kritvia_global_dashboard.Invoices.{ℤ}
use kritvia_global_dashboard.OnCall.{Schedule}
use kritvia_global_dashboard.Routing.{AlertChannel}
use kritvia_global_dashboard.Routing.Jobs.{DeliveryJob}

-- A finite number of a JSON column, by what Math.round reads: its floor, and whether the rest is at
-- least a half.
pub record JsonNumber : Type 0 where
  pub whole : ℤ
  pub rounds_up : Bool

-- An entry of the JSON column `steps`: the fields, where they have the type asked for, and the
-- texts of the entries of `routeTo`; or a value that is no object.
pub data JsonStep : Type 0 where
  step_entry : Option JsonNumber → Option (List String) → Option String → JsonStep
  no_entry : JsonStep

pub data JsonSteps : Type 0 where
  step_list : List JsonStep → JsonSteps
  no_steps : JsonSteps

pub record EscalationStep : Type 0 where
  pub after_minutes : ℕ
  pub route_to : List String
  pub min_severity : String

pub record Sla : Type 0 where
  pub sla_critical : ℕ
  pub sla_high : ℕ
  pub sla_medium : ℕ
  pub sla_low : ℕ

pub record QuietHours : Type 0 where
  pub timezone : String
  pub quiet_hours_enabled : Bool
  pub quiet_hours_start : Option String
  pub quiet_hours_end : Option String
  pub business_days_only : Bool

pub record EscalationPolicy : Type 0 where
  pub id : String
  pub org_id : String
  pub name : String
  pub is_enabled : Bool
  pub quiet : QuietHours
  pub sla : Sla
  pub steps : JsonSteps

pub record Alert : Type 0 where
  pub id : String
  pub org_id : String
  pub rule_id : Option String
  pub type : String
  pub severity : String
  pub title : String
  pub is_acknowledged : Bool
  pub acknowledged_by_user_id : Option String
  pub acknowledged_at : Option ℕ
  pub created_at : ℕ

pub record AlertEscalation : Type 0 where
  pub org_id : String
  pub alert_event_id : String
  pub step_number : ℕ
  pub attempted_at : ℕ
  pub routed_to : List String
  pub suppressed : Bool
  pub reason : Option String

-- The columns of a user that the escalation reads.
pub record Contact : Type 0 where
  pub id : String
  pub org_id : String
  pub is_active : Bool
  pub email : String

-- The tables, with the jobs of the routing and the incidents. The alerts stand in the order of
-- their creation.
pub record Desk : Type 0 where
  pub policies : List EscalationPolicy
  pub alerts : List Alert
  pub escalations : List AlertEscalation
  pub schedules : List Schedule
  pub users : List Contact
  pub channels : List AlertChannel
  pub jobs : List DeliveryJob
  pub incidents : Store
  pub activities : List Activity
