-- ===== src/Fixes/Samples.antt =====
-- Sample tables for the examples of the fix actions and of the autopilot.
use kritvia_global_dashboard.Base.{
  AuthUserContext, Bool, List, [], false, none, ops, some, true, ◌∷◌,
}
use kritvia_global_dashboard.Fixes.{
  FixActionRun, FixActionTemplate, FixStatus, RunInput, Setting, Shop,
}
use kritvia_global_dashboard.Fixes.Service.{CreateFixActionRunDto, RunOptions}

abbrev pub fix_user : AuthUserContext
fix_user = record {
  user_id = "u1";
  org_id = "o1";
  active_org_id = none;
  role = ops;
  email = "u1@example.org";
  name = "U";
  is_service_account = false;
  service_account_id = none;
  service_account_scopes = none;
}

abbrev pub reassign_template : FixActionTemplate
reassign_template = record {
  id = "t1";
  org_id = "o1";
  key = "REASSIGN_WORK";
  requires_confirmation = false;
  allowed_roles = ops ∷ [];
  max_due_extension_days = none;
  is_enabled = true;
}

abbrev pub to_u2 : RunInput
to_u2 = record { assignee_user_id = some "u2"; due_at = none; reason = none }

abbrev pub reassign_run : FixStatus → FixActionRun
reassign_run status = record {
  id = "r1";
  org_id = "o1";
  template = reassign_template;
  nudge_id = none;
  entity_type = "WORK_ITEM";
  entity_id = "w1";
  requested_by_user_id = "u1";
  status = status;
  idempotency_key = "k1";
  input = to_u2;
  result = none;
  created_at = 0;
}

abbrev pub work_shop : List FixActionRun → Shop
work_shop rows = record {
  templates = reassign_template ∷ [];
  runs = rows;
  work_items =
      record { id = "w1"; org_id = "o1"; assigned_to_user_id = some "u1"; due_date = none } ∷ [];
  invoices = [];
  incidents = record {
    incidents = [];
    participants = [];
    timeline = [];
    postmortems = [];
    alert_events = [];
    activities = [];
    notifications = [];
  };
  users =
      record {
        id = "u2";
        org_id = "o1";
        role = ops;
        is_active = true;
        email = "u2@example.org";
        name = "V";
      }
      ∷ [];
  contacts = [];
  nudges = [];
  activities = [];
}

abbrev pub setting : Bool → Setting
setting execution = record {
  feature_fix_actions = true;
  feature_execution = execution;
  has_mail_key = true;
  parse_date = λ t. none;
  digest = λ i. "d";
}

abbrev pub reassign_dto : CreateFixActionRunDto
reassign_dto = record {
  template_key = "REASSIGN_WORK";
  entity_type = "WORK_ITEM";
  entity_id = "w1";
  nudge_id = none;
  idempotency_key = some "k2";
  input = to_u2;
}

abbrev pub at_once : RunOptions
at_once = record { force_pending = false; skip_auto_execute = false }
