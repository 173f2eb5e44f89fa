-- ===== src/Fixes/Service.antt =====
-- The handlers of fix-actions/fix-actions.service.ts. A run that fails is written as FAILED and the
-- exception goes on, so a handler gives the tables after it with its outcome.
use kritvia_global_dashboard.Alerts.Spikes.{joined}
use kritvia_global_dashboard.Auth.Scopes.{same_role}
use kritvia_global_dashboard.Base.{
  AuthUserContext, Bool, List, Option, Outcome, Role, String, [], any, count, fail, false, find,
  get_active_org_id, if◌then◌else◌, is_ceo_or_admin, is_some, leb, ltb, none, not, ok, or_else,
  or_throw, require, service_unavailable, some, true, update, ℕ, ◌&&◌, ◌++◌, ◌-◌, ◌===◌, ◌>>=◌,
  ◌>>◌, ◌||◌, ◌∷◌, not_found, bad_request, conflict, forbidden,
}
use kritvia_global_dashboard.Fixes.{
  FixActionRun, FixActionTemplate, FixStatus, RunInput, RunResult, Setting, Shop, confirmed, failed,
  log_fix, pending, running, succeeded,
}
use kritvia_global_dashboard.Fixes.Actions.{execute_template, same_fix}
use kritvia_global_dashboard.OnCall.Resolver.{present}

abbrev pub own_template : String → String → FixActionTemplate → Bool
own_template org_id key t = t.org_id === org_id && t.key === key && t.is_enabled

abbrev pub role_in : Role → List Role → Bool
role_in r roles = any (λ x. same_role x r) roles

unfoldable pub assert_template_entity_match : String → String → Bool
assert_template_entity_match key entity_type = not (
    key === "SEND_INVOICE_REMINDER" && not (entity_type === "INVOICE")
    || key === "REASSIGN_WORK" && not (entity_type === "WORK_ITEM")
    || key === "ESCALATE_INCIDENT" && not (entity_type === "INCIDENT")
    || key === "SET_DUE_DATE"
      && not (entity_type === "WORK_ITEM")
      && not (entity_type === "INVOICE"))

unfoldable pub assert_entity_in_org : Shop → String → String → String → Outcome (Unit {0})
assert_entity_in_org s org_id entity_type entity_id =
    if entity_type === "INVOICE"
    then require (is_some (find (λ x. x.id === entity_id && x.org_id === org_id) s.invoices))
        not_found
    else if entity_type === "WORK_ITEM"
    then require (is_some (find (λ x. x.id === entity_id && x.org_id === org_id) s.work_items))
        not_found
    else if entity_type === "INCIDENT"
    then require
        (is_some (find (λ x. x.id === entity_id && x.org_id === org_id) s.incidents.incidents))
        not_found
    else fail bad_request

abbrev pub recent_run : String → ℕ → FixActionRun → Bool
recent_run org_id now r = r.org_id === org_id && leb (now - 3600000) r.created_at

-- The limit of 30 runs an hour.
abbrev pub under_rate_limit : Shop → String → ℕ → Bool
under_rate_limit s org_id now = ltb (count (recent_run org_id now) s.runs) 30

pub record CreateFixActionRunDto : Type 0 where
  pub template_key : String
  pub entity_type : String
  pub entity_id : String
  pub nudge_id : Option String
  pub idempotency_key : Option String
  pub input : RunInput

-- `${orgId}:${templateKey}:${entityType}:${entityId}:${hash}`
abbrev build_idempotency_key : Setting → String → String → CreateFixActionRunDto → String
build_idempotency_key o org_id key dto =
    joined org_id (joined key (joined dto.entity_type (joined dto.entity_id (o.digest dto.input))))

abbrev pub has_key : String → String → FixActionRun → Bool
has_key org_id key r = r.org_id === org_id && r.idempotency_key === key

abbrev pub with_id : String → FixActionRun → Bool
with_id id r = r.id === id

abbrev pub set_status : String → FixStatus → Shop → Shop
set_status id status s = record s {
  runs = update (with_id id) (λ r. record r { status = status }) s.runs;
}

abbrev pub set_result : String → RunResult → Shop → Shop
set_result id result s = record s {
  runs = update (with_id id) (λ r. record r { status = succeeded; result = some result }) s.runs;
}

-- What is left to do with a run that has passed the guards: its template, and its end.
unfoldable pub perform :
    Setting → ℕ → String → AuthUserContext → FixActionRun → Shop → Shop × Outcome FixActionRun
unfolding execute_template
perform o now new_nudge_id user run s =
    let started = set_status run.id running s in
    elim (execute_template now run user false o new_nudge_id started) [
      | fail e ↦ (
        log_fix run.org_id user.user_id run.entity_id "FIX_ACTION_RUN_FAILED"
            (set_status run.id failed started),
        fail e,
      )
      | ok (t, r) ↦ (
        log_fix run.org_id user.user_id run.entity_id "FIX_ACTION_RUN_SUCCEEDED"
            (set_result run.id r t),
        ok (record run { status = succeeded; result = some r }),
      )
    ]

abbrev pub may_execute : Bool → FixStatus → Bool
may_execute bypass confirmed = true
may_execute bypass running = bypass
may_execute bypass succeeded = bypass
may_execute bypass _ = false

unfoldable pub execute_run_internal :
    Setting → ℕ → String → AuthUserContext → String → Bool → Shop → Shop × Outcome FixActionRun
unfolding perform
execute_run_internal o now new_nudge_id user run_id bypass s =
    if not o.feature_execution
    then (set_status run_id failed s, fail service_unavailable)
    else elim (find (with_id run_id) s.runs) [
      | none ↦ (s, fail not_found)
      | some run ↦
          if not (may_execute bypass run.status)
          then (s, if same_fix run.status succeeded then ok run else fail conflict)
          else elim (find
              (λ r. has_key run.org_id run.idempotency_key r && same_fix r.status succeeded)
              s.runs) [ some r ↦ (s, ok r) | none ↦ perform o now new_nudge_id user run s ]
    ]

pub record RunOptions : Type 0 where
  pub force_pending : Bool
  pub skip_auto_execute : Bool

-- The answer of `createRun`.
pub record RunAnswer : Type 0 where
  pub id : String
  pub status : FixStatus
  pub requires_confirmation : Bool

-- The guards of `createRun`, in their order: the organisation and the template.
unfoldable pub check_run :
    Setting
    → ℕ
    → AuthUserContext
    → CreateFixActionRunDto
    → Shop
    → Outcome (String × FixActionTemplate)
unfolding get_active_org_id assert_template_entity_match assert_entity_in_org
check_run o now user dto s = do
  require o.feature_fix_actions service_unavailable
  org_id ← get_active_org_id user
  require (under_rate_limit s org_id now) conflict
  t ← or_throw (find (own_template org_id dto.template_key) s.templates) not_found
  require (role_in user.role t.allowed_roles) forbidden
  require (assert_template_entity_match t.key dto.entity_type) bad_request
  assert_entity_in_org s org_id dto.entity_type dto.entity_id
  ok (org_id, t)

abbrev pub new_run :
    String
    → String
    → ℕ
    → AuthUserContext
    → CreateFixActionRunDto
    → FixActionTemplate
    → FixStatus
    → String
    → FixActionRun
new_run id org_id now user dto t status key = record {
  id = id;
  org_id = org_id;
  template = t;
  nudge_id = dto.nudge_id;
  entity_type = dto.entity_type;
  entity_id = dto.entity_id;
  requested_by_user_id = user.user_id;
  status = status;
  idempotency_key = key;
  input = dto.input;
  result = none;
  created_at = now;
}

-- The nudge that the run names is of the organisation, if it names one.
abbrev pub nudge_known : Shop → String → Option String → Bool
nudge_known s org_id nudge_id = elim (present nudge_id) [
  | none ↦ true
  | some id ↦ is_some (find (λ n. n.id === id && n.org_id === org_id) s.nudges)
]

abbrev answer_of_run : Option FixActionRun → FixStatus → FixStatus
answer_of_run none status = status
answer_of_run (some r) status = r.status

abbrev pub key_for : Setting → String → String → CreateFixActionRunDto → String
key_for o org_id template_key dto =
    or_else dto.idempotency_key (build_idempotency_key o org_id template_key dto)

abbrev pub first_status : FixActionTemplate → RunOptions → FixStatus
first_status t options =
    if options.force_pending || t.requires_confirmation then pending else confirmed

abbrev pub placed : String → AuthUserContext → CreateFixActionRunDto → FixActionRun → Shop → Shop
placed org_id user dto run s =
    log_fix org_id user.user_id dto.entity_id "FIX_ACTION_RUN_CREATED"
      (record s { runs = s.runs ++ run ∷ [] })

-- What follows the guards: the run that has the key already, or a new one, executed at once if
-- nothing holds it back. An exception of the execution leaves the new run behind.
unfoldable pub place_run :
    Setting
    → ℕ
    → String
    → String
    → AuthUserContext
    → CreateFixActionRunDto
    → RunOptions
    → String
    → FixActionTemplate
    → Shop
    → Shop × Outcome RunAnswer
unfolding execute_run_internal
place_run o now new_id new_nudge_id user dto options org_id t s =
    let key = key_for o org_id t.key dto in
    let status = first_status t options in
    let created = placed org_id user dto (new_run new_id org_id now user dto t status key) s in
    let (done_shop, result) = execute_run_internal o now new_nudge_id user new_id true created in
    elim (find (has_key org_id key) s.runs) [
      | some r ↦ (
        s,
        ok (record {
          id = r.id;
          status = r.status;
          requires_confirmation = t.requires_confirmation;
        }),
      )
      | none ↦
          if not t.requires_confirmation
            && not options.skip_auto_execute
            && not options.force_pending
          then (
            done_shop,
            result >>= λ r. ok (record {
              id = new_id;
              status = answer_of_run (find (with_id new_id) done_shop.runs) status;
              requires_confirmation = false;
            }),
          )
          else (
            created,
            ok (record {
              id = new_id;
              status = status;
              requires_confirmation = t.requires_confirmation;
            }),
          )
    ]

unfoldable pub create_run :
    Setting
    → ℕ
    → String
    → String
    → AuthUserContext
    → CreateFixActionRunDto
    → RunOptions
    → Shop
    → Shop × Outcome RunAnswer
unfolding check_run place_run
create_run o now new_id new_nudge_id user dto options s = elim (check_run o now user dto s) [
  | fail e ↦ (s, fail e)
  | ok (org_id, t) ↦
      if nudge_known s org_id dto.nudge_id
      then place_run o now new_id new_nudge_id user dto options org_id t s
      else (s, fail not_found)
]

-- The guards of `confirmRun`, and the run.
unfoldable pub check_confirm :
    Setting → AuthUserContext → String → Bool → Shop → Outcome FixActionRun
unfolding get_active_org_id
check_confirm o user run_id confirm s = do
  require o.feature_fix_actions service_unavailable
  require confirm bad_request
  org_id ← get_active_org_id user
  run ← or_throw (find (λ r. r.id === run_id && r.org_id === org_id) s.runs) not_found
  require (run.requested_by_user_id === user.user_id || is_ceo_or_admin user.role) forbidden
  ok run

unfoldable pub confirm_run :
    Setting → ℕ → String → AuthUserContext → String → Bool → Shop → Shop × Outcome FixActionRun
unfolding check_confirm execute_run_internal
confirm_run o now new_nudge_id user run_id confirm s =
    elim (check_confirm o user run_id confirm s) [
      | fail e ↦ (s, fail e)
      | ok run ↦
          if same_fix run.status succeeded
          then (s, ok run)
          else if not (same_fix run.status pending)
          then (s, fail conflict)
          else execute_run_internal o now new_nudge_id user run.id false (
              log_fix run.org_id user.user_id run.entity_id "FIX_ACTION_RUN_CONFIRMED"
                (set_status run.id confirmed s))
    ]

-- The run of the organisation.
unfoldable pub check_execute : Setting → AuthUserContext → String → Shop → Outcome FixActionRun
unfolding get_active_org_id
check_execute o user run_id s = do
  require o.feature_fix_actions service_unavailable
  org_id ← get_active_org_id user
  or_throw (find (λ r. r.id === run_id && r.org_id === org_id) s.runs) not_found

unfoldable pub execute_run_by_id :
    Setting → ℕ → String → AuthUserContext → String → Shop → Shop × Outcome FixActionRun
unfolding check_execute execute_run_internal
execute_run_by_id o now new_nudge_id user run_id s = elim (check_execute o user run_id s) [
  | fail e ↦ (s, fail e)
  | ok run ↦ execute_run_internal o now new_nudge_id user run_id false s
]

abbrev preview_id : String
preview_id = "preview"

unfoldable pub preview_run :
    Setting → ℕ → AuthUserContext → CreateFixActionRunDto → Shop → Outcome RunResult
unfolding get_active_org_id assert_template_entity_match assert_entity_in_org execute_template
preview_run o now user dto s = do
  require o.feature_fix_actions service_unavailable
  org_id ← get_active_org_id user
  t ← or_throw (find (own_template org_id dto.template_key) s.templates) not_found
  require (role_in user.role t.allowed_roles) forbidden
  require (assert_template_entity_match t.key dto.entity_type) bad_request
  assert_entity_in_org s org_id dto.entity_type dto.entity_id
  done_by ←
      execute_template now (new_run preview_id org_id now user dto t running preview_id) user true o
        preview_id s
  ok done_by.1

-- A request to the service, with the identifiers that the database would give.
pub data FixRequest : Type 0 where
  create_request : String → CreateFixActionRunDto → RunOptions → FixRequest
  confirm_request : String → Bool → FixRequest
  execute_request : String → FixRequest

unfoldable pub handle_fix : Setting → ℕ → String → AuthUserContext → FixRequest → Shop → Shop
unfolding create_run confirm_run execute_run_by_id
handle_fix o now new_nudge_id user (create_request new_id dto options) s =
    (create_run o now new_id new_nudge_id user dto options s).0
handle_fix o now new_nudge_id user (confirm_request run_id confirm) s =
    (confirm_run o now new_nudge_id user run_id confirm s).0
handle_fix o now new_nudge_id user (execute_request run_id) s =
    (execute_run_by_id o now new_nudge_id user run_id s).0
