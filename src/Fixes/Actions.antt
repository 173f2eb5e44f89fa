-- ===== src/Fixes/Actions.antt =====
-- What the actions do: executeTemplate of fix-actions/fix-actions.service.ts with the four
-- templates. Each throws before its first write, so an exception leaves the tables as they were. The
-- column of a due date keeps the day of the time that is written to it.
use kritvia_global_dashboard.Base.{
  AuthUserContext, Bool, List, Option, Outcome, Role, String, [], admin, alt, ceo, fail, false,
  finance, find, if◌then◌else◌, is_ceo_or_admin, is_empty, is_some, is_text, leb, ltb, none, not,
  ok, ops, or_throw, require, some, trim, true, update, ℕ, ◌&&◌, ◌*◌, ◌++◌, ◌+◌, ◌-◌, ◌===◌, ◌>>=◌,
  ◌>>◌, ◌||◌, ◌∷◌, not_found, bad_request, conflict,
}
use kritvia_global_dashboard.Fixes.{
  FixActionRun, FixStatus, RunResult, Setting, Shop, StaffUser, cancelled, confirmed, deduped,
  due_changed, escalated_incident, failed, log_fix, pending, reassigned, reminded, running,
  succeeded, unchanged,
}
use kritvia_global_dashboard.Incidents.{add_timeline_entry, fix_action}
use kritvia_global_dashboard.Incidents.FromAlerts.{is_active}
use kritvia_global_dashboard.Incidents.Lifecycle.{entry_of}
use kritvia_global_dashboard.Invoices.{start_of_utc_day}
use kritvia_global_dashboard.OnCall.{day_ms}
use kritvia_global_dashboard.OnCall.Resolver.{present}

abbrev pub same_fix : FixStatus → FixStatus → Bool
same_fix pending pending = true
same_fix confirmed confirmed = true
same_fix running running = true
same_fix succeeded succeeded = true
same_fix failed failed = true
same_fix cancelled cancelled = true
same_fix a b = false

-- `getStringInput`
abbrev pub get_string_input : Option String → Option String
get_string_input none = none
get_string_input (some t) = if is_empty (trim t) then none else some (trim t)

abbrev pub is_staff : Role → Bool
is_staff ops = true
is_staff admin = true
is_staff ceo = true
is_staff _ = false

unfoldable pub resolve_invoice_recipient : Shop → String → String → Option String
resolve_invoice_recipient s org_id company_id =
    let contact =
      find (λ c. c.org_id === org_id && c.company_id === company_id && is_some c.email)
        s.contacts in
    let finance_user =
      find (λ u. u.org_id === org_id && is_finance u.role && u.is_active) s.users in
    alt (present (elim contact [ none ↦ none | some c ↦ c.email ]))
      (elim finance_user [ none ↦ none | some u ↦ some u.email ])
  where
    is_finance : Role → Bool
    is_finance finance = true
    is_finance _ = false

-- The first in creation of the active OPS, ADMIN and CEO users.
abbrev pub ops_assignee : String → Shop → Option StaffUser
ops_assignee org_id s = find (λ u. u.org_id === org_id && is_staff u.role && u.is_active) s.users

-- `orderBy` with `createdAt` from the last: the latest run that passes.
abbrev pub latest : (FixActionRun → Bool) → List FixActionRun → Option FixActionRun
latest test [] = none
latest test (r ∷ rs) =
    let later = latest test rs in
    if test r
    then some (elim later [ none ↦ r | some l ↦ if ltb r.created_at l.created_at then l else r ])
    else later

abbrev pub recent_reminder : FixActionRun → ℕ → FixActionRun → Bool
recent_reminder run now r =
    r.org_id === run.org_id
    && r.template.id === run.template.id
    && r.entity_type === "INVOICE"
    && r.entity_id === run.entity_id
    && same_fix r.status succeeded
    && leb (now - 3600000) r.created_at

module _ (now : ℕ) (run : FixActionRun) (user : AuthUserContext) (dry_run : Bool) where
  unfoldable pub execute_send_invoice_reminder : Setting → Shop → Outcome (Shop × RunResult)
  unfolding resolve_invoice_recipient
  execute_send_invoice_reminder o s = do
    i ←
        or_throw (find (λ x. x.id === run.entity_id && x.org_id === run.org_id) s.invoices)
          not_found
    require (not i.is_paid) conflict
    elim (latest (recent_reminder run now) s.runs) [
      | some r ↦ ok (s, deduped r.id)
      | none ↦ do
        recipient ←
            or_throw (present (resolve_invoice_recipient s run.org_id i.company_id)) bad_request
        ok (
          if dry_run then s else log_fix run.org_id user.user_id i.id "INVOICE_REMINDER_SENT" s,
          reminded dry_run (not o.has_mail_key || dry_run) recipient,
        )
    ]

  unfoldable pub execute_reassign_work : Shop → Outcome (Shop × RunResult)
  execute_reassign_work s = do
    wanted ← or_throw (get_string_input run.input.assignee_user_id) bad_request
    w ←
        or_throw (find (λ x. x.id === run.entity_id && x.org_id === run.org_id) s.work_items)
          not_found
    u ←
        or_throw (find (λ x. x.id === wanted && x.org_id === run.org_id && x.is_active) s.users)
          not_found
    ok (
        if is_text w.assigned_to_user_id u.id
        then (s, unchanged u.id)
        else if dry_run
        then (s, reassigned true w.assigned_to_user_id u.id)
        else (
          log_fix run.org_id user.user_id w.id "WORK_REASSIGNED" (record s {
            work_items =
                update (λ x. x.id === w.id) (λ x. record x { assigned_to_user_id = some u.id })
                  s.work_items;
          }),
          reassigned false w.assigned_to_user_id u.id,
        ))

  -- Those who are no CEO or ADMIN set no past date, and none beyond the days of the template.
  abbrev pub date_allowed : ℕ → Bool
  date_allowed due_at =
      is_ceo_or_admin user.role
      || leb now due_at && (elim run.template.max_due_extension_days [
        | none ↦ true
        | some n ↦ leb due_at (now + n * day_ms)
      ])

  unfoldable pub set_work_due : ℕ → Shop → Outcome (Shop × RunResult)
  set_work_due due_at s = do
    w ←
        or_throw (find (λ x. x.id === run.entity_id && x.org_id === run.org_id) s.work_items)
          not_found
    ok (
        if dry_run then (s, due_changed true "WORK_ITEM" w.due_date due_at) else (
          log_fix run.org_id user.user_id w.id "DUE_DATE_CHANGED" (record s {
            work_items =
                update (λ x. x.id === w.id)
                  (λ x. record x { due_date = some (start_of_utc_day due_at) }) s.work_items;
          }),
          due_changed false "WORK_ITEM" w.due_date (start_of_utc_day due_at),
        ))

  unfoldable pub set_invoice_due : ℕ → Shop → Outcome (Shop × RunResult)
  set_invoice_due due_at s = do
    i ←
        or_throw (find (λ x. x.id === run.entity_id && x.org_id === run.org_id) s.invoices)
          not_found
    ok (
        if dry_run then (s, due_changed true "INVOICE" (some i.due_date) due_at) else (
          log_fix run.org_id user.user_id i.id "DUE_DATE_CHANGED" (record s {
            invoices =
                update (λ x. x.id === i.id) (λ x. record x { due_date = start_of_utc_day due_at })
                  s.invoices;
          }),
          due_changed false "INVOICE" (some i.due_date) (start_of_utc_day due_at),
        ))

  abbrev set_due_of : ℕ → Shop → Outcome (Shop × RunResult)
  set_due_of due_at s =
      if run.entity_type === "WORK_ITEM"
      then set_work_due due_at s
      else if run.entity_type === "INVOICE"
      then set_invoice_due due_at s
      else fail bad_request

  unfoldable pub execute_set_due_date : Setting → Shop → Outcome (Shop × RunResult)
  unfolding set_work_due set_invoice_due
  execute_set_due_date o s = do
    text ← or_throw (get_string_input run.input.due_at) bad_request
    due_at ← or_throw (o.parse_date text) bad_request
    require (date_allowed due_at) bad_request
    set_due_of due_at s

  abbrev escalated_shop : String → String → Shop → Shop
  escalated_shop incident_id new_nudge_id s =
      log_fix run.org_id user.user_id incident_id "INCIDENT_ESCALATED" (record s {
        incidents =
            add_timeline_entry
              (entry_of incident_id "ESCALATED" (some "Escalated by Fix Action") (fix_action run.id)
                (some user.user_id))
              s.incidents;
        nudges = s.nudges ++ (elim (ops_assignee run.org_id s) [
          | none ↦ []
          | some u ↦
              record {
                id = new_nudge_id;
                org_id = run.org_id;
                target_user_id = u.id;
                entity_id = incident_id;
              }
              ∷ []
        ]);
      })

  -- The database numbers the nudge.
  unfoldable pub execute_escalate_incident : String → Shop → Outcome (Shop × RunResult)
  execute_escalate_incident new_nudge_id s = do
    i ←
        or_throw
          (find (λ x. x.id === run.entity_id && x.org_id === run.org_id) s.incidents.incidents)
          not_found
    require (is_active i.status) conflict
    ok (
        if dry_run then (s, escalated_incident true false false) else (
          escalated_shop i.id new_nudge_id s,
          escalated_incident false true (is_some (ops_assignee run.org_id s)),
        ))

  unfoldable pub execute_template : Setting → String → Shop → Outcome (Shop × RunResult)
  unfolding execute_send_invoice_reminder execute_reassign_work execute_set_due_date
      execute_escalate_incident
  execute_template o new_nudge_id s =
      if run.template.key === "SEND_INVOICE_REMINDER"
      then execute_send_invoice_reminder o s
      else if run.template.key === "REASSIGN_WORK"
      then execute_reassign_work s
      else if run.template.key === "SET_DUE_DATE"
      then execute_set_due_date o s
      else if run.template.key === "ESCALATE_INCIDENT"
      then execute_escalate_incident new_nudge_id s
      else fail bad_request
