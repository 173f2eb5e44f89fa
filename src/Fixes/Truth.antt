-- ===== src/Fixes/Truth.antt =====
-- A preview against the execution that it stands for.
use kritvia_global_dashboard.Base.{
  AuthUserContext, Bool-cases, Outcome, String, arith, fail, false, inl, inr, is_some, not, ok,
  refl, true, ℕ, ◌===◌, ◌≡◌,
}
use kritvia_global_dashboard.Fixes.{
  FixActionRun, FixStatus, RunResult, Setting, Shop, deduped, due_changed, escalated_incident,
  reassigned, reminded, unchanged,
}
use kritvia_global_dashboard.Fixes.Actions.{
  execute_escalate_incident, execute_reassign_work, execute_send_invoice_reminder,
  execute_set_due_date, execute_template, ops_assignee, set_invoice_due, set_work_due,
}
use kritvia_global_dashboard.Invoices.{start_of_utc_day}

-- What the execution answers, by the answer of the preview: without the mark of a dry run; a mail is
-- simulated just without a key for sending; a due date is that of the day; the timeline has an entry,
-- and there is a nudge if there is somebody to take it.
abbrev pub executed_answer : Setting → String → Shop → RunResult → RunResult
executed_answer o org_id s (deduped id) = deduped id
executed_answer o org_id s (reminded d simulated to) = reminded false (not o.has_mail_key) to
executed_answer o org_id s (unchanged id) = unchanged id
executed_answer o org_id s (reassigned d a b) = reassigned false a b
executed_answer o org_id s (due_changed d t a b) = due_changed false t a (start_of_utc_day b)
executed_answer o org_id s (escalated_incident d t n) =
    escalated_incident false true (is_some (ops_assignee org_id s))

abbrev pub answer_of_template : Outcome (Shop × RunResult) → Outcome RunResult
answer_of_template (ok (s, r)) = ok r
answer_of_template (fail e) = fail e

abbrev pub map_answer : (RunResult → RunResult) → Outcome RunResult → Outcome RunResult
map_answer f (ok r) = ok (f r)
map_answer f (fail e) = fail e

-- The run that a preview makes up, with its own identifier, status and key.
abbrev pub as_preview : FixActionRun → String → FixStatus → String → FixActionRun
as_preview run id status key = record run { id = id; status = status; idempotency_key = key }

-- The answer of an execution is that of the preview, made out as above.
abbrev Foretold : Setting → FixActionRun → Shop → (dry real : Outcome (Shop × RunResult)) → Type 0
Foretold o run s dry real =
    answer_of_template real ≡ map_answer (executed_answer o run.org_id s) (answer_of_template dry)

module _ (now : ℕ) (run : FixActionRun) (user : AuthUserContext) (s : Shop) (o : Setting)
    (id key : String) (status : FixStatus) where
  reminder_dry :
      Foretold o run s
        (execute_send_invoice_reminder now (as_preview run id status key) user true o s)
        (execute_send_invoice_reminder now run user false o s)
  unfolding execute_send_invoice_reminder
  reminder_dry = ground arith

  reassign_dry :
      Foretold o run s
        (execute_reassign_work now (as_preview run id status key) user true s)
        (execute_reassign_work now run user false s)
  unfolding execute_reassign_work
  reassign_dry = ground arith

  due_dry :
      Foretold o run s
        (execute_set_due_date now (as_preview run id status key) user true o s)
        (execute_set_due_date now run user false o s)
  unfolding execute_set_due_date set_work_due set_invoice_due
  due_dry = ground arith

  escalate_dry :
      (a b : String)
      → Foretold o run s
          (execute_escalate_incident now (as_preview run id status key) user true a s)
          (execute_escalate_incident now run user false b s)
  unfolding execute_escalate_incident
  escalate_dry a b = ground arith

-- A preview, which is an execution as a dry run under a name of its own, foretells the answer of
-- the execution of the run on the same tables at the same time: the execution throws just what the
-- preview throws, and otherwise its answer is that of the preview, but for the mark of a dry run;
-- for whether the mail is simulated, which it is just if there is no key for sending; for the due
-- date, of which the day is kept; and for the entry of the timeline, which is made, and the nudge,
-- which is made just if the organisation has an active OPS, ADMIN or CEO user.
pub execute_template_dry :
    (now : ℕ) (run : FixActionRun) (user : AuthUserContext) (s : Shop) (o : Setting)
    (id key a b : String) (status : FixStatus)
    → answer_of_template (execute_template now run user false o b s)
      ≡ map_answer
          (executed_answer o run.org_id s)
          (answer_of_template (execute_template now (as_preview run id status key) user true o a s))
unfolding execute_template
execute_template_dry now run user s o id key a b status =
    elim (Bool-cases (run.template.key === "SEND_INVOICE_REMINDER")) [
      | inl e ↦ rw (e, execute_template) (reminder_dry now run user s o id key status)
      | inr e ↦ elim (Bool-cases (run.template.key === "REASSIGN_WORK")) [
        | inl f ↦ rw (e, f, execute_template) (reassign_dry now run user s o id key status)
        | inr f ↦ elim (Bool-cases (run.template.key === "SET_DUE_DATE")) [
          | inl g ↦ rw (e, f, g, execute_template) (due_dry now run user s o id key status)
          | inr g ↦ elim (Bool-cases (run.template.key === "ESCALATE_INCIDENT")) [
            | inl h ↦
                rw (e, f, g, h, execute_template) (escalate_dry now run user s o id key status a b)
            | inr h ↦ rw (e, f, g, h, execute_template) refl
          ]
        ]
      ]
    ]

-- The tables that an outcome leaves are the ones before.
abbrev Kept : Shop → Outcome (Shop × RunResult) → Type 0
Kept s (ok (s', r)) = s' ≡ s
Kept s (fail e) = Unit

module _ (now : ℕ) (run : FixActionRun) (user : AuthUserContext) (s : Shop) where
  reminder-Kept : (o : Setting) → Kept s (execute_send_invoice_reminder now run user true o s)
  unfolding execute_send_invoice_reminder
  reminder-Kept o = ground arith

  reassign-Kept : Kept s (execute_reassign_work now run user true s)
  unfolding execute_reassign_work
  reassign-Kept = ground arith

  due-Kept : (o : Setting) → Kept s (execute_set_due_date now run user true o s)
  unfolding execute_set_due_date set_work_due set_invoice_due
  due-Kept o = ground arith

  escalate-Kept : (a : String) → Kept s (execute_escalate_incident now run user true a s)
  unfolding execute_escalate_incident
  escalate-Kept a = ground arith

  -- An execution as a dry run changes nothing.
  pub execute_template-Kept :
      (o : Setting) (a : String) → Kept s (execute_template now run user true o a s)
  unfolding execute_template
  execute_template-Kept o a = elim (Bool-cases (run.template.key === "SEND_INVOICE_REMINDER")) [
    | inl e ↦ rw (e, execute_template) (reminder-Kept o)
    | inr e ↦ elim (Bool-cases (run.template.key === "REASSIGN_WORK")) [
      | inl f ↦ rw (e, f, execute_template) reassign-Kept
      | inr f ↦ elim (Bool-cases (run.template.key === "SET_DUE_DATE")) [
        | inl g ↦ rw (e, f, g, execute_template) (due-Kept o)
        | inr g ↦ elim (Bool-cases (run.template.key === "ESCALATE_INCIDENT")) [
          | inl h ↦ rw (e, f, g, h, execute_template) (escalate-Kept a)
          | inr h ↦ rw (e, f, g, h, execute_template) tt
        ]
      ]
    ]
  ]
