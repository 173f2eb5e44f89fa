-- ===== src/Invoices/Handlers.antt =====
-- The handlers of invoices/invoices.service.ts that change the tables. The date that a text stands
-- for and an organisation's plan and policy are parameters. The synchronisation with the graph runs
-- beside the handler and is left out.
use mathlib.Core.Option
use kritvia_global_dashboard.Base.{
  AuthUserContext, Bool, Option, Outcome, String, [], count, get_active_org_id, internal_error,
  is_some, ltb, none, not, ok, or_else, require, some, true, ℕ, ◌&&◌, ◌++◌, ◌===◌, ◌>>=◌, ◌>>◌,
  ◌||◌, ◌∷◌, conflict, bad_request, payment_required,
}
use kritvia_global_dashboard.Invoices.{
  Books, CreateInvoiceDto, DtoField, Invoice, InvoiceStatus, InvoiceView, UpdateInvoiceDto,
  add_days, dispatch_status, draft, ensure_company_in_org, ensure_deal_in_org, ensure_row_in_org,
  field_value, find_invoice_or404, get_by_id, get_effective_status, has_sensitive_change, is_null,
  left_out, log_invoice, negsuc, null_field, overdue, paid, pos, same_status, sent, set_to,
  start_of_utc_day, update_invoice_row, ℤ,
}
use kritvia_global_dashboard.OnCall.Resolver.{present}

pub record InvoiceEnv : Type 0 where
  pub date : String → ℕ
  pub max_invoices : String → Option ℕ
  pub auto_lock_invoice_after_days : String → ℤ

-- The date of a text that is not empty.
abbrev pub date_of : InvoiceEnv → Option String → Option ℕ
date_of env text = Option.map (λ t. start_of_utc_day (env.date t)) (present text)

abbrev pub within_plan : Option ℕ → ℕ → Bool
within_plan none used = true
within_plan (some max) used = ltb used max

unfoldable pub assert_invoice_available : InvoiceEnv → Books → String → Outcome (Unit {0})
assert_invoice_available env b org_id =
    require (within_plan (env.max_invoices org_id) (count (λ i. i.org_id === org_id) b.invoices))
      payment_required

-- The database gives the identifier; a date column keeps the day.
abbrev pub new_invoice :
    InvoiceEnv → CreateInvoiceDto → AuthUserContext → String → String → ℕ → Invoice
new_invoice env dto user org_id new_id now = record {
  id = new_id;
  org_id = org_id;
  invoice_number = dto.invoice_number;
  company_id = dto.company_id;
  deal_id = dto.deal_id;
  status = draft;
  amount = dto.amount;
  currency = or_else dto.currency "INR";
  issue_date = or_else (date_of env dto.issue_date) (start_of_utc_day now);
  due_date = start_of_utc_day (env.date dto.due_date);
  sent_at = none;
  lock_at = none;
  locked_at = none;
  locked_by_user_id = none;
  created_by_user_id = user.user_id;
}

-- The answer is read in the user's organisation, while the row is written in the active one, so it
-- can fail after the change.
unfoldable pub create :
    InvoiceEnv
    → Books
    → CreateInvoiceDto
    → AuthUserContext
    → String
    → ℕ
    → Outcome (Books × Outcome InvoiceView)
unfolding get_active_org_id assert_invoice_available ensure_row_in_org
create env b dto user new_id now = do
  org_id ← get_active_org_id user
  assert_invoice_available env b org_id
  ensure_company_in_org b (some dto.company_id) org_id
  ensure_deal_in_org b dto.deal_id org_id
  let created = new_invoice env dto user org_id new_id now
  let b' =
      log_invoice org_id user created.id "CREATE"
        (record b { invoices = b.invoices ++ created ∷ [] })
  ok (b', get_by_id b' created.id user now)

-- A column that may be null is cleared by null.
abbrev pub cleared_or : {A : Type 0} → DtoField A → Option A → Option A
cleared_or left_out old = old
cleared_or null_field old = none
cleared_or (set_to a) old = some a

-- A field that the request leaves out stays; a date that is null stays too.
abbrev pub updated_row : InvoiceEnv → UpdateInvoiceDto → Invoice → Invoice
updated_row env dto i = record i {
  invoice_number = cleared_or dto.invoice_number i.invoice_number;
  company_id = or_else (field_value dto.company_id) i.company_id;
  deal_id = cleared_or dto.deal_id i.deal_id;
  amount = or_else (field_value dto.amount) i.amount;
  currency = or_else (field_value dto.currency) i.currency;
  issue_date = or_else (date_of env (field_value dto.issue_date)) i.issue_date;
  due_date = or_else (date_of env (field_value dto.due_date)) i.due_date;
}

-- Null for a column that has a value always, or for the decimal, which the database client refuses.
abbrev pub has_refused_null : UpdateInvoiceDto → Bool
has_refused_null dto = is_null dto.company_id || is_null dto.amount || is_null dto.currency

unfoldable pub update_invoice :
    InvoiceEnv
    → Books
    → String
    → UpdateInvoiceDto
    → AuthUserContext
    → ℕ
    → Outcome (Books × InvoiceView)
unfolding find_invoice_or404 has_sensitive_change ensure_row_in_org get_by_id
update_invoice env b id dto user now = do
  existing ← find_invoice_or404 b id user.org_id
  require (not (is_some existing.locked_at && has_sensitive_change dto)) conflict
  ensure_company_in_org b (field_value dto.company_id) user.org_id
  ensure_deal_in_org b (field_value dto.deal_id) user.org_id
  require (not (has_refused_null dto)) internal_error
  let b' =
      log_invoice user.org_id user existing.id "UPDATE"
        (update_invoice_row existing.id (updated_row env dto) b)
  view ← get_by_id b' existing.id user now
  ok (b', view)

-- `none` where the policy turns the lock off.
abbrev pub lock_date : ℤ → ℕ → Option ℕ
lock_date (pos number) sent_at = some (add_days sent_at number)
lock_date (negsuc number) sent_at = none

abbrev pub sent_row : ℤ → AuthUserContext → ℕ → Invoice → Invoice → Invoice
sent_row auto_lock user now existing i =
    let sent_at = or_else existing.sent_at now in
    record i {
      status = sent;
      sent_at = some sent_at;
      lock_at = lock_date auto_lock sent_at;
      locked_at = some now;
      locked_by_user_id = some user.user_id;
    }

abbrev pub log_auto_lock : Option ℕ → AuthUserContext → String → Books → Books
log_auto_lock none user id b = b
log_auto_lock (some lock_at) user id b = log_invoice user.org_id user id "AUTO_LOCK_SCHEDULED" b

abbrev pub send_tables : ℤ → Invoice → AuthUserContext → ℕ → Books → Books
send_tables auto_lock existing user now b =
    let change = sent_row auto_lock user now existing in
    let b1 =
      log_invoice user.org_id user existing.id "SEND" (update_invoice_row existing.id change b) in
    let b2 = dispatch_status user.org_id existing (change existing) b1 in
    log_auto_lock (change existing).lock_at user existing.id b2

unfoldable pub send :
    InvoiceEnv → Books → String → AuthUserContext → ℕ → Outcome (Books × InvoiceView)
unfolding find_invoice_or404 get_by_id
send env b id user now = do
  existing ← find_invoice_or404 b id user.org_id
  require (same_status existing.status draft) bad_request
  let b' = send_tables (env.auto_lock_invoice_after_days user.org_id) existing user now b
  view ← get_by_id b' existing.id user now
  ok (b', view)

abbrev pub paid_row : Invoice → Invoice
paid_row i = record i { status = paid }

abbrev pub paid_tables : Invoice → AuthUserContext → Books → Books
paid_tables existing user b = dispatch_status user.org_id existing (paid_row existing) (
    log_invoice user.org_id user existing.id "MARK_PAID"
      (update_invoice_row existing.id paid_row b))

abbrev pub payable : InvoiceStatus → Bool
payable effective_status = same_status effective_status sent || same_status effective_status overdue

unfoldable pub mark_paid : Books → String → AuthUserContext → ℕ → Outcome (Books × InvoiceView)
unfolding find_invoice_or404 get_by_id get_effective_status
mark_paid b id user now = do
  existing ← find_invoice_or404 b id user.org_id
  require (payable (get_effective_status now existing)) bad_request
  let b' = paid_tables existing user b
  view ← get_by_id b' existing.id user now
  ok (b', view)

abbrev pub unlocked_row : Invoice → Invoice
unlocked_row i = record i { locked_at = none; locked_by_user_id = none }

abbrev pub unlock_tables : Invoice → AuthUserContext → Books → Books
unlock_tables existing user b =
    let b1 =
      log_invoice user.org_id user existing.id "UNLOCK"
        (update_invoice_row existing.id unlocked_row b) in
    record b1 { shield_unlocks = b1.shield_unlocks ++ existing.id ∷ [] }

unfoldable pub unlock : Books → String → AuthUserContext → ℕ → Outcome (Books × InvoiceView)
unfolding find_invoice_or404 get_by_id
unlock b id user now = do
  existing ← find_invoice_or404 b id user.org_id
  require (is_some existing.locked_at) bad_request
  let b' = unlock_tables existing user b
  view ← get_by_id b' existing.id user now
  ok (b', view)
