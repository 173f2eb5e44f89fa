-- ===== src/Invoices.antt =====
-- apps/api/src/invoices/invoices.service.ts: the tables that it reads and writes, as one state, and
-- its private helpers. Times are milliseconds, amounts hundredths. A handler runs to its end
-- before the next.
pub mod Handlers
pub mod Locks
pub mod Status
pub mod Filter
pub mod Pages
mod Examples
use kritvia_global_dashboard.Base.{
  AuthUserContext, Bool, List, Option, Outcome, String, [], false, find, if◌then◌else◌, is_empty,
  is_some, ltb, none, ok, or_throw, require, some, true, update, ℕ, ◌&&◌, ◌*◌, ◌++◌, ◌+◌, ◌/◌,
  ◌===◌, ◌>>=◌, ◌>>◌, ◌||◌, ◌∷◌, not_found, bad_request,
}
use kritvia_global_dashboard.OnCall.{day_ms}

-- The enum InvoiceStatus.
pub data InvoiceStatus : Type 0 where
  draft sent paid overdue : InvoiceStatus

abbrev pub same_status : InvoiceStatus → InvoiceStatus → Bool
same_status draft draft = true
same_status sent sent = true
same_status paid paid = true
same_status overdue overdue = true
same_status _ _ = false

pub data ℤ : Type 0 where
  pos negsuc : ℕ → ℤ

pub record Invoice : Type 0 where
  pub id : String
  pub org_id : String
  pub invoice_number : Option String
  pub company_id : String
  pub deal_id : Option String
  pub status : InvoiceStatus
  pub amount : ℕ
  pub currency : String
  pub issue_date : ℕ
  pub due_date : ℕ
  pub sent_at : Option ℕ
  pub lock_at : Option ℕ
  pub locked_at : Option ℕ
  pub locked_by_user_id : Option String
  pub created_by_user_id : String

-- A row of the companies or of the deals.
pub record OrgRow : Type 0 where
  pub id : String
  pub org_id : String

pub record InvoiceActivity : Type 0 where
  pub org_id : String
  pub actor_user_id : String
  pub entity_id : String
  pub action : String

-- A call of `webhookService.dispatch` on a change of the status.
pub record StatusChange : Type 0 where
  pub org_id : String
  pub invoice_id : String
  pub from_status : InvoiceStatus
  pub to_status : InvoiceStatus
  pub amount : ℕ
  pub due_date : ℕ

-- The tables, with the calls of the webhooks and of the shield in their order.
pub record Books : Type 0 where
  pub invoices : List Invoice
  pub companies : List OrgRow
  pub deals : List OrgRow
  pub activities : List InvoiceActivity
  pub dispatched : List StatusChange
  pub shield_unlocks : List String

pub record CreateInvoiceDto : Type 0 where
  pub invoice_number : Option String
  pub company_id : String
  pub deal_id : Option String
  pub amount : ℕ
  pub currency : Option String
  pub issue_date : Option String
  pub due_date : String

-- `none` is a field that the request leaves out.
-- An optional field of a request: left out, given as null, or with a value.
pub data DtoField (A : Type 0) : Type 0 where
  left_out null_field : DtoField A
  set_to : A → DtoField A

abbrev pub is_given : {A : Type 0} → DtoField A → Bool
is_given left_out = false
is_given null_field = true
is_given (set_to a) = true

abbrev pub is_null : {A : Type 0} → DtoField A → Bool
is_null null_field = true
is_null _ = false

abbrev pub field_value : {A : Type 0} → DtoField A → Option A
field_value (set_to a) = some a
field_value _ = none

pub record UpdateInvoiceDto : Type 0 where
  pub invoice_number : DtoField String
  pub company_id : DtoField String
  pub deal_id : DtoField String
  pub amount : DtoField ℕ
  pub currency : DtoField String
  pub issue_date : DtoField String
  pub due_date : DtoField String

-- The answer of `toResponse`.
pub record InvoiceView : Type 0 where
  pub invoice : Invoice
  pub effective_status : InvoiceStatus
  pub is_locked : Bool

-- The time is since the epoch, so that days begin at multiples of a day.
abbrev pub start_of_utc_day : ℕ → ℕ
start_of_utc_day date = date / day_ms * day_ms

abbrev pub add_days : ℕ → ℕ → ℕ
add_days value number = value + number * day_ms

unfoldable pub has_sensitive_change : UpdateInvoiceDto → Bool
has_sensitive_change dto =
    is_given dto.company_id
    || is_given dto.deal_id
    || is_given dto.amount
    || is_given dto.currency
    || is_given dto.issue_date
    || is_given dto.due_date
    || is_given dto.invoice_number

unfoldable pub get_effective_status : ℕ → Invoice → InvoiceStatus
get_effective_status now i =
    if same_status i.status paid
    then paid
    else if ltb (start_of_utc_day i.due_date) (start_of_utc_day now)
    then overdue
    else i.status

unfoldable pub to_response : ℕ → Invoice → InvoiceView
to_response now i = record {
  invoice = i;
  effective_status = get_effective_status now i;
  is_locked = is_some i.locked_at;
}

abbrev pub has_invoice_id : String → Invoice → Bool
has_invoice_id id i = i.id === id

abbrev pub invoice_in_org : String → String → Invoice → Bool
invoice_in_org id org_id i = has_invoice_id id i && i.org_id === org_id

unfoldable pub find_invoice_or404 : Books → String → String → Outcome Invoice
find_invoice_or404 b id org_id = or_throw (find (invoice_in_org id org_id) b.invoices) not_found

abbrev in_org : String → String → OrgRow → Bool
in_org id org_id row = row.id === id && row.org_id === org_id

-- A missing or empty identifier passes.
unfoldable pub ensure_row_in_org : List OrgRow → Option String → String → Outcome (Unit {0})
ensure_row_in_org rows none org_id = ok tt
ensure_row_in_org rows (some id) org_id =
    if is_empty id then ok tt else require (is_some (find (in_org id org_id) rows)) bad_request

abbrev pub ensure_company_in_org : Books → Option String → String → Outcome (Unit {0})
ensure_company_in_org b id org_id = ensure_row_in_org b.companies id org_id

abbrev pub ensure_deal_in_org : Books → Option String → String → Outcome (Unit {0})
ensure_deal_in_org b id org_id = ensure_row_in_org b.deals id org_id

abbrev pub update_invoice_row : String → (Invoice → Invoice) → Books → Books
update_invoice_row id f b = record b { invoices = update (has_invoice_id id) f b.invoices }

abbrev pub log_invoice : String → AuthUserContext → String → String → Books → Books
log_invoice org_id user id action b = record b {
  activities =
      b.activities
      ++ record { org_id = org_id; actor_user_id = user.user_id; entity_id = id; action = action }
        ∷ [];
}

abbrev pub dispatch_status : String → Invoice → Invoice → Books → Books
dispatch_status org_id existing updated b = record b {
  dispatched =
      b.dispatched
      ++ record {
        org_id = org_id;
        invoice_id = updated.id;
        from_status = existing.status;
        to_status = updated.status;
        amount = updated.amount;
        due_date = updated.due_date;
      }
        ∷ [];
}

unfoldable pub get_by_id : Books → String → AuthUserContext → ℕ → Outcome InvoiceView
unfolding to_response get_effective_status
get_by_id b id user now = do
  i ← or_throw (find (invoice_in_org id user.org_id) b.invoices) not_found
  ok (to_response now i)
