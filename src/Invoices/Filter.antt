-- ===== src/Invoices/Filter.antt =====
-- `findAll` of invoices/invoices.service.ts: one page of an organisation's invoices, by the status
-- that they are shown with. What the database sorts by the field is a parameter.
use kritvia_global_dashboard.Base.{
  AuthUserContext, Bool, List, Option, Outcome, String, [], any, drop, fail, given, if◌then◌else◌,
  is_empty, is_text, keep, leb, length, ltb, map, none, not, ok, some, ℕ, ◌&&◌, ◌*◌, ◌-◌, ◌===◌,
  ◌>>=◌, ◌∷◌, take, bad_request,
}
use kritvia_global_dashboard.Invoices.{
  Books, Invoice, InvoiceStatus, InvoiceView, draft, overdue, paid, same_status, sent,
  start_of_utc_day, to_response,
}

pub record ListInvoicesDto : Type 0 where
  pub status : Option InvoiceStatus
  pub company_id : Option String
  pub deal_id : Option String
  pub sort_by : Option String
  pub page : ℕ
  pub page_size : ℕ

pub record InvoicePage : Type 0 where
  pub items : List InvoiceView
  pub total : ℕ

unfoldable pub resolve_sort_field : Option String → Outcome String
resolve_sort_field none = ok "dueDate"
resolve_sort_field (some sort_by) =
    if is_empty sort_by
    then ok "dueDate"
    else if any (λ f. sort_by === f)
        ("createdAt" ∷ "dueDate" ∷ "amount" ∷ "status" ∷ "invoiceNumber" ∷ [])
    then ok sort_by
    else fail bad_request

-- The conditions on `status` and `dueDate`.
unfoldable pub status_where : InvoiceStatus → ℕ → Invoice → Bool
status_where overdue today i = not (same_status i.status paid) && ltb i.due_date today
status_where paid today i = same_status i.status paid
status_where draft today i = same_status i.status draft && leb today i.due_date
status_where sent today i = same_status i.status sent && leb today i.due_date

unfoldable pub list_where : AuthUserContext → ListInvoicesDto → ℕ → Invoice → Bool
unfolding status_where
list_where user query today i =
    i.org_id === user.org_id
    && (given query.company_id (λ c. i.company_id === c)
        && (given query.deal_id (λ d. is_text i.deal_id d)
            && given query.status (λ st. status_where st today i)))

unfoldable pub find_all :
    (String → List Invoice → List Invoice)
    → Books
    → AuthUserContext
    → ListInvoicesDto
    → ℕ
    → Outcome InvoicePage
unfolding resolve_sort_field list_where to_response
find_all sorted b user query now = do
  sort_by ← resolve_sort_field query.sort_by
  let rows = keep (list_where user query (start_of_utc_day now)) b.invoices
  let shown_rows =
      take query.page_size (drop ((query.page - 1) * query.page_size) (sorted sort_by rows))
  ok (record { items = map (to_response now) shown_rows; total = length rows })
