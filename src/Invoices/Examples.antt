-- ===== src/Invoices/Examples.antt =====
-- The theorems on invoices at concrete tables.
use kritvia_global_dashboard.Base.{
  All, AuthUserContext, Memᴰ, [], arith, count, false, finance, length, none, ok, refl, some, true,
  ◌*◌, ◌∷◌, ◌≡◌, ◌≤◌,
}
use kritvia_global_dashboard.Invoices.{
  Books, Invoice, InvoiceView, UpdateInvoiceDto, draft, find_invoice_or404, get_by_id,
  get_effective_status, left_out, overdue, pos, set_to, to_response,
}
use kritvia_global_dashboard.Invoices.Filter.{
  InvoicePage, ListInvoicesDto, find_all, list_where, resolve_sort_field, status_where,
}
use kritvia_global_dashboard.Invoices.Handlers.{
  InvoiceEnv, mark_paid, paid_row, paid_tables, send, send_tables, sent_row,
}
use kritvia_global_dashboard.Invoices.Locks.{mark_paid_draft}
use kritvia_global_dashboard.Invoices.Pages.{find_all-listed, listed}
use kritvia_global_dashboard.Invoices.Status.{
  Wf, handle, handle_all, marks_paid, sends, unlocks, updates,
}
use kritvia_global_dashboard.Invoices.Status.Life.{
  Successor, content, handle-Successor, handle-content,
}
use kritvia_global_dashboard.Invoices.Status.Wf.{handle_all-Wf}
use kritvia_global_dashboard.OnCall.{day_ms}

abbrev books_env : InvoiceEnv
books_env = record {
  date = λ t. 0;
  max_invoices = λ o. some 10;
  auto_lock_invoice_after_days = λ o. pos 2;
}

abbrev accountant : AuthUserContext
accountant = record {
  user_id = "u1";
  org_id = "o1";
  active_org_id = none;
  role = finance;
  email = "";
  name = "";
  is_service_account = false;
  service_account_id = none;
  service_account_scopes = none;
}

abbrev bill : Invoice
bill = record {
  id = "i1";
  org_id = "o1";
  invoice_number = some "2024-1";
  company_id = "c1";
  deal_id = none;
  status = draft;
  amount = 125000;
  currency = "INR";
  issue_date = 0;
  due_date = day_ms;
  sent_at = none;
  lock_at = none;
  locked_at = none;
  locked_by_user_id = none;
  created_by_user_id = "u1";
}

abbrev locked_bill : Invoice
locked_bill = sent_row (pos 2) accountant 7 bill bill

abbrev books_with : Invoice → Books
books_with i = record {
  invoices = i ∷ [];
  companies = record { id = "c1"; org_id = "o1" } ∷ [];
  deals = [];
  activities = [];
  dispatched = [];
  shield_unlocks = [];
}

abbrev lower_amount : UpdateInvoiceDto
lower_amount = record {
  invoice_number = left_out;
  company_id = set_to "c1";
  deal_id = left_out;
  amount = set_to 1;
  currency = left_out;
  issue_date = left_out;
  due_date = left_out;
}

bill-Wf : All Wf (books_with bill).invoices
bill-Wf = (((refl, refl, refl), refl), tt)

handle-Successor_example :
    Successor books_env "o1" (send_tables (pos 2) bill accountant 7 (books_with bill)).invoices bill
unfolding handle send find_invoice_or404 get_by_id
handle-Successor_example =
    handle-Successor books_env (books_with bill)
      (send_tables (pos 2) bill accountant 7 (books_with bill)) (sends "i1" accountant 7) bill
      (tt, tt) refl (Memᴰ.head refl)

handle_all-Wf_example :
    All Wf
      (handle_all books_env (books_with bill) (
        sends "i1" accountant 7
        ∷ updates "i1" lower_amount accountant 8
        ∷ unlocks "i1" accountant 9
        ∷ marks_paid "i1" accountant 10
        ∷ [])).invoices
handle_all-Wf_example =
    handle_all-Wf books_env (books_with bill)
      (sends "i1" accountant 7
        ∷ updates "i1" lower_amount accountant 8
        ∷ unlocks "i1" accountant 9
        ∷ marks_paid "i1" accountant 10
        ∷ [])
      bill-Wf

handle-content_example :
    (j : Invoice) × Memᴰ j (paid_tables locked_bill accountant (books_with locked_bill)).invoices
    × (j.id ≡ "i1")
    × (content j ≡ content locked_bill)
unfolding handle mark_paid find_invoice_or404 get_by_id get_effective_status
handle-content_example =
    handle-content books_env (books_with locked_bill)
      (paid_tables locked_bill accountant (books_with locked_bill)) (marks_paid "i1" accountant 10)
      locked_bill 7 (tt, tt) refl (Memᴰ.head refl) refl

mark_paid_draft_example :
    (t : Books) × (view : InvoiceView) × (mark_paid (books_with bill) "i1" accountant (3 * day_ms)
      ≡ ok (t, view))
    × (view.invoice ≡ paid_row bill)
mark_paid_draft_example =
    mark_paid_draft "i1" accountant (books_with bill) bill (3 * day_ms) refl refl (omega arith)

abbrev overdue_query : ListInvoicesDto
overdue_query = record {
  status = some overdue;
  company_id = some "c1";
  deal_id = none;
  sort_by = none;
  page = 1;
  page_size = 20;
}

abbrev overdue_page : InvoicePage
overdue_page = record { items = to_response (3 * day_ms) bill ∷ []; total = 1 }

find_all-listed_example :
    All
      (λ v.
        Memᴰ v.invoice (books_with bill).invoices
        × (listed accountant overdue_query (3 * day_ms) v.invoice ≡ true)
        × (v.effective_status ≡ get_effective_status (3 * day_ms) v.invoice))
      overdue_page.items
    × (overdue_page.total
        ≡ count (listed accountant overdue_query (3 * day_ms)) (books_with bill).invoices)
    × (length overdue_page.items ≤ 20)
unfolding find_all resolve_sort_field list_where status_where
find_all-listed_example =
    find_all-listed (λ f rows. rows) (books_with bill) accountant overdue_query (3 * day_ms)
      overdue_page (λ f rows i m. m) ((bill-Wf.0, refl), tt) refl
