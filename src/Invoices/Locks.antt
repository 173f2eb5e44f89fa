-- ===== src/Invoices/Locks.antt =====
-- The lock: what follows a request to send or to unlock, and which invoices can be paid.
use kritvia_global_dashboard.Base.{
  >>-eq-ok, >>=-eq-ok, AuthUserContext, List, Option, String, ap, arith, eq_iff, fail, false, find,
  find-mem, find-update, is_some, none, not, ok, or_throw-eq-ok, refl, require, some, sym, true,
  update, ℕ, ◌&&◌, ◌<◌, ◌∙◌, ◌≡◌, bad_request, ◌>>=◌, conflict,
}
use kritvia_global_dashboard.Invoices.{
  Books, Invoice, InvoiceView, UpdateInvoiceDto, draft, ensure_company_in_org, ensure_deal_in_org,
  field_value, find_invoice_or404, get_by_id, get_effective_status, has_invoice_id,
  has_sensitive_change, invoice_in_org, log_invoice, same_status, start_of_utc_day, to_response,
  update_invoice_row,
}
use kritvia_global_dashboard.Invoices.Handlers.{
  InvoiceEnv, has_refused_null, mark_paid, paid_row, paid_tables, payable, send, send_tables,
  sent_row, unlock, unlock_tables, unlocked_row, update_invoice, updated_row,
}
use kritvia_global_dashboard.Invoices.Status.Requests.{answer_with, answered, send_tables-invoices}
use mathlib.Core.Bool.{and-eq-true_iff}

-- An invoice is found under its identifier after a change of its row.
found_after :
    (id org_id : String) (f : Invoice → Invoice) (rows : List Invoice) (i : Invoice)
    → ((j : Invoice) → ((f j).id ≡ j.id) × ((f j).org_id ≡ j.org_id))
    → find (invoice_in_org id org_id) rows ≡ some i
    → find (invoice_in_org id org_id) (update (has_invoice_id i.id) f rows) ≡ some (f i)
found_after id org_id f rows i keys e =
    let own : has_invoice_id i.id i ≡ true = (eq_iff i.id i.id).1 refl in
    let there =
      find-update (invoice_in_org id org_id) (has_invoice_id i.id) f rows i
        (λ j. rw ((keys j).0, (keys j).1) refl) e in
    rw own at there

found_as :
    (id id' org_id : String) (rows : List Invoice) (j : Invoice)
    → id' ≡ id
    → find (invoice_in_org id org_id) rows ≡ some j
    → find (invoice_in_org id' org_id) rows ≡ some j
found_as id id' org_id rows j same_id e = rw same_id e

view_of :
    (b : Books) (id : String) (user : AuthUserContext) (now : ℕ) (j : Invoice)
    → find (invoice_in_org id user.org_id) b.invoices ≡ some j
    → get_by_id b id user now ≡ ok (to_response now j)
unfolding get_by_id
view_of b id user now j e = rw (get_by_id, e) refl

ok_view : {v w : InvoiceView} → ok v ≡ ok w → v ≡ w
ok_view e = ground arith

-- The invoice that a handler finds.
abbrev pub stored : String → AuthUserContext → Books → Option Invoice
stored id user t = find (invoice_in_org id user.org_id) t.invoices

module _ (id : String) (user : AuthUserContext) where
  stored-id : (t : Books) (i : Invoice) → stored id user t ≡ some i → i.id ≡ id
  stored-id t i e =
      let (m, test) = find-mem (invoice_in_org id user.org_id) t.invoices i e in
      (eq_iff i.id id).0 ((and-eq-true_iff _ _).0 test).0

  -- What the answer of a handler shows.
  shown :
      (t : Books) (f : Invoice → Invoice) (i : Invoice) (now : ℕ)
      → ((j : Invoice) → ((f j).id ≡ j.id) × ((f j).org_id ≡ j.org_id))
      → stored id user t ≡ some i
      → (b' : Books) → b'.invoices ≡ update (has_invoice_id i.id) f t.invoices
      → (stored id user b' ≡ some (f i)) × (get_by_id b' i.id user now ≡ ok (to_response now (f i)))
  shown t f i now keys e b' rows =
      let there : stored id user b' ≡ some (f i) =
        rw rows (found_after id user.org_id f t.invoices i keys e) in
      (
        there,
        view_of b' i.id user now (f i)
            (found_as id i.id user.org_id b'.invoices (f i) (stored-id t i e) there),
      )

module _ (env : InvoiceEnv) (id : String) (user : AuthUserContext) (b : Books) where
  -- A locked invoice refuses a sensitive change.
  locked_refuses :
      (dto : UpdateInvoiceDto) (now t : ℕ) (i : Invoice)
      → stored id user b ≡ some i
      → i.locked_at ≡ some t
      → has_sensitive_change dto ≡ true
      → update_invoice env b id dto user now ≡ fail conflict
  unfolding update_invoice find_invoice_or404
  locked_refuses dto now t i e locked sensitive = rw (update_invoice, e, locked, sensitive) refl

  -- An invoice that is not locked takes any change whose company and deal are of the organisation and
  -- in which no null is refused.
  unlocked_takes :
      (dto : UpdateInvoiceDto) (now : ℕ) (i : Invoice)
      → stored id user b ≡ some i
      → i.locked_at ≡ none
      → ensure_company_in_org b (field_value dto.company_id) user.org_id ≡ ok tt
      → ensure_deal_in_org b (field_value dto.deal_id) user.org_id ≡ ok tt
      → has_refused_null dto ≡ false
      → (b' : Books) × (update_invoice env b id dto user now
          ≡ ok (b', to_response now (updated_row env dto i)))
  unfolding update_invoice find_invoice_or404 get_by_id
  unlocked_takes dto now i e free company deal no_null =
      let b' =
        log_invoice user.org_id user i.id "UPDATE"
          (update_invoice_row i.id (updated_row env dto) b) in
      let (there, view) =
        shown id user b (updated_row env dto) i now (λ j. (refl, refl)) e b' refl in
      let passes : not (is_some i.locked_at && has_sensitive_change dto) ≡ true = rw free refl in
      (b', rw (update_invoice, e, passes, company, deal, no_null, view) refl)

module _ (env : InvoiceEnv) (id : String) (user : AuthUserContext) (b b' : Books) where
  -- What a request to send has found.
  send-found :
      (view : InvoiceView) (now : ℕ)
      → send env b id user now ≡ ok (b', view)
      → (i : Invoice) × (stored id user b ≡ some i)
        × (stored id user b'
            ≡ some (sent_row (env.auto_lock_invoice_after_days user.org_id) user now i i))
  unfolding send find_invoice_or404
  send-found view now h =
      let auto_lock = env.auto_lock_invoice_after_days user.org_id in
      let (i, found, h1) = >>=-eq-ok (find_invoice_or404 b id user.org_id) _ (b', view) h in
      let e : stored id user b ≡ some i = or_throw-eq-ok _ _ i found in
      let (test, h2) =
        >>-eq-ok (require (same_status i.status draft) bad_request) _ (b', view) h1 in
      let done = answered env b b' (send_tables auto_lock i user now b) i.id user now view h2 in
      let rows = send_tables-invoices auto_lock i user now b in
      let after_all = rw done at rows in
      (
        i,
        e,
        (shown id user b (sent_row auto_lock user now i) i now (λ j. (refl, refl)) e b'
            after_all).0,
      )

  -- After an invoice is sent, a change of what the lock protects is refused with a conflict.
  pub send-update_conflict :
      (view : InvoiceView) (dto : UpdateInvoiceDto) (now at_update : ℕ)
      → send env b id user now ≡ ok (b', view)
      → has_sensitive_change dto ≡ true
      → update_invoice env b' id dto user at_update ≡ fail conflict
  send-update_conflict view dto now at_update h sensitive =
      let (i, e, e') = send-found view now h in
      locked_refuses env id user b' dto at_update now _ e' refl sensitive

  view_shown :
      (t : Books) (key : String) (now : ℕ) (view : InvoiceView)
      → ◌>>=◌ {B = Books × InvoiceView} (get_by_id t key user now) (λ v. ok (t, v))
        ≡ answer_with b' view
      → get_by_id t key user now ≡ ok view
  view_shown t key now view h =
      let (v, got, h1) = >>=-eq-ok (get_by_id t key user now) _ (b', view) h in
      let same_view : v ≡ view = ground arith in got ∙ ap (λ w. ok w) same_view

  -- After an invoice is unlocked, it takes any change whose company and deal are of the
  -- organisation and in which no null is refused, and the answer shows what was shown with the change.
  pub unlock-update :
      (view : InvoiceView) (dto : UpdateInvoiceDto) (now at_update : ℕ)
      → unlock b id user now ≡ ok (b', view)
      → ensure_company_in_org b' (field_value dto.company_id) user.org_id ≡ ok tt
      → ensure_deal_in_org b' (field_value dto.deal_id) user.org_id ≡ ok tt
      → has_refused_null dto ≡ false
      → (b'' : Books) × (update_invoice env b' id dto user at_update
          ≡ ok (b'', to_response at_update (updated_row env dto view.invoice)))
  unfolding unlock find_invoice_or404
  unlock-update view dto now at_update h company deal no_null =
      let (i, found, h1) = >>=-eq-ok (find_invoice_or404 b id user.org_id) _ (b', view) h in
      let e : stored id user b ≡ some i = or_throw-eq-ok _ _ i found in
      let (test, h2) = >>-eq-ok (require (is_some i.locked_at) bad_request) _ (b', view) h1 in
      let done = answered env b b' (unlock_tables i user b) i.id user now view h2 in
      let got = view_shown (unlock_tables i user b) i.id now view h2 in
      let (there, answer) =
        shown id user b unlocked_row i now (λ j. (refl, refl)) e (unlock_tables i user b) refl in
      let seen : to_response now (unlocked_row i) ≡ view = ok_view (sym answer ∙ got) in
      let row : unlocked_row i ≡ view.invoice = ap (λ v. v.invoice) seen in
      let there' : stored id user b' ≡ some view.invoice = rw (← done) (there ∙ ap some row) in
      unlocked_takes env id user b' dto at_update view.invoice there'
        (ap (λ j. j.locked_at) (sym row)) company deal no_null

module _ (id : String) (user : AuthUserContext) (b : Books) where
  -- An invoice that is still a draft can be marked as paid once its day is past, without being sent:
  -- nothing but its status is changed.
  pub mark_paid_draft :
      (i : Invoice) (now : ℕ)
      → find (invoice_in_org id user.org_id) b.invoices ≡ some i
      → i.status ≡ draft
      → start_of_utc_day i.due_date < start_of_utc_day now
      → (t : Books) × (view : InvoiceView) × (mark_paid b id user now ≡ ok (t, view))
        × (view.invoice ≡ paid_row i)
  unfolding mark_paid find_invoice_or404 get_effective_status
  mark_paid_draft i now e status late =
      let t = paid_tables i user b in
      let (there, answer) = shown id user b paid_row i now (λ j. (refl, refl)) e t refl in
      let passes : payable (get_effective_status now i) ≡ true =
        rw (get_effective_status, status) (ground arith) in
      (t, to_response now (paid_row i), rw (mark_paid, e, passes, answer) refl, refl)
