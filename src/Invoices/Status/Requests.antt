-- ===== src/Invoices/Status/Requests.antt =====
-- What each request does to the table of invoices.
use kritvia_global_dashboard.Base.{
  >>-eq-ok, >>=-eq-ok, AuthUserContext, Memᴰ, Option, Option-cases, Outcome, String, [], arith,
  eq_iff, fail, false, find-mem, get_active_org_id, inl, inr, internal_error, is_some, none, not,
  ok, or_else, or_throw-eq-ok, refl, require, require-eq-ok, some, true, update, ℕ, ◌&&◌, ◌++◌,
  ◌>>=◌, ◌∷◌, ◌≡◌, bad_request, conflict,
}
use kritvia_global_dashboard.Invoices.{
  Books, CreateInvoiceDto, DtoField, Invoice, InvoiceStatus, InvoiceView, UpdateInvoiceDto, draft,
  ensure_company_in_org, ensure_deal_in_org, field_value, find_invoice_or404, get_by_id,
  get_effective_status, has_invoice_id, has_sensitive_change, invoice_in_org, is_given, left_out,
  log_invoice, negsuc, null_field, overdue, paid, pos, same_status, sent, set_to,
  update_invoice_row, ℤ,
}
use kritvia_global_dashboard.Invoices.Handlers.{
  InvoiceEnv, assert_invoice_available, create, has_refused_null, mark_paid, new_invoice, paid_row,
  paid_tables, payable, send, send_tables, sent_row, unlock, unlock_tables, unlocked_row,
  update_invoice, updated_row,
}
use kritvia_global_dashboard.Invoices.Status.{
  DatedAs, InvoiceOp, Moves, Written, adds, books_of, creates, edits, goes_out, handle, marks_paid,
  opens, rewritten, sends, settles, stays, unlocks, updates,
}
use mathlib.Core.Bool.{and-eq-true_iff}

not_given : {A : Type 0} (f : DtoField A) → is_given f ≡ false → f ≡ left_out
not_given left_out h = refl
not_given null_field h = absurd (cc)
not_given (set_to a) h = absurd (cc)

unchanged_row :
    (env : InvoiceEnv) (dto : UpdateInvoiceDto) (i : Invoice)
    → has_sensitive_change dto ≡ false
    → updated_row env dto i ≡ i
unfolding has_sensitive_change
unchanged_row env dto i h =
    let number : dto.invoice_number ≡ left_out = not_given dto.invoice_number (ground arith) in
    let company : dto.company_id ≡ left_out = not_given dto.company_id (ground arith) in
    let deal : dto.deal_id ≡ left_out = not_given dto.deal_id (ground arith) in
    let amount : dto.amount ≡ left_out = not_given dto.amount (ground arith) in
    let currency : dto.currency ≡ left_out = not_given dto.currency (ground arith) in
    let issued : dto.issue_date ≡ left_out = not_given dto.issue_date (ground arith) in
    let due : dto.due_date ≡ left_out = not_given dto.due_date (ground arith) in
    rw (number, company, deal, amount, currency, issued, due) refl

books_of-ok {ℓ} :
    {B : Type ℓ} (m : Outcome (Books × B)) (b' : Books)
    → books_of m ≡ ok b'
    → (answer : B) × (m ≡ ok (b', answer))
books_of-ok (ok (t, a)) b' h = (a, ground arith)
books_of-ok (fail e) b' h = absurd (cc)

abbrev pub answer_with : {B : Type 0} → Books → B → Outcome (Books × B)
answer_with b v = ok (b, v)

ok_books : {B : Type 0} (s t : Books) (v w : B) → answer_with s v ≡ answer_with t w → s ≡ t
ok_books s t v w e = ground arith

is_draft : (status : InvoiceStatus) → same_status status draft ≡ true → status ≡ draft
is_draft draft h = refl
is_draft sent h = absurd (cc)
is_draft paid h = absurd (cc)
is_draft overdue h = absurd (cc)

pub send_tables-invoices :
    (auto_lock : ℤ) (i : Invoice) (user : AuthUserContext) (now : ℕ) (b : Books)
    → (send_tables auto_lock i user now b).invoices
      ≡ update (has_invoice_id i.id) (sent_row auto_lock user now i) b.invoices
send_tables-invoices (pos number) i user now b = refl
send_tables-invoices (negsuc number) i user now b = refl

unlocked-DatedAs :
    (status : InvoiceStatus) (sent_at lock_at locked_at : Option ℕ)
    → DatedAs status sent_at lock_at locked_at
    → DatedAs status sent_at lock_at none
unlocked-DatedAs draft sent_at lock_at locked_at (a, c, d) = (a, c, refl)
unlocked-DatedAs sent sent_at lock_at locked_at d = d
unlocked-DatedAs paid sent_at lock_at locked_at d = d
unlocked-DatedAs overdue sent_at lock_at locked_at d = d

module _ (env : InvoiceEnv) (b b' : Books) where
  find_invoice-ok :
      (id org_id : String) (i : Invoice)
      → find_invoice_or404 b id org_id ≡ ok i
      → Memᴰ i b.invoices × (i.id ≡ id) × (i.org_id ≡ org_id)
  unfolding find_invoice_or404
  find_invoice-ok id org_id i h =
      let (m, e) = find-mem (invoice_in_org id org_id) b.invoices i (or_throw-eq-ok _ _ i h) in
      let (same_id, same_org) = (and-eq-true_iff _ _).0 e in
      (m, (eq_iff _ _).0 same_id, (eq_iff _ _).0 same_org)

  -- The last steps of a handler.
  pub answered :
      (t : Books) (id : String) (user : AuthUserContext) (now : ℕ) (view : InvoiceView)
      → ◌>>=◌ {B = Books × InvoiceView} (get_by_id t id user now) (λ v. ok (t, v))
        ≡ answer_with b' view
      → t ≡ b'
  answered t id user now view h =
      let (v, got, h1) = >>=-eq-ok (get_by_id t id user now) _ (b', view) h in
      ok_books t b' v view h1

  -- The handlers of one invoice begin alike.
  with_invoice-ok :
      (id : String) (user : AuthUserContext) (rest : Invoice → Outcome (Books × InvoiceView))
      → books_of (find_invoice_or404 b id user.org_id >>= rest) ≡ ok b'
      → (i : Invoice) × (view : InvoiceView) × Memᴰ i b.invoices
        × (i.org_id ≡ user.org_id)
        × (rest i ≡ answer_with b' view)
  with_invoice-ok id user rest h =
      let (view, h1) = books_of-ok _ b' h in
      let (i, found, h2) = >>=-eq-ok (find_invoice_or404 b id user.org_id) rest (b', view) h1 in
      let (m, same_id, same_org) = find_invoice-ok id user.org_id i found in
      (i, view, m, same_org, h2)

  send-Written :
      (id : String) (user : AuthUserContext) (now : ℕ)
      → books_of (send env b id user now) ≡ ok b'
      → Written env user.org_id b.invoices b'.invoices
  unfolding send
  send-Written id user now h =
      let (i, view, m, own, h1) = with_invoice-ok id user _ h in
      let (test, h2) =
        >>-eq-ok (require (same_status i.status draft) bad_request) _ (b', view) h1 in
      let auto_lock = env.auto_lock_invoice_after_days user.org_id in
      let e = answered (send_tables auto_lock i user now b) i.id user now view h2 in
      rw (← e, send_tables-invoices auto_lock i user now b)
        (edits i (sent_row auto_lock user now i) m own
          (goes_out (is_draft i.status (require-eq-ok _ _ test)) auto_lock user now)
          (λ j w. ((or_else i.sent_at now, refl), refl)))

  mark_paid-Written :
      (id : String) (user : AuthUserContext) (now : ℕ)
      → books_of (mark_paid b id user now) ≡ ok b'
      → Written env user.org_id b.invoices b'.invoices
  unfolding mark_paid
  mark_paid-Written id user now h =
      let (i, view, m, own, h1) = with_invoice-ok id user _ h in
      let (test, h2) =
        >>-eq-ok (require (payable (get_effective_status now i)) bad_request) _ (b', view) h1 in
      let e = answered (paid_tables i user b) i.id user now view h2 in
      rw (← e) (edits i paid_row m own (settles now (require-eq-ok _ _ test)) (λ j w. (tt, w.1)))

  unlock-Written :
      (id : String) (user : AuthUserContext) (now : ℕ)
      → books_of (unlock b id user now) ≡ ok b'
      → Written env user.org_id b.invoices b'.invoices
  unfolding unlock
  unlock-Written id user now h =
      let (i, view, m, own, h1) = with_invoice-ok id user _ h in
      let (test, h2) = >>-eq-ok (require (is_some i.locked_at) bad_request) _ (b', view) h1 in
      let e = answered (unlock_tables i user b) i.id user now view h2 in
      rw (← e) (
        edits i unlocked_row m own (opens (require-eq-ok _ _ test))
          (λ j w. (unlocked-DatedAs j.status j.sent_at j.lock_at j.locked_at w.0, refl)))

  -- An edit of a locked invoice that is let through leaves it as it was.
  edited :
      (dto : UpdateInvoiceDto) (i : Invoice)
      → not (is_some i.locked_at && has_sensitive_change dto) ≡ true
      → Moves env i (updated_row env dto i)
  edited dto i h = elim (Option-cases i.locked_at) [
    | inl free ↦ rewritten free dto
    | inr (t, e) ↦ rw (unchanged_row env dto i (ground arith)) stays
  ]

  update_invoice-Written :
      (id : String) (dto : UpdateInvoiceDto) (user : AuthUserContext) (now : ℕ)
      → books_of (update_invoice env b id dto user now) ≡ ok b'
      → Written env user.org_id b.invoices b'.invoices
  unfolding update_invoice
  update_invoice-Written id dto user now h =
      let (i, view, m, own, h1) = with_invoice-ok id user _ h in
      let (test, h2) =
        >>-eq-ok (require (not (is_some i.locked_at && has_sensitive_change dto)) conflict) _
          (b', view) h1 in
      let (company, h3) =
        >>-eq-ok (ensure_company_in_org b (field_value dto.company_id) user.org_id) _ (b', view)
          h2 in
      let (deal, h4) =
        >>-eq-ok (ensure_deal_in_org b (field_value dto.deal_id) user.org_id) _ (b', view) h3 in
      let (no_null, h5) =
        >>-eq-ok (require (not (has_refused_null dto)) internal_error) _ (b', view) h4 in
      let e =
        answered
          (log_invoice user.org_id user i.id "UPDATE"
            (update_invoice_row i.id (updated_row env dto) b))
          i.id user now view h5 in
      rw (← e)
        (edits i (updated_row env dto) m own (edited dto i (require-eq-ok _ _ test)) (λ j w. w))

  create-Written :
      (dto : CreateInvoiceDto) (user : AuthUserContext) (new_id : String) (now : ℕ)
      → books_of (create env b dto user new_id now) ≡ ok b'
      → Written env user.org_id b.invoices b'.invoices
  unfolding create
  create-Written dto user new_id now h =
      let (answer, h1) = books_of-ok _ b' h in
      let (org_id, active, h2) = >>=-eq-ok (get_active_org_id user) _ (b', answer) h1 in
      let (plan, h3) = >>-eq-ok (assert_invoice_available env b org_id) _ (b', answer) h2 in
      let (company, h4) =
        >>-eq-ok (ensure_company_in_org b (some dto.company_id) org_id) _ (b', answer) h3 in
      let (deal, h5) = >>-eq-ok (ensure_deal_in_org b dto.deal_id org_id) _ (b', answer) h4 in
      let e : b.invoices ++ new_invoice env dto user org_id new_id now ∷ [] ≡ b'.invoices =
        ground arith in
      rw (← e) (adds dto user new_id now org_id)

-- The user's organisation.
abbrev pub org_of : InvoiceOp → String
org_of (creates dto user new_id now) = user.org_id
org_of (updates id dto user now) = user.org_id
org_of (sends id user now) = user.org_id
org_of (marks_paid id user now) = user.org_id
org_of (unlocks id user now) = user.org_id

pub handle-Written :
    (env : InvoiceEnv) (b b' : Books) (op : InvoiceOp)
    → handle env b op ≡ ok b'
    → Written env (org_of op) b.invoices b'.invoices
unfolding handle
handle-Written env b b' (creates dto user new_id now) h =
    create-Written env b b' dto user new_id now h
handle-Written env b b' (updates id dto user now) h =
    update_invoice-Written env b b' id dto user now h
handle-Written env b b' (sends id user now) h = send-Written env b b' id user now h
handle-Written env b b' (marks_paid id user now) h = mark_paid-Written env b b' id user now h
handle-Written env b b' (unlocks id user now) h = unlock-Written env b b' id user now h
