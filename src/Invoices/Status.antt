-- ===== src/Invoices/Status.antt =====
-- What a request may do to one invoice, and the requests in a row.
pub mod Requests
pub mod Life
pub mod Wf
use kritvia_global_dashboard.Base.{
  AuthUserContext, List, Memᴰ, Option, Outcome, String, [], after, fail, is_some, none, ok, some,
  true, update, ℕ, ◌++◌, ◌∷◌, ◌≡◌,
}
use kritvia_global_dashboard.Invoices.{
  Books, CreateInvoiceDto, Invoice, InvoiceStatus, UpdateInvoiceDto, draft, get_effective_status,
  has_invoice_id, overdue, paid, sent, ℤ,
}
use kritvia_global_dashboard.Invoices.Handlers.{
  InvoiceEnv, create, mark_paid, new_invoice, paid_row, payable, send, sent_row, unlock,
  unlocked_row, update_invoice, updated_row,
}

-- A request to one of the handlers, at a moment; that of a new row comes with its identifier.
pub data InvoiceOp : Type 0 where
  creates : CreateInvoiceDto → AuthUserContext → String → ℕ → InvoiceOp
  updates : String → UpdateInvoiceDto → AuthUserContext → ℕ → InvoiceOp
  sends marks_paid unlocks : String → AuthUserContext → ℕ → InvoiceOp

abbrev pub books_of {ℓ} : {B : Type ℓ} → Outcome (Books × B) → Outcome Books
books_of (ok (b, answer)) = ok b
books_of (fail e) = fail e

-- The tables after a request that is carried out.
unfoldable pub handle : InvoiceEnv → Books → InvoiceOp → Outcome Books
unfolding create update_invoice send mark_paid unlock
handle env b (creates dto user new_id now) = books_of (create env b dto user new_id now)
handle env b (updates id dto user now) = books_of (update_invoice env b id dto user now)
handle env b (sends id user now) = books_of (send env b id user now)
handle env b (marks_paid id user now) = books_of (mark_paid b id user now)
handle env b (unlocks id user now) = books_of (unlock b id user now)

-- One after another; a request that fails leaves the tables as they were.
unfoldable pub handle_all : InvoiceEnv → Books → List InvoiceOp → Books
unfolding handle
handle_all env b [] = b
handle_all env b (op ∷ later) = handle_all env (after b (handle env b op)) later

-- The life of one invoice: it is edited while it is not locked, sent from a draft, paid when it is
-- sent or past its day, and unlocked when it is locked.
pub data Moves (env : InvoiceEnv) : Invoice → Invoice → Type 0 where
  stays : {i : Invoice} → Moves env i i
  rewritten :
      {i : Invoice}
      → i.locked_at ≡ none
      → (dto : UpdateInvoiceDto) → Moves env i (updated_row env dto i)
  goes_out :
      {i : Invoice}
      → i.status ≡ draft
      → (auto_lock : ℤ) (user : AuthUserContext) (now : ℕ)
      → Moves env i (sent_row auto_lock user now i i)
  settles :
      {i : Invoice} (now : ℕ)
      → payable (get_effective_status now i) ≡ true
      → Moves env i (paid_row i)
  opens : {i : Invoice} → is_some i.locked_at ≡ true → Moves env i (unlocked_row i)

-- The dates of an invoice, by its status: `OVERDUE` is never stored, a draft is neither sent nor
-- locked, and what is sent has the time it was sent at.
abbrev pub DatedAs : InvoiceStatus → Option ℕ → Option ℕ → Option ℕ → Type 0
DatedAs draft sent_at lock_at locked_at = (sent_at ≡ none) × (lock_at ≡ none) × (locked_at ≡ none)
DatedAs sent sent_at lock_at locked_at = (t : ℕ) × (sent_at ≡ some t)
DatedAs paid sent_at lock_at locked_at = Unit {0}
DatedAs overdue sent_at lock_at locked_at = ⊥

-- Who locked an invoice is kept while it is locked.
abbrev pub Wf : Invoice → Type 0
Wf i =
    DatedAs i.status i.sent_at i.lock_at i.locked_at
    × (is_some i.locked_at ≡ is_some i.locked_by_user_id)

-- What a request does to the table: it adds a draft, or changes the row that it names, whose
-- organisation is that of the user.
pub data Written (env : InvoiceEnv) (org : String) (rows : List Invoice)
    : List Invoice → Type 0 where
  adds :
      (dto : CreateInvoiceDto) (user : AuthUserContext) (new_id : String) (now : ℕ)
      (org_id : String)
      → Written env org rows (rows ++ new_invoice env dto user org_id new_id now ∷ [])
  edits :
      (i : Invoice) (f : Invoice → Invoice)
      → Memᴰ i rows
      → i.org_id ≡ org
      → Moves env i (f i)
      → ((j : Invoice) → Wf j → Wf (f j))
      → Written env org rows (update (has_invoice_id i.id) f rows)
