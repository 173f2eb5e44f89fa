-- ===== src/Invoices/Status/Life.antt =====
-- The life of each invoice through the requests.
use kritvia_global_dashboard.Base.{
  Bool-cases, List, Memᴰ, Option, Pairs, String, [], changed, eq_iff, inl, inr, mem-All, mem-update,
  ok, refl, some, sym, update, ℕ, ◌++◌, ◌∙◌, ◌∷◌, ◌≡◌, ◌≢◌, ◌⊎◌,
}
use kritvia_global_dashboard.Invoices.{Books, Invoice, has_invoice_id}
use kritvia_global_dashboard.Invoices.Handlers.{InvoiceEnv, new_invoice}
use kritvia_global_dashboard.Invoices.Status.{
  InvoiceOp, Moves, Written, adds, edits, goes_out, handle, opens, rewritten, settles, stays,
}
use kritvia_global_dashboard.Invoices.Status.Requests.{handle-Written, org_of}

-- The primary key of the table.
abbrev pub UniqueInvoiceIds : List Invoice → Type 0
UniqueInvoiceIds = Pairs (λ i j. i.id ≢ j.id)

-- In a table with unique identifiers a row is known by its identifier.
one_row :
    (rows : List Invoice) (i j : Invoice)
    → UniqueInvoiceIds rows
    → Memᴰ i rows
    → Memᴰ j rows
    → i.id ≡ j.id
    → i ≡ j
one_row [] i j unique m n e = elim m [ ]
one_row (x ∷ rows) i j (differ, unique) (Memᴰ.head a) (Memᴰ.head c) e = a ∙ sym c
one_row (x ∷ rows) i j (differ, unique) (Memᴰ.head a) (Memᴰ.tail n) e =
    absurd (mem-All _ n differ (rw (← a) e))
one_row (x ∷ rows) i j (differ, unique) (Memᴰ.tail m) (Memᴰ.head c) e =
    absurd (mem-All _ m differ (rw (← c) (sym e)))
one_row (x ∷ rows) i j (differ, unique) (Memᴰ.tail m) (Memᴰ.tail n) e =
    one_row rows i j unique m n e

mem-append {ℓ} : {A : Type ℓ} {x : A} {xs : List A} (y : A) → Memᴰ x xs → Memᴰ x (xs ++ y ∷ [])
mem-append y (Memᴰ.head e) = Memᴰ.head e
mem-append y (Memᴰ.tail m) = Memᴰ.tail (mem-append y m)

-- An invoice keeps its identifier and its organisation.
abbrev pub SameKeys : Invoice → Invoice → Type 0
SameKeys i j = (j.id ≡ i.id) × (j.org_id ≡ i.org_id)

Moves-SameKeys : (env : InvoiceEnv) (i j : Invoice) → Moves env i j → SameKeys i j
Moves-SameKeys env i _ stays = (refl, refl)
Moves-SameKeys env i _ (rewritten free dto) = (refl, refl)
Moves-SameKeys env i _ (goes_out e auto_lock user now) = (refl, refl)
Moves-SameKeys env i _ (settles now e) = (refl, refl)
Moves-SameKeys env i _ (opens e) = (refl, refl)

-- An invoice after a request of a user.
pub record Successor (env : InvoiceEnv) (org : String) (rows : List Invoice) (i : Invoice)
    : Type 0 where
  pub next : Invoice
  pub member : Memᴰ next rows
  pub keys : SameKeys i next
  pub moves : Moves env i next
  pub foreign_same : (next ≡ i) ⊎ (i.org_id ≡ org)

Written-Successor :
    (env : InvoiceEnv) (org : String) (rows later : List Invoice) (i : Invoice)
    → UniqueInvoiceIds rows
    → Written env org rows later
    → Memᴰ i rows
    → Successor env org later i
Written-Successor env org rows _ i unique (adds dto user new_id now org_id) m = record {
  next = i;
  member = mem-append (new_invoice env dto user org_id new_id now) m;
  keys = (refl, refl);
  moves = stays;
  foreign_same = inl refl;
}
Written-Successor env org rows _ i unique (edits k f mk own moves keeps) m =
    elim (Bool-cases (has_invoice_id k.id i)) [
      | inl this ↦
          let same_row : i ≡ k = one_row rows i k unique m mk ((eq_iff i.id k.id).0 this) in
          let moved : Moves env i (f i) = rw same_row moves in
          let inside : Memᴰ (changed (has_invoice_id k.id) f i)
              (update (has_invoice_id k.id) f rows) =
            mem-update (has_invoice_id k.id) f m in
          record {
            next = f i;
            member = rw this at inside;
            keys = Moves-SameKeys env i (f i) moved;
            moves = moved;
            foreign_same = inr (rw same_row own);
          }
      | inr other ↦
          let inside : Memᴰ (changed (has_invoice_id k.id) f i)
              (update (has_invoice_id k.id) f rows) =
            mem-update (has_invoice_id k.id) f m in
          record {
            next = i;
            member = rw other at inside;
            keys = (refl, refl);
            moves = stays;
            foreign_same = inl refl;
          }
    ]

-- Where identifiers are unique, each invoice goes on under its identifier after a request, and does
-- nothing but a move of its life: it stays, is edited while unlocked, is sent from a draft, is paid
-- when sent or past its day, or is unlocked when locked. A request of a user of another
-- organisation leaves it as it is.
pub handle-Successor :
    (env : InvoiceEnv) (b b' : Books) (op : InvoiceOp) (i : Invoice)
    → UniqueInvoiceIds b.invoices
    → handle env b op ≡ ok b'
    → Memᴰ i b.invoices
    → Successor env (org_of op) b'.invoices i
handle-Successor env b b' op i unique h m =
    Written-Successor env (org_of op) b.invoices b'.invoices i unique (handle-Written env b b' op h)
      m

-- What the lock protects.
pub record Content : Type 0 where
  pub invoice_number : Option String
  pub company_id : String
  pub deal_id : Option String
  pub amount : ℕ
  pub currency : String
  pub issue_date : ℕ
  pub due_date : ℕ

abbrev pub content : Invoice → Content
content i = record {
  invoice_number = i.invoice_number;
  company_id = i.company_id;
  deal_id = i.deal_id;
  amount = i.amount;
  currency = i.currency;
  issue_date = i.issue_date;
  due_date = i.due_date;
}

Moves-content :
    (env : InvoiceEnv) (i j : Invoice) (t : ℕ)
    → Moves env i j
    → i.locked_at ≡ some t
    → content j ≡ content i
Moves-content env i _ t stays e = refl
Moves-content env i _ t (rewritten free dto) e = absurd (cc)
Moves-content env i _ t (goes_out d auto_lock user now) e = refl
Moves-content env i _ t (settles now p) e = refl
Moves-content env i _ t (opens o) e = refl

-- Where identifiers are unique, no request changes the number, the company, the deal, the amount,
-- the currency or the dates of a locked invoice.
pub handle-content :
    (env : InvoiceEnv) (b b' : Books) (op : InvoiceOp) (i : Invoice) (t : ℕ)
    → UniqueInvoiceIds b.invoices
    → handle env b op ≡ ok b'
    → Memᴰ i b.invoices
    → i.locked_at ≡ some t
    → (j : Invoice) × Memᴰ j b'.invoices × (j.id ≡ i.id) × (content j ≡ content i)
handle-content env b b' op i t unique h m locked =
    let s = handle-Successor env b b' op i unique h m in
    (s.next, s.member, s.keys.0, Moves-content env i s.next t s.moves locked)
