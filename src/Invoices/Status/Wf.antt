-- ===== src/Invoices/Status/Wf.antt =====
-- The dates and locks of the invoices over any sequence of requests.
use kritvia_global_dashboard.Base.{
  All, All-update, Bool, List, Outcome-cases, String, [], after, false, if◌then◌else◌, inl, inr,
  refl, true, ◌++◌, ◌∷◌,
}
use kritvia_global_dashboard.Invoices.{Books, Invoice, has_invoice_id}
use kritvia_global_dashboard.Invoices.Handlers.{InvoiceEnv, new_invoice}
use kritvia_global_dashboard.Invoices.Status.{
  InvoiceOp, Wf, Written, adds, edits, handle, handle_all,
}
use kritvia_global_dashboard.Invoices.Status.Requests.{handle-Written, org_of}

All-append {ℓ κ} :
    {A : Type ℓ} (P : A → Type κ) (xs : List A) (y : A) → All P xs → P y → All P (xs ++ y ∷ [])
All-append P [] y h p = (p, tt)
All-append P (x ∷ xs) y (q, h) p = (q, All-append P xs y h p)

Written-Wf :
    (env : InvoiceEnv) (org : String) (rows later : List Invoice)
    → Written env org rows later
    → All Wf rows
    → All Wf later
Written-Wf env org rows _ (adds dto user new_id now org_id) h =
    All-append Wf rows (new_invoice env dto user org_id new_id now) h ((refl, refl, refl), refl)
Written-Wf env org rows _ (edits i f m own moves keeps) h =
    All-update Wf (has_invoice_id i.id) f Wf rows (λ j w. by_test j w (has_invoice_id i.id j)) h
  where
    by_test : (j : Invoice) → Wf j → (test : Bool) → Wf (if test then f j else j)
    by_test j w true = keeps j w
    by_test j w false = w

-- After any requests, whoever makes them, the invoices are as they should be, if they were before:
-- none is stored as overdue, a draft is neither sent nor locked, what is sent has the time it was
-- sent at, and a lock has the user who set it.
pub handle_all-Wf :
    (env : InvoiceEnv) (b : Books) (requests : List InvoiceOp)
    → All Wf b.invoices
    → All Wf (handle_all env b requests).invoices
unfolding handle_all
handle_all-Wf env b [] h = h
handle_all-Wf env b (op ∷ later) h =
    handle_all-Wf env (after b (handle env b op)) later (elim (Outcome-cases (handle env b op)) [
      | inl (b', e) ↦
          rw e (Written-Wf env (org_of op) b.invoices b'.invoices (handle-Written env b b' op e) h)
      | inr (x, e) ↦ rw e h
    ])
