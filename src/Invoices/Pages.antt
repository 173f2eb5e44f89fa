-- ===== src/Invoices/Pages.antt =====
-- What is shown under a status, and what a page of the list holds.
use kritvia_global_dashboard.Base.{
  >>=-eq-ok, All, All-image, All-map, All-mem, AuthUserContext, Bool, List, Memᴰ, String, ap, arith,
  count, drop, false, given, given-eq, if◌then◌else◌, is_text, keep, keep-eq, leb, length,
  length-keep, length-map_lem, length-take-le, ltb, map, mem-drop, mem-keep, mem-take, not, ok,
  refl, take, true, ℕ, ◌&&◌, ◌*◌, ◌-◌, ◌===◌, ◌∙◌, ◌≡◌, ◌≤◌,
}
use kritvia_global_dashboard.Invoices.{
  Books, Invoice, InvoiceStatus, draft, get_effective_status, overdue, paid, same_status, sent,
  start_of_utc_day, to_response,
}
use kritvia_global_dashboard.Invoices.Filter.{
  InvoicePage, ListInvoicesDto, find_all, list_where, resolve_sort_field, status_where,
}
use kritvia_global_dashboard.Invoices.Status.{DatedAs, Wf}

-- A column of dates holds days.

abbrev pub OnDay : Invoice → Type 0
OnDay i = start_of_utc_day i.due_date ≡ i.due_date

-- The status shown, and the conditions, by the stored status and whether the day is past.
shown_status : InvoiceStatus → Bool → InvoiceStatus
shown_status status late =
    if same_status status paid then paid else if late then overdue else status

condition : InvoiceStatus → InvoiceStatus → Bool → Bool
condition overdue status late = not (same_status status paid) && late
condition paid status late = same_status status paid
condition st status late = same_status status st && not late

condition_lem :
    (st status : InvoiceStatus) (late : Bool)
    → same_status status overdue ≡ false
    → condition st status late ≡ same_status (shown_status status late) st
unfolding condition shown_status
condition_lem st overdue late h = absurd (cc)
condition_lem draft draft late h = ground arith
condition_lem draft sent late h = ground arith
condition_lem draft paid late h = refl
condition_lem sent draft late h = ground arith
condition_lem sent sent late h = ground arith
condition_lem sent paid late h = refl
condition_lem paid draft late h = ground arith
condition_lem paid sent late h = ground arith
condition_lem paid paid late h = refl
condition_lem overdue draft late h = ground arith
condition_lem overdue sent late h = ground arith
condition_lem overdue paid late h = refl

leb-not-ltb : (a b : ℕ) → leb a b ≡ not (ltb b a)
leb-not-ltb a b = ground arith

status_where-condition :
    (st : InvoiceStatus) (today : ℕ) (i : Invoice)
    → status_where st today i ≡ condition st i.status (ltb i.due_date today)
unfolding status_where condition
status_where-condition draft today i = rw (leb-not-ltb today i.due_date) refl
status_where-condition sent today i = rw (leb-not-ltb today i.due_date) refl
status_where-condition paid today i = refl
status_where-condition overdue today i = refl

Wf-not_overdue : (i : Invoice) → Wf i → same_status i.status overdue ≡ false
Wf-not_overdue i w = by_status i.status refl w.0
  where
    by_status :
        (status : InvoiceStatus)
        → i.status ≡ status
        → DatedAs i.status i.sent_at i.lock_at i.locked_at
        → same_status i.status overdue ≡ false
    by_status draft e d = rw e refl
    by_status sent e d = rw e refl
    by_status paid e d = rw e refl
    by_status overdue e d = elim (rw e at d) [ ]

-- The conditions of the query are those of the status that is shown.
status_where_lem :
    (st : InvoiceStatus) (now : ℕ) (i : Invoice)
    → Wf i
    → OnDay i
    → status_where st (start_of_utc_day now) i ≡ same_status (get_effective_status now i) st
unfolding get_effective_status shown_status
status_where_lem st now i w day =
    status_where-condition st (start_of_utc_day now) i
    ∙ condition_lem st i.status (ltb i.due_date (start_of_utc_day now)) (Wf-not_overdue i w)
    ∙ rw day refl

-- What is listed of the organisation's invoices, by what is shown.
abbrev pub listed : AuthUserContext → ListInvoicesDto → ℕ → Invoice → Bool
listed user query now i =
    i.org_id === user.org_id
    && (given query.company_id (λ c. i.company_id === c)
        && (given query.deal_id (λ d. is_text i.deal_id d)
            && given query.status (λ st. same_status (get_effective_status now i) st)))

list_where_lem :
    (user : AuthUserContext) (query : ListInvoicesDto) (now : ℕ) (i : Invoice)
    → Wf i × OnDay i
    → list_where user query (start_of_utc_day now) i ≡ listed user query now i
unfolding list_where
list_where_lem user query now i (w, day) =
    rw
      (given-eq query.status (λ st. status_where st (start_of_utc_day now) i)
        (λ st. same_status (get_effective_status now i) st) (λ st. status_where_lem st now i w day))
      refl

ok_page : {p q : InvoicePage} → ok p ≡ ok q → p ≡ q
ok_page e = ground arith

module _ (sorted : String → List Invoice → List Invoice) (b : Books) (user : AuthUserContext) where
  -- A page of the list holds at most as many invoices as it is to hold, all of them of the user's
  -- organisation and shown with the status that is asked for, and the total counts those; if the
  -- invoices are as they should be, due dates are days, and sorting adds none.
  pub find_all-listed :
      (query : ListInvoicesDto) (now : ℕ) (page : InvoicePage)
      → ((f : String) (rows : List Invoice) (i : Invoice) → Memᴰ i (sorted f rows) → Memᴰ i rows)
      → All (λ i. Wf i × OnDay i) b.invoices
      → find_all sorted b user query now ≡ ok page
      → All
          (λ v.
            Memᴰ v.invoice b.invoices
            × (listed user query now v.invoice ≡ true)
            × (v.effective_status ≡ get_effective_status now v.invoice))
          page.items
        × (page.total ≡ count (listed user query now) b.invoices)
        × (length page.items ≤ query.page_size)
  unfolding find_all list_where to_response
  find_all-listed query now page sort_mem wf h =
      let today = start_of_utc_day now in
      let (f, sort_ok, h1) = >>=-eq-ok (resolve_sort_field query.sort_by) _ page h in
      let rows = keep (list_where user query today) b.invoices in
      let same_rows : rows ≡ keep (listed user query now) b.invoices =
        keep-eq (list_where user query today) (listed user query now) b.invoices
          (All-map _ _ b.invoices (list_where_lem user query now) wf) in
      let skip = (query.page - 1) * query.page_size in
      let on_page = take query.page_size (drop skip (sorted f rows)) in
      let each =
        All-image
          (λ v.
            Memᴰ v.invoice b.invoices
            × (listed user query now v.invoice ≡ true)
            × (v.effective_status ≡ get_effective_status now v.invoice))
          (to_response now) on_page
          (All-mem on_page (λ i m.
            let inside = sort_mem f rows i (mem-drop skip _ i (mem-take query.page_size _ i m)) in
            let (n, t) = mem-keep (listed user query now) b.invoices i (rw same_rows at inside) in
            (n, t, refl))) in
      let total : length rows ≡ count (listed user query now) b.invoices =
        ap length same_rows ∙ length-keep (listed user query now) b.invoices in
      let size : length (map (to_response now) on_page) ≤ query.page_size =
        rw (length-map_lem (to_response now) on_page) (length-take-le query.page_size _) in
      rw (← ok_page h1) (each, total, size)
