-- ===== src/Fixes/Settled.antt =====
-- Tables of runs in which what is final stays, and what an execution does to the runs.
use kritvia_global_dashboard.Base.{
  All, AuthUserContext, Bool, Bool-cases, List, Memᴰ, Outcome, Pairs, Pairs-update, String,
  Unit-All, [], ap, arith, changed, eq_iff, eq_refl, fail, false, find, find-mem, inl, inr, mem-All,
  mem-update, ok, refl, some, sym, true, update, ℕ, ◌===◌, ◌∙◌, ◌∷◌, ◌≡◌,
}
use kritvia_global_dashboard.Fixes.{
  FixActionRun, FixStatus, RunResult, Setting, Shop, cancelled, failed, succeeded,
}
use kritvia_global_dashboard.Fixes.Actions.{
  execute_escalate_incident, execute_reassign_work, execute_send_invoice_reminder,
  execute_set_due_date, execute_template, set_invoice_due, set_work_due,
}
use kritvia_global_dashboard.Fixes.Service.{with_id}
use mathlib.Core.Bool.{false≢true}

abbrev pub is_final : FixStatus → Bool
is_final succeeded = true
is_final failed = true
is_final cancelled = true
is_final _ = false

abbrev pub OtherRun : FixActionRun → FixActionRun → Type 0
OtherRun a b = (a.id === b.id) ≡ false

-- The identifiers of the runs are distinct, and the final runs of a list stand in another.
pub record Settled (runs runs' : List FixActionRun) : Type 0 where
  pub ids : Pairs OtherRun runs'
  pub kept : (r : FixActionRun) → Memᴰ r runs → is_final r.status ≡ true → Memᴰ r runs'

pub Settled-self : (runs : List FixActionRun) → Pairs OtherRun runs → Settled runs runs
Settled-self runs h = record { ids = h; kept = λ r m _. m }

pub Settled-trans : (a b c : List FixActionRun) → Settled a b → Settled b c → Settled a c
Settled-trans a b c h k = record { ids = k.ids; kept = λ r m e. k.kept r (h.kept r m e) e }

All-OtherRun :
    (x : FixActionRun) (rs : List FixActionRun) (y : FixActionRun)
    → All (OtherRun x) rs
    → Memᴰ y rs
    → (x.id === y.id) ≡ false
All-OtherRun x rs y h m = mem-All (OtherRun x) m h

-- Two runs with one identifier are one.
same_run :
    (runs : List FixActionRun) (x y : FixActionRun)
    → Pairs OtherRun runs
    → Memᴰ x runs
    → Memᴰ y runs
    → x.id ≡ y.id
    → x ≡ y
same_run [] x y h m n e = elim m [ ]
same_run (z ∷ zs) x y (h, hs) (Memᴰ.head a) (Memᴰ.head b) e = a ∙ sym b
same_run (z ∷ zs) x y (h, hs) (Memᴰ.head a) (Memᴰ.tail n) e = absurd (
    let q = All-OtherRun z zs y h n in
    let t = eq_refl y.id in
    false≢true (sym q ∙ ap (λ i. i === y.id) (sym (ap (λ r. r.id) a) ∙ e) ∙ t))
same_run (z ∷ zs) x y (h, hs) (Memᴰ.tail m) (Memᴰ.head b) e = absurd (
    let q = All-OtherRun z zs x h m in
    let t = eq_refl x.id in
    false≢true (sym q ∙ ap (λ i. i === x.id) (sym (ap (λ r. r.id) b) ∙ sym e) ∙ t))
same_run (z ∷ zs) x y (h, hs) (Memᴰ.tail m) (Memᴰ.tail n) e = same_run zs x y hs m n e

-- A change of one run that is not final yet, which keeps its identifier.
pub Settled-update :
    (runs : List FixActionRun) (x : FixActionRun) (id : String) (f : FixActionRun → FixActionRun)
    → Pairs OtherRun runs
    → Memᴰ x runs
    → x.id ≡ id
    → is_final x.status ≡ false
    → ((r : FixActionRun) → (f r).id ≡ r.id)
    → Settled runs (update (with_id id) f runs)
Settled-update runs x id f h m e open_status same_id = record {
  ids =
      Pairs-update (λ r. Unit {0}) (with_id id) f OtherRun OtherRun runs
        (λ y z _ _ o. ground (arith, same_id y, same_id z)) (Unit-All runs) h;
  kept = λ r n final. elim (Bool-cases (with_id id r)) [
    | inl t ↦
        let q : x ≡ r = same_run runs x r h m n (e ∙ sym ((eq_iff r.id id).0 t)) in
        absurd (false≢true (sym open_status ∙ ap (λ y. is_final y.status) q ∙ final))
    | inr t ↦
        let n' : Memᴰ (changed (with_id id) f r) (update (with_id id) f runs) =
          mem-update (with_id id) f n in
        rw t at n'
  ];
}

-- An execution leaves the runs to its caller.
abbrev SameRuns : Shop → Outcome (Shop × RunResult) → Type 0
SameRuns s (ok (s', r)) = s'.runs ≡ s.runs
SameRuns s (fail e) = Unit

module _ (now : ℕ) (run : FixActionRun) (user : AuthUserContext) (dry_run : Bool) (s : Shop) where
  reminder-SameRuns :
      (o : Setting) → SameRuns s (execute_send_invoice_reminder now run user dry_run o s)
  unfolding execute_send_invoice_reminder
  reminder-SameRuns o = ground arith

  reassign-SameRuns : SameRuns s (execute_reassign_work now run user dry_run s)
  unfolding execute_reassign_work
  reassign-SameRuns = ground arith

  due-SameRuns : (o : Setting) → SameRuns s (execute_set_due_date now run user dry_run o s)
  unfolding execute_set_due_date set_work_due set_invoice_due
  due-SameRuns o = ground arith

  escalate-SameRuns : (a : String) → SameRuns s (execute_escalate_incident now run user dry_run a s)
  unfolding execute_escalate_incident
  escalate-SameRuns a = ground arith

  pub execute_template-SameRuns :
      (o : Setting) (a : String) → SameRuns s (execute_template now run user dry_run o a s)
  unfolding execute_template
  execute_template-SameRuns o a = elim (Bool-cases (run.template.key === "SEND_INVOICE_REMINDER")) [
    | inl e ↦ rw (e, execute_template) (reminder-SameRuns o)
    | inr e ↦ elim (Bool-cases (run.template.key === "REASSIGN_WORK")) [
      | inl f ↦ rw (e, f, execute_template) reassign-SameRuns
      | inr f ↦ elim (Bool-cases (run.template.key === "SET_DUE_DATE")) [
        | inl g ↦ rw (e, f, g, execute_template) (due-SameRuns o)
        | inr g ↦ elim (Bool-cases (run.template.key === "ESCALATE_INCIDENT")) [
          | inl h ↦ rw (e, f, g, h, execute_template) (escalate-SameRuns a)
          | inr h ↦ rw (e, f, g, h, execute_template) tt
        ]
      ]
    ]
  ]

pub found_run :
    (id : String) (runs : List FixActionRun) (run : FixActionRun)
    → find (with_id id) runs ≡ some run
    → Memᴰ run runs × (run.id ≡ id)
found_run id runs run e =
    let (m, t) = find-mem (with_id id) runs run e in (m, (eq_iff run.id id).0 t)

-- The status of a run and then its end.
pub Settled-twice :
    (runs : List FixActionRun) (run : FixActionRun) (status : FixStatus)
    (f : FixActionRun → FixActionRun)
    → Pairs OtherRun runs
    → Memᴰ run runs
    → is_final run.status ≡ false
    → is_final status ≡ false
    → ((r : FixActionRun) → (f r).id ≡ r.id)
    → Settled runs (
        update
          (with_id run.id)
          f
          (update (with_id run.id) (λ r. record r { status = status }) runs))
Settled-twice runs run status f h m e open_status same_id =
    let first =
      Settled-update runs run run.id (λ r. record r { status = status }) h m refl e (λ r. refl) in
    let self : with_id run.id run ≡ true = eq_refl run.id in
    let there = mem-update (with_id run.id) (λ r. record r { status = status }) m in
    let m' : Memᴰ (record run { status = status })
        (update (with_id run.id) (λ r. record r { status = status }) runs) =
      rw self at there in
    Settled-trans runs _ _ first (
      Settled-update _ (record run { status = status }) run.id f first.ids m' refl open_status
        same_id)
