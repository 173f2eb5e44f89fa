-- ===== src/Alerts/Progress.antt =====
-- What a scan is bound to write: each step that is due leaves a row.
use kritvia_global_dashboard.Alerts.{
  Alert, AlertEscalation, Desk, EscalationPolicy, EscalationStep, QuietHours,
}
use kritvia_global_dashboard.Alerts.Loop.{
  escalate_steps_ind, nothing_counted, policy_for, run_escalation_scan_for_org-runs, scan_alert_ind,
  scan_alerts_ind, scanned, steps_for,
}
use kritvia_global_dashboard.Alerts.Rows.{escalate_step-rows}
use kritvia_global_dashboard.Alerts.Scan.{
  NumberedStep, ScanOptions, Tally, cooling, create_escalation, due_steps, escalate_step,
  escalate_steps, has_step, in_scan, is_due, number_from, rows_of, run_escalation_scan_for_org,
  scan_alert, scan_alerts,
}
use kritvia_global_dashboard.Base.{
  Bool, Bool-cases, List, Memᴰ, Pairs, Pairs-keep, String, [], any, any-append, ap, arith, eq_iff,
  false, inl, inr, keep-mem, leb, length, map, mem-All, mem-any, mem-length, not, refl, true, ℕ,
  ◌&&◌, ◌++◌, ◌===◌, ◌==◌, ◌∙◌, ◌∷◌, ◌≡◌,
}
use kritvia_global_dashboard.OnCall.{Platform}

abbrev Stands : String → ℕ → Desk × Tally → Type 0
Stands id k st = any (has_step id k) st.0.escalations ≡ true

create_escalation-any :
    (f : AlertEscalation → Bool) (r : AlertEscalation) (rows : List AlertEscalation)
    → any f rows ≡ true
    → any f (create_escalation r rows) ≡ true
unfolding create_escalation
create_escalation-any f r rows h =
    elim (Bool-cases (any (has_step r.alert_event_id r.step_number) rows)) [
      | inl e ↦ rw e h
      | inr e ↦ rw (e, any-append f rows (r ∷ []), h) refl
    ]

has_own_step : (r : AlertEscalation) → has_step r.alert_event_id r.step_number r ≡ true
has_own_step r = ground (arith, eq_iff r.alert_event_id r.alert_event_id)

create_escalation-has :
    (r : AlertEscalation) (rows : List AlertEscalation)
    → any (has_step r.alert_event_id r.step_number) (create_escalation r rows) ≡ true
unfolding create_escalation
create_escalation-has r rows =
    elim (Bool-cases (any (has_step r.alert_event_id r.step_number) rows)) [
      | inl e ↦ rw e e
      | inr e ↦
          rw (e, any-append (has_step r.alert_event_id r.step_number) rows (r ∷ []), e)
            (mem-any (has_step r.alert_event_id r.step_number) {xs = r ∷ []} (Memᴰ.head refl)
              (has_own_step r))
    ]

module _ (p : Platform) (lower : String → String) (org_id : String) (now : ℕ) where
  escalate_step-Stands :
      (quiet : QuietHours) (a : Alert) (n : NumberedStep) (st : Desk × Tally) (id : String) (k : ℕ)
      → Stands id k st
      → Stands id k (escalate_step p lower org_id now quiet a n st)
  escalate_step-Stands quiet a n st id k h =
      let (held, reason, e, _) = escalate_step-rows p lower org_id now quiet a n st in
      rw e (create_escalation-any (has_step id k) _ st.0.escalations h)

  escalate_step-has :
      (quiet : QuietHours) (a : Alert) (n : NumberedStep) (st : Desk × Tally)
      → Stands a.id n.step_number (escalate_step p lower org_id now quiet a n st)
  escalate_step-has quiet a n st =
      let (held, reason, e, _) = escalate_step-rows p lower org_id now quiet a n st in
      rw e (create_escalation-has _ st.0.escalations)

  escalate_steps-has :
      (quiet : QuietHours) (a : Alert) (done_before : List ℕ) (ns : List NumberedStep)
      (n : NumberedStep) (st : Desk × Tally)
      → Memᴰ n ns
      → (any (λ k. k == n.step_number) done_before ≡ true → Stands a.id n.step_number st)
      → Stands a.id n.step_number (escalate_steps p lower org_id now quiet a done_before ns st)
  unfolding escalate_steps
  escalate_steps-has quiet a done_before [] n st m h = elim m [ ]
  escalate_steps-has quiet a done_before (m ∷ ms) n st (Memᴰ.tail t) h =
      elim (Bool-cases (any (λ k. k == m.step_number) done_before)) [
        | inl e ↦ rw (e, escalate_steps) (escalate_steps-has quiet a done_before ms n st t h)
        | inr e ↦
            rw (e, escalate_steps)
              (escalate_steps-has quiet a done_before ms n _ t
                (λ f. escalate_step-Stands quiet a m st a.id n.step_number (h f)))
      ]
  escalate_steps-has quiet a done_before (m ∷ ms) n st (Memᴰ.head same_step) h =
      elim (Bool-cases (any (λ k. k == n.step_number) done_before)) [
        | inl e ↦ rw (← same_step, escalate_steps, e) (later st (h e))
        | inr e ↦ rw (← same_step, escalate_steps, e) (later _ (escalate_step-has quiet a n st))
      ]
    where
      later :
          (t : Desk × Tally)
          → Stands a.id n.step_number t
          → Stands a.id n.step_number (escalate_steps p lower org_id now quiet a done_before ms t)
      later t h =
          escalate_steps_ind (Stands a.id n.step_number) p lower org_id now quiet a done_before ms t
            (λ m t _. escalate_step-Stands quiet a m t a.id n.step_number) h

-- The numbers read before the loop are those of rows.
numbers_stand :
    (id : String) (k : ℕ) (rows : List AlertEscalation)
    → any (λ n. n == k) (map (λ r. r.step_number) (rows_of id rows)) ≡ true
    → any (has_step id k) rows ≡ true
numbers_stand id k [] h = absurd (cc)
numbers_stand id k (r ∷ rs) h = elim (Bool-cases (r.alert_event_id === id)) [
  | inl e ↦ elim (Bool-cases (r.step_number == k)) [
    | inl f ↦ rw (e, f) refl
    | inr f ↦ rw (e, f) (numbers_stand id k rs (rw (e, f) at h))
  ]
  | inr e ↦ rw e (numbers_stand id k rs (rw e at h))
]

module _ (p : Platform) (lower : String → String) (org_id : String) (now : ℕ)
    (options : ScanOptions) (q : EscalationPolicy) (steps : List EscalationStep) where
  scan_alert-has :
      (a : Alert) (n : NumberedStep) (s : Desk) (t : Tally)
      → Memᴰ n (due_steps p lower org_id now options q steps a)
      → (not options.force && cooling now (rows_of a.id s.escalations)) ≡ false
      → Stands a.id n.step_number (scan_alert p lower org_id now options q steps a (s, t))
  unfolding scan_alert
  scan_alert-has a n s t m warm =
      rw (mem-length (due_steps p lower org_id now options q steps a) n m, warm)
        (escalate_steps-has p lower org_id now q.quiet a _ _ n (s, t) m
          (numbers_stand a.id n.step_number s.escalations))

number_from-length :
    (k : ℕ) (steps : List EscalationStep) (n : NumberedStep)
    → Memᴰ n (number_from k steps)
    → leb (length steps) 0 ≡ false
number_from-length k [] n m = elim m [ ]
number_from-length k (x ∷ xs) n m = ground arith

-- Identifiers are unique: `id` is the primary key of the alerts.
abbrev pub OtherId : Alert → Alert → Type 0
OtherId a b = (b.id === a.id) ≡ false

abbrev Rows : String → List AlertEscalation → Desk × Tally → Type 0
Rows id rows st = rows_of id st.0.escalations ≡ rows

rows_of-append :
    (id : String) (rows : List AlertEscalation) (r : AlertEscalation)
    → (r.alert_event_id === id) ≡ false
    → rows_of id (rows ++ r ∷ []) ≡ rows_of id rows
rows_of-append id [] r e = rw e refl
rows_of-append id (x ∷ xs) r e = elim (Bool-cases (x.alert_event_id === id)) [
  | inl f ↦ rw f (ap (λ l. x ∷ l) (rows_of-append id xs r e))
  | inr f ↦ rw f (rows_of-append id xs r e)
]

pub rows_of-create_escalation :
    (id : String) (r : AlertEscalation) (rows : List AlertEscalation)
    → (r.alert_event_id === id) ≡ false
    → rows_of id (create_escalation r rows) ≡ rows_of id rows
unfolding create_escalation
rows_of-create_escalation id r rows h =
    elim (Bool-cases (any (has_step r.alert_event_id r.step_number) rows)) [
      | inl e ↦ rw e refl
      | inr e ↦ rw e (rows_of-append id rows r h)
    ]

module _ (p : Platform) (lower : String → String) (org_id : String) (now : ℕ)
    (options : ScanOptions) (q : EscalationPolicy) (steps : List EscalationStep) where
  -- The rows of an alert are not touched by the turn of another.
  scan_alert-Rows :
      (a b : Alert) (rows : List AlertEscalation) (st : Desk × Tally)
      → OtherId a b
      → Rows a.id rows st
      → Rows a.id rows (scan_alert p lower org_id now options q steps b st)
  scan_alert-Rows a b rows st d h =
      scan_alert_ind (Rows a.id rows) p lower org_id now options q steps b st
        (λ n t _ k.
          let (held, reason, e, _) = escalate_step-rows p lower org_id now q.quiet b n t in
          rw e (rows_of-create_escalation a.id _ t.0.escalations d ∙ k))
        h

  scan_alerts-has :
      (alerts : List Alert) (a : Alert) (n : NumberedStep) (rows : List AlertEscalation)
      (st : Desk × Tally)
      → Memᴰ a alerts
      → Pairs (λ x y. OtherId y x) alerts
      → Memᴰ n (due_steps p lower org_id now options q steps a)
      → Rows a.id rows st
      → (not options.force && cooling now rows) ≡ false
      → Stands a.id n.step_number (scan_alerts p lower org_id now options q steps alerts st)
  unfolding scan_alerts
  scan_alerts-has [] a n rows st m d k r warm = elim m [ ]
  scan_alerts-has (b ∷ bs) a n rows (s, t) (Memᴰ.head same_alert) (d, ds) k r warm =
      scan_alerts_ind (Stands a.id n.step_number) p lower org_id now options q steps bs _
        (λ x y z _ _. escalate_step-Stands p lower org_id now q.quiet x y z a.id n.step_number)
        (rw (← same_alert)
          (scan_alert-has p lower org_id now options q steps a n s t k (rw r warm)))
  scan_alerts-has (b ∷ bs) a n rows st (Memᴰ.tail m) (d, ds) k r warm =
      scan_alerts-has bs a n rows _ m ds k
        (scan_alert-Rows a b rows st (mem-All (λ y. OtherId y b) m d) r) warm

-- A scan leaves a row for every step of the organisation's policy that is due for an alert that it
-- takes up, if the policy is enabled and no row of the alert was written in the ten minutes before,
-- or the scan is forced. The identifiers of the alerts are distinct.
pub run_escalation_scan_for_org-has :
    (p : Platform) (lower : String → String) (s : Desk) (org_id new_id : String) (now : ℕ)
    (options : ScanOptions) (a : Alert) (n : NumberedStep)
    → Pairs (λ x y. OtherId y x) s.alerts
    → (policy_for s org_id new_id).is_enabled ≡ true
    → Memᴰ a s.alerts
    → in_scan org_id now options a ≡ true
    → Memᴰ n (number_from 1 (steps_for p s org_id new_id))
    → is_due p.upper (policy_for s org_id new_id) options now a n ≡ true
    → (not options.force && cooling now (rows_of a.id s.escalations)) ≡ false
    → any
        (has_step a.id n.step_number)
        (run_escalation_scan_for_org p lower s org_id new_id now options).0.escalations
      ≡ true
run_escalation_scan_for_org-has p lower s org_id new_id now options a n d on m up k due warm =
    let (l, e) =
      run_escalation_scan_for_org-runs p lower s org_id new_id now options on
        (number_from-length 1 (steps_for p s org_id new_id) n k) in
    ap (λ st. any (has_step a.id n.step_number) st.0.escalations) e
    ∙ (scan_alerts-has p lower org_id now options (policy_for s org_id new_id)
        (steps_for p s org_id new_id) (scanned s org_id now options) a n
        (rows_of a.id s.escalations) (nothing_counted s l)
        (keep-mem (in_scan org_id now options) m up)
        (Pairs-keep (λ x y. OtherId y x) (in_scan org_id now options) s.alerts d)
        (keep-mem (is_due p.upper (policy_for s org_id new_id) options now a) k due) refl warm)
