-- ===== src/Alerts/Counts.antt =====
-- The numbers that a scan answers with, against the rows that it leaves.
use kritvia_global_dashboard.Alerts.{
  Alert, AlertEscalation, Desk, EscalationPolicy, EscalationStep, QuietHours,
}
use kritvia_global_dashboard.Alerts.Loop.{
  nothing_counted, policy_for, run_escalation_scan_for_org-cases, run_escalation_scan_for_org_ind,
  tallied,
}
use kritvia_global_dashboard.Alerts.Rows.{escalate_step-rows}
use kritvia_global_dashboard.Alerts.Scan.{
  NumberedStep, ScanOptions, ScanResult, Tally, cooling, create_escalation, due_steps,
  escalate_step, escalate_steps, has_step, no_options, number_from, rows_of, run_escalation_scan,
  run_escalation_scan_for_org, scan_alert, scan_alerts, scan_orgs,
}
use kritvia_global_dashboard.Base.{
  All, All-mem, Bool, Bool-cases, List, Pairs, Pairs-concat, Pairs-keep, String, [], any,
  any-append, any-false-All, arith, count, count-append, false, if◌then◌else◌, inl, inr, keep, leb,
  length, map, not, refl, suc, true, ℕ, ◌&&◌, ◌++◌, ◌+◌, ◌<◌, ◌===◌, ◌==◌, ◌∙◌, ◌∷◌, ◌≡◌,
}
use kritvia_global_dashboard.OnCall.{Platform}
use mathlib.Core.Bool.{and-eq-true_iff}

-- The rows before with what the loop has counted are the rows after with what it had counted.
pub record Balanced (st st' : Desk × Tally) : Type 0 where
  pub routed :
      count (λ r. not r.suppressed) st'.0.escalations + st.1.escalated
      ≡ count (λ r. not r.suppressed) st.0.escalations + st'.1.escalated
  pub held :
      count (λ r. r.suppressed) st'.0.escalations + st.1.suppressed
      ≡ count (λ r. r.suppressed) st.0.escalations + st'.1.suppressed

Balanced-self : (st : Desk × Tally) → Balanced st st
Balanced-self st = record { routed = refl; held = refl }

Balanced-trans : (a b c : Desk × Tally) → Balanced a b → Balanced b c → Balanced a c
Balanced-trans a b c h k = record {
  routed = omega (arith, h.routed, k.routed);
  held = omega (arith, h.held, k.held);
}

abbrev OtherStep : NumberedStep → NumberedStep → Type 0
OtherStep m n = (m.step_number == n.step_number) ≡ false

-- A step that has a row is among the numbers read before the loop.
abbrev Known : Alert → List ℕ → List AlertEscalation → NumberedStep → Type 0
Known a done_before rows n =
    any (has_step a.id n.step_number) rows ≡ true → any (λ k. k == n.step_number) done_before ≡ true

fresh :
    (a : Alert) (done_before : List ℕ) (rows : List AlertEscalation) (n : NumberedStep)
    → Known a done_before rows n
    → any (λ k. k == n.step_number) done_before ≡ false
    → any (has_step a.id n.step_number) rows ≡ false
fresh a done_before rows n h e = elim (Bool-cases (any (has_step a.id n.step_number) rows)) [
  | inl f ↦ absurd (let g = h f in cc)
  | inr f ↦ f
]

Known-later :
    (a : Alert) (done_before : List ℕ) (rows : List AlertEscalation) (r : AlertEscalation)
    (n : NumberedStep) (ns : List NumberedStep)
    → (r.step_number ≡ n.step_number)
    → All (OtherStep n) ns
    → All (Known a done_before rows) ns
    → All (Known a done_before (rows ++ r ∷ [])) ns
Known-later a done_before rows r n [] e d h = tt
Known-later a done_before rows r n (m ∷ ms) e (d, ds) (h, hs) =
    (λ f. h (earlier f), Known-later a done_before rows r n ms e ds hs)
  where
    earlier :
        any (has_step a.id m.step_number) (rows ++ r ∷ []) ≡ true
        → any (has_step a.id m.step_number) rows ≡ true
    earlier f = ground (arith, any-append (has_step a.id m.step_number) rows (r ∷ []))

number_from-later :
    (k n : ℕ) (ss : List EscalationStep)
    → n < k
    → All (λ m. (n == m.step_number) ≡ false) (number_from k ss)
number_from-later k n [] h = tt
number_from-later k n (s ∷ ss) h = (ground arith, number_from-later (suc k) n ss (omega arith))

pub number_from-other : (k : ℕ) (ss : List EscalationStep) → Pairs OtherStep (number_from k ss)
number_from-other k [] = tt
number_from-other k (s ∷ ss) =
    (number_from-later (suc k) k ss (omega arith), number_from-other (suc k) ss)

Known-before :
    (a : Alert) (rows : List AlertEscalation) (n : NumberedStep)
    → Known a (map (λ r. r.step_number) (rows_of a.id rows)) rows n
Known-before a [] n f = absurd (cc)
Known-before a (r ∷ rs) n f = ground (
  arith,
  and-eq-true_iff (r.alert_event_id === a.id) (r.step_number == n.step_number),
  Known-before a rs n,
)

pub create_escalation-new :
    (r : AlertEscalation) (rows : List AlertEscalation)
    → any (has_step r.alert_event_id r.step_number) rows ≡ false
    → create_escalation r rows ≡ rows ++ r ∷ []
unfolding create_escalation
create_escalation-new r rows f = rw f refl

-- A row that is added, and counted by whether it is held back.
Balanced-step :
    (st st' : Desk × Tally) (r : AlertEscalation) (reached : Bool)
    → r.suppressed ≡ reached
    → st'.0.escalations ≡ st.0.escalations ++ r ∷ []
    → st'.1 ≡ (
        if reached
        then record st.1 { suppressed = st.1.suppressed + 1 }
        else record st.1 { escalated = st.1.escalated + 1 })
    → Balanced st st'
Balanced-step st st' r true e rows t = record {
  routed =
      rw (rows, t, count-append (λ x. not x.suppressed) st.0.escalations (r ∷ []), e) (omega arith);
  held = rw (rows, t, count-append (λ x. x.suppressed) st.0.escalations (r ∷ []), e) (omega arith);
}
Balanced-step st st' r false e rows t = record {
  routed =
      rw (rows, t, count-append (λ x. not x.suppressed) st.0.escalations (r ∷ []), e) (omega arith);
  held = rw (rows, t, count-append (λ x. x.suppressed) st.0.escalations (r ∷ []), e) (omega arith);
}

module _ (p : Platform) (lower : String → String) (org_id : String) (now : ℕ) where
  escalate_step-Balanced :
      (quiet : QuietHours) (a : Alert) (n : NumberedStep) (st : Desk × Tally)
      → any (has_step a.id n.step_number) st.0.escalations ≡ false
      → Balanced st (escalate_step p lower org_id now quiet a n st)
  escalate_step-Balanced quiet a n st f =
      let (held, reason, rows, t) = escalate_step-rows p lower org_id now quiet a n st in
      Balanced-step st _ _ held refl (rows ∙ create_escalation-new _ st.0.escalations f) t

  escalate_step-new :
      (quiet : QuietHours) (a : Alert) (n : NumberedStep) (st : Desk × Tally)
      → any (has_step a.id n.step_number) st.0.escalations ≡ false
      → (r : AlertEscalation) × (r.step_number ≡ n.step_number)
        × ((escalate_step p lower org_id now quiet a n st).0.escalations
            ≡ st.0.escalations ++ r ∷ [])
  escalate_step-new quiet a n st f =
      let (held, reason, rows, _) = escalate_step-rows p lower org_id now quiet a n st in
      (_, refl, rows ∙ create_escalation-new _ st.0.escalations f)

  escalate_steps-Balanced :
      (quiet : QuietHours) (a : Alert) (done_before : List ℕ) (ns : List NumberedStep)
      (st : Desk × Tally)
      → Pairs OtherStep ns
      → All (Known a done_before st.0.escalations) ns
      → Balanced st (escalate_steps p lower org_id now quiet a done_before ns st)
  unfolding escalate_steps
  escalate_steps-Balanced quiet a done_before [] st d h = Balanced-self st
  escalate_steps-Balanced quiet a done_before (n ∷ ns) st (d, ds) (h, hs) =
      elim (Bool-cases (any (λ k. k == n.step_number) done_before)) [
        | inl e ↦ rw e (escalate_steps-Balanced quiet a done_before ns st ds hs)
        | inr e ↦
            let f = fresh a done_before st.0.escalations n h e in
            let (r, same_step, rows) = escalate_step-new quiet a n st f in
            rw e (
              Balanced-trans st (escalate_step p lower org_id now quiet a n st) _
                (escalate_step-Balanced quiet a n st f)
                (escalate_steps-Balanced quiet a done_before ns _ ds
                  (rw rows (Known-later a done_before st.0.escalations r n ns same_step d hs))))
      ]

module _ (p : Platform) (lower : String → String) (org_id : String) (now : ℕ)
    (options : ScanOptions) (q : EscalationPolicy) (steps : List EscalationStep) where
  scan_alert-Balanced :
      (a : Alert) (st : Desk × Tally)
      → Balanced st (scan_alert p lower org_id now options q steps a st)
  unfolding scan_alert
  scan_alert-Balanced a (s, t) =
      elim (Bool-cases (leb (length (due_steps p lower org_id now options q steps a)) 0)) [
        | inl e ↦ rw e (Balanced-self (s, t))
        | inr e ↦
            elim (Bool-cases (not options.force && cooling now (rows_of a.id s.escalations))) [
              | inl c ↦ rw (e, c) (Balanced-self (s, t))
              | inr c ↦
                  rw (e, c)
                    (escalate_steps-Balanced p lower org_id now q.quiet a _
                      (due_steps p lower org_id now options q steps a) (s, t)
                      (Pairs-keep OtherStep _ (number_from 1 steps) (number_from-other 1 steps))
                      (All-mem _ (λ n m. Known-before a s.escalations n)))
            ]
      ]

  pub scan_alerts-Balanced :
      (alerts : List Alert) (st : Desk × Tally)
      → Balanced st (scan_alerts p lower org_id now options q steps alerts st)
  unfolding scan_alerts
  scan_alerts-Balanced [] st = Balanced-self st
  scan_alerts-Balanced (a ∷ as_) st =
      Balanced-trans st _ _ (scan_alert-Balanced a st) (scan_alerts-Balanced as_ _)

-- The pair of alert and step is unique in the table.
abbrev pub OtherKey : AlertEscalation → AlertEscalation → Type 0
OtherKey r x = has_step x.alert_event_id x.step_number r ≡ false

create_escalation-OtherKey :
    (r : AlertEscalation) (rows : List AlertEscalation)
    → Pairs OtherKey rows
    → Pairs OtherKey (create_escalation r rows)
unfolding create_escalation
create_escalation-OtherKey r rows h =
    elim (Bool-cases (any (has_step r.alert_event_id r.step_number) rows)) [
      | inl e ↦ rw e h
      | inr e ↦ rw e (
          Pairs-concat OtherKey rows r h
            (any-false-All (has_step r.alert_event_id r.step_number) rows e))
    ]

module _ (p : Platform) (lower : String → String) where
  pub run_escalation_scan_for_org-OtherKey :
      (s : Desk) (org_id new_id : String) (now : ℕ) (options : ScanOptions)
      → Pairs OtherKey s.escalations
      → Pairs OtherKey
          (run_escalation_scan_for_org p lower s org_id new_id now options).0.escalations
  run_escalation_scan_for_org-OtherKey s org_id new_id now options h =
      run_escalation_scan_for_org_ind (λ st. Pairs OtherKey st.0.escalations) p lower s org_id
        new_id now options
        (λ a n st _ _ k.
          let (held, reason, e, _) =
            escalate_step-rows p lower org_id now (policy_for s org_id new_id).quiet a n st in
          rw e (create_escalation-OtherKey _ st.0.escalations k))
        (λ l. h)

  run_escalation_scan_for_org-Balanced :
      (s : Desk) (org_id new_id : String) (now : ℕ) (options : ScanOptions)
      → (l : List EscalationPolicy) × Balanced
          (nothing_counted s l)
          (tallied (run_escalation_scan_for_org p lower s org_id new_id now options))
  run_escalation_scan_for_org-Balanced s org_id new_id now options =
      let (l, c) = run_escalation_scan_for_org-cases p lower s org_id new_id now options in
      elim c [
        | inl e ↦ (l, rw e (Balanced-self (nothing_counted s l)))
        | inr e ↦ (l, rw e (scan_alerts-Balanced p lower org_id now options _ _ _ _))
      ]

module _ (p : Platform) (lower : String → String) (now : ℕ) (new_id : String) where
  scan_orgs-counts :
      (org_ids : List String) (st : Desk × ScanResult)
      → Pairs OtherKey st.0.escalations
      → let st' = scan_orgs p lower now new_id org_ids st in
        Pairs OtherKey st'.0.escalations × Balanced (tallied st) (tallied st')
  unfolding scan_orgs
  scan_orgs-counts [] st h = (h, Balanced-self (tallied st))
  scan_orgs-counts (org_id ∷ org_ids) (s, t) h =
      let (l, b) = run_escalation_scan_for_org-Balanced p lower s org_id new_id now no_options in
      let (u, c) =
        scan_orgs-counts org_ids _
          (run_escalation_scan_for_org-OtherKey p lower s org_id new_id now no_options h) in
      (
        u,
        record { routed = omega (arith, b.routed, c.routed); held = omega (arith, b.held, c.held) },
      )

-- A scan of all organisations leaves at most one row for each step of an alert, and it adds just as
-- many rows as it answers: the rows of routed steps grow by the number of escalated steps, those of
-- steps that are held back by the number of suppressed ones.
pub run_escalation_scan-counts :
    (p : Platform) (lower : String → String) (now : ℕ) (new_id : String) (s : Desk)
    → Pairs OtherKey s.escalations
    → let (s', r, _) = run_escalation_scan p lower now new_id s in
      Pairs OtherKey s'.escalations
      × (count (λ x. not x.suppressed) s'.escalations
          ≡ count (λ x. not x.suppressed) s.escalations + r.escalated)
      × (count (λ x. x.suppressed) s'.escalations
          ≡ count (λ x. x.suppressed) s.escalations + r.suppressed)
unfolding run_escalation_scan
run_escalation_scan-counts p lower now new_id s h =
    let (u, b) =
      scan_orgs-counts p lower now new_id
        (map (λ q. q.org_id) (keep (λ q. q.is_enabled) s.policies))
        (s, record { total_processed = 0; escalated = 0; suppressed = 0 }) h in
    (u, omega (arith, b.routed), omega (arith, b.held))
