-- ===== src/Alerts/Loop.antt =====
-- Induction over the loops of the escalation scan.
use kritvia_global_dashboard.Alerts.{Alert, Desk, EscalationPolicy, EscalationStep, QuietHours}
use kritvia_global_dashboard.Alerts.Scan.{
  NumberedStep, ScanOptions, ScanResult, Tally, cooling, default_policy, due_steps,
  ensure_escalation_policy_for_org, escalate_step, escalate_steps, in_scan, rows_of,
  run_escalation_scan_for_org, scan_alert, scan_alerts,
}
use kritvia_global_dashboard.Alerts.Steps.{normalize_escalation_steps}
use kritvia_global_dashboard.Base.{
  Bool-cases, List, Memᴰ, Option-cases, String, [], any, false, find, inl, inr, keep, leb, length,
  not, refl, true, ℕ, ◌&&◌, ◌++◌, ◌===◌, ◌==◌, ◌∷◌, ◌≡◌, ◌⊎◌,
}
use kritvia_global_dashboard.Incidents.Changes.{step}
use kritvia_global_dashboard.OnCall.{Platform}

module _ {κ} (P : Desk × Tally → Type κ) where
  module _ (p : Platform) (lower : String → String) (org_id : String) (now : ℕ) where
    pub escalate_steps_ind :
        (quiet : QuietHours) (a : Alert) (done_before : List ℕ) (ns : List NumberedStep)
        (st : Desk × Tally)
        → ((n : NumberedStep) (st : Desk × Tally)
            → Memᴰ n ns
            → P st
            → P (escalate_step p lower org_id now quiet a n st))
        → P st
        → P (escalate_steps p lower org_id now quiet a done_before ns st)
    unfolding escalate_steps
    escalate_steps_ind quiet a done_before [] st step h = h
    escalate_steps_ind quiet a done_before (n ∷ ns) st step h =
        elim (Bool-cases (any (λ k. k == n.step_number) done_before)) [
          | inl e ↦
              rw e
                (escalate_steps_ind quiet a done_before ns st (λ k t m. step k t (Memᴰ.tail m)) h)
          | inr e ↦ rw e (
              escalate_steps_ind quiet a done_before ns _ (λ k t m. step k t (Memᴰ.tail m))
                (step n st (Memᴰ.head refl) h))
        ]

  module _ (p : Platform) (lower : String → String) (org_id : String) (now : ℕ)
      (options : ScanOptions) (q : EscalationPolicy) (steps : List EscalationStep) where
    pub scan_alert_ind :
        (a : Alert) (st : Desk × Tally)
        → ((n : NumberedStep) (st : Desk × Tally)
            → Memᴰ n (due_steps p lower org_id now options q steps a)
            → P st
            → P (escalate_step p lower org_id now q.quiet a n st))
        → P st
        → P (scan_alert p lower org_id now options q steps a st)
    unfolding scan_alert
    scan_alert_ind a (s, t) step h =
        elim (Bool-cases (leb (length (due_steps p lower org_id now options q steps a)) 0)) [
          | inl e ↦ rw e h
          | inr e ↦
              elim (Bool-cases (not options.force && cooling now (rows_of a.id s.escalations))) [
                | inl c ↦ rw (e, c) h
                | inr c ↦
                    rw (e, c) (escalate_steps_ind p lower org_id now q.quiet a _ _ (s, t) step h)
              ]
        ]

    pub scan_alerts_ind :
        (alerts : List Alert) (st : Desk × Tally)
        → ((a : Alert) (n : NumberedStep) (st : Desk × Tally)
            → Memᴰ a alerts
            → Memᴰ n (due_steps p lower org_id now options q steps a)
            → P st
            → P (escalate_step p lower org_id now q.quiet a n st))
        → P st
        → P (scan_alerts p lower org_id now options q steps alerts st)
    unfolding scan_alerts
    scan_alerts_ind [] st step h = h
    scan_alerts_ind (a ∷ as_) st step h =
        scan_alerts_ind as_ _ (λ b n t m. step b n t (Memᴰ.tail m))
          (scan_alert_ind a st (λ n t. step a n t (Memᴰ.head refl)) h)

-- What a scan of an organisation ends with, as the state of its loop.
abbrev pub tallied : Desk × ScanResult → Desk × Tally
tallied (s, r) = (s, record { escalated = r.escalated; suppressed = r.suppressed })

abbrev pub policy_for : Desk → String → String → EscalationPolicy
policy_for s org_id new_id = (ensure_escalation_policy_for_org s org_id new_id).1

abbrev pub steps_for : Platform → Desk → String → String → List EscalationStep
steps_for p s org_id new_id = normalize_escalation_steps p.upper (policy_for s org_id new_id).steps

abbrev pub scanned : Desk → String → ℕ → ScanOptions → List Alert
scanned s org_id now options = keep (in_scan org_id now options) s.alerts

pub ensure_escalation_policy_for_org-desk :
    (s : Desk) (org_id new_id : String)
    → (l : List EscalationPolicy) × ((ensure_escalation_policy_for_org s org_id new_id).0
        ≡ record s { policies = l })
unfolding ensure_escalation_policy_for_org
ensure_escalation_policy_for_org-desk s org_id new_id =
    elim (Option-cases (find (λ q. q.org_id === org_id) s.policies)) [
      | inl e ↦ (
        s.policies ++ default_policy new_id org_id ∷ [],
        rw (e, ensure_escalation_policy_for_org) refl,
      )
      | inr (q, e) ↦ (s.policies, rw (e, ensure_escalation_policy_for_org) refl)
    ]

abbrev pub nothing_counted : Desk → List EscalationPolicy → Desk × Tally
nothing_counted s l = (record s { policies = l }, record { escalated = 0; suppressed = 0 })

module _ (p : Platform) (lower : String → String) where
  -- A scan of an organisation does nothing, or runs its loop; it may have added a policy.
  pub run_escalation_scan_for_org-cases :
      (s : Desk) (org_id new_id : String) (now : ℕ) (options : ScanOptions)
      → (l : List EscalationPolicy) × ((tallied
              (run_escalation_scan_for_org p lower s org_id new_id now options)
            ≡ nothing_counted s l)
          ⊎ (tallied (run_escalation_scan_for_org p lower s org_id new_id now options)
              ≡ scan_alerts p lower org_id now options
                  (policy_for s org_id new_id)
                  (steps_for p s org_id new_id)
                  (scanned s org_id now options)
                  (nothing_counted s l)))
  unfolding run_escalation_scan_for_org
  run_escalation_scan_for_org-cases s org_id new_id now options =
      let (l, e) = ensure_escalation_policy_for_org-desk s org_id new_id in
      elim (Bool-cases (policy_for s org_id new_id).is_enabled) [
        | inr off ↦ (l, inl (rw (off, e, run_escalation_scan_for_org) refl))
        | inl on ↦ elim (Bool-cases (leb (length (steps_for p s org_id new_id)) 0)) [
          | inl empty ↦ (l, inl (rw (on, empty, e, run_escalation_scan_for_org) refl))
          | inr some_step ↦ (l, inr (rw (on, some_step, e, run_escalation_scan_for_org) refl))
        ]
      ]

  -- It runs the loop if the policy is enabled and has a step.
  pub run_escalation_scan_for_org-runs :
      (s : Desk) (org_id new_id : String) (now : ℕ) (options : ScanOptions)
      → (policy_for s org_id new_id).is_enabled ≡ true
      → leb (length (steps_for p s org_id new_id)) 0 ≡ false
      → (l : List EscalationPolicy) × (tallied
            (run_escalation_scan_for_org p lower s org_id new_id now options)
          ≡ scan_alerts p lower org_id now options
              (policy_for s org_id new_id)
              (steps_for p s org_id new_id)
              (scanned s org_id now options)
              (nothing_counted s l))
  unfolding run_escalation_scan_for_org
  run_escalation_scan_for_org-runs s org_id new_id now options on some_step =
      let (l, e) = ensure_escalation_policy_for_org-desk s org_id new_id in
      (l, rw (on, some_step, e, run_escalation_scan_for_org) refl)

module _ {κ} (P : Desk × Tally → Type κ) (p : Platform) (lower : String → String) where
  pub run_escalation_scan_for_org_ind :
      (s : Desk) (org_id new_id : String) (now : ℕ) (options : ScanOptions)
      → ((a : Alert) (n : NumberedStep) (st : Desk × Tally)
          → Memᴰ a (scanned s org_id now options)
          → Memᴰ n (
              due_steps p lower org_id now options
                (policy_for s org_id new_id)
                (steps_for p s org_id new_id)
                a)
          → P st
          → P (escalate_step p lower org_id now (policy_for s org_id new_id).quiet a n st))
      → ((l : List EscalationPolicy) → P (nothing_counted s l))
      → P (tallied (run_escalation_scan_for_org p lower s org_id new_id now options))
  run_escalation_scan_for_org_ind s org_id new_id now options each h =
      let (l, c) = run_escalation_scan_for_org-cases p lower s org_id new_id now options in
      elim c [
        | inl e ↦ rw e (h l)
        | inr e ↦ rw e (
            scan_alerts_ind P p lower org_id now options (policy_for s org_id new_id)
              (steps_for p s org_id new_id) (scanned s org_id now options) (nothing_counted s l)
              each (h l))
      ]
