-- ===== src/Alerts/Silence.antt =====
-- What a policy does not let out.
use kritvia_global_dashboard.Alerts.{Alert, Desk, QuietHours}
use kritvia_global_dashboard.Alerts.Loop.{policy_for, run_escalation_scan_for_org_ind}
use kritvia_global_dashboard.Alerts.Quiet.{get_suppression_reason}
use kritvia_global_dashboard.Alerts.Scan.{
  NumberedStep, ScanOptions, Tally, escalate_step, record_step, run_escalation_scan_for_org,
}
use kritvia_global_dashboard.Base.{List, String, refl, some, ℕ, ◌≡◌}
use kritvia_global_dashboard.OnCall.{Platform}
use kritvia_global_dashboard.Routing.Jobs.{DeliveryJob}

module _ (p : Platform) (lower : String → String) (org_id : String) (now : ℕ) where
  escalate_step_quiet :
      (quiet : QuietHours) (a : Alert) (n : NumberedStep) (st : Desk × Tally) (reason : String)
      {before : List DeliveryJob}
      → get_suppression_reason p quiet now ≡ some reason
      → (st.0.jobs ≡ before) × (st.1.escalated ≡ 0)
      → let (s', t) = escalate_step p lower org_id now quiet a n st in
        (s'.jobs ≡ before) × (t.escalated ≡ 0)
  unfolding escalate_step record_step
  escalate_step_quiet quiet a n (s, t) reason e h = rw (e, escalate_step, record_step) h

-- While the policy holds its steps back, on quiet hours or days that are no business days, a scan
-- routes no alert and counts no step as escalated.
pub run_escalation_scan_for_org_quiet :
    (p : Platform) (lower : String → String) (s : Desk) (org_id new_id : String) (now : ℕ)
    (options : ScanOptions) (reason : String)
    → get_suppression_reason p (policy_for s org_id new_id).quiet now ≡ some reason
    → let (s', r) = run_escalation_scan_for_org p lower s org_id new_id now options in
      (s'.jobs ≡ s.jobs) × (r.escalated ≡ 0)
run_escalation_scan_for_org_quiet p lower s org_id new_id now options reason e =
    run_escalation_scan_for_org_ind (λ st. (st.0.jobs ≡ s.jobs) × (st.1.escalated ≡ 0)) p lower s
      org_id new_id now options (λ a n st m k h. held a n st h) (λ l. (refl, refl))
  where
    held :
        (a : Alert) (n : NumberedStep) (st : Desk × Tally)
        → (st.0.jobs ≡ s.jobs) × (st.1.escalated ≡ 0)
        → let (s', t) =
            escalate_step p lower org_id now (policy_for s org_id new_id).quiet a n st in
          (s'.jobs ≡ s.jobs) × (t.escalated ≡ 0)
    held a n st h = escalate_step_quiet p lower org_id now _ a n st reason e h
