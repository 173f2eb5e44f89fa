-- ===== src/Alerts/Rows.antt =====
-- What the rows of the escalation table stand for.
use kritvia_global_dashboard.Alerts.{
  Alert, AlertEscalation, Desk, EscalationPolicy, EscalationStep, QuietHours,
}
use kritvia_global_dashboard.Alerts.Loop.{
  policy_for, run_escalation_scan_for_org_ind, scanned, steps_for,
}
use kritvia_global_dashboard.Alerts.Quiet.{get_suppression_reason}
use kritvia_global_dashboard.Alerts.Scan.{
  NumberedStep, ScanOptions, Tally, create_escalation, due_steps, emails_for, escalate_step,
  has_step, in_scan, is_due, number_from, record_step, route_step, run_escalation_scan_for_org,
  step_uses_on_call,
}
use kritvia_global_dashboard.Alerts.Steps.{get_sla_minutes, is_alert_eligible}
use kritvia_global_dashboard.Base.{
  All, All-concat, All-mem, Bool, Bool-cases, List, Memᴰ, Option, Option-cases, String, [], any,
  arith, eq_iff, false, if◌then◌else◌, inl, inr, leb, length, mem-keep, none, refl, some, true, ℕ,
  ◌&&◌, ◌*◌, ◌+◌, ◌-◌, ◌/◌, ◌∷◌, ◌≡◌, ◌≤◌, ◌⊎◌,
}
use kritvia_global_dashboard.Incidents.Slug.{taken}
use kritvia_global_dashboard.OnCall.{Platform}
use kritvia_global_dashboard.Routing.Jobs.{recent}
use mathlib.Core.Bool.{and-eq-true_iff, false≢true}

-- Why a row is there: an alert that the scan takes up, a step of the policy that is due for it, and
-- the moment of the scan.
pub record Justified (p : Platform) (q : EscalationPolicy) (steps : List EscalationStep) (s : Desk)
    (org_id : String) (now : ℕ) (options : ScanOptions) (r : AlertEscalation) : Type 0 where
  pub a : Alert
  pub n : NumberedStep
  pub alert_there : Memᴰ a s.alerts
  pub own : a.org_id ≡ org_id
  pub unacknowledged : a.is_acknowledged ≡ false
  pub recent : now ≤ a.created_at + 172800000
  pub step_there : Memᴰ n (number_from 1 steps)
  pub severe : is_alert_eligible p.upper a.severity n.step.min_severity ≡ true
  pub late :
      (options.force ≡ true)
      ⊎ ((n.step.after_minutes * 60000 ≤ now - a.created_at)
          × (get_sla_minutes p.upper q.sla a.severity * 60000 ≤ now - a.created_at))
  pub keys : (r.alert_event_id ≡ a.id) × (r.step_number ≡ n.step_number)
  pub written : (r.org_id ≡ org_id) × (r.attempted_at ≡ now)

in_scan-fields :
    (org_id : String) (now : ℕ) (options : ScanOptions) (a : Alert)
    → in_scan org_id now options a ≡ true
    → (a.org_id ≡ org_id) × (a.is_acknowledged ≡ false) × (now ≤ a.created_at + 172800000)
unfolding in_scan
in_scan-fields org_id now options a h = ground (arith, eq_iff a.org_id org_id)

whole_minutes : (k d : ℕ) → leb k (d / 60000) ≡ true → k * 60000 ≤ d
whole_minutes k d h = ground arith

is_due-late :
    (upper : String → String) (q : EscalationPolicy) (options : ScanOptions) (now : ℕ) (a : Alert)
    (n : NumberedStep)
    → is_due upper q options now a n ≡ true
    → (is_alert_eligible upper a.severity n.step.min_severity ≡ true)
      × ((options.force ≡ true)
          ⊎ ((n.step.after_minutes * 60000 ≤ now - a.created_at)
              × (get_sla_minutes upper q.sla a.severity * 60000 ≤ now - a.created_at)))
unfolding is_due
is_due-late upper q options now a n h =
    elim (Bool-cases (is_alert_eligible upper a.severity n.step.min_severity)) [
      | inr e ↦ absurd (false≢true (rw e at h))
      | inl e ↦ elim (Bool-cases options.force) [
        | inl f ↦ (e, inl f)
        | inr f ↦
            let (after_step, after_sla) =
              (and-eq-true_iff (leb n.step.after_minutes ((now - a.created_at) / 60000))
                  (leb (get_sla_minutes upper q.sla a.severity) ((now - a.created_at) / 60000))).0
                (rw (e, f) at h) in
            (e, inr (whole_minutes _ _ after_step, whole_minutes _ _ after_sla))
      ]
    ]

create_escalation-All {κ} :
    (Q : AlertEscalation → Type κ) (r : AlertEscalation) (rows : List AlertEscalation)
    → Q r
    → All Q rows
    → All Q (create_escalation r rows)
unfolding create_escalation
create_escalation-All Q r rows h k =
    elim (Bool-cases (any (has_step r.alert_event_id r.step_number) rows)) [
      | inl e ↦ rw e k
      | inr e ↦ rw e (All-concat Q rows (r ∷ []) k (h, tt))
    ]

module _ (p : Platform) (lower : String → String) (org_id : String) (now : ℕ) where
  -- What one step writes is one row, if it writes one.
  pub escalate_step-rows :
      (quiet : QuietHours) (a : Alert) (n : NumberedStep) (st : Desk × Tally)
      → (held : Bool) × (reason : Option String) × ((escalate_step p lower org_id now quiet a n
            st).0.escalations
          ≡ create_escalation
              (record {
                org_id = org_id;
                alert_event_id = a.id;
                step_number = n.step_number;
                attempted_at = now;
                routed_to = n.step.route_to;
                suppressed = held;
                reason = reason;
              })
              st.0.escalations)
        × ((escalate_step p lower org_id now quiet a n st).1 ≡ (
            if held
            then record st.1 { suppressed = st.1.suppressed + 1 }
            else record st.1 { escalated = st.1.escalated + 1 }))
  unfolding escalate_step record_step route_step
  escalate_step-rows quiet a n (s, t) = elim (Option-cases (get_suppression_reason p quiet now)) [
    | inr (reason, e) ↦
        (true, some reason, rw (e, escalate_step, record_step) refl, rw (e, escalate_step) refl)
    | inl e ↦
        elim (Bool-cases (
          step_uses_on_call n.step.route_to
          && leb (length (emails_for p lower org_id now s n)) 0)) [
            | inl c ↦ (
              true,
              some "NO_ONCALL_COVERAGE",
              rw (e, c, escalate_step, record_step, route_step) refl,
              rw (e, c, escalate_step) refl,
            )
            | inr c ↦ (
              false,
              none,
              rw (e, c, escalate_step, record_step, route_step) refl,
              rw (e, c, escalate_step) refl,
            )
          ]
  ]

-- A row that a scan adds to the escalations is of an alert of the organisation that nobody has
-- acknowledged and that was created within 48 hours, and of a step of the policy that is due for
-- it: severe enough, and late enough for the step and for the severity, unless the scan is forced.
pub run_escalation_scan_for_org-Justified :
    (p : Platform) (lower : String → String) (s : Desk) (org_id new_id : String) (now : ℕ)
    (options : ScanOptions)
    → All
        (λ r.
          Memᴰ r s.escalations
          ⊎ Justified p
              (policy_for s org_id new_id)
              (steps_for p s org_id new_id)
              s
              org_id
              now
              options
              r)
        (run_escalation_scan_for_org p lower s org_id new_id now options).0.escalations
run_escalation_scan_for_org-Justified p lower s org_id new_id now options =
    run_escalation_scan_for_org_ind (λ st. All Known st.0.escalations) p lower s org_id new_id now
      options one_step (λ l. All-mem s.escalations (λ r m. inl m))
  where
    Known : AlertEscalation → Type 0
    Known r =
        Memᴰ r s.escalations
        ⊎ Justified p (policy_for s org_id new_id) (steps_for p s org_id new_id) s org_id now
            options r

    one_step :
        (a : Alert) (n : NumberedStep) (st : Desk × Tally)
        → Memᴰ a (scanned s org_id now options)
        → Memᴰ n (
            due_steps p lower org_id now options
              (policy_for s org_id new_id)
              (steps_for p s org_id new_id)
              a)
        → All Known st.0.escalations
        → All Known
            (escalate_step p lower org_id now
              (policy_for s org_id new_id).quiet
              a
              n
              st).0.escalations
    one_step a n st m k h =
        let (held, reason, e, _) =
          escalate_step-rows p lower org_id now (policy_for s org_id new_id).quiet a n st in
        let (there, taken) = mem-keep (in_scan org_id now options) s.alerts a m in
        let (step_there, due) =
          mem-keep (is_due p.upper (policy_for s org_id new_id) options now a)
            (number_from 1 (steps_for p s org_id new_id)) n k in
        let (own, unacknowledged, recent) = in_scan-fields org_id now options a taken in
        let (severe, late) = is_due-late p.upper (policy_for s org_id new_id) options now a n due in
        rw e (
          create_escalation-All Known _ st.0.escalations
            (inr (record {
              a = a;
              n = n;
              alert_there = there;
              own = own;
              unacknowledged = unacknowledged;
              recent = recent;
              step_there = step_there;
              severe = severe;
              late = late;
              keys = (refl, refl);
              written = (refl, refl);
            }))
            h)
