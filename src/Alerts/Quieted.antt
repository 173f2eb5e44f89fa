-- ===== src/Alerts/Quieted.antt =====
-- What the handlers of the alerts mean for the scans after them.
use kritvia_global_dashboard.Alerts.{Alert, Desk, EscalationPolicy, QuietHours}
use kritvia_global_dashboard.Alerts.Handlers.{
  UpsertEscalationPolicyDto, acknowledge_alert, acknowledged_by,
  build_escalation_policy_update_data, own_alert,
}
use kritvia_global_dashboard.Alerts.Loop.{policy_for, run_escalation_scan_for_org_ind}
use kritvia_global_dashboard.Alerts.Progress.{rows_of-create_escalation}
use kritvia_global_dashboard.Alerts.Quiet.{get_suppression_reason, quiet_between}
use kritvia_global_dashboard.Alerts.Rows.{escalate_step-rows}
use kritvia_global_dashboard.Alerts.Scan.{
  ScanOptions, in_scan, rows_of, run_escalation_scan_for_org,
}
use kritvia_global_dashboard.Base.{
  All, All-update, AuthUserContext, Bool, Bool-cases, List, Option, Outcome, String, Unit-All, [],
  ap, arith, fail, false, find, get_active_org_id, inl, inr, is_some, mem-All, mem-keep, none, not,
  ok, refl, some, sym, true, update, ℕ, ◌&&◌, ◌===◌, ◌∙◌, ◌≡◌, payment_required, not_found,
}
use kritvia_global_dashboard.Incidents.Slug.{taken}
use kritvia_global_dashboard.OnCall.{Platform}

abbrev alerts_in : Outcome (Desk × Option Alert) → List Alert
alerts_in (ok (s, a)) = s.alerts
alerts_in (fail e) = []

acknowledge_alert-alerts :
    (enterprise : String → Bool) (s s' : Desk) (user : AuthUserContext) (id org_id : String)
    (now : ℕ) (answer : Option Alert)
    → get_active_org_id user ≡ ok org_id
    → acknowledge_alert enterprise s user id now ≡ ok (s', answer)
    → s'.alerts
      ≡ update
          (λ a. own_alert id org_id a && not a.is_acknowledged)
          (acknowledged_by user.user_id now)
          s.alerts
unfolding acknowledge_alert
acknowledge_alert-alerts enterprise s s' user id org_id now answer e h =
    elim (Bool-cases (enterprise org_id)) [
      | inr f ↦
          let q : acknowledge_alert enterprise s user id now ≡ fail payment_required =
            rw (e, f, acknowledge_alert) refl in
          absurd (cc)
      | inl f ↦ elim (Bool-cases (is_some (find (own_alert id org_id) s.alerts))) [
        | inr g ↦
            let q : acknowledge_alert enterprise s user id now ≡ fail not_found =
              rw (e, f, g, acknowledge_alert) refl in
            absurd (cc)
        | inl g ↦
            let q : alerts_in (acknowledge_alert enterprise s user id now)
                ≡ update (λ a. own_alert id org_id a && not a.is_acknowledged)
                    (acknowledged_by user.user_id now) s.alerts =
              rw (e, f, g, acknowledge_alert) refl in
            ap alerts_in (sym h) ∙ q
      ]
    ]

-- Of the organisation and with the identifier, every alert is acknowledged.
abbrev Quieted : String → String → Alert → Type 0
Quieted id org_id a = own_alert id org_id a ≡ true → a.is_acknowledged ≡ true

Quieted-update :
    (id org_id user_id : String) (now : ℕ) (alerts : List Alert)
    → All (Quieted id org_id) (
        update
          (λ a. own_alert id org_id a && not a.is_acknowledged)
          (acknowledged_by user_id now)
          alerts)
Quieted-update id org_id user_id now alerts =
    All-update (λ a. Unit {0}) (λ a. own_alert id org_id a && not a.is_acknowledged)
      (acknowledged_by user_id now) (Quieted id org_id) alerts (λ a _ own. ground arith)
      (Unit-All alerts)

not-Quieted :
    (id org_id : String) (now : ℕ) (options : ScanOptions) (a : Alert)
    → Quieted id org_id a
    → in_scan org_id now options a ≡ true
    → (a.id === id) ≡ false
unfolding in_scan
not-Quieted id org_id now options a h taken = elim (Bool-cases (a.id === id)) [
  | inr e ↦ e
  | inl e ↦ ground arith
]

-- A scan of the tables that the acknowledgement of an alert leaves, at whatever time, forced or not,
-- adds no row of the escalation for this alert.
pub acknowledge_alert-scan :
    (enterprise : String → Bool) (p : Platform) (lower : String → String) (s s' : Desk)
    (user : AuthUserContext) (id org_id new_id : String) (now later : ℕ) (answer : Option Alert)
    (options : ScanOptions)
    → get_active_org_id user ≡ ok org_id
    → acknowledge_alert enterprise s user id now ≡ ok (s', answer)
    → rows_of id (run_escalation_scan_for_org p lower s' org_id new_id later options).0.escalations
      ≡ rows_of id s'.escalations
acknowledge_alert-scan enterprise p lower s s' user id org_id new_id now later answer options e h =
    run_escalation_scan_for_org_ind (λ st. rows_of id st.0.escalations ≡ rows_of id s'.escalations)
      p lower s' org_id new_id later options
      (λ a n st m _ k.
        let (there, up) = mem-keep (in_scan org_id later options) s'.alerts a m in
        let (held, reason, rows, _) =
          escalate_step-rows p lower org_id later (policy_for s' org_id new_id).quiet a n st in
        rw rows (
          rows_of-create_escalation id _ st.0.escalations
            (not-Quieted id org_id later options a (mem-All (Quieted id org_id) there quieted) up)
          ∙ k))
      (λ l. refl)
  where
    quieted : All (Quieted id org_id) s'.alerts
    quieted =
        rw (acknowledge_alert-alerts enterprise s s' user id org_id now answer e h)
          (Quieted-update id org_id user.user_id now s.alerts)

get_suppression_reason-no_hours :
    (p : Platform) (q : QuietHours) (now : ℕ)
    → q.business_days_only ≡ false
    → q.quiet_hours_start ≡ none
    → get_suppression_reason p q now ≡ none
unfolding get_suppression_reason quiet_between
get_suppression_reason-no_hours p q now e f = elim (Bool-cases q.quiet_hours_enabled) [
  | inl g ↦ rw (e, f, g) refl
  | inr g ↦ rw (e, f, g) refl
]

-- A policy that has no start of its quiet hours may be told to keep quiet hours, with no start, no
-- end and no limit to business days: the update is accepted, and stores quiet hours as enabled, but
-- for the policy that it stores no moment is a reason to suppress a step.
pub build_escalation_policy_update_data-no_hours :
    (upper : String → String) (p : Platform) (dto : UpsertEscalationPolicyDto)
    (q : EscalationPolicy)
    → dto.quiet_hours_enabled ≡ some true
    → dto.quiet_hours_start ≡ none
    → dto.quiet_hours_end ≡ none
    → dto.business_days_only ≡ some false
    → q.quiet.quiet_hours_start ≡ none
    → (q' : EscalationPolicy) × (build_escalation_policy_update_data upper dto q ≡ ok q')
      × (q'.quiet.quiet_hours_enabled ≡ true)
      × ((now : ℕ) → get_suppression_reason p q'.quiet now ≡ none)
unfolding build_escalation_policy_update_data
build_escalation_policy_update_data-no_hours upper p dto q e a b c d =
    rw (e, a, b, c, d) (_, refl, refl, λ now. get_suppression_reason-no_hours p _ now refl refl)
