-- ===== src/Alerts/Bursts.antt =====
-- How often failures raise an alert.
use kritvia_global_dashboard.Alerts.{Alert}
use kritvia_global_dashboard.Alerts.Spikes.{
  AlertFailureMeta, AlertRule, Failure, Watch, apply_auto_mitigation, count_in_window, counter_of,
  disable_webhook, ensure_default_rules_for_org, joined, next_window, pause_app_install,
  raise_alert, raised_alert, recent_alert, record_all, record_failure, rule_for, set_counter,
  window_of,
}
use kritvia_global_dashboard.Base.{
  All, All-map, Bool-cases, List, Option, Option-cases, Pairs, Pairs-concat, String, [], ap, arith,
  eq_iff, false, find, find_none-All, inl, inr, is_some, length, ltb, refl, ℕ, ◌++◌, ◌+◌, ◌-◌, ◌<◌,
  ◌∷◌, ◌≡◌, ◌⊎◌,
}

-- What a mitigation leaves alone.
pub apply_auto_mitigation-kept :
    (s : Watch) (org_id : String) (chosen : Option String) (meta : AlertFailureMeta) (now : ℕ)
    → let s' = (apply_auto_mitigation s org_id chosen meta now).0 in
      (s'.desk.alerts ≡ s.desk.alerts) × (s'.counter_state ≡ s.counter_state) × (s'.rules ≡ s.rules)
unfolding apply_auto_mitigation disable_webhook pause_app_install
apply_auto_mitigation-kept s org_id chosen meta now = ground arith

-- Two alerts of one organisation and type, the earlier first, are more than a minute apart.
abbrev pub Apart : Alert → Alert → Type 0
Apart a b = a.org_id ≡ b.org_id → a.type ≡ b.type → a.created_at + 60000 < b.created_at

module _ (upper : String → String) where
  -- How counting a failure ends: the counter and the rules in any case, and an alert only if
  -- enough failures stand in the window and no alert does.
  pub record Counted (r : AlertRule) (f : Failure) (s : Watch) (s' : Watch) : Type 0 where
    pub counter :
        s'.counter_state
        ≡ set_counter
            (joined f.org_id f.type)
            (next_window (window_of r) f.now (counter_of (joined f.org_id f.type) s.counter_state))
            s.counter_state
    pub same_rules : s'.rules ≡ s.rules
    pub alerts :
        (s'.desk.alerts ≡ s.desk.alerts)
        ⊎ ((s'.desk.alerts
              ≡ s.desk.alerts ++ raised_alert r f.org_id f.type f.new_alert_id f.now ∷ [])
            × (ltb
                  (length (
                    next_window
                      (window_of r)
                      f.now
                      (counter_of (joined f.org_id f.type) s.counter_state)))
                  r.threshold_count
                ≡ false)
            × (is_some (find (recent_alert f.org_id f.type (f.now - window_of r)) s.desk.alerts)
                ≡ false))

  pub count_in_window-Counted :
      (r : AlertRule) (f : Failure) (s : Watch) → Counted r f s (count_in_window upper r f s)
  unfolding count_in_window raise_alert
  count_in_window-Counted r f s =
      let key = joined f.org_id f.type in
      let times = next_window (window_of r) f.now (counter_of key s.counter_state) in
      let counted = record s { counter_state = set_counter key times s.counter_state } in
      let (same_alerts, same_counter, same_rules) =
        apply_auto_mitigation-kept counted f.org_id r.auto_mitigation f.meta f.now in
      elim (Bool-cases (ltb (length times) r.threshold_count)) [
        | inl e ↦
            rw (e, count_in_window)
              (record { counter = refl; same_rules = refl; alerts = inl refl })
        | inr e ↦
            elim (Bool-cases
              (is_some (find (recent_alert f.org_id f.type (f.now - window_of r)) s.desk.alerts))) [
                | inl g ↦
                    rw (e, g, count_in_window)
                      (record { counter = refl; same_rules = refl; alerts = inl refl })
                | inr g ↦
                    rw (e, g, count_in_window)
                      (record {
                        counter = same_counter;
                        same_rules = same_rules;
                        alerts = inr (
                          ap (λ l. l ++ raised_alert r f.org_id f.type f.new_alert_id f.now ∷ [])
                              same_alerts,
                          e,
                          g,
                        );
                      })
              ]
      ]

  Apart-raised :
      (r : AlertRule) (f : Failure) (alerts : List Alert)
      → is_some (find (recent_alert f.org_id f.type (f.now - window_of r)) alerts) ≡ false
      → All (λ a. Apart a (raised_alert r f.org_id f.type f.new_alert_id f.now)) alerts
  Apart-raised r f alerts e =
      All-map (λ a. recent_alert f.org_id f.type (f.now - window_of r) a ≡ false) _ alerts
        (λ a old same_org same_type. ground (arith, eq_iff a.org_id f.org_id, eq_iff a.type f.type))
        (find_none-All (recent_alert f.org_id f.type (f.now - window_of r)) alerts e)

  record_failure-Apart :
      (f : Failure) (s : Watch)
      → Pairs Apart s.desk.alerts
      → Pairs Apart (record_failure upper f s).desk.alerts
  unfolding record_failure
  record_failure-Apart f s h =
      let rules = ensure_default_rules_for_org f.org_id f.new_rule_id s.rules in
      elim (Option-cases (find (rule_for f.org_id f.type) rules)) [
        | inl e ↦ rw (e, record_failure) h
        | inr (r, e) ↦
            rw (e, record_failure)
              (elim (count_in_window-Counted r f (record s { rules = rules })).alerts [
                | inl q ↦ rw q h
                | inr (q, _, g) ↦
                    rw q (Pairs-concat Apart s.desk.alerts _ h (Apart-raised r f s.desk.alerts g))
              ])
      ]

  -- Whatever failures are recorded and in whatever order, two alerts that they raise for one
  -- organisation and type are more than a minute apart, the shortest window of a rule.
  pub record_all-Apart :
      (fs : List Failure) (s : Watch)
      → Pairs Apart s.desk.alerts
      → Pairs Apart (record_all upper fs s).desk.alerts
  unfolding record_all
  record_all-Apart [] s h = h
  record_all-Apart (f ∷ fs) s h = record_all-Apart fs _ (record_failure-Apart f s h)
