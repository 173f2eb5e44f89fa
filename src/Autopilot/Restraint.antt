-- ===== src/Autopilot/Restraint.antt =====
-- What the autopilot does not do by itself.
use kritvia_global_dashboard.Autopilot.{
  AutoStatus, AutopilotPolicy, Pilot, PilotSetting, RiskDriver,
}
use kritvia_global_dashboard.Autopilot.Conditions.{
  evaluate_condition, map_driver_entity_type, requires_approval, resolve_autopilot_actor,
}
use kritvia_global_dashboard.Autopilot.Evaluate.{
  PilotIds, Round, below_threshold, evaluate_and_execute, executed_recently, first_run, fix_dto,
  held_options, is_executed, needs_approval, policy_applies, settle_run, trigger_run, try_policies,
  try_policy, with_preview,
}
use kritvia_global_dashboard.Base.{
  >>-eq-ok, >>=-eq-ok, All, AuthUserContext, Bool, Bool-cases, List, Memᴰ, Option-cases,
  Outcome-cases, String, [], arith, count, false, find, find-mem, get_active_org_id, inl, inr, keep,
  leb, mem-All, not, ok, or_throw, or_throw-eq-ok, refl, require, service_unavailable, true, ℕ,
  ◌&&◌, ◌++◌, ◌∙◌, ◌∷◌, ◌≡◌, ◌≤◌, ◌⊎◌, conflict, not_found, forbidden, bad_request,
}
use kritvia_global_dashboard.Fixes.{FixActionTemplate, Setting, Shop, log_fix}
use kritvia_global_dashboard.Fixes.Service.{
  CreateFixActionRunDto, RunAnswer, RunOptions, assert_entity_in_org, assert_template_entity_match,
  check_run, create_run, has_key, key_for, nudge_known, own_template, place_run, preview_run,
  role_in, under_rate_limit,
}

-- The tables that an action changes, and the templates, are as they were.
pub record Untouched (s s' : Shop) : Type 0 where
  pub work_items : s'.work_items ≡ s.work_items
  pub invoices : s'.invoices ≡ s.invoices
  pub incidents : s'.incidents ≡ s.incidents
  pub nudges : s'.nudges ≡ s.nudges
  pub templates : s'.templates ≡ s.templates

Untouched-self : (s : Shop) → Untouched s s
Untouched-self s = record {
  work_items = refl;
  invoices = refl;
  incidents = refl;
  nudges = refl;
  templates = refl;
}

Untouched-trans : (a b c : Shop) → Untouched a b → Untouched b c → Untouched a c
Untouched-trans a b c h k = record {
  work_items = k.work_items ∙ h.work_items;
  invoices = k.invoices ∙ h.invoices;
  incidents = k.incidents ∙ h.incidents;
  nudges = k.nudges ∙ h.nudges;
  templates = k.templates ∙ h.templates;
}

Untouched-log :
    (org_id actor entity_id action : String) (a s : Shop)
    → Untouched a s
    → Untouched a (log_fix org_id actor entity_id action s)
Untouched-log org_id actor entity_id action a s h = record {
  work_items = h.work_items;
  invoices = h.invoices;
  incidents = h.incidents;
  nudges = h.nudges;
  templates = h.templates;
}

abbrev Confirms : FixActionTemplate → Type 0
Confirms t = t.requires_confirmation ≡ true

module _ (o : Setting) (now : ℕ) (new_id nudge_id : String) (user : AuthUserContext)
    (dto : CreateFixActionRunDto) (options : RunOptions) where
  -- A run that is held back is only placed.
  place_run-Untouched :
      (org_id : String) (t : FixActionTemplate) (s : Shop)
      → (not t.requires_confirmation && not options.skip_auto_execute && not options.force_pending)
        ≡ false
      → Untouched s (place_run o now new_id nudge_id user dto options org_id t s).0
  unfolding place_run
  place_run-Untouched org_id t s h =
      elim (Option-cases (find (has_key org_id (key_for o org_id t.key dto)) s.runs)) [
        | inr (r, e) ↦ rw (e, place_run) (Untouched-self s)
        | inl e ↦
            rw (e, h, place_run)
              (record {
                work_items = refl;
                invoices = refl;
                incidents = refl;
                nudges = refl;
                templates = refl;
              })
      ]

  check_run-template :
      (s : Shop) (org_id : String) (t : FixActionTemplate)
      → check_run o now user dto s ≡ ok (org_id, t)
      → Memᴰ t s.templates
  unfolding check_run
  check_run-template s org_id t e =
      let (_, e1) = >>-eq-ok (require o.feature_fix_actions service_unavailable) _ (org_id, t) e in
      let (org, _, e2) = >>=-eq-ok (get_active_org_id user) _ (org_id, t) e1 in
      let (_, e3) = >>-eq-ok (require (under_rate_limit s org now) conflict) _ (org_id, t) e2 in
      let (x, e4, e5) =
        >>=-eq-ok (or_throw (find (own_template org dto.template_key) s.templates) not_found) _
          (org_id, t) e3 in
      let (_, e6) =
        >>-eq-ok (require (role_in user.role x.allowed_roles) forbidden) _ (org_id, t) e5 in
      let (_, e7) =
        >>-eq-ok (require (assert_template_entity_match x.key dto.entity_type) bad_request) _
          (org_id, t) e6 in
      let (_, e8) =
        >>-eq-ok (assert_entity_in_org s org dto.entity_type dto.entity_id) (ok (org, x))
          (org_id, t) e7 in
      let one_template : x ≡ t = ground arith in
      rw (← one_template)
        (find-mem (own_template org dto.template_key) s.templates x
          (or_throw-eq-ok _ not_found x e4)).0

  create_run-Untouched :
      (s : Shop)
      → ((t : FixActionTemplate)
          → Memᴰ t s.templates
          → (not t.requires_confirmation
              && not options.skip_auto_execute
              && not options.force_pending)
            ≡ false)
      → Untouched s (create_run o now new_id nudge_id user dto options s).0
  unfolding create_run
  create_run-Untouched s h = elim (Outcome-cases (check_run o now user dto s)) [
    | inr (x, e) ↦ rw (e, create_run) (Untouched-self s)
    | inl ((org_id, t), e) ↦ elim (Bool-cases (nudge_known s org_id dto.nudge_id)) [
      | inr f ↦ rw (e, f, create_run) (Untouched-self s)
      | inl f ↦
          rw (e, f, create_run)
            (place_run-Untouched org_id t s (h t (check_run-template s org_id t e)))
    ]
  ]

requires_approval_high : (n : ℕ) (auto : Bool) → 85 ≤ n → requires_approval n auto ≡ true
unfolding requires_approval
requires_approval_high n auto h = ground arith

-- Why an evaluation holds back: its approval is needed, or the switch is on and each template asks
-- for a confirmation.
abbrev pub Held : PilotSetting → Bool → Shop → Type 0
Held o needed s = (needed ≡ true) ⊎ ((o.kill_switch ≡ true) × All Confirms s.templates)

module _ (o : PilotSetting) (c : Round) (q : AutopilotPolicy) (ids : PilotIds) where
  abbrev Idle : Shop → Pilot × AutoStatus → Type 0
  Idle s (s', status) = Untouched s s'.shop × (is_executed status ≡ false)

  settle_run-Idle :
      (a : RunAnswer) (s : Pilot)
      → (needs_approval o c q ids ≡ true) ⊎ (o.kill_switch ≡ true)
      → Idle s.shop (settle_run o c q ids a s)
  unfolding settle_run
  settle_run-Idle a s h = elim (Bool-cases (needs_approval o c q ids)) [
    | inl e ↦ rw (e, settle_run) (twice _ _ _ _ _ _ _ _, refl)
    | inr e ↦ rw (e, switched h e, settle_run) (twice _ _ _ _ _ _ _ _, refl)
  ]
    where
      twice :
          (x1 x2 x3 x4 y1 y2 y3 y4 : String)
          → Untouched s.shop (log_fix x1 x2 x3 x4 (log_fix y1 y2 y3 y4 s.shop))
      twice x1 x2 x3 x4 y1 y2 y3 y4 = record {
        work_items = refl;
        invoices = refl;
        incidents = refl;
        nudges = refl;
        templates = refl;
      }

      switched :
          (needs_approval o c q ids ≡ true) ⊎ (o.kill_switch ≡ true)
          → needs_approval o c q ids ≡ false
          → o.kill_switch ≡ true
      switched (inl n) e = absurd (cc)
      switched (inr k) e = k

  trigger_run-Idle :
      (s : Pilot) → Held o (needs_approval o c q ids) s.shop → Idle s.shop (trigger_run o c q ids s)
  unfolding trigger_run
  trigger_run-Idle s h =
      let call =
        create_run o.fix c.now ids.fix_run_id ids.nudge_id c.actor (fix_dto o c q ids s.shop)
          (held_options o c q ids) s.shop in
      let placed_only : Untouched s.shop call.0 =
        create_run-Untouched o.fix c.now ids.fix_run_id ids.nudge_id c.actor
          (fix_dto o c q ids s.shop) (held_options o c q ids) s.shop (λ t m. holds t m h) in
      elim (Outcome-cases call.1) [
        | inr (x, e) ↦ rw (e, trigger_run) (Untouched-log _ _ _ _ s.shop call.0 placed_only, refl)
        | inl (a, e) ↦
            let (after_settle, status) =
              settle_run-Idle a (record s { shop = call.0 }) (either h) in
            rw (e, trigger_run) (Untouched-trans s.shop call.0 _ placed_only after_settle, status)
      ]
    where
      holds :
          (t : FixActionTemplate)
          → Memᴰ t s.shop.templates
          → Held o (needs_approval o c q ids) s.shop
          → (not t.requires_confirmation
              && not (needs_approval o c q ids)
              && not (needs_approval o c q ids))
            ≡ false
      holds t m (inl n) = ground arith
      holds t m (inr (k, all)) =
          let r : t.requires_confirmation ≡ true = mem-All Confirms m all in rw r refl

      either :
          Held o (needs_approval o c q ids) s.shop
          → (needs_approval o c q ids ≡ true) ⊎ (o.kill_switch ≡ true)
      either (inl n) = inl n
      either (inr (k, all)) = inr k

  try_policy-Idle :
      (s : Pilot) → Held o (needs_approval o c q ids) s.shop → Idle s.shop (try_policy o c q ids s)
  unfolding try_policy
  try_policy-Idle s h = elim (Bool-cases (evaluate_condition o q.condition c.driver c.now)) [
    | inr e ↦ rw (e, try_policy) (once _ _ _ _, refl)
    | inl e ↦ elim (Bool-cases (below_threshold q.risk_threshold c.driver.risk_score)) [
      | inl f ↦ rw (e, f, try_policy) (once _ _ _ _, refl)
      | inr f ↦
          elim (Outcome-cases (preview_run o.fix c.now c.actor (fix_dto o c q ids s.shop) s.shop)) [
            | inr (x, g) ↦ rw (e, f, g, try_policy) (once _ _ _ _, refl)
            | inl (r, g) ↦
                elim (Bool-cases (
                  leb q.max_executions_per_hour (
                    count (executed_recently q.id c.now)
                      (with_preview o c q ids r (record s {
                        auto_runs = s.auto_runs ++ first_run o c q ids ∷ [];
                      })).auto_runs))) [
                        | inl k ↦ rw (e, f, g, k, try_policy) (once _ _ _ _, refl)
                        | inr k ↦
                            rw (e, f, g, k, try_policy)
                              (trigger_run-Idle
                                (with_preview o c q ids r (record s {
                                  auto_runs = s.auto_runs ++ first_run o c q ids ∷ [];
                                }))
                                h)
                      ]
          ]
    ]
  ]
    where
      once : (x1 x2 x3 x4 : String) → Untouched s.shop (log_fix x1 x2 x3 x4 s.shop)
      once x1 x2 x3 x4 = record {
        work_items = refl;
        invoices = refl;
        incidents = refl;
        nudges = refl;
        templates = refl;
      }

module _ (o : PilotSetting) (c : Round) (ids : AutopilotPolicy → PilotIds) where
  try_policies-Idle :
      (qs : List AutopilotPolicy) (s : Pilot)
      → (85 ≤ c.driver.risk_score) ⊎ ((o.kill_switch ≡ true) × All Confirms s.shop.templates)
      → let (s', outcomes) = try_policies o c ids qs s in
        Untouched s.shop s'.shop × All (λ x. is_executed x.status ≡ false) outcomes
  unfolding try_policies
  try_policies-Idle [] s h = (Untouched-self s.shop, tt)
  try_policies-Idle (q ∷ qs) s h =
      let (first, status) = try_policy-Idle o c q (ids q) s (needed h) in
      let (later, rest) = try_policies-Idle qs _ (again first h) in
      (Untouched-trans s.shop _ _ first later, (status, rest))
    where
      needed :
          (85 ≤ c.driver.risk_score) ⊎ ((o.kill_switch ≡ true) × All Confirms s.shop.templates)
          → Held o (requires_approval c.driver.risk_score q.auto_execute) s.shop
      needed (inl n) = inl (requires_approval_high c.driver.risk_score q.auto_execute n)
      needed (inr k) = inr k

      again :
          {t : Shop}
          → Untouched s.shop t
          → (85 ≤ c.driver.risk_score) ⊎ ((o.kill_switch ≡ true) × All Confirms s.shop.templates)
          → (85 ≤ c.driver.risk_score) ⊎ ((o.kill_switch ≡ true) × All Confirms t.templates)
      again u (inl n) = inl n
      again u (inr (k, all)) = inr (k, rw u.templates all)

-- The autopilot touches no work item, invoice, incident or nudge, and reports no run as executed, if
-- the risk score of the driver is at least 85, whatever its policies say, or if the kill switch is
-- on and every template asks for a confirmation.
pub evaluate_and_execute-Untouched :
    (o : PilotSetting) (ids : AutopilotPolicy → PilotIds) (org_id : String) (driver : RiskDriver)
    (now : ℕ) (s : Pilot)
    → (85 ≤ driver.risk_score) ⊎ ((o.kill_switch ≡ true) × All Confirms s.shop.templates)
    → let (s', outcomes) = evaluate_and_execute o ids org_id driver now s in
      Untouched s.shop s'.shop × All (λ x. is_executed x.status ≡ false) outcomes
unfolding evaluate_and_execute
evaluate_and_execute-Untouched o ids org_id driver now s h = elim (Bool-cases o.autopilot_enabled) [
  | inr a ↦ rw (a, evaluate_and_execute) (Untouched-self s.shop, tt)
  | inl a ↦ elim (Bool-cases o.org_enabled) [
    | inr b ↦ rw (a, b, evaluate_and_execute) (Untouched-self s.shop, tt)
    | inl b ↦ elim (Option-cases (map_driver_entity_type driver)) [
      | inl e ↦ rw (a, b, e, evaluate_and_execute) (Untouched-self s.shop, tt)
      | inr (entity_type, e) ↦ elim (Option-cases (resolve_autopilot_actor s.shop org_id)) [
        | inl f ↦ rw (a, b, e, f, evaluate_and_execute) (Untouched-self s.shop, tt)
        | inr (actor, f) ↦
            rw (a, b, e, f, evaluate_and_execute)
              (try_policies-Idle o
                (record {
                  org_id = org_id;
                  actor = actor;
                  driver = driver;
                  entity_type = entity_type;
                  now = now;
                })
                ids (keep (policy_applies org_id entity_type) s.policies) s h)
      ]
    ]
  ]
]
