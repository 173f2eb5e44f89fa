-- ===== src/Alerts/Handlers.antt =====
-- The handlers of alerts/alerts.service.ts that change the tables, with validateChannelConfig of
-- alerts/alert-routing.service.ts. `enterprise` tells whether the plan of an organisation has the
-- feature that each of them asks for; the database numbers new rows.
use mathlib.Core.Option
use kritvia_global_dashboard.Alerts.{Alert, Desk, EscalationPolicy, JsonStep, step_list}
use kritvia_global_dashboard.Alerts.Scan.{ensure_escalation_policy_for_org}
use kritvia_global_dashboard.Alerts.Steps.{normalize_escalation_steps, step_to_json}
use kritvia_global_dashboard.Base.{
  AuthUserContext, Bool, List, Option, Outcome, String, [], fail, false, find, get_active_org_id,
  if◌then◌else◌, is_empty, is_some, keep, length, ltb, map, none, not, ok, or_else, or_throw,
  require, some, trim, true, update, ℕ, ◌&&◌, ◌++◌, ◌-◌, ◌===◌, ◌==◌, ◌>>=◌, ◌>>◌, ◌||◌, ◌∷◌,
  not_found, bad_request, payment_required,
}
use kritvia_global_dashboard.OnCall.{codes_of}
use kritvia_global_dashboard.OnCall.Resolver.{present}
use kritvia_global_dashboard.Routing.{AlertChannel, ChannelConfig}
use kritvia_global_dashboard.Routing.Channels.{longer_than_three, trimmed_text}

-- `assertFeature(orgId, "enterpriseControlsEnabled")` after `getActiveOrgId`.
abbrev pub enter : (String → Bool) → AuthUserContext → Outcome String
enter enterprise user = do
  org_id ← get_active_org_id user
  require (enterprise org_id) payment_required
  ok org_id

abbrev pub own_alert : String → String → Alert → Bool
own_alert id org_id a = a.id === id && a.org_id === org_id

abbrev pub acknowledged_by : String → ℕ → Alert → Alert
acknowledged_by user_id now a = record a {
  is_acknowledged = true;
  acknowledged_by_user_id = some user_id;
  acknowledged_at = some now;
}

unfoldable pub acknowledge_alert :
    (String → Bool) → Desk → AuthUserContext → String → ℕ → Outcome (Desk × Option Alert)
unfolding get_active_org_id
acknowledge_alert enterprise s user id now = do
  org_id ← enter enterprise user
  require (is_some (find (own_alert id org_id) s.alerts)) not_found
  let s' = record s {
    alerts =
        update (λ a. own_alert id org_id a && not a.is_acknowledged)
          (acknowledged_by user.user_id now) s.alerts;
    activities =
        s.activities
        ++ record {
          org_id = org_id;
          actor_user_id = user.user_id;
          entity_id = id;
          action = "ALERT_ACKNOWLEDGED";
        }
          ∷ [];
  }
  ok (s', find (own_alert id org_id) s'.alerts)

-- A field of the DTO that may be null: `none` where it is missing.
pub record UpsertEscalationPolicyDto : Type 0 where
  pub name : Option String
  pub is_enabled : Option Bool
  pub timezone : Option String
  pub quiet_hours_enabled : Option Bool
  pub quiet_hours_start : Option (Option String)
  pub quiet_hours_end : Option (Option String)
  pub business_days_only : Option Bool
  pub sla_critical : Option ℕ
  pub sla_high : Option ℕ
  pub sla_medium : Option ℕ
  pub sla_low : Option ℕ
  pub steps : Option (List JsonStep)

-- `!field && field !== undefined`
abbrev pub given_empty : Option (Option String) → Bool
given_empty none = false
given_empty (some text) = not (is_some (present text))

-- What Prisma leaves of the policy under the update data; a field that is missing is kept.
unfoldable pub build_escalation_policy_update_data :
    (String → String) → UpsertEscalationPolicyDto → EscalationPolicy → Outcome EscalationPolicy
unfolding normalize_escalation_steps
build_escalation_policy_update_data upper dto q = do
  require
      (not (
        or_else dto.quiet_hours_enabled false
        && (given_empty dto.quiet_hours_start || given_empty dto.quiet_hours_end)))
      bad_request
  ok (record q {
    name = or_else (Option.map trim dto.name) q.name;
    is_enabled = or_else dto.is_enabled q.is_enabled;
    quiet = record {
      timezone = or_else (Option.map trim dto.timezone) q.quiet.timezone;
      quiet_hours_enabled = or_else dto.quiet_hours_enabled q.quiet.quiet_hours_enabled;
      quiet_hours_start = or_else dto.quiet_hours_start q.quiet.quiet_hours_start;
      quiet_hours_end = or_else dto.quiet_hours_end q.quiet.quiet_hours_end;
      business_days_only = or_else dto.business_days_only q.quiet.business_days_only;
    };
    sla = record {
      sla_critical = or_else dto.sla_critical q.sla.sla_critical;
      sla_high = or_else dto.sla_high q.sla.sla_high;
      sla_medium = or_else dto.sla_medium q.sla.sla_medium;
      sla_low = or_else dto.sla_low q.sla.sla_low;
    };
    steps = elim dto.steps [
      | none ↦ q.steps
      | some raw ↦ step_list (map step_to_json (normalize_escalation_steps upper (step_list raw)))
    ];
  })

abbrev pub save_policy : EscalationPolicy → Desk → Desk
save_policy q s = record s { policies = update (λ x. x.id === q.id) (λ x. q) s.policies }

unfoldable pub update_escalation_policy :
    (String → String)
    → (String → Bool)
    → Desk
    → AuthUserContext
    → String
    → UpsertEscalationPolicyDto
    → Outcome (Desk × EscalationPolicy)
unfolding build_escalation_policy_update_data get_active_org_id
update_escalation_policy upper enterprise s user id dto = do
  org_id ← enter enterprise user
  existing ← or_throw (find (λ q. q.id === id && q.org_id === org_id) s.policies) not_found
  q ← build_escalation_policy_update_data upper dto existing
  ok (save_policy q s, q)

-- The policy is made before the update is refused: the tables after a refusal are `ensured`.
unfoldable pub create_escalation_policy :
    (String → String)
    → (String → Bool)
    → Desk
    → AuthUserContext
    → String
    → UpsertEscalationPolicyDto
    → Outcome (Desk × EscalationPolicy)
unfolding build_escalation_policy_update_data get_active_org_id ensure_escalation_policy_for_org
create_escalation_policy upper enterprise s user new_id dto = do
  org_id ← enter enterprise user
  let ensured = ensure_escalation_policy_for_org s org_id new_id
  q ← build_escalation_policy_update_data upper dto ensured.1
  ok (save_policy q ensured.0, q)

abbrev is_letter : ℕ → ℕ → Bool
is_letter small c = c == small || c == small - 32

-- `/^https?:\/\//i`, by the characters of the text.
unfoldable pub is_http_url : List ℕ → Bool
is_http_url (h ∷ t ∷ u ∷ p ∷ rest) =
    is_letter b'h' h && is_letter b't' t && is_letter b't' u && is_letter b'p' p && after_http rest
  where
    slashes : List ℕ → Bool
    slashes (c ∷ d ∷ e ∷ more) = c == b':' && d == b'/' && e == b'/'
    slashes _ = false

    after_http : List ℕ → Bool
    after_http [] = false
    after_http (c ∷ more) = if is_letter b's' c then slashes more else slashes (c ∷ more)
is_http_url _ = false

unfoldable pub validate_channel_config : String → ChannelConfig → Bool
unfolding is_http_url
validate_channel_config type config =
    if type === "WEBHOOK"
    then is_http_url (codes_of (trimmed_text config.url))
    else if type === "EMAIL"
    then ltb 0 (length (keep (λ t. longer_than_three (trim t)) config.to))
    else if type === "SLACK"
    then not (is_empty (trimmed_text config.channel) && is_empty (trimmed_text config.channel_id))
    else false

-- `dto.config`: missing or null, an object, or another value, which is truthy or falsy.
pub data ConfigInput : Type 0 where
  no_config truthy_config falsy_config : ConfigInput
  object_config : ChannelConfig → ConfigInput

abbrev empty_config : ChannelConfig
empty_config = record {
  url = none;
  secret = none;
  to = [];
  from_address = none;
  channel = none;
  channel_id = none;
}

-- `validateChannelConfig(type, config ?? {})` with its exception, and what it lets through.
unfoldable pub checked_config : String → ConfigInput → Outcome ChannelConfig
unfolding validate_channel_config
checked_config type no_config = do
  require (validate_channel_config type empty_config) bad_request
  ok empty_config
checked_config type truthy_config = fail bad_request
checked_config type falsy_config = fail bad_request
checked_config type (object_config c) = do
  require (validate_channel_config type c) bad_request
  ok c

module _ (encrypt : ChannelConfig → String) (enterprise : String → Bool) where
  unfoldable pub create_channel :
      Desk
      → AuthUserContext
      → String
      → String
      → String
      → ConfigInput
      → Outcome (Desk × AlertChannel)
  unfolding checked_config get_active_org_id
  create_channel s user new_id type min_severity input = do
    org_id ← enter enterprise user
    c ← checked_config type input
    let created : AlertChannel = record {
      id = new_id;
      org_id = org_id;
      type = type;
      is_enabled = true;
      min_severity = min_severity;
      config_encrypted = some (encrypt c);
    }
    ok (record s { channels = s.channels ++ created ∷ [] }, created)

  -- `if (dto.config) …` and `dto.config ? encrypt : undefined`
  unfoldable pub updated_config : AlertChannel → ConfigInput → Outcome (Option String)
  unfolding checked_config
  updated_config c no_config = ok c.config_encrypted
  updated_config c falsy_config = ok c.config_encrypted
  updated_config c truthy_config = fail bad_request
  updated_config c (object_config x) = do
    x' ← checked_config c.type (object_config x)
    ok (some (encrypt x'))

  unfoldable pub update_channel :
      Desk
      → AuthUserContext
      → String
      → Option Bool
      → Option String
      → ConfigInput
      → Outcome (Desk × AlertChannel)
  unfolding updated_config get_active_org_id
  update_channel s user id is_enabled min_severity input = do
    org_id ← enter enterprise user
    existing ← or_throw (find (λ c. c.id === id && c.org_id === org_id) s.channels) not_found
    text ← updated_config existing input
    let updated = record existing {
      is_enabled = or_else is_enabled existing.is_enabled;
      min_severity = or_else min_severity existing.min_severity;
      config_encrypted = text;
    }
    ok (record s { channels = update (λ c. c.id === id) (λ c. updated) s.channels }, updated)

  unfoldable pub delete_channel : Desk → AuthUserContext → String → Outcome Desk
  unfolding get_active_org_id
  delete_channel s user id = do
    org_id ← enter enterprise user
    require (is_some (find (λ c. c.id === id && c.org_id === org_id) s.channels)) not_found
    ok (record s { channels = keep (λ c. not (c.id === id && c.org_id === org_id)) s.channels })
