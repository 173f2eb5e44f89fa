-- ===== src/Routing/Routes.antt =====
-- `queueRouteForAlertEvent` and `routeAlertToChannels` of alerts/alert-routing.service.ts: the jobs
-- of an alert event, in the order in which they are queued, or run where there is no queue.
use kritvia_global_dashboard.Base.{
  Bool, Bool-cases, List, Memᴰ, Option-cases, String, [], any, ap, eq_iff, find, find-mem,
  if◌then◌else◌, inl, inr, keep, leb, length, map, mem-keep, mem-map, none, some, true, ◌&&◌, ◌===◌,
  ◌∙◌, ◌≡◌,
}
use kritvia_global_dashboard.Routing.{AlertChannel, RoutedEvent, Router, is_severity_eligible}
use kritvia_global_dashboard.Routing.Jobs.{DeliveryJob}
use mathlib.Core.Bool.{and-eq-true_iff}

abbrev pub to_job : RoutedEvent → List String → AlertChannel → DeliveryJob
to_job event override channel = record {
  alert_event_id = event.id;
  channel_id = channel.id;
  org_id = event.org_id;
  email_recipients_override = override;
}

abbrev pub enabled_for : RoutedEvent → AlertChannel → Bool
enabled_for event c = c.org_id === event.org_id && c.is_enabled

unfoldable pub queue_route_for_alert_event : Router → String → List DeliveryJob
unfolding is_severity_eligible
queue_route_for_alert_event s alert_event_id = elim (find (λ e. e.id === alert_event_id) s.events) [
  | none ↦ []
  | some event ↦ map (to_job event []) (
      keep (λ c. is_severity_eligible event.severity c.min_severity)
        (keep (enabled_for event) s.channels))
]

-- The types are compared in upper case.
unfoldable pub route_alert_to_channels :
    (String → String) → Router → String → List String → List String → List DeliveryJob
unfolding is_severity_eligible
route_alert_to_channels upper s alert_event_id channel_types override =
    let types = map upper channel_types in
    if leb (length types) 0 then [] else elim (find (λ e. e.id === alert_event_id) s.events) [
      | none ↦ []
      | some event ↦ map (to_job event override) (
          keep
            (λ c.
              any (λ t. t === upper c.type) types
              && is_severity_eligible event.severity c.min_severity)
            (keep (enabled_for event) s.channels))
    ]

-- A job of an alert: its event is in the table, and its channel is enabled, of the event's
-- organisation, and for alerts that are as severe.
pub record Routed (s : Router) (alert_event_id : String) (job : DeliveryJob) : Type 0 where
  pub event : RoutedEvent
  pub channel : AlertChannel
  pub event_there : Memᴰ event s.events
  pub channel_there : Memᴰ channel s.channels
  pub ids : (job.alert_event_id ≡ alert_event_id) × (job.channel_id ≡ channel.id)
  pub orgs : (job.org_id ≡ event.org_id) × (channel.org_id ≡ event.org_id)
  pub enabled : channel.is_enabled ≡ true
  pub eligible : is_severity_eligible event.severity channel.min_severity ≡ true

Routed-job :
    (s : Router) (event : RoutedEvent) (override : List String) (p : AlertChannel → Bool)
    (id : String) (job : DeliveryJob)
    → find (λ e. e.id === id) s.events ≡ some event
    → ((c : AlertChannel) → p c ≡ true → is_severity_eligible event.severity c.min_severity ≡ true)
    → Memᴰ job (map (to_job event override) (keep p (keep (enabled_for event) s.channels)))
    → Routed s id job
Routed-job s event override p id job found implies m =
    let (c, n, e) = mem-map (to_job event override) _ job m in
    let (k, t) = mem-keep p (keep (enabled_for event) s.channels) c n in
    let (there, on) = mem-keep (enabled_for event) s.channels c k in
    let (own, enabled) = (and-eq-true_iff _ _).0 on in
    let (event_there, same_id) = find-mem (λ x. x.id === id) s.events event found in
    record {
      event = event;
      channel = c;
      event_there = event_there;
      channel_there = there;
      ids =
          (ap (λ j. j.alert_event_id) e ∙ (eq_iff event.id id).0 same_id, ap (λ j. j.channel_id) e);
      orgs = (ap (λ j. j.org_id) e, (eq_iff c.org_id event.org_id).0 own);
      enabled = enabled;
      eligible = implies c t;
    }

-- An alert is routed only to enabled channels of its organisation whose least severity it has.
pub queue_route_for_alert_event-Routed :
    (s : Router) (alert_event_id : String) (job : DeliveryJob)
    → Memᴰ job (queue_route_for_alert_event s alert_event_id)
    → Routed s alert_event_id job
unfolding queue_route_for_alert_event
queue_route_for_alert_event-Routed s alert_event_id job m =
    elim (Option-cases (find (λ e. e.id === alert_event_id) s.events)) [
      | inl e ↦ elim (rw (queue_route_for_alert_event, e) at m) [ ]
      | inr (event, e) ↦
          Routed-job s event [] (λ c. is_severity_eligible event.severity c.min_severity)
            alert_event_id job e (λ c h. h) (rw (queue_route_for_alert_event, e) at m)
    ]

-- An alert that is routed by types of channels goes only to enabled channels of its organisation
-- whose least severity it has.
pub route_alert_to_channels-Routed :
    (upper : String → String) (s : Router) (alert_event_id : String)
    (channel_types override : List String) (job : DeliveryJob)
    → Memᴰ job (route_alert_to_channels upper s alert_event_id channel_types override)
    → Routed s alert_event_id job
unfolding route_alert_to_channels
route_alert_to_channels-Routed upper s alert_event_id channel_types override job m =
    elim (Bool-cases (leb (length (map upper channel_types)) 0)) [
      | inl e ↦ elim (rw (route_alert_to_channels, e) at m) [ ]
      | inr some_type ↦ elim (Option-cases (find (λ e. e.id === alert_event_id) s.events)) [
        | inl e ↦ elim (rw (route_alert_to_channels, some_type, e) at m) [ ]
        | inr (event, e) ↦
            Routed-job s event override
              (λ c.
                any (λ t. t === upper c.type) (map upper channel_types)
                && is_severity_eligible event.severity c.min_severity)
              alert_event_id job e (λ c h. ((and-eq-true_iff _ _).0 h).1)
              (rw (route_alert_to_channels, some_type, e) at m)
      ]
    ]
