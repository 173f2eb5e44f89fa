-- ===== src/Routing/Jobs.antt =====
-- `processDeliveryJob` of alerts/alert-routing.service.ts, with the limit per hour and the circuit
-- breaker of a channel. A row that cannot be written is passed over in the source; here each is.
use kritvia_global_dashboard.Base.{
  Bool, List, Option, String, [], any, count, false, find, if◌then◌else◌, is_empty, leb, ltb, none,
  or_else, some, true, ℕ, ◌&&◌, ◌*◌, ◌++◌, ◌+◌, ◌-◌, ◌===◌, ◌||◌, ◌∷◌,
}
use kritvia_global_dashboard.OnCall.Resolver.{current, present}
use kritvia_global_dashboard.Routing.{
  AlertChannel, AlertDelivery, Breaker, ChannelConfig, RoutedEvent, Router, breaker_of,
  is_severity_eligible, set_breaker,
}
use kritvia_global_dashboard.Routing.Channels.{
  Outside, Sent, deliver_by_channel_type, not_sent, sent_with,
}

-- The recipients are trimmed, without those that are empty; none are given where they are no list.
pub record DeliveryJob : Type 0 where
  pub alert_event_id : String
  pub channel_id : String
  pub org_id : String
  pub email_recipients_override : List String

abbrev pub max_deliveries_per_hour : ℕ
max_deliveries_per_hour = 30

abbrev pub of_job : DeliveryJob → AlertDelivery → Bool
of_job job d = d.alert_event_id === job.alert_event_id && d.channel_id === job.channel_id

abbrev pub recent : String → ℕ → AlertDelivery → Bool
recent org_id now d = d.org_id === org_id && leb (now - 3600000) d.created_at

-- The breaker is open while the time is before its end.
abbrev pub is_open : Option Breaker → ℕ → Bool
is_open none now = false
is_open (some b) now = ltb now (or_else b.open_until 0)

abbrev pub row_of : DeliveryJob → Bool → Option ℕ → Option String → Option ℕ → ℕ → AlertDelivery
row_of job success status_code error duration_ms now = record {
  org_id = job.org_id;
  alert_event_id = job.alert_event_id;
  channel_id = job.channel_id;
  success = success;
  status_code = status_code;
  error = error;
  duration_ms = duration_ms;
  created_at = now;
}

abbrev pub persist_delivery : AlertDelivery → Router → Router
persist_delivery row s = record s { alert_deliveries = s.alert_deliveries ++ row ∷ [] }

abbrev pub failed_breaker : Option Breaker → ℕ → Breaker
failed_breaker current now =
    let next_fail_count = (elim current as (λ b. ℕ) [ none ↦ 0 | some b ↦ b.fail_count ]) + 1 in
    record {
      fail_count = next_fail_count;
      open_until = if leb 5 next_fail_count then some (now + 5 * 60000) else none;
    }

-- The configuration of a channel without one is empty.
abbrev pub config_of : Outside → AlertChannel → Option ChannelConfig
config_of o channel = elim (present channel.config_encrypted) [
  | none ↦ some (record {
    url = none;
    secret = none;
    to = [];
    from_address = none;
    channel = none;
    channel_id = none;
  })
  | some text ↦ o.decrypt_app_config text
]

abbrev pub attempt_delivery : Outside → AlertChannel → DeliveryJob → Sent
attempt_delivery o channel job = elim (config_of o channel) [
  | none ↦ not_sent o.decrypt_error
  | some config ↦ deliver_by_channel_type o channel.type config job.email_recipients_override
]

-- What follows the attempt to deliver: the breaker and the row. `ended` is the time after it.
unfoldable pub record_attempt : DeliveryJob → ℕ → ℕ → Router → Sent → Router × Bool
record_attempt job now ended s (sent_with status) =
    let closed : Breaker = record { fail_count = 0; open_until = none } in
    let s1 = record s { breakers = set_breaker job.channel_id closed s.breakers } in
    (persist_delivery (row_of job true (some status) none (some (ended - now)) ended) s1, true)
record_attempt job now ended s (not_sent message) =
    let next = failed_breaker (breaker_of job.channel_id s.breakers) ended in
    let s1 = record s { breakers = set_breaker job.channel_id next s.breakers } in
    (persist_delivery (row_of job false none (some message) (some (ended - now)) ended) s1, false)

-- The guards on the limit and on the breaker.
unfoldable pub guarded_delivery :
    Outside → AlertChannel → DeliveryJob → ℕ → ℕ → Router → Router × Bool
unfolding record_attempt deliver_by_channel_type
guarded_delivery o channel job now ended s =
    if leb max_deliveries_per_hour (count (recent job.org_id now) s.alert_deliveries)
    then (persist_delivery (row_of job false none (some "DELIVERY_RATE_LIMIT") none now) s, false)
    else if is_open (breaker_of job.channel_id s.breakers) now
    then (persist_delivery (row_of job false none (some "CIRCUIT_OPEN") none now) s, false)
    else record_attempt job now ended s (attempt_delivery o channel job)

abbrev pub event_of : DeliveryJob → RoutedEvent → Bool
event_of job e = e.id === job.alert_event_id && e.org_id === job.org_id

abbrev pub channel_of : DeliveryJob → AlertChannel → Bool
channel_of job c = c.id === job.channel_id && c.org_id === job.org_id

abbrev pub is_blank : DeliveryJob → Bool
is_blank job = is_empty job.alert_event_id || (is_empty job.channel_id || is_empty job.org_id)

unfoldable pub process_delivery_job : Outside → DeliveryJob → ℕ → ℕ → Router → Router × Bool
unfolding guarded_delivery is_severity_eligible
process_delivery_job o job now ended s =
    if is_blank job
    then (s, false)
    else if any (of_job job) s.alert_deliveries
    then (s, true)
    else elim (find (event_of job) s.events) [
      | none ↦ (s, false)
      | some event ↦ elim (find (channel_of job) s.channels) [
        | none ↦ (s, false)
        | some channel ↦
            if channel.is_enabled && is_severity_eligible event.severity channel.min_severity
            then guarded_delivery o channel job now ended s
            else (s, false)
      ]
    ]

-- A job with what it finds outside, the time at which it begins, and that after its attempt.
pub record Run : Type 0 where
  pub outside : Outside
  pub job : DeliveryJob
  pub began_at : ℕ
  pub ended_at : ℕ

unfoldable pub process_all : List Run → Router → Router
unfolding process_delivery_job
process_all [] s = s
process_all (r ∷ later) s =
    process_all later (process_delivery_job r.outside r.job r.began_at r.ended_at s).0
