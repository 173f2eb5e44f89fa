-- ===== src/Alerts/Quiet.antt =====
-- The hours in which a policy holds its steps back: getSuppressionReason, getLocalTime,
-- parseMinutes and isInQuietHours of alerts/alerts.service.ts.
use kritvia_global_dashboard.Alerts.{QuietHours}
use kritvia_global_dashboard.Base.{
  Bool, Option, String, false, if◌then◌else◌, leb, ltb, none, some, trim, true, ℕ, ◌%◌, ◌&&◌, ◌*◌,
  ◌+◌, ◌/◌, ◌===◌, ◌==◌, ◌||◌,
}
use kritvia_global_dashboard.OnCall.{Platform, codes_of, hour_ms, or_utc}
use kritvia_global_dashboard.OnCall.Coverage.{minutes_of_codes}
use kritvia_global_dashboard.OnCall.Resolver.{present}

unfoldable pub is_in_quiet_hours : ℕ → ℕ → ℕ → Bool
is_in_quiet_hours minutes_of_day from_minute to_minute =
    if from_minute == to_minute
    then true
    else if ltb from_minute to_minute
    then leb from_minute minutes_of_day && ltb minutes_of_day to_minute
    else leb from_minute minutes_of_day || ltb minutes_of_day to_minute

-- `parseMinutes` of this service reads a text as that of the on-call resolver does.
unfoldable pub parse_quiet_minutes : String → Option ℕ
unfolding minutes_of_codes
parse_quiet_minutes text = minutes_of_codes (codes_of (trim text))

-- In an unknown zone it is a Monday, at the time of day in UTC.
unfoldable pub get_policy_local_time : Platform → ℕ → String → String × ℕ
get_policy_local_time p now zone = elim (p.local (or_utc zone) now) [
  | some t ↦ (t.weekday, t.hour * 60 + t.minute)
  | none ↦ ("Mon", now / hour_ms % 24 * 60 + now / 60000 % 60)
]

-- `start !== null && end !== null && isInQuietHours(…)`
unfoldable pub quiet_between : ℕ → Option ℕ → Option ℕ → Bool
unfolding is_in_quiet_hours
quiet_between minutes_of_day (some a) (some b) = is_in_quiet_hours minutes_of_day a b
quiet_between minutes_of_day _ _ = false

abbrev pub minutes_of_text : Option String → Option ℕ
minutes_of_text none = none
minutes_of_text (some text) = parse_quiet_minutes text

-- An empty text counts as a missing one.
unfoldable pub get_suppression_reason : Platform → QuietHours → ℕ → Option String
unfolding get_policy_local_time quiet_between parse_quiet_minutes
get_suppression_reason p q now =
    let (weekday, minutes_of_day) = get_policy_local_time p now q.timezone in
    let quiet_now =
      quiet_between minutes_of_day (minutes_of_text (present q.quiet_hours_start))
        (minutes_of_text (present q.quiet_hours_end)) in
    if q.business_days_only && (weekday === "Sat" || weekday === "Sun")
    then some "business-days-only"
    else if q.quiet_hours_enabled && quiet_now
    then some "quiet-hours"
    else none
