-- ===== src/OnCall/Windows.antt =====
-- The hours of coverage and the slots of the rotation.
use kritvia_global_dashboard.Base.{
  List, String, [], arith, not, some, true, ℕ, ◌%◌, ◌*◌, ◌++◌, ◌+◌, ◌-◌, ◌/◌, ◌<◌, ◌∷◌, ◌≡◌, ◌≢◌,
  ◌≤◌,
}
use kritvia_global_dashboard.OnCall.{LocalTime, Platform, Schedule, or_utc}
use kritvia_global_dashboard.OnCall.Coverage.{
  get_local_time, in_hours, is_digit, is_in_coverage_window, minutes_of_codes,
  normalize_coverage_days, parse_minutes,
}
use kritvia_global_dashboard.OnCall.Slots.{compute_slot_index, to_pseudo_local_timestamp}

-- The hours from a to b and those from b to a cover every minute exactly once.
in_hours_complement :
    (a b minute_of_day : ℕ) → a ≢ b → in_hours a b minute_of_day ≡ not (in_hours b a minute_of_day)
unfolding in_hours
in_hours_complement a b minute_of_day ne = ground arith

-- The schedule whose hours begin where this one's end, and end where they begin.
abbrev pub swapped : Schedule → Schedule
swapped s = record s { coverage_start = s.coverage_end; coverage_end = s.coverage_start }

-- Of two schedules that hand over to each other, with hours that are valid and differ and with no
-- limit on the days, exactly one covers each moment.
pub is_in_coverage_window-swapped :
    (p : Platform) (s : Schedule) (now a b : ℕ)
    → s.coverage_enabled ≡ true
    → normalize_coverage_days p.upper s.coverage_days ≡ []
    → parse_minutes s.coverage_start ≡ some a
    → parse_minutes s.coverage_end ≡ some b
    → a ≢ b
    → is_in_coverage_window p s now ≡ not (is_in_coverage_window p (swapped s) now)
unfolding is_in_coverage_window
is_in_coverage_window-swapped p s now a b on all_days ea eb ne =
    rw (on, all_days, ea, eb)
      (in_hours_complement a b (get_local_time p now (or_utc s.timezone)).1 ne)

-- Two digits of a number below a hundred.
abbrev pub two_digits : ℕ → List ℕ
two_digits n = (b'0' + n / 10) ∷ (b'0' + n % 10) ∷ []

two_digits_value : (n : ℕ) → (b'0' + n / 10 - b'0') * 10 + (b'0' + n % 10 - b'0') ≡ n
two_digits_value n = omega arith

is_digit-add : (d : ℕ) → d < 10 → is_digit (b'0' + d) ≡ true
is_digit-add d h = ground arith

-- Every time of day that is printed with two digits for the hour and two for the minute is read as
-- its minutes, which are below 24 hours.
pub minutes_of_codes-print :
    (h m : ℕ)
    → h < 24
    → m < 60
    → (minutes_of_codes (two_digits h ++ b':' ∷ two_digits m) ≡ some (h * 60 + m))
      × (h * 60 + m < 1440)
unfolding minutes_of_codes
minutes_of_codes-print h m hh hm = (
  rw
      (
        is_digit-add (h / 10) (omega arith),
        is_digit-add (h % 10) (omega arith),
        is_digit-add (m / 10) (omega arith),
        is_digit-add (m % 10) (omega arith),
      )
      (rw (two_digits_value h, two_digits_value m) (ground arith)),
  omega arith,
)

-- In a known zone a daily rotation can step back. With a start at an hour after the handoff hour, a
-- moment of a later day before the handoff hour is in a slot that is one more than that of any moment
-- of the same day from the handoff hour until the hour of the start, whatever the zone.
pub compute_slot_index_back :
    (p : Platform) (zone : String) (began before_handoff after_handoff handoff : ℕ)
    (s b a : LocalTime)
    → p.local (or_utc zone) began ≡ some s
    → p.local (or_utc zone) before_handoff ≡ some b
    → p.local (or_utc zone) after_handoff ≡ some a
    → s.day < b.day
    → b.day ≡ a.day
    → (s.minute < 60) × (b.minute < 60) × (a.minute < 60)
    → (s.second < 60) × (b.second < 60) × (a.second < 60)
    → b.hour < handoff
    → handoff ≤ a.hour
    → a.hour < s.hour
    → s.hour < 24
    → compute_slot_index p began before_handoff "DAILY" handoff zone
      ≡ compute_slot_index p began after_handoff "DAILY" handoff zone + 1
unfolding compute_slot_index to_pseudo_local_timestamp
compute_slot_index_back p zone began before_handoff after_handoff handoff s b a es eb ea later
      same_day ms ss h1 h2 h3 h4 =
    rw (compute_slot_index, to_pseudo_local_timestamp, es, eb, ea) (ground arith)
