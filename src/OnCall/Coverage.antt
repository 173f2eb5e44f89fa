-- ===== src/OnCall/Coverage.antt =====
-- Whether a schedule covers a moment: its days, its hours and its holidays.
use Prim.Native.String as Str
use kritvia_global_dashboard.Auth.Window.{minute}
use kritvia_global_dashboard.Base.{
  Bool, List, Option, String, [], any, false, get_elem?, if◌then◌else◌, keep, leb, ltb, map, none,
  not, or_else, some, trim, true, ℕ, ◌%◌, ◌&&◌, ◌*◌, ◌+◌, ◌-◌, ◌/◌, ◌===◌, ◌==◌, ◌||◌, ◌∷◌,
}
use kritvia_global_dashboard.OnCall.{
  Calendar, HolidayEntry, JsonDays, Platform, Schedule, codes_of, day_ms, days, hour_ms, no_days,
  or_utc,
}

-- `value.slice(0, 3)`
abbrev pub first_three : String → String
first_three (Str.◌∷◌ a (Str.◌∷◌ b (Str.◌∷◌ c s))) = Str.◌∷◌ a (Str.◌∷◌ b (Str.◌∷◌ c Str.[]))
first_three s = s

-- A text that names none of the six days before is a Sunday.
unfoldable pub short_weekday_to_code : (String → String) → String → String
short_weekday_to_code upper value =
    let normalized = upper (first_three value) in
    if any (λ d. d === normalized) ("MON" ∷ "TUE" ∷ "WED" ∷ "THU" ∷ "FRI" ∷ "SAT" ∷ [])
    then normalized
    else "SUN"

abbrev pub weekday_of_day : ℕ → String
weekday_of_day day =
    or_else (get_elem? ("SUN" ∷ "MON" ∷ "TUE" ∷ "WED" ∷ "THU" ∷ "FRI" ∷ "SAT" ∷ []) ((day + 4) % 7))
      "MON"

-- The weekday and the minutes of the day, in the zone or else in UTC.
unfoldable pub get_local_time : Platform → ℕ → String → String × ℕ
unfolding short_weekday_to_code
get_local_time p now zone = elim (p.local zone now) [
  | some t ↦ (short_weekday_to_code p.upper t.weekday, t.hour * 60 + t.minute)
  | none ↦ (weekday_of_day (now / day_ms), now / hour_ms % 24 * 60 + now / 60000 % 60)
]

unfoldable pub normalize_coverage_days : (String → String) → JsonDays → List String
normalize_coverage_days upper no_days = []
normalize_coverage_days upper (days entries) =
    keep (λ e. any (λ d. d === e) ("MON" ∷ "TUE" ∷ "WED" ∷ "THU" ∷ "FRI" ∷ "SAT" ∷ "SUN" ∷ []))
      (map (λ e. upper (trim e)) entries)

abbrev pub is_digit : ℕ → Bool
is_digit c = leb b'0' c && leb c b'9'

-- Five characters, two digits on each side of a colon.
unfoldable pub minutes_of_codes : List ℕ → Option ℕ
minutes_of_codes (a ∷ b ∷ c ∷ d ∷ e ∷ []) =
    let hours = (a - b'0') * 10 + (b - b'0') in
    let minutes = (d - b'0') * 10 + (e - b'0') in
    if is_digit a && is_digit b && c == b':' && is_digit d && is_digit e
    then if ltb 23 hours || ltb 59 minutes then none else some (hours * 60 + minutes)
    else none
minutes_of_codes _ = none

unfoldable pub parse_minutes : Option String → Option ℕ
unfolding minutes_of_codes
parse_minutes none = none
parse_minutes (some text) = minutes_of_codes (codes_of (trim text))

-- The hours from the start to the end, through midnight if the end comes first.
unfoldable pub in_hours : ℕ → ℕ → ℕ → Bool
in_hours start_minutes end_minutes minute =
    if start_minutes == end_minutes
    then true
    else if ltb start_minutes end_minutes
    then leb start_minutes minute && ltb minute end_minutes
    else leb start_minutes minute || ltb minute end_minutes

-- Where the hours are not both given, they are the whole day.
unfoldable pub in_hours? : Option ℕ → Option ℕ → ℕ → Bool
in_hours? none end_minutes at_minute = true
in_hours? (some a) none at_minute = true
in_hours? (some a) (some b) at_minute = in_hours a b at_minute

unfoldable pub on_day : List String → String → Bool
on_day [] weekday = true
on_day (d ∷ ds) weekday = any (λ e. e === weekday) (d ∷ ds)

unfoldable pub is_in_coverage_window : Platform → Schedule → ℕ → Bool
unfolding get_local_time normalize_coverage_days parse_minutes in_hours in_hours? on_day
is_in_coverage_window p s now =
    if not s.coverage_enabled
    then true
    else let (weekday, minutes_of_day) = get_local_time p now (or_utc s.timezone) in
      if not (on_day (normalize_coverage_days p.upper s.coverage_days) weekday)
      then false
      else in_hours? (parse_minutes s.coverage_start) (parse_minutes s.coverage_end) minutes_of_day

-- The day of a time in a zone; the texts that the source compares are ISO dates, whose order is
-- that of the days. In an unknown zone it is the day in UTC.
unfoldable pub day_in_timezone : Platform → ℕ → String → ℕ
day_in_timezone p value zone = elim (p.local zone value) [ some t ↦ t.day | none ↦ value / day_ms ]

unfoldable pub holiday_entry : Platform → ℕ → String → HolidayEntry → Bool
unfolding day_in_timezone
holiday_entry p now zone e =
    let today = day_in_timezone p now zone in
    leb (day_in_timezone p e.start_date zone) today
    && leb today (day_in_timezone p (or_else e.end_date e.start_date) zone)

unfoldable pub holiday_calendar : Platform → ℕ → Calendar → Bool
unfolding holiday_entry
holiday_calendar p now c = c.is_enabled && any (holiday_entry p now (or_utc c.timezone)) c.entries

unfoldable pub is_holiday : Platform → Schedule → ℕ → Bool
unfolding holiday_calendar
is_holiday p s now = any (holiday_calendar p now) s.calendars

pub record ScheduleState : Type 0 where
  pub active : Bool
  pub in_coverage_window : Bool
  pub on_holiday : Bool

unfoldable pub get_schedule_state : Platform → Schedule → ℕ → ScheduleState
get_schedule_state p s now =
    let in_window = is_in_coverage_window p s now in
    let holiday = is_holiday p s now in
    record {
      active = in_window && not holiday;
      in_coverage_window = in_window;
      on_holiday = holiday;
    }
