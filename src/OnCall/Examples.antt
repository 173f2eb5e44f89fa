-- ===== src/OnCall/Examples.antt =====
-- The theorems on the on-call resolver at concrete schedules.
use kritvia_global_dashboard.Base.{
  List, Option, String, [], arith, if◌then◌else◌, none, refl, some, true, ℕ, ◌%◌, ◌*◌, ◌+◌, ◌/◌,
  ◌===◌, ◌∷◌, ◌≡◌,
}
use kritvia_global_dashboard.OnCall.{
  LocalTime, Member, Platform, Schedule, day_ms, hour_ms, no_days, primary,
}
use kritvia_global_dashboard.OnCall.Answers.{Covers, resolve_now-Covers}
use kritvia_global_dashboard.OnCall.Fallback.{fallback_search_total}
use kritvia_global_dashboard.OnCall.Resolver.{Chased, fallback_search, load_schedules, resolve_now}
use kritvia_global_dashboard.OnCall.Slots.{compute_slot_index}
use kritvia_global_dashboard.OnCall.Windows.{compute_slot_index_back}

-- A platform that knows one zone.
abbrev utc_time : ℕ → LocalTime
utc_time t = record {
  day = t / day_ms;
  weekday = "Mon";
  hour = t / hour_ms % 24;
  minute = t / 60000 % 60;
  second = t / 1000 % 60;
}

abbrev platform : Platform
platform = record {
  local = λ zone t. if zone === "UTC" then some (utc_time t) else none;
  upper = λ s. s;
}

abbrev member : String → Member
member id = record { tier = primary; user_id = id; is_active = true }

abbrev crew : List Member
crew = member "u1" ∷ member "u2" ∷ member "u3" ∷ []

abbrev night : String → Option String → Schedule
night name fallback_id = record {
  id = name;
  org_id = "o1";
  is_enabled = true;
  timezone = "UTC";
  start_at = 0;
  handoff_interval = "DAILY";
  handoff_hour = 9;
  coverage_enabled = true;
  coverage_days = no_days;
  coverage_start = some "20:00";
  coverage_end = some "06:00";
  fallback_schedule_id = fallback_id;
  members = crew;
  overrides = [];
  calendars = [];
}

-- Two schedules that fall back on each other.
abbrev circle : List Schedule
circle = night "a" (some "b") ∷ night "b" (some "a") ∷ []

abbrev noon : ℕ
noon = 12 * hour_ms

resolve_now-Covers_example :
    Covers platform noon
      (load_schedules circle "o1" noon)
      (resolve_now platform circle "o1" noon true)
resolve_now-Covers_example = resolve_now-Covers platform noon circle "o1" true

fallback_search_total_example : (r : Chased) × (fallback_search platform circle noon ≡ some r)
fallback_search_total_example = fallback_search_total platform circle noon

-- The rotation begins at noon and hands over at nine: at midnight of the second day it is in its
-- second slot, and at nine of that day in its first.
compute_slot_index_back_example :
    compute_slot_index platform noon day_ms "DAILY" 9 "UTC"
    ≡ compute_slot_index platform noon (day_ms + 9 * hour_ms) "DAILY" 9 "UTC" + 1
compute_slot_index_back_example =
    compute_slot_index_back platform "UTC" noon day_ms (day_ms + 9 * hour_ms) 9 (utc_time noon)
      (utc_time day_ms) (utc_time (day_ms + 9 * hour_ms)) refl refl refl (omega arith) refl
      (omega arith, omega arith, omega arith) (omega arith, omega arith, omega arith) (omega arith)
      (omega arith) (omega arith) (omega arith)
