-- ===== src/OnCall.antt =====
-- apps/api/src/oncall/oncall.resolver.ts: who is on call. Times are milliseconds since the epoch.
-- What Intl.DateTimeFormat gives for a time in a zone is a parameter, as is toUpperCase.
pub mod Coverage
pub mod Slots
pub mod Resolver
pub mod Windows
pub mod Rotation
pub mod Fallback
pub mod Answers
mod Examples
use Prim.Native.Char.{code}
use Prim.Native.String as Str
use kritvia_global_dashboard.Auth.JwtGuard.{hour}
use kritvia_global_dashboard.Auth.Window.{minute}
use kritvia_global_dashboard.Base.{Bool, List, Option, String, [], if◌then◌else◌, is_empty, ℕ, ◌∷◌}

-- The parts of a time in a zone: the number of its calendar day since the epoch, its short weekday
-- name, and the time of day.
pub record LocalTime : Type 0 where
  pub day : ℕ
  pub weekday : String
  pub hour : ℕ
  pub minute : ℕ
  pub second : ℕ

-- `local` gives nothing where the formatter throws on an unknown zone.
pub record Platform : Type 0 where
  pub local : String → ℕ → Option LocalTime
  pub upper : String → String

pub data Tier : Type 0 where
  primary secondary : Tier

pub record Member : Type 0 where
  pub tier : Tier
  pub user_id : String
  pub is_active : Bool

pub record Override : Type 0 where
  pub tier : Tier
  pub to_user_id : String
  pub start_at : ℕ
  pub end_at : ℕ

pub record HolidayEntry : Type 0 where
  pub start_date : ℕ
  pub end_date : Option ℕ

pub record Calendar : Type 0 where
  pub timezone : String
  pub is_enabled : Bool
  pub entries : List HolidayEntry

-- The JSON column `coverageDays`: an array, by the text of each entry, or another value.
pub data JsonDays : Type 0 where
  days : List String → JsonDays
  no_days : JsonDays

-- Members stand in the order of tier and rotation, overrides with the latest first.
pub record Schedule : Type 0 where
  pub id : String
  pub org_id : String
  pub is_enabled : Bool
  pub timezone : String
  pub start_at : ℕ
  pub handoff_interval : String
  pub handoff_hour : ℕ
  pub coverage_enabled : Bool
  pub coverage_days : JsonDays
  pub coverage_start : Option String
  pub coverage_end : Option String
  pub fallback_schedule_id : Option String
  pub members : List Member
  pub overrides : List Override
  pub calendars : List Calendar

abbrev pub hour_ms : ℕ
hour_ms = 3600000

abbrev pub day_ms : ℕ
day_ms = 86400000

-- `zone || "UTC"`
abbrev pub or_utc : String → String
or_utc zone = if is_empty zone then "UTC" else zone

abbrev pub codes_of : String → List ℕ
codes_of Str.[] = []
codes_of (Str.◌∷◌ c s) = code c ∷ codes_of s
