-- ===== src/Routing.antt =====
-- apps/api/src/alerts/alert-routing.service.ts: the alert events, channels and deliveries of the
-- database, with the circuit breakers that the service keeps in memory. Times are milliseconds.
pub mod Channels
pub mod Jobs
pub mod Once
pub mod Breakers
pub mod Again
pub mod Routes
mod Examples
use kritvia_global_dashboard.Base.{
  Bool, List, Option, String, [], false, if◌then◌else◌, leb, none, some, ℕ, ◌===◌, ◌∷◌,
}

pub record RoutedEvent : Type 0 where
  pub id : String
  pub org_id : String
  pub type : String
  pub severity : String
  pub title : String

-- What the service reads of a decrypted configuration: the texts, where they are texts, and the
-- texts of the list `to`.
pub record ChannelConfig : Type 0 where
  pub url : Option String
  pub secret : Option String
  pub to : List String
  pub from_address : Option String
  pub channel : Option String
  pub channel_id : Option String

pub record AlertChannel : Type 0 where
  pub id : String
  pub org_id : String
  pub type : String
  pub is_enabled : Bool
  pub min_severity : String
  pub config_encrypted : Option String

pub record AlertDelivery : Type 0 where
  pub org_id : String
  pub alert_event_id : String
  pub channel_id : String
  pub success : Bool
  pub status_code : Option ℕ
  pub error : Option String
  pub duration_ms : Option ℕ
  pub created_at : ℕ

pub record Breaker : Type 0 where
  pub fail_count : ℕ
  pub open_until : Option ℕ

pub record Router : Type 0 where
  pub events : List RoutedEvent
  pub channels : List AlertChannel
  pub alert_deliveries : List AlertDelivery
  pub breakers : List (String × Breaker)

-- `SEVERITY_WEIGHT`; another text has none.
unfoldable pub severity_weight : String → Option ℕ
severity_weight severity =
    if severity === "LOW"
    then some 0
    else if severity === "MEDIUM"
    then some 1
    else if severity === "HIGH"
    then some 2
    else if severity === "CRITICAL"
    then some 3
    else none

-- A comparison with a missing weight fails.
abbrev pub at_least : Option ℕ → Option ℕ → Bool
at_least (some a) (some b) = leb b a
at_least _ _ = false

unfoldable pub is_severity_eligible : String → String → Bool
unfolding severity_weight
is_severity_eligible event_severity min_severity =
    at_least (severity_weight event_severity) (severity_weight min_severity)

-- `breakerState.get`
abbrev pub breaker_of : String → List (String × Breaker) → Option Breaker
breaker_of id [] = none
breaker_of id ((k, b) ∷ rest) = if k === id then some b else breaker_of id rest

-- `breakerState.set`
abbrev pub set_breaker : String → Breaker → List (String × Breaker) → List (String × Breaker)
set_breaker id b [] = (id, b) ∷ []
set_breaker id b ((k, c) ∷ rest) =
    if k === id then (id, b) ∷ rest else (k, c) ∷ set_breaker id b rest
