-- ===== src/Webhooks.antt =====
-- apps/api/src/org-webhooks/webhook.service.ts: the tables that it reads and writes, with the
-- requests that it sends and the failures that it records, in their order. Times are milliseconds.
pub mod Delivery
pub mod Jobs
pub mod Attempts
pub mod Failures
pub mod Installs
pub mod Retries
mod Examples
use Prim.Native.String as Str
use kritvia_global_dashboard.Base.{
  Bool, List, Option, String, [], any, false, if◌then◌else◌, is_empty, none, some, suc, trim, zero,
  ℕ, ◌===◌,
}

-- The JSON columns of events: an array, by its entries that are texts, or another value.
pub data JsonEvents : Type 0 where
  event_names : List String → JsonEvents
  no_events : JsonEvents

pub record WebhookEndpoint : Type 0 where
  pub id : String
  pub org_id : String
  pub url : String
  pub secret : String
  pub events : JsonEvents
  pub is_active : Bool
  pub failure_count : ℕ
  pub last_failure_at : Option ℕ

-- An install of an app, with the key and the events of the app.
pub record OrgAppInstall : Type 0 where
  pub id : String
  pub org_id : String
  pub status : String
  pub config_encrypted : Option String
  pub secret_encrypted : Option String
  pub app_key : String
  pub webhook_events : JsonEvents
  pub last_used_at : Option ℕ

pub record WebhookDelivery : Type 0 where
  pub org_id : String
  pub endpoint_id : String
  pub event : String
  pub status_code : Option ℕ
  pub success : Bool
  pub error : Option String
  pub duration_ms : ℕ
  pub request_body_hash : String
  pub response_body_snippet : Option String
  pub attempt : ℕ

pub record DispatchJobPayload : Type 0 where
  pub org_id : String
  pub endpoint_id : String
  pub url : String
  pub secret : String
  pub event_name : String
  pub body : String
  pub app_key : Option String
  pub app_install_id : Option String

pub record WebhookRequest : Type 0 where
  pub url : String
  pub event : String
  pub signature : String
  pub app_key : Option String
  pub body : String

-- A call of `recordFailure("WEBHOOK_FAILURE_SPIKE")`.
pub record FailureSpike : Type 0 where
  pub org_id : String
  pub endpoint_id : String
  pub app_install_id : Option String
  pub event_name : String
  pub reason : String

pub record Hooks : Type 0 where
  pub endpoints : List WebhookEndpoint
  pub installs : List OrgAppInstall
  pub deliveries : List WebhookDelivery
  pub requests : List WebhookRequest
  pub spikes : List FailureSpike
  pub queue : List DispatchJobPayload

-- What `fetch` ends with: a status and the text of the body, where it can be read, or an error,
-- with its message where it has one.
pub data Fetched : Type 0 where
  responded : ℕ → Option String → Fetched
  no_response : Option String → Fetched

unfoldable pub supports_event : JsonEvents → String → Bool
supports_event no_events event_name = false
supports_event (event_names events) event_name = any (λ e. e === event_name) events

abbrev pub first_characters : ℕ → String → String
first_characters zero s = Str.[]
first_characters (suc n) Str.[] = Str.[]
first_characters (suc n) (Str.◌∷◌ c s) = Str.◌∷◌ c (first_characters n s)

-- A character counts as one, those beyond the basic plane as well.
unfoldable pub truncate_snippet : String → Option String
truncate_snippet value =
    let trimmed = trim value in
    if is_empty trimmed then none else some (first_characters 1024 trimmed)
