-- ===== src/Webhooks/Delivery.antt =====
-- `dispatchToEndpoint` of org-webhooks/webhook.service.ts. What `fetch` ends with at an attempt, how
-- long it takes, the time after it, the digits of a status, SHA-256 and HMAC are parameters.
use Prim.Native.String as Str
use kritvia_global_dashboard.Base.{
  Bool, Option, String, [], any, false, if◌then◌else◌, leb, none, not, or_else, some, suc, update,
  zero, ℕ, ◌&&◌, ◌++◌, ◌+◌, ◌===◌, ◌∷◌,
}
use kritvia_global_dashboard.Webhooks.{
  DispatchJobPayload, FailureSpike, Fetched, Hooks, OrgAppInstall, WebhookDelivery, WebhookEndpoint,
  WebhookRequest, no_response, responded, truncate_snippet,
}

pub record Net : Type 0 where
  pub fetch : ℕ → Fetched
  pub took : ℕ → ℕ
  pub clock : ℕ → ℕ
  pub sha256 : String → String
  pub hmac : String → String → String
  pub digits : ℕ → String

-- `response.ok`
abbrev pub is_ok : ℕ → Bool
is_ok status = leb 200 status && leb status 299

abbrev pub succeeded : Fetched → Bool
succeeded (responded status text) = is_ok status
succeeded (no_response message) = false

abbrev pub status_of : Fetched → Option ℕ
status_of (responded status text) = some status
status_of (no_response message) = none

abbrev pub error_of : (ℕ → String) → Fetched → Option String
error_of digits (responded status text) =
    if is_ok status then none else some (Str.◌++◌ "Webhook responded with status " (digits status))
error_of digits (no_response message) = some (or_else message "Webhook request failed")

abbrev pub snippet_of : Fetched → Option String
snippet_of (responded status text) = truncate_snippet (or_else text "")
snippet_of (no_response message) = none

module _ (net : Net) (job : DispatchJobPayload) where
  abbrev pub request_of : WebhookRequest
  request_of = record {
    url = job.url;
    event = job.event_name;
    signature = net.hmac job.secret job.body;
    app_key = job.app_key;
    body = job.body;
  }

  abbrev pub delivery_of : ℕ → WebhookDelivery
  delivery_of attempt = record {
    org_id = job.org_id;
    endpoint_id = job.endpoint_id;
    event = job.event_name;
    status_code = status_of (net.fetch attempt);
    success = succeeded (net.fetch attempt);
    error = error_of net.digits (net.fetch attempt);
    duration_ms = net.took attempt;
    request_body_hash = net.sha256 job.body;
    response_body_snippet = snippet_of (net.fetch attempt);
    attempt = attempt;
  }

  abbrev pub send_request : Hooks → Hooks
  send_request s = record s { requests = s.requests ++ request_of ∷ [] }

  abbrev pub add_delivery : ℕ → Hooks → Hooks
  add_delivery attempt s = record s { deliveries = s.deliveries ++ delivery_of attempt ∷ [] }

  abbrev pub is_endpoint : WebhookEndpoint → Bool
  is_endpoint e = e.id === job.endpoint_id

  -- The foreign key of the deliveries.
  abbrev pub endpoint_exists : Hooks → Bool
  endpoint_exists s = any is_endpoint s.endpoints

  abbrev pub reset_row : WebhookEndpoint → WebhookEndpoint
  reset_row e = record e { failure_count = 0; last_failure_at = none }

  abbrev pub used_row : ℕ → OrgAppInstall → OrgAppInstall
  used_row now i = record i { last_used_at = some now }

  unfoldable pub on_success : ℕ → Hooks → Hooks
  on_success now s = elim job.app_install_id [
    | some install_id ↦ record s {
      installs = update (λ i. i.id === install_id) (used_row now) s.installs;
    }
    | none ↦ record s { endpoints = update is_endpoint reset_row s.endpoints }
  ]

  -- The increment, and at ten failures the end.
  abbrev pub failed_row : ℕ → WebhookEndpoint → WebhookEndpoint
  failed_row now e = record e {
    failure_count = e.failure_count + 1;
    last_failure_at = some now;
    is_active = if leb 10 (e.failure_count + 1) then false else e.is_active;
  }

  abbrev pub spike_of : ℕ → FailureSpike
  spike_of attempt = record {
    org_id = job.org_id;
    endpoint_id = job.endpoint_id;
    app_install_id = job.app_install_id;
    event_name = job.event_name;
    reason = or_else (error_of net.digits (net.fetch attempt)) "Unknown error";
  }

  -- Only endpoints are counted and stopped.
  abbrev pub count_failure : Option String → ℕ → Hooks → Hooks
  count_failure (some install_id) now s = s
  count_failure none now s = record s {
    endpoints = update is_endpoint (failed_row now) s.endpoints;
  }

  unfoldable pub on_failure : ℕ → ℕ → Hooks → Hooks
  on_failure attempt now s =
      let counted_once = count_failure job.app_install_id now s in
      record counted_once { spikes = counted_once.spikes ++ spike_of attempt ∷ [] }

-- How a dispatch ends: it returns, or throws, with the tables as they then are.
pub data Ended : Type 0 where
  returned thrown : Ended

module _ (net : Net) (job : DispatchJobPayload) where
  -- The loop from one attempt on, with the number of attempts that are left after it. A delivery
  -- that the foreign key refuses throws.
  unfoldable pub attempt_from : ℕ → ℕ → Hooks → Hooks × Ended
  unfolding on_success on_failure
  attempt_from zero attempt s =
      let s1 = send_request net job s in
      let s2 = add_delivery net job attempt s1 in
      if not (endpoint_exists net job s1)
      then (s1, thrown)
      else if succeeded (net.fetch attempt)
      then (on_success net job (net.clock attempt) s2, returned)
      else (on_failure net job attempt (net.clock attempt) s2, thrown)
  attempt_from (suc left) attempt s =
      let s1 = send_request net job s in
      let s2 = add_delivery net job attempt s1 in
      let later = attempt_from left (attempt + 1) s2 in
      if not (endpoint_exists net job s1)
      then (s1, thrown)
      else if succeeded (net.fetch attempt)
      then (on_success net job (net.clock attempt) s2, returned)
      else later

  unfoldable pub dispatch_to_endpoint : Hooks → Hooks × Ended
  unfolding attempt_from
  dispatch_to_endpoint s = attempt_from 2 1 s
