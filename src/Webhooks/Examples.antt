-- ===== src/Webhooks/Examples.antt =====
-- The theorems on webhooks at concrete tables.
use kritvia_global_dashboard.Base.{
  Memᴰ, [], false, find, if◌then◌else◌, none, refl, some, starts_with, strip_prefix, trim, true, ℕ,
  ◌==◌, ◌∷◌, ◌≡◌,
}
use kritvia_global_dashboard.Webhooks.{
  DispatchJobPayload, Fetched, Hooks, OrgAppInstall, WebhookEndpoint, event_names, no_response,
  responded, supports_event,
}
use kritvia_global_dashboard.Webhooks.Attempts.{after_attempts, dispatch_to_endpoint_lem}
use kritvia_global_dashboard.Webhooks.Delivery.{
  Net, dispatch_to_endpoint, on_success, returned, send_request, thrown,
}
use kritvia_global_dashboard.Webhooks.Failures.{endpoint_id_is, run_jobs-failures}
use kritvia_global_dashboard.Webhooks.Installs.{
  Source, Subscribed, collect_dispatch_jobs-Source, install_job-thrown,
}
use kritvia_global_dashboard.Webhooks.Jobs.{
  Vault, collect_dispatch_jobs, collect_installed_app_dispatch_jobs, endpoint_job, install_job,
  job_of_install, run_jobs,
}

abbrev net_with : (ℕ → Fetched) → Net
net_with answers = record {
  fetch = answers;
  took = λ n. 5;
  clock = λ n. n;
  sha256 = λ t. t;
  hmac = λ k t. t;
  digits = λ n. "500";
}

-- The second attempt succeeds.
abbrev second_time : ℕ → Fetched
second_time n = if n == 2 then responded 204 none else responded 500 (some "busy")

abbrev never : ℕ → Fetched
never n = no_response (some "refused")

abbrev hook : WebhookEndpoint
hook = record {
  id = "w1";
  org_id = "o1";
  url = "https://example.org/hook";
  secret = "k";
  events = event_names ("INCIDENT_CREATED" ∷ []);
  is_active = true;
  failure_count = 9;
  last_failure_at = none;
}

abbrev install : OrgAppInstall
install = record {
  id = "a1";
  org_id = "o1";
  status = "INSTALLED";
  config_encrypted = some "c";
  secret_encrypted = some "s";
  app_key = "chat";
  webhook_events = event_names ("INCIDENT_CREATED" ∷ []);
  last_used_at = none;
}

abbrev hooks : Hooks
hooks = record {
  endpoints = hook ∷ [];
  installs = install ∷ [];
  deliveries = [];
  requests = [];
  spikes = [];
  queue = [];
}

abbrev vault : Vault
vault = record { webhook_url = λ c. some (some "https://chat.example"); decrypt_secret = some }

abbrev hook_job : DispatchJobPayload
hook_job = endpoint_job "INCIDENT_CREATED" "{}" hook

abbrev app_job : DispatchJobPayload
app_job = install_job "INCIDENT_CREATED" "{}" install "https://chat.example" "s"

dispatch_to_endpoint_example : dispatch_to_endpoint (net_with second_time) hook_job hooks ≡ (
  on_success
      (net_with second_time)
      hook_job
      2
      (after_attempts (net_with second_time) hook_job hooks),
  returned,
)
dispatch_to_endpoint_example = dispatch_to_endpoint_lem (net_with second_time) hook_job hooks refl

run_jobs-failures_example :
    (e : WebhookEndpoint) × (find
        (endpoint_id_is "w1")
        (run_jobs (λ j. net_with never) (hook_job ∷ []) hooks).endpoints
      ≡ some e)
    × (e.failure_count ≡ 10)
    × (e.is_active ≡ false)
run_jobs-failures_example =
    run_jobs-failures (λ j. net_with never) (hook_job ∷ []) hooks "w1" hook refl refl
      ((refl, refl, refl), tt)

app_job_collected :
    Memᴰ app_job (collect_installed_app_dispatch_jobs vault hooks "o1" "INCIDENT_CREATED" "{}")
unfolding collect_installed_app_dispatch_jobs job_of_install supports_event trim
app_job_collected = Memᴰ.head refl

collect_dispatch_jobs-Source_example :
    ((job : DispatchJobPayload)
      → Memᴰ job (collect_dispatch_jobs vault hooks "o1" "INCIDENT_CREATED" "{}")
      → Source hooks "o1" "INCIDENT_CREATED" "{}" job)
    × ((e : WebhookEndpoint)
        → Memᴰ e hooks.endpoints
        → Subscribed "o1" "INCIDENT_CREATED" e
        → Memᴰ
            (endpoint_job "INCIDENT_CREATED" "{}" e)
            (collect_dispatch_jobs vault hooks "o1" "INCIDENT_CREATED" "{}"))
collect_dispatch_jobs-Source_example =
    collect_dispatch_jobs-Source vault hooks "o1" "INCIDENT_CREATED" "{}"

-- The endpoint of the event gets its job.
job_collected : Memᴰ hook_job (collect_dispatch_jobs vault hooks "o1" "INCIDENT_CREATED" "{}")
unfolding collect_dispatch_jobs supports_event starts_with strip_prefix
job_collected = Memᴰ.head refl

install_job-thrown_example :
    dispatch_to_endpoint (net_with second_time) app_job hooks
    ≡ (send_request (net_with second_time) app_job hooks, thrown)
install_job-thrown_example =
    install_job-thrown vault hooks "o1" "INCIDENT_CREATED" "{}" (net_with second_time) app_job
      (refl, tt) app_job_collected
