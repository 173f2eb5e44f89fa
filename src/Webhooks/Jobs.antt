-- ===== src/Webhooks/Jobs.antt =====
-- `dispatch` of org-webhooks/webhook.service.ts: the jobs of an event, which are queued, or run
-- where there is no queue. Decryption is a parameter.
use mathlib.Core.Option
use kritvia_global_dashboard.Base.{
  Bool, List, Option, String, [], if◌then◌else◌, is_some, keep, map, none, not, some, starts_with,
  trim, ◌&&◌, ◌++◌, ◌===◌, ◌∷◌,
}
use kritvia_global_dashboard.OnCall.Resolver.{present}
use kritvia_global_dashboard.Webhooks.{
  DispatchJobPayload, Hooks, OrgAppInstall, WebhookEndpoint, supports_event,
}
use kritvia_global_dashboard.Webhooks.Delivery.{Net, dispatch_to_endpoint}

pub record Vault : Type 0 where
  pub webhook_url : String → Option (Option String)
  pub decrypt_secret : String → Option String

-- The conditions of the query, and the filter.
abbrev pub subscribed : String → String → WebhookEndpoint → Bool
subscribed org_id event_name e =
    e.org_id === org_id
    && e.is_active
    && not (starts_with "app-install://" e.url)
    && supports_event e.events event_name

abbrev pub endpoint_job : String → String → WebhookEndpoint → DispatchJobPayload
endpoint_job event_name body e = record {
  org_id = e.org_id;
  endpoint_id = e.id;
  url = e.url;
  secret = e.secret;
  event_name = event_name;
  body = body;
  app_key = none;
  app_install_id = none;
}

abbrev pub install_job : String → String → OrgAppInstall → String → String → DispatchJobPayload
install_job event_name body i url secret = record {
  org_id = i.org_id;
  endpoint_id = i.id;
  url = url;
  secret = secret;
  event_name = event_name;
  body = body;
  app_key = some i.app_key;
  app_install_id = some i.id;
}

-- `if (!value) continue`
abbrev pub chain {ℓ κ} : {A : Type ℓ} {B : Type κ} → Option A → (A → Option B) → Option B
chain none f = none
chain (some a) f = f a

-- An install that cannot be decrypted, or has no address, is passed over.
abbrev pub opened_job : Vault → String → String → OrgAppInstall → Option DispatchJobPayload
opened_job vault event_name body i = chain (present i.config_encrypted) (λ config.
    chain (present i.secret_encrypted) (λ secret. chain (vault.webhook_url config) (λ url.
      chain (present (Option.map trim url)) (λ trimmed.
        chain (vault.decrypt_secret secret)
          (λ plain. some (install_job event_name body i trimmed plain))))))

unfoldable pub job_of_install : Vault → String → String → OrgAppInstall → Option DispatchJobPayload
unfolding supports_event
job_of_install vault event_name body i =
    if not (supports_event i.webhook_events event_name)
    then none
    else opened_job vault event_name body i

abbrev pub some_of {ℓ} : {A : Type ℓ} → Option A → List A → List A
some_of none xs = xs
some_of (some x) xs = x ∷ xs

abbrev pub jobs_of : Vault → String → String → List OrgAppInstall → List DispatchJobPayload
jobs_of vault event_name body [] = []
jobs_of vault event_name body (i ∷ is) =
    some_of (job_of_install vault event_name body i) (jobs_of vault event_name body is)

abbrev pub installed : String → OrgAppInstall → Bool
installed org_id i =
    i.org_id === org_id
    && i.status === "INSTALLED"
    && is_some i.config_encrypted
    && is_some i.secret_encrypted

unfoldable pub collect_installed_app_dispatch_jobs :
    Vault → Hooks → String → String → String → List DispatchJobPayload
unfolding job_of_install supports_event
collect_installed_app_dispatch_jobs vault s org_id event_name body =
    jobs_of vault event_name body (keep (installed org_id) s.installs)

unfoldable pub collect_dispatch_jobs :
    Vault → Hooks → String → String → String → List DispatchJobPayload
unfolding collect_installed_app_dispatch_jobs supports_event
collect_dispatch_jobs vault s org_id event_name body =
    map (endpoint_job event_name body) (keep (subscribed org_id event_name) s.endpoints)
    ++ collect_installed_app_dispatch_jobs vault s org_id event_name body

-- One job after another; what one throws is logged. Each job has its own requests to the network.
unfoldable pub run_jobs : (DispatchJobPayload → Net) → List DispatchJobPayload → Hooks → Hooks
unfolding dispatch_to_endpoint
run_jobs net [] s = s
run_jobs net (job ∷ jobs) s = run_jobs net jobs (dispatch_to_endpoint (net job) job s).0

unfoldable pub dispatch :
    Vault → (DispatchJobPayload → Net) → Bool → Hooks → String → String → String → Hooks
unfolding run_jobs collect_dispatch_jobs
dispatch vault net jobs_enabled s org_id event_name body =
    let jobs = collect_dispatch_jobs vault s org_id event_name body in
    if not jobs_enabled then run_jobs net jobs s else record s { queue = s.queue ++ jobs }
