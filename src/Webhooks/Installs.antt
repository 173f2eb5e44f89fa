-- ===== src/Webhooks/Installs.antt =====
-- Where the jobs of an event come from, and what becomes of those of installed apps.
use mathlib.Core.Option
use kritvia_global_dashboard.Base.{
  All, Bool, Bool-cases, List, Memᴰ, Option, String, [], any, any-mem, ap, arith, concat_mem,
  eq_iff, eq_refl, false, inl, inr, keep, keep-mem, map, map-mem, mem-All, mem-any, mem-keep,
  mem-map, mem_concat, none, not, refl, some, starts_with, sym, trim, true, ◌===◌, ◌∙◌, ◌∷◌, ◌≡◌,
}
use kritvia_global_dashboard.OnCall.Resolver.{present}
use kritvia_global_dashboard.Webhooks.{
  DispatchJobPayload, Hooks, JsonEvents, OrgAppInstall, WebhookEndpoint, event_names, no_events,
  supports_event,
}
use kritvia_global_dashboard.Webhooks.Delivery.{
  Net, attempt_from, dispatch_to_endpoint, endpoint_exists, send_request, thrown,
}
use kritvia_global_dashboard.Webhooks.Jobs.{
  Vault, chain, collect_dispatch_jobs, collect_installed_app_dispatch_jobs, endpoint_job,
  install_job, installed, job_of_install, jobs_of, opened_job, some_of, subscribed,
}
use mathlib.Core.Bool.{and-eq-true_iff, false≢true}

chain-eq-some {ℓ κ} :
    {A : Type ℓ} {B : Type κ} (o : Option A) (f : A → Option B) (b : B)
    → chain o f ≡ some b
    → (a : A) × (o ≡ some a) × (f a ≡ some b)
chain-eq-some none f b h = absurd (cc)
chain-eq-some (some a) f b h = (a, refl, h)

some_job : (a b : DispatchJobPayload) → some a ≡ some b → a ≡ b
some_job a b e = ground arith

-- A job of an installed app: it names the install and the organisation, and carries the event,
-- which the app is for.
pub record FromInstall (event_name body : String) (i : OrgAppInstall) (job : DispatchJobPayload)
    : Type 0 where
  pub endpoint_id : job.endpoint_id ≡ i.id
  pub org_id : job.org_id ≡ i.org_id
  pub app_install_id : job.app_install_id ≡ some i.id
  pub event : (job.event_name ≡ event_name) × (job.body ≡ body)
  pub supports : supports_event i.webhook_events event_name ≡ true

opened_job-some :
    (vault : Vault) (event_name body : String) (i : OrgAppInstall) (job : DispatchJobPayload)
    → opened_job vault event_name body i ≡ some job
    → (trimmed : String) × (plain : String) × (install_job event_name body i trimmed plain ≡ job)
opened_job-some vault event_name body i job h =
    let (config, c, h1) = chain-eq-some (present i.config_encrypted) _ job h in
    let (secret, d, h2) = chain-eq-some (present i.secret_encrypted) _ job h1 in
    let (url, u, h3) = chain-eq-some (vault.webhook_url config) _ job h2 in
    let (trimmed, t, h4) = chain-eq-some (present (Option.map trim url)) _ job h3 in
    let (plain, q, h5) = chain-eq-some (vault.decrypt_secret secret) _ job h4 in
    (trimmed, plain, some_job (install_job event_name body i trimmed plain) job h5)

job_of_install-some :
    (vault : Vault) (event_name body : String) (i : OrgAppInstall) (job : DispatchJobPayload)
    → job_of_install vault event_name body i ≡ some job
    → FromInstall event_name body i job
unfolding job_of_install
job_of_install-some vault event_name body i job h =
    elim (Bool-cases (supports_event i.webhook_events event_name)) [
      | inr other ↦
          let nothing : job_of_install vault event_name body i ≡ none =
            rw (job_of_install, other) refl in
          absurd (cc)
      | inl supports ↦
          let opened : job_of_install vault event_name body i ≡ opened_job vault event_name body i =
            rw (job_of_install, supports) refl in
          let (trimmed, plain, e) = opened_job-some vault event_name body i job (sym opened ∙ h) in
          rw (← e) (record {
            endpoint_id = refl;
            org_id = refl;
            app_install_id = refl;
            event = (refl, refl);
            supports = supports;
          })
    ]

jobs_of-mem :
    (vault : Vault) (event_name body : String) (rows : List OrgAppInstall)
    (job : DispatchJobPayload)
    → Memᴰ job (jobs_of vault event_name body rows)
    → (i : OrgAppInstall) × Memᴰ i rows × (job_of_install vault event_name body i ≡ some job)
jobs_of-mem vault event_name body [] job m = elim m [ ]
jobs_of-mem vault event_name body (i ∷ rows) job m =
    by_job (job_of_install vault event_name body i) refl
      (jobs_of-mem vault event_name body rows job) m
  where
    by_job :
        (o : Option DispatchJobPayload)
        → job_of_install vault event_name body i ≡ o
        → (Memᴰ job (jobs_of vault event_name body rows)
            → (j : OrgAppInstall) × Memᴰ j rows
              × (job_of_install vault event_name body j ≡ some job))
        → Memᴰ job (some_of o (jobs_of vault event_name body rows))
        → (j : OrgAppInstall) × Memᴰ j (i ∷ rows)
          × (job_of_install vault event_name body j ≡ some job)
    by_job none e later n = let (j, k, f) = later n in (j, Memᴰ.tail k, f)
    by_job (some first) e later (Memᴰ.head same_job) =
        (i, Memᴰ.head refl, e ∙ ap (λ x. some x) (sym same_job))
    by_job (some first) e later (Memᴰ.tail n) = let (j, k, f) = later n in (j, Memᴰ.tail k, f)

-- The event is one of the column's.
abbrev pub Lists : String → JsonEvents → Type 0
Lists event_name column =
    (events : List String) × (column ≡ event_names events) × Memᴰ event_name events

supports_event-Lists :
    (column : JsonEvents) (event_name : String)
    → supports_event column event_name ≡ true
    → Lists event_name column
unfolding supports_event
supports_event-Lists no_events event_name h = absurd (false≢true h)
supports_event-Lists (event_names events) event_name h =
    let (e, m, t) = any-mem (λ e. e === event_name) events h in
    (events, refl, rw (← (eq_iff e event_name).0 t) m)

Lists-supports_event :
    (column : JsonEvents) (event_name : String)
    → Lists event_name column
    → supports_event column event_name ≡ true
unfolding supports_event
Lists-supports_event column event_name (events, e, m) =
    rw (e, supports_event) (mem-any (λ x. x === event_name) m (eq_refl event_name))

-- An endpoint that an event of the organisation goes to.
pub record Subscribed (org_id event_name : String) (e : WebhookEndpoint) : Type 0 where
  pub of_org : e.org_id ≡ org_id
  pub active : e.is_active ≡ true
  pub no_app : starts_with "app-install://" e.url ≡ false
  pub listed : Lists event_name e.events

subscribed-Subscribed :
    (org_id event_name : String) (e : WebhookEndpoint)
    → subscribed org_id event_name e ≡ true
    → Subscribed org_id event_name e
subscribed-Subscribed org_id event_name e t =
    let (t1, events) = (and-eq-true_iff _ _).0 t in
    let (t2, own) = (and-eq-true_iff _ _).0 t1 in
    let (org, on) = (and-eq-true_iff _ _).0 t2 in
    record {
      of_org = (eq_iff e.org_id org_id).0 org;
      active = on;
      no_app = not_true _ own;
      listed = supports_event-Lists e.events event_name events;
    }
  where
    not_true : (b : Bool) → not b ≡ true → b ≡ false
    not_true true h = absurd (false≢true h)
    not_true false h = refl

Subscribed-subscribed :
    (org_id event_name : String) (e : WebhookEndpoint)
    → Subscribed org_id event_name e
    → subscribed org_id event_name e ≡ true
Subscribed-subscribed org_id event_name e h =
    rw
      (
        (eq_iff e.org_id org_id).1 h.of_org,
        h.active,
        h.no_app,
        Lists-supports_event e.events event_name h.listed,
      )
      refl

-- Where a job of an event comes from: an endpoint that the event goes to, or an app that is
-- installed for the organisation.
pub data Source (s : Hooks) (org_id event_name body : String) (job : DispatchJobPayload)
    : Type 0 where
  of_endpoint :
      (e : WebhookEndpoint)
      → Memᴰ e s.endpoints
      → Subscribed org_id event_name e
      → (job.endpoint_id ≡ e.id)
        × (job.org_id ≡ org_id)
        × (job.url ≡ e.url)
        × (job.secret ≡ e.secret)
        × (job.event_name ≡ event_name)
        × (job.body ≡ body)
      → Source s org_id event_name body job
  of_install :
      (i : OrgAppInstall)
      → Memᴰ i s.installs
      → (i.org_id ≡ org_id) × (i.status ≡ "INSTALLED") × Lists event_name i.webhook_events
      → FromInstall event_name body i job
      → Source s org_id event_name body job

module _ (vault : Vault) (s : Hooks) (org_id event_name body : String) where
  installed_jobs :
      (job : DispatchJobPayload)
      → Memᴰ job (collect_installed_app_dispatch_jobs vault s org_id event_name body)
      → (i : OrgAppInstall) × Memᴰ i s.installs
        × (installed org_id i ≡ true)
        × FromInstall event_name body i job
  unfolding collect_installed_app_dispatch_jobs
  installed_jobs job m =
      let (i, n, e) =
        jobs_of-mem vault event_name body (keep (installed org_id) s.installs) job m in
      let (k, t) = mem-keep (installed org_id) s.installs i n in
      (i, k, t, job_of_install-some vault event_name body i job e)

  job-Source :
      (job : DispatchJobPayload)
      → Memᴰ job (collect_dispatch_jobs vault s org_id event_name body)
      → Source s org_id event_name body job
  unfolding collect_dispatch_jobs
  job-Source job m =
      elim (mem_concat
        (map (endpoint_job event_name body) (keep (subscribed org_id event_name) s.endpoints)) _ job
        m) [
          | inl n ↦
              let (e, k, same_job) = mem-map (endpoint_job event_name body) _ job n in
              let (l, t) = mem-keep (subscribed org_id event_name) s.endpoints e k in
              let h = subscribed-Subscribed org_id event_name e t in
              rw same_job (of_endpoint e l h (refl, h.of_org, refl, refl, refl, refl))
          | inr n ↦
              let (i, k, t, f) = installed_jobs job n in
              let (t1, _) = (and-eq-true_iff _ _).0 t in
              let (t2, _) = (and-eq-true_iff _ _).0 t1 in
              let (org, status) = (and-eq-true_iff _ _).0 t2 in
              of_install i k
                (
                  (eq_iff i.org_id org_id).0 org,
                  (eq_iff i.status "INSTALLED").0 status,
                  supports_event-Lists i.webhook_events event_name f.supports,
                )
                f
        ]

  -- The jobs of an event are those of the endpoints that it goes to, and of installed apps: each job
  -- comes from an active endpoint of the organisation that lists the event and does not stand for
  -- an app, whose address and secret it carries, or from an app that is installed for the
  -- organisation and lists the event; and no endpoint of this kind is left
  -- out.
  pub collect_dispatch_jobs-Source :
      ((job : DispatchJobPayload)
        → Memᴰ job (collect_dispatch_jobs vault s org_id event_name body)
        → Source s org_id event_name body job)
      × ((e : WebhookEndpoint)
          → Memᴰ e s.endpoints
          → Subscribed org_id event_name e
          → Memᴰ
              (endpoint_job event_name body e)
              (collect_dispatch_jobs vault s org_id event_name body))
  unfolding collect_dispatch_jobs
  collect_dispatch_jobs-Source = (
    job-Source,
    λ e m h. concat_mem _ (
        map-mem (endpoint_job event_name body) (
          keep-mem (subscribed org_id event_name) m (Subscribed-subscribed org_id event_name e h))),
  )

  -- If no install has the identifier of an endpoint, the dispatch of an app's job sends one request
  -- and throws, whatever is answered: the delivery is refused by the key of its endpoint, so that
  -- nothing is recorded, no attempt follows and the install is not marked as used.
  pub install_job-thrown :
      (net : Net) (job : DispatchJobPayload)
      → All (λ i. any (λ e. e.id === i.id) s.endpoints ≡ false) s.installs
      → Memᴰ job (collect_installed_app_dispatch_jobs vault s org_id event_name body)
      → dispatch_to_endpoint net job s ≡ (send_request net job s, thrown)
  unfolding dispatch_to_endpoint attempt_from
  install_job-thrown net job apart m =
      let (i, k, t, f) = installed_jobs job m in
      let unknown : endpoint_exists net job s ≡ false =
        rw f.endpoint_id (mem-All (λ j. any (λ e. e.id === j.id) s.endpoints ≡ false) k apart) in
      simp unknown
