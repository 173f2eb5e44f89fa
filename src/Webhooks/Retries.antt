-- ===== src/Webhooks/Retries.antt =====
-- The deliveries of org-webhooks/webhook.service.ts that are asked for one by one: a retry, a retry
-- for an installed app, and a test trigger. JSON.stringify of the new body is a parameter.
use mathlib.Core.Option
use kritvia_global_dashboard.Base.{
  All, Bool, List, Option-cases, String, [], any, eq_iff, false, find, find-mem, if◌then◌else◌, inl,
  inr, is_some, mem-All, none, not, refl, some, starts_with, trim, true, ◌&&◌, ◌++◌, ◌===◌, ◌∷◌,
  ◌≡◌,
}
use kritvia_global_dashboard.OnCall.Resolver.{present}
use kritvia_global_dashboard.Webhooks.{
  DispatchJobPayload, Hooks, OrgAppInstall, WebhookDelivery, supports_event,
}
use kritvia_global_dashboard.Webhooks.Delivery.{Ended, Net, dispatch_to_endpoint, returned, thrown}
use kritvia_global_dashboard.Webhooks.Jobs.{Vault, endpoint_job, install_job, installed}
use mathlib.Core.Bool.{and-eq-true_iff}

-- A text of an install; what decryption throws is not caught here.
pub data Opened : Type 0 where
  has_texts : String → String → Opened
  passed_over decryption_threw : Opened

abbrev pub open_secret : Vault → String → String → Opened
open_secret vault trimmed secret = elim (vault.decrypt_secret secret) [
  | none ↦ decryption_threw
  | some plain ↦ has_texts trimmed plain
]

abbrev pub open_texts : Vault → String → String → Opened
open_texts vault config secret = elim (vault.webhook_url config) [
  | none ↦ decryption_threw
  | some url ↦ elim (present (Option.map trim url)) [
    | none ↦ passed_over
    | some trimmed ↦ open_secret vault trimmed secret
  ]
]

abbrev pub open_install : Vault → OrgAppInstall → Opened
open_install vault i = elim (present i.config_encrypted) [
  | none ↦ passed_over
  | some config ↦ elim (present i.secret_encrypted) [
    | none ↦ passed_over
    | some secret ↦ open_texts vault config secret
  ]
]

abbrev pub is_delivery : String → String → String → String × WebhookDelivery → Bool
is_delivery org_id install_id delivery_id (id, d) =
    id === delivery_id && (d.org_id === org_id && d.endpoint_id === install_id)

module _ (net : Net) (jobs_enabled : Bool) (s : Hooks) where
  -- The job runs at once where there is no queue.
  unfoldable pub dispatch_to_installed_app_candidate : DispatchJobPayload → Hooks × Ended
  unfolding dispatch_to_endpoint
  dispatch_to_installed_app_candidate job =
      if not jobs_enabled
      then dispatch_to_endpoint net job s
      else (record s { queue = s.queue ++ job ∷ [] }, returned)

  unfoldable pub dispatch_opened : String → String → OrgAppInstall → Opened → Hooks × Ended
  unfolding dispatch_to_installed_app_candidate
  dispatch_opened event_name body i passed_over = (s, returned)
  dispatch_opened event_name body i decryption_threw = (s, thrown)
  dispatch_opened event_name body i (has_texts url plain) =
      dispatch_to_installed_app_candidate (install_job event_name body i url plain)

  unfoldable pub send_test_trigger_to_installed_app :
      Vault → String → String → String → String → Hooks × Ended
  unfolding dispatch_opened supports_event
  send_test_trigger_to_installed_app vault org_id app_key event_name body =
      elim (find (λ i. i.org_id === org_id && i.status === "INSTALLED" && i.app_key === app_key)
        s.installs) [
          | none ↦ (s, returned)
          | some i ↦
              if is_some (present i.config_encrypted)
                && is_some (present i.secret_encrypted)
                && supports_event i.webhook_events event_name
              then dispatch_opened event_name body i (open_install vault i)
              else (s, returned)
        ]

  -- The rows of the deliveries come with their identifiers.
  unfoldable pub retry_installed_app_delivery :
      Vault
      → (WebhookDelivery → String)
      → List (String × WebhookDelivery)
      → String
      → String
      → String
      → Hooks × Ended
  unfolding dispatch_opened
  retry_installed_app_delivery vault replay rows org_id install_id delivery_id =
      elim (find (is_delivery org_id install_id delivery_id) rows) [
        | none ↦ (s, returned)
        | some (id, d) ↦ elim (find (λ i. i.id === install_id && installed org_id i) s.installs) [
          | none ↦ (s, returned)
          | some i ↦ dispatch_opened d.event (replay d) i (open_install vault i)
        ]
      ]

  unfoldable pub retry_delivery : String → String → String → String → Hooks × Ended
  unfolding dispatch_to_endpoint
  retry_delivery org_id endpoint_id event_name body =
      elim (find
        (λ e.
          e.id === endpoint_id && (e.org_id === org_id && not (starts_with "app-install://" e.url)))
        s.endpoints) [
          | none ↦ (s, returned)
          | some e ↦ dispatch_to_endpoint net (endpoint_job event_name body e) s
        ]

-- The foreign key of the deliveries.
abbrev pub KnownEndpoint : Hooks → String × WebhookDelivery → Type 0
KnownEndpoint s row = any (λ e. e.id === row.1.endpoint_id) s.endpoints ≡ true

known_as :
    (s : Hooks) (a b : String)
    → a ≡ b
    → any (λ e. e.id === a) s.endpoints ≡ true
    → any (λ e. e.id === b) s.endpoints ≡ true
known_as s a b same_id h = rw (← same_id) h

-- The deliveries belong to endpoints by their key. If the identifier of an install is no endpoint's,
-- a retry of a delivery to the install finds none: it returns, and nothing happens.
pub retry_installed_app_delivery-idle :
    (net : Net) (jobs_enabled : Bool) (s : Hooks) (vault : Vault)
    (replay : WebhookDelivery → String) (rows : List (String × WebhookDelivery))
    (org_id install_id delivery_id : String)
    → All (KnownEndpoint s) rows
    → any (λ e. e.id === install_id) s.endpoints ≡ false
    → retry_installed_app_delivery net jobs_enabled s vault replay rows org_id install_id
        delivery_id
      ≡ (s, returned)
unfolding retry_installed_app_delivery
retry_installed_app_delivery-idle net jobs_enabled s vault replay rows org_id install_id delivery_id
      known apart =
    elim (Option-cases (find (is_delivery org_id install_id delivery_id) rows)) [
      | inl e ↦ rw (retry_installed_app_delivery, e) refl
      | inr (row, e) ↦
          let (m, test) = find-mem (is_delivery org_id install_id delivery_id) rows row e in
          let here : row.1.endpoint_id ≡ install_id =
            (eq_iff _ _).0 ((and-eq-true_iff _ _).0 ((and-eq-true_iff _ _).0 test).1).1 in
          let clash =
            known_as s row.1.endpoint_id install_id here (mem-All (KnownEndpoint s) m known) in
          absurd (cc)
    ]
