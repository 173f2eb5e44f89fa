-- ===== src/Webhooks/Failures.antt =====
-- Failures of an endpoint in a row.
use kritvia_global_dashboard.Base.{
  All, Bool, List, String, [], arith, false, find, find-mem, find-update, if◌then◌else◌, leb,
  length, ltb, mem-any, none, refl, some, suc, sym, true, ℕ, ◌&&◌, ◌+◌, ◌===◌, ◌∙◌, ◌∷◌, ◌≡◌,
}
use kritvia_global_dashboard.Webhooks.{DispatchJobPayload, Hooks, WebhookEndpoint}
use kritvia_global_dashboard.Webhooks.Attempts.{any_success, dispatch_to_endpoint_lem, success_at}
use kritvia_global_dashboard.Webhooks.Delivery.{
  Net, dispatch_to_endpoint, endpoint_exists, failed_row, on_failure,
}
use kritvia_global_dashboard.Webhooks.Jobs.{run_jobs}

abbrev pub endpoint_id_is : String → WebhookEndpoint → Bool
endpoint_id_is id e = e.id === id

-- A job for the endpoint, of which no attempt succeeds.
abbrev pub FailsFor : (DispatchJobPayload → Net) → String → DispatchJobPayload → Type 0
FailsFor net id job =
    (job.endpoint_id ≡ id)
    × (job.app_install_id ≡ none)
    × (any_success (success_at (net job) job) ≡ false)

fail_once :
    (net : Net) (job : DispatchJobPayload) (s : Hooks) (e : WebhookEndpoint)
    → job.app_install_id ≡ none
    → any_success (success_at net job) ≡ false
    → find (endpoint_id_is job.endpoint_id) s.endpoints ≡ some e
    → find (endpoint_id_is job.endpoint_id) (dispatch_to_endpoint net job s).0.endpoints
      ≡ some (failed_row net job (net.clock 3) e)
unfolding on_failure
fail_once net job s e no_install fails found =
    let (m, own) = find-mem (endpoint_id_is job.endpoint_id) s.endpoints e found in
    let known : endpoint_exists net job s ≡ true = mem-any (endpoint_id_is job.endpoint_id) m own in
    let there =
      find-update (endpoint_id_is job.endpoint_id) (endpoint_id_is job.endpoint_id)
        (failed_row net job (net.clock 3)) s.endpoints e (λ y. refl) found in
    let row = rw own at there in
    rw (dispatch_to_endpoint_lem net job s known, fails, no_install) row

-- An endpoint that has failed ten times is not active.
abbrev pub StoppedAtTen : WebhookEndpoint → Type 0
StoppedAtTen e = (leb 10 e.failure_count && e.is_active) ≡ false

failed_row-StoppedAtTen :
    (net : Net) (job : DispatchJobPayload) (now : ℕ) (e : WebhookEndpoint)
    → StoppedAtTen (failed_row net job now e)
failed_row-StoppedAtTen net job now e = ground arith

found_at :
    (rows : List WebhookEndpoint) (a b : String) (e : WebhookEndpoint)
    → a ≡ b
    → find (endpoint_id_is a) rows ≡ some e
    → find (endpoint_id_is b) rows ≡ some e
found_at rows a b e same_id h = rw (← same_id) h

active_at_first :
    (c : ℕ) (active : Bool) → (leb 10 c && active) ≡ false → active ≡ (active && ltb (c + 0) 10)
active_at_first c active h = ground arith

still_active :
    (c n : ℕ) (active : Bool)
    → ((if leb 10 (c + 1) then false else active) && ltb (c + 1 + n) 10)
      ≡ (active && ltb (c + suc n) 10)
still_active c n active = ground arith

-- Each job of an endpoint that fails adds one to its failures, and once they are ten the endpoint
-- is stopped, until when it stays as active as it was.
pub run_jobs-failures :
    (net : DispatchJobPayload → Net) (jobs : List DispatchJobPayload) (s : Hooks) (id : String)
    (e : WebhookEndpoint)
    → find (endpoint_id_is id) s.endpoints ≡ some e
    → StoppedAtTen e
    → All (FailsFor net id) jobs
    → (e' : WebhookEndpoint) × (find (endpoint_id_is id) (run_jobs net jobs s).endpoints ≡ some e')
      × (e'.failure_count ≡ e.failure_count + length jobs)
      × (e'.is_active ≡ (e.is_active && ltb (e.failure_count + length jobs) 10))
unfolding run_jobs
run_jobs-failures net [] s id e found sound h =
    (e, found, ground arith, active_at_first e.failure_count e.is_active sound)
run_jobs-failures net (job ∷ jobs) s id e found sound ((same_id, no_install, fails), h) =
    let row =
      fail_once (net job) job s e no_install fails
        (found_at s.endpoints id job.endpoint_id e (sym same_id) found) in
    let next = failed_row (net job) job ((net job).clock 3) e in
    let (e', found', count', active') =
      run_jobs-failures net jobs (dispatch_to_endpoint (net job) job s).0 id next
        (found_at _ job.endpoint_id id next same_id row)
        (failed_row-StoppedAtTen (net job) job ((net job).clock 3) e) h in
    (
      e',
      found',
      ground (arith, count'),
      active' ∙ still_active e.failure_count (length jobs) e.is_active,
    )
