-- ===== src/Fixes/Results.antt =====
-- The results of runs: no request changes one that is final.
use kritvia_global_dashboard.Base.{
  >>-eq-ok, >>=-eq-ok, AuthUserContext, Bool, Bool-cases, List, Memᴰ, Option-cases, Outcome-cases,
  Pairs, Pairs-concat, String, [], any, any-false-All, arith, concat_mem, eq_refl, false, find,
  find-mem, get_active_org_id, inl, inr, is_ceo_or_admin, mem-find, none, not, ok, or_throw,
  or_throw-eq-ok, refl, require, service_unavailable, some, sym, true, ℕ, ◌&&◌, ◌===◌, ◌||◌, ◌∷◌,
  ◌≡◌, ◌⊎◌, bad_request, not_found, forbidden,
}
use kritvia_global_dashboard.Fixes.{
  FixActionRun, FixActionTemplate, FixStatus, Setting, Shop, cancelled, confirmed, failed, log_fix,
  pending, running, succeeded,
}
use kritvia_global_dashboard.Fixes.Actions.{execute_template, same_fix}
use kritvia_global_dashboard.Fixes.Service.{
  CreateFixActionRunDto, FixRequest, RunOptions, check_confirm, check_execute, check_run,
  confirm_request, confirm_run, create_request, create_run, execute_request, execute_run_by_id,
  execute_run_internal, first_status, handle_fix, has_key, key_for, may_execute, new_run,
  nudge_known, perform, place_run, placed, set_status, with_id,
}
use kritvia_global_dashboard.Fixes.Settled.{
  OtherRun, Settled, Settled-self, Settled-trans, Settled-twice, Settled-update,
  execute_template-SameRuns, found_run, is_final,
}
use mathlib.Core.Bool.{false≢true}

open_or_succeeded :
    (bypass : Bool) (status : FixStatus)
    → may_execute bypass status ≡ true
    → (is_final status ≡ false) ⊎ (same_fix status succeeded ≡ true)
open_or_succeeded bypass pending h = inl refl
open_or_succeeded bypass confirmed h = inl refl
open_or_succeeded bypass running h = inl refl
open_or_succeeded bypass succeeded h = inr refl
open_or_succeeded bypass failed h = absurd (false≢true h)
open_or_succeeded bypass cancelled h = absurd (false≢true h)

abbrev success_of_key : FixActionRun → FixActionRun → Bool
success_of_key run r = has_key run.org_id run.idempotency_key r && same_fix r.status succeeded

-- A run that may be executed and whose key has not succeeded is not final.
still_open :
    (bypass : Bool) (runs : List FixActionRun) (run : FixActionRun)
    → may_execute bypass run.status ≡ true
    → Memᴰ run runs
    → find (success_of_key run) runs ≡ none
    → is_final run.status ≡ false
still_open bypass runs run h m e = elim (open_or_succeeded bypass run.status h) [
  | inl f ↦ f
  | inr f ↦
      let own : success_of_key run run ≡ true =
        rw (f, eq_refl run.org_id, eq_refl run.idempotency_key) refl in
      let (y, g) = mem-find (success_of_key run) m own in absurd (cc)
]

pending-open : (status : FixStatus) → same_fix status pending ≡ true → is_final status ≡ false
pending-open pending h = refl
pending-open confirmed h = refl
pending-open running h = refl
pending-open succeeded h = sym h
pending-open failed h = sym h
pending-open cancelled h = sym h

module _ (o : Setting) (now : ℕ) (new_nudge_id : String) (user : AuthUserContext) where
  perform-Settled :
      (run : FixActionRun) (s : Shop)
      → Pairs OtherRun s.runs
      → Memᴰ run s.runs
      → is_final run.status ≡ false
      → Settled s.runs (perform o now new_nudge_id user run s).0.runs
  unfolding perform
  perform-Settled run s h m e =
      elim (Outcome-cases
        (execute_template now run user false o new_nudge_id (set_status run.id running s))) [
          | inr (x, f) ↦
              rw (f, perform)
                (Settled-twice s.runs run running (λ r. record r { status = failed }) h m e refl
                  (λ r. refl))
          | inl ((t, r), f) ↦
              let kept_shop =
                execute_template-SameRuns now run user false (set_status run.id running s) o
                  new_nudge_id in
              let runs_kept : t.runs ≡ (set_status run.id running s).runs = rw f at kept_shop in
              rw (f, runs_kept, perform)
                (Settled-twice s.runs run running
                  (λ x. record x { status = succeeded; result = some r }) h m e refl (λ x. refl))
        ]

  execute_run_internal-Settled :
      (run_id : String) (bypass : Bool) (s : Shop)
      → o.feature_execution ≡ true
      → Pairs OtherRun s.runs
      → Settled s.runs (execute_run_internal o now new_nudge_id user run_id bypass s).0.runs
  unfolding execute_run_internal
  execute_run_internal-Settled run_id bypass s on h =
      elim (Option-cases (find (with_id run_id) s.runs)) [
        | inl e ↦ rw (on, e, execute_run_internal) (Settled-self s.runs h)
        | inr (run, e) ↦ elim (Bool-cases (may_execute bypass run.status)) [
          | inr f ↦ rw (on, e, f, execute_run_internal) (Settled-self s.runs h)
          | inl f ↦ elim (Option-cases (find (success_of_key run) s.runs)) [
            | inr (r, g) ↦ rw (on, e, f, g, execute_run_internal) (Settled-self s.runs h)
            | inl g ↦
                let (m, _) = found_run run_id s.runs run e in
                rw (on, e, f, g, execute_run_internal)
                  (perform-Settled run s h m (still_open bypass s.runs run f m g))
          ]
        ]
      ]

  check_confirm-mem :
      (run_id : String) (confirm : Bool) (s : Shop) (run : FixActionRun)
      → check_confirm o user run_id confirm s ≡ ok run
      → Memᴰ run s.runs
  unfolding check_confirm
  check_confirm-mem run_id confirm s run e =
      let (_, e1) = >>-eq-ok (require o.feature_fix_actions service_unavailable) _ run e in
      let (_, e2) = >>-eq-ok (require confirm bad_request) _ run e1 in
      let (org_id, _, e3) = >>=-eq-ok (get_active_org_id user) _ run e2 in
      let (r, e4, e5) =
        >>=-eq-ok (or_throw (find (λ x. x.id === run_id && x.org_id === org_id) s.runs) not_found) _
          run e3 in
      let (_, e6) =
        >>-eq-ok
          (require (r.requested_by_user_id === user.user_id || is_ceo_or_admin user.role) forbidden)
          (ok r) run e5 in
      let one_run : r ≡ run = ground arith in
      rw (← one_run)
        (find-mem (λ x. x.id === run_id && x.org_id === org_id) s.runs r
          (or_throw-eq-ok _ not_found r e4)).0

  confirm_run-Settled :
      (run_id : String) (confirm : Bool) (s : Shop)
      → o.feature_execution ≡ true
      → Pairs OtherRun s.runs
      → Settled s.runs (confirm_run o now new_nudge_id user run_id confirm s).0.runs
  unfolding confirm_run
  confirm_run-Settled run_id confirm s on h =
      elim (Outcome-cases (check_confirm o user run_id confirm s)) [
        | inr (x, e) ↦ rw (e, confirm_run) (Settled-self s.runs h)
        | inl (run, e) ↦ elim (Bool-cases (same_fix run.status succeeded)) [
          | inl f ↦ rw (e, f, confirm_run) (Settled-self s.runs h)
          | inr f ↦ elim (Bool-cases (same_fix run.status pending)) [
            | inr g ↦ rw (e, f, g, confirm_run) (Settled-self s.runs h)
            | inl g ↦
                let m = check_confirm-mem run_id confirm s run e in
                let first =
                  Settled-update s.runs run run.id (λ r. record r { status = confirmed }) h m refl
                    (pending-open run.status g) (λ r. refl) in
                rw (e, f, g, confirm_run)
                  (Settled-trans s.runs (set_status run.id confirmed s).runs _ first (
                    execute_run_internal-Settled run.id false
                      (log_fix run.org_id user.user_id run.entity_id "FIX_ACTION_RUN_CONFIRMED"
                        (set_status run.id confirmed s))
                      on first.ids))
          ]
        ]
      ]

  execute_run_by_id-Settled :
      (run_id : String) (s : Shop)
      → o.feature_execution ≡ true
      → Pairs OtherRun s.runs
      → Settled s.runs (execute_run_by_id o now new_nudge_id user run_id s).0.runs
  unfolding execute_run_by_id
  execute_run_by_id-Settled run_id s on h = elim (Outcome-cases (check_execute o user run_id s)) [
    | inr (x, e) ↦ rw (e, execute_run_by_id) (Settled-self s.runs h)
    | inl (run, e) ↦ rw (e, execute_run_by_id) (execute_run_internal-Settled run_id false s on h)
  ]

  place_run-Settled :
      (new_id org_id : String) (dto : CreateFixActionRunDto) (options : RunOptions)
      (t : FixActionTemplate) (s : Shop)
      → o.feature_execution ≡ true
      → any (with_id new_id) s.runs ≡ false
      → Pairs OtherRun s.runs
      → Settled s.runs (place_run o now new_id new_nudge_id user dto options org_id t s).0.runs
  unfolding place_run
  place_run-Settled new_id org_id dto options t s on fresh h =
      let key = key_for o org_id t.key dto in
      let status = first_status t options in
      let x = new_run new_id org_id now user dto t status key in
      let created = placed org_id user dto x s in
      let with_new : Settled s.runs created.runs = record {
        ids = Pairs-concat OtherRun s.runs x h (any-false-All (with_id new_id) s.runs fresh);
        kept = λ r m _. concat_mem (x ∷ []) m;
      } in
      elim (Option-cases (find (has_key org_id key) s.runs)) [
        | inr (r, e) ↦ rw (e, place_run) (Settled-self s.runs h)
        | inl e ↦
            elim (Bool-cases (
              not t.requires_confirmation
              && not options.skip_auto_execute
              && not options.force_pending)) [
                | inr f ↦ rw (e, f, place_run) with_new
                | inl f ↦
                    rw (e, f, place_run)
                      (Settled-trans s.runs created.runs _ with_new
                        (execute_run_internal-Settled new_id true created on with_new.ids))
              ]
      ]

  create_run-Settled :
      (new_id : String) (dto : CreateFixActionRunDto) (options : RunOptions) (s : Shop)
      → o.feature_execution ≡ true
      → any (with_id new_id) s.runs ≡ false
      → Pairs OtherRun s.runs
      → Settled s.runs (create_run o now new_id new_nudge_id user dto options s).0.runs
  unfolding create_run
  create_run-Settled new_id dto options s on fresh h =
      elim (Outcome-cases (check_run o now user dto s)) [
        | inr (x, e) ↦ rw (e, create_run) (Settled-self s.runs h)
        | inl ((org_id, t), e) ↦ elim (Bool-cases (nudge_known s org_id dto.nudge_id)) [
          | inr f ↦ rw (e, f, create_run) (Settled-self s.runs h)
          | inl f ↦
              rw (e, f, create_run) (place_run-Settled new_id org_id dto options t s on fresh h)
        ]
      ]

-- The identifier that a request would give a new run is not in use.
abbrev pub Unused : FixRequest → Shop → Type 0
Unused (create_request new_id dto options) s = any (with_id new_id) s.runs ≡ false
Unused (confirm_request run_id confirm) s = Unit
Unused (execute_request run_id) s = Unit

-- While execution is enabled, no request changes a run that has succeeded, failed or been
-- cancelled: its row stays in the table as it is. The identifiers of the runs are distinct, and
-- stay so, as long as the database gives new ones.
pub handle_fix-Settled :
    (o : Setting) (now : ℕ) (new_nudge_id : String) (user : AuthUserContext) (request : FixRequest)
    (s : Shop)
    → o.feature_execution ≡ true
    → Unused request s
    → Pairs OtherRun s.runs
    → Settled s.runs (handle_fix o now new_nudge_id user request s).runs
unfolding handle_fix
handle_fix-Settled o now nudge_id user (create_request new_id dto options) s on fresh h =
    create_run-Settled o now nudge_id user new_id dto options s on fresh h
handle_fix-Settled o now nudge_id user (confirm_request run_id confirm) s on fresh h =
    confirm_run-Settled o now nudge_id user run_id confirm s on h
handle_fix-Settled o now nudge_id user (execute_request run_id) s on fresh h =
    execute_run_by_id-Settled o now nudge_id user run_id s on h
