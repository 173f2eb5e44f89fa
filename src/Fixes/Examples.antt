-- ===== src/Fixes/Examples.antt =====
-- The theorems on fix actions at concrete tables.
use kritvia_global_dashboard.Base.{
  [], fail, false, find, map, ok, refl, service_unavailable, some, trim, true, ◌∷◌, ◌≡◌,
}
use kritvia_global_dashboard.Fixes.{confirmed, failed, reassigned, running, succeeded}
use kritvia_global_dashboard.Fixes.Actions.{execute_template}
use kritvia_global_dashboard.Fixes.Results.{handle_fix-Settled}
use kritvia_global_dashboard.Fixes.Samples.{
  at_once, fix_user, reassign_dto, reassign_run, setting, work_shop,
}
use kritvia_global_dashboard.Fixes.Service.{
  create_request, create_run, execute_run_by_id, handle_fix, with_id,
}
use kritvia_global_dashboard.Fixes.Settled.{Settled}
use kritvia_global_dashboard.Fixes.Truth.{
  answer_of_template, as_preview, execute_template_dry, executed_answer, map_answer,
}

-- A template without confirmation is executed as the run is created.
create_and_run :
    let (s', answer) =
      create_run (setting true) 0 "r2" "n1" fix_user reassign_dto at_once (work_shop []) in
    (map (λ w. w.assigned_to_user_id) s'.work_items ≡ some "u2" ∷ [])
    × (answer ≡ ok (record { id = "r2"; status = succeeded; requires_confirmation = false }))
unfolding create_run trim
create_and_run = (refl, refl)

execute_template_dry_example :
    ok (reassigned false (some "u1") "u2")
    ≡ map_answer (executed_answer (setting true) "o1" (work_shop [])) (
        answer_of_template (
          execute_template 0
            (as_preview (reassign_run confirmed) "preview" running "preview")
            fix_user
            true
            (setting true)
            "n1"
            (work_shop [])))
unfolding execute_template trim
execute_template_dry_example =
    execute_template_dry 0 (reassign_run confirmed) fix_user (work_shop []) (setting true) "preview"
      "preview" "n1" "n2" running

handle_fix-Settled_example :
    Settled
      (reassign_run succeeded ∷ [])
      (handle_fix
        (setting true)
        0
        "n1"
        fix_user
        (create_request "r2" reassign_dto at_once)
        (work_shop (reassign_run succeeded ∷ []))).runs
handle_fix-Settled_example =
    handle_fix-Settled (setting true) 0 "n1" fix_user (create_request "r2" reassign_dto at_once)
      (work_shop (reassign_run succeeded ∷ [])) refl refl (tt, tt)

-- Where execution is disabled, a request to execute a run that has succeeded is refused, and the run
-- is marked as failed.
disabled_overwrites :
    let (s', answer) =
      execute_run_by_id
        (setting false)
        0
        "n1"
        fix_user
        "r1"
        (work_shop (reassign_run succeeded ∷ [])) in
    (answer ≡ fail service_unavailable) × (find (with_id "r1") s'.runs ≡ some (reassign_run failed))
unfolding execute_run_by_id
disabled_overwrites = (refl, refl)
