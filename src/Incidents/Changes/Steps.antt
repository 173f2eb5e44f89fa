-- ===== src/Incidents/Changes/Steps.antt =====
-- Every call makes one of the changes of the table of incidents.
use kritvia_global_dashboard.Base.{
  Bool, Bool-cases, List, Option, Option-cases, String, arith, find, inl, inr, is_some, ok, refl, ℕ,
  ◌===◌, ◌≡◌,
}
use kritvia_global_dashboard.Incidents.{Store}
use kritvia_global_dashboard.Incidents.Changes.{
  Change, Env, FreshId, IsFresh, Op, acknowledge, acts_for, add_note, added, alert_org,
  change_severity, escalate, from_alert_event, mitigate, post_update, publish, resolve, same, step,
  unpublish, write_postmortem,
}
use kritvia_global_dashboard.Incidents.Changes.Requests.{
  acknowledge-Change, note-Change, postmortem-Change, publish-Change, resolve-Change,
  severity-Change, state_of-ok, unpublish-Change, update-Change,
}
use kritvia_global_dashboard.Incidents.FromAlerts.{
  add_escalation_timeline_by_alert_event_id, add_mitigation_timeline_by_alert_event_id,
  create_incident_from_alert_event, from_alert, normalize_severity, should_create,
}

create-Change :
    (upper : String → String) (s : Store) (alert_event_id new_id : String) (now : ℕ)
    → IsFresh new_id s.incidents
    → Change
        (alert_org s alert_event_id)
        s.incidents
        (create_incident_from_alert_event upper s alert_event_id new_id now).incidents
unfolding create_incident_from_alert_event
create-Change upper s alert_event_id new_id now fresh =
    elim (Option-cases (find (λ e. e.id === alert_event_id) s.alert_events)) [
      | inl missing ↦ rw (missing, create_incident_from_alert_event) same
      | inr (e, found) ↦ elim (Bool-cases (should_create (normalize_severity upper e.severity) e)) [
        | inr minor ↦ rw (found, minor, create_incident_from_alert_event) same
        | inl major ↦ elim (Bool-cases (is_some (find (from_alert e) s.incidents))) [
          | inl known ↦ rw (found, major, known, create_incident_from_alert_event) same
          | inr unknown ↦
              rw (found, major, unknown, create_incident_from_alert_event)
                (added e new_id (normalize_severity upper e.severity) now refl fresh unknown)
        ]
      ]
    ]

escalate-same :
    (s : Store) (alert_event_id : String) (n : ℕ) (routed : List String) (suppressed : Bool)
    (reason : Option String)
    → (add_escalation_timeline_by_alert_event_id s alert_event_id n routed suppressed
        reason).incidents
      ≡ s.incidents
unfolding add_escalation_timeline_by_alert_event_id
escalate-same s alert_event_id n routed suppressed reason = ground arith

mitigate-same :
    (s : Store) (alert_event_id : String) (details : List (String × String))
    → (add_mitigation_timeline_by_alert_event_id s alert_event_id details).incidents ≡ s.incidents
unfolding add_mitigation_timeline_by_alert_event_id
mitigate-same s alert_event_id details = ground arith

-- Every call that succeeds makes one of the changes, for the organisation that it acts for.
pub step-Change :
    (env : Env) (s s' : Store) (op : Op)
    → FreshId s op
    → step env s op ≡ ok s'
    → Change (acts_for s op) s.incidents s'.incidents
unfolding step
step-Change env s s' (acknowledge user id now) _ h =
    let (view, e) = state_of-ok _ s' h in
    acknowledge-Change s s' user id env.primary_on_call now view e
step-Change env s s' (resolve user id now) _ h =
    let (view, e) = state_of-ok _ s' h in resolve-Change s s' user id now view e
step-Change env s s' (change_severity user id severity) _ h =
    let (view, e) = state_of-ok _ s' h in severity-Change s s' user id severity view e
step-Change env s s' (add_note user id message) _ h = note-Change s s' user id message h
step-Change env s s' (write_postmortem user id dto) _ h =
    let (row, e) = state_of-ok _ s' h in postmortem-Change s s' user id dto row e
step-Change env s s' (publish user id dto now) _ h =
    let (row, e) = state_of-ok _ s' h in publish-Change s s' user id env.iso env.lower dto now row e
step-Change env s s' (unpublish user id) _ h =
    let (row, e) = state_of-ok _ s' h in unpublish-Change s s' user id row e
step-Change env s s' (post_update user id message now) _ h =
    let (row, e) = state_of-ok _ s' h in
    update-Change s s' user id env.iso env.lower message now row e
step-Change env s s' (from_alert_event alert_id new_id now) fresh h =
    let e : create_incident_from_alert_event env.upper s alert_id new_id now ≡ s' = ground arith in
    rw (← e) (create-Change env.upper s alert_id new_id now fresh)
step-Change env s s' (escalate alert_id n routed suppressed reason) _ h =
    let e : add_escalation_timeline_by_alert_event_id s alert_id n routed suppressed reason ≡ s' =
      ground arith in
    rw (← e, escalate-same) same
step-Change env s s' (mitigate alert_id details) _ h =
    let e : add_mitigation_timeline_by_alert_event_id s alert_id details ≡ s' = ground arith in
    rw (← e, mitigate-same) same
