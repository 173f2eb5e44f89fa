-- ===== src/Incidents/Metrics.antt =====
-- What incidents/incidents.service.ts reads and reports: the list of the incidents, a postmortem
-- and the metrics. An average is in tenths of a minute, which the source rounds to. What the
-- database sorts by, `createdAt` from the last, is a parameter.
use kritvia_global_dashboard.Base.{
  AuthUserContext, Bool, List, Option, Outcome, String, [], count, drop, false, find,
  get_active_org_id, given, is_empty, keep, leb, length, map, none, ok, some, take, true, ℕ, ◌&&◌,
  ◌*◌, ◌+◌, ◌-◌, ◌/◌, ◌===◌, ◌>>=◌, ◌||◌, ◌∷◌,
}
use kritvia_global_dashboard.Incidents.{
  Incident, Postmortem, Status, Store, acknowledged, assert_incident, compute_mtta_minutes,
  compute_mttr_minutes, opened, postmortem, resolved,
}
use kritvia_global_dashboard.Incidents.Range.{parse_range_days}

-- A page and its size are at least 1.
pub record ListIncidentsQueryDto : Type 0 where
  pub page : ℕ
  pub page_size : ℕ
  pub status : Option Status
  pub severity : Option String

pub record IncidentItem : Type 0 where
  pub incident : Incident
  pub mtta_minutes : Option ℕ
  pub mttr_minutes : Option ℕ

pub record IncidentPage : Type 0 where
  pub items : List IncidentItem
  pub page : ℕ
  pub page_size : ℕ
  pub total_count : ℕ
  pub total : ℕ

abbrev pub equal_status : Status → Status → Bool
equal_status opened opened = true
equal_status acknowledged acknowledged = true
equal_status resolved resolved = true
equal_status postmortem postmortem = true
equal_status a b = false

-- The filter of the query; an empty severity counts as none.
unfoldable pub incident_where : String → ListIncidentsQueryDto → Incident → Bool
incident_where org_id query i =
    i.org_id === org_id
    && (given query.status (λ st. equal_status i.status st)
        && given query.severity (λ sev. is_empty sev || i.severity === sev))

abbrev pub to_item : Incident → IncidentItem
to_item i = record {
  incident = i;
  mtta_minutes = compute_mtta_minutes i.created_at i.acknowledged_at;
  mttr_minutes = compute_mttr_minutes i.created_at i.resolved_at;
}

unfoldable pub list_incidents :
    (List Incident → List Incident)
    → Store
    → AuthUserContext
    → ListIncidentsQueryDto
    → Outcome IncidentPage
unfolding get_active_org_id incident_where compute_mtta_minutes compute_mttr_minutes
list_incidents sorted s user query = do
  org_id ← get_active_org_id user
  let rows = keep (incident_where org_id query) s.incidents
  ok (record {
    items =
        map to_item
          (take query.page_size (drop ((query.page - 1) * query.page_size) (sorted rows)));
    page = query.page;
    page_size = query.page_size;
    total_count = length rows;
    total = length rows;
  })

-- The postmortem that `findUnique` gives, if there is one.
unfoldable pub get_postmortem : Store → AuthUserContext → String → Outcome (Option Postmortem)
unfolding get_active_org_id assert_incident
get_postmortem s user incident_id = do
  org_id ← get_active_org_id user
  i ← assert_incident s org_id incident_id
  ok (find (λ p. p.incident_id === incident_id) s.postmortems)

abbrev pub sum : List ℕ → ℕ
sum [] = 0
sum (n ∷ ns) = n + sum ns

-- `Math.round((total / values.length) * 10)`, in tenths.
unfoldable pub average : List ℕ → ℕ
average [] = 0
average (n ∷ ns) = (20 * sum (n ∷ ns) + length (n ∷ ns)) / (2 * length (n ∷ ns))

-- The filter for numbers.
abbrev pub numbers : List (Option ℕ) → List ℕ
numbers [] = []
numbers (none ∷ os) = numbers os
numbers (some n ∷ os) = n ∷ numbers os

pub record IncidentMetrics : Type 0 where
  pub total_incidents : ℕ
  pub avg_mtta : ℕ
  pub avg_mttr : ℕ
  pub open_incidents : ℕ
  pub resolved_incidents : ℕ
  pub range_days : ℕ

abbrev pub is_ongoing : Incident → Bool
is_ongoing i = equal_status i.status opened || equal_status i.status acknowledged

abbrev pub is_resolved : Incident → Bool
is_resolved i = equal_status i.status resolved || equal_status i.status postmortem

abbrev pub since : String → ℕ → Incident → Bool
since org_id cutoff i = i.org_id === org_id && leb cutoff i.created_at

abbrev pub mtta_samples : List Incident → List ℕ
mtta_samples rows = numbers (map (λ i. compute_mtta_minutes i.created_at i.acknowledged_at) rows)

abbrev pub mttr_samples : List Incident → List ℕ
mttr_samples rows = numbers (map (λ i. compute_mttr_minutes i.created_at i.resolved_at) rows)

abbrev pub cutoff_of : ℕ → ℕ → ℕ
cutoff_of now range_days = now - range_days * 86400000

-- Times are from the epoch on, so that a cut-off before it lets the same rows pass as the epoch.
unfoldable pub get_metrics : Store → AuthUserContext → Option (List ℕ) → ℕ → Outcome IncidentMetrics
unfolding get_active_org_id parse_range_days average compute_mtta_minutes compute_mttr_minutes
get_metrics s user range now = do
  org_id ← get_active_org_id user
  range_days ← parse_range_days range
  let cutoff = cutoff_of now range_days
  let all_in_range = keep (since org_id cutoff) s.incidents
  ok (record {
    total_incidents = length all_in_range;
    avg_mtta = average (mtta_samples all_in_range);
    avg_mttr = average (mttr_samples all_in_range);
    open_incidents = count (λ i. i.org_id === org_id && is_ongoing i) s.incidents;
    resolved_incidents =
        count (λ i. i.org_id === org_id && (is_resolved i && leb cutoff i.created_at)) s.incidents;
    range_days = range_days;
  })
