-- ===== src/Incidents/Examples.antt =====
-- The theorems on incidents at concrete tables.
use kritvia_global_dashboard.Base.{
  AuthUserContext, List, String, [], arith, codes, eq_iff, false, get_active_org_id, keep, none, ok,
  ops, refl, some, ℕ, ◌+◌, ◌↔◌, ◌∷◌, ◌≡◌, ◌≤◌,
}
use kritvia_global_dashboard.Incidents.{
  AlertEvent, Incident, Store, acknowledged, acknowledgement, resolved,
}
use kritvia_global_dashboard.Incidents.Access.{MayAcknowledge, acknowledge_incident_iff}
use kritvia_global_dashboard.Incidents.Averages.{Rounded, get_metrics-consistent, in_range}
use kritvia_global_dashboard.Incidents.Changes.{
  Env, Op, acknowledge, acts_for, from_alert_event, step,
}
use kritvia_global_dashboard.Incidents.Changes.Isolation.{UniqueIds, foreign, step-foreign}
use kritvia_global_dashboard.Incidents.FromAlerts.{create_incident_from_alert_event, new_incident}
use kritvia_global_dashboard.Incidents.Invariant.{Inv, Reach-Inv, called, start}
use kritvia_global_dashboard.Incidents.Lifecycle.{
  IncidentView, acknowledge_incident, acknowledge_row, acknowledge_tables, entry_of, get_incident,
}
use kritvia_global_dashboard.Incidents.Metrics.{
  IncidentMetrics, average, cutoff_of, get_metrics, mtta_samples, mttr_samples,
}
use kritvia_global_dashboard.Incidents.Range.{parse_range_days}
use kritvia_global_dashboard.Incidents.Slug.{generate_unique_public_slug, slug_stem, taken}
use kritvia_global_dashboard.Incidents.Slug.Free.{generate_unique_public_slug-free}

abbrev ident : String → String
ident s = s

abbrev env : Env
env = record { iso = λ n. "now"; lower = ident; upper = ident; primary_on_call = λ o. some "u2" }

abbrev on_call_user : AuthUserContext
on_call_user = record {
  user_id = "u2";
  org_id = "o1";
  active_org_id = none;
  role = ops;
  email = "";
  name = "";
  is_service_account = false;
  service_account_id = none;
  service_account_scopes = none;
}

abbrev outage : AlertEvent
outage = record {
  id = "e1";
  org_id = "o1";
  type = "DOWN";
  severity = "CRITICAL";
  title = "API down!";
  rule_auto_create = none;
}

abbrev empty : Store
empty = record {
  incidents = [];
  participants = [];
  timeline = [];
  postmortems = [];
  alert_events = outage ∷ [];
  activities = [];
  notifications = [];
}

abbrev first : Incident
first = new_incident "i1" outage "CRITICAL" 60000

abbrev other : Incident
other = record first { id = "i2"; org_id = "o2"; public_slug = some (slug_stem "API down!" "i1") }

abbrev two : Store
two = record empty { incidents = first ∷ other ∷ [] }

abbrev create : Op
create = from_alert_event "e1" "i1" 60000

created_store : Store
created_store = create_incident_from_alert_event ident empty "e1" "i1" 60000

Reach-Inv_example : Inv created_store.incidents
unfolding step created_store
Reach-Inv_example = Reach-Inv env created_store (called create (start empty refl) tt refl)

created_one : created_store.incidents ≡ first ∷ []
unfolding created_store create_incident_from_alert_event
created_one = refl

two-UniqueIds : UniqueIds two.incidents
two-UniqueIds = (((ground (arith, eq_iff "i1" "i2")), tt), (tt, tt))

abbrev acks : Op
acks = acknowledge on_call_user "i1" 120000

acknowledged_two : Store
acknowledged_two = acknowledge_tables first on_call_user "o1" 120000 two

step-foreign_example :
    keep (foreign (acts_for two acks)) acknowledged_two.incidents
    ≡ keep (foreign (acts_for two acks)) two.incidents
unfolding step acknowledge_incident acknowledged_two get_incident
step-foreign_example = step-foreign env two acknowledged_two acks two-UniqueIds tt refl

acknowledge_incident_iff_example :
    ((r : Store × IncidentView) × (acknowledge_incident env.primary_on_call two on_call_user "i1" 5
        ≡ ok r))
    ↔ MayAcknowledge env.primary_on_call two on_call_user "i1"
acknowledge_incident_iff_example =
    acknowledge_incident_iff env.primary_on_call two on_call_user "i1" 5

-- The slug of the other incident is in the way.
generate_unique_public_slug-free_example :
    (slug : List ℕ) × (generate_unique_public_slug two.incidents "API down!" "i1" ≡ some slug)
    × (taken "i1" two.incidents slug ≡ false)
generate_unique_public_slug-free_example =
    generate_unique_public_slug-free two.incidents "API down!" "i1"

second_slug :
    generate_unique_public_slug two.incidents "API down!" "i1" ≡ some (codes "api-down-i1-2")
unfolding generate_unique_public_slug
second_slug = refl

abbrev seen : IncidentView
seen = record {
  incident = acknowledge_row "u2" 120000 first;
  participants = record { incident_id = "i1"; user_id = "u2"; role = "OWNER" } ∷ [];
  timeline = entry_of "i1" "ACKNOWLEDGED" none (acknowledgement 120000 (some 1)) (some "u2") ∷ [];
  mtta_minutes = some 1;
  mttr_minutes = none;
}

-- Three incidents of the organisation: one is open, one was acknowledged after a minute, and one was
-- acknowledged after two minutes and resolved after five.
abbrev week : Store
week = record empty {
  incidents =
      first
      ∷ record first { id = "i3"; status = acknowledged; acknowledged_at = some 120000 }
      ∷ record first {
        id = "i4";
        status = resolved;
        acknowledged_at = some 180000;
        resolved_at = some 360000;
      }
      ∷ other
      ∷ [];
}

abbrev week_metrics : IncidentMetrics
week_metrics = record {
  total_incidents = 3;
  avg_mtta = 15;
  avg_mttr = 50;
  open_incidents = 2;
  resolved_incidents = 1;
  range_days = 7;
}

get_metrics-consistent_example :
    ((1 ≤ 7) × (7 ≤ 365))
    × ((1 ≤ 3) × (3 ≤ 2 + 1))
    × Rounded 15 (mtta_samples (in_range week "o1" (cutoff_of 400000 7)))
    × Rounded 50 (mttr_samples (in_range week "o1" (cutoff_of 400000 7)))
unfolding get_metrics get_active_org_id parse_range_days average
get_metrics-consistent_example =
    get_metrics-consistent week on_call_user (some (codes "7d")) 400000 "o1" week_metrics refl refl
