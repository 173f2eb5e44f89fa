-- ===== src/OnCall/Resolver.antt =====
-- `resolveNow`: the first schedule that covers the moment, and the chain of fallbacks.
use mathlib.Core.Option
use kritvia_global_dashboard.Base.{
  Bool, List, Option, String, [], alt, any, false, find, if◌then◌else◌, is_empty, is_some, keep,
  leb, length, map, none, or_else, some, suc, zero, ℕ, ◌&&◌, ◌===◌, ◌∷◌,
}
use kritvia_global_dashboard.OnCall.{Override, Platform, Schedule, Tier, primary, secondary}
use kritvia_global_dashboard.OnCall.Coverage.{ScheduleState, get_schedule_state}
use kritvia_global_dashboard.OnCall.Slots.{compute_slot_index, pick_user_for_tier, same_tier}

pub record OnCallResolvedNow : Type 0 where
  pub schedule_id : Option String
  pub active_schedule_id : Option String
  pub primary_user_id : Option String
  pub secondary_user_id : Option String
  pub in_coverage_window : Bool
  pub on_holiday : Bool

abbrev pub nobody : OnCallResolvedNow
nobody = record {
  schedule_id = none;
  active_schedule_id = none;
  primary_user_id = none;
  secondary_user_id = none;
  in_coverage_window = false;
  on_holiday = false;
}

abbrev pub override_for : Tier → List Override → Option String
override_for tier overrides =
    Option.map (λ o. o.to_user_id) (find (λ o. same_tier o.tier tier) overrides)

unfoldable pub resolve_schedule : Platform → Schedule → ScheduleState → ℕ → OnCallResolvedNow
resolve_schedule p s state now =
    let slot_index =
      compute_slot_index p s.start_at now s.handoff_interval s.handoff_hour s.timezone in
    record {
      schedule_id = some s.id;
      active_schedule_id = some s.id;
      primary_user_id =
          alt (override_for primary s.overrides) (pick_user_for_tier s.members primary slot_index);
      secondary_user_id =
          alt (override_for secondary s.overrides)
            (pick_user_for_tier s.members secondary slot_index);
      in_coverage_window = state.in_coverage_window;
      on_holiday = state.on_holiday;
    }

abbrev pub schedule_map : List Schedule → String → Option Schedule
schedule_map schedules id = find (λ s. s.id === id) schedules

abbrev pub visits : List String → String → Bool
visits visited id = any (λ v. v === id) visited

-- `nextId`, where an empty text ends the loop like null.
abbrev pub present : Option String → Option String
present none = none
present (some id) = if is_empty id then none else some id

-- What a search for an active fallback ends with: a schedule, or the identifiers visited.
pub data Chased : Type 0 where
  reached : Schedule → Chased
  exhausted : List String → Chased

module _ (p : Platform) (schedules : List Schedule) (now : ℕ) where
  -- The inner `while`. Fuel: the rounds; `none` means that they were too few.
  unfoldable pub chase : ℕ → List String → Option String → Option Chased
  chase zero visited next_id = none
  chase (suc fuel) visited next_id = elim (present next_id) [
    | none ↦ some (exhausted visited)
    | some id ↦
        if visits visited id then some (exhausted visited) else elim (schedule_map schedules id) [
          | none ↦ some (exhausted (id ∷ visited))
          | some s ↦
              let rest = chase fuel (id ∷ visited) s.fallback_schedule_id in
              if (get_schedule_state p s now).active then some (reached s) else rest
        ]
  ]

  -- The loop over the roots.
  unfoldable pub chase_all : ℕ → List String → List Schedule → Option Chased
  unfolding chase
  chase_all fuel visited [] = some (exhausted visited)
  chase_all fuel visited (root ∷ roots) = elim (chase fuel visited root.fallback_schedule_id) [
    | none ↦ none
    | some (reached s) ↦ some (reached s)
    | some (exhausted more) ↦ chase_all fuel more roots
  ]

  -- As many rounds as there are schedules, and one more.
  unfoldable pub fallback_search : Option Chased
  unfolding chase_all
  fallback_search =
      chase_all (suc (length schedules)) []
        (keep (λ s. is_some (present s.fallback_schedule_id)) schedules)

  unfoldable pub resolve_fallback_chain : Option OnCallResolvedNow
  unfolding fallback_search resolve_schedule
  resolve_fallback_chain = elim fallback_search [
    | none ↦ none
    | some (exhausted visited) ↦ none
    | some (reached s) ↦ some (resolve_schedule p s (get_schedule_state p s now) now)
  ]

abbrev pub current : ℕ → Override → Bool
current now o = leb o.start_at now && leb now o.end_at

-- The members and overrides that the query includes.
abbrev pub included : ℕ → Schedule → Schedule
included now s = record s {
  members = keep (λ m. m.is_active) s.members;
  overrides = keep (current now) s.overrides;
}

-- The query: the enabled schedules of the organisation in the order of their creation, with the
-- active members and the overrides of the moment.
unfoldable pub load_schedules : List Schedule → String → ℕ → List Schedule
load_schedules table org_id now =
    map (included now) (keep (λ s. s.org_id === org_id && s.is_enabled) table)

abbrev pub first_active : Platform → ℕ → List Schedule → Option Schedule
first_active p now schedules = find (λ s. (get_schedule_state p s now).active) schedules

abbrev pub answer_for : Platform → ℕ → Schedule → OnCallResolvedNow
answer_for p now s = resolve_schedule p s (get_schedule_state p s now) now

-- What follows the attempt that `forceFallback` asks for.
unfoldable pub resolve_in_order : Platform → List Schedule → ℕ → OnCallResolvedNow
unfolding resolve_schedule
resolve_in_order p schedules now = elim (first_active p now schedules) [
  | some s ↦ answer_for p now s
  | none ↦ or_else (resolve_fallback_chain p schedules now) nobody
]

unfoldable pub resolve_now : Platform → List Schedule → String → ℕ → Bool → OnCallResolvedNow
unfolding resolve_in_order
resolve_now p table org_id now force_fallback =
    let schedules = load_schedules table org_id now in
    if leb (length schedules) 0
    then nobody
    else if force_fallback
    then or_else (resolve_fallback_chain p schedules now) (resolve_in_order p schedules now)
    else resolve_in_order p schedules now
