-- ===== src/Incidents/Averages.antt =====
-- The lists and metrics of incidents/incidents.service.ts: what a page holds and what the numbers
-- of the metrics have to do with one another.
use kritvia_global_dashboard.Base.{
  >>=-eq-ok, All, All-image, All-mem, AuthUserContext, Bool, Bool-cases, List, Memᴰ, Option, String,
  [], arith, count, drop, get_active_org_id, inl, inr, keep, leb, length, length-keep,
  length-map_lem, length-take-le, map, mem-drop, mem-keep, mem-take, ok, refl, take, true, ℕ, ◌&&◌,
  ◌*◌, ◌+◌, ◌-◌, ◌<◌, ◌===◌, ◌||◌, ◌∷◌, ◌≡◌, ◌≤◌,
}
use kritvia_global_dashboard.Incidents.{
  Incident, Status, Store, acknowledged, opened, postmortem, resolved,
}
use kritvia_global_dashboard.Incidents.Metrics.{
  IncidentMetrics, IncidentPage, ListIncidentsQueryDto, average, cutoff_of, equal_status,
  get_metrics, incident_where, is_ongoing, is_resolved, list_incidents, mtta_samples, mttr_samples,
  since, sum, to_item,
}
use kritvia_global_dashboard.Incidents.Range.{parse_range_days, parse_range_days_bounds}
use native.Mathlib.Nat.{mul-div-le, lt-mul-div-succ}

ok_value {ℓ} : {A : Type ℓ} {p q : A} → ok p ≡ ok q → p ≡ q
ok_value e = ground arith

-- A page of the list holds at most as many incidents as it is to hold, all of them of the user's
-- organisation and as the filter asks, and counts all those; if sorting adds none.
pub list_incidents-listed :
    (sorted : List Incident → List Incident) (s : Store) (user : AuthUserContext)
    (query : ListIncidentsQueryDto) (org_id : String) (page : IncidentPage)
    → ((rows : List Incident) (i : Incident) → Memᴰ i (sorted rows) → Memᴰ i rows)
    → get_active_org_id user ≡ ok org_id
    → list_incidents sorted s user query ≡ ok page
    → All
        (λ v. Memᴰ v.incident s.incidents × (incident_where org_id query v.incident ≡ true))
        page.items
      × (page.total_count ≡ count (incident_where org_id query) s.incidents)
      × (length page.items ≤ query.page_size)
unfolding list_incidents
list_incidents-listed sorted s user query org_id page sort_mem h_org h =
    let rows = keep (incident_where org_id query) s.incidents in
    let skip = (query.page - 1) * query.page_size in
    let on_page = take query.page_size (drop skip (sorted rows)) in
    let each =
      All-image (λ v. Memᴰ v.incident s.incidents × (incident_where org_id query v.incident ≡ true))
        to_item on_page
        (All-mem on_page (λ i m.
          mem-keep (incident_where org_id query) s.incidents i
            (sort_mem rows i (mem-drop skip _ i (mem-take query.page_size _ i m))))) in
    let total = length-keep (incident_where org_id query) s.incidents in
    let size : length (map to_item on_page) ≤ query.page_size =
      rw (length-map_lem to_item on_page) (length-take-le query.page_size _) in
    rw (← ok_value (rw h_org at h)) (each, total, size)

-- The average of the numbers, in tenths, is off by at most half a tenth.
abbrev pub Rounded : ℕ → List ℕ → Type 0
Rounded tenths ns =
    (20 * sum ns ≤ 2 * length ns * tenths + length ns)
    × (2 * length ns * tenths ≤ 20 * sum ns + length ns)

pub average-Rounded : (ns : List ℕ) → Rounded (average ns) ns
unfolding average
average-Rounded [] = (omega arith, omega arith)
average-Rounded (n ∷ ns) =
    let a = 20 * sum (n ∷ ns) + length (n ∷ ns) in
    let b = 2 * length (n ∷ ns) in
    let low = mul-div-le a b in
    let positive : 0 < b = omega arith in
    let high = lt-mul-div-succ a positive in (omega arith, omega arith)

-- Whether all rows of a list pass that pass another test.
count-le {ℓ} :
    {A : Type ℓ} (p q : A → Bool) (xs : List A)
    → ((x : A) → p x ≡ true → q x ≡ true)
    → count p xs ≤ count q xs
count-le p q [] h = omega arith
count-le p q (x ∷ xs) h = elim (Bool-cases (p x)) [
  | inl e ↦ rw (e, h x e) (omega (arith, count-le p q xs h))
  | inr e ↦ ground (arith, count-le p q xs h)
]

-- Rows that pass the first test pass one of the two others.
count-split {ℓ} :
    {A : Type ℓ} (p q r : A → Bool) (xs : List A)
    → ((x : A) → p x ≡ true → (q x || r x) ≡ true)
    → count p xs ≤ count q xs + count r xs
count-split p q r [] h = omega arith
count-split p q r (x ∷ xs) h = ground (arith, count-split p q r xs h, h x)

open_or_resolved : (i : Incident) → (is_ongoing i || is_resolved i) ≡ true
open_or_resolved i = by_status i.status
  where
    by_status :
        (st : Status)
        → ((equal_status st opened || equal_status st acknowledged)
            || (equal_status st resolved || equal_status st postmortem))
          ≡ true
    by_status opened = refl
    by_status acknowledged = refl
    by_status resolved = refl
    by_status postmortem = refl

abbrev pub in_range : Store → String → ℕ → List Incident
in_range s org_id cutoff = keep (since org_id cutoff) s.incidents

-- The metrics agree with one another: the range is of 1 to 365 days, no more incidents of the
-- range are resolved than there are, those that are not resolved are among the open ones, and each
-- average, in tenths of a minute, is off by at most half a tenth from the mean of the minutes of
-- the incidents in the range that have been acknowledged, or resolved.
pub get_metrics-consistent :
    (s : Store) (user : AuthUserContext) (range : Option (List ℕ)) (now : ℕ) (org_id : String)
    (m : IncidentMetrics)
    → get_active_org_id user ≡ ok org_id
    → get_metrics s user range now ≡ ok m
    → ((1 ≤ m.range_days) × (m.range_days ≤ 365))
      × ((m.resolved_incidents ≤ m.total_incidents)
          × (m.total_incidents ≤ m.open_incidents + m.resolved_incidents))
      × Rounded m.avg_mtta (mtta_samples (in_range s org_id (cutoff_of now m.range_days)))
      × Rounded m.avg_mttr (mttr_samples (in_range s org_id (cutoff_of now m.range_days)))
unfolding get_metrics
get_metrics-consistent s user range now org_id m h_org h =
    let (span, h_days, h1) = >>=-eq-ok (parse_range_days range) _ m (rw h_org at h) in
    let rows = in_range s org_id (cutoff_of now span) in
    let total = length-keep (since org_id (cutoff_of now span)) s.incidents in
    let fewer : count
          (λ i. i.org_id === org_id && (is_resolved i && leb (cutoff_of now span) i.created_at))
          s.incidents
        ≤ length rows =
      rw total (count-le _ (since org_id (cutoff_of now span)) s.incidents (λ i e. ground arith)) in
    let split : length rows
        ≤ count (λ i. i.org_id === org_id && is_ongoing i) s.incidents
          + count
              (λ i. i.org_id === org_id && (is_resolved i && leb (cutoff_of now span) i.created_at))
              s.incidents =
      rw total (
        count-split (since org_id (cutoff_of now span)) _ _ s.incidents
          (λ i e. let either = open_or_resolved i in ground arith)) in
    rw (← ok_value h1) (
      parse_range_days_bounds range span h_days,
      (fewer, split),
      average-Rounded _,
      average-Rounded _,
    )
