-- ===== src/OnCall/Slots.antt =====
-- The slot of the rotation that a moment falls in, and the member that a slot gives.
use mathlib.Core.Option
use kritvia_global_dashboard.Base.{
  Bool, List, Option, String, false, get_elem?, if◌then◌else◌, keep, length, none, some, true, ℕ,
  ◌%◌, ◌*◌, ◌+◌, ◌-◌, ◌/◌, ◌===◌,
}
use kritvia_global_dashboard.OnCall.{
  Member, Platform, Tier, day_ms, hour_ms, or_utc, primary, secondary,
}

-- In a known zone the hour alone is moved back by the handoff hour, around the clock, and the day
-- stays; in an unknown one the whole time is moved back. The handoff hour is at most 24.
unfoldable pub to_pseudo_local_timestamp : Platform → ℕ → String → ℕ → ℕ
to_pseudo_local_timestamp p value zone handoff_hour = elim (p.local (or_utc zone) value) [
  | some t ↦
      t.day * day_ms
      + (t.hour + 24 - handoff_hour) % 24 * hour_ms
      + t.minute * 60000
      + t.second * 1000
  | none ↦ value - handoff_hour * hour_ms
]

abbrev pub window_ms : String → ℕ
window_ms interval = if interval === "DAILY" then day_ms else 7 * day_ms

unfoldable pub compute_slot_index : Platform → ℕ → ℕ → String → ℕ → String → ℕ
compute_slot_index p start_at now interval handoff_hour zone =
    let start_local = to_pseudo_local_timestamp p start_at zone handoff_hour in
    let now_local = to_pseudo_local_timestamp p now zone handoff_hour in
    (now_local - start_local) / window_ms interval

abbrev pub same_tier : Tier → Tier → Bool
same_tier primary primary = true
same_tier secondary secondary = true
same_tier _ _ = false

abbrev pub tier_members : Tier → List Member → List Member
tier_members tier members = keep (λ m. same_tier m.tier tier) members

-- An empty tier gives nobody.
unfoldable pub pick_user_for_tier : List Member → Tier → ℕ → Option String
pick_user_for_tier members tier slot_index =
    let found = tier_members tier members in
    Option.map (λ m. m.user_id)
      (get_elem? found ((slot_index % length found + length found) % length found))
