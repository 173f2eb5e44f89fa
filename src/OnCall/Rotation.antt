-- ===== src/OnCall/Rotation.antt =====
-- Who is picked from a tier over the slots.
use mathlib.Core.Option
use kritvia_global_dashboard.Base.{
  List, Memᴰ, [], arith, get_elem?, length, refl, some, suc, zero, ℕ, ◌%◌, ◌+◌, ◌<◌, ◌∙◌, ◌∷◌, ◌≡◌,
}
use kritvia_global_dashboard.OnCall.{Member, Tier}
use kritvia_global_dashboard.OnCall.Slots.{pick_user_for_tier, tier_members}

mod_add_self : (x n : ℕ) → 0 < n → (x % n + n) % n ≡ x % n
mod_add_self x n nonempty = grind arith

get_elem?-total {ℓ} :
    {A : Type ℓ} (xs : List A) (i : ℕ) → i < length xs → (x : A) × (get_elem? xs i ≡ some x)
get_elem?-total [] i h = elim h [ ]
get_elem?-total (x ∷ xs) zero h = (x, refl)
get_elem?-total (x ∷ xs) (suc i) h = get_elem?-total xs i (omega arith)

get_elem?-mem {ℓ} : {A : Type ℓ} (xs : List A) (i : ℕ) (x : A) → get_elem? xs i ≡ some x → Memᴰ x xs
get_elem?-mem [] i x h = absurd (ground arith)
get_elem?-mem (y ∷ ys) zero x h = Memᴰ.head (ground arith)
get_elem?-mem (y ∷ ys) (suc i) x h = Memᴰ.tail (get_elem?-mem ys i x h)

module _ (members : List Member) (tier : Tier) where
  abbrev pub found : List Member
  found = tier_members tier members

  -- A slot picks the member at its number, counted around the tier.
  pick_user_for_tier_lem :
      (slot : ℕ)
      → 0 < length found
      → pick_user_for_tier members tier slot
        ≡ Option.map (λ m. m.user_id) (get_elem? found (slot % length found))
  unfolding pick_user_for_tier
  pick_user_for_tier_lem slot nonempty = rw (mod_add_self slot (length found) nonempty) refl

  -- A tier that has members always has somebody on call, who is one of them; the slots give the
  -- members in their order, and after the last begin again.
  pub rotation :
      (slot : ℕ)
      → 0 < length found
      → (m : Member) × Memᴰ m found
        × (pick_user_for_tier members tier slot ≡ some m.user_id)
        × (get_elem? found (slot % length found) ≡ some m)
        × (pick_user_for_tier members tier (slot + length found) ≡ some m.user_id)
  rotation slot nonempty =
      let (m, e) = get_elem?-total found (slot % length found) (omega arith) in
      let wraps : (slot + length found) % length found ≡ slot % length found = grind arith in
      (
        m,
        get_elem?-mem found (slot % length found) m e,
        pick_user_for_tier_lem slot nonempty ∙ rw e,
        e,
        pick_user_for_tier_lem (slot + length found) nonempty ∙ rw (wraps, e),
      )
