-- ===== src/Allowlist/Blocks.antt =====
-- The addresses that an entry with a prefix stands for.
use kritvia_global_dashboard.Allowlist.{
  cidr_parts, four_octets, join, masked, matches_ipv4_cidr, normalize_ip, octet, parse_ipv4_to_int,
  same_block, shift_count, split,
}
use kritvia_global_dashboard.Base.{
  List, Option, ParsedInt, String, [], arith, codes, false, int, nan, none, parse_int, refl, some,
  suc, true, zero, ℕ, ◌*◌, ◌+◌, ◌-◌, ◌/◌, ◌<◌, ◌==◌, ◌^◌, ◌↔◌, ◌∷◌, ◌≡◌, ◌≤◌,
}
use native.Mathlib.Nat.{
  one-le-pow, div-lt_iff_lt-mul, le-div_iff_mul-le, lt-div-mul-add, div-mul-le_self,
}

-- An address is in the block of `2 ^ shift` addresses of a base just if both are the same but for
-- their last bits.
masked-block :
    (shift a b : ℕ)
    → 0 < 2 ^ shift
    → ((masked shift a == masked shift b) ≡ true)
      ↔ ((masked shift b ≤ a) × (a < masked shift b + 2 ^ shift))
masked-block shift a b positive = (forth, back)
  where
    forth :
        (masked shift a == masked shift b) ≡ true
        → (masked shift b ≤ a) × (a < masked shift b + 2 ^ shift)
    forth h =
        let low = div-mul-le_self a (2 ^ shift) in
        let high = lt-div-mul-add {a = a} positive in ground arith

    back :
        (masked shift b ≤ a) × (a < masked shift b + 2 ^ shift)
        → (masked shift a == masked shift b) ≡ true
    back (low, high) =
        let least : b / 2 ^ shift ≤ a / 2 ^ shift = (le-div_iff_mul-le positive).1 low in
        let most : a / 2 ^ shift < b / 2 ^ shift + 1 =
          (div-lt_iff_lt-mul positive).1 (omega arith) in
        let same : a / 2 ^ shift ≡ b / 2 ^ shift = omega arith in rw same (ground arith)

octet-lt : (p : ParsedInt) (n : ℕ) → octet p ≡ some n → n < 256
unfolding octet
octet-lt nan n h = ground arith
octet-lt (int minus k) n h = ground arith

join-some :
    (x y : Option ℕ) (n : ℕ)
    → join x y ≡ some n
    → (a : ℕ) × (b : ℕ) × (x ≡ some a) × (y ≡ some b) × (n ≡ a * 256 + b)
join-some none y n h = ground arith
join-some (some a) none n h = ground arith
join-some (some a) (some b) n h = (a, b, refl, refl, ground arith)

four_octets-lt : (parts : List String) (n : ℕ) → four_octets parts ≡ some n → n < 4294967296
unfolding four_octets
four_octets-lt (a ∷ b ∷ c ∷ d ∷ []) n h =
    let (x, z4, e1, o4, n1) = join-some _ _ n h in
    let (y, z3, e2, o3, n2) = join-some _ _ x e1 in
    let (z1, z2, o1, o2, n3) = join-some _ _ y e2 in
    let l1 = octet-lt (parse_int (codes a)) z1 o1 in
    let l2 = octet-lt (parse_int (codes b)) z2 o2 in
    let l3 = octet-lt (parse_int (codes c)) z3 o3 in
    let l4 = octet-lt (parse_int (codes d)) z4 o4 in omega arith
four_octets-lt [] n h = ground arith
four_octets-lt (a ∷ []) n h = ground arith
four_octets-lt (a ∷ b ∷ []) n h = ground arith
four_octets-lt (a ∷ b ∷ c ∷ []) n h = ground arith
four_octets-lt (a ∷ b ∷ c ∷ d ∷ e ∷ es) n h = ground arith

parse_ipv4_to_int-lt : (ip : String) (n : ℕ) → parse_ipv4_to_int ip ≡ some n → n < 4294967296
unfolding parse_ipv4_to_int
parse_ipv4_to_int-lt ip n h = four_octets-lt (split b'.' ip) n h

shift_of : (n : ℕ) → n ≤ 31 → shift_count false (suc n) ≡ 32 - suc n
shift_of n le = omega arith

same_block-suc :
    (a b n : ℕ)
    → same_block a b (int false (suc n))
      ≡ (masked (shift_count false (suc n)) a == masked (shift_count false (suc n)) b)
unfolding same_block
same_block-suc a b n = ground arith

same_block-block :
    (a b prefix : ℕ)
    → a < 4294967296
    → b < 4294967296
    → prefix ≤ 32
    → (same_block a b (int false prefix) ≡ true)
      ↔ ((masked (32 - prefix) b ≤ a) × (a < masked (32 - prefix) b + 2 ^ (32 - prefix)))
unfolding same_block
same_block-block a b zero la lb le = (λ _. (omega arith, omega arith), λ _. refl)
same_block-block a b (suc n) la lb le =
    rw (same_block-suc a b n, ← shift_of n (omega arith))
      (masked-block (shift_count false (suc n)) a b
        (one-le-pow (shift_count false (suc n)) 2 (omega arith)))

-- An entry whose base is an address of four octets and whose prefix is from 0 to 32 matches just
-- the addresses of its block: those `2 ^ (32 - prefix)` that begin at the base, rounded down to a
-- multiple of their number. An address is a number below `2 ^ 32`.
pub matches_ipv4_cidr-block :
    (ip cidr base : String) (a b prefix : ℕ)
    → parse_ipv4_to_int ip ≡ some a
    → cidr_parts cidr ≡ (base, int false prefix)
    → parse_ipv4_to_int (normalize_ip base) ≡ some b
    → prefix ≤ 32
    → (matches_ipv4_cidr ip cidr ≡ true)
      ↔ ((masked (32 - prefix) b ≤ a) × (a < masked (32 - prefix) b + 2 ^ (32 - prefix)))
unfolding matches_ipv4_cidr
matches_ipv4_cidr-block ip cidr base a b prefix h_ip h_cidr h_base le =
    rw (h_cidr, h_ip, h_base)
      (same_block-block a b prefix (parse_ipv4_to_int-lt ip a h_ip)
        (parse_ipv4_to_int-lt (normalize_ip base) b h_base) le)
