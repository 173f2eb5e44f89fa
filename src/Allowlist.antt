-- ===== src/Allowlist.antt =====
-- The list of addresses of an organisation: common/ip-allowlist.util.ts. `is_ip` is isIP of
-- node:net, which gives 4 or 6 for an address of this version and 0 for any other text.
pub mod Middleware
pub mod Blocks
pub mod Guarded
mod Examples
use Prim.Native.Char.{Char, code}
use Prim.Native.String as Str
use mathlib.Core.Option
use kritvia_global_dashboard.Base.{
  Bool, List, Option, ParsedInt, String, [], alt, any, codes, false, if◌then◌else◌, int, is_empty,
  leb, ltb, map, nan, none, not, parse_int, some, strip_prefix, trim, ℕ, ◌%◌, ◌&&◌, ◌*◌, ◌+◌, ◌-◌,
  ◌/◌, ◌===◌, ◌==◌, ◌^◌, ◌||◌, ◌∷◌,
}

abbrev pub normalize_ip : String → String
normalize_ip input = elim (strip_prefix "::ffff:" (trim input)) [
  | some rest ↦ rest
  | none ↦ if trim input === "::1" then "127.0.0.1" else trim input
]

abbrev to_first : Char → List String → List String
to_first c [] = Str.◌∷◌ c "" ∷ []
to_first c (part ∷ parts) = Str.◌∷◌ c part ∷ parts

-- `split`, by a single character.
unfoldable pub split : ℕ → String → List String
split at Str.[] = "" ∷ []
split at (Str.◌∷◌ c s) =
    let parts = split at s in if code c == at then "" ∷ parts else to_first c parts

abbrev pub includes : ℕ → String → Bool
includes at Str.[] = false
includes at (Str.◌∷◌ c s) = code c == at || includes at s

-- An octet is neither NaN nor out of 0 to 255; the zero of "-0" counts.
unfoldable pub octet : ParsedInt → Option ℕ
octet nan = none
octet (int minus n) = if minus && not (n == 0) || ltb 255 n then none else some n

abbrev pub join : Option ℕ → Option ℕ → Option ℕ
join none b = none
join (some a) none = none
join (some a) (some b) = some (a * 256 + b)

-- The octets after the first one are added by shifts of eight bits.
unfoldable pub four_octets : List String → Option ℕ
unfolding octet parse_int
four_octets (a ∷ b ∷ c ∷ d ∷ []) =
    let part = λ (t : String). octet (parse_int (codes t)) in
    join (join (join (part a) (part b)) (part c)) (part d)
four_octets _ = none

unfoldable pub parse_ipv4_to_int : String → Option ℕ
unfolding split four_octets
parse_ipv4_to_int ip = four_octets (split b'.' ip)

-- What stands before the slash, and the number after it. A text without a slash has no number.
unfoldable pub cidr_parts : String → String × ParsedInt
unfolding split parse_int
cidr_parts cidr = elim (split b'/' cidr) [
  | [] ↦ ("", nan)
  | base ∷ rest ↦ elim rest [ [] ↦ (base, nan) | prefix ∷ _ ↦ (base, parse_int (codes prefix)) ]
]

-- `32 - prefix` as a shift takes it, by its last five bits.
abbrev pub shift_count : Bool → ℕ → ℕ
shift_count minus n = if minus then n % 32 else (32 - n % 32) % 32

-- `n & mask`, where the mask is `0xffffffff << shift`.
abbrev pub masked : ℕ → ℕ → ℕ
masked shift n = n / 2 ^ shift * 2 ^ shift

unfoldable pub same_block : ℕ → ℕ → ParsedInt → Bool
same_block ip base nan = false
same_block ip base (int minus n) =
    n == 0 || masked (shift_count minus n) ip == masked (shift_count minus n) base

abbrev pub compared : Option ℕ → Option ℕ → ParsedInt → Bool
compared none base prefix = false
compared (some ip) none prefix = false
compared (some ip) (some base) prefix = same_block ip base prefix

unfoldable pub matches_ipv4_cidr : String → String → Bool
unfolding cidr_parts parse_ipv4_to_int same_block
matches_ipv4_cidr ip cidr =
    compared (parse_ipv4_to_int ip) (parse_ipv4_to_int (normalize_ip (cidr_parts cidr).0))
      (cidr_parts cidr).1

abbrev pub prefix_in_range : ParsedInt → Bool
prefix_in_range nan = false
prefix_in_range (int minus n) = n == 0 || not minus && leb n 32

module _ (is_ip : String → ℕ) where
  unfoldable pub is_ipv4_cidr_entry : String → Bool
  unfolding cidr_parts
  is_ipv4_cidr_entry entry =
      let (base, prefix) = cidr_parts entry in
      not (is_empty base) && (is_ip (normalize_ip base) == 4 && prefix_in_range prefix)

  unfoldable pub is_valid_ip_allowlist_entry : String → Bool
  unfolding is_ipv4_cidr_entry
  is_valid_ip_allowlist_entry entry =
      ltb 0 (is_ip (normalize_ip entry)) || is_ipv4_cidr_entry (normalize_ip entry)

  -- One round of the loop over the list.
  unfoldable pub entry_matches : String → String → Bool
  unfolding matches_ipv4_cidr
  entry_matches ip entry =
      not (is_empty entry)
      && (if includes b'/' entry then is_ip ip == 4 && matches_ipv4_cidr ip entry else entry === ip)

  unfoldable pub ip_matches_allowlist : String → List String → Bool
  unfolding entry_matches
  ip_matches_allowlist ip_raw allowlist =
      let ip = normalize_ip ip_raw in
      not (is_ip ip == 0) && any (λ entry. entry_matches ip (normalize_ip entry)) allowlist

-- A header may come once, several times or not at all.
pub data Header : Type 0 where
  missing : Header
  single : String → Header
  several : List String → Header

abbrev pub header_value : Header → Option String
header_value missing = none
header_value (single value) = some value
header_value (several []) = none
header_value (several (value ∷ _)) = some value

-- A text that is there and not empty.
abbrev pub filled : Option String → Option String
filled none = none
filled (some text) = if is_empty text then none else some text

abbrev pub first_of : List String → Option String
first_of [] = none
first_of (part ∷ _) = some (trim part)

abbrev pub first_forwarded : Header → Option String
first_forwarded forwarded = elim (filled (header_value forwarded)) [
  | none ↦ none
  | some value ↦ filled (first_of (split b',' value))
]

pub record ClientAddress : Type 0 where
  pub forwarded : Header
  pub ip : Option String
  pub remote_address : Option String

unfoldable pub extract_client_ip : ClientAddress → Option String
unfolding split trim strip_prefix
extract_client_ip c =
    Option.map normalize_ip
      (alt (first_forwarded c.forwarded) (alt (filled c.ip) (filled c.remote_address)))
