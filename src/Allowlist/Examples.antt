-- ===== src/Allowlist/Examples.antt =====
-- The theorems on the list of addresses at concrete requests.
use kritvia_global_dashboard.Allowlist.{
  ClientAddress, cidr_parts, entry_matches, extract_client_ip, four_octets, ip_matches_allowlist,
  is_ipv4_cidr_entry, is_valid_ip_allowlist_entry, masked, matches_ipv4_cidr, octet,
  parse_ipv4_to_int, same_block, single, split,
}
use kritvia_global_dashboard.Allowlist.Blocks.{matches_ipv4_cidr-block}
use kritvia_global_dashboard.Allowlist.Guarded.{use_middleware-guarded}
use kritvia_global_dashboard.Allowlist.Middleware.{
  OrgPolicy, address_allowed, policy_of, resolve_org_id, use_middleware,
}
use kritvia_global_dashboard.Auth.JwtGuard.{
  AuthTokenPayload, GuardState, Request, array, bearer_token, can_activate, jwt_user, request_token,
}
use kritvia_global_dashboard.Auth.Window.{
  enforce_user_and_org_rate_limits, enforce_window_rate, get,
}
use kritvia_global_dashboard.Base.{
  Bool-cases, List, Option, String, [], admin, arith, eq_iff, false, if◌then◌else◌, inl, inr,
  is_some, none, ok, parse_int, refl, some, starts_with, strip_prefix, trim, true, ℕ, ◌+◌, ◌<◌,
  ◌===◌, ◌^◌, ◌↔◌, ◌∷◌, ◌≡◌, ◌≤◌,
}

abbrev payload : AuthTokenPayload
payload = record {
  sub = "u1";
  org_id = "o1";
  active_org_id = none;
  role = admin;
  email = "u@k";
  name = "u";
}

abbrev verify_one : String → Option AuthTokenPayload
verify_one t = if t === "jwt" then some payload else none

abbrev same_hash : String → String
same_hash s = s

abbrev ip_version : String → ℕ
ip_version text = if is_some (parse_ipv4_to_int text) then 4 else 0

abbrev session : Request
session = record { authorization = none; cookie_token = some "jwt" }

abbrev guard_state : GuardState
guard_state = record { rates = record { user_rate_state = []; org_rate_state = [] }; tokens = [] }

abbrev restricted : List OrgPolicy
restricted =
    record {
      org_id = "o1";
      ip_restriction_enabled = true;
      ip_allowlist = array (none ∷ some "10.1.0.0/16" ∷ []);
    }
    ∷ []

-- The connection comes from an address that is not listed; the header names one that is.
abbrev from_outside : ClientAddress
from_outside = record {
  forwarded = single " 10.1.2.3, 10.9.9.9";
  ip = some "203.0.113.7";
  remote_address = some "203.0.113.7";
}

sessions_not_live :
    (t : String) (p : AuthTokenPayload) → verify_one t ≡ some p → starts_with "ktv_live_" t ≡ false
unfolding starts_with strip_prefix
sessions_not_live t p h = elim (Bool-cases (t === "jwt")) [
  | inl e ↦ rw ((eq_iff t "jwt").0 e) refl
  | inr e ↦ absurd (ground arith)
]

use_middleware-guarded_example :
    address_allowed ip_version (policy_of restricted "o1") from_outside ≡ true
unfolding use_middleware can_activate request_token bearer_token jwt_user starts_with strip_prefix
    enforce_user_and_org_rate_limits enforce_window_rate get resolve_org_id extract_client_ip split
    trim ip_matches_allowlist entry_matches matches_ipv4_cidr cidr_parts parse_ipv4_to_int
    four_octets octet parse_int same_block
use_middleware-guarded_example =
    use_middleware-guarded verify_one same_hash sessions_not_live ip_version guard_state restricted
      session from_outside 5 (jwt_user payload) refl refl refl refl

-- 10.1.2.3 and 10.1.0.0, as numbers.
matches_ipv4_cidr-block_example :
    (matches_ipv4_cidr "10.1.2.3" "10.1.0.0/16" ≡ true)
    ↔ ((masked 16 167837696 ≤ 167838211) × (167838211 < masked 16 167837696 + 2 ^ 16))
unfolding parse_ipv4_to_int cidr_parts split four_octets octet parse_int trim strip_prefix
matches_ipv4_cidr-block_example =
    matches_ipv4_cidr-block "10.1.2.3" "10.1.0.0/16" "10.1.0.0" 167838211 167837696 16 refl refl
      refl (omega arith)

-- The address of the connection is not looked at when the header names one.
forwarded_believed :
    (use_middleware ip_version verify_one same_hash [] restricted session from_outside).1 ≡ ok tt
unfolding use_middleware request_token bearer_token starts_with strip_prefix resolve_org_id
    extract_client_ip split trim ip_matches_allowlist entry_matches matches_ipv4_cidr cidr_parts
    parse_ipv4_to_int four_octets octet parse_int same_block
forwarded_believed = refl

-- An entry with a prefix and text behind it is taken, as is one that matches every address.
odd_entries :
    (is_valid_ip_allowlist_entry ip_version "10.0.0.0/8x" ≡ true)
    × (matches_ipv4_cidr "203.0.113.7" "10.0.0.0/0" ≡ true)
unfolding is_valid_ip_allowlist_entry is_ipv4_cidr_entry matches_ipv4_cidr cidr_parts split
    parse_ipv4_to_int four_octets octet parse_int same_block trim strip_prefix
odd_entries = (refl, refl)
