-- ===== src/Allowlist/Middleware.antt =====
-- IpAllowlistMiddleware of common/middleware/ip-allowlist.middleware.ts, which stands before the
-- guards on the routes of the administration. Of a policy's row it reads the switch and the list.
use mathlib.Core.Option
use kritvia_global_dashboard.Allowlist.{
  ClientAddress, extract_client_ip, filled, ip_matches_allowlist,
}
use kritvia_global_dashboard.Auth.JwtGuard.{
  ApiToken, AuthTokenPayload, JsonScopes, Request, array, is_active, no_array, request_token,
  strings,
}
use kritvia_global_dashboard.Base.{
  Bool, List, Option, Outcome, String, [], any, false, find, if◌then◌else◌, none, not, ok, or_else,
  require, some, starts_with, ℕ, ◌&&◌, ◌++◌, ◌===◌, ◌||◌, ◌∷◌, forbidden,
}

pub record OrgPolicy : Type 0 where
  pub org_id : String
  pub ip_restriction_enabled : Bool
  pub ip_allowlist : JsonScopes

abbrev unrestricted_policy : String → OrgPolicy
unrestricted_policy org_id = record {
  org_id = org_id;
  ip_restriction_enabled = false;
  ip_allowlist = array [];
}

abbrev pub policy_of : List OrgPolicy → String → OrgPolicy
policy_of policies org_id = elim (find (λ p. p.org_id === org_id) policies) [
  | none ↦ unrestricted_policy org_id
  | some p ↦ p
]

-- `upsert` with no change of a row that is there.
abbrev pub with_policy : List OrgPolicy → String → List OrgPolicy
with_policy policies org_id =
    if any (λ p. p.org_id === org_id) policies
    then policies
    else policies ++ unrestricted_policy org_id ∷ []

abbrev pub listed_texts : JsonScopes → List String
listed_texts no_array = []
listed_texts (array entries) = strings entries

module _ (verify : String → Option AuthTokenPayload) (sha256 : String → String) where
  unfoldable pub resolve_org_id : List ApiToken → Request → Option String
  unfolding request_token
  resolve_org_id tokens r = elim (request_token r) [
    | none ↦ none
    | some token ↦
        if starts_with "ktv_live_" token
        then Option.map (λ (t : ApiToken). t.org_id)
            (find (λ t. t.token_hash === sha256 token && is_active t) tokens)
        else Option.map (λ (p : AuthTokenPayload). or_else p.active_org_id p.org_id) (verify token)
  ]

module _ (is_ip : String → ℕ) where
  abbrev pub address_allowed : OrgPolicy → ClientAddress → Bool
  address_allowed policy client = elim (filled (extract_client_ip client)) [
    | none ↦ false
    | some ip ↦ ip_matches_allowlist is_ip ip (listed_texts policy.ip_allowlist)
  ]

module _ (is_ip : String → ℕ) (verify : String → Option AuthTokenPayload)
    (sha256 : String → String) where
  -- `ok tt` is the call of `next`.
  unfoldable pub use_middleware :
      List ApiToken → List OrgPolicy → Request → ClientAddress → List OrgPolicy × Outcome (Unit {0})
  unfolding resolve_org_id extract_client_ip ip_matches_allowlist
  use_middleware tokens policies r client = elim (filled (resolve_org_id verify sha256 tokens r)) [
    | none ↦ (policies, ok tt)
    | some org_id ↦
        let policy = policy_of policies org_id in
        (
          with_policy policies org_id,
          require (not policy.ip_restriction_enabled || address_allowed is_ip policy client)
              forbidden,
        )
  ]
