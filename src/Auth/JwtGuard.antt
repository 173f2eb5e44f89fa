-- ===== src/Auth/JwtGuard.antt =====
-- JwtAuthGuard of auth/jwt-auth.guard.ts. The table of API tokens and the two maps of windows are
-- the state; `verify` (the JWT library, with the secret) and `sha256` are parameters.
pub mod Tokens
pub mod Limits
use mathlib.Core.Option
use Prim.Native.String as Str
use kritvia_global_dashboard.Auth.Window.{
  RateState, enforce_org_fallback_rate_limit, enforce_user_and_org_rate_limits,
}
use kritvia_global_dashboard.Base.{
  AuthUserContext, Bool, HttpError, List, Option, Outcome, Role, String, [], alt, count, fail,
  false, find, if◌then◌else◌, is_empty, is_some, leb, ltb, map, none, not, ok, or_else, some,
  starts_with, strip_prefix, too_many_requests, trim, true, unauthorized, update, ℕ, ◌&&◌, ◌+◌, ◌-◌,
  ◌===◌, ◌∷◌,
}

-- AuthTokenPayload of auth/auth.types.ts.
pub record AuthTokenPayload : Type 0 where
  pub sub : String
  pub org_id : String
  pub active_org_id : Option String
  pub role : Role
  pub email : String
  pub name : String

-- The JSON column `scopes`: an array, in which `none` is an entry that is no string, or another
-- value (null included).
pub data JsonScopes : Type 0 where
  array : List (Option String) → JsonScopes
  no_array : JsonScopes

pub record ApiToken : Type 0 where
  pub id : String
  pub org_id : String
  pub name : String
  pub role : Role
  pub token_hash : String
  pub scopes : JsonScopes
  pub rate_limit_per_hour : ℕ
  pub requests_this_hour : ℕ
  pub hour_window_start : Option ℕ
  pub last_used_at : Option ℕ
  pub revoked_at : Option ℕ

pub record GuardState : Type 0 where
  pub rates : RateState
  pub tokens : List ApiToken

-- The headers and the cookie that the guard reads.
pub record Request : Type 0 where
  pub authorization : Option String
  pub cookie_token : Option String

pub record TokenRef : Type 0 where
  pub org_id : String
  pub token_id : String

-- What one call of the guard leaves: the state, the token whose use is to be logged when the
-- response is finished, and the user or the exception.
pub record Decision : Type 0 where
  pub state : GuardState
  pub usage_log : Option TokenRef
  pub outcome : Outcome AuthUserContext

abbrev pub strings : List (Option String) → List String
strings [] = []
strings (none ∷ xs) = strings xs
strings (some s ∷ xs) = s ∷ strings xs

abbrev non_empty : List String → Option (List String)
non_empty [] = none
non_empty (s ∷ xs) = some (s ∷ xs)

unfoldable pub parse_service_account_scopes : JsonScopes → Option (List String)
parse_service_account_scopes no_array = none
parse_service_account_scopes (array xs) = non_empty (strings xs)

unfoldable pub bearer_token : Request → Option String
bearer_token r = elim r.authorization [
  | none ↦ none
  | some header ↦ Option.map trim (strip_prefix "Bearer " header)
]

-- `bearerToken ?? cookieToken`, where an empty text counts as missing.
unfoldable pub request_token : Request → Option String
unfolding bearer_token
request_token r = elim (alt (bearer_token r) r.cookie_token) [
  | none ↦ none
  | some t ↦ if is_empty t then none else some t
]

abbrev pub hour : ℕ
hour = 3600000

unfoldable pub deny : GuardState → Option TokenRef → HttpError → Decision
deny s log e = record { state = s; usage_log = log; outcome = fail e }

unfoldable pub jwt_user : AuthTokenPayload → AuthUserContext
jwt_user payload =
    let org = or_else payload.active_org_id payload.org_id in
    record {
      user_id = payload.sub;
      org_id = org;
      active_org_id = some org;
      role = payload.role;
      email = payload.email;
      name = payload.name;
      is_service_account = false;
      service_account_id = none;
      service_account_scopes = none;
    }

unfoldable pub service_user : ApiToken → AuthUserContext
unfolding parse_service_account_scopes
service_user t = record {
  user_id = "api-token";
  org_id = t.org_id;
  active_org_id = some t.org_id;
  role = t.role;
  email = "service-account";
  name = t.name;
  is_service_account = true;
  service_account_id = some t.id;
  service_account_scopes = parse_service_account_scopes t.scopes;
}

abbrev pub window_expired : ApiToken → ℕ → Bool
window_expired t now = elim t.hour_window_start [ none ↦ true | some w ↦ leb hour (now - w) ]

-- The token's row with this request counted in its hour.
abbrev pub counted : ApiToken → ℕ → ApiToken
counted t now = record t {
  requests_this_hour = (if window_expired t now then 0 else t.requests_this_hour) + 1;
  hour_window_start = if window_expired t now then some now else t.hour_window_start;
}

abbrev pub write_token : String → ApiToken → GuardState → GuardState
write_token id t s = record s { tokens = update (λ u. u.id === id) (λ u. t) s.tokens }

-- The branch for a token that was found and is not revoked.
unfoldable pub admit : GuardState → ApiToken → ℕ → Decision
unfolding deny
admit s t now =
    let c = counted t now in
    let log = some (record { org_id = t.org_id; token_id = t.id }) in
    if ltb t.rate_limit_per_hour c.requests_this_hour
    then deny (write_token t.id c s) log too_many_requests
    else let written = write_token t.id (record c { last_used_at = some now }) s in
      let (rates, limited) = enforce_org_fallback_rate_limit s.rates t.org_id now in
      elim limited [
        | ok _ ↦ record {
          state = record written { rates = rates };
          usage_log = log;
          outcome = ok (service_user t);
        }
        | fail e ↦ deny (record written { rates = rates }) log e
      ]

abbrev pub is_active : ApiToken → Bool
is_active t = not (is_some t.revoked_at)

module _ (verify : String → Option AuthTokenPayload) (sha256 : String → String) where
  unfoldable pub api_token : GuardState → String → ℕ → Decision
  unfolding deny
  api_token s bearer now =
      let hash = sha256 bearer in
      let any_use =
        Option.map
          (λ (t : ApiToken). let r : TokenRef = record { org_id = t.org_id; token_id = t.id } in r)
          (find (λ t. t.token_hash === hash) s.tokens) in
      elim (find (λ t. t.token_hash === hash && is_active t) s.tokens) [
        | none ↦ deny s any_use unauthorized
        | some t ↦ if hash === t.token_hash then admit s t now else deny s any_use unauthorized
      ]

  -- The `catch` block.
  unfoldable pub fallback : GuardState → Option String → ℕ → Decision
  unfolding api_token deny
  fallback s none now = deny s none unauthorized
  fallback s (some bearer) now =
      if starts_with "ktv_live_" bearer
      then if ltb (Str.count bearer) 40 then deny s none unauthorized else api_token s bearer now
      else deny s none unauthorized

  -- The `try` block: what it throws, the limits included, is caught.
  unfoldable pub can_activate : GuardState → Request → ℕ → Decision
  unfolding fallback deny request_token bearer_token jwt_user
  can_activate s r now = elim (request_token r) [
    | none ↦ deny s none unauthorized
    | some token ↦ elim (verify token) [
      | none ↦ fallback s (bearer_token r) now
      | some payload ↦
          let (rates, limited) = enforce_user_and_org_rate_limits s.rates (jwt_user payload) now in
          elim limited [
            | ok _ ↦ record {
              state = record s { rates = rates };
              usage_log = none;
              outcome = ok (jwt_user payload);
            }
            | fail e ↦ fallback (record s { rates = rates }) (bearer_token r) now
          ]
    ]
  ]
