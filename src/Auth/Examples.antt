-- ===== src/Auth/Examples.antt =====
-- The theorems on authentication at concrete requests.
use kritvia_global_dashboard.Auth.JwtGuard.{
  ApiToken, AuthTokenPayload, GuardState, Request, admit, api_token, array, bearer_token,
  can_activate, jwt_user, request_token, service_user,
}
use kritvia_global_dashboard.Auth.JwtGuard.Limits.{Session, can_activate_plain}
use kritvia_global_dashboard.Auth.JwtGuard.Tokens.{Admitted, can_activate-Admitted}
use kritvia_global_dashboard.Auth.Scopes.{check_scope}
use kritvia_global_dashboard.Auth.Window.{
  RateState, enforce_org_fallback_rate_limit, enforce_user_and_org_rate_limits, enforce_window_rate,
  get,
}
use kritvia_global_dashboard.Auth.Window.Quota.{run, run_quota}
use kritvia_global_dashboard.Base.{
  AuthUserContext, HttpError, List, Option, String, [], arith, fail, length, min, none, ok, ops,
  refl, sales, some, starts_with, strip_prefix, suc, trim, true, ℕ, ◌↔◌, ◌∷◌, ◌≡◌, unauthorized,
  forbidden,
}

abbrev token_text : String
token_text = "ktv_live_0123456789012345678901234567890123456789"

abbrev verify_none : String → Option AuthTokenPayload
verify_none t = none

abbrev hash : String → String
hash s = s

abbrev no_rates : RateState
no_rates = record { user_rate_state = []; org_rate_state = [] }

abbrev row : ApiToken
row = record {
  id = "t1";
  org_id = "o1";
  name = "ci";
  role = ops;
  token_hash = token_text;
  scopes = array (some "read:deals" ∷ []);
  rate_limit_per_hour = 5;
  requests_this_hour = 4;
  hour_window_start = some 1000;
  last_used_at = none;
  revoked_at = none;
}

abbrev with_row : GuardState
with_row = record { rates = no_rates; tokens = row ∷ [] }

abbrev request : Request
request = record {
  authorization = some "Bearer ktv_live_0123456789012345678901234567890123456789";
  cookie_token = none;
}

abbrev member : AuthUserContext
member = record {
  user_id = "api-token";
  org_id = "o1";
  active_org_id = some "o1";
  role = ops;
  email = "service-account";
  name = "ci";
  is_service_account = true;
  service_account_id = some "t1";
  service_account_scopes = some ("read:deals" ∷ []);
}

can_activate-Admitted_example :
    Admitted hash with_row.tokens request 2000 member
      (can_activate verify_none hash with_row request 2000).state.tokens
unfolding can_activate api_token admit service_user enforce_org_fallback_rate_limit
    enforce_window_rate get strip_prefix trim starts_with
can_activate-Admitted_example =
    can_activate-Admitted verify_none hash with_row request 2000 member refl refl

abbrev later : List ℕ
later = 20 ∷ 30 ∷ 40 ∷ []

run_quota_example : (run [] "u:OPS" 2 (10 ∷ later)).1 ≡ min (suc (length later)) 2
unfolding get
run_quota_example = run_quota [] "u:OPS" 2 10 later (omega arith) (λ w e. absurd (cc)) (omega arith)

abbrev payload : AuthTokenPayload
payload = record {
  sub = "u1";
  org_id = "o1";
  active_org_id = none;
  role = sales;
  email = "u@k";
  name = "u";
}

abbrev verify_all : String → Option AuthTokenPayload
verify_all t = some payload

abbrev session : Request
session = record { authorization = none; cookie_token = some "jwt" }

-- The user has had all requests of the minute.
abbrev busy : GuardState
busy = record {
  rates = record {
    user_rate_state = ("u1:SALES", record { window_started_at = 0; count = 100 }) ∷ [];
    org_rate_state = [];
  };
  tokens = [];
}

limited_unauthorized : (can_activate verify_all hash busy session 5).outcome ≡ fail unauthorized
unfolding can_activate request_token bearer_token enforce_user_and_org_rate_limits
    enforce_window_rate get jwt_user
limited_unauthorized = refl

can_activate_plain_example :
    ((user : AuthUserContext)
      → ((can_activate verify_all hash busy session 5).outcome ≡ ok user)
        ↔ Session verify_all hash busy session 5 user)
    × ((e : HttpError)
        → (can_activate verify_all hash busy session 5).outcome ≡ fail e
        → e ≡ unauthorized)
unfolding bearer_token
can_activate_plain_example =
    can_activate_plain verify_all hash busy session 5 (λ b e. absurd (cc e))

scope_refused : check_scope (some "read:users") (some member) ≡ fail forbidden
unfolding check_scope
scope_refused = refl
