-- ===== src/Allowlist/Guarded.antt =====
-- The middleware and the guard on the same request.
use Prim.Native.String as Str
use kritvia_global_dashboard.Allowlist.{ClientAddress}
use kritvia_global_dashboard.Allowlist.Middleware.{
  OrgPolicy, address_allowed, policy_of, resolve_org_id, use_middleware,
}
use kritvia_global_dashboard.Auth.JwtGuard.{
  ApiToken, AuthTokenPayload, GuardState, Request, api_token, bearer_token, can_activate, deny,
  fallback, is_active, jwt_user, request_token, service_user,
}
use kritvia_global_dashboard.Auth.JwtGuard.Tokens.{
  admit_lem, api_token-eq-admit, api_token_unmatched,
}
use kritvia_global_dashboard.Auth.Window.{enforce_user_and_org_rate_limits}
use kritvia_global_dashboard.Base.{
  AuthUserContext, Bool-cases, List, Option, Option-cases, Outcome-cases, String, arith, eq_iff,
  false, find, find-mem, inl, inr, is_empty, ltb, none, not, ok, or_else, refl, require,
  require-eq-ok, some, starts_with, sym, true, ℕ, ◌&&◌, ◌===◌, ◌||◌, ◌≡◌, forbidden,
}
use mathlib.Core.Bool.{and-eq-true_iff}

no_empty_live : (text : String) → is_empty text ≡ true → starts_with "ktv_live_" text ≡ true → ⊥
unfolding starts_with
no_empty_live Str.[] e h = ground arith
no_empty_live (Str.◌∷◌ c text) e h = ground arith

-- A bearer text that begins as an API token is the token of the request.
request_token-live :
    (r : Request) (bearer : String)
    → bearer_token r ≡ some bearer
    → starts_with "ktv_live_" bearer ≡ true
    → request_token r ≡ some bearer
unfolding request_token
request_token-live r bearer shown live = elim (Bool-cases (is_empty bearer)) [
  | inl e ↦ absurd (no_empty_live bearer e live)
  | inr e ↦ rw (shown, e, request_token)
]

module _ (verify : String → Option AuthTokenPayload) (sha256 : String → String)
    (not_live : (t : String) (p : AuthTokenPayload)
      → verify t ≡ some p
      → starts_with "ktv_live_" t ≡ false) where
  resolve_live :
      (tokens : List ApiToken) (r : Request) (bearer : String) (t : ApiToken)
      → bearer_token r ≡ some bearer
      → starts_with "ktv_live_" bearer ≡ true
      → find (λ u. u.token_hash === sha256 bearer && is_active u) tokens ≡ some t
      → resolve_org_id verify sha256 tokens r ≡ some t.org_id
  unfolding resolve_org_id
  resolve_live tokens r bearer t shown live row =
      rw (request_token-live r bearer shown live, live, row, resolve_org_id)

  resolve_session :
      (tokens : List ApiToken) (r : Request) (token : String) (p : AuthTokenPayload)
      → request_token r ≡ some token
      → verify token ≡ some p
      → resolve_org_id verify sha256 tokens r ≡ some (or_else p.active_org_id p.org_id)
  unfolding resolve_org_id
  resolve_session tokens r token p e good = rw (e, not_live token p good, good, resolve_org_id)

  resolve_fallback :
      (s : GuardState) (r : Request) (b : Option String) (now : ℕ) (user : AuthUserContext)
      → bearer_token r ≡ b
      → (fallback verify sha256 s b now).outcome ≡ ok user
      → (bearer : String) × (b ≡ some bearer)
        × (starts_with "ktv_live_" bearer ≡ true)
        × (resolve_org_id verify sha256 s.tokens r ≡ some user.org_id)
  unfolding fallback deny service_user
  resolve_fallback s r none now user shown h = ground arith
  resolve_fallback s r (some b) now user shown h = elim (Bool-cases (starts_with "ktv_live_" b)) [
    | inr other ↦ absurd (ground arith)
    | inl live ↦ elim (Bool-cases (ltb (Str.count b) 40)) [
      | inl short ↦ absurd (ground arith)
      | inr long ↦
          let passed : (api_token verify sha256 s b now).outcome ≡ ok user =
            rw (live, long, fallback) at h in
          elim (Option-cases (find (λ t. t.token_hash === sha256 b && is_active t) s.tokens)) [
            | inl e ↦ absurd (cc (api_token_unmatched verify sha256 s b now e))
            | inr (t, e) ↦
                let hashes = ((and-eq-true_iff _ _).0 (find-mem _ s.tokens t e).1).0 in
                let run =
                  api_token-eq-admit verify sha256 s b now t e
                    ((eq_iff _ _).1 (sym ((eq_iff _ _).0 hashes))) in
                let is_user = (admit_lem s t now user (rw run at passed)).0 in
                (b, refl, live, rw is_user (resolve_live s.tokens r b t shown live e))
          ]
    ]
  ]

  -- The organisation of a user whom the guard lets in is the one that the middleware has found.
  can_activate-resolve :
      (s : GuardState) (r : Request) (now : ℕ) (user : AuthUserContext)
      → (can_activate verify sha256 s r now).outcome ≡ ok user
      → resolve_org_id verify sha256 s.tokens r ≡ some user.org_id
  unfolding can_activate deny jwt_user
  can_activate-resolve s r now user h = elim (Option-cases (request_token r)) [
    | inl e ↦ absurd (ground arith)
    | inr (token, e) ↦ elim (Option-cases (verify token)) [
      | inl bad ↦
          let (b, shown, live, same_org) =
            resolve_fallback s r (bearer_token r) now user refl (rw (e, bad, can_activate) at h) in
          same_org
      | inr (payload, good) ↦
          let checked = enforce_user_and_org_rate_limits s.rates (jwt_user payload) now in
          elim (Outcome-cases checked.1) [
            | inl (_, free) ↦
                let is_user : jwt_user payload ≡ user = ground arith in
                rw (← is_user) (resolve_session s.tokens r token payload e good)
            | inr (x, full) ↦
                let (b, shown, live, same_org) =
                  resolve_fallback (record s { rates = checked.0 }) r (bearer_token r) now user refl
                    (rw (e, good, full, can_activate) at h) in
                same_org
          ]
    ]
  ]

  -- A request that the middleware and the guard both let pass, for a user of an organisation that
  -- restricts its addresses, comes from an address that the organisation has listed, as far as its
  -- headers tell: whatever the request shows to the guard, the middleware has looked at the policy
  -- of the same organisation. No text that begins as an API token is a session.
  pub use_middleware-guarded :
      (is_ip : String → ℕ) (s : GuardState) (policies : List OrgPolicy) (r : Request)
      (client : ClientAddress) (now : ℕ) (user : AuthUserContext)
      → (use_middleware is_ip verify sha256 s.tokens policies r client).1 ≡ ok tt
      → (can_activate verify sha256 s r now).outcome ≡ ok user
      → is_empty user.org_id ≡ false
      → (policy_of policies user.org_id).ip_restriction_enabled ≡ true
      → address_allowed is_ip (policy_of policies user.org_id) client ≡ true
  unfolding use_middleware
  use_middleware-guarded is_ip s policies r client now user passed admitted org_filled restricted =
      let same_org = can_activate-resolve s r now user admitted in
      let required : require
            (not (policy_of policies user.org_id).ip_restriction_enabled
              || address_allowed is_ip (policy_of policies user.org_id) client)
            forbidden
          ≡ ok tt =
        rw (use_middleware, same_org, org_filled) at passed in
      rw restricted at (require-eq-ok _ forbidden required)
