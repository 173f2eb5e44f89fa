-- ===== src/Auth/JwtGuard/Tokens.antt =====
-- Whom the guard lets in by an API token.
use Prim.Native.String as Str
use kritvia_global_dashboard.Auth.JwtGuard.{
  ApiToken, AuthTokenPayload, GuardState, Request, admit, api_token, bearer_token, can_activate,
  counted, deny, fallback, is_active, jwt_user, request_token, service_user,
}
use kritvia_global_dashboard.Auth.Window.{enforce_user_and_org_rate_limits}
use kritvia_global_dashboard.Base.{
  AuthUserContext, Bool-cases, List, Memᴰ, Option, Option-cases, Outcome-cases, String, arith,
  eq_iff, fail, find, find-mem, inl, inr, ltb, none, ok, refl, some, starts_with, sym, true,
  unauthorized, update, ℕ, ◌&&◌, ◌===◌, ◌≡◌, ◌≤◌,
}
use mathlib.Core.Bool.{and-eq-true_iff}

module _ (s : GuardState) (t : ApiToken) (now : ℕ) where
  -- What is let through is below the token's hourly limit, this request included.
  pub admit_lem :
      (user : AuthUserContext)
      → (admit s t now).outcome ≡ ok user
      → (user ≡ service_user t)
        × ((counted t now).requests_this_hour ≤ t.rate_limit_per_hour)
        × ((admit s t now).state.tokens
            ≡ update
                (λ u. u.id === t.id)
                (λ u. record (counted t now) { last_used_at = some now })
                s.tokens)
  unfolding admit deny
  admit_lem user h = ground arith

-- The token behind a request that was let in as a service account.
pub record Admitted (sha256 : String → String) (tokens : List ApiToken) (r : Request) (now : ℕ)
    (user : AuthUserContext) (after_tokens : List ApiToken) : Type 0 where
  pub token : ApiToken
  pub bearer : String
  pub listed : Memᴰ token tokens
  pub not_revoked : token.revoked_at ≡ none
  pub presented : bearer_token r ≡ some bearer
  pub hash_matches : token.token_hash ≡ sha256 bearer
  pub within_limit : (counted token now).requests_this_hour ≤ token.rate_limit_per_hour
  pub is_user : user ≡ service_user token
  pub recorded :
      after_tokens
      ≡ update
          (λ u. u.id === token.id)
          (λ u. record (counted token now) { last_used_at = some now })
          tokens

active-not_revoked : (t : ApiToken) → is_active t ≡ true → t.revoked_at ≡ none
active-not_revoked t h = elim (Option-cases t.revoked_at) [ inl e ↦ e | inr (w, e) ↦ ground arith ]

module _ (verify : String → Option AuthTokenPayload) (sha256 : String → String) where
  pub api_token-eq-admit :
      (s : GuardState) (bearer : String) (now : ℕ) (t : ApiToken)
      → find (λ t. t.token_hash === sha256 bearer && is_active t) s.tokens ≡ some t
      → (sha256 bearer === t.token_hash) ≡ true
      → api_token verify sha256 s bearer now ≡ admit s t now
  unfolding api_token
  api_token-eq-admit s bearer now t e same = rw (e, same, api_token)

  pub api_token_unmatched :
      (s : GuardState) (bearer : String) (now : ℕ)
      → find (λ t. t.token_hash === sha256 bearer && is_active t) s.tokens ≡ none
      → (api_token verify sha256 s bearer now).outcome ≡ fail unauthorized
  unfolding api_token deny
  api_token_unmatched s bearer now e = rw (e, api_token)

  api_token-Admitted :
      (s : GuardState) (r : Request) (bearer : String) (now : ℕ) (user : AuthUserContext)
      → bearer_token r ≡ some bearer
      → (api_token verify sha256 s bearer now).outcome ≡ ok user
      → Admitted sha256 s.tokens r now user (api_token verify sha256 s bearer now).state.tokens
  api_token-Admitted s r bearer now user shown h =
      elim (Option-cases (find (λ t. t.token_hash === sha256 bearer && is_active t) s.tokens)) [
        | inl e ↦ absurd (cc (api_token_unmatched s bearer now e))
        | inr (t, e) ↦
            let (listed, passes) = find-mem _ s.tokens t e in
            let (same, active) = (and-eq-true_iff _ _).0 passes in
            let eq : t.token_hash ≡ sha256 bearer = (eq_iff _ _).0 same in
            let run = api_token-eq-admit s bearer now t e ((eq_iff _ _).1 (sym eq)) in
            let (is_user, within, recorded) = admit_lem s t now user (rw run at h) in
            record {
              token = t;
              bearer = bearer;
              listed = listed;
              not_revoked = active-not_revoked t active;
              presented = shown;
              hash_matches = eq;
              within_limit = within;
              is_user = is_user;
              recorded = rw run recorded;
            }
      ]

  fallback-Admitted :
      (s : GuardState) (r : Request) (b : Option String) (now : ℕ) (user : AuthUserContext)
      → bearer_token r ≡ b
      → (fallback verify sha256 s b now).outcome ≡ ok user
      → Admitted sha256 s.tokens r now user (fallback verify sha256 s b now).state.tokens
  unfolding fallback deny
  fallback-Admitted s r none now user shown h = ground arith
  fallback-Admitted s r (some b) now user shown h = elim (Bool-cases (starts_with "ktv_live_" b)) [
    | inr other ↦ absurd (ground arith)
    | inl live ↦ elim (Bool-cases (ltb (Str.count b) 40)) [
      | inl short ↦ absurd (ground arith)
      | inr long ↦
          rw (live, long, fallback)
            (api_token-Admitted s r b now user shown (rw (live, long, fallback) at h))
    ]
  ]

  -- A request is let in as a service account only by the text of an API token that is listed, not
  -- revoked, and below its hourly limit, this request included; the user is made from that token's
  -- row, and the table differs only in that row, in which the request is counted.
  pub can_activate-Admitted :
      (s : GuardState) (r : Request) (now : ℕ) (user : AuthUserContext)
      → (can_activate verify sha256 s r now).outcome ≡ ok user
      → user.is_service_account ≡ true
      → Admitted sha256 s.tokens r now user (can_activate verify sha256 s r now).state.tokens
  unfolding can_activate deny jwt_user
  can_activate-Admitted s r now user h service = elim (Option-cases (request_token r)) [
    | inl e ↦ absurd (ground arith)
    | inr (token, e) ↦ elim (Option-cases (verify token)) [
      | inl bad ↦
          rw (e, bad, can_activate)
            (fallback-Admitted s r (bearer_token r) now user refl (rw (e, bad, can_activate) at h))
      | inr (payload, good) ↦
          let checked = enforce_user_and_org_rate_limits s.rates (jwt_user payload) now in
          elim (Outcome-cases checked.1) [
            | inl (_, free) ↦ absurd (ground arith)
            | inr (x, full) ↦
                rw (e, good, full, can_activate)
                  (fallback-Admitted (record s { rates = checked.0 }) r (bearer_token r) now user
                    refl (rw (e, good, full, can_activate) at h))
          ]
    ]
  ]
