-- ===== src/Auth/JwtGuard/Limits.antt =====
-- What a caller sees who shows no API token, also when a request limit is met.
use kritvia_global_dashboard.Auth.JwtGuard.{
  AuthTokenPayload, GuardState, Request, bearer_token, can_activate, deny, fallback, jwt_user,
  request_token, unauthorized,
}
use kritvia_global_dashboard.Auth.Window.{enforce_user_and_org_rate_limits}
use kritvia_global_dashboard.Base.{
  AuthUserContext, HttpError, Option, Option-cases, Outcome, Outcome-cases, String, arith, fail,
  false, inl, inr, ok, refl, some, starts_with, sym, ℕ, ◌↔◌, ◌∙◌, ◌≡◌, ◌⊎◌,
}

abbrev reject : HttpError → Outcome AuthUserContext
reject e = fail e

-- Such a request shows a session, or nothing.
abbrev pub NoApiToken : Request → Type 0
NoApiToken r = (b : String) → bearer_token r ≡ some b → starts_with "ktv_live_" b ≡ false

module _ (verify : String → Option AuthTokenPayload) (sha256 : String → String) where
  -- What a session needs: a token that verifies, in the header or else in the cookie, and free
  -- limits of its user and its organisation.
  pub record Session (s : GuardState) (r : Request) (now : ℕ) (user : AuthUserContext)
      : Type 0 where
    pub token : String
    pub payload : AuthTokenPayload
    pub shown : request_token r ≡ some token
    pub verified : verify token ≡ some payload
    pub free : (enforce_user_and_org_rate_limits s.rates (jwt_user payload) now).1 ≡ ok tt
    pub is_user : user ≡ jwt_user payload

  fallback_plain :
      (s : GuardState) (r : Request) (now : ℕ)
      → NoApiToken r
      → (fallback verify sha256 s (bearer_token r) now).outcome ≡ fail unauthorized
  unfolding fallback deny
  fallback_plain s r now plain = elim (Option-cases (bearer_token r)) [
    | inl absent ↦ rw (absent, fallback)
    | inr (b, shown) ↦ rw (shown, plain b shown, fallback)
  ]

  Session-can_activate :
      (s : GuardState) (r : Request) (now : ℕ) (user : AuthUserContext)
      → Session s r now user
      → (can_activate verify sha256 s r now).outcome ≡ ok user
  unfolding can_activate
  Session-can_activate s r now user h = rw (h.is_user, h.shown, h.verified, h.free, can_activate)

  -- The outcome of a request without an API token, whichever way it takes.
  plain_outcome :
      (s : GuardState) (r : Request) (now : ℕ)
      → NoApiToken r
      → ((user : AuthUserContext) × Session s r now user)
        ⊎ ((can_activate verify sha256 s r now).outcome ≡ fail unauthorized)
  unfolding can_activate deny
  plain_outcome s r now plain = elim (Option-cases (request_token r)) [
    | inl absent ↦ inr (rw (absent, can_activate))
    | inr (token, shown) ↦ elim (Option-cases (verify token)) [
      | inl bad ↦ inr (rw (shown, bad, can_activate) (fallback_plain s r now plain))
      | inr (payload, good) ↦
          let checked = enforce_user_and_org_rate_limits s.rates (jwt_user payload) now in
          elim (Outcome-cases checked.1) [
            | inl (u, free) ↦ inl (
              jwt_user payload,
              record {
                token = token;
                payload = payload;
                shown = shown;
                verified = good;
                free = free;
                is_user = refl;
              },
            )
            | inr (e, full) ↦ inr (
                rw (shown, good, full, can_activate)
                  (fallback_plain (record s { rates = checked.0 }) r now plain))
          ]
    ]
  ]

  -- A request whose bearer text is no API token is let in exactly as the user of a token, in the
  -- header or else in the cookie, that verifies while neither the limit of its user nor that of the
  -- organisation is met. Every other such request is refused with 401, also one whose limit is met:
  -- it is never answered 429.
  pub can_activate_plain :
      (s : GuardState) (r : Request) (now : ℕ)
      → NoApiToken r
      → ((user : AuthUserContext)
          → ((can_activate verify sha256 s r now).outcome ≡ ok user) ↔ Session s r now user)
        × ((e : HttpError)
            → (can_activate verify sha256 s r now).outcome ≡ fail e
            → e ≡ unauthorized)
  can_activate_plain s r now plain = elim (plain_outcome s r now plain) [
    | inl (user, session) ↦
        let passed = Session-can_activate s r now user session in
        (
          λ u. (
            λ h. let same_user : user ≡ u = same_ok (sym passed ∙ h) in rw (← same_user) session,
            Session-can_activate s r now u,
          ),
          λ e h. absurd (cc),
        )
    | inr refused ↦ (
      λ u. (
        λ h. absurd (cc),
        λ session. absurd (let passed = Session-can_activate s r now u session in cc),
      ),
      λ e h. same_fail (sym h ∙ refused),
    )
  ]
    where
      same_ok : {u v : AuthUserContext} → ok u ≡ ok v → u ≡ v
      same_ok e = ground arith

      same_fail : {e f : HttpError} → reject e ≡ reject f → e ≡ f
      same_fail e = ground arith
