-- ===== src/Auth/Scopes/Access.antt =====
-- When the guards for roles and scopes let a request through.
use kritvia_global_dashboard.Auth.Scopes.{
  assert_token_scope, check_roles, check_scope, includes, same_role,
}
use kritvia_global_dashboard.Base.{
  AuthUserContext, Bool-cases, List, Memᴰ, Option, Role, String, [], any, any-mem, arith, eq_iff,
  eq_refl, false, inl, inr, mem-any, none, ok, refl, some, true, ◌===◌, ◌↔◌, ◌∷◌, ◌≡◌, ◌⊎◌,
}

same_role→eq : (a b : Role) → same_role a b ≡ true → a ≡ b
same_role→eq a b h = ground arith

same_role_self : (a : Role) → same_role a a ≡ true
same_role_self a = ground arith

-- The roles that a handler names admit the user.
pub data HasRole (user : AuthUserContext) : Option (List Role) → Type 0 where
  open_to_all : HasRole user none
  no_roles : HasRole user (some [])
  named : {r : Role} {rs : List Role} → Memᴰ user.role (r ∷ rs) → HasRole user (some (r ∷ rs))

check_roles→HasRole :
    (required : Option (List Role)) (user : AuthUserContext)
    → check_roles required (some user) ≡ ok tt
    → HasRole user required
unfolding check_roles
check_roles→HasRole none user h = open_to_all
check_roles→HasRole (some []) user h = no_roles
check_roles→HasRole (some (r ∷ rs)) user h =
    let (x, m, e) = any-mem (λ x. same_role x user.role) (r ∷ rs) (ground arith) in
    named (rw (same_role→eq x user.role e) at m)

HasRole→check_roles :
    {required : Option (List Role)} {user : AuthUserContext}
    → HasRole user required
    → check_roles required (some user) ≡ ok tt
unfolding check_roles
HasRole→check_roles open_to_all = refl
HasRole→check_roles no_roles = refl
HasRole→check_roles {user} (named {r} {rs} m) =
    let passes : any (λ x. same_role x user.role) (r ∷ rs) ≡ true =
      mem-any (λ x. same_role x user.role) m (same_role_self user.role) in
    ground arith

-- The scopes of a service account grant the scope that a handler asks for.
pub data Grants (required : String) : Option (List String) → Type 0 where
  no_scopes : Grants required none
  empty_scopes : Grants required (some [])
  wildcard : {ss : List String} → Memᴰ "*" ss → Grants required (some ss)
  admin_wildcard : {ss : List String} → Memᴰ "admin:*" ss → Grants required (some ss)
  listed : {ss : List String} → Memᴰ required ss → Grants required (some ss)

includes→mem : (xs : List String) (s : String) → includes xs s ≡ true → Memᴰ s xs
includes→mem xs s h = let (x, m, e) = any-mem (λ x. x === s) xs h in rw ((eq_iff x s).0 e) at m

mem→includes : {xs : List String} {s : String} → Memᴰ s xs → includes xs s ≡ true
mem→includes {xs} {s} m = mem-any (λ x. x === s) m (eq_refl s)

assert_token_scope→Grants :
    (required : String) (scopes : Option (List String))
    → assert_token_scope required scopes ≡ ok tt
    → Grants required scopes
unfolding assert_token_scope
assert_token_scope→Grants required none h = no_scopes
assert_token_scope→Grants required (some []) h = empty_scopes
assert_token_scope→Grants required (some (s ∷ ss)) h = elim (Bool-cases (includes (s ∷ ss) "*")) [
  | inl e ↦ wildcard (includes→mem (s ∷ ss) "*" e)
  | inr no_star ↦ elim (Bool-cases (includes (s ∷ ss) "admin:*")) [
    | inl e ↦ admin_wildcard (includes→mem (s ∷ ss) "admin:*" e)
    | inr no_admin ↦ listed (includes→mem (s ∷ ss) required (ground arith))
  ]
]

Grants→assert_token_scope :
    {required : String} {scopes : Option (List String)}
    → Grants required scopes
    → assert_token_scope required scopes ≡ ok tt
unfolding assert_token_scope
Grants→assert_token_scope no_scopes = refl
Grants→assert_token_scope empty_scopes = refl
Grants→assert_token_scope (wildcard {ss = []} m) = refl
Grants→assert_token_scope (wildcard {ss = s ∷ ss} m) = let e = mem→includes m in ground arith
Grants→assert_token_scope (admin_wildcard {ss = []} m) = refl
Grants→assert_token_scope (admin_wildcard {ss = s ∷ ss} m) = let e = mem→includes m in ground arith
Grants→assert_token_scope (listed {ss = []} m) = refl
Grants→assert_token_scope (listed {ss = s ∷ ss} m) = let e = mem→includes m in ground arith

-- A handler that names roles admits exactly the users with one of them, and one that names none
-- admits everybody.
pub check_roles_iff :
    (required : Option (List Role)) (user : AuthUserContext)
    → (check_roles required (some user) ≡ ok tt) ↔ HasRole user required
check_roles_iff required user = (check_roles→HasRole required user, HasRole→check_roles)

-- A handler that asks for a scope admits every user who is no service account, and a service
-- account exactly when its scopes are missing, empty, or hold a wildcard or that scope.
pub check_scope_iff :
    (required : String) (user : AuthUserContext)
    → (check_scope (some required) (some user) ≡ ok tt)
      ↔ ((user.is_service_account ≡ false) ⊎ Grants required user.service_account_scopes)
unfolding check_scope
check_scope_iff required user = elim (Bool-cases user.is_service_account) [
  | inl service ↦ (
    λ h. inr (assert_token_scope→Grants required user.service_account_scopes (ground arith)),
    λ g. elim g [
      | inl no_service ↦ absurd (cc)
      | inr granted ↦ let e = Grants→assert_token_scope granted in ground arith
    ],
  )
  | inr no_service ↦ (λ h. inl no_service, λ g. ground arith)
]
