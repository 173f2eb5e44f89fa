-- ===== src/Auth/Scopes.antt =====
-- The guards that run behind authentication: auth/roles.guard.ts, auth/token-scope.guard.ts and
-- auth/token-scope.helper.ts. What a decorator set on the handler is an argument.
pub mod Access
use kritvia_global_dashboard.Base.{
  AuthUserContext, Bool, List, Option, Outcome, Role, String, [], admin, any, ceo, fail, false,
  finance, forbidden, if◌then◌else◌, none, ok, ops, require, sales, some, true, unauthorized, ◌===◌,
  ◌||◌, ◌∷◌,
}

abbrev pub same_role : Role → Role → Bool
same_role ceo ceo = true
same_role ops ops = true
same_role sales sales = true
same_role finance finance = true
same_role admin admin = true
same_role _ _ = false

abbrev pub includes : List String → String → Bool
includes xs s = any (λ x. x === s) xs

-- RolesGuard.canActivate; `none` are no required roles.
unfoldable pub check_roles : Option (List Role) → Option AuthUserContext → Outcome (Unit {0})
check_roles none user = ok tt
check_roles (some []) user = ok tt
check_roles (some (r ∷ rs)) none = fail unauthorized
check_roles (some (r ∷ rs)) (some user) =
    require (any (λ x. same_role x user.role) (r ∷ rs)) forbidden

unfoldable pub assert_token_scope : String → Option (List String) → Outcome (Unit {0})
assert_token_scope required none = ok tt
assert_token_scope required (some []) = ok tt
assert_token_scope required (some (s ∷ ss)) =
    require (includes (s ∷ ss) "*" || includes (s ∷ ss) "admin:*" || includes (s ∷ ss) required)
      forbidden

-- TokenScopeGuard.canActivate
unfoldable pub check_scope : Option String → Option AuthUserContext → Outcome (Unit {0})
unfolding assert_token_scope
check_scope none user = ok tt
check_scope (some required) none = fail unauthorized
check_scope (some required) (some user) =
    if user.is_service_account
    then assert_token_scope required user.service_account_scopes
    else ok tt
