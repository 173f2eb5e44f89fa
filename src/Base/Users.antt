-- ===== src/Base/Users.antt =====
-- The role enum of prisma/schema.prisma and the signed-in user (auth/auth.types.ts), with
-- `getActiveOrgId` of common/auth-org.ts.
use Prim.Native.String.{String}
use mathlib.Core.Bool.{Bool, true, false}
use mathlib.Core.Option.{Option}
use mathlib.Core.List.{List}
use kritvia_global_dashboard.Base.Tests.{or_else, ◌===◌, if◌then◌else◌}
use kritvia_global_dashboard.Base.Http.{Outcome, ok, fail, unauthorized}

pub data Role : Type 0 where
  ceo ops sales finance admin : Role

pub record AuthUserContext : Type 0 where
  pub user_id : String
  pub org_id : String
  pub active_org_id : Option String
  pub role : Role
  pub email : String
  pub name : String
  pub is_service_account : Bool
  pub service_account_id : Option String
  pub service_account_scopes : Option (List String)

-- `role === "CEO" || role === "ADMIN"`
abbrev pub is_ceo_or_admin : Role → Bool
is_ceo_or_admin ceo = true
is_ceo_or_admin admin = true
is_ceo_or_admin _ = false

unfoldable pub get_active_org_id : AuthUserContext → Outcome String
get_active_org_id user =
    let org_id = or_else user.active_org_id user.org_id in
    if org_id === "" then fail unauthorized else ok org_id
