-- ===== src/Base.antt =====
-- Names shared by all modules: the libraries', passed on, with those of the children.
mod Tests
mod Lists
mod Members
mod Paging
mod Http
mod Text
mod Numbers
mod Users
pub use Tests.*
pub use Lists.*
pub use Members.*
pub use Paging.*
pub use Http.*
unfoldable pub use Text.{strip_prefix, starts_with, trim}
pub use Text.{codes, is_empty, is_space}
pub use Numbers.{ParsedInt, nan, int, drop_space}
unfoldable pub use Numbers.{parse_int}
pub use Users.{Role, ceo, ops, sales, finance, admin, AuthUserContext, is_ceo_or_admin}
unfoldable pub use Users.{get_active_org_id}
pub use Prim.Native.Nat.{ℕ, zero, suc, ◌+◌, ◌-◌, ◌*◌, ◌/◌, ◌%◌, ◌^◌, ◌≤◌, ◌<◌, min}
pub use Prim.Native.String.{String}
pub use mathlib.Core.Path.{◌≡◌, refl, sym, ap, ◌∙◌}
pub use mathlib.Core.Logic.{◌≢◌, ◌↔◌, ◌⊎◌, inl, inr}
pub use mathlib.Core.Bool.{Bool, true, false, ◌&&◌, ◌||◌, not}
pub use mathlib.Core.Option.{Option, none, some}
pub use mathlib.Core.List.{List, [], ◌∷◌, ◌++◌, map, Memᴰ}
pub use native.Mathlib.Omega.{arith}
pub use text.Mathlib.TextEquality.{eq_iff}
pub use text.Mathlib.TextPositions.{eq_refl}
