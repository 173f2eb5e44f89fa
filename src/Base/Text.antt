-- ===== src/Base/Text.antt =====
-- Texts as the source walks them: prefixes and trimming, by characters.
use Prim.Native.Nat.{ℕ}
use Prim.Native.Char.{code}
use Prim.Native.String.{String, [], ◌∷◌}
use mathlib.Core.Bool.{Bool, true, false, ◌&&◌, ◌||◌}
use mathlib.Core.Option.{Option, none, some}
use mathlib.Core.List.{List}
use kritvia_global_dashboard.Base.Tests.{leb, ◌==◌, if◌then◌else◌, is_some}

-- The white space that `trim` removes, below U+2000.
abbrev pub is_space : ℕ → Bool
is_space c = leb 9 c && leb c 13 || c == 32 || c == 160 || c == 0x1680

-- What follows the prefix, if the text begins with it: `startsWith` with `slice`.
unfoldable pub strip_prefix : String → String → Option String
strip_prefix [] s = some s
strip_prefix (c ∷ p) [] = none
strip_prefix (c ∷ p) (d ∷ s) = if code c == code d then strip_prefix p s else none

unfoldable pub starts_with : String → String → Bool
unfolding strip_prefix
starts_with p s = is_some (strip_prefix p s)

abbrev pub codes : String → List ℕ
codes [] = List.[]
codes (c ∷ s) = List.◌∷◌ (code c) (codes s)

abbrev pub is_empty : String → Bool
is_empty [] = true
is_empty (c ∷ s) = false

trim_start : String → String
trim_start [] = []
trim_start (c ∷ s) = let rest = trim_start s in if is_space (code c) then rest else c ∷ s

trim_end : String → String
trim_end [] = []
trim_end (c ∷ s) =
    let rest = trim_end s in if is_space (code c) && is_empty rest then [] else c ∷ rest

unfoldable pub trim : String → String
unfolding trim_start trim_end
trim s = trim_end (trim_start s)
