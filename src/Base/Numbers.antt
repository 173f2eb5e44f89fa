-- ===== src/Base/Numbers.antt =====
-- parseInt with the base ten, on texts as character codes.
use Prim.Native.Nat.{ℕ, ◌+◌, ◌-◌, ◌*◌}
use mathlib.Core.Bool.{Bool, true, false, ◌&&◌}
use mathlib.Core.List.{List, [], ◌∷◌}
use kritvia_global_dashboard.Base.Tests.{leb, ◌==◌, if◌then◌else◌}
use kritvia_global_dashboard.Base.Text.{is_space}

abbrev pub drop_space : List ℕ → List ℕ
drop_space [] = []
drop_space (c ∷ cs) = let rest = drop_space cs in if is_space c then rest else c ∷ cs

abbrev is_digit : ℕ → Bool
is_digit c = leb b'0' c && leb c b'9'

-- The digits at the front, read on from the number before them.
digits_from : ℕ → List ℕ → ℕ
digits_from n [] = n
digits_from n (c ∷ cs) =
    let more = digits_from (n * 10 + (c - b'0')) cs in if is_digit c then more else n

-- A number as parseInt gives it: NaN, or a sign (true is minus) and a size.
pub data ParsedInt : Type 0 where
  nan : ParsedInt
  int : Bool → ℕ → ParsedInt

unsigned : Bool → List ℕ → ParsedInt
unfolding digits_from
unsigned minus [] = nan
unsigned minus (c ∷ cs) = if is_digit c then int minus (digits_from 0 (c ∷ cs)) else nan

unfoldable pub parse_int : List ℕ → ParsedInt
unfolding unsigned
parse_int text = elim (drop_space text) [
  | [] ↦ nan
  | c ∷ cs ↦
      if c == b'-'
      then unsigned true cs
      else if c == b'+'
      then unsigned false cs
      else unsigned false (c ∷ cs)
]
