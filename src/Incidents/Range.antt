-- ===== src/Incidents/Range.antt =====
-- `parseRangeDays`: the range of the metrics, a text such as 30d, as character codes.
use kritvia_global_dashboard.Base.{
  List, Option, Outcome, ParsedInt, [], arith, drop_space, fail, if◌then◌else◌, int, leb, map, min,
  nan, none, ok, parse_int, some, ℕ, ◌&&◌, ◌+◌, ◌-◌, ◌==◌, ◌^◌, ◌||◌, ◌∷◌, ◌≡◌, ◌≤◌, bad_request,
}

abbrev lower : ℕ → ℕ
lower c = if leb b'A' c && leb c b'Z' then c + 32 else c

-- `replace("d", "")`: the first one alone.
remove_d : List ℕ → List ℕ
remove_d [] = []
remove_d (c ∷ cs) = let rest = remove_d cs in if c == b'd' then cs else c ∷ rest

-- A number of this size or more becomes Infinity.
finite_bound : ℕ
finite_bound = 2 ^ 1024 - 2 ^ 970

checked : ParsedInt → Outcome ℕ
unfolding finite_bound
checked nan = fail bad_request
checked (int minus n) =
    if minus || n == 0 || leb finite_bound n then fail bad_request else ok (min n 365)

-- White space at the end changes nothing, since parseInt stops at it.
unfoldable pub parse_range_days : Option (List ℕ) → Outcome ℕ
unfolding remove_d parse_int checked
parse_range_days none = ok 30
parse_range_days (some []) = ok 30
parse_range_days (some (c ∷ cs)) = checked (parse_int (remove_d (map lower (drop_space (c ∷ cs)))))

checked_bounds :
    (p : ParsedInt) (n_days : ℕ) → checked p ≡ ok n_days → (1 ≤ n_days) × (n_days ≤ 365)
unfolding checked
checked_bounds nan n_days h = absurd (cc)
checked_bounds (int minus n) n_days h = ground arith

-- A range that is accepted is of 1 to 365 days, and none or an empty one is of 30.
pub parse_range_days_bounds :
    (range : Option (List ℕ)) (n_days : ℕ)
    → parse_range_days range ≡ ok n_days
    → (1 ≤ n_days) × (n_days ≤ 365)
unfolding parse_range_days
parse_range_days_bounds none n_days h = ground arith
parse_range_days_bounds (some []) n_days h = ground arith
parse_range_days_bounds (some (c ∷ cs)) n_days h =
    checked_bounds (parse_int (remove_d (map lower (drop_space (c ∷ cs))))) n_days h
