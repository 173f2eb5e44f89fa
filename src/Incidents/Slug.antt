-- ===== src/Incidents/Slug.antt =====
-- The public address of an incident: `generateUniquePublicSlug`. Slugs are lists of character
-- codes. Lower-casing is that of ASCII: any other character becomes part of a dash.
pub mod Free
use Prim.Native.Char.{code}
use Prim.Native.String as Str
use kritvia_global_dashboard.Base.{
  Bool, List, Option, String, [], codes, false, find, if◌then◌else◌, is_some, leb, length, ltb, map,
  none, not, some, suc, take, true, zero, ℕ, ◌%◌, ◌&&◌, ◌++◌, ◌+◌, ◌/◌, ◌===◌, ◌==◌, ◌||◌, ◌∷◌,
}
use kritvia_global_dashboard.Incidents.{Incident}

to_lower : ℕ → ℕ
to_lower c = if leb b'A' c && leb c b'Z' then c + 32 else c

is_slug_code : ℕ → Bool
is_slug_code c = leb b'a' c && leb c b'z' || leb b'0' c && leb c b'9'

-- `replace(/[^a-z0-9]+/g, "-")`; the flag says that the run before is already a dash.
dash_runs : Bool → List ℕ → List ℕ
unfolding is_slug_code
dash_runs dashed [] = []
dash_runs dashed (c ∷ cs) =
    let rest = dash_runs (not (is_slug_code c)) cs in
    if is_slug_code c then c ∷ rest else if dashed then rest else b'-' ∷ rest

strip_left : List ℕ → List ℕ
strip_left [] = []
strip_left (c ∷ cs) = let rest = strip_left cs in if c == b'-' then rest else c ∷ cs

strip_right : List ℕ → List ℕ
strip_right [] = []
strip_right (c ∷ cs) =
    let rest = strip_right cs in if c == b'-' && leb (length rest) 0 then [] else c ∷ rest

abbrev or_incident : List ℕ → List ℕ
or_incident [] = codes "incident"
or_incident (c ∷ cs) = c ∷ cs

unfoldable pub slug_base : String → List ℕ
unfolding to_lower dash_runs strip_left strip_right
slug_base title =
    or_incident (take 60 (strip_right (strip_left (dash_runs false (map to_lower (codes title))))))

-- The decimal digits of a counter, before those that follow.
decimal_from : ℕ → ℕ → List ℕ → List ℕ
decimal_from zero n acc = acc
decimal_from (suc fuel) n acc =
    let more = decimal_from fuel (n / 10) ((b'0' + n % 10) ∷ acc) in
    if ltb n 10 then (b'0' + n) ∷ acc else more

unfoldable pub decimal : ℕ → List ℕ
unfolding decimal_from
decimal n = decimal_from (suc n) n []

abbrev pub same_codes : List ℕ → List ℕ → Bool
same_codes [] [] = true
same_codes (a ∷ as_) (b ∷ bs) = a == b && same_codes as_ bs
same_codes _ _ = false

abbrev pub has_slug : List ℕ → Incident → Bool
has_slug slug i = elim i.public_slug [ none ↦ false | some t ↦ same_codes t slug ]

-- Another incident has the slug.
abbrev pub taken : String → List Incident → List ℕ → Bool
taken incident_id rows slug =
    is_some (find (λ i. has_slug slug i && not (i.id === incident_id)) rows)

-- The `while (true)` loop.
find_free : ℕ → (List ℕ → Bool) → List ℕ → List ℕ → ℕ → Option (List ℕ)
find_free zero clash stem candidate counter = none
find_free (suc fuel) clash stem candidate counter =
    let rest = find_free fuel clash stem (stem ++ b'-' ∷ decimal (counter + 1)) (counter + 1) in
    if clash candidate then rest else some candidate

unfoldable pub slug_stem : String → String → List ℕ
unfolding slug_base
slug_stem title incident_id = slug_base title ++ b'-' ∷ take 8 (codes incident_id)

-- As many rounds as there are incidents, and one more.
unfoldable pub generate_unique_public_slug : List Incident → String → String → Option (List ℕ)
unfolding find_free slug_stem decimal
generate_unique_public_slug rows title incident_id =
    find_free (suc (length rows)) (taken incident_id rows) (slug_stem title incident_id)
      (slug_stem title incident_id) 1
