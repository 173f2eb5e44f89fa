-- ===== src/Base/Lists.antt =====
-- Lists over native numbers, and the queries of the database client: a table is a list of rows.
use Prim.Native.Nat.{ℕ, zero, suc, ◌+◌, ◌≤◌, ◌<◌}
use mathlib.Core.Path.{◌≡◌, refl, sym, ap}
use mathlib.Core.Logic.{inl, inr}
use mathlib.Core.Bool.{Bool, true, false, false≢true, ◌||◌}
use mathlib.Core.Option.{Option, none, some}
use mathlib.Core.List.{List, [], ◌∷◌, ◌++◌, Memᴰ}
use native.Mathlib.Omega.{arith}
use kritvia_global_dashboard.Base.Tests.{leb, if◌then◌else◌, Bool-cases, is_some}

module _ {ℓ} {A : Type ℓ} where
  abbrev pub length : List A → ℕ
  length [] = 0
  length (x ∷ xs) = suc (length xs)

  abbrev pub get_elem? : List A → ℕ → Option A
  get_elem? [] i = none
  get_elem? (x ∷ xs) zero = some x
  get_elem? (x ∷ xs) (suc i) = get_elem? xs i

  -- `findFirst` and `find`: the first row that passes.
  abbrev pub find : (A → Bool) → List A → Option A
  find p [] = none
  find p (x ∷ xs) = if p x then some x else find p xs

  -- `findMany` and `filter`
  abbrev pub keep : (A → Bool) → List A → List A
  keep p [] = []
  keep p (x ∷ xs) = let rest = keep p xs in if p x then x ∷ rest else rest

  abbrev pub count : (A → Bool) → List A → ℕ
  count p [] = 0
  count p (x ∷ xs) = let rest = count p xs in if p x then suc rest else rest

  abbrev pub any : (A → Bool) → List A → Bool
  any p [] = false
  any p (x ∷ xs) = p x || any p xs

  -- `update`: every row that passes is changed; the tests used are on a unique column.
  abbrev pub update : (A → Bool) → (A → A) → List A → List A
  update p f [] = []
  update p f (x ∷ xs) = (if p x then f x else x) ∷ update p f xs

  abbrev pub All {κ} : (A → Type κ) → List A → Type κ
  All P [] = Unit
  All P (x ∷ xs) = P x × All P xs

module _ {ℓ} {A : Type ℓ} where
  pub length-append : (xs ys : List A) → length (xs ++ ys) ≡ length xs + length ys
  length-append [] ys = omega arith
  length-append (x ∷ xs) ys = omega (arith, length-append xs ys)

  pub length-update : (p : A → Bool) (f : A → A) (xs : List A) → length (update p f xs) ≡ length xs
  length-update p f [] = refl
  length-update p f (x ∷ xs) = ap suc (length-update p f xs)

  pub length-keep-le : (p : A → Bool) (xs : List A) → length (keep p xs) ≤ length xs
  length-keep-le p [] = omega arith
  length-keep-le p (x ∷ xs) = elim (Bool-cases (p x)) [
    | inl e ↦ rw e (omega (arith, length-keep-le p xs))
    | inr e ↦ rw e (omega (arith, length-keep-le p xs))
  ]

  -- What `find` gives stands in the list and passes.
  pub find-mem :
      (p : A → Bool) (xs : List A) (x : A) → find p xs ≡ some x → Memᴰ x xs × (p x ≡ true)
  find-mem p [] x h = ground arith
  find-mem p (y ∷ ys) x h = elim (Bool-cases (p y)) [
    | inl e ↦ let same : y ≡ x = ground arith in (Memᴰ.head (sym same), rw same at e)
    | inr e ↦ let (m, t) = find-mem p ys x (rw e at h) in (Memᴰ.tail m, t)
  ]

  pub find-append :
      (p : A → Bool) (xs ys : List A) (x : A) → find p xs ≡ some x → find p (xs ++ ys) ≡ some x
  find-append p [] ys x h = ground arith
  find-append p (z ∷ zs) ys x h = ground (arith, find-append p zs ys x)

  pub count-append : (p : A → Bool) (xs ys : List A) → count p (xs ++ ys) ≡ count p xs + count p ys
  count-append p [] ys = omega arith
  count-append p (x ∷ xs) ys = ground (arith, count-append p xs ys)

module _ {ℓ} {A : Type ℓ} where
  pub any-mem : (p : A → Bool) (xs : List A) → any p xs ≡ true → (x : A) × Memᴰ x xs × (p x ≡ true)
  any-mem p [] h = absurd (false≢true h)
  any-mem p (x ∷ xs) h = elim (Bool-cases (p x)) [
    | inl e ↦ (x, Memᴰ.head refl, e)
    | inr e ↦ let (y, m, t) = any-mem p xs (rw e at h) in (y, Memᴰ.tail m, t)
  ]

  pub mem-any : (p : A → Bool) {x : A} {xs : List A} → Memᴰ x xs → p x ≡ true → any p xs ≡ true
  mem-any p {x} (Memᴰ.head e) h = rw (← e, h)
  mem-any p (Memᴰ.tail {x = y} m) h = elim (Bool-cases (p y)) [
    | inl e ↦ rw e
    | inr e ↦ rw e (mem-any p m h)
  ]

  -- Rows that are left out do not matter to a search that they do not pass.
  pub find-keep :
      (p q : A → Bool) (xs : List A)
      → ((x : A) → p x ≡ true → q x ≡ true)
      → is_some (find p (keep q xs)) ≡ is_some (find p xs)
  find-keep p q [] h = refl
  find-keep p q (x ∷ xs) h = ground (arith, h x, find-keep p q xs h)

  pub length-keep-lt :
      (p q : A → Bool) (xs : List A)
      → ((x : A) → p x ≡ true → q x ≡ false)
      → is_some (find p xs) ≡ true
      → length (keep q xs) < length xs
  length-keep-lt p q [] h found = absurd (false≢true found)
  length-keep-lt p q (x ∷ xs) h found =
      ground (arith, h x, length-keep-le q xs, length-keep-lt p q xs h)

  pub mem-All {κ} : (P : A → Type κ) {x : A} {xs : List A} → Memᴰ x xs → All P xs → P x
  mem-All P (Memᴰ.head e) (p, ps) = rw e p
  mem-All P (Memᴰ.tail m) (p, ps) = mem-All P m ps

  pub All-map {κ μ} :
      (P : A → Type κ) (Q : A → Type μ) (xs : List A) → ((x : A) → P x → Q x) → All P xs → All Q xs
  All-map P Q [] h a = tt
  All-map P Q (x ∷ xs) h (a, as_) = (h x a, All-map P Q xs h as_)

  pub find_none-All :
      (p : A → Bool) (xs : List A) → is_some (find p xs) ≡ false → All (λ x. p x ≡ false) xs
  find_none-All p [] h = tt
  find_none-All p (x ∷ xs) h = elim (Bool-cases (p x)) [
    | inl e ↦ absurd (ground arith)
    | inr e ↦ (e, find_none-All p xs (rw e at h))
  ]

module _ {ℓ κ} {A : Type ℓ} (R : A → A → Type κ) where
  -- Any two rows, in their order, are related.
  abbrev pub Pairs : List A → Type κ
  Pairs [] = Unit
  Pairs (x ∷ xs) = All (R x) xs × Pairs xs

  pub Pairs-concat : (xs : List A) (y : A) → Pairs xs → All (λ x. R x y) xs → Pairs (xs ++ y ∷ [])
  Pairs-concat [] y h k = (tt, tt)
  Pairs-concat (x ∷ xs) y (a, h) (r, k) = (all_concat xs y a r, Pairs-concat xs y h k)
    where
      all_concat : (ys : List A) (z : A) → All (R x) ys → R x z → All (R x) (ys ++ z ∷ [])
      all_concat [] z b c = (c, tt)
      all_concat (w ∷ ys) z (b, bs) c = (b, all_concat ys z bs c)

module _ {ℓ κ} {A : Type ℓ} (R : A → A → Type κ) (p : A → Bool) where
  All-keep : (x : A) (xs : List A) → All (R x) xs → All (R x) (keep p xs)
  All-keep x [] h = tt
  All-keep x (y ∷ ys) (r, h) = elim (Bool-cases (p y)) [
    | inl e ↦ rw e (r, All-keep x ys h)
    | inr e ↦ rw e (All-keep x ys h)
  ]

  pub Pairs-keep : (xs : List A) → Pairs R xs → Pairs R (keep p xs)
  Pairs-keep [] h = tt
  Pairs-keep (x ∷ xs) (r, h) = elim (Bool-cases (p x)) [
    | inl e ↦ rw e (All-keep x xs r, Pairs-keep xs h)
    | inr e ↦ rw e (Pairs-keep xs h)
  ]

-- A row after an update of the rows that pass.
abbrev pub changed {ℓ} : {A : Type ℓ} → (A → Bool) → (A → A) → A → A
changed p f x = if p x then f x else x

module _ {ℓ κ μ} {A : Type ℓ} (Q : A → Type κ) (p : A → Bool) (f : A → A) where
  pub All-update :
      (P : A → Type μ) (xs : List A)
      → ((y : A) → Q y → P (changed p f y))
      → All Q xs
      → All P (update p f xs)
  All-update P [] h q = tt
  All-update P (x ∷ xs) h (q, qs) = (h x q, All-update P xs h qs)

  All-changed :
      (R S : A → A → Type μ) (x : A) (xs : List A)
      → ((y z : A) → Q y → Q z → R y z → S (changed p f y) (changed p f z))
      → Q x
      → All Q xs
      → All (R x) xs
      → All (S (changed p f x)) (update p f xs)
  All-changed R S x [] h q qs r = tt
  All-changed R S x (y ∷ ys) h q (qy, qs) (r, rs) = (h x y q qy r, All-changed R S x ys h q qs rs)

  -- A relation between any two rows after an update, where it follows for each two rows alone.
  pub Pairs-update :
      (R S : A → A → Type μ) (xs : List A)
      → ((y z : A) → Q y → Q z → R y z → S (changed p f y) (changed p f z))
      → All Q xs
      → Pairs R xs
      → Pairs S (update p f xs)
  Pairs-update R S [] h q r = tt
  Pairs-update R S (x ∷ xs) h (q, qs) (r, rs) =
      (All-changed R S x xs h q qs r, Pairs-update R S xs h qs rs)

module _ {ℓ} {A : Type ℓ} where
  pub mem-find :
      (p : A → Bool) {x : A} {xs : List A} → Memᴰ x xs → p x ≡ true → (y : A) × (find p xs ≡ some y)
  mem-find p {x} (Memᴰ.head e) h = (x, rw (← e, h))
  mem-find p (Memᴰ.tail {x = y} m) h = elim (Bool-cases (p y)) [
    | inl e ↦ (y, rw e)
    | inr e ↦ let (z, found) = mem-find p m h in (z, rw e found)
  ]

  pub mem-update :
      (p : A → Bool) (f : A → A) {x : A} {xs : List A}
      → Memᴰ x xs
      → Memᴰ (changed p f x) (update p f xs)
  mem-update p f (Memᴰ.head e) = Memᴰ.head (ap (changed p f) e)
  mem-update p f (Memᴰ.tail m) = Memᴰ.tail (mem-update p f m)

  pub All-mem {κ} : {P : A → Type κ} (xs : List A) → ((x : A) → Memᴰ x xs → P x) → All P xs
  All-mem [] h = tt
  All-mem (x ∷ xs) h = (h x (Memᴰ.head refl), All-mem xs (λ y m. h y (Memᴰ.tail m)))

  pub All-concat {κ} : (P : A → Type κ) (xs ys : List A) → All P xs → All P ys → All P (xs ++ ys)
  All-concat P [] ys h k = k
  All-concat P (x ∷ xs) ys (a, h) k = (a, All-concat P xs ys h k)

  pub any-append : (p : A → Bool) (xs ys : List A) → any p (xs ++ ys) ≡ (any p xs || any p ys)
  any-append p [] ys = refl
  any-append p (x ∷ xs) ys = ground (arith, any-append p xs ys)

  pub mem-length : (xs : List A) (x : A) → Memᴰ x xs → leb (length xs) 0 ≡ false
  mem-length [] y m = elim m [ ]
  mem-length (x ∷ xs) y m = ground arith

  pub Unit-All : (xs : List A) → All (λ x. Unit {0}) xs
  Unit-All [] = tt
  Unit-All (x ∷ xs) = (tt, Unit-All xs)

-- What is found is found again after an update that the test does not see.
pub find-update {ℓ} :
    {A : Type ℓ} (p q : A → Bool) (f : A → A) (xs : List A) (x : A)
    → ((y : A) → p (f y) ≡ p y)
    → find p xs ≡ some x
    → find p (update q f xs) ≡ some (changed q f x)
find-update p q f [] x h e = absurd (cc)
find-update p q f (y ∷ ys) x h e = ground (arith, h y, find-update p q f ys x h)

pub any-false-All {ℓ} :
    {A : Type ℓ} (f : A → Bool) (xs : List A) → any f xs ≡ false → All (λ x. f x ≡ false) xs
any-false-All f [] h = tt
any-false-All f (x ∷ xs) h = elim (Bool-cases (f x)) [
  | inl e ↦ absurd (let g : any f (x ∷ xs) ≡ true = rw e refl in cc)
  | inr e ↦ (e, any-false-All f xs (rw e at h))
]
