-- ===== src/Base/Paging.antt =====
-- Pages of a list, and the conditions of the query that fills them.
use Prim.Native.Nat.{ℕ, zero, suc, ◌≤◌}
use mathlib.Core.Path.{◌≡◌, refl, ap}
use mathlib.Core.Bool.{Bool, true}
use mathlib.Core.Option.{Option, none, some}
use mathlib.Core.List.{List, [], ◌∷◌, map, Memᴰ}
use native.Mathlib.Omega.{arith}
use kritvia_global_dashboard.Base.Lists.{All, count, keep, length}

-- A filter that is not given passes.
abbrev pub given {ℓ} : {A : Type ℓ} → Option A → (A → Bool) → Bool
given none test = true
given (some a) test = test a

abbrev pub drop {ℓ} : {A : Type ℓ} → ℕ → List A → List A
drop zero xs = xs
drop (suc n) [] = []
drop (suc n) (x ∷ xs) = drop n xs

abbrev pub take {ℓ} : {A : Type ℓ} → ℕ → List A → List A
take zero xs = []
take (suc n) [] = []
take (suc n) (x ∷ xs) = x ∷ take n xs

module _ {ℓ} {A : Type ℓ} where
  pub keep-eq : (p q : A → Bool) (xs : List A) → All (λ x. p x ≡ q x) xs → keep p xs ≡ keep q xs
  keep-eq p q [] h = refl
  keep-eq p q (x ∷ xs) (e, h) = rw (e, keep-eq p q xs h) refl

  pub length-keep : (p : A → Bool) (xs : List A) → length (keep p xs) ≡ count p xs
  length-keep p [] = refl
  length-keep p (x ∷ xs) = ground (arith, length-keep p xs)

  pub length-take-le : (n : ℕ) (xs : List A) → length (take n xs) ≤ n
  length-take-le zero xs = omega arith
  length-take-le (suc n) [] = omega arith
  length-take-le (suc n) (x ∷ xs) = omega (arith, length-take-le n xs)

  pub mem-take : (n : ℕ) (xs : List A) (x : A) → Memᴰ x (take n xs) → Memᴰ x xs
  mem-take zero xs x m = elim m [ ]
  mem-take (suc n) [] x m = elim m [ ]
  mem-take (suc n) (y ∷ ys) x (Memᴰ.head e) = Memᴰ.head e
  mem-take (suc n) (y ∷ ys) x (Memᴰ.tail m) = Memᴰ.tail (mem-take n ys x m)

  pub mem-drop : (n : ℕ) (xs : List A) (x : A) → Memᴰ x (drop n xs) → Memᴰ x xs
  mem-drop zero xs x m = m
  mem-drop (suc n) [] x m = elim m [ ]
  mem-drop (suc n) (y ∷ ys) x m = Memᴰ.tail (mem-drop n ys x m)

pub All-image {ℓ κ μ} :
    {A : Type ℓ} {B : Type κ} (P : B → Type μ) (f : A → B) (xs : List A)
    → All (λ x. P (f x)) xs
    → All P (map f xs)
All-image P f [] h = tt
All-image P f (x ∷ xs) (p, h) = (p, All-image P f xs h)

pub length-map_lem {ℓ κ} :
    {A : Type ℓ} {B : Type κ} (f : A → B) (xs : List A) → length (map f xs) ≡ length xs
length-map_lem f [] = refl
length-map_lem f (x ∷ xs) = ap suc (length-map_lem f xs)

pub given-eq {ℓ} :
    {A : Type ℓ} (o : Option A) (p q : A → Bool) → ((a : A) → p a ≡ q a) → given o p ≡ given o q
given-eq none p q h = refl
given-eq (some a) p q h = h a
