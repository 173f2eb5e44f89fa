-- ===== src/Base/Members.antt =====
-- Members of lists that queries and maps give.
use mathlib.Core.Path.{◌≡◌, refl, ap}
use mathlib.Core.Logic.{◌⊎◌, inl, inr}
use mathlib.Core.Bool.{Bool, true}
use mathlib.Core.List.{List, [], ◌∷◌, ◌++◌, map, Memᴰ}
use kritvia_global_dashboard.Base.Tests.{Bool-cases}
use kritvia_global_dashboard.Base.Lists.{keep}

module _ {ℓ} {A : Type ℓ} where
  pub mem-keep :
      (p : A → Bool) (xs : List A) (x : A) → Memᴰ x (keep p xs) → Memᴰ x xs × (p x ≡ true)
  mem-keep p [] x m = elim m [ ]
  mem-keep p (y ∷ ys) x m = elim (Bool-cases (p y)) [
    | inl e ↦ first e (mem-keep p ys x) (rw e at m)
    | inr e ↦ let (n, t) = mem-keep p ys x (rw e at m) in (Memᴰ.tail n, t)
  ]
    where
      first :
          p y ≡ true
          → (Memᴰ x (keep p ys) → Memᴰ x ys × (p x ≡ true))
          → Memᴰ x (y ∷ keep p ys)
          → Memᴰ x (y ∷ ys) × (p x ≡ true)
      first e later (Memᴰ.head same_x) = (Memᴰ.head same_x, rw same_x e)
      first e later (Memᴰ.tail n) = let (k, t) = later n in (Memᴰ.tail k, t)

  pub keep-mem : (p : A → Bool) {x : A} {xs : List A} → Memᴰ x xs → p x ≡ true → Memᴰ x (keep p xs)
  keep-mem p {x} (Memᴰ.head {xs = ys} e) h = rw (← e, h) (Memᴰ.head refl)
  keep-mem p (Memᴰ.tail {x = y} m) h = elim (Bool-cases (p y)) [
    | inl e ↦ rw e (Memᴰ.tail (keep-mem p m h))
    | inr e ↦ rw e (keep-mem p m h)
  ]

  pub mem_concat : (xs ys : List A) (x : A) → Memᴰ x (xs ++ ys) → Memᴰ x xs ⊎ Memᴰ x ys
  mem_concat [] ys x m = inr m
  mem_concat (y ∷ xs) ys x (Memᴰ.head e) = inl (Memᴰ.head e)
  mem_concat (y ∷ xs) ys x (Memᴰ.tail m) = elim (mem_concat xs ys x m) [
    | inl n ↦ inl (Memᴰ.tail n)
    | inr n ↦ inr n
  ]

  pub concat_mem : (ys : List A) {x : A} {xs : List A} → Memᴰ x xs → Memᴰ x (xs ++ ys)
  concat_mem ys (Memᴰ.head e) = Memᴰ.head e
  concat_mem ys (Memᴰ.tail m) = Memᴰ.tail (concat_mem ys m)

module _ {ℓ κ} {A : Type ℓ} {B : Type κ} (f : A → B) where
  pub mem-map : (xs : List A) (y : B) → Memᴰ y (map f xs) → (x : A) × Memᴰ x xs × (y ≡ f x)
  mem-map [] y m = elim m [ ]
  mem-map (x ∷ xs) y (Memᴰ.head e) = (x, Memᴰ.head refl, e)
  mem-map (x ∷ xs) y (Memᴰ.tail m) = let (z, n, e) = mem-map xs y m in (z, Memᴰ.tail n, e)

  pub map-mem : {x : A} {xs : List A} → Memᴰ x xs → Memᴰ (f x) (map f xs)
  map-mem (Memᴰ.head e) = Memᴰ.head (ap f e)
  map-mem (Memᴰ.tail m) = Memᴰ.tail (map-mem m)
