-- ===== src/Base/Sort.antt =====
-- `sort.Slice`: an insertion sort by the same test. Under a total order every sort has this result.
use Prim.Native.Nat.{suc}
use mathlib.Core.Path.{◌≡◌, refl}
use mathlib.Core.Logic.{◌↔◌, inl, inr}
use mathlib.Core.Bool.{Bool, true, false, ◌||◌, ◌&&◌}
use mathlib.Core.List.{List, [], ◌∷◌, map}
use mathlib.Core.Option.{Option, none, some}
use native.Mathlib.Omega.{arith}
use godj.Base.Tests.{Eq, ◌==◌, ==_iff, if◌then◌else◌, Bool-cases}
use godj.Base.Sets.{elem, Nodup, length, all}

module _ {ℓ} {A : Type ℓ} (less : A → A → Bool) where
  place : A → List A → List A
  place a [] = a ∷ []
  place a (x ∷ xs) = let rest = place a xs in if less x a then x ∷ rest else a ∷ x ∷ xs

  unfoldable pub sort : List A → List A
  unfolding place
  sort [] = []
  sort (x ∷ xs) = place x (sort xs)

  -- No element is greater than the next.
  abbrev pub IsSorted : List A → Type 0
  IsSorted [] = Unit
  IsSorted (x ∷ []) = Unit
  IsSorted (x ∷ y ∷ xs) = (less y x ≡ false) × IsSorted (y ∷ xs)

  pub record IsStrictOrder : Type ℓ where
    pub irrefl : (a : A) → less a a ≡ false
    pub trans : (a b c : A) → less a b ≡ true → less b c ≡ true → less a c ≡ true
    pub total : (a b : A) → less a b ≡ false → less b a ≡ false → a ≡ b

-- The first element of a sorted list that equals the one before it.
unfoldable pub adjacent_duplicate {ℓ} : {A : Type ℓ} ⦃e : Eq A⦄ → List A → Option A
adjacent_duplicate [] = none
adjacent_duplicate (x ∷ []) = none
adjacent_duplicate (x ∷ y ∷ xs) =
    let rest = adjacent_duplicate (y ∷ xs) in if y == x then some y else rest

-- All elements that equal the one before them.
unfoldable pub adjacent_duplicates {ℓ} : {A : Type ℓ} ⦃e : Eq A⦄ → List A → List A
adjacent_duplicates [] = []
adjacent_duplicates (x ∷ []) = []
adjacent_duplicates (x ∷ y ∷ xs) =
    let rest = adjacent_duplicates (y ∷ xs) in if y == x then y ∷ rest else rest

module _ {ℓ} {A : Type ℓ} ⦃e : Eq A⦄ (less : A → A → Bool) where
  elem-place : (a b : A) (xs : List A) → elem a (place less b xs) ≡ (a == b || elem a xs)
  unfolding place elem
  elem-place a b [] = refl
  elem-place a b (x ∷ xs) = ground (arith, elem-place a b xs)

  pub elem-sort : (a : A) (xs : List A) → elem a (sort less xs) ≡ elem a xs
  unfolding sort elem
  elem-sort a [] = refl
  elem-sort a (x ∷ xs) = ground (arith, elem-place a x (sort less xs), elem-sort a xs)

  Nodup-place : (b : A) (xs : List A) → elem b xs ≡ false → Nodup xs → Nodup (place less b xs)
  unfolding place elem
  Nodup-place b [] h n = ground arith
  Nodup-place b (x ∷ xs) h n = ground (arith, Nodup-place b xs, elem-place x b xs)

  pub Nodup-sort : (xs : List A) → Nodup xs → Nodup (sort less xs)
  unfolding sort
  Nodup-sort [] n = tt
  Nodup-sort (x ∷ xs) n =
      ground (arith, Nodup-place x (sort less xs), Nodup-sort xs, elem-sort x xs)

  Nodup-of_place : (b : A) (xs : List A) → Nodup (place less b xs) → (elem b xs ≡ false) × Nodup xs
  unfolding place elem
  Nodup-of_place b [] n = ground arith
  Nodup-of_place b (x ∷ xs) n = ground (arith, Nodup-of_place b xs, elem-place x b xs)

  pub Nodup-of_sort : (xs : List A) → Nodup (sort less xs) → Nodup xs
  unfolding sort
  Nodup-of_sort [] n = tt
  Nodup-of_sort (x ∷ xs) n =
      ground (arith, Nodup-of_place x (sort less xs), Nodup-of_sort xs, elem-sort x xs)

  pub adjacent_duplicate-of_Nodup : (xs : List A) → Nodup xs → adjacent_duplicate xs ≡ none
  unfolding adjacent_duplicate elem
  adjacent_duplicate-of_Nodup [] n = refl
  adjacent_duplicate-of_Nodup (x ∷ []) n = refl
  adjacent_duplicate-of_Nodup (x ∷ y ∷ xs) n = ground (arith, adjacent_duplicate-of_Nodup (y ∷ xs))

  module _ (order : IsStrictOrder less) where
    open order use {irrefl, trans, total}

    place-IsSorted : (a : A) (xs : List A) → IsSorted less xs → IsSorted less (place less a xs)
    unfolding place
    place-IsSorted a [] h = tt
    place-IsSorted a (x ∷ []) h = elim (Bool-cases (less x a)) [
      | inl lt ↦ ground (arith, trans x a x, irrefl x)
      | inr ge ↦ ground arith
    ]
    place-IsSorted a (x ∷ y ∷ xs) h =
        ground (arith, trans x a x, irrefl x, place-IsSorted a (y ∷ xs))

    pub sort-IsSorted : (xs : List A) → IsSorted less (sort less xs)
    unfolding sort
    sort-IsSorted [] = tt
    sort-IsSorted (x ∷ xs) = place-IsSorted x (sort less xs) (sort-IsSorted xs)

    -- In a sorted list without equal neighbours, what is less than the head is not in the list.
    elem-of_less :
        (a x : A) (xs : List A)
        → IsSorted less (x ∷ xs)
        → adjacent_duplicate (x ∷ xs) ≡ none
        → less a x ≡ true
        → elem a (x ∷ xs) ≡ false
    unfolding adjacent_duplicate elem
    elem-of_less a x [] s d h = ground (arith, irrefl x, ==_iff a x)
    elem-of_less a x (y ∷ xs) s d h =
        ground (arith, irrefl x, elem-of_less a y xs, trans a x y, total x y)

    pub Nodup-of_IsSorted :
        (xs : List A) → IsSorted less xs → adjacent_duplicate xs ≡ none → Nodup xs
    unfolding adjacent_duplicate
    Nodup-of_IsSorted [] s d = tt
    Nodup-of_IsSorted (x ∷ []) s d = unfold elem in (refl, tt)
    Nodup-of_IsSorted (x ∷ y ∷ xs) s d =
        ground (arith, total x y, elem-of_less x y xs, Nodup-of_IsSorted (y ∷ xs))

    -- The test for equal neighbours after sorting finds exactly the lists with a repetition.
    pub adjacent_duplicate-sort :
        (xs : List A) → (adjacent_duplicate (sort less xs) ≡ none) ↔ Nodup xs
    adjacent_duplicate-sort xs = (
      λ d. Nodup-of_sort xs (Nodup-of_IsSorted (sort less xs) (sort-IsSorted xs) d),
      λ n. adjacent_duplicate-of_Nodup (sort less xs) (Nodup-sort xs n),
    )

-- Sorting by a key sorts the keys.
module _ {ℓ κ} {A : Type ℓ} {B : Type κ} (f : A → B) (less : B → B → Bool) where
  map-place :
      (a : A) (xs : List A)
      → map f (place (λ x y. less (f x) (f y)) a xs) ≡ place less (f a) (map f xs)
  unfolding place
  map-place a [] = refl
  map-place a (x ∷ xs) = ground (arith, map-place a xs)

  pub map-sort : (xs : List A) → map f (sort (λ x y. less (f x) (f y)) xs) ≡ sort less (map f xs)
  unfolding sort
  map-sort [] = refl
  map-sort (x ∷ xs) = rw (map-place x (sort (λ y z. less (f y) (f z)) xs), map-sort xs)

place-ne-nil {ℓ} :
    {A : Type ℓ} (less : A → A → Bool) (a : A) (ys : List A) → ¬ (place less a ys ≡ [])
unfolding place
place-ne-nil less a [] e = cc
place-ne-nil less a (y ∷ ys) e = ground arith

-- A list that is empty once it is sorted is empty.
pub nil-of_sort {ℓ} : {A : Type ℓ} (less : A → A → Bool) (xs : List A) → sort less xs ≡ [] → xs ≡ []
unfolding sort
nil-of_sort less [] h = refl
nil-of_sort less (x ∷ xs) h = absurd (place-ne-nil less x (sort less xs) h)

module _ {ℓ} {A : Type ℓ} (less : A → A → Bool) where
  length-place : (a : A) (xs : List A) → length (place less a xs) ≡ suc (length xs)
  unfolding place
  length-place a [] = refl
  length-place a (x ∷ xs) = ground (arith, length-place a xs)

  pub length-sort : (xs : List A) → length (sort less xs) ≡ length xs
  unfolding sort
  length-sort [] = refl
  length-sort (x ∷ xs) = omega (arith, length-place x (sort less xs), length-sort xs)

module _ {ℓ} {A : Type ℓ} (less : A → A → Bool) (p : A → Bool) where
  all-place : (a : A) (xs : List A) → all p (place less a xs) ≡ (p a && all p xs)
  unfolding place all
  all-place a [] = refl
  all-place a (x ∷ xs) = ground (arith, all-place a xs)

  pub all-sort : (xs : List A) → all p (sort less xs) ≡ all p xs
  unfolding sort all
  all-sort [] = refl
  all-sort (x ∷ xs) = ground (arith, all-place x (sort less xs), all-sort xs)
