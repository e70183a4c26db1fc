-- ===== src/Base/Sets.antt =====
-- Lists by their members. A `map[K]struct{}` of the program is the list of its keys, which no
-- operation lets occur twice.
use Prim.Native.Nat.{ℕ, suc, ◌+◌, ◌≤◌, ◌<◌}
use mathlib.Core.Path.{◌≡◌, refl}
use mathlib.Core.Bool.{Bool, true, false, ◌||◌, ◌&&◌, not}
use mathlib.Core.List.{List, [], ◌∷◌, ◌++◌}
use mathlib.Core.Logic.{◌⊎◌, inl, inr}
use mathlib.Core.Option.{Option, none, some}
use native.Mathlib.Omega.{arith}
use godj.Base.Tests.{Eq, ◌==◌, ==_iff, ==_refl, Bool-cases, if◌then◌else◌}

module _ {ℓ} {A : Type ℓ} where
  abbrev pub length : List A → ℕ
  length [] = 0
  length (x ∷ xs) = suc (length xs)

  abbrev pub All {κ} : (A → Type κ) → List A → Type κ
  All P [] = Unit
  All P (x ∷ xs) = P x × All P xs

  unfoldable pub is_nil : List A → Bool
  is_nil [] = true
  is_nil (x ∷ xs) = false

  -- `append(stack, xs...)` for a stack whose top stands first: the last of `xs` is on top.
  unfoldable pub push : List A → List A → List A
  push [] stack = stack
  push (x ∷ xs) stack = push xs (x ∷ stack)

  -- The elements that pass a test, in order.
  unfoldable pub keep : (A → Bool) → List A → List A
  keep p [] = []
  keep p (x ∷ xs) = let rest = keep p xs in if p x then x ∷ rest else rest

  -- The first element that passes a test.
  unfoldable pub find : (A → Bool) → List A → Option A
  find p [] = none
  find p (x ∷ xs) = let rest = find p xs in if p x then some x else rest

  unfoldable pub any : (A → Bool) → List A → Bool
  any p [] = false
  any p (x ∷ xs) = p x || any p xs

  unfoldable pub all : (A → Bool) → List A → Bool
  all p [] = true
  all p (x ∷ xs) = p x && all p xs

  pub length-append : (xs ys : List A) → length (xs ++ ys) ≡ length xs + length ys
  length-append [] ys = omega arith
  length-append (x ∷ xs) ys = omega (arith, length-append xs ys)

module _ {ℓ} {A : Type ℓ} ⦃e : Eq A⦄ where
  unfoldable pub elem : A → List A → Bool
  elem a [] = false
  elem a (x ∷ xs) = a == x || elem a xs

  infix 50 ◌∈◌
  abbrev pub ◌∈◌ : A → List A → Type 0
  a ∈ xs = elem a xs ≡ true

  unfoldable pub insert : A → List A → List A
  unfolding elem
  insert a xs = if elem a xs then xs else a ∷ xs

  unfoldable pub delete : A → List A → List A
  delete a [] = []
  delete a (x ∷ xs) = let rest = delete a xs in if a == x then rest else x ∷ rest

  abbrev pub Nodup : List A → Type 0
  Nodup [] = Unit
  Nodup (x ∷ xs) = (elem x xs ≡ false) × Nodup xs

  abbrev pub Subset : List A → List A → Type ℓ
  Subset xs ys = (a : A) → a ∈ xs → a ∈ ys

module _ {ℓ} {A : Type ℓ} ⦃e : Eq A⦄ where
  pub elem-append : (a : A) (xs ys : List A) → elem a (xs ++ ys) ≡ (elem a xs || elem a ys)
  unfolding elem
  elem-append a [] ys = refl
  elem-append a (x ∷ xs) ys = ground (arith, elem-append a xs ys)

  pub elem-head : (a : A) (xs : List A) → a ∈ a ∷ xs
  unfolding elem
  elem-head a xs = ground arith

  pub elem-insert : (a b : A) (xs : List A) → elem a (insert b xs) ≡ (a == b || elem a xs)
  unfolding insert elem
  elem-insert a b xs = ground arith

  pub elem-delete : (a b : A) (xs : List A) → elem a (delete b xs) ≡ (not (a == b) && elem a xs)
  unfolding delete elem
  elem-delete a b [] = ground arith
  elem-delete a b (x ∷ xs) = ground (arith, elem-delete a b xs)

  pub elem-keep : (p : A → Bool) (a : A) (xs : List A) → elem a (keep p xs) ≡ (p a && elem a xs)
  unfolding keep elem
  elem-keep p a [] = ground arith
  elem-keep p a (x ∷ xs) = ground (arith, elem-keep p a xs)

  pub Nodup-insert : (a : A) (xs : List A) → Nodup xs → Nodup (insert a xs)
  unfolding insert
  Nodup-insert a xs h = ground arith

  pub Nodup-delete : (a : A) (xs : List A) → Nodup xs → Nodup (delete a xs)
  unfolding delete
  Nodup-delete a [] h = tt
  Nodup-delete a (x ∷ xs) h = ground (arith, Nodup-delete a xs, elem-delete x a xs)

  pub Nodup-keep : (p : A → Bool) (xs : List A) → Nodup xs → Nodup (keep p xs)
  unfolding keep
  Nodup-keep p [] h = tt
  Nodup-keep p (x ∷ xs) h = ground (arith, Nodup-keep p xs, elem-keep p x xs)

  pub length-delete-le : (a : A) (xs : List A) → length (delete a xs) ≤ length xs
  unfolding delete
  length-delete-le a [] = omega arith
  length-delete-le a (x ∷ xs) = ground (arith, length-delete-le a xs)

  pub length-delete-lt : (a : A) (xs : List A) → a ∈ xs → length (delete a xs) < length xs
  unfolding delete elem
  length-delete-lt a [] h = ground arith
  length-delete-lt a (x ∷ xs) h = ground (arith, length-delete-lt a xs, length-delete-le a xs)

  -- A list without repetitions is no longer than one that holds its members.
  pub length-le-of_Subset : (xs ys : List A) → Nodup xs → Subset xs ys → length xs ≤ length ys
  unfolding elem
  length-le-of_Subset [] ys h s = omega arith
  length-le-of_Subset (x ∷ xs) ys h s =
      let rest =
        length-le-of_Subset xs (delete x ys) h.1
          (λ a m. ground (arith, elem-delete a x ys, s a, ==_iff a x)) in
      omega (arith, length-delete-lt x ys (s x (elem-head x xs)))

  pub elem-any : (p : A → Bool) (a : A) (xs : List A) → a ∈ xs → p a ≡ true → any p xs ≡ true
  unfolding elem any
  elem-any p a [] h q = ground arith
  elem-any p a (x ∷ xs) h q = ground (arith, elem-any p a xs)

  pub all-elem : (p : A → Bool) (a : A) (xs : List A) → all p xs ≡ true → a ∈ xs → p a ≡ true
  unfolding elem all
  all-elem p a [] h q = ground arith
  all-elem p a (x ∷ xs) h q = ground (arith, all-elem p a xs)

module _ {ℓ} {A : Type ℓ} ⦃e : Eq A⦄ where
  pub find-eq-some :
      (p : A → Bool) (xs : List A) {a : A} → find p xs ≡ some a → (p a ≡ true) × (a ∈ xs)
  unfolding find elem
  find-eq-some p [] h = cc
  find-eq-some p (x ∷ xs) {a} h = ground (arith, find-eq-some p xs {a = a}, ==_refl a)

  pub find-eq-none : (p : A → Bool) (a : A) (xs : List A) → find p xs ≡ none → a ∈ xs → p a ≡ false
  unfolding find elem
  find-eq-none p a [] h m = cc
  find-eq-none p a (x ∷ xs) h m = ground (arith, find-eq-none p a xs)

  pub all-intro : (p : A → Bool) (xs : List A) → ((a : A) → a ∈ xs → p a ≡ true) → all p xs ≡ true
  unfolding all elem
  all-intro p [] h = refl
  all-intro p (x ∷ xs) h =
      ground (arith, h x, ==_refl x, all-intro p xs (λ a m. h a (ground arith)))

  pub any-false : (p : A → Bool) (a : A) (xs : List A) → any p xs ≡ false → a ∈ xs → p a ≡ false
  unfolding any elem
  any-false p a [] h m = cc
  any-false p a (x ∷ xs) h m = ground (arith, any-false p a xs)

  -- Where no member passes, `any` is false.
  pub any-intro_false :
      (p : A → Bool) (xs : List A) → ((a : A) → a ∈ xs → p a ≡ false) → any p xs ≡ false
  unfolding any elem
  any-intro_false p [] h = refl
  any-intro_false p (x ∷ xs) h =
      ground (arith, h x, ==_refl x, any-intro_false p xs (λ a m. h a (ground arith)))

  -- A member for which `any` is true.
  pub any-witness :
      (p : A → Bool) (xs : List A) → any p xs ≡ true → (a : A) × (a ∈ xs) × (p a ≡ true)
  unfolding any elem
  any-witness p [] h = cc
  any-witness p (x ∷ xs) h = elim (Bool-cases (p x)) [
    | inl pass ↦ (x, ground (arith, ==_refl x), pass)
    | inr fails ↦ let (a, m, pass) = any-witness p xs (ground arith) in (a, ground arith, pass)
  ]

  pub elem-push : (a : A) (xs stack : List A) → elem a (push xs stack) ≡ (elem a xs || elem a stack)
  unfolding elem push
  elem-push a [] stack = refl
  elem-push a (x ∷ xs) stack = ground (arith, elem-push a xs (x ∷ stack))

  pub elem-cons_cases : (a x : A) (xs : List A) → a ∈ x ∷ xs → (a ≡ x) ⊎ (a ∈ xs)
  unfolding elem
  elem-cons_cases a x xs h = ground (arith, ==_iff a x)

  pub elem-push_cases : (a : A) (xs stack : List A) → a ∈ push xs stack → (a ∈ xs) ⊎ (a ∈ stack)
  elem-push_cases a xs stack h = ground (arith, elem-push a xs stack)

  pub not-elem-nil : (a : A) → ¬ (a ∈ [])
  unfolding elem
  not-elem-nil a h = cc

  pub elem-tail : (a x : A) (xs : List A) → a ∈ xs → a ∈ x ∷ xs
  unfolding elem
  elem-tail a x xs h = ground arith
