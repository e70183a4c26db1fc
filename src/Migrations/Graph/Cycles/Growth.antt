-- ===== src/Migrations/Graph/Cycles/Growth.antt =====
-- What Tarjan's search adds as it goes: keys with an index, and keys on the stack.
use godj.Base.{
  ℕ, suc, ◌≤◌, ◌<◌, ◌≡◌, refl, sym, ◌∙◌, ap, Bool, true, false, List, [], ◌∷◌, ◌++◌, inl, inr, ◌==◌,
  ==_iff, ==_refl, nat_eq, Bool-cases, elem, keep, delete, length, ◌∈◌, elem-cons_cases, lookup-put,
  append_assoc, arith, ok,
}
use godj.Migrations.Keys.{MigrationKey, key_eq}
use godj.Migrations.Graph.Cycles.{Search, enter, lower, pop_component}
use godj.Migrations.Graph.Cycles.Invariant.{Known}

abbrev Keys : Type 0
Keys = List MigrationKey

-- Fewer keys pass a narrower test.
pub length-keep_le :
    (p q : MigrationKey → Bool) (xs : Keys)
    → ((x : MigrationKey) → q x ≡ true → p x ≡ true)
    → length (keep q xs) ≤ length (keep p xs)
unfolding keep length
length-keep_le p q [] n = omega arith
length-keep_le p q (x ∷ xs) n = ground (arith, length-keep_le p q xs n, n x)

pub length-keep_lt :
    (p q : MigrationKey → Bool) (x : MigrationKey) (xs : Keys)
    → ((y : MigrationKey) → q y ≡ true → p y ≡ true)
    → x ∈ xs
    → p x ≡ true
    → q x ≡ false
    → length (keep q xs) < length (keep p xs)
unfolding keep length elem
length-keep_lt p q x [] n m old new = absurd (ground arith)
length-keep_lt p q x (y ∷ xs) n m old new = elim (elem-cons_cases x y xs m) [
  | inl e ↦ ground (arith, length-keep_le p q xs n, rw e at old, rw e at new)
  | inr rest ↦ ground (arith, length-keep_lt p q x xs n rest old new, n y)
]

pub length-keep : (p : MigrationKey → Bool) (xs : Keys) → length (keep p xs) ≤ length xs
unfolding keep length
length-keep p [] = omega arith
length-keep p (x ∷ xs) = ground (arith, length-keep p xs)

-- What a part of the search adds: keys on the stack and to those with an index.
pub record Grow (s t : Search) : Type 0 where
  pub pushed : Keys
  pub stacked : t.stack ≡ pushed ++ s.stack
  pub kept : (key : MigrationKey) → Known s key → Known t key

pub Grow-refl : (s : Search) → Grow s s
Grow-refl s = record { pushed = []; stacked = refl; kept = λ key k. k }

pub Grow-trans : (s t u : Search) → Grow s t → Grow t u → Grow s u
Grow-trans s t u p q = record {
  pushed = q.pushed ++ p.pushed;
  stacked =
      q.stacked ∙ ap (λ l. q.pushed ++ l) p.stacked ∙ sym (append_assoc q.pushed p.pushed s.stack);
  kept = λ key k. q.kept key (p.kept key k);
}

pub enter-Grow : (node : MigrationKey) (s : Search) → Grow s (enter node s)
unfolding enter
enter-Grow node s = record {
  pushed = node ∷ [];
  stacked = refl;
  kept = λ key k. ground (arith, lookup-put key node (suc s.index) s.indices, ==_iff key node);
}

pub enter-Known : (node : MigrationKey) (s : Search) → Known (enter node s) node
unfolding enter
enter-Known node s = ground (arith, lookup-put node node (suc s.index) s.indices, ==_refl node)

pub lower-Grow : (node : MigrationKey) (value : ℕ) (s : Search) → Grow s (lower node value s)
unfolding lower
lower-Grow node value s = record {
  pushed = [];
  stacked = ground arith;
  kept = λ key k. ground arith;
}

-- Popping ends at the node, at the latest where it was pushed.
pub pop_component_total :
    (node : MigrationKey) (above below flags component : Keys)
    → (some left members : Keys) × (pop_component node (above ++ node ∷ below) flags component
        ≡ ok (some ++ below, left, members))
unfolding pop_component
pop_component_total node [] below flags component =
    ([], delete node flags, component ++ node ∷ [], ground (arith, ==_refl node))
pop_component_total node (x ∷ above) below flags component = elim (Bool-cases (x == node)) [
  | inl e ↦ (
    above ++ node ∷ [],
    delete x flags,
    component ++ x ∷ [],
    rw (pop_component, e)
        (ap (λ l. ok (l, delete x flags, component ++ x ∷ []))
          (sym (append_assoc above (node ∷ []) below))),
  )
  | inr other ↦
      let (some, left, members, e) =
        pop_component_total node above below (delete x flags) (component ++ x ∷ []) in
      (some, left, members, rw (pop_component, other) e)
]
