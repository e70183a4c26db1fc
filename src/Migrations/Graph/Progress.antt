-- ===== src/Migrations/Graph/Progress.antt =====
-- In an acyclic graph both planning loops always find a next step, so planning cannot fail.
use godj.Base.{
  ℕ, zero, suc, ◌≤◌, ◌≡◌, refl, true, ◌||◌, List, [], ◌∷◌, some, inl, inr, ltb, ==_iff, ==_refl,
  Bool-cases, Option-cases, elem, insert, delete, find, length, is_nil, ◌∈◌, Subset, elem-insert,
  elem-delete, elem-tail, elem-cons_cases, not-elem-nil, length-delete-lt, all-intro,
  any-intro_false, find-eq-none, arith, ok,
}
use godj.Migrations.Keys.{MigrationKey, key_eq}
use godj.Migrations.Errors.{Direction}
use godj.Migrations.Graph.{
  PlannerGraph, PlanStep, parents_of, children_of, forward_ready, backward_ready,
  first_forward_ready, first_backward_ready, forward_steps, plan_forward, backward_steps,
  plan_backward,
}
use godj.Migrations.Graph.Runs.{forward_ready_lem, backward_ready_lem}
use godj.Migrations.Graph.Closures.{forward_candidates_lem, forward_candidates_total}
use godj.Migrations.Graph.Rollbacks.{backward_candidates_total}
use godj.Migrations.Graph.Shape.{IsWellFormed, IsAcyclic}

abbrev Keys : Type 0
Keys = List MigrationKey

-- A key of a list that is not empty at which a measure is least, or greatest.
least :
    (f : MigrationKey → ℕ) (x : MigrationKey) (xs : Keys)
    → (a : MigrationKey) × (a ∈ x ∷ xs) × ((b : MigrationKey) → b ∈ x ∷ xs → f a ≤ f b)
unfolding elem
least f x [] = (x, ground (arith, ==_refl x), λ b m. ground (arith, ==_iff b x))
least f x (y ∷ xs) =
    let (a, m, below) = least f y xs in
    elim (Bool-cases (ltb (f x) (f a))) [
      | inl smaller ↦ (
        x,
        ground (arith, ==_refl x),
        λ b n. elim (elem-cons_cases b x (y ∷ xs) n) [
          | inl e ↦ rw e (omega arith)
          | inr rest ↦ let k = below b rest in ground arith
        ],
      )
      | inr not_smaller ↦ (
        a,
        elem-tail a x (y ∷ xs) m,
        λ b n. elim (elem-cons_cases b x (y ∷ xs) n) [
          | inl e ↦ rw e (ground arith)
          | inr rest ↦ below b rest
        ],
      )
    ]

greatest :
    (f : MigrationKey → ℕ) (x : MigrationKey) (xs : Keys)
    → (a : MigrationKey) × (a ∈ x ∷ xs) × ((b : MigrationKey) → b ∈ x ∷ xs → f b ≤ f a)
unfolding elem
greatest f x [] = (x, ground (arith, ==_refl x), λ b m. ground (arith, ==_iff b x))
greatest f x (y ∷ xs) =
    let (a, m, above) = greatest f y xs in
    elim (Bool-cases (ltb (f a) (f x))) [
      | inl larger ↦ (
        x,
        ground (arith, ==_refl x),
        λ b n. elim (elem-cons_cases b x (y ∷ xs) n) [
          | inl e ↦ rw e (omega arith)
          | inr rest ↦ let k = above b rest in ground arith
        ],
      )
      | inr not_larger ↦ (
        a,
        elem-tail a x (y ∷ xs) m,
        λ b n. elim (elem-cons_cases b x (y ∷ xs) n) [
          | inl e ↦ rw e (ground arith)
          | inr rest ↦ above b rest
        ],
      )
    ]

module _ (g : PlannerGraph) (w : IsWellFormed g) (acyclic : IsAcyclic g) where
  open acyclic use {rank, descends}

  -- Some candidate is ready to be applied.
  forward_ready_exists :
      (x : MigrationKey) (xs applied : Keys)
      → Subset (x ∷ xs) g.nodes
      → ((key parent : MigrationKey)
          → key ∈ x ∷ xs
          → parent ∈ parents_of g key
          → (elem parent applied || elem parent (x ∷ xs)) ≡ true)
      → (next : MigrationKey) × (first_forward_ready g (x ∷ xs) applied ≡ some next)
  unfolding first_forward_ready
  forward_ready_exists x xs applied nodes closed =
      let (a, m, below) = least rank x xs in
      elim (Option-cases (find (forward_ready g (x ∷ xs) applied) g.nodes)) [
        | inr found ↦ found
        | inl stop ↦
            let all_applied =
              all-intro (λ p. elem p applied) (parents_of g a)
                (λ p e. elim (Bool-cases (elem p (x ∷ xs))) [
                  | inl inside ↦
                      let lower = descends a p e in
                      let least_rank = below p inside in absurd (omega arith)
                  | inr outside ↦ ground (arith, closed a p m e)
                ]) in
            absurd (
              ground
                (arith, find-eq-none (forward_ready g (x ∷ xs) applied) a g.nodes stop (nodes a m)))
      ]

  backward_ready_exists :
      (x : MigrationKey) (xs : Keys)
      → Subset (x ∷ xs) g.nodes
      → (next : MigrationKey) × (first_backward_ready g (x ∷ xs) ≡ some next)
  unfolding first_backward_ready
  backward_ready_exists x xs nodes =
      let (a, m, above) = greatest rank x xs in
      elim (Option-cases (find (backward_ready g (x ∷ xs)) g.nodes)) [
        | inr found ↦ found
        | inl stop ↦
            let none_held =
              any-intro_false (λ c. elem c (x ∷ xs)) (children_of g a)
                (λ c e. elim (Bool-cases (elem c (x ∷ xs))) [
                  | inl inside ↦
                      let lower = descends c a (ground (arith, w.transposed a c)) in
                      let greatest_rank = above c inside in absurd (omega arith)
                  | inr outside ↦ outside
                ]) in
            absurd
              (ground (arith, find-eq-none (backward_ready g (x ∷ xs)) a g.nodes stop (nodes a m)))
      ]

  forward_steps_total :
      (fuel : ℕ) (candidates applied : Keys)
      → Subset candidates g.nodes
      → ((key parent : MigrationKey)
          → key ∈ candidates
          → parent ∈ parents_of g key
          → (elem parent applied || elem parent candidates) ≡ true)
      → length candidates ≤ fuel
      → (steps : List PlanStep) × (after : Keys) × (forward_steps g fuel candidates applied
          ≡ ok (steps, after))
  unfolding forward_steps is_nil
  forward_steps_total zero [] applied nodes closed room = ([], applied, refl)
  forward_steps_total zero (x ∷ xs) applied nodes closed room = absurd (omega arith)
  forward_steps_total (suc fuel) [] applied nodes closed room = ([], applied, refl)
  forward_steps_total (suc fuel) (x ∷ xs) applied nodes closed room =
      let (next, ready) = forward_ready_exists x xs applied nodes closed in
      let (candidate, _, _) = forward_ready_lem g (x ∷ xs) applied next ready in
      let (rest, after, e) =
        forward_steps_total fuel (delete next (x ∷ xs)) (insert next applied)
          (λ k m. nodes k (ground (arith, elem-delete k next (x ∷ xs))))
          (λ k p m edge. ground (
            arith,
            closed k p,
            elem-delete k next (x ∷ xs),
            elem-delete p next (x ∷ xs),
            elem-insert p next applied,
            ==_iff p next,
          ))
          (omega (arith, length-delete-lt next (x ∷ xs) candidate)) in
      (
        record { key = next; direction = Direction.forward } ∷ rest,
        after,
        rw (ready, forward_steps, e),
      )

  backward_steps_total :
      (fuel : ℕ) (candidates applied : Keys)
      → Subset candidates g.nodes
      → length candidates ≤ fuel
      → (steps : List PlanStep) × (after : Keys) × (backward_steps g fuel candidates applied
          ≡ ok (steps, after))
  unfolding backward_steps is_nil
  backward_steps_total zero [] applied nodes room = ([], applied, refl)
  backward_steps_total zero (x ∷ xs) applied nodes room = absurd (omega arith)
  backward_steps_total (suc fuel) [] applied nodes room = ([], applied, refl)
  backward_steps_total (suc fuel) (x ∷ xs) applied nodes room =
      let (next, ready) = backward_ready_exists x xs nodes in
      let (candidate, _, _) = backward_ready_lem g (x ∷ xs) next ready in
      let (rest, after, e) =
        backward_steps_total fuel (delete next (x ∷ xs)) (delete next applied)
          (λ k m. nodes k (ground (arith, elem-delete k next (x ∷ xs))))
          (omega (arith, length-delete-lt next (x ∷ xs) candidate)) in
      (
        record { key = next; direction = Direction.backward } ∷ rest,
        after,
        rw (ready, backward_steps, e),
      )

  only : (goal : MigrationKey) → goal ∈ g.nodes → Subset (goal ∷ []) g.nodes
  only goal node k m = elim (elem-cons_cases k goal [] m) [
    | inl e ↦ rw e node
    | inr none_left ↦ absurd (not-elem-nil k none_left)
  ]

  -- On a well-formed acyclic graph, planning a node forward gives a plan over any applied keys.
  pub plan_forward_total :
      (target : MigrationKey) (applied : Keys)
      → target ∈ g.nodes
      → (steps : List PlanStep) × (after : Keys) × (plan_forward g target applied
          ≡ ok (steps, after))
  unfolding plan_forward
  plan_forward_total target applied node =
      let (candidates, found, nodes) =
        forward_candidates_total g applied (length g.nodes) (target ∷ []) [] w.known tt
          (λ k m. absurd (not-elem-nil k m)) (only _ node) (omega arith) in
      let closure = forward_candidates_lem g applied (length g.nodes) target candidates found in
      let (steps, after, e) =
        forward_steps_total (length candidates) candidates applied nodes closure.closed
          (omega arith) in
      (steps, after, rw (plan_forward, found, e))

  -- On a well-formed acyclic graph, planning a node backward gives a plan over any applied keys.
  pub plan_backward_total :
      (seed : MigrationKey) (applied : Keys)
      → seed ∈ g.nodes
      → (steps : List PlanStep) × (after : Keys) × (plan_backward g seed applied
          ≡ ok (steps, after))
  unfolding plan_backward
  plan_backward_total seed applied node =
      let (candidates, found, nodes) =
        backward_candidates_total g applied (length g.nodes) (seed ∷ []) [] []
          (λ k c m. w.source c k (ground (arith, w.transposed k c))) tt
          (λ k m. absurd (not-elem-nil k m)) (only _ node) (λ k m. m) (omega arith) in
      let (steps, after, e) =
        backward_steps_total (length candidates) candidates applied nodes (omega arith) in
      (steps, after, rw (plan_backward, found, e))
