-- ===== src/Migrations/Graph/Runs.antt =====
-- What the steps of a plan may do: each is allowed by the keys that are applied when it runs.
use godj.Base.{
  ℕ, zero, suc, ◌≡◌, true, false, List, [], ◌∷◌, ◌++◌, some, inl, inr, ◌⊎◌, Bool-cases,
  Option-cases, elem, insert, delete, ◌∈◌, elem-insert, elem-delete, all-elem, any-false,
  find-eq-some, is_nil, arith, Outcome, ok, err, stuck,
}
use godj.Migrations.Keys.{MigrationKey, key_eq}
use godj.Migrations.Errors.{Direction, PlanningError}
use godj.Migrations.Graph.{
  PlannerGraph, PlanStep, Steps, prepend, parents_of, children_of, forward_steps, forward_ready,
  backward_ready, first_forward_ready, backward_steps, first_backward_ready,
}

abbrev Keys : Type 0
Keys = List MigrationKey

module _ (g : PlannerGraph) where
  -- A forward step applies a key of the graph that is not applied and whose parents all are. A
  -- backward step removes an applied key none of whose children is applied.
  abbrev pub Allowed : Keys → MigrationKey → Direction → Type 0
  Allowed applied key Direction.forward =
      (key ∈ g.nodes)
      × (elem key applied ≡ false)
      × ((parent : MigrationKey) → parent ∈ parents_of g key → parent ∈ applied)
  Allowed applied key Direction.backward =
      (key ∈ g.nodes)
      × (key ∈ applied)
      × ((child : MigrationKey) → child ∈ children_of g key → elem child applied ≡ false)
  Allowed applied key (Direction.other _) = ⊥

  abbrev pub applied_after : Keys → MigrationKey → Direction → Keys
  applied_after applied key Direction.forward = insert key applied
  applied_after applied key Direction.backward = delete key applied
  applied_after applied key (Direction.other _) = applied

  -- The steps run one after another from the keys applied before to those applied after.
  abbrev pub Run : Keys → List PlanStep → Keys → Type 0
  Run applied [] after = after ≡ applied
  Run applied (step ∷ rest) after =
      Allowed applied step.key step.direction
      × Run (applied_after applied step.key step.direction) rest after

  pub Run-append :
      (xs ys : List PlanStep) (applied middle after : Keys)
      → Run applied xs middle
      → Run middle ys after
      → Run applied (xs ++ ys) after
  Run-append [] ys applied middle after h k = rw h at k
  Run-append (step ∷ rest) ys applied middle after h k =
      (h.0, Run-append rest ys (applied_after applied step.key step.direction) middle after h.1 k)

prepend-eq-ok :
    (step : PlanStep) (r : Outcome PlanningError Steps) (steps : List PlanStep) (after : Keys)
    → prepend step r ≡ ok (steps, after)
    → (rest : List PlanStep) × (r ≡ ok (rest, after)) × (steps ≡ step ∷ rest)
prepend-eq-ok step (ok (rest, last)) steps after h = (rest, ground arith, ground arith)
prepend-eq-ok step (err e) steps after h = cc
prepend-eq-ok step stuck steps after h = cc

module _ (g : PlannerGraph) where
  -- A round of the second loop of `planForward`: the end, or one more step.
  pub forward_round :
      (fuel : ℕ) (candidates applied : Keys) (steps : List PlanStep) (after : Keys)
      → forward_steps g (suc fuel) candidates applied ≡ ok (steps, after)
      → (is_nil candidates ≡ true) × (steps ≡ []) × (after ≡ applied)
        ⊎ ((next : MigrationKey) × (rest : List PlanStep) × (first_forward_ready g candidates
                applied
              ≡ some next)
            × (forward_steps g fuel (delete next candidates) (insert next applied)
                ≡ ok (rest, after))
            × (steps ≡ record { key = next; direction = Direction.forward } ∷ rest))
  unfolding forward_steps
  forward_round fuel candidates applied steps after h = elim (Bool-cases (is_nil candidates)) [
    | inl empty ↦ inl (ground arith)
    | inr more ↦ elim (Option-cases (first_forward_ready g candidates applied)) [
      | inl stop ↦ absurd (ground arith)
      | inr (next, ready) ↦
          let (rest, e, f) =
            prepend-eq-ok (record { key = next; direction = Direction.forward })
              (forward_steps g fuel (delete next candidates) (insert next applied)) steps after
              (rw (more, ready, forward_steps) at h) in
          inr (next, rest, ready, e, f)
    ]
  ]

  -- A round of the second loop of `planBackward`.
  pub backward_round :
      (fuel : ℕ) (candidates applied : Keys) (steps : List PlanStep) (after : Keys)
      → backward_steps g (suc fuel) candidates applied ≡ ok (steps, after)
      → (is_nil candidates ≡ true) × (steps ≡ []) × (after ≡ applied)
        ⊎ ((next : MigrationKey) × (rest : List PlanStep) × (first_backward_ready g candidates
              ≡ some next)
            × (backward_steps g fuel (delete next candidates) (delete next applied)
                ≡ ok (rest, after))
            × (steps ≡ record { key = next; direction = Direction.backward } ∷ rest))
  unfolding backward_steps
  backward_round fuel candidates applied steps after h = elim (Bool-cases (is_nil candidates)) [
    | inl empty ↦ inl (ground arith)
    | inr more ↦ elim (Option-cases (first_backward_ready g candidates)) [
      | inl stop ↦ absurd (ground arith)
      | inr (next, ready) ↦
          let (rest, e, f) =
            prepend-eq-ok (record { key = next; direction = Direction.backward })
              (backward_steps g fuel (delete next candidates) (delete next applied)) steps after
              (rw (more, ready, backward_steps) at h) in
          inr (next, rest, ready, e, f)
    ]
  ]

  -- What the test of `firstForwardReady` tells of the key it picks.
  pub forward_ready_lem :
      (candidates applied : Keys) (next : MigrationKey)
      → first_forward_ready g candidates applied ≡ some next
      → (next ∈ candidates)
        × (next ∈ g.nodes)
        × ((parent : MigrationKey) → parent ∈ parents_of g next → parent ∈ applied)
  unfolding first_forward_ready
  forward_ready_lem candidates applied next h =
      let (pass, node) = find-eq-some (forward_ready g candidates applied) g.nodes h in
      (
        ground arith,
        node,
        λ parent m. all-elem (λ k. elem k applied) parent (parents_of g next) (ground arith) m,
      )

  pub backward_ready_lem :
      (candidates : Keys) (next : MigrationKey)
      → first_backward_ready g candidates ≡ some next
      → (next ∈ candidates)
        × (next ∈ g.nodes)
        × ((child : MigrationKey) → child ∈ children_of g next → elem child candidates ≡ false)
  unfolding first_backward_ready
  backward_ready_lem candidates next h =
      let (pass, node) = find-eq-some (backward_ready g candidates) g.nodes h in
      (
        ground arith,
        node,
        λ child m. any-false (λ k. elem k candidates) child (children_of g next) (ground arith) m,
      )

  pub forward_steps-Run :
      (fuel : ℕ) (candidates applied : Keys) (steps : List PlanStep) (after : Keys)
      → ((key : MigrationKey) → key ∈ candidates → elem key applied ≡ false)
      → forward_steps g fuel candidates applied ≡ ok (steps, after)
      → Run g applied steps after
  forward_steps-Run zero candidates applied steps after fresh h =
      unfold forward_steps in
      elim (Bool-cases (is_nil candidates)) [
        | inl empty ↦ let e : steps ≡ [] = ground arith in rw e (ground arith)
        | inr more ↦ absurd (ground arith)
      ]
  forward_steps-Run (suc fuel) candidates applied steps after fresh h =
      elim (forward_round fuel candidates applied steps after h) [
        | inl (empty, none_left, same) ↦ rw none_left same
        | inr (next, rest, ready, go_on, e) ↦
            let (candidate, node, parents) = forward_ready_lem candidates applied next ready in
            rw e (
              (node, fresh next candidate, parents),
              forward_steps-Run fuel (delete next candidates) (insert next applied) rest after
                  (λ key m. ground (
                    arith,
                    fresh key,
                    elem-delete key next candidates,
                    elem-insert key next applied,
                  ))
                  go_on,
            )
      ]

  -- No child of a candidate is applied unless it is a candidate too.
  abbrev pub DownClosed : Keys → Keys → Type 0
  DownClosed candidates applied =
      (key child : MigrationKey)
      → key ∈ candidates
      → child ∈ children_of g key
      → child ∈ applied
      → child ∈ candidates

  pub backward_steps-Run :
      (fuel : ℕ) (candidates applied : Keys) (steps : List PlanStep) (after : Keys)
      → ((key : MigrationKey) → key ∈ candidates → key ∈ applied)
      → DownClosed candidates applied
      → backward_steps g fuel candidates applied ≡ ok (steps, after)
      → Run g applied steps after
  backward_steps-Run zero candidates applied steps after held closed h =
      unfold backward_steps in
      elim (Bool-cases (is_nil candidates)) [
        | inl empty ↦ let e : steps ≡ [] = ground arith in rw e (ground arith)
        | inr more ↦ absurd (ground arith)
      ]
  backward_steps-Run (suc fuel) candidates applied steps after held closed h =
      elim (backward_round fuel candidates applied steps after h) [
        | inl (empty, none_left, same) ↦ rw none_left same
        | inr (next, rest, ready, go_on, e) ↦
            let (candidate, node, children) = backward_ready_lem candidates next ready in
            rw e (
              (
                node,
                held next candidate,
                λ child m. ground (arith, children child m, closed next child candidate m),
              ),
              backward_steps-Run fuel (delete next candidates) (delete next applied) rest after
                  (λ key m. ground (
                    arith,
                    held key,
                    elem-delete key next candidates,
                    elem-delete key next applied,
                  ))
                  (λ key child m c a. ground (
                    arith,
                    closed key child,
                    elem-delete key next candidates,
                    elem-delete child next candidates,
                    elem-delete child next applied,
                  ))
                  go_on,
            )
      ]
