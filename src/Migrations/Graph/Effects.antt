-- ===== src/Migrations/Graph/Effects.antt =====
-- What `planForward` and `planBackward` lead to: the steps, and the applied keys after them.
use godj.Base.{
  ℕ, zero, suc, ◌≡◌, refl, true, false, ◌&&◌, ◌||◌, not, List, [], ◌∷◌, inl, inr, ==_iff,
  Bool-cases, elem, insert, delete, length, is_nil, ◌∈◌, elem-insert, elem-delete, arith, ok,
  >>=-eq-ok,
}
use godj.Migrations.Keys.{MigrationKey, key_eq}
use godj.Migrations.Graph.{
  PlannerGraph, PlanStep, forward_candidates, forward_steps, plan_forward, backward_candidates,
  backward_steps, plan_backward,
}
use godj.Migrations.Graph.Runs.{
  Run, forward_round, backward_round, forward_ready_lem, backward_ready_lem, forward_steps-Run,
  backward_steps-Run,
}
use godj.Migrations.Graph.Closures.{
  Needs, Dependent, forward_candidates_lem, forward_candidates-Needs,
}
use godj.Migrations.Graph.Rollbacks.{backward_candidates_lem, backward_candidates-Dependent}

abbrev Keys : Type 0
Keys = List MigrationKey

elem-of_is_nil : (key : MigrationKey) (keys : Keys) → is_nil keys ≡ true → elem key keys ≡ false
unfolding is_nil elem
elem-of_is_nil key [] h = refl
elem-of_is_nil key (x ∷ keys) h = cc

module _ (g : PlannerGraph) where
  -- The forward steps apply exactly the candidates.
  forward_steps-applied :
      (fuel : ℕ) (candidates applied : Keys) (steps : List PlanStep) (after : Keys)
      → forward_steps g fuel candidates applied ≡ ok (steps, after)
      → (key : MigrationKey) → elem key after ≡ (elem key candidates || elem key applied)
  forward_steps-applied zero candidates applied steps after h key =
      unfold forward_steps in
      elim (Bool-cases (is_nil candidates)) [
        | inl empty ↦
            let e : after ≡ applied = ground arith in rw (e, elem-of_is_nil key candidates empty)
        | inr more ↦ absurd (ground arith)
      ]
  forward_steps-applied (suc fuel) candidates applied steps after h key =
      elim (forward_round g fuel candidates applied steps after h) [
        | inl (empty, _, same) ↦ rw (same, elem-of_is_nil key candidates empty)
        | inr (next, rest, ready, go_on, e) ↦
            let (candidate, _, _) = forward_ready_lem g candidates applied next ready in
            ground (
              arith,
              forward_steps-applied fuel (delete next candidates) (insert next applied) rest after
                  go_on key,
              elem-delete key next candidates,
              elem-insert key next applied,
              ==_iff key next,
            )
      ]

  -- The backward steps remove exactly the candidates.
  backward_steps-applied :
      (fuel : ℕ) (candidates applied : Keys) (steps : List PlanStep) (after : Keys)
      → backward_steps g fuel candidates applied ≡ ok (steps, after)
      → (key : MigrationKey) → elem key after ≡ (elem key applied && not (elem key candidates))
  backward_steps-applied zero candidates applied steps after h key =
      unfold backward_steps in
      elim (Bool-cases (is_nil candidates)) [
        | inl empty ↦
            let e : after ≡ applied = ground arith in
            ground (arith, elem-of_is_nil key candidates empty)
        | inr more ↦ absurd (ground arith)
      ]
  backward_steps-applied (suc fuel) candidates applied steps after h key =
      elim (backward_round g fuel candidates applied steps after h) [
        | inl (empty, _, same) ↦ ground (arith, elem-of_is_nil key candidates empty)
        | inr (next, rest, ready, go_on, e) ↦
            let (candidate, _, _) = backward_ready_lem g candidates next ready in
            ground (
              arith,
              backward_steps-applied fuel (delete next candidates) (delete next applied) rest after
                  go_on key,
              elem-delete key next candidates,
              elem-delete key next applied,
              ==_iff key next,
            )
      ]

  -- What `planForward` promises: allowed steps to a set that keeps all that was applied, holds the
  -- target, and has gained only keys that the target needs.
  pub record ForwardPlan (target : MigrationKey) (applied : Keys) (steps : List PlanStep)
      (after : Keys) : Type 0 where
    pub run : Run g applied steps after
    pub reached : target ∈ after
    pub kept : (key : MigrationKey) → key ∈ applied → key ∈ after
    pub gained : (key : MigrationKey) → key ∈ after → elem key applied ≡ false → Needs g target key

  -- A plan that `planForward` returns has allowed steps, leaves the target and all that was
  -- applied before applied, and has gained only keys that the target needs.
  pub plan_forward_lem :
      (target : MigrationKey) (applied : Keys) (steps : List PlanStep) (after : Keys)
      → plan_forward g target applied ≡ ok (steps, after)
      → ForwardPlan target applied steps after
  unfolding plan_forward
  plan_forward_lem target applied steps after h =
      let (candidates, found, stepped) =
        >>=-eq-ok (forward_candidates g applied (length g.nodes) (target ∷ []) [])
          (λ c. forward_steps g (length c) c applied) h in
      let closure = forward_candidates_lem g applied (length g.nodes) target candidates found in
      let end = forward_steps-applied (length candidates) candidates applied steps after stepped in
      record {
        run =
            forward_steps-Run g (length candidates) candidates applied steps after closure.fresh
              stepped;
        reached = ground (arith, end target, closure.reaches);
        kept = λ key m. ground (arith, end key);
        gained = λ key m new.
            forward_candidates-Needs g applied (length g.nodes) target candidates found key
              (ground (arith, end key));
      }

  -- What `planBackward` promises: allowed steps to a set without the seed, from which only keys that
  -- depend on the seed are gone.
  pub record BackwardPlan (seed : MigrationKey) (applied : Keys) (steps : List PlanStep)
      (after : Keys) : Type 0 where
    pub run : Run g applied steps after
    pub removed : elem seed after ≡ false
    pub shrunk : (key : MigrationKey) → key ∈ after → key ∈ applied
    pub lost : (key : MigrationKey) → key ∈ applied → elem key after ≡ false → Dependent g seed key

  -- A plan that `planBackward` returns has allowed steps, leaves the seed unapplied, applies
  -- nothing, and has lost only keys that depend on the seed.
  pub plan_backward_lem :
      (seed : MigrationKey) (applied : Keys) (steps : List PlanStep) (after : Keys)
      → plan_backward g seed applied ≡ ok (steps, after)
      → BackwardPlan seed applied steps after
  unfolding plan_backward
  plan_backward_lem seed applied steps after h =
      let (candidates, found, stepped) =
        >>=-eq-ok (backward_candidates g applied (length g.nodes) (seed ∷ []) [] [])
          (λ c. backward_steps g (length c) c applied) h in
      let closure = backward_candidates_lem g applied (length g.nodes) seed candidates found in
      let end = backward_steps-applied (length candidates) candidates applied steps after stepped in
      record {
        run =
            backward_steps-Run g (length candidates) candidates applied steps after
              (λ key m. ground (arith, closure.picked key))
              (λ key child m c a.
                ground (arith, closure.picked key, closure.picked child, closure.closed key child))
              stepped;
        removed = ground (arith, end seed, closure.picked seed, closure.reaches);
        shrunk = λ key m. ground (arith, end key);
        lost = λ key m gone.
            backward_candidates-Dependent g applied (length g.nodes) seed candidates found key
              (ground (arith, end key));
      }
