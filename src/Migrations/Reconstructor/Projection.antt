-- ===== src/Migrations/Reconstructor/Projection.antt =====
-- reconstructor.go of migrations: the projection of targets is a plan from nothing that applies them.
use godj.Base.{
  ◌≡◌, refl, not, List, [], ◌∷◌, ◌++◌, inl, inr, ◌==◌, ==_iff, Bool-cases, elem, insert, ◌∈◌,
  Subset, elem-insert, elem-head, elem-tail, elem-cons_cases, not-elem-nil, arith, ok, err, stuck,
  ◌>>=◌, >>=-eq-ok, fail_if,
}
use godj.Migrations.Keys.{MigrationKey, key_eq}
use godj.Migrations.Errors.{Direction, direction_eq, Planned}
use godj.Migrations.Graph.{PlannerGraph, PlanStep, Steps, validate_applied_history}
use godj.Migrations.Graph.Runs.{Run, Run-append}
use godj.Migrations.Planner.{
  no_applied, named_target, Planner, graph_or_empty, append_steps, plan, plan_graph, plan_targets,
  plan_target, validate_targets,
}
use godj.Migrations.Planner.Soundness.{append_steps-eq-ok, plan_target_named}
use godj.Migrations.Reconstructor.{planned, merge_closure, merge_closures, target_projection}

abbrev Keys : Type 0
Keys = List MigrationKey

planned-eq-ok : {A : Type 0} (r : Planned A) {a : A} → planned r ≡ ok a → r ≡ ok a
planned-eq-ok (ok b) h = cc
planned-eq-ok (err e) h = cc
planned-eq-ok stuck h = cc

-- The closure of one target.
closure-Run :
    (p : Planner) (target : MigrationKey) (closure : List PlanStep)
    → plan p no_applied (named_target target ∷ []) ≡ ok closure
    → (after : Keys) × Run (graph_or_empty p.graph) [] closure after × (target ∈ after)
unfolding plan plan_graph plan_targets elem
closure-Run p target closure h =
    let g = graph_or_empty p.graph in
    let ((steps, after), found, e) =
      >>=-eq-ok (plan_graph g no_applied (named_target target ∷ [])) (λ (s : Steps). ok s.0) h in
    let (_, valid, more) =
      >>=-eq-ok (validate_targets (named_target target ∷ []))
        (λ _. validate_applied_history g [] >>= λ _. plan_targets g (named_target target ∷ []) [])
        found in
    let (_, fits, searched) =
      >>=-eq-ok (validate_applied_history g []) (λ _. plan_targets g (named_target target ∷ []) [])
        more in
    let ((first, middle), first_found, rest_found) =
      >>=-eq-ok (plan_target g (named_target target) [])
        (λ (s : Steps). append_steps s (plan_targets g [] s.1)) searched in
    let (rest, go_on, joined) =
      append_steps-eq-ok first middle (plan_targets g [] middle) steps after rest_found in
    let forward = plan_target_named g target [] first middle [] refl first_found in
    let empty : rest ≡ [] = ground arith in
    let last : after ≡ middle = ground arith in
    let whole : closure ≡ first ++ rest = ground arith in
    let run = Run-append g first [] [] middle middle forward.run refl in
    let here : Run g [] closure after = rw (whole, empty, last) run in
    (after, here, rw last forward.reached)

module _ (g : PlannerGraph) where
  -- Merging a closure that runs from keys already seen.
  merge_closure-Run :
      (closure : List PlanStep) (a b seen seen' : Keys) (steps steps' : List PlanStep)
      → merge_closure closure seen steps ≡ ok (seen', steps')
      → Run g a closure b
      → Subset a seen
      → Run g [] steps seen
      → Run g [] steps' seen' × Subset b seen' × Subset seen seen'
  unfolding merge_closure insert
  merge_closure-Run [] a b seen seen' steps steps' h run sub before =
      let e : seen ≡ seen' = ground arith in
      let f : steps ≡ steps' = ground arith in
      (rw (← e, ← f) before, rw (← e, run) sub, λ k m. rw (← e) m)
  merge_closure-Run (step ∷ rest) a b seen seen' steps steps' h run sub before =
      let (_, is_forward, more) =
        >>=-eq-ok (fail_if (not (step.direction == Direction.forward)) _) _ h in
      let forward : step.direction ≡ Direction.forward =
        ground (arith, ==_iff step.direction Direction.forward) in
      let allowed = rw forward at run.0 in
      let tail = rw forward at run.1 in
      elim (Bool-cases (elem step.key seen)) [
        | inl old ↦
            merge_closure-Run rest (insert step.key a) b seen seen' steps steps' (simp old at more)
              tail (λ k m. ground (arith, elem-insert k step.key a, ==_iff k step.key, sub k))
              before
        | inr new ↦
            let (node, fresh, parents) = allowed in
            let grown : step.key ∷ seen ≡ insert step.key seen = rw (insert, new) refl in
            let one : Run g seen (step ∷ []) (step.key ∷ seen) =
              rw forward ((node, new, λ q m. sub q (parents q m)), grown) in
            let (whole, all_of_b, all_of_seen) =
              merge_closure-Run rest (insert step.key a) b (step.key ∷ seen) seen'
                (steps ++ step ∷ []) steps' (simp new at more) tail
                (λ k m. ground (
                  arith,
                  elem-insert k step.key a,
                  ==_iff k step.key,
                  sub k,
                  elem-head step.key seen,
                  elem-tail k step.key seen,
                ))
                (Run-append g steps (step ∷ []) [] seen (step.key ∷ seen) before one) in
            (whole, all_of_b, λ k m. all_of_seen k (elem-tail k step.key seen m))
      ]

module _ (p : Planner) where
  merge_closures-Run :
      (targets : Keys) (seen : Keys) (steps steps' : List PlanStep)
      → merge_closures p targets seen steps ≡ ok steps'
      → Run (graph_or_empty p.graph) [] steps seen
      → (after : Keys) × Run (graph_or_empty p.graph) [] steps' after
        × ((target : MigrationKey) → target ∈ targets → target ∈ after)
        × Subset seen after
  unfolding merge_closures
  merge_closures-Run [] seen steps steps' h before =
      let e : steps ≡ steps' = ground arith in
      (seen, rw (← e) before, λ k m. absurd (not-elem-nil k m), λ k m. m)
  merge_closures-Run (target ∷ targets) seen steps steps' h before =
      let (closure, found, more) =
        >>=-eq-ok (planned (plan p no_applied (named_target target ∷ []))) _ h in
      let ((seen', merged), mixed, rest) = >>=-eq-ok (merge_closure closure seen steps) _ more in
      let (b, run, reached) = closure-Run p target closure (planned-eq-ok _ found) in
      let (run', all_of_b, all_of_seen) =
        merge_closure-Run (graph_or_empty p.graph) closure [] b seen seen' steps merged mixed run
          (λ k m. absurd (not-elem-nil k m)) before in
      let (after, whole, others, kept) = merge_closures-Run targets seen' merged steps' rest run' in
      (
        after,
        whole,
        λ k m. elim (elem-cons_cases k target targets m) [
          | inl same ↦ kept k (rw same (all_of_b target reached))
          | inr later ↦ others k later
        ],
        λ k m. kept k (all_of_seen k m),
      )

  -- A projection that is returned is allowed step by step from the empty history, whatever the
  -- order of the targets, and leaves every target applied.
  pub target_projection-Run :
      (targets : Keys) (steps : List PlanStep)
      → target_projection p targets ≡ ok steps
      → (after : Keys) × Run (graph_or_empty p.graph) [] steps after × Subset targets after
  unfolding target_projection
  target_projection-Run targets steps h =
      let (after, run, reached, _) = merge_closures-Run targets [] [] steps h refl in
      (after, run, reached)
