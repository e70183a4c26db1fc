-- ===== src/Migrations/Planner/Soundness.antt =====
-- What a plan promises: its steps are allowed one after another, and lead to what the targets ask.
use godj.Base.{
  ◌≡◌, false, List, [], ◌∷◌, ◌++◌, inl, inr, string_eq, Bool-cases, elem, ◌∈◌, elem-head, elem-tail,
  elem-cons_cases, arith, ok, err, stuck, ◌>>=◌, >>=-eq-ok, GoString,
}
use godj.Migrations.Keys.{MigrationKey, key_eq}
use godj.Migrations.Errors.{Planned}
use godj.Migrations.Graph.{
  PlannerGraph, PlanStep, Steps, contains, validate_applied_history, plan_backward, app_roots,
}
use godj.Migrations.Graph.Runs.{Run, Run-append}
use godj.Migrations.Graph.Closures.{Dependent}
use godj.Migrations.Graph.Effects.{ForwardPlan, plan_forward_lem, plan_backward_lem}
use godj.Migrations.Graph.Shape.{
  IsWellFormed, Consistent, validate_applied_history_iff, Run-Consistent,
}
use godj.Migrations.Planner.{
  AppliedState, applied_keys, Target, TargetKind, append_steps, plan_backward_each,
  same_app_children, plan_target, plan_targets, plan_graph, validate_targets,
}

abbrev Keys : Type 0
Keys = List MigrationKey

pub append_steps-eq-ok :
    (first : List PlanStep) (middle : Keys) (r : Planned Steps) (steps : List PlanStep)
    (after : Keys)
    → append_steps (first, middle) r ≡ ok (steps, after)
    → (rest : List PlanStep) × (r ≡ ok (rest, after)) × (steps ≡ first ++ rest)
append_steps-eq-ok first middle (ok (rest, last)) steps after h = (rest, ground arith, ground arith)
append_steps-eq-ok first middle (err e) steps after h = cc
append_steps-eq-ok first middle stuck steps after h = cc

module _ (g : PlannerGraph) where
  -- What planning several seeds backward promises.
  pub record Rollback (seeds applied : Keys) (steps : List PlanStep) (after : Keys) : Type 0 where
    pub run : Run g applied steps after
    pub removed : (seed : MigrationKey) → seed ∈ seeds → elem seed after ≡ false
    pub shrunk : (key : MigrationKey) → key ∈ after → key ∈ applied
    pub lost :
        (key : MigrationKey)
        → key ∈ applied
        → elem key after ≡ false
        → (seed : MigrationKey) × (seed ∈ seeds) × Dependent g seed key

  pub plan_backward_each_lem :
      (seeds applied : Keys) (steps : List PlanStep) (after : Keys)
      → plan_backward_each g seeds applied ≡ ok (steps, after)
      → Rollback seeds applied steps after
  unfolding plan_backward_each elem
  plan_backward_each_lem [] applied steps after h = record {
    run = let e : steps ≡ [] = ground arith in rw e (ground arith);
    removed = λ seed m. cc;
    shrunk = λ key m. ground arith;
    lost = λ key m gone. absurd (ground arith);
  }
  plan_backward_each_lem (seed ∷ seeds) applied steps after h =
      let ((first, middle), planned, more) =
        >>=-eq-ok (plan_backward g seed applied)
          (λ (s : Steps). append_steps s (plan_backward_each g seeds s.1)) h in
      let (rest, go_on, e) =
        append_steps-eq-ok first middle (plan_backward_each g seeds middle) steps after more in
      let here = plan_backward_lem g seed applied first middle planned in
      let there = plan_backward_each_lem seeds middle rest after go_on in
      record {
        run = rw e (Run-append g first rest applied middle after here.run there.run);
        removed = λ s m. elim (elem-cons_cases s seed seeds m) [
          | inl same ↦ elim (Bool-cases (elem s after)) [
            | inl back ↦ let again = there.shrunk s back in absurd (ground (arith, here.removed))
            | inr gone ↦ gone
          ]
          | inr later ↦ there.removed s later
        ];
        shrunk = λ key m. here.shrunk key (there.shrunk key m);
        lost = λ key m gone. elim (Bool-cases (elem key middle)) [
          | inl held ↦ let (s, n, d) = there.lost key held gone in (s, elem-tail s seed seeds n, d)
          | inr now ↦ (seed, elem-head seed seeds, here.lost key m now)
        ];
      }

  -- What one round of the loop over the targets promises, by the kind of the target.
  pub plan_target_named :
      (key : MigrationKey) (applied : Keys) (steps : List PlanStep) (after : Keys) (app : GoString)
      → elem key applied ≡ false
      → plan_target g (record { kind = TargetKind.named; key = key; app = app }) applied
        ≡ ok (steps, after)
      → ForwardPlan g key applied steps after
  unfolding plan_target
  plan_target_named key applied steps after app new h =
      plan_forward_lem g key applied steps after (elim (Bool-cases (contains g key)) [
        | inl known ↦ rw (known, new) at h
        | inr unknown ↦ absurd (ground arith)
      ])

  pub plan_target_applied :
      (key : MigrationKey) (applied : Keys) (steps : List PlanStep) (after : Keys) (app : GoString)
      → key ∈ applied
      → plan_target g (record { kind = TargetKind.named; key = key; app = app }) applied
        ≡ ok (steps, after)
      → Rollback (same_app_children g key) applied steps after
  unfolding plan_target
  plan_target_applied key applied steps after app old h =
      plan_backward_each_lem (same_app_children g key) applied steps after
        (elim (Bool-cases (contains g key)) [
          | inl known ↦ rw (known, old) at h
          | inr unknown ↦ absurd (ground arith)
        ])

  plan_target-Run :
      (kind : TargetKind) (key : MigrationKey) (app : GoString) (applied : Keys)
      (steps : List PlanStep) (after : Keys)
      → plan_target g (record { kind = kind; key = key; app = app }) applied ≡ ok (steps, after)
      → Run g applied steps after
  plan_target-Run TargetKind.named key app applied steps after h =
      elim (Bool-cases (elem key applied)) [
        | inl old ↦ (plan_target_applied key applied steps after app old h).run
        | inr new ↦ (plan_target_named key applied steps after app new h).run
      ]
  plan_target-Run TargetKind.zero key app applied steps after h =
      unfold plan_target in (plan_backward_each_lem (app_roots g app) applied steps after h).run
  plan_target-Run TargetKind.invalid key app applied steps after h =
      unfold plan_target in (let e : steps ≡ [] = ground arith in rw e (ground arith))

  plan_targets-Run :
      (targets : List Target) (applied : Keys) (steps : List PlanStep) (after : Keys)
      → plan_targets g targets applied ≡ ok (steps, after)
      → Run g applied steps after
  unfolding plan_targets
  plan_targets-Run [] applied steps after h =
      let e : steps ≡ [] = ground arith in rw e (ground arith)
  plan_targets-Run (target ∷ targets) applied steps after h =
      let ((first, middle), planned, more) =
        >>=-eq-ok (plan_target g target applied)
          (λ (s : Steps). append_steps s (plan_targets g targets s.1)) h in
      let (rest, go_on, e) =
        append_steps-eq-ok first middle (plan_targets g targets middle) steps after more in
      rw e (
        Run-append g first rest applied middle after
          (plan_target-Run target.kind target.key target.app applied first middle planned)
          (plan_targets-Run targets middle rest after go_on))

  -- When the graph is well formed and planning succeeds, the steps run from the applied keys to
  -- those that the plan leads to, each of them allowed when it runs, and the keys before and
  -- after are consistent with the graph.
  pub plan_graph-Run :
      (applied : AppliedState) (targets : List Target) (steps : List PlanStep) (after : Keys)
      → IsWellFormed g
      → plan_graph g applied targets ≡ ok (steps, after)
      → Run g (applied_keys applied.keys) steps after
        × Consistent g (applied_keys applied.keys)
        × Consistent g after
  unfolding plan_graph
  plan_graph-Run applied targets steps after w h =
      let before = applied_keys applied.keys in
      let (_, valid, more) =
        >>=-eq-ok (validate_targets targets)
          (λ _. validate_applied_history g before >>= λ _. plan_targets g targets before) h in
      let (_, fits, planned) =
        >>=-eq-ok (validate_applied_history g before) (λ _. plan_targets g targets before) more in
      let run = plan_targets-Run targets before steps after planned in
      let consistent = (validate_applied_history_iff g before).0 fits in
      (run, consistent, Run-Consistent g w steps before after run consistent)
