-- ===== src/Migrations/Planner/Targets.antt =====
-- What a target means for the applied keys after its plan.
use godj.Base.{
  ℕ, zero, suc, ◌≤◌, ◌<◌, ◌≡◌, false, ◌&&◌, not, List, [], inl, inr, ◌==◌, ==_iff, GoString,
  string_eq, Bool-cases, elem, any, ◌∈◌, elem-keep, any-witness, arith, ok,
}
use godj.Migrations.Keys.{MigrationKey, key_eq}
use godj.Migrations.Graph.{PlannerGraph, PlanStep, parents_of, children_of, app_roots}
use godj.Migrations.Graph.Closures.{Dependent}
use godj.Migrations.Graph.Shape.{IsWellFormed, IsAcyclic, Consistent, Run-Consistent}
use godj.Migrations.Planner.{named_target, zero_target, plan_target}
use godj.Migrations.Planner.Soundness.{
  plan_backward_each_lem, plan_target_named, plan_target_applied,
}

abbrev Keys : Type 0
Keys = List MigrationKey

module _ (g : PlannerGraph) (w : IsWellFormed g) (acyclic : IsAcyclic g) where
  open acyclic use {rank, descends}

  -- What depends on a key has a rank that is not smaller.
  Dependent-rank : {seed key : MigrationKey} → Dependent g seed key → rank seed ≤ rank key
  Dependent-rank Dependent.itself = omega arith
  Dependent-rank (Dependent.dependent {key} next d e) =
      let lower = descends next key (ground (arith, w.transposed key next)) in
      let below = Dependent-rank d in omega arith

  -- On a well-formed acyclic graph, a plan for a named target leaves it applied, whether it was
  -- applied before or not.
  pub plan_target-applies :
      (key : MigrationKey) (applied : Keys) (steps : List PlanStep) (after : Keys)
      → plan_target g (named_target key) applied ≡ ok (steps, after)
      → key ∈ after
  plan_target-applies key applied steps after h = elim (Bool-cases (elem key applied)) [
    | inr new ↦ (plan_target_named g key applied steps after [] new h).reached
    | inl old ↦
        let r = plan_target_applied g key applied steps after [] old h in
        elim (Bool-cases (elem key after)) [
          | inl held ↦ held
          | inr gone ↦
              let (seed, m, d) = r.lost key old gone in
              let edge : key ∈ parents_of g seed = ground (
                arith,
                w.transposed key seed,
                elem-keep (λ child. child.app == key.app) seed (children_of g key),
              ) in
              let lower = descends seed key edge in
              let below = Dependent-rank d in absurd (omega arith)
        ]
  ]

  -- A key of an app that is applied has, in a consistent history, an applied root of that app.
  applied_root :
      (fuel : ℕ) (app : GoString) (key : MigrationKey) (applied : Keys)
      → rank key < fuel
      → Consistent g applied
      → key ∈ g.nodes
      → key ∈ applied
      → key.app ≡ app
      → (root : MigrationKey) × (root ∈ app_roots g app) × (root ∈ applied)
  unfolding app_roots
  applied_root zero app key applied low c node held same = absurd (omega arith)
  applied_root (suc fuel) app key applied low c node held same =
      let parents = parents_of g key in
      elim (Bool-cases (any (λ parent. parent.app == app) parents)) [
        | inr top ↦ (
          key,
          ground (
            arith,
            elem-keep
                (λ n. n.app == app && not (any (λ parent. parent.app == app) (parents_of g n))) key
                g.nodes,
            ==_iff key.app app,
          ),
          held,
        )
        | inl inner ↦
            let (parent, m, in_app) = any-witness (λ p. p.app == app) parents inner in
            let lower = descends key parent m in
            applied_root fuel app parent applied (omega arith) c (w.known key parent m)
              (c key parent node held m) ((==_iff parent.app app).0 in_app)
      ]

  -- On a well-formed acyclic graph with a consistent history, a plan for the zero target of an
  -- app leaves none of the app's migrations applied.
  pub plan_target-clears :
      (app : GoString) (applied : Keys) (steps : List PlanStep) (after : Keys)
      → Consistent g applied
      → plan_target g (zero_target app) applied ≡ ok (steps, after)
      → (key : MigrationKey) → key ∈ g.nodes
      → key.app ≡ app
      → elem key after ≡ false
  unfolding plan_target
  plan_target-clears app applied steps after c h key node same =
      let r = plan_backward_each_lem g (app_roots g app) applied steps after h in
      let c' = Run-Consistent g w steps applied after r.run c in
      elim (Bool-cases (elem key after)) [
        | inr gone ↦ gone
        | inl held ↦
            let (root, m, applied_still) =
              applied_root (suc (rank key)) app key after (omega arith) c' node held same in
            absurd (ground (arith, r.removed root m))
      ]
