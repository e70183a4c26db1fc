-- ===== src/Migrations/Planner/Totality.antt =====
-- Planning over a graph that the planner has accepted always gives a plan, unless the targets or the
-- applied history are at fault.
use godj.Base.{
  ◌≡◌, refl, ◌&&◌, not, List, [], ◌∷◌, ◌++◌, inl, inr, ◌==◌, GoString, string_eq, Bool-cases, elem,
  any, ◌∈◌, Subset, elem-keep, elem-head, elem-tail, All, arith, ok, err, ◌⊎◌, Outcome-cases,
}
use godj.Migrations.Keys.{MigrationKey, key_eq}
use godj.Migrations.Definitions.{Migration}
use godj.Migrations.Graph.{PlannerGraph, PlanStep, parents_of, children_of, app_roots}
use godj.Migrations.Graph.Shape.{IsWellFormed, IsAcyclic, Consistent, validate_applied_history_iff}
use godj.Migrations.Graph.Progress.{plan_forward_total, plan_backward_total}
use godj.Migrations.Graph.Build.{new_planner_graph}
use godj.Migrations.Graph.Build.Accepted.{new_planner_graph-Accepts, new_planner_graph-IsWellFormed}
use godj.Migrations.Graph.Build.Total.{new_planner_graph-ne-stuck}
use godj.Migrations.Errors.{PlanningError}
use godj.Migrations.Graph.Cycles.Recorded.{reject_cycle-IsAcyclic}
use godj.Migrations.Planner.{
  AppliedState, applied_keys, Target, TargetKind, plan_backward_each, same_app_children,
  plan_target, plan_targets, plan_graph, validate_targets,
}

abbrev Keys : Type 0
Keys = List MigrationKey

-- Every graph that `newPlannerGraph` returns is acyclic.
pub accepted-IsAcyclic :
    (ms : List Migration) (g : PlannerGraph) → new_planner_graph ms ≡ ok g → IsAcyclic g
accepted-IsAcyclic ms g h =
    reject_cycle-IsAcyclic g (new_planner_graph-IsWellFormed ms g h)
      (new_planner_graph-Accepts ms g h).no_cycle

-- `newPlannerGraph` gives for every list of migrations a graph or an error: its search for
-- components always ends with a result. A graph that it gives is acyclic, so the search has missed
-- no cycle.
pub new_planner_graph-IsAcyclic :
    (ms : List Migration)
    → ((g : PlannerGraph) × (new_planner_graph ms ≡ ok g) × IsAcyclic g)
      ⊎ ((e : PlanningError) × (new_planner_graph ms ≡ err e))
new_planner_graph-IsAcyclic ms = elim (Outcome-cases (new_planner_graph ms)) [
  | inl (g, h) ↦ inl (g, h, accepted-IsAcyclic ms g h)
  | inr (inl rejected) ↦ inr rejected
  | inr (inr lost) ↦ absurd (new_planner_graph-ne-stuck ms lost)
]

module _ (g : PlannerGraph) (w : IsWellFormed g) (acyclic : IsAcyclic g) where
  plan_backward_each_total :
      (seeds applied : Keys)
      → Subset seeds g.nodes
      → (steps : List PlanStep) × (after : Keys) × (plan_backward_each g seeds applied
          ≡ ok (steps, after))
  unfolding plan_backward_each
  plan_backward_each_total [] applied known = ([], applied, refl)
  plan_backward_each_total (seed ∷ seeds) applied known =
      let (first, middle, e) =
        plan_backward_total g w acyclic seed applied (known seed (elem-head seed seeds)) in
      let (rest, after, f) =
        plan_backward_each_total seeds middle (λ k m. known k (elem-tail k seed seeds m)) in
      (first ++ rest, after, rw (plan_backward_each, e, f))

  -- A target that the planner can plan: a named one is a node.
  abbrev pub IsKnown : Target → Type 0
  IsKnown target = target.kind ≡ TargetKind.named → target.key ∈ g.nodes

  plan_target_total :
      (kind : TargetKind) (key : MigrationKey) (app : GoString) (applied : Keys)
      → (kind ≡ TargetKind.named → key ∈ g.nodes)
      → (steps : List PlanStep) × (after : Keys) × (plan_target g
            (record { kind = kind; key = key; app = app })
            applied
          ≡ ok (steps, after))
  unfolding plan_target
  plan_target_total TargetKind.named key app applied known =
      let contained = w.contained key in
      let node = known refl in
      elim (Bool-cases (elem key applied)) [
        | inl old ↦
            let (steps, after, e) =
              plan_backward_each_total (same_app_children g key) applied (λ c m. w.source c key (
                ground (
                  arith,
                  w.transposed key c,
                  elem-keep (λ child. child.app == key.app) c (children_of g key),
                ))) in
            (steps, after, rw (plan_target, contained, node, old) e)
        | inr new ↦
            let (steps, after, e) = plan_forward_total g w acyclic key applied node in
            (steps, after, rw (plan_target, contained, node, new) e)
      ]
  plan_target_total TargetKind.zero key app applied known =
      plan_backward_each_total (app_roots g app) applied (λ k m.
        unfold app_roots in
        ground (
          arith,
          elem-keep (λ n. n.app == app && not (any (λ parent. parent.app == app) (parents_of g n)))
              k g.nodes,
        ))
  plan_target_total TargetKind.invalid key app applied known = ([], applied, refl)

  plan_targets_total :
      (targets : List Target) (applied : Keys)
      → All IsKnown targets
      → (steps : List PlanStep) × (after : Keys) × (plan_targets g targets applied
          ≡ ok (steps, after))
  unfolding plan_targets
  plan_targets_total [] applied known = ([], applied, refl)
  plan_targets_total (target ∷ targets) applied known =
      let (first, middle, e) =
        plan_target_total target.kind target.key target.app applied known.0 in
      let (rest, after, f) = plan_targets_total targets middle known.1 in
      (first ++ rest, after, rw (plan_targets, e, f))

  -- On a well-formed acyclic graph, valid targets whose named keys are nodes always have a plan,
  -- over any applied keys that are consistent with the graph.
  pub plan_graph_total :
      (applied : AppliedState) (targets : List Target)
      → validate_targets targets ≡ ok tt
      → All IsKnown targets
      → Consistent g (applied_keys applied.keys)
      → (steps : List PlanStep) × (after : Keys) × (plan_graph g applied targets
          ≡ ok (steps, after))
  unfolding plan_graph
  plan_graph_total applied targets valid known consistent =
      let (steps, after, e) = plan_targets_total targets (applied_keys applied.keys) known in
      let fits = (validate_applied_history_iff g (applied_keys applied.keys)).1 consistent in
      (steps, after, rw (plan_graph, valid, fits, e))
