-- ===== src/Migrations/Planner/Examples.antt =====
-- The planner on three small migrations: two of a blog, and one that they need.
use native.Mathlib.Decide.{ℕ_discrete}
use godj.Base.{
  ◌≡◌, refl, ◌↔◌, ◌⊎◌, err, true, false, List, [], ◌∷◌, some, bytes, GoString-discrete, ok, sort,
  keep, adjacent_duplicate, adjacent_duplicates, elem, lookup, put, any, all, find, insert, delete,
  is_nil, Subset, Nodup, string_less,
}
use godj.Migrations.Keys.{
  MigrationKey, MigrationKey-discrete, key_eq, sort_migration_keys, valid_migration_key,
  migration_key_less,
}
use godj.Migrations.Definitions.{Migration}
use godj.Migrations.Errors.{Direction, Direction-discrete, PlanningError}
use godj.Migrations.Graph.{
  PlannerGraph, PlanStep, parents_of, children_of, contains, app_roots, validate_applied_history,
  history_gap, has_self_loop, plan_forward, plan_backward,
}
use godj.Migrations.Graph.Shape.{IsWellFormed, IsAcyclic, Consistent, validate_applied_history_iff}
use godj.Migrations.Graph.Runs.{Run}
use godj.Migrations.Graph.Effects.{ForwardPlan, plan_forward_lem, BackwardPlan, plan_backward_lem}
use godj.Migrations.Graph.Progress.{plan_forward_total, plan_backward_total}
use godj.Migrations.Graph.Build.{new_planner_graph, reject_cycle, sort_dependency_edges}
use godj.Migrations.Graph.Build.Accepted.{new_planner_graph-IsWellFormed}
use godj.Migrations.Graph.Cycles.Exact.{reject_cycle_iff}
use godj.Migrations.Reconstructor.{target_projection, merge_closures, merge_closure}
use godj.Migrations.Reconstructor.Projection.{target_projection-Run}
use godj.Migrations.Planner.{
  new_applied_state, Planner, plan, AppliedState, named_target, zero_target, plan_target,
  plan_graph, validate_targets,
}
use godj.Migrations.Planner.Histories.{new_applied_state_iff}
use godj.Migrations.Planner.Soundness.{plan_graph-Run}
use godj.Migrations.Planner.Targets.{plan_target-applies, plan_target-clears}
use godj.Migrations.Planner.Totality.{
  accepted-IsAcyclic, new_planner_graph-IsAcyclic, plan_graph_total,
}

abbrev auth_1 : MigrationKey
auth_1 = record { app = bytes "auth"; name = bytes "0001" }

abbrev blog_1 : MigrationKey
blog_1 = record { app = bytes "blog"; name = bytes "0001" }

abbrev blog_2 : MigrationKey
blog_2 = record { app = bytes "blog"; name = bytes "0002" }

abbrev migration_of : MigrationKey → List MigrationKey → Migration
migration_of key dependencies = record {
  app = key.app;
  name = key.name;
  dependencies = dependencies;
  operations = [];
}

abbrev three_migrations : List Migration
three_migrations =
    migration_of blog_2 (blog_1 ∷ [])
    ∷ migration_of blog_1 (auth_1 ∷ [])
    ∷ migration_of auth_1 []
    ∷ []

abbrev graph : PlannerGraph
graph = record {
  nodes = auth_1 ∷ blog_1 ∷ blog_2 ∷ [];
  parents = (auth_1, []) ∷ (blog_1, auth_1 ∷ []) ∷ (blog_2, blog_1 ∷ []) ∷ [];
  children = (auth_1, blog_1 ∷ []) ∷ (blog_1, blog_2 ∷ []) ∷ [];
}

graph_of_project : new_planner_graph three_migrations ≡ ok graph
unfolding new_planner_graph ℕ_discrete GoString-discrete MigrationKey-discrete sort_migration_keys
    sort keep valid_migration_key adjacent_duplicate migration_key_less string_less
    adjacent_duplicates elem lookup parents_of put has_self_loop any insert delete is_nil
    sort_dependency_edges
graph_of_project = refl

graph-IsWellFormed : IsWellFormed graph
graph-IsWellFormed = new_planner_graph-IsWellFormed three_migrations graph graph_of_project

graph-IsAcyclic : IsAcyclic graph
graph-IsAcyclic = accepted-IsAcyclic three_migrations graph graph_of_project

abbrev forward : MigrationKey → PlanStep
forward key = record { key = key; direction = Direction.forward }

abbrev backward : MigrationKey → PlanStep
backward key = record { key = key; direction = Direction.backward }

-- The applied keys that the examples start from, and the plans.
abbrev some_applied : AppliedState
some_applied = record { keys = some (auth_1 ∷ []) }

abbrev every_key : List MigrationKey
every_key = blog_2 ∷ blog_1 ∷ auth_1 ∷ []

abbrev up : List PlanStep
up = forward blog_1 ∷ forward blog_2 ∷ []

abbrev down : List PlanStep
down = backward blog_2 ∷ backward blog_1 ∷ []

auth_1-fits : validate_applied_history graph (auth_1 ∷ []) ≡ ok tt
unfolding validate_applied_history ℕ_discrete GoString-discrete MigrationKey-discrete history_gap
    find elem parents_of lookup
auth_1-fits = refl

every_key-fits : validate_applied_history graph every_key ≡ ok tt
unfolding validate_applied_history ℕ_discrete GoString-discrete MigrationKey-discrete history_gap
    find elem parents_of lookup
every_key-fits = refl

blog_2-node : elem blog_2 graph.nodes ≡ true
unfolding ℕ_discrete GoString-discrete MigrationKey-discrete elem
blog_2-node = refl

up-valid : validate_targets (named_target blog_2 ∷ []) ≡ ok tt
unfolding validate_targets valid_migration_key is_nil
up-valid = refl

up-planned : plan_forward graph blog_2 (auth_1 ∷ []) ≡ ok (up, every_key)
unfolding plan_forward ℕ_discrete GoString-discrete MigrationKey-discrete elem parents_of lookup
    find all delete insert
up-planned = refl

up-target : plan_target graph (named_target blog_2) (auth_1 ∷ []) ≡ ok (up, every_key)
unfolding plan_target ℕ_discrete GoString-discrete MigrationKey-discrete contains lookup elem
    plan_forward parents_of find all delete insert
up-target = refl

up-graph : plan_graph graph some_applied (named_target blog_2 ∷ []) ≡ ok (up, every_key)
unfolding plan_graph ℕ_discrete GoString-discrete MigrationKey-discrete validate_targets
    valid_migration_key validate_applied_history elem find parents_of lookup contains plan_forward
    all delete insert
up-graph = refl

down-planned : plan_backward graph blog_1 every_key ≡ ok (down, auth_1 ∷ [])
unfolding plan_backward ℕ_discrete GoString-discrete MigrationKey-discrete elem children_of lookup
    insert find any delete
down-planned = refl

down-target : plan_target graph (zero_target (bytes "blog")) every_key ≡ ok (down, auth_1 ∷ [])
unfolding plan_target ℕ_discrete GoString-discrete MigrationKey-discrete app_roots keep parents_of
    lookup plan_backward elem children_of insert find any delete
down-target = refl

auth_1-Consistent : Consistent graph (auth_1 ∷ [])
auth_1-Consistent = (validate_applied_history_iff graph (auth_1 ∷ [])).0 auth_1-fits

every_key-Consistent : Consistent graph every_key
every_key-Consistent = (validate_applied_history_iff graph every_key).0 every_key-fits

new_planner_graph-IsAcyclic_example :
    ((g : PlannerGraph) × (new_planner_graph three_migrations ≡ ok g) × IsAcyclic g)
    ⊎ ((e : PlanningError) × (new_planner_graph three_migrations ≡ err e))
new_planner_graph-IsAcyclic_example = new_planner_graph-IsAcyclic three_migrations

reject_cycle_iff_example : (reject_cycle graph ≡ ok tt) ↔ IsAcyclic graph
reject_cycle_iff_example = reject_cycle_iff graph graph-IsWellFormed

new_planner_graph-IsWellFormed_example : IsWellFormed graph
new_planner_graph-IsWellFormed_example =
    new_planner_graph-IsWellFormed three_migrations graph graph_of_project

plan_graph_total_example :
    (steps : List PlanStep) × (after : List MigrationKey) × (plan_graph graph some_applied
        (named_target blog_2 ∷ [])
      ≡ ok (steps, after))
plan_graph_total_example =
    plan_graph_total graph graph-IsWellFormed graph-IsAcyclic some_applied
      (named_target blog_2 ∷ []) up-valid (λ _. blog_2-node, tt) auth_1-Consistent

plan_graph-Run_example :
    Run graph (auth_1 ∷ []) up every_key
    × Consistent graph (auth_1 ∷ [])
    × Consistent graph every_key
plan_graph-Run_example =
    plan_graph-Run graph some_applied (named_target blog_2 ∷ []) up every_key graph-IsWellFormed
      up-graph

plan_target-applies_example : elem blog_2 every_key ≡ true
plan_target-applies_example =
    plan_target-applies graph graph-IsWellFormed graph-IsAcyclic blog_2 (auth_1 ∷ []) up every_key
      up-target

plan_target-clears_example : elem blog_2 (auth_1 ∷ []) ≡ false
plan_target-clears_example =
    plan_target-clears graph graph-IsWellFormed graph-IsAcyclic (bytes "blog") every_key down
      (auth_1 ∷ []) every_key-Consistent down-target blog_2 blog_2-node refl

plan_forward_lem_example : ForwardPlan graph blog_2 (auth_1 ∷ []) up every_key
plan_forward_lem_example = plan_forward_lem graph blog_2 (auth_1 ∷ []) up every_key up-planned

plan_backward_lem_example : BackwardPlan graph blog_1 every_key down (auth_1 ∷ [])
plan_backward_lem_example = plan_backward_lem graph blog_1 every_key down (auth_1 ∷ []) down-planned

plan_forward_total_example :
    (steps : List PlanStep) × (after : List MigrationKey) × (plan_forward graph blog_2 (auth_1 ∷ [])
      ≡ ok (steps, after))
plan_forward_total_example =
    plan_forward_total graph graph-IsWellFormed graph-IsAcyclic blog_2 (auth_1 ∷ []) blog_2-node

plan_backward_total_example :
    (steps : List PlanStep) × (after : List MigrationKey) × (plan_backward graph blog_2 every_key
      ≡ ok (steps, after))
plan_backward_total_example =
    plan_backward_total graph graph-IsWellFormed graph-IsAcyclic blog_2 every_key blog_2-node

validate_applied_history_iff_example :
    (validate_applied_history graph every_key ≡ ok tt) ↔ Consistent graph every_key
validate_applied_history_iff_example = validate_applied_history_iff graph every_key

abbrev planner : Planner
planner = record { graph = some graph }

closures :
    target_projection planner (blog_2 ∷ auth_1 ∷ [])
    ≡ ok (forward auth_1 ∷ forward blog_1 ∷ forward blog_2 ∷ [])
unfolding target_projection ℕ_discrete GoString-discrete MigrationKey-discrete Direction-discrete
    merge_closures plan validate_targets valid_migration_key validate_applied_history elem contains
    lookup plan_forward parents_of find all delete insert merge_closure
closures = refl

target_projection-Run_example :
    (after : List MigrationKey) × Run graph []
      (forward auth_1 ∷ forward blog_1 ∷ forward blog_2 ∷ [])
      after
    × Subset (blog_2 ∷ auth_1 ∷ []) after
target_projection-Run_example =
    target_projection-Run planner (blog_2 ∷ auth_1 ∷ [])
      (forward auth_1 ∷ forward blog_1 ∷ forward blog_2 ∷ []) closures

new_applied_state_iff_example :
    (new_applied_state (blog_1 ∷ auth_1 ∷ [])
      ≡ ok (record { keys = some (sort_migration_keys (blog_1 ∷ auth_1 ∷ [])) }))
    ↔ ((all valid_migration_key (blog_1 ∷ auth_1 ∷ []) ≡ true) × Nodup (blog_1 ∷ auth_1 ∷ []))
new_applied_state_iff_example = new_applied_state_iff (blog_1 ∷ auth_1 ∷ [])
