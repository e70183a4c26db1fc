-- ===== src/Migrations/Planner.antt =====
-- migrations/planner.go: applied states, targets and `Plan`.
pub mod Soundness
pub mod Totality
pub mod Targets
pub mod Histories
mod Examples
use godj.Base.{
  GoString, Bool, true, false, ◌&&◌, not, List, [], ◌∷◌, ◌++◌, Option, none, some, ◌==◌, string_eq,
  if◌then◌else◌, elem, find, keep, is_nil, adjacent_duplicate, Outcome, ok, err, stuck, ◌>>=◌, ◌>>◌,
  fail_if,
}
use godj.Migrations.Keys.{MigrationKey, key_eq, no_key, valid_migration_key, sort_migration_keys}
use godj.Migrations.Errors.{ErrorCategory, ErrorCode, PlanningError, new_planning_error, Planned}
use godj.Migrations.Definitions.{Migration}
use godj.Migrations.Graph.{
  PlannerGraph, empty_planner_graph, PlanStep, Steps, contains, children_of,
  validate_applied_history, plan_forward, plan_backward, app_roots,
}
use godj.Migrations.Graph.Build.{new_planner_graph}

-- `keys` is nil in the zero value. An iteration over the map meets the keys in this order.
pub record AppliedState : Type 0 where
  pub keys : Option (List MigrationKey)

abbrev pub applied_keys : Option (List MigrationKey) → List MigrationKey
applied_keys none = []
applied_keys (some keys) = keys

abbrev pub no_applied : AppliedState
no_applied = record { keys = none }

reject_invalid : Option MigrationKey → Planned (Unit {0})
reject_invalid none = ok tt
reject_invalid (some key) =
    err (new_planning_error ErrorCategory.history ErrorCode.invalid_applied_state key no_key [])

reject_duplicate : Option MigrationKey → Planned (Unit {0})
reject_duplicate none = ok tt
reject_duplicate (some key) =
    err (new_planning_error ErrorCategory.history ErrorCode.duplicate_applied key no_key [])

unfoldable pub new_applied_state : List MigrationKey → Planned AppliedState
unfolding reject_invalid reject_duplicate
new_applied_state keys = do
  let ordered = sort_migration_keys keys
  reject_invalid (find (λ key. not (valid_migration_key key)) ordered)
  reject_duplicate (adjacent_duplicate ordered)
  ok (record { keys = some ordered })

-- The zero value of a kind is no target.
pub data TargetKind : Type 0 where
  invalid named zero : TargetKind

pub record Target : Type 0 where
  pub kind : TargetKind
  pub key : MigrationKey
  pub app : GoString

abbrev pub named_target : MigrationKey → Target
named_target key = record { kind = TargetKind.named; key = key; app = [] }

abbrev pub zero_target : GoString → Target
zero_target app = record { kind = TargetKind.zero; key = no_key; app = app }

-- The planner of the zero value has no graph.
pub record Planner : Type 0 where
  pub graph : Option PlannerGraph

unfoldable pub new_planner : List Migration → Planned Planner
unfolding new_planner_graph
new_planner migrations = do graph ← new_planner_graph migrations; ok (record { graph = some graph })

abbrev pub graph_or_empty : Option PlannerGraph → PlannerGraph
graph_or_empty none = empty_planner_graph
graph_or_empty (some g) = g

unfoldable pub check_history : Planner → AppliedState → Planned (Unit {0})
unfolding validate_applied_history
check_history p applied =
    validate_applied_history (graph_or_empty p.graph) (applied_keys applied.keys)

abbrev pub invalid_target : MigrationKey → PlanningError
invalid_target node = new_planning_error ErrorCategory.plan ErrorCode.invalid_target node no_key []

validate_kind : TargetKind → Target → Planned (Unit {0})
unfolding is_nil
validate_kind TargetKind.named target =
    fail_if (not (valid_migration_key target.key && is_nil target.app)) (invalid_target target.key)
validate_kind TargetKind.zero target =
    fail_if (not (not (is_nil target.app) && target.key == no_key)) (invalid_target no_key)
validate_kind TargetKind.invalid target = err (invalid_target no_key)

unfoldable pub validate_target : Target → Planned (Unit {0})
unfolding validate_kind
validate_target target = validate_kind target.kind target

unfoldable pub validate_targets : List Target → Planned (Unit {0})
unfolding validate_target
validate_targets [] = ok tt
validate_targets (target ∷ rest) = do validate_target target; validate_targets rest

abbrev pub append_steps : Steps → Planned Steps → Planned Steps
append_steps (steps, _) (ok (more, after)) = ok (steps ++ more, after)
append_steps _ (err e) = err e
append_steps _ stuck = stuck

module _ (g : PlannerGraph) where
  -- The loops of `Plan` that plan one seed after another.
  unfoldable pub plan_backward_each : List MigrationKey → List MigrationKey → Planned Steps
  plan_backward_each [] working = ok ([], working)
  plan_backward_each (seed ∷ rest) working = do
    (steps, after) ← plan_backward g seed working
    append_steps (steps, after) (plan_backward_each rest after)

  -- The children of a target in its own app.
  abbrev pub same_app_children : MigrationKey → List MigrationKey
  same_app_children key = keep (λ child. child.app == key.app) (children_of g key)

  -- One round of the loop over the targets.
  unfoldable pub plan_target : Target → List MigrationKey → Planned Steps
  unfolding plan_backward_each
  plan_target target working = elim target.kind [
    | TargetKind.named ↦
        if not (contains g target.key)
        then err
            (new_planning_error ErrorCategory.plan ErrorCode.target_not_found target.key no_key [])
        else if not (elem target.key working)
        then plan_forward g target.key working
        else plan_backward_each (same_app_children target.key) working
    | TargetKind.zero ↦ plan_backward_each (app_roots g target.app) working
    | TargetKind.invalid ↦ ok ([], working)
  ]

  unfoldable pub plan_targets : List Target → List MigrationKey → Planned Steps
  unfolding plan_target
  plan_targets [] working = ok ([], working)
  plan_targets (target ∷ rest) working = do
    (steps, after) ← plan_target target working
    append_steps (steps, after) (plan_targets rest after)

  unfoldable pub plan_graph : AppliedState → List Target → Planned Steps
  unfolding plan_targets
  plan_graph applied targets = do
    validate_targets targets
    validate_applied_history g (applied_keys applied.keys)
    plan_targets targets (applied_keys applied.keys)

-- The steps of the plan. `plan_graph` also gives the applied keys that the plan leads to.
unfoldable pub plan : Planner → AppliedState → List Target → Planned (List PlanStep)
unfolding plan_graph
plan p applied targets = do
  (steps, _) ← plan_graph (graph_or_empty p.graph) applied targets
  ok steps
