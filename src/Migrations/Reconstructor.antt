-- ===== src/Migrations/Reconstructor.antt =====
-- migrations/reconstructor.go: historical project states, by replaying the state transitions of the
-- migrations that a request names.
pub mod Projection
use godj.Base.{
  ℕ, ◌+◌, GoString, bytes, Bool, true, false, ◌||◌, not, List, [], ◌∷◌, ◌++◌, map, Option, none,
  some, ◌==◌, string_eq, if◌then◌else◌, elem, keep, is_nil, is_some, lookup, put, get_or, Outcome,
  ok, err, stuck, ◌>>=◌, ◌>>◌, fail_if,
}
use godj.Ir.Identifiers.{Unicode}
use godj.Migrations.Keys.{MigrationKey, key_eq, no_key}
use godj.Migrations.Errors.{
  Direction, direction_eq, ErrorCategory, ErrorCode, PlanningError, new_planning_error, Planned,
  Cause, MigrationError,
}
use godj.Migrations.Definitions.{
  BuiltIn, Operation, by_value, by_pointer, embedding, nil_operation, Migration, migration_key,
}
use godj.Migrations.Graph.{PlannerGraph, PlanStep, app_leaves}
use godj.Migrations.Planner.{
  AppliedState, applied_keys, no_applied, new_applied_state, named_target, validate_target, Planner,
  new_planner, graph_or_empty, check_history, plan,
}
use godj.Migrations.State.{ProjectState, empty_project_state, clone}
use godj.Migrations.Operations.{kind, app_of}
use godj.Migrations.Executor.{PreparedOperation, migration_error, invalid_state, preflight}

-- The zero value of a kind is no request.
pub data StateRequestKind : Type 0 where
  invalid empty latest before after applied_state : StateRequestKind

-- `targets` is none where the slice is nil.
pub record StateRequest : Type 0 where
  pub kind : StateRequestKind
  pub targets : Option (List MigrationKey)
  pub applied : AppliedState

abbrev pub empty_state_request : StateRequest
empty_state_request = record { kind = StateRequestKind.empty; targets = none; applied = no_applied }

abbrev pub latest_state_request : StateRequest
latest_state_request = record {
  kind = StateRequestKind.latest;
  targets = none;
  applied = no_applied;
}

abbrev pub target_state_request : StateRequestKind → MigrationKey → List MigrationKey → StateRequest
target_state_request kind first rest = record {
  kind = kind;
  targets = some (first ∷ rest);
  applied = no_applied;
}

-- The keys are copied into a map that is not nil.
abbrev pub applied_state_request : AppliedState → StateRequest
applied_state_request applied = record {
  kind = StateRequestKind.applied_state;
  targets = none;
  applied = record { keys = some (applied_keys applied.keys) };
}

pub data ReconstructionError : Type 0 where
  planning : PlanningError → ReconstructionError
  execution : MigrationError → ReconstructionError

-- With an error the program returns the empty state, or a zero value.
abbrev pub Reconstructed {ℓ} : Type ℓ → Type ℓ
Reconstructed A = Outcome ReconstructionError A

abbrev pub planned {ℓ} : {A : Type ℓ} → Planned A → Reconstructed A
planned (ok a) = ok a
planned (err e) = err (planning e)
planned stuck = stuck

abbrev pub executed {ℓ} : {A : Type ℓ} → Outcome MigrationError A → Reconstructed A
executed (ok a) = ok a
executed (err e) = err (execution e)
executed stuck = stuck

abbrev pub invalid_state_request : MigrationKey → PlanningError
invalid_state_request node =
    new_planning_error ErrorCategory.plan ErrorCode.invalid_target node no_key []

validate_named : List MigrationKey → Planned (Unit {0})
unfolding validate_target
validate_named [] = ok tt
validate_named (key ∷ rest) = do validate_target (named_target key); validate_named rest

validate_kind : StateRequestKind → StateRequest → Planned (List MigrationKey × AppliedState)
unfolding validate_named
validate_kind StateRequestKind.invalid request = err (invalid_state_request no_key)
validate_kind StateRequestKind.empty request = do
  fail_if (is_some request.targets || is_some request.applied.keys) (invalid_state_request no_key)
  ok ([], no_applied)
validate_kind StateRequestKind.latest request = do
  fail_if (is_some request.targets || is_some request.applied.keys) (invalid_state_request no_key)
  ok ([], no_applied)
validate_kind StateRequestKind.before request = do
  let targets = get_or [] request.targets
  fail_if (is_nil targets || is_some request.applied.keys) (invalid_state_request no_key)
  validate_named targets
  ok (targets, no_applied)
validate_kind StateRequestKind.after request = do
  let targets = get_or [] request.targets
  fail_if (is_nil targets || is_some request.applied.keys) (invalid_state_request no_key)
  validate_named targets
  ok (targets, no_applied)
validate_kind StateRequestKind.applied_state request = do
  fail_if (is_some request.targets || not (is_some request.applied.keys))
      (invalid_state_request no_key)
  applied ← new_applied_state (applied_keys request.applied.keys)
  ok ([], applied)

-- The targets and the applied state of a request that is well formed.
unfoldable pub validate_state_request : StateRequest → Planned (List MigrationKey × AppliedState)
unfolding validate_kind
validate_state_request request = validate_kind request.kind request

pub record StateReconstructor : Type 0 where
  pub planner : Planner
  pub definitions : List (MigrationKey × Migration)

abbrev pub bare_migration : MigrationKey → Migration
bare_migration key = record { app = key.app; name = key.name; dependencies = []; operations = [] }

-- The loop of `targetProjection` over one closure.
unfoldable pub merge_closure :
    List PlanStep
    → List MigrationKey
    → List PlanStep
    → Reconstructed (List MigrationKey × List PlanStep)
merge_closure [] seen steps = ok (seen, steps)
merge_closure (step ∷ rest) seen steps = do
  fail_if (not (step.direction == Direction.forward)) (
      execution
        (invalid_state step.direction (bare_migration step.key) none (bytes "") Cause.not_forward))
  let again = elem step.key seen
  if again
      then merge_closure rest seen steps
      else merge_closure rest (step.key ∷ seen) (steps ++ step ∷ [])

-- The union of the closures of the targets, in the order of the targets.
unfoldable pub merge_closures :
    Planner → List MigrationKey → List MigrationKey → List PlanStep → Reconstructed (List PlanStep)
merge_closures p [] seen steps = ok steps
merge_closures p (target ∷ rest) seen steps = do
  closure ← planned (plan p no_applied (named_target target ∷ []))
  (seen_now, steps_now) ← merge_closure closure seen steps
  merge_closures p rest seen_now steps_now

unfoldable pub target_projection : Planner → List MigrationKey → Reconstructed (List PlanStep)
target_projection p targets = merge_closures p targets [] []

unfoldable pub full_forward_projection : Planner → Reconstructed (List PlanStep)
full_forward_projection p = target_projection p (app_leaves (graph_or_empty p.graph))

unfoldable pub without_explicit_targets : List PlanStep → List MigrationKey → List PlanStep
without_explicit_targets steps targets = keep (λ step. not (elem step.key targets)) steps

unfoldable pub only_applied_steps : List PlanStep → AppliedState → List PlanStep
only_applied_steps steps applied = keep (λ step. elem step.key (applied_keys applied.keys)) steps

-- The steps that a request replays.
unfoldable pub project :
    Planner → StateRequestKind → List MigrationKey → AppliedState → Reconstructed (List PlanStep)
project p StateRequestKind.invalid targets applied = ok []
project p StateRequestKind.empty targets applied = ok []
project p StateRequestKind.latest targets applied = full_forward_projection p
project p StateRequestKind.before targets applied = do
  steps ← target_projection p targets
  ok (without_explicit_targets steps targets)
project p StateRequestKind.after targets applied = target_projection p targets
project p StateRequestKind.applied_state targets applied = do
  planned (check_history p applied)
  steps ← full_forward_projection p
  ok (only_applied_steps steps applied)

is_empty : StateRequestKind → Bool
is_empty StateRequestKind.empty = true
is_empty _ = false

module _ ⦃u : Unicode⦄ where
  -- The loop of `replay`.
  unfoldable pub replay_steps :
      List (MigrationKey × Migration) → List PlanStep → ProjectState → Reconstructed ProjectState
  replay_steps definitions [] state = ok (clone state)
  replay_steps definitions (step ∷ rest) state = elim (lookup step.key definitions) [
    | none ↦ err (
        execution (
          invalid_state Direction.forward (bare_migration step.key) none (bytes "")
            Cause.no_definition))
    | some migration ↦ do
      (_, next) ← executed (preflight state migration Direction.forward)
      replay_steps definitions rest next
  ]

  unfoldable pub reconstruct : StateReconstructor → StateRequest → Reconstructed ProjectState
  unfolding is_empty
  reconstruct r request = do
    (targets, applied) ← planned (validate_state_request request)
    if is_empty request.kind then ok empty_project_state else do
      steps ← project r.planner request.kind targets applied
      replay_steps r.definitions steps empty_project_state

invalid_operation : Migration → ℕ → GoString → Cause → ReconstructionError
invalid_operation migration index kind_name cause =
    execution (invalid_state Direction.forward migration (some index) kind_name cause)

-- A copy of an operation, with the built-in that it holds.
clone_built_in : Migration → ℕ → Operation → Reconstructed (Operation × BuiltIn)
unfolding invalid_operation
clone_built_in m index (by_value op) = ok (by_value op, op)
clone_built_in m index (by_pointer op) = ok (by_pointer op, op)
clone_built_in m index (embedding op) =
    err (invalid_operation m index (bytes "") Cause.operation_not_supported)
clone_built_in m index nil_operation =
    err (invalid_operation m index (bytes "") Cause.operation_is_nil)

unfoldable pub clone_operations : Migration → ℕ → List Operation → Reconstructed (List Operation)
unfolding clone_built_in invalid_operation
clone_operations m index [] = ok []
clone_operations m index (operation ∷ rest) = do
  (copy, op) ← clone_built_in m index operation
  fail_if (not (app_of op == m.app))
      (invalid_operation m index (kind op) (Cause.operation_app_mismatch (app_of op) m.app))
  copies ← clone_operations m (index + 1) rest
  ok (copy ∷ copies)

-- The definitions by key, the last one of a key.
unfoldable pub definitions_by_key :
    List Migration → List (MigrationKey × Migration) → List (MigrationKey × Migration)
definitions_by_key [] by_key = by_key
definitions_by_key (m ∷ rest) by_key = definitions_by_key rest (put (migration_key m) m by_key)

unfoldable pub clone_reconstructor_definitions :
    List MigrationKey
    → List (MigrationKey × Migration)
    → List (MigrationKey × Migration)
    → Reconstructed (List (MigrationKey × Migration))
clone_reconstructor_definitions [] by_key cloned = ok cloned
clone_reconstructor_definitions (key ∷ rest) by_key cloned = do
  let definition = get_or (bare_migration no_key) (lookup key by_key)
  operations ← clone_operations definition 0 definition.operations
  clone_reconstructor_definitions rest by_key
      (put key (record definition { operations = operations }) cloned)

unfoldable pub new_state_reconstructor : List Migration → Reconstructed StateReconstructor
new_state_reconstructor migrations = do
  planner ← planned (new_planner migrations)
  definitions ←
      clone_reconstructor_definitions (graph_or_empty planner.graph).nodes
        (definitions_by_key migrations []) []
  ok (record { planner = planner; definitions = definitions })
