-- ===== src/Migrations/Executor/Plans.antt =====
-- migrations/execution.go: a plan of one direction, one transaction for each step.
use godj.Base.{
  ℕ, ◌+◌, bytes, Bool, true, false, ◌&&◌, not, List, [], ◌∷◌, none, some, ◌==◌, elem, is_nil,
  is_some, lookup, put, get_or, map, Outcome, ok, err, stuck, ◌>>=◌, ◌>>◌, fail_if,
}
use godj.Ir.Identifiers.{Unicode}
use godj.Migrations.Keys.{MigrationKey, key_eq, no_key, valid_migration_key}
use godj.Migrations.Errors.{
  Direction, direction_eq, ErrorCategory, ErrorCode, Cause, MigrationError,
}
use godj.Migrations.Definitions.{
  Operation, by_value, by_pointer, embedding, nil_operation, Migration, migration_key,
}
use godj.Migrations.State.{ProjectState, clone}
use godj.Migrations.Graph.{PlanStep}
use godj.Migrations.Executor.{
  Environment, poll, Trace, Execution, migration_error, preflight, execute, stop,
}

abbrev pub key_migration : MigrationKey → Migration
key_migration key = record { app = key.app; name = key.name; dependencies = []; operations = [] }

abbrev pub execution_plan_error : ErrorCode → PlanStep → Cause → MigrationError
execution_plan_error code step cause =
    migration_error ErrorCategory.execution code step.direction (key_migration step.key) none
      (bytes "") cause

abbrev pub execution_context_error : PlanStep → Cause → MigrationError
execution_context_error = execution_plan_error ErrorCode.operation_failed

abbrev pub no_direction : Direction
no_direction = Direction.other []

-- `PlanStep{Key: key}`
abbrev pub bare_step : MigrationKey → PlanStep
bare_step key = record { key = key; direction = no_direction }

-- A copy of an operation. What a pointer points to is copied into a value.
unfoldable pub clone_migration_operation : Operation → Operation
clone_migration_operation (by_value op) = by_value op
clone_migration_operation (by_pointer op) = by_value op
clone_migration_operation (embedding op) = embedding op
clone_migration_operation nil_operation = nil_operation

unfoldable pub clone_migration_definition : Migration → Migration
unfolding clone_migration_operation
clone_migration_definition m = record m { operations = map clone_migration_operation m.operations }

abbrev pub Definitions : Type 0
Definitions = List (MigrationKey × Migration)

-- The first loop of `preflightPlan`: the definitions by key.
unfoldable pub index_definitions :
    ℕ → List Migration → Definitions → Outcome MigrationError Definitions
index_definitions index [] by_key = ok by_key
index_definitions index (m ∷ rest) by_key = do
  let key = migration_key m
  fail_if (not (valid_migration_key key)) (
      execution_plan_error ErrorCode.invalid_execution_plan (bare_step key)
        (Cause.invalid_definition_key index))
  fail_if (is_some (lookup key by_key)) (
      execution_plan_error ErrorCode.invalid_execution_plan (bare_step key)
        (Cause.duplicate_definition index))
  index_definitions (index + 1) rest (put key m by_key)

is_direction : Direction → Bool
is_direction (Direction.other _) = false
is_direction _ = true

-- The second loop: keys, directions, repetitions and definitions of the steps.
unfoldable pub check_steps :
    Definitions
    → ℕ
    → List MigrationKey
    → Direction
    → List PlanStep
    → Outcome MigrationError (Unit {0})
unfolding is_direction
check_steps by_key index seen direction [] = ok tt
check_steps by_key index seen direction (step ∷ rest) = do
  let invalid = execution_plan_error ErrorCode.invalid_execution_plan step
  fail_if (not (valid_migration_key step.key)) (invalid (Cause.invalid_step_key index))
  fail_if (not (is_direction step.direction)) (invalid (Cause.invalid_step_direction index))
  fail_if (elem step.key seen) (invalid (Cause.duplicate_step index))
  fail_if (not (is_some (lookup step.key by_key))) (invalid (Cause.undefined_step index))
  fail_if (not (direction == no_direction) && not (step.direction == direction))
      (execution_plan_error ErrorCode.mixed_directions step (Cause.mixed_step_direction index))
  check_steps by_key (index + 1) (step.key ∷ seen) step.direction rest

pub record PreparedStep : Type 0 where
  pub step : PlanStep
  pub migration : Migration
  pub after : ProjectState

-- The value of the map at a key: the zero migration where it is missing.
abbrev pub definition_at : MigrationKey → Definitions → Migration
definition_at key by_key = get_or (key_migration no_key) (lookup key by_key)

-- `Apply` for a forward step, `Unapply` for every other one.
unfoldable pub run_direction : Direction → Direction
run_direction Direction.forward = Direction.forward
run_direction _ = Direction.backward

-- An error, with a copy of the state before the step.
abbrev pub stopped : Environment → ProjectState → MigrationError → Trace → Execution
stopped env working e trace = ok (stop env (clone working) e trace)

module _ ⦃u : Unicode⦄ (env : Environment) where
  -- The third loop: every state on the way. Each step looks at the context first.
  unfoldable pub prepare_steps :
      Definitions
      → ProjectState
      → List PlanStep
      → Trace
      → Outcome MigrationError (List PreparedStep) × Trace
  prepare_steps by_key working [] trace = (ok [], trace)
  prepare_steps by_key working (step ∷ rest) trace =
      let migration = definition_at step.key by_key in
      elim (env.context_error trace) [
        | some cause ↦ (err (execution_context_error step cause), poll ∷ trace)
        | none ↦ elim (preflight working migration step.direction) [
          | err e ↦ (err e, poll ∷ trace)
          | stuck ↦ (stuck, poll ∷ trace)
          | ok (_, after) ↦
              let (prepared, last) = prepare_steps by_key after rest (poll ∷ trace) in
              (
                do
                  steps ← prepared
                  ok (record { step = step; migration = migration; after = clone after } ∷ steps),
                last,
              )
        ]
      ]

  unfoldable pub preflight_plan :
      ProjectState
      → List Migration
      → List PlanStep
      → Trace
      → Outcome MigrationError (List PreparedStep) × Trace
  preflight_plan before definitions plan trace = elim (index_definitions 0 definitions []) [
    | err e ↦ (err e, trace)
    | stuck ↦ (stuck, trace)
    | ok by_key ↦ elim (check_steps by_key 0 [] no_direction plan) [
      | err e ↦ (err e, trace)
      | stuck ↦ (stuck, trace)
      | ok _ ↦ prepare_steps by_key (clone before) plan trace
    ]
  ]

  -- The loop over the prepared steps.
  unfoldable pub execute_steps : ProjectState → List PreparedStep → Trace → Execution
  execute_steps working [] trace =
      ok (record { state = clone working; error = none; trace = trace })
  execute_steps working (p ∷ rest) trace = elim (env.context_error trace) [
    | some cause ↦ stopped env working (execution_context_error p.step cause) (poll ∷ trace)
    | none ↦ do
      r ← execute env working p.migration (run_direction p.step.direction) (poll ∷ trace)
      elim r.error [
        | some e ↦ stopped env working e r.trace
        | none ↦ execute_steps (clone p.after) rest r.trace
      ]
  ]

  unfoldable pub execute_plan : ProjectState → List Migration → List PlanStep → Trace → Execution
  execute_plan before definitions plan trace = elim env.context_is_nil [
    | true ↦
        stopped env before (execution_context_error (bare_step no_key) Cause.context_is_nil) trace
    | false ↦ elim (env.context_error trace) [
      | some cause ↦
          stopped env before (execution_context_error (bare_step no_key) cause) (poll ∷ trace)
      | none ↦ elim (is_nil plan) [
        | true ↦ ok (record { state = clone before; error = none; trace = poll ∷ trace })
        | false ↦
            let (prepared, at) =
              preflight_plan before (map clone_migration_definition definitions) plan
                (poll ∷ trace) in
            elim prepared [
              | err e ↦ stopped env before e at
              | stuck ↦ stuck
              | ok steps ↦ execute_steps (clone before) steps at
            ]
      ]
    ]
  ]
