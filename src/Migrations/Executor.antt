-- ===== src/Migrations/Executor.antt =====
-- migrations/executor.go: one migration in one transaction. The database and the context are not part
-- of the package: what they answer is a function of everything that happened before.
pub mod Plans
pub mod Transactions
pub mod Atomic
pub mod Progress
pub mod Preparation
pub mod Replay
mod Examples
use godj.Base.{
  ℕ, zero, suc, ◌-◌, GoString, bytes, Bool, true, false, not, List, [], ◌∷◌, ◌++◌, Option, none,
  some, ◌==◌, string_eq, if◌then◌else◌, is_nil, length, Outcome, ok, err, stuck, ◌>>=◌, ◌>>◌,
  fail_if,
}
use godj.Ir.Identifiers.{Unicode}
use godj.Migrations.Errors.{
  Direction, ErrorCategory, ErrorCode, Cause, is_capability_error, MigrationError,
}
use godj.Migrations.Definitions.{BuiltIn, Operation, Migration}
use godj.Migrations.State.{ProjectState, Stated, clone, validate}
use godj.Migrations.Operations.{
  Intent, makes, fails, kind, app_of, built_in, state_forward, state_backward, Call, create_table,
  delete_table, add_column, remove_column, record_applied, record_unapplied, commit, rollback,
  database_forward, database_backward,
}

-- A poll of `ctx.Err()`, the begin of a transaction, or a call of one.
pub data Event : Type 0 where
  poll begin_migration : Event
  called : Call → Event

-- The latest event stands first.
abbrev pub Trace : Type 0
Trace = List Event

pub data Begun : Type 0 where
  started no_transaction : Begun
  refused : Cause → Begun

-- What the outside answers, given the events so far: an error, or none.
pub record Environment : Type 0 where
  pub context_is_nil : Bool
  pub backend_is_nil : Bool
  pub context_error : Trace → Option Cause
  pub begin : Trace → Begun
  pub answer : Trace → Call → Option Cause

pub record PreparedOperation : Type 0 where
  pub index : ℕ
  pub op : BuiltIn
  pub from : ProjectState
  pub to : ProjectState

abbrev pub migration_error :
    ErrorCategory → ErrorCode → Direction → Migration → Option ℕ → GoString → Cause → MigrationError
migration_error category code direction migration index operation cause = record {
  category = category;
  code = code;
  direction = direction;
  app = migration.app;
  migration = migration.name;
  operation_index = index;
  operation = operation;
  cause = cause;
  rollback_cause = none;
}

abbrev pub invalid_state : Direction → Migration → Option ℕ → GoString → Cause → MigrationError
invalid_state = migration_error ErrorCategory.state ErrorCode.invalid_state

-- 0, 1, …, or the other way round.
upward : ℕ → ℕ → List ℕ
upward start zero = []
upward start (suc n) = start ∷ upward (suc start) n

downward : ℕ → List ℕ
downward zero = []
downward (suc n) = n ∷ downward n

unfoldable pub operation_indices : ℕ → Direction → List ℕ
unfolding upward downward
operation_indices n Direction.forward = upward 0 n
operation_indices n _ = downward n

unfoldable pub operation_at : List Operation → ℕ → Operation
operation_at [] index = Operation.nil_operation
operation_at (op ∷ ops) zero = op
operation_at (op ∷ ops) (suc index) = operation_at ops index

-- An error of an operation's method on the state, as `preflight` reports it.
abbrev pub at_operation {ℓ} : {A : Type ℓ} → MigrationError → Stated A → Outcome MigrationError A
at_operation e (ok a) = ok a
at_operation e (err cause) = err (record e { cause = cause })
at_operation e stuck = stuck

module _ ⦃u : Unicode⦄ where
  unfoldable pub state_step : Direction → BuiltIn → ProjectState → Stated ProjectState
  unfolding state_forward state_backward
  state_step Direction.forward op = state_forward op
  state_step _ op = state_backward op

  -- The loop of `preflight` over the indices.
  unfoldable pub preflight_operations :
      Migration
      → Direction
      → List ℕ
      → ProjectState
      → Outcome MigrationError (List PreparedOperation × ProjectState)
  unfolding state_step operation_at built_in kind app_of
  preflight_operations migration direction [] state = ok ([], clone state)
  preflight_operations migration direction (index ∷ rest) state =
      elim (built_in (operation_at migration.operations index)) [
        | none ↦
            err (invalid_state direction migration (some index) (bytes "") Cause.operation_is_nil)
        | some op ↦ do
          let wrong = Cause.operation_app_mismatch (app_of op) migration.app
          let failed = invalid_state direction migration (some index) (kind op) wrong
          fail_if (not (app_of op == migration.app)) failed
          let from = clone state
          next ← at_operation failed (state_step direction op from)
          (prepared, last) ← preflight_operations migration direction rest next
          ok (record { index = index; op = op; from = from; to = clone next } ∷ prepared, last)
      ]

  unfoldable pub preflight :
      ProjectState
      → Migration
      → Direction
      → Outcome MigrationError (List PreparedOperation × ProjectState)
  unfolding validate preflight_operations operation_indices is_nil
  preflight before migration direction = do
    at_operation (invalid_state direction migration none (bytes "") Cause.app_is_empty)
        (validate before)
    fail_if (is_nil migration.app)
        (invalid_state direction migration none (bytes "") Cause.app_is_empty)
    fail_if (is_nil migration.name)
        (invalid_state direction migration none (bytes "") Cause.name_is_empty)
    preflight_operations migration direction
        (operation_indices (length migration.operations) direction) (clone before)

-- `operationErrorClass`
unfoldable pub operation_error : Direction → Migration → ℕ → GoString → Cause → MigrationError
unfolding is_capability_error
operation_error direction migration index operation cause =
    if is_capability_error cause
    then migration_error ErrorCategory.capability ErrorCode.unsupported_operation direction
        migration (some index) operation cause
    else migration_error ErrorCategory.execution ErrorCode.operation_failed direction migration
        (some index) operation cause

unfoldable pub database_step : Direction → PreparedOperation → Intent
unfolding database_forward database_backward
database_step Direction.forward p = database_forward p.op p.from p.to
database_step _ p = database_backward p.op p.from p.to

unfoldable pub record_call : Direction → Migration → Call
record_call Direction.forward migration = record_applied migration.app migration.name
record_call _ migration = record_unapplied migration.app migration.name

-- The state that the caller gets, with the error if there is one.
pub record Executed : Type 0 where
  pub state : ProjectState
  pub error : Option MigrationError
  pub trace : Trace

-- `stuck` stands for a panic of the code before the transaction.
abbrev pub Execution : Type 0
Execution = Outcome ⊥ Executed

module _ (env : Environment) where
  abbrev pub stop : ProjectState → MigrationError → Trace → Executed
  stop before e trace = record { state = before; error = some e; trace = trace }

  -- `rollback`, which keeps the primary error.
  unfoldable pub roll_back : ProjectState → MigrationError → Trace → Executed
  roll_back before primary trace =
      stop before (record primary { rollback_cause = env.answer trace rollback })
        (called rollback ∷ trace)

  -- The loop over the prepared operations: the first error, or none.
  unfoldable pub run_operations :
      Direction → Migration → List PreparedOperation → Trace → Option MigrationError × Trace
  unfolding database_step operation_error
  run_operations direction migration [] trace = (none, trace)
  run_operations direction migration (p ∷ rest) trace = elim (database_step direction p) [
    | fails cause ↦ (some (operation_error direction migration p.index (kind p.op) cause), trace)
    | makes c ↦ elim (env.answer trace c) [
      | some cause ↦
          (some (operation_error direction migration p.index (kind p.op) cause), called c ∷ trace)
      | none ↦ run_operations direction migration rest (called c ∷ trace)
    ]
  ]

  module _ (before : ProjectState) (migration : Migration) (direction : Direction) where
    abbrev pub failure : ErrorCategory → ErrorCode → Cause → MigrationError
    failure category code cause =
        migration_error category code direction migration none (bytes "") cause

    -- The end of the transaction: the record, then the commit.
    unfoldable pub finish_transaction : ProjectState → Trace → Executed
    unfolding roll_back record_call
    finish_transaction after trace =
        let recorded = record_call direction migration in
        elim (env.answer trace recorded) [
          | some cause ↦
              roll_back before (failure ErrorCategory.recorder ErrorCode.record_failed cause)
                (called recorded ∷ trace)
          | none ↦ elim (env.answer (called recorded ∷ trace) commit) [
            | some cause ↦
                roll_back before (failure ErrorCategory.transaction ErrorCode.commit_failed cause)
                  (called commit ∷ called recorded ∷ trace)
            | none ↦ record {
              state = clone after;
              error = none;
              trace = called commit ∷ called recorded ∷ trace;
            }
          ]
        ]

    unfoldable pub run_transaction : List PreparedOperation → ProjectState → Trace → Executed
    unfolding run_operations finish_transaction
    run_transaction prepared after trace =
        let (failed, ran) = run_operations direction migration prepared trace in
        elim failed [
          | some primary ↦ roll_back before primary ran
          | none ↦ finish_transaction after ran
        ]

    -- From the second look at the context on.
    unfoldable pub begin_transaction : List PreparedOperation → ProjectState → Trace → Executed
    unfolding run_transaction
    begin_transaction prepared after trace = elim (env.context_error trace) [
      | some cause ↦
          stop before (failure ErrorCategory.execution ErrorCode.operation_failed cause)
            (poll ∷ trace)
      | none ↦ elim env.backend_is_nil [
        | true ↦
            stop before
              (failure ErrorCategory.transaction ErrorCode.begin_failed Cause.backend_is_nil)
              (poll ∷ trace)
        | false ↦ elim (env.begin (poll ∷ trace)) [
          | refused cause ↦
              stop before (failure ErrorCategory.transaction ErrorCode.begin_failed cause)
                (begin_migration ∷ poll ∷ trace)
          | no_transaction ↦
              stop before
                (failure ErrorCategory.transaction ErrorCode.begin_failed Cause.transaction_is_nil)
                (begin_migration ∷ poll ∷ trace)
          | started ↦ run_transaction prepared after (begin_migration ∷ poll ∷ trace)
        ]
      ]
    ]

module _ ⦃u : Unicode⦄ (env : Environment) where
  -- `Executor.execute`, on a snapshot of the caller's state.
  unfoldable pub execute : ProjectState → Migration → Direction → Trace → Execution
  execute before migration direction trace =
      let same = clone before in
      let unusable =
        failure env same migration direction ErrorCategory.execution ErrorCode.operation_failed in
      elim env.context_is_nil [
        | true ↦ ok (stop env same (unusable Cause.context_is_nil) trace)
        | false ↦ elim (env.context_error trace) [
          | some cause ↦ ok (stop env same (unusable cause) (poll ∷ trace))
          | none ↦ elim (preflight before migration direction) [
            | err e ↦ ok (stop env same e (poll ∷ trace))
            | stuck ↦ stuck
            | ok (prepared, after) ↦
                ok (begin_transaction env same migration direction prepared after (poll ∷ trace))
          ]
        ]
      ]

  -- `Apply` and `Unapply`.
  abbrev pub apply : ProjectState → Migration → Trace → Execution
  apply before migration = execute before migration Direction.forward

  abbrev pub unapply : ProjectState → Migration → Trace → Execution
  unapply before migration = execute before migration Direction.backward
