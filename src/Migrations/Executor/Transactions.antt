-- ===== src/Migrations/Executor/Transactions.antt =====
-- executor.go of migrations: the events of one transaction. Each relation tells what the outside
-- answered on the way, from the trace before to the trace after.
use godj.Base.{◌≡◌, List, [], ◌∷◌, none, some, true, err}
use godj.Ir.Identifiers.{Unicode}
use godj.Migrations.Errors.{Direction, ErrorCategory, ErrorCode, Cause, MigrationError}
use godj.Migrations.Definitions.{Migration}
use godj.Migrations.State.{ProjectState, clone}
use godj.Migrations.Operations.{makes, fails, kind, Call, commit, rollback}
use godj.Migrations.Executor.{
  poll, begin_migration, called, Trace, no_transaction, refused, Environment, PreparedOperation,
  database_step, operation_error, record_call, Executed, failure, preflight,
}

-- The trace at which the one transaction has begun.
abbrev pub begun : Trace → Trace
begun t = begin_migration ∷ poll ∷ poll ∷ t

module _ (env : Environment) (m : Migration) (direction : Direction) where
  abbrev pub reported : PreparedOperation → Cause → MigrationError
  reported p cause = operation_error direction m p.index (kind p.op) cause

  -- Every operation makes its call, in order and once, and the database accepts it.
  pub data Ran : List PreparedOperation → Trace → Trace → Type 0 where
    none_left : {t : Trace} → Ran [] t t
    ran :
        {p : PreparedOperation} {ps : List PreparedOperation} {t u : Trace} (c : Call)
        → database_step direction p ≡ makes c
        → env.answer t c ≡ none
        → Ran ps (called c ∷ t) u
        → Ran (p ∷ ps) t u

  -- An operation fails, after those before it were accepted and before those after it.
  pub data Stopped : List PreparedOperation → Trace → MigrationError → Trace → Type 0 where
    impossible :
        {p : PreparedOperation} {ps : List PreparedOperation} {t : Trace} (cause : Cause)
        → database_step direction p ≡ fails cause
        → Stopped (p ∷ ps) t (reported p cause) t
    rejected :
        {p : PreparedOperation} {ps : List PreparedOperation} {t : Trace} (c : Call) (cause : Cause)
        → database_step direction p ≡ makes c
        → env.answer t c ≡ some cause
        → Stopped (p ∷ ps) t (reported p cause) (called c ∷ t)
    later :
        {p : PreparedOperation} {ps : List PreparedOperation} {t u : Trace} {e : MigrationError}
        (c : Call)
        → database_step direction p ≡ makes c
        → env.answer t c ≡ none
        → Stopped ps (called c ∷ t) e u
        → Stopped (p ∷ ps) t e u

  module _ (before : ProjectState) where
    abbrev pub recorded : Call
    recorded = record_call direction m

    -- The work of a transaction fails: in an operation, in the record, or in the commit.
    pub data Failed (ps : List PreparedOperation) (t : Trace)
        : MigrationError → Trace → Type 0 where
      in_operation : {e : MigrationError} {u : Trace} → Stopped ps t e u → Failed ps t e u
      in_record :
          {u : Trace} (cause : Cause)
          → Ran ps t u
          → env.answer u recorded ≡ some cause
          → Failed ps t
              (failure env before m direction ErrorCategory.recorder ErrorCode.record_failed cause)
              (called recorded ∷ u)
      in_commit :
          {u : Trace} (cause : Cause)
          → Ran ps t u
          → env.answer u recorded ≡ none
          → env.answer (called recorded ∷ u) commit ≡ some cause
          → Failed ps t
              (failure env before m direction ErrorCategory.transaction ErrorCode.commit_failed
                cause)
              (called commit ∷ called recorded ∷ u)

    -- After a failure there is one more call, a rollback, whose own error the result carries.
    pub data RolledBack (ps : List PreparedOperation) (t : Trace) : Executed → Type 0 where
      rolled_back :
          {e : MigrationError} {u : Trace}
          → Failed ps t e u
          → RolledBack ps t (record {
            state = before;
            error = some (record e { rollback_cause = env.answer u rollback });
            trace = called rollback ∷ u;
          })

    -- All operations, the record and the commit are accepted, and nothing follows.
    pub data Committed (ps : List PreparedOperation) (after : ProjectState) (t : Trace)
        : Executed → Type 0 where
      committed :
          {u : Trace}
          → Ran ps t u
          → env.answer u recorded ≡ none
          → env.answer (called recorded ∷ u) commit ≡ none
          → Committed ps after t (record {
            state = clone after;
            error = none;
            trace = called commit ∷ called recorded ∷ u;
          })

module _ ⦃u : Unicode⦄ (env : Environment) (before : ProjectState) (m : Migration)
    (direction : Direction) where
  abbrev pub unusable : Cause → MigrationError
  unusable =
      failure env (clone before) m direction ErrorCategory.execution ErrorCode.operation_failed

  abbrev pub not_begun : Cause → MigrationError
  not_begun =
      failure env (clone before) m direction ErrorCategory.transaction ErrorCode.begin_failed

  -- Why there is no transaction, with the error and the events: at most two looks at the context,
  -- and at most one begin, which gave no transaction.
  pub data Refusal (t : Trace) : MigrationError → Trace → Type 0 where
    without_context : env.context_is_nil ≡ true → Refusal t (unusable Cause.context_is_nil) t
    canceled :
        (cause : Cause) → env.context_error t ≡ some cause → Refusal t (unusable cause) (poll ∷ t)
    invalid : (e : MigrationError) → preflight before m direction ≡ err e → Refusal t e (poll ∷ t)
    canceled_later :
        (cause : Cause)
        → env.context_error (poll ∷ t) ≡ some cause
        → Refusal t (unusable cause) (poll ∷ poll ∷ t)
    without_backend :
        env.backend_is_nil ≡ true → Refusal t (not_begun Cause.backend_is_nil) (poll ∷ poll ∷ t)
    without_transaction :
        env.begin (poll ∷ poll ∷ t) ≡ no_transaction
        → Refusal t (not_begun Cause.transaction_is_nil) (begin_migration ∷ poll ∷ poll ∷ t)
    begin_refused :
        (cause : Cause)
        → env.begin (poll ∷ poll ∷ t) ≡ refused cause
        → Refusal t (not_begun cause) (begin_migration ∷ poll ∷ poll ∷ t)

  -- The caller's state comes back with the error.
  pub data Refused (t : Trace) : Executed → Type 0 where
    turned_away :
        {e : MigrationError} {v : Trace}
        → Refusal t e v
        → Refused t (record { state = clone before; error = some e; trace = v })
