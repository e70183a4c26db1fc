-- ===== src/Migrations/Executor/Atomic.antt =====
-- executor.go of migrations: a migration runs in one transaction, or in none.
use mathlib.Core.Path.{subst}
use godj.Base.{
  Outcome-cases, ok-injective, ◌≡◌, refl, ◌⊎◌, List, [], ◌∷◌, none, some, inl, inr, Option-cases,
  Bool-cases, arith, ok, stuck,
}
use godj.Ir.Identifiers.{Unicode}
use godj.Migrations.Errors.{Direction, MigrationError, Cause}
use godj.Migrations.Definitions.{Migration}
use godj.Migrations.State.{ProjectState, clone}
use godj.Migrations.Operations.{Intent, makes, fails, Call, commit}
use godj.Migrations.Executor.{
  poll, called, Trace, Begun, started, no_transaction, refused, Environment, PreparedOperation,
  database_step, record_call, Executed, stop, roll_back, run_operations, finish_transaction,
  run_transaction, begin_transaction, preflight, execute,
}
use godj.Migrations.Executor.Transactions.{
  Ran, Stopped, Failed, RolledBack, Committed, Refusal, Refused, begun,
}

Begun-cases :
    (b : Begun) → (b ≡ started) ⊎ (b ≡ no_transaction) ⊎ ((cause : Cause) × (b ≡ refused cause))
Begun-cases started = inl refl
Begun-cases no_transaction = inr (inl refl)
Begun-cases (refused cause) = inr (inr (cause, refl))

Intent-cases : (i : Intent) → ((c : Call) × (i ≡ makes c)) ⊎ ((cause : Cause) × (i ≡ fails cause))
Intent-cases (makes c) = inl (c, refl)
Intent-cases (fails cause) = inr (cause, refl)

module _ (env : Environment) (m : Migration) (direction : Direction) where
  -- The loop over the operations runs them all, or stops at the first that fails.
  run_operations_lem :
      (ps : List PreparedOperation) (t : Trace)
      → let (failed, u) = run_operations env direction m ps t in
        ((failed ≡ none) × Ran env m direction ps t u)
        ⊎ ((e : MigrationError) × (failed ≡ some e) × Stopped env m direction ps t e u)
  unfolding run_operations
  run_operations_lem [] t = inl (refl, Ran.none_left)
  run_operations_lem (p ∷ ps) t = elim (Intent-cases (database_step direction p)) [
    | inr (cause, e) ↦ rw (run_operations, e) (inr (_, refl, Stopped.impossible cause e))
    | inl (c, e) ↦ elim (Option-cases (env.answer t c)) [
      | inr (cause, bad) ↦
          rw (run_operations, e, bad) (inr (_, refl, Stopped.rejected c cause e bad))
      | inl fine ↦
          rw (run_operations, e, fine)
            (elim (run_operations_lem ps (called c ∷ t)) [
              | inl (well, all_ran) ↦ inl (well, Ran.ran c e fine all_ran)
              | inr (e', bad, stopped) ↦ inr (e', bad, Stopped.later c e fine stopped)
            ])
    ]
  ]

  module _ (before : ProjectState) where
    abbrev pub Ended : List PreparedOperation → ProjectState → Trace → Executed → Type 0
    Ended ps after t r =
        RolledBack env m direction before ps t r ⊎ Committed env m direction before ps after t r

    finish_transaction-Ended :
        (ps : List PreparedOperation) (after : ProjectState) (t u : Trace)
        → Ran env m direction ps t u
        → Ended ps after t (finish_transaction env before m direction after u)
    unfolding finish_transaction roll_back
    finish_transaction-Ended ps after t u all_ran =
        let recorded = record_call direction m in
        elim (Option-cases (env.answer u recorded)) [
          | inr (cause, bad) ↦
              rw (finish_transaction, bad)
                (inl (RolledBack.rolled_back (Failed.in_record cause all_ran bad)))
          | inl fine ↦ elim (Option-cases (env.answer (called recorded ∷ u) commit)) [
            | inr (cause, bad) ↦
                rw (finish_transaction, fine, bad)
                  (inl (RolledBack.rolled_back (Failed.in_commit cause all_ran fine bad)))
            | inl good ↦
                rw (finish_transaction, fine, good) (inr (Committed.committed all_ran fine good))
          ]
        ]

    run_transaction-Ended :
        (ps : List PreparedOperation) (after : ProjectState) (t : Trace)
        → Ended ps after t (run_transaction env before m direction ps after t)
    unfolding run_transaction roll_back
    run_transaction-Ended ps after t = elim (run_operations_lem ps t) [
      | inl (fine, all_ran) ↦
          rw (run_transaction, fine)
            (finish_transaction-Ended ps after t (run_operations env direction m ps t).1 all_ran)
      | inr (e, bad, stopped) ↦
          rw (run_transaction, bad) (inl (RolledBack.rolled_back (Failed.in_operation stopped)))
    ]

-- The part of an execution that has passed its preflight.
module _ ⦃u : Unicode⦄ (env : Environment) (before : ProjectState) (m : Migration)
    (direction : Direction) where
  -- One transaction, begun when the preflight had accepted the migration and the context had been
  -- looked at twice, and then ended.
  abbrev pub InTransaction : Trace → Executed → Type 0
  InTransaction t r =
      (prepared : List PreparedOperation) × (after : ProjectState) × (preflight before m direction
        ≡ ok (prepared, after))
      × (env.begin (poll ∷ poll ∷ t) ≡ started)
      × Ended env m direction (clone before) prepared after (begun t) r

  refuse :
      (e : MigrationError) (t v : Trace) (r : Executed)
      → Refusal env before m direction t e v
      → stop env (clone before) e v ≡ r
      → Refused env before m direction t r
  refuse e t v r refusal h =
      subst (Refused env before m direction t) h (Refused.turned_away refusal)

  begin_transaction-Settled :
      (prepared : List PreparedOperation) (after : ProjectState) (t : Trace) (r : Executed)
      → preflight before m direction ≡ ok (prepared, after)
      → begin_transaction env (clone before) m direction prepared after (poll ∷ t) ≡ r
      → Refused env before m direction t r ⊎ InTransaction t r
  unfolding begin_transaction
  begin_transaction-Settled prepared after t r good h =
      elim (Option-cases (env.context_error (poll ∷ t))) [
        | inr (cause, bad) ↦ inl (
            refuse _ t (poll ∷ poll ∷ t) r (Refusal.canceled_later cause bad)
              (simp (begin_transaction, bad) at h))
        | inl fine ↦ elim (Bool-cases env.backend_is_nil) [
          | inl absent ↦ inl (
              refuse _ t (poll ∷ poll ∷ t) r (Refusal.without_backend absent)
                (simp (begin_transaction, fine, absent) at h))
          | inr there ↦ elim (Begun-cases (env.begin (poll ∷ poll ∷ t))) [
            | inl is_begun ↦
                let e = simp (begin_transaction, fine, there, is_begun) at h in
                inr (
                  prepared,
                  after,
                  good,
                  is_begun,
                  subst (Ended env m direction (clone before) prepared after (begun t)) e (
                      run_transaction-Ended env m direction (clone before) prepared after
                        (begun t)),
                )
            | inr (inl without) ↦ inl (
                refuse _ t (begun t) r (Refusal.without_transaction without)
                  (simp (begin_transaction, fine, there, without) at h))
            | inr (inr (cause, no_begin)) ↦ inl (
                refuse _ t (begun t) r (Refusal.begin_refused cause no_begin)
                  (simp (begin_transaction, fine, there, no_begin) at h))
          ]
        ]
      ]

module _ ⦃u : Unicode⦄ (env : Environment) where
  pub executed-Settled :
      (before : ProjectState) (m : Migration) (direction : Direction) (t : Trace) (r : Executed)
      → execute env before m direction t ≡ ok r
      → Refused env before m direction t r ⊎ InTransaction env before m direction t r
  unfolding execute
  executed-Settled before m direction t r h = elim (Bool-cases env.context_is_nil) [
    | inl absent ↦ inl (
        refuse env before m direction _ t t r (Refusal.without_context absent)
          (ok-injective (simp (execute, absent) at h)))
    | inr there ↦ elim (Option-cases (env.context_error t)) [
      | inr (cause, bad) ↦ inl (
          refuse env before m direction _ t (poll ∷ t) r (Refusal.canceled cause bad)
            (ok-injective (simp (execute, there, bad) at h)))
      | inl fine ↦ elim (Outcome-cases (preflight before m direction)) [
        | inr (inr lost) ↦ let e = simp (execute, there, fine, lost) at h in absurd (ground arith)
        | inr (inl (refusal, bad)) ↦ inl (
            refuse env before m direction _ t (poll ∷ t) r (Refusal.invalid refusal bad)
              (ok-injective (simp (execute, there, fine, bad) at h)))
        | inl ((prepared, after), good) ↦
            begin_transaction-Settled env before m direction prepared after t r good
              (ok-injective (simp (execute, there, fine, good) at h))
      ]
    ]
  ]

  -- An execution that panics does so in its preflight.
  pub execute-eq-stuck :
      (before : ProjectState) (m : Migration) (direction : Direction) (t : Trace)
      → execute env before m direction t ≡ stuck
      → preflight before m direction ≡ stuck
  unfolding execute
  execute-eq-stuck before m direction t h = elim (Bool-cases env.context_is_nil) [
    | inl absent ↦ let h' = simp (execute, absent) at h in absurd (ground arith)
    | inr there ↦ elim (Option-cases (env.context_error t)) [
      | inr (cause, bad) ↦ let h' = simp (execute, there, bad) at h in absurd (ground arith)
      | inl fine ↦ elim (Outcome-cases (preflight before m direction)) [
        | inr (inr lost) ↦ lost
        | inr (inl (refusal, bad)) ↦
            let h' = simp (execute, there, fine, bad) at h in absurd (ground arith)
        | inl ((prepared, after), good) ↦
            let h' = simp (execute, there, fine, good) at h in absurd (ground arith)
      ]
    ]
  ]

  -- Unless its preflight panics, the execution of a migration returns, and it has ended in one of two
  -- ways. Either it has an error and a copy of the caller's state, and its only events are at most two
  -- looks at the context and at most one begin, which gave no transaction. Or its preflight has
  -- accepted it and one transaction was begun, after two looks at the context. Then all prepared
  -- operations, the record and the commit were called, in this order and once each, and accepted,
  -- nothing follows, and the state is a copy of that of the preflight. Or the first of these that
  -- failed, an operation perhaps before its call, was followed by one rollback and nothing else, the
  -- error is that of the failure with what the rollback has answered, and the state is a copy of the
  -- caller's.
  pub execute-Settled :
      (before : ProjectState) (m : Migration) (direction : Direction) (t : Trace)
      → (preflight before m direction ≡ stuck)
        ⊎ ((r : Executed) × (execute env before m direction t ≡ ok r)
            × (Refused env before m direction t r ⊎ InTransaction env before m direction t r))
  execute-Settled before m direction t = elim (Outcome-cases (execute env before m direction t)) [
    | inl (r, h) ↦ inr (r, h, executed-Settled before m direction t r h)
    | inr (inl (never, _)) ↦ absurd never
    | inr (inr lost) ↦ inl (execute-eq-stuck before m direction t lost)
  ]
