-- ===== src/Migrations/Executor/Replay.antt =====
-- execution.go of migrations: the whole of `ExecutePlan`.
use mathlib.Core.Path.{subst}
use godj.Base.{
  stuck, ◌⊎◌, Outcome-cases, ok-injective, ◌≡◌, refl, true, false, List, [], ◌∷◌, none, some,
  is_nil, map, inl, inr, Option-cases, Bool-cases, List-cases, arith, ok, int_eq,
}
use godj.Ir.Identifiers.{Unicode}
use godj.Migrations.Errors.{Cause, MigrationError}
use godj.Migrations.Definitions.{Migration}
use godj.Migrations.Keys.{no_key}
use godj.Migrations.State.{ProjectState, clone}
use godj.Migrations.Graph.{PlanStep}
use godj.Migrations.Executor.{poll, Trace, Environment, Executed}
use godj.Migrations.Executor.Plans.{
  Definitions, index_definitions, PreparedStep, stopped, clone_migration_definition, preflight_plan,
  execute_plan, execution_context_error, bare_step,
}
use godj.Migrations.Executor.Progress.{
  Progress, Panics, execute_steps-Progress, execute_steps-eq-stuck,
}
use godj.Migrations.Executor.Preparation.{
  Lost, Prepared, Unprepared, preflight_plan-Prepared, preflight_plan-Unprepared,
  preflight_plan-eq-stuck,
}

module _ ⦃u : Unicode⦄ (env : Environment) (before : ProjectState) (definitions : List Migration)
    (plan : List PlanStep) where
  abbrev pub copies : List Migration
  copies = map clone_migration_definition definitions

  -- Why no step of a plan was tried, with the error and the trace.
  pub data Rejection (t : Trace) : MigrationError → Trace → Type 0 where
    without_context :
        env.context_is_nil ≡ true
        → Rejection t (execution_context_error (bare_step no_key) Cause.context_is_nil) t
    canceled_first :
        (cause : Cause)
        → env.context_error t ≡ some cause
        → Rejection t (execution_context_error (bare_step no_key) cause) (poll ∷ t)
    unprepared :
        {e : MigrationError} {v : Trace}
        → Unprepared env before copies plan (poll ∷ t) e v
        → Rejection t e v

  -- The end of an execution of a plan: the state, the error and the trace.
  pub data PlanEnded (t : Trace) : Executed → Type 0 where
    rejected :
        {e : MigrationError} {v : Trace}
        → Rejection t e v
        → PlanEnded t (record { state = clone before; error = some e; trace = v })
    nothing_to_do :
        plan ≡ [] → PlanEnded t (record { state = clone before; error = none; trace = poll ∷ t })
    worked :
        {v : Trace} {r : Executed} (ps : List PreparedStep)
        → Prepared env before copies plan (poll ∷ t) ps v
        → Progress env (clone before) ps v r
        → PlanEnded t r

  reject :
      (e : MigrationError) (t v : Trace) (r : Executed)
      → Rejection t e v
      → stopped env before e v ≡ ok r
      → PlanEnded t r
  reject e t v r why h = subst (PlanEnded t) (ok-injective h) (rejected why)

  executed_plan-Progress :
      (t : Trace) (r : Executed) → execute_plan env before definitions plan t ≡ ok r → PlanEnded t r
  unfolding execute_plan is_nil
  executed_plan-Progress t r h = elim (Bool-cases env.context_is_nil) [
    | inl absent ↦ reject _ t t r (without_context absent) (simp (execute_plan, absent) at h)
    | inr there ↦ elim (Option-cases (env.context_error t)) [
      | inr (cause, bad) ↦
          reject _ t (poll ∷ t) r (canceled_first cause bad) (simp (execute_plan, there, bad) at h)
      | inl fine ↦ elim (List-cases plan) [
        | inl empty ↦
            subst (PlanEnded t) (ok-injective (simp (execute_plan, there, fine, empty) at h))
              (nothing_to_do empty)
        | inr (first, others, some_steps) ↦
            let known : is_nil plan ≡ false = rw (some_steps, is_nil) refl in
            let at = (preflight_plan env before copies plan (poll ∷ t)).1 in
            elim (Outcome-cases (preflight_plan env before copies plan (poll ∷ t)).0) [
              | inr (inl (e, bad)) ↦
                  reject e t at r
                    (unprepared (preflight_plan-Unprepared env before copies plan (poll ∷ t) e bad))
                    (simp (execute_plan, there, fine, known, bad) at h)
              | inr (inr lost) ↦
                  let h' = simp (execute_plan, there, fine, known, lost) at h in
                  absurd (ground arith)
              | inl (ps, good) ↦
                  worked ps (preflight_plan-Prepared env before copies plan (poll ∷ t) ps good) (
                    execute_steps-Progress env (clone before) ps at r
                      (simp (execute_plan, there, fine, known, good) at h))
            ]
      ]
    ]
  ]

  -- The preflight of a migration panics, in that of the plan or when its step is to be executed.
  pub data PlanPanics (t : Trace) : Type 0 where
    in_preflight :
        (by_key : Definitions)
        → index_definitions 0 copies [] ≡ ok by_key
        → Lost env by_key (clone before) plan
        → PlanPanics t
    in_step :
        {v : Trace} (ps : List PreparedStep)
        → Prepared env before copies plan (poll ∷ t) ps v
        → Panics env (clone before) ps v
        → PlanPanics t

  execute_plan-eq-stuck :
      (t : Trace) → execute_plan env before definitions plan t ≡ stuck → PlanPanics t
  unfolding execute_plan is_nil
  execute_plan-eq-stuck t h = elim (Bool-cases env.context_is_nil) [
    | inl absent ↦ let h' = simp (execute_plan, absent) at h in absurd (ground arith)
    | inr there ↦ elim (Option-cases (env.context_error t)) [
      | inr (cause, bad) ↦ let h' = simp (execute_plan, there, bad) at h in absurd (ground arith)
      | inl fine ↦ elim (List-cases plan) [
        | inl empty ↦ let h' = simp (execute_plan, there, fine, empty) at h in absurd (ground arith)
        | inr (first, others, some_steps) ↦
            let known : is_nil plan ≡ false = rw (some_steps, is_nil) refl in
            let at = (preflight_plan env before copies plan (poll ∷ t)).1 in
            elim (Outcome-cases (preflight_plan env before copies plan (poll ∷ t)).0) [
              | inr (inl (e, bad)) ↦
                  let h' = simp (execute_plan, there, fine, known, bad) at h in
                  absurd (ground arith)
              | inr (inr lost) ↦
                  let (by_key, indexed, where_lost) =
                    preflight_plan-eq-stuck env before copies plan (poll ∷ t) lost in
                  in_preflight by_key indexed where_lost
              | inl (ps, good) ↦
                  in_step ps (preflight_plan-Prepared env before copies plan (poll ∷ t) ps good) (
                    execute_steps-eq-stuck env (clone before) ps at
                      (simp (execute_plan, there, fine, known, good) at h))
            ]
      ]
    ]
  ]

  -- Unless the preflight of a migration panics, on the way through the plan or again when its turn
  -- comes, `ExecutePlan` returns, and it has ended in one of three ways. It has been rejected: the
  -- context or the preflight of the plan has an error, the caller has a copy of its state, and the
  -- only events are looks at the context, so no transaction was begun. Or the plan is empty, and
  -- the context was looked at once. Or the whole plan has passed its preflight, which has looked at
  -- the context only, and then a prefix of its steps was executed, each in one transaction that was
  -- committed. This prefix is all steps, and there is no error; or the next step was not executed:
  -- the context had an error, there was no transaction for it, or its transaction was rolled back,
  -- and this error is the result's. The state is that of the preflight after the prefix.
  pub execute_plan-Progress :
      (t : Trace)
      → PlanPanics t
        ⊎ ((r : Executed) × (execute_plan env before definitions plan t ≡ ok r) × PlanEnded t r)
  execute_plan-Progress t = elim (Outcome-cases (execute_plan env before definitions plan t)) [
    | inl (r, h) ↦ inr (r, h, executed_plan-Progress t r h)
    | inr (inl (never, _)) ↦ absurd never
    | inr (inr lost) ↦ inl (execute_plan-eq-stuck t lost)
  ]
