-- ===== src/Migrations/Executor/Preparation.antt =====
-- execution.go of migrations: the preflight of a plan, on every branch.
use mathlib.Core.Path.{subst}
use godj.Base.{
  stuck, >>=-eq-stuck, ℕ, ◌+◌, put, Outcome-cases, ok-injective, err-injective, ◌≡◌, List, [], ◌∷◌,
  none, some, inl, inr, Option-cases, arith, ok, err, >>=-eq-ok, >>=-eq-err, int_eq,
}
use godj.Ir.Identifiers.{Unicode}
use godj.Migrations.Errors.{Direction, Cause, MigrationError}
use godj.Migrations.Keys.{MigrationKey, key_eq}
use godj.Migrations.Definitions.{migration_key, Migration}
use godj.Migrations.State.{ProjectState, clone}
use godj.Migrations.Graph.{PlanStep}
use godj.Migrations.Executor.{poll, Trace, Environment, PreparedOperation, preflight}
use godj.Migrations.Executor.Plans.{
  Definitions, PreparedStep, definition_at, no_direction, index_definitions, check_steps,
  prepare_steps, preflight_plan, execution_context_error,
}

module _ ⦃u : Unicode⦄ (env : Environment) (by_key : Definitions) where
  -- The prepared steps of a plan, from a state and a trace to a trace: each step looks at the
  -- context once, which has no error, and has the definition of its key and the state to which the
  -- preflight of that definition leads from the state before.
  pub data Replays : ProjectState → List PlanStep → Trace → List PreparedStep → Trace → Type 0 where
    finished : {s : ProjectState} {t : Trace} → Replays s [] t [] t
    replayed :
        {s after : ProjectState} {step : PlanStep} {prepared : List PreparedOperation}
        {steps : List PlanStep} {ps : List PreparedStep} {t v : Trace}
        → env.context_error t ≡ none
        → preflight s (definition_at step.key by_key) step.direction ≡ ok (prepared, after)
        → Replays after steps (poll ∷ t) ps v
        → Replays s
            (step ∷ steps)
            t
            (record { step = step; migration = definition_at step.key by_key; after = clone after }
              ∷ ps)
            v

  -- A plan of which a step cannot be prepared, after those before it were: the error and the trace.
  pub data Breaks : ProjectState → List PlanStep → Trace → MigrationError → Trace → Type 0 where
    interrupted :
        {s : ProjectState} {step : PlanStep} {steps : List PlanStep} {t : Trace} (cause : Cause)
        → env.context_error t ≡ some cause
        → Breaks s (step ∷ steps) t (execution_context_error step cause) (poll ∷ t)
    impossible :
        {s : ProjectState} {step : PlanStep} {steps : List PlanStep} {t : Trace}
        (e : MigrationError)
        → env.context_error t ≡ none
        → preflight s (definition_at step.key by_key) step.direction ≡ err e
        → Breaks s (step ∷ steps) t e (poll ∷ t)
    later :
        {s after : ProjectState} {step : PlanStep} {prepared : List PreparedOperation}
        {steps : List PlanStep} {t v : Trace} {e : MigrationError}
        → env.context_error t ≡ none
        → preflight s (definition_at step.key by_key) step.direction ≡ ok (prepared, after)
        → Breaks after steps (poll ∷ t) e v
        → Breaks s (step ∷ steps) t e v

  prepare_steps-Replays :
      (s : ProjectState) (plan : List PlanStep) (t : Trace) (ps : List PreparedStep)
      → (prepare_steps env by_key s plan t).0 ≡ ok ps
      → Replays s plan t ps (prepare_steps env by_key s plan t).1
  unfolding prepare_steps
  prepare_steps-Replays s [] t ps h = subst (λ x. Replays s [] t x t) (ok-injective h) finished
  prepare_steps-Replays s (step ∷ plan) t ps h = elim (Option-cases (env.context_error t)) [
    | inr (cause, bad) ↦ let h' = simp (prepare_steps, bad) at h in absurd (ground arith)
    | inl fine ↦ elim (Outcome-cases (preflight s (definition_at step.key by_key) step.direction)) [
      | inl ((prepared, after), good) ↦
          let last = (prepare_steps env by_key after plan (poll ∷ t)).1 in
          let (rest, found, e) =
            >>=-eq-ok (prepare_steps env by_key after plan (poll ∷ t)).0 _
              (simp (prepare_steps, fine, good) at h) in
          rw (prepare_steps, fine, good)
            (subst (λ x. Replays s (step ∷ plan) t x last) (ok-injective e)
              (replayed fine good (prepare_steps-Replays after plan (poll ∷ t) rest found)))
      | inr (inl (e, bad)) ↦ let h' = simp (prepare_steps, fine, bad) at h in absurd (ground arith)
      | inr (inr lost) ↦ let h' = simp (prepare_steps, fine, lost) at h in absurd (ground arith)
    ]
  ]

  prepare_steps-Breaks :
      (s : ProjectState) (plan : List PlanStep) (t : Trace) (e : MigrationError)
      → (prepare_steps env by_key s plan t).0 ≡ err e
      → Breaks s plan t e (prepare_steps env by_key s plan t).1
  unfolding prepare_steps
  prepare_steps-Breaks s [] t e h = absurd (ground arith)
  prepare_steps-Breaks s (step ∷ plan) t e h = elim (Option-cases (env.context_error t)) [
    | inr (cause, bad) ↦
        let same = err-injective (simp (prepare_steps, bad) at h) in
        rw (prepare_steps, bad)
          (subst (λ x. Breaks s (step ∷ plan) t x (poll ∷ t)) same (interrupted cause bad))
    | inl fine ↦ elim (Outcome-cases (preflight s (definition_at step.key by_key) step.direction)) [
      | inl ((prepared, after), good) ↦
          let broken =
            >>=-eq-err (prepare_steps env by_key after plan (poll ∷ t)).0 _
              (simp (prepare_steps, fine, good) at h) in
          rw (prepare_steps, fine, good)
            (later fine good (prepare_steps-Breaks after plan (poll ∷ t) e broken))
      | inr (inl (e', bad)) ↦
          let same = err-injective (simp (prepare_steps, fine, bad) at h) in
          rw (prepare_steps, fine, bad)
            (subst (λ x. Breaks s (step ∷ plan) t x (poll ∷ t)) same (impossible e' fine bad))
      | inr (inr lost) ↦ let h' = simp (prepare_steps, fine, lost) at h in absurd (ground arith)
    ]
  ]

  -- A plan of which the preflight of a step panics, after those before it were prepared.
  pub data Lost : ProjectState → List PlanStep → Type 0 where
    now :
        {s : ProjectState} {step : PlanStep} {steps : List PlanStep}
        → preflight s (definition_at step.key by_key) step.direction ≡ stuck
        → Lost s (step ∷ steps)
    afterwards :
        {s after : ProjectState} {step : PlanStep} {prepared : List PreparedOperation}
        {steps : List PlanStep}
        → preflight s (definition_at step.key by_key) step.direction ≡ ok (prepared, after)
        → Lost after steps
        → Lost s (step ∷ steps)

  prepare_steps-Lost :
      (s : ProjectState) (plan : List PlanStep) (t : Trace)
      → (prepare_steps env by_key s plan t).0 ≡ stuck
      → Lost s plan
  unfolding prepare_steps
  prepare_steps-Lost s [] t h = absurd (ground arith)
  prepare_steps-Lost s (step ∷ plan) t h = elim (Option-cases (env.context_error t)) [
    | inr (cause, bad) ↦ let h' = simp (prepare_steps, bad) at h in absurd (ground arith)
    | inl fine ↦ elim (Outcome-cases (preflight s (definition_at step.key by_key) step.direction)) [
      | inr (inr lost) ↦ now lost
      | inr (inl (e, bad)) ↦ let h' = simp (prepare_steps, fine, bad) at h in absurd (ground arith)
      | inl ((prepared, after), good) ↦ afterwards good (
          prepare_steps-Lost after plan (poll ∷ t) (
            >>=-eq-stuck (prepare_steps env by_key after plan (poll ∷ t)).0 _
              (simp (prepare_steps, fine, good) at h)))
    ]
  ]

module _ ⦃u : Unicode⦄ (env : Environment) (before : ProjectState) (definitions : List Migration)
    (plan : List PlanStep) where
  -- A plan that passes its preflight has its definitions indexed, its steps checked and its states
  -- computed, from a trace to a trace.
  pub record Prepared (t : Trace) (ps : List PreparedStep) (v : Trace) : Type 0 where
    pub by_key : Definitions
    pub indexed : index_definitions 0 definitions [] ≡ ok by_key
    pub checked : check_steps by_key 0 [] no_direction plan ≡ ok tt
    pub replay : Replays env by_key (clone before) plan t ps v

  -- A plan that does not, with the error and the trace: its definitions, its steps, or one of its
  -- states on the way. The only events are looks at the context.
  pub data Unprepared (t : Trace) : MigrationError → Trace → Type 0 where
    bad_definitions :
        (e : MigrationError) → index_definitions 0 definitions [] ≡ err e → Unprepared t e t
    bad_steps :
        (by_key : Definitions) (e : MigrationError)
        → index_definitions 0 definitions [] ≡ ok by_key
        → check_steps by_key 0 [] no_direction plan ≡ err e
        → Unprepared t e t
    bad_state :
        {e : MigrationError} {v : Trace} (by_key : Definitions)
        → index_definitions 0 definitions [] ≡ ok by_key
        → check_steps by_key 0 [] no_direction plan ≡ ok tt
        → Breaks env by_key (clone before) plan t e v
        → Unprepared t e v

  pub preflight_plan-Prepared :
      (t : Trace) (ps : List PreparedStep)
      → (preflight_plan env before definitions plan t).0 ≡ ok ps
      → Prepared t ps (preflight_plan env before definitions plan t).1
  unfolding preflight_plan
  preflight_plan-Prepared t ps h = elim (Outcome-cases (index_definitions 0 definitions [])) [
    | inr (inl (e, bad)) ↦ let h' = simp (preflight_plan, bad) at h in absurd (ground arith)
    | inr (inr lost) ↦ let h' = simp (preflight_plan, lost) at h in absurd (ground arith)
    | inl (by_key, good) ↦ elim (Outcome-cases (check_steps by_key 0 [] no_direction plan)) [
      | inr (inl (e, bad)) ↦ let h' = simp (preflight_plan, good, bad) at h in absurd (ground arith)
      | inr (inr lost) ↦ let h' = simp (preflight_plan, good, lost) at h in absurd (ground arith)
      | inl (_, fine) ↦
          rw (preflight_plan, good, fine)
            (record {
              by_key = by_key;
              indexed = good;
              checked = fine;
              replay =
                  prepare_steps-Replays env by_key (clone before) plan t ps
                    (simp (preflight_plan, good, fine) at h);
            })
    ]
  ]

  pub preflight_plan-Unprepared :
      (t : Trace) (e : MigrationError)
      → (preflight_plan env before definitions plan t).0 ≡ err e
      → Unprepared t e (preflight_plan env before definitions plan t).1
  unfolding preflight_plan
  preflight_plan-Unprepared t e h = elim (Outcome-cases (index_definitions 0 definitions [])) [
    | inr (inl (e', bad)) ↦
        let same = err-injective (simp (preflight_plan, bad) at h) in
        rw (preflight_plan, bad) (bad_definitions e (rw same at bad))
    | inr (inr lost) ↦ let h' = simp (preflight_plan, lost) at h in absurd (ground arith)
    | inl (by_key, good) ↦ elim (Outcome-cases (check_steps by_key 0 [] no_direction plan)) [
      | inr (inl (e', bad)) ↦
          let same = err-injective (simp (preflight_plan, good, bad) at h) in
          rw (preflight_plan, good, bad) (bad_steps by_key e good (rw same at bad))
      | inr (inr lost) ↦ let h' = simp (preflight_plan, good, lost) at h in absurd (ground arith)
      | inl (_, fine) ↦
          rw (preflight_plan, good, fine)
            (bad_state by_key good fine (
              prepare_steps-Breaks env by_key (clone before) plan t e
                (simp (preflight_plan, good, fine) at h)))
    ]
  ]

  index_definitions-ne-stuck :
      (index : ℕ) (ms : List Migration) (by_key : Definitions)
      → ¬ (index_definitions index ms by_key ≡ stuck)
  unfolding index_definitions
  index_definitions-ne-stuck index [] by_key h = cc
  index_definitions-ne-stuck index (m ∷ ms) by_key h =
      ground (arith, index_definitions-ne-stuck (index + 1) ms (put (migration_key m) m by_key))

  check_steps-ne-stuck :
      (by_key : Definitions) (index : ℕ) (seen : List MigrationKey) (direction : Direction)
      (steps : List PlanStep)
      → ¬ (check_steps by_key index seen direction steps ≡ stuck)
  unfolding check_steps
  check_steps-ne-stuck by_key index seen direction [] h = cc
  check_steps-ne-stuck by_key index seen direction (step ∷ steps) h =
      ground (arith, check_steps-ne-stuck by_key (index + 1) (step.key ∷ seen) step.direction steps)

  -- The preflight of a plan panics only in the preflight of one of its steps.
  pub preflight_plan-eq-stuck :
      (t : Trace)
      → (preflight_plan env before definitions plan t).0 ≡ stuck
      → (by_key : Definitions) × (index_definitions 0 definitions [] ≡ ok by_key)
        × Lost env by_key (clone before) plan
  unfolding preflight_plan
  preflight_plan-eq-stuck t h = elim (Outcome-cases (index_definitions 0 definitions [])) [
    | inr (inl (e, bad)) ↦ let h' = simp (preflight_plan, bad) at h in absurd (ground arith)
    | inr (inr lost) ↦ absurd (index_definitions-ne-stuck 0 definitions [] lost)
    | inl (by_key, good) ↦ elim (Outcome-cases (check_steps by_key 0 [] no_direction plan)) [
      | inr (inl (e, bad)) ↦ let h' = simp (preflight_plan, good, bad) at h in absurd (ground arith)
      | inr (inr lost) ↦ absurd (check_steps-ne-stuck by_key 0 [] no_direction plan lost)
      | inl (_, fine) ↦ (
        by_key,
        good,
        prepare_steps-Lost env by_key (clone before) plan t
            (simp (preflight_plan, good, fine) at h),
      )
    ]
  ]
