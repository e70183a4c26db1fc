-- ===== src/Migrations/Executor/Progress.antt =====
-- execution.go of migrations: how far a plan has come when its execution ends.
use mathlib.Core.Path.{subst}
use godj.Base.{
  ok-injective, ◌≡◌, refl, List, [], ◌∷◌, none, some, inl, inr, Option-cases, Outcome-cases, ok,
  stuck, arith, >>=-eq-ok,
}
use godj.Ir.Identifiers.{Unicode}
use godj.Migrations.Errors.{Direction, Cause, MigrationError}
use godj.Migrations.State.{ProjectState, clone}
use godj.Migrations.Executor.{
  poll, Trace, started, Environment, PreparedOperation, Executed, preflight, execute,
}
use godj.Migrations.Executor.Transactions.{RolledBack, Committed, Refusal, Refused, begun}
use godj.Migrations.Executor.Atomic.{executed-Settled, execute-eq-stuck}
use godj.Migrations.Executor.Plans.{
  PreparedStep, run_direction, stopped, execution_context_error, execute_steps,
}

module _ ⦃u : Unicode⦄ (env : Environment) where
  abbrev pub way : PreparedStep → Direction
  way p = run_direction p.step.direction

  -- From a state, a list of steps and a trace, a prefix of the steps has been executed: the state,
  -- the steps that are left and the trace then. Before each step the context is looked at once. The
  -- step has one transaction, which is committed, and the next one starts from its prepared state.
  pub data Advanced
      : ProjectState
        → List PreparedStep
        → Trace
        → ProjectState
        → List PreparedStep
        → Trace
        → Type 0 where
    here : {s : ProjectState} {ps : List PreparedStep} {t : Trace} → Advanced s ps t s ps t
    step :
        {s s' : ProjectState} {p : PreparedStep} {ps rest : List PreparedStep} {t v : Trace}
        (prepared : List PreparedOperation) (after : ProjectState) (r : Executed)
        → env.context_error t ≡ none
        → preflight s p.migration (way p) ≡ ok (prepared, after)
        → env.begin (poll ∷ poll ∷ poll ∷ t) ≡ started
        → Committed env p.migration (way p) (clone s) prepared after (begun (poll ∷ t)) r
        → Advanced (clone p.after) ps r.trace s' rest v
        → Advanced s (p ∷ ps) t s' rest v

  -- A step that is not executed, with the error and the trace: the context has an error, there was
  -- no transaction for it, or its transaction was rolled back.
  pub data Halted (s : ProjectState) (p : PreparedStep) (t : Trace)
      : MigrationError → Trace → Type 0 where
    not_reached :
        (cause : Cause)
        → env.context_error t ≡ some cause
        → Halted s p t (execution_context_error p.step cause) (poll ∷ t)
    not_started :
        {e : MigrationError} {v : Trace}
        → env.context_error t ≡ none
        → Refusal env s p.migration (way p) (poll ∷ t) e v
        → Halted s p t e v
    undone :
        {e : MigrationError} (prepared : List PreparedOperation) (after : ProjectState)
        (r : Executed)
        → env.context_error t ≡ none
        → preflight s p.migration (way p) ≡ ok (prepared, after)
        → env.begin (poll ∷ poll ∷ poll ∷ t) ≡ started
        → RolledBack env p.migration (way p) (clone s) prepared (begun (poll ∷ t)) r
        → r.error ≡ some e
        → Halted s p t e r.trace

  -- A plan has executed all its steps, or a prefix and the step after it has halted.
  pub data Progress (before : ProjectState) (ps : List PreparedStep) (t : Trace)
      : Executed → Type 0 where
    complete :
        {s : ProjectState} {v : Trace}
        → Advanced before ps t s [] v
        → Progress before ps t (record { state = clone s; error = none; trace = v })
    halted :
        {s : ProjectState} {p : PreparedStep} {rest : List PreparedStep} {v w : Trace}
        {e : MigrationError}
        → Advanced before ps t s (p ∷ rest) v
        → Halted s p v e w
        → Progress before ps t (record { state = clone s; error = some e; trace = w })

  Refused-error :
      (s : ProjectState) (p : PreparedStep) (t : Trace) (r : Executed)
      → Refused env s p.migration (way p) t r
      → (e : MigrationError) × (r.error ≡ some e) × Refusal env s p.migration (way p) t e r.trace
  Refused-error s p t _ (Refused.turned_away {e = e} refusal) = (e, refl, refusal)

  RolledBack-error :
      (s : ProjectState) (p : PreparedStep) (ps : List PreparedOperation) (t : Trace) (r : Executed)
      → RolledBack env p.migration (way p) s ps t r
      → (e : MigrationError) × (r.error ≡ some e)
  RolledBack-error s p ps t _ (RolledBack.rolled_back _) = (_, refl)

  Committed-error :
      (s after : ProjectState) (p : PreparedStep) (ps : List PreparedOperation) (t : Trace)
      (r : Executed)
      → Committed env p.migration (way p) s ps after t r
      → r.error ≡ none
  Committed-error s after p ps t _ (Committed.committed _ _ _) = refl

  Progress-Halted :
      (s : ProjectState) (p : PreparedStep) (ps : List PreparedStep) (e : MigrationError)
      (t v : Trace) (r : Executed)
      → Halted s p t e v
      → stopped env s e v ≡ ok r
      → Progress s (p ∷ ps) t r
  Progress-Halted s p ps e t v r bad h =
      subst (Progress s (p ∷ ps) t) (ok-injective h) (Progress.halted Advanced.here bad)

  -- A step in front of what a plan has done.
  Progress-step :
      (s after : ProjectState) (p : PreparedStep) (ps : List PreparedStep) (t : Trace)
      (prepared : List PreparedOperation) (x r : Executed)
      → env.context_error t ≡ none
      → preflight s p.migration (way p) ≡ ok (prepared, after)
      → env.begin (poll ∷ poll ∷ poll ∷ t) ≡ started
      → Committed env p.migration (way p) (clone s) prepared after (begun (poll ∷ t)) x
      → Progress (clone p.after) ps x.trace r
      → Progress s (p ∷ ps) t r
  Progress-step s after p ps t prepared x _ fine good b c (Progress.complete advanced) =
      Progress.complete (Advanced.step prepared after x fine good b c advanced)
  Progress-step s after p ps t prepared x _ fine good b c (Progress.halted advanced bad) =
      Progress.halted (Advanced.step prepared after x fine good b c advanced) bad

  pub execute_steps-Progress :
      (before : ProjectState) (ps : List PreparedStep) (t : Trace) (r : Executed)
      → execute_steps env before ps t ≡ ok r
      → Progress before ps t r
  unfolding execute_steps
  execute_steps-Progress before [] t r h =
      subst (Progress before [] t) (ok-injective h) (Progress.complete Advanced.here)
  execute_steps-Progress before (p ∷ ps) t r h = elim (Option-cases (env.context_error t)) [
    | inr (cause, bad) ↦
        Progress-Halted before p ps (execution_context_error p.step cause) t (poll ∷ t) r
          (Halted.not_reached cause bad) (simp (execute_steps, bad) at h)
    | inl fine ↦
        let (x, ran, more) =
          >>=-eq-ok (execute env before p.migration (way p) (poll ∷ t)) _
            (simp (execute_steps, fine) at h) in
        elim (executed-Settled env before p.migration (way p) (poll ∷ t) x ran) [
          | inl refusal ↦
              let (e, failed, why) = Refused-error before p (poll ∷ t) x refusal in
              Progress-Halted before p ps e t x.trace r (Halted.not_started fine why)
                (simp failed at more)
          | inr (prepared, after, good, b, inl back) ↦
              let (e, failed) =
                RolledBack-error (clone before) p prepared (begun (poll ∷ t)) x back in
              Progress-Halted before p ps e t x.trace r
                (Halted.undone prepared after x fine good b back failed) (simp failed at more)
          | inr (prepared, after, good, b, inr c) ↦
              Progress-step before after p ps t prepared x r fine good b c (
                execute_steps-Progress (clone p.after) ps x.trace r (
                  simp (Committed-error (clone before) after p prepared (begun (poll ∷ t)) x c) at
                    more))
        ]
  ]

  -- A prefix of the steps has been executed, and the preflight of the step after it panics.
  abbrev pub Panics : ProjectState → List PreparedStep → Trace → Type 0
  Panics before ps t =
      (s : ProjectState) × (p : PreparedStep) × (rest : List PreparedStep) × (v : Trace) × Advanced
        before ps t s (p ∷ rest) v
      × (preflight s p.migration (way p) ≡ stuck)

  pub execute_steps-eq-stuck :
      (before : ProjectState) (ps : List PreparedStep) (t : Trace)
      → execute_steps env before ps t ≡ stuck
      → Panics before ps t
  unfolding execute_steps
  execute_steps-eq-stuck before [] t h = absurd (ground arith)
  execute_steps-eq-stuck before (p ∷ ps) t h = elim (Option-cases (env.context_error t)) [
    | inr (cause, bad) ↦ let h' = simp (execute_steps, bad) at h in absurd (ground arith)
    | inl fine ↦ elim (Outcome-cases (execute env before p.migration (way p) (poll ∷ t))) [
      | inr (inl (never, _)) ↦ absurd never
      | inr (inr lost) ↦ (
        before,
        p,
        ps,
        t,
        Advanced.here,
        execute-eq-stuck env before p.migration (way p) (poll ∷ t) lost,
      )
      | inl (x, ran) ↦ elim (executed-Settled env before p.migration (way p) (poll ∷ t) x ran) [
        | inl refusal ↦
            let (e, failed, _) = Refused-error before p (poll ∷ t) x refusal in
            let h' = simp (execute_steps, fine, ran, failed) at h in absurd (ground arith)
        | inr (prepared, after, good, b, inl back) ↦
            let (e, failed) =
              RolledBack-error (clone before) p prepared (begun (poll ∷ t)) x back in
            let h' = simp (execute_steps, fine, ran, failed) at h in absurd (ground arith)
        | inr (prepared, after, good, b, inr c) ↦
            let well = Committed-error (clone before) after p prepared (begun (poll ∷ t)) x c in
            let (s, q, rest, v, advanced, lost) =
              execute_steps-eq-stuck (clone p.after) ps x.trace
                (simp (execute_steps, fine, ran, well) at h) in
            (s, q, rest, v, Advanced.step prepared after x fine good b c advanced, lost)
      ]
    ]
  ]
