-- ===== src/Orm/Evaluations.antt =====
-- QuerySet.All of orm/manager.go called from many goroutines that share one evaluation state: each step
-- is what one caller does under the mutex or on waking. A value of the cache is not shared, so the clones
-- that All hands out are not needed here.
pub mod Sound
use mathlib.Core.Path.{subst}
use godj.Base.{
  ℕ, suc, nat_eq, ◌≡◌, refl, sym, ap, ◌∙◌, ◌⊎◌, inl, inr, Bool, true, false, not, Bool-cases, List,
  Option, none, some, ◌==◌, ==_iff, ==_refl, if◌then◌else◌, arith,
}
use godj.Query.{Failure}

-- A caller: at the head of the loop, waiting for a flight, evaluating as its owner, or at the end.
pub data Caller (M : Type 0) : Type 0 where
  looping : Caller M
  waiting scanning : ℕ → Caller M
  returned : List M → Caller M
  failed : Failure → Caller M

-- `evaluationState`, the flights that are over with their errors, and the callers. The flight in progress
-- is known by a number, and stands with its owner.
pub record Evaluation (M : Type 0) : Type 0 where
  pub values : Option (List M)
  pub flight : Option (ℕ × ℕ)
  pub started : ℕ
  pub finished : ℕ → Option (Option Failure)
  pub callers : ℕ → Caller M

unfoldable pub new_evaluation : {M : Type 0} → Evaluation M
new_evaluation = record {
  values = none;
  flight = none;
  started = 0;
  finished = λ f. none;
  callers = λ i. looping;
}

unfoldable pub become : {A : Type 0} → ℕ → A → (ℕ → A) → ℕ → A
become i a callers j = if j == i then a else callers j

-- May a caller that waited loop after an owner's error? After none, and after an error of a context.
unfoldable pub retries : (Failure → Bool) → Option Failure → Bool
retries is_context none = true
retries is_context (some failure) = is_context failure

module _ {M : Type 0} (is_context : Failure → Bool) where
  pub data Step (s : Evaluation M) : Evaluation M → Type 0 where
    -- A context that is over, at the head of the loop or while waiting.
    canceled :
        (i : ℕ) (failure : Failure)
        → (s.callers i ≡ looping) ⊎ ((f : ℕ) × (s.callers i ≡ waiting f))
        → Step s (record s { callers = become i (failed failure) s.callers })
    hit :
        (i : ℕ) (values : List M)
        → s.callers i ≡ looping
        → s.values ≡ some values
        → Step s (record s { callers = become i (returned values) s.callers })
    join :
        (i f o : ℕ)
        → s.callers i ≡ looping
        → s.values ≡ none
        → s.flight ≡ some (f, o)
        → Step s (record s { callers = become i (waiting f) s.callers })
    claim :
        (i : ℕ)
        → s.callers i ≡ looping
        → s.values ≡ none
        → s.flight ≡ none
        → Step s (record s {
          flight = some (s.started, i);
          started = suc s.started;
          callers = become i (scanning s.started) s.callers;
        })
    -- The owner's evaluation ends, with values or an error.
    succeed :
        (i f : ℕ) (values : List M)
        → s.callers i ≡ scanning f
        → Step s (record s {
          values = some values;
          flight = none;
          finished = become f (some none) s.finished;
          callers = become i (returned values) s.callers;
        })
    fail :
        (i f : ℕ) (failure : Failure)
        → s.callers i ≡ scanning f
        → Step s (record s {
          flight = none;
          finished = become f (some (some failure)) s.finished;
          callers = become i (failed failure) s.callers;
        })
    -- A caller wakes.
    retry :
        (i f : ℕ) (ended : Option Failure)
        → s.callers i ≡ waiting f
        → s.finished f ≡ some ended
        → retries is_context ended ≡ true
        → Step s (record s { callers = become i looping s.callers })
    give_up :
        (i f : ℕ) (failure : Failure)
        → s.callers i ≡ waiting f
        → s.finished f ≡ some (some failure)
        → is_context failure ≡ false
        → Step s (record s { callers = become i (failed failure) s.callers })

  pub data Reachable : Evaluation M → Type 0 where
    start : Reachable new_evaluation
    next : {s t : Evaluation M} → Reachable s → Step s t → Reachable t

  -- What a caller's place says of the state.
  abbrev pub Fits : Evaluation M → ℕ → Caller M → Type 0
  Fits s i looping = Unit
  Fits s i (waiting f) =
      ((o : ℕ) × (s.flight ≡ some (f, o))) ⊎ ((e : Option Failure) × (s.finished f ≡ some e))
  Fits s i (scanning f) = s.flight ≡ some (f, i)
  Fits s i (returned values) = s.values ≡ some values
  Fits s i (failed failure) = Unit

  pub record IsSound (s : Evaluation M) : Type 0 where
    pub fits : (i : ℕ) → Fits s i (s.callers i)
    pub full : (values : List M) → s.values ≡ some values → s.flight ≡ none
    pub owned : (f o : ℕ) → s.flight ≡ some (f, o) → s.callers o ≡ scanning f
