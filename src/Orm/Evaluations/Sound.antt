-- ===== src/Orm/Evaluations/Sound.antt =====
-- What holds of every evaluation state that callers can reach.
use mathlib.Core.Path.{subst}
use godj.Base.{
  ℕ, suc, nat_eq, ◌≡◌, refl, sym, ap, ◌⊎◌, inl, inr, Bool, true, false, Bool-cases, List, Option,
  none, some, ◌==◌, ==_iff, ==_refl, if◌then◌else◌,
}
use godj.Query.{Failure}
use godj.Orm.Evaluations.{
  Caller, looping, waiting, scanning, returned, failed, Evaluation, new_evaluation, become, Step,
  Reachable, Fits, IsSound,
}

module _ {M : Type 0} (is_context : Failure → Bool) where
  abbrev FitsIn : Evaluation M → ℕ → Caller M → Type 0
  FitsIn = Fits is_context

  -- One caller moves, and what the others' places say still holds.
  moved :
      (s t : Evaluation M) (i : ℕ) (c : Caller M)
      → t.callers ≡ become i c s.callers
      → FitsIn t i c
      → ((j : ℕ) → (j == i) ≡ false → FitsIn t j (s.callers j))
      → (j : ℕ) → FitsIn t j (t.callers j)
  unfolding become
  moved s t i c e here others j =
      subst (λ (callers : ℕ → Caller M). FitsIn t j (callers j)) (sym e)
        (elim (Bool-cases (j == i)) [
          | inl same ↦ rw same (subst (λ k. FitsIn t k c) (sym ((==_iff j i).0 same)) here)
          | inr other ↦ rw other (others j other)
        ])

  -- The owner of the flight is not a caller that moves from elsewhere.
  still_owned :
      (s : Evaluation M) (i : ℕ) (c : Caller M)
      → IsSound is_context s
      → ((f : ℕ) → s.callers i ≡ scanning f → false ≡ true)
      → (f o : ℕ) → s.flight ≡ some (f, o)
      → become i c s.callers o ≡ scanning f
  unfolding become
  still_owned s i c sound elsewhere f o flying = elim (Bool-cases (o == i)) [
    | inl same ↦
        let owner = sound.owned f o flying in
        let clash =
          elsewhere f (subst (λ k. s.callers k ≡ scanning f) ((==_iff o i).0 same) owner) in
        absurd (cc clash)
    | inr other ↦ rw other (sound.owned f o flying)
  ]

  -- A step that only moves a caller that owns nothing.
  moved-IsSound :
      (s : Evaluation M) (i : ℕ) (c : Caller M)
      → IsSound is_context s
      → FitsIn s i c
      → ((f : ℕ) → s.callers i ≡ scanning f → false ≡ true)
      → IsSound is_context (record s { callers = become i c s.callers })
  moved-IsSound s i c sound here elsewhere = record {
    fits =
        moved s (record s { callers = become i c s.callers }) i c refl here
          (λ j apart. sound.fits j);
    full = sound.full;
    owned = still_owned s i c sound elsewhere;
  }

  -- A flight that ends: its waiters have its error, and no one else scans.
  ended-fits :
      (s : Evaluation M) (i f : ℕ) (values : Option (List M)) (ended : Option Failure)
      (callers : ℕ → Caller M)
      → s.flight ≡ some (f, i)
      → s.values ≡ none
      → (j : ℕ) → (j == i) ≡ false
      → (d : Caller M) → FitsIn s j d
      → FitsIn
          (record s {
            values = values;
            flight = none;
            finished = become f (some ended) s.finished;
            callers = callers;
          })
          j
          d
  unfolding become
  ended-fits s i f values ended callers flying empty j apart looping h = tt
  ended-fits s i f values ended callers flying empty j apart (failed failure) h = tt
  ended-fits s i f values ended callers flying empty j apart (returned vs) h = cc
  ended-fits s i f values ended callers flying empty j apart (scanning g) h =
      let same : j ≡ i = cc in let clash : (j == i) ≡ true = (==_iff j i).1 same in cc
  ended-fits s i f values ended callers flying empty j apart (waiting g) (inl (o, h)) =
      let same : g ≡ f = cc in
      inr (ended, rw same (ap (λ b. if b then some ended else s.finished f) (==_refl f)))
  ended-fits s i f values ended callers flying empty j apart (waiting g) (inr (e, h)) =
      elim (Bool-cases (g == f)) [
        | inl same ↦ inr (ended, rw same refl)
        | inr other ↦ inr (e, rw other h)
      ]

  -- While a flight is in progress nothing is cached.
  flying-empty :
      (s : Evaluation M) (f o : ℕ)
      → IsSound is_context s
      → s.flight ≡ some (f, o)
      → (v : Option (List M)) → v ≡ s.values
      → v ≡ none
  flying-empty s f o sound flying none e = refl
  flying-empty s f o sound flying (some vs) e = let landed = sound.full vs (sym e) in cc

  claimed-fits :
      (s : Evaluation M) (j : ℕ) (flight : Option (ℕ × ℕ)) (n : ℕ) (callers : ℕ → Caller M)
      → s.flight ≡ none
      → (d : Caller M) → FitsIn s j d
      → FitsIn (record s { flight = flight; started = n; callers = callers }) j d
  claimed-fits s j flight n callers free looping h = tt
  claimed-fits s j flight n callers free (failed failure) h = tt
  claimed-fits s j flight n callers free (returned vs) h = h
  claimed-fits s j flight n callers free (scanning g) h = cc
  claimed-fits s j flight n callers free (waiting g) (inl (o, h)) = cc
  claimed-fits s j flight n callers free (waiting g) (inr ended) = inr ended

  claimed :
      (callers : ℕ → Caller M) (f o started i : ℕ)
      → ◌≡◌ {A = Option (ℕ × ℕ)} (some (started, i)) (some (f, o))
      → become i (scanning started) callers o ≡ scanning f
  unfolding become
  claimed callers f o started i h =
      let same : started ≡ f = cc in
      let owner : o ≡ i = cc in rw owner (rw (==_refl i) (ap scanning same))

  new-IsSound : IsSound is_context (new_evaluation {M = M})
  unfolding new_evaluation
  new-IsSound = record { fits = λ i. tt; full = λ values h. cc; owned = λ f o h. cc }

  step-IsSound :
      (s t : Evaluation M) → IsSound is_context s → Step is_context s t → IsSound is_context t
  step-IsSound s t sound (Step.canceled i failure (inl here)) =
      moved-IsSound s i (failed failure) sound tt (λ f h. cc)
  step-IsSound s t sound (Step.canceled i failure (inr (f, here))) =
      moved-IsSound s i (failed failure) sound tt (λ g h. cc)
  step-IsSound s t sound (Step.hit i values here cached) =
      moved-IsSound s i (returned values) sound cached (λ f h. cc)
  step-IsSound s t sound (Step.join i f o here empty flying) =
      moved-IsSound s i (waiting f) sound (inl (o, flying)) (λ g h. cc)
  step-IsSound s t sound (Step.retry i f ended here over loops) =
      moved-IsSound s i looping sound tt (λ g h. cc)
  step-IsSound s t sound (Step.give_up i f failure here over other) =
      moved-IsSound s i (failed failure) sound tt (λ g h. cc)
  step-IsSound s t sound (Step.claim i here empty free) =
      let callers = become i (scanning s.started) s.callers in
      record {
        fits =
            moved s
              (record s {
                flight = some (s.started, i);
                started = suc s.started;
                callers = callers;
              })
              i (scanning s.started) refl refl
              (λ j apart.
                claimed-fits s j (some (s.started, i)) (suc s.started) callers free (s.callers j)
                  (sound.fits j));
        full = λ values h. cc;
        owned = λ f o h. claimed s.callers f o s.started i h;
      }
  step-IsSound s t sound (Step.succeed i f values here) =
      let flying : s.flight ≡ some (f, i) = subst (λ c. FitsIn s i c) here (sound.fits i) in
      let callers = become i (returned values) s.callers in
      record {
        fits =
            moved s
              (record s {
                values = some values;
                flight = none;
                finished = become f (some none) s.finished;
                callers = callers;
              })
              i (returned values) refl refl
              (λ j apart.
                ended-fits s i f (some values) none callers flying
                  (flying-empty s f i sound flying s.values refl) j apart (s.callers j)
                  (sound.fits j));
        full = λ vs h. refl;
        owned = λ g o h. cc;
      }
  step-IsSound s t sound (Step.fail i f failure here) =
      let flying : s.flight ≡ some (f, i) = subst (λ c. FitsIn s i c) here (sound.fits i) in
      let callers = become i (failed failure) s.callers in
      record {
        fits =
            moved s
              (record s {
                flight = none;
                finished = become f (some (some failure)) s.finished;
                callers = callers;
              })
              i (failed failure) refl tt
              (λ j apart.
                ended-fits s i f s.values (some failure) callers flying
                  (flying-empty s f i sound flying s.values refl) j apart (s.callers j)
                  (sound.fits j));
        full = λ vs h. refl;
        owned = λ g o h. cc;
      }

  Reachable-IsSound : (s : Evaluation M) → Reachable is_context s → IsSound is_context s
  Reachable-IsSound s Reachable.start = new-IsSound
  Reachable-IsSound s (Reachable.next {s = t} reached step) =
      step-IsSound t s (Reachable-IsSound t reached) step

  -- However the calls of All interleave, at most one caller at a time evaluates the query; all callers
  -- that return values return the same ones; and a caller that waits waits for a flight that is over,
  -- or whose owner is evaluating.
  pub Reachable-shared :
      (s : Evaluation M)
      → Reachable is_context s
      → ((i j f g : ℕ) → s.callers i ≡ scanning f → s.callers j ≡ scanning g → i ≡ j)
        × ((i j : ℕ) (values others : List M)
            → s.callers i ≡ returned values
            → s.callers j ≡ returned others
            → values ≡ others)
        × ((i f : ℕ)
            → s.callers i ≡ waiting f
            → ((o : ℕ) × (s.callers o ≡ scanning f))
              ⊎ ((e : Option Failure) × (s.finished f ≡ some e)))
  Reachable-shared s reached =
      let sound = Reachable-IsSound s reached in
      let place = λ (i : ℕ) (c : Caller M) (at : s.callers i ≡ c).
        subst (λ d. FitsIn s i d) at (sound.fits i) in
      (
        λ i j f g at_i at_j.
            let flying_i = place i (scanning f) at_i in
            let flying_j = place j (scanning g) at_j in cc,
        λ i j values others at_i at_j.
            let cached = place i (returned values) at_i in
            let also = place j (returned others) at_j in cc,
        λ i f at_i. elim (place i (waiting f) at_i) [
          | inl (o, flying) ↦ inl (o, sound.owned f o flying)
          | inr over ↦ inr over
        ],
      )

  -- In a reachable state whose cache is filled, no step changes the cache or starts an evaluation.
  pub Reachable-kept :
      (s t : Evaluation M) (values : List M)
      → Reachable is_context s
      → s.values ≡ some values
      → Step is_context s t
      → (t.values ≡ some values) × (t.started ≡ s.started)
  Reachable-kept s t values reached full step = kept (Reachable-IsSound s reached) step
    where
      kept :
          {u : Evaluation M}
          → IsSound is_context s
          → Step is_context s u
          → (u.values ≡ some values) × (u.started ≡ s.started)
      kept sound (Step.canceled i failure here) = (full, refl)
      kept sound (Step.hit i vs here cached) = (full, refl)
      kept sound (Step.join i f o here empty flying) = (full, refl)
      kept sound (Step.retry i f ended here over loops) = (full, refl)
      kept sound (Step.give_up i f failure here over other) = (full, refl)
      kept sound (Step.claim i here empty free) = cc
      kept sound (Step.fail i f failure here) = (full, refl)
      kept sound (Step.succeed i f vs here) =
          let flying : s.flight ≡ some (f, i) = subst (λ c. FitsIn s i c) here (sound.fits i) in
          let empty = flying-empty s f i sound flying s.values refl in cc
