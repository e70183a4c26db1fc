-- ===== src/Migrations/Graph/Closures.antt =====
-- The first loops of `planForward` and `planBackward`: what the candidates are when they end, and
-- that they end within as many visits as the graph has nodes.
use godj.Base.{
  ℕ, zero, suc, ◌+◌, ◌≤◌, ◌≡◌, refl, true, false, ◌||◌, List, [], ◌∷◌, inl, inr, ==_iff, ==_refl,
  Bool-cases, elem, length, ◌∈◌, Nodup, Subset, elem-push, elem-head, elem-tail, elem-cons_cases,
  elem-push_cases, not-elem-nil, length-le-of_Subset, push, arith, ok,
}
use godj.Migrations.Keys.{MigrationKey, key_eq}
use godj.Migrations.Graph.{PlannerGraph, parents_of, children_of, forward_candidates}

abbrev Keys : Type 0
Keys = List MigrationKey

-- The keys that `goal` needs: itself, and the parents of what it needs.
pub data Needs (g : PlannerGraph) (goal : MigrationKey) : MigrationKey → Type 0 where
  itself : Needs g goal goal
  dependency :
      {key : MigrationKey} (next : MigrationKey)
      → Needs g goal key
      → next ∈ parents_of g key
      → Needs g goal next

-- The keys that depend on `seed`: itself, and the children of what depends on it.
pub data Dependent (g : PlannerGraph) (seed : MigrationKey) : MigrationKey → Type 0 where
  itself : Dependent g seed seed
  dependent :
      {key : MigrationKey} (next : MigrationKey)
      → Dependent g seed key
      → next ∈ children_of g key
      → Dependent g seed next

module _ (g : PlannerGraph) (applied : Keys) where
  -- What every round of the loop keeps holds at its end.
  forward_rule :
      (P : Keys → Keys → Type 0)
      → ((key : MigrationKey) (stack candidates : Keys)
          → (elem key applied || elem key candidates) ≡ true
          → P (key ∷ stack) candidates
          → P stack candidates)
      → ((key : MigrationKey) (stack candidates : Keys)
          → (elem key applied || elem key candidates) ≡ false
          → P (key ∷ stack) candidates
          → P (push (parents_of g key) stack) (key ∷ candidates))
      → (budget : ℕ) (stack candidates result : Keys) → P stack candidates
      → forward_candidates g applied budget stack candidates ≡ ok result
      → P [] result
  unfolding forward_candidates
  forward_rule P skip visit budget [] candidates result p h =
      let e : candidates ≡ result = ground arith in rw e at p
  forward_rule P skip visit zero (key ∷ stack) candidates result p h =
      elim (Bool-cases (elem key applied || elem key candidates)) [
        | inl old ↦
            forward_rule P skip visit zero stack candidates result (skip key stack candidates old p)
              (rw old at h)
        | inr new ↦ absurd (ground arith)
      ]
  forward_rule P skip visit (suc budget) (key ∷ stack) candidates result p h =
      elim (Bool-cases (elem key applied || elem key candidates)) [
        | inl old ↦
            forward_rule P skip visit (suc budget) stack candidates result
              (skip key stack candidates old p) (rw old at h)
        | inr new ↦
            forward_rule P skip visit budget (push (parents_of g key) stack) (key ∷ candidates)
              result (visit key stack candidates new p) (rw new at h)
      ]

  -- The candidates so far, and the keys that are still on the stack.
  record ForwardClosure (goal : MigrationKey) (stack candidates : Keys) : Type 0 where
    fresh : (key : MigrationKey) → key ∈ candidates → elem key applied ≡ false
    closed :
        (key parent : MigrationKey)
        → key ∈ candidates
        → parent ∈ parents_of g key
        → (elem parent applied || (elem parent candidates || elem parent stack)) ≡ true
    distinct : Nodup candidates
    reaches : (elem goal applied || (elem goal candidates || elem goal stack)) ≡ true

  ForwardClosure-skip :
      (goal key : MigrationKey) (stack candidates : Keys)
      → (elem key applied || elem key candidates) ≡ true
      → ForwardClosure goal (key ∷ stack) candidates
      → ForwardClosure goal stack candidates
  unfolding elem
  ForwardClosure-skip goal key stack candidates old p = record {
    fresh = p.fresh;
    closed = λ k parent m e. ground (arith, p.closed k parent m e, ==_iff parent key);
    distinct = p.distinct;
    reaches = ground (arith, p.reaches, ==_iff goal key);
  }

  ForwardClosure-visit :
      (goal key : MigrationKey) (stack candidates : Keys)
      → (elem key applied || elem key candidates) ≡ false
      → ForwardClosure goal (key ∷ stack) candidates
      → ForwardClosure goal (push (parents_of g key) stack) (key ∷ candidates)
  unfolding elem
  ForwardClosure-visit goal key stack candidates new p = record {
    fresh = λ k m. ground (arith, p.fresh k, ==_iff k key);
    closed = λ k parent m e. ground (
      arith,
      p.closed k parent,
      ==_iff k key,
      ==_iff parent key,
      elem-push parent (parents_of g key) stack,
    );
    distinct = ground (arith, p.distinct);
    reaches = ground (arith, p.reaches, elem-push goal (parents_of g key) stack);
  }

  -- The candidates of `planForward`: keys that are not applied, closed under parents up to the
  -- applied keys, each once, with the target among them or applied.
  pub record ForwardCandidates (goal : MigrationKey) (candidates : Keys) : Type 0 where
    pub fresh : (key : MigrationKey) → key ∈ candidates → elem key applied ≡ false
    pub closed :
        (key parent : MigrationKey)
        → key ∈ candidates
        → parent ∈ parents_of g key
        → (elem parent applied || elem parent candidates) ≡ true
    pub distinct : Nodup candidates
    pub reaches : (elem goal applied || elem goal candidates) ≡ true

  pub forward_candidates_lem :
      (budget : ℕ) (goal : MigrationKey) (candidates : Keys)
      → forward_candidates g applied budget (goal ∷ []) [] ≡ ok candidates
      → ForwardCandidates goal candidates
  unfolding elem
  forward_candidates_lem budget goal candidates h =
      let start : ForwardClosure goal (goal ∷ []) [] = record {
        fresh = λ k m. absurd (ground arith);
        closed = λ k parent m e. absurd (ground arith);
        distinct = tt;
        reaches = ground arith;
      } in
      let end =
        forward_rule (ForwardClosure goal) (ForwardClosure-skip goal) (ForwardClosure-visit goal)
          budget (goal ∷ []) [] candidates start h in
      record {
        fresh = end.fresh;
        closed = λ k parent m e. ground (arith, end.closed k parent m e);
        distinct = end.distinct;
        reaches = ground (arith, end.reaches);
      }

  -- Every candidate is needed by the target.
  pub forward_candidates-Needs :
      (budget : ℕ) (goal : MigrationKey) (candidates : Keys)
      → forward_candidates g applied budget (goal ∷ []) [] ≡ ok candidates
      → (key : MigrationKey) → key ∈ candidates
      → Needs g goal key
  forward_candidates-Needs budget goal candidates h =
      let end =
        forward_rule
          (λ stack found.
            ((key : MigrationKey) → key ∈ stack → Needs g goal key)
            × ((key : MigrationKey) → key ∈ found → Needs g goal key))
          (λ key stack found old p. (λ k m. p.0 k (elem-tail k key stack m), p.1))
          (λ key stack found new p. (
            λ k m. elim (elem-push_cases k (parents_of g key) stack m) [
              | inl up ↦ Needs.dependency k (p.0 key (elem-head key stack)) up
              | inr waiting ↦ p.0 k (elem-tail k key stack waiting)
            ],
            λ k m. elim (elem-cons_cases k key found m) [
              | inl e ↦ rw e (p.0 key (elem-head key stack))
              | inr old ↦ p.1 k old
            ],
          ))
          budget (goal ∷ []) [] candidates
          (
            λ k m. elim (elem-cons_cases k goal [] m) [
              | inl e ↦ rw e Needs.itself
              | inr none ↦ absurd (not-elem-nil k none)
            ],
            λ k m. absurd (not-elem-nil k m),
          )
          h in
      end.1

  -- Where the graph holds the parents of its nodes, its number of nodes is enough budget.
  pub forward_candidates_total :
      (budget : ℕ) (stack candidates : Keys)
      → ((key parent : MigrationKey) → parent ∈ parents_of g key → parent ∈ g.nodes)
      → Nodup candidates
      → Subset candidates g.nodes
      → Subset stack g.nodes
      → length g.nodes ≤ length candidates + budget
      → (result : Keys) × (forward_candidates g applied budget stack candidates ≡ ok result)
        × Subset result g.nodes
  unfolding forward_candidates
  forward_candidates_total budget [] candidates known distinct nodes below room =
      (candidates, refl, nodes)
  forward_candidates_total zero (key ∷ stack) candidates known distinct nodes below room =
      elim (Bool-cases (elem key applied || elem key candidates)) [
        | inl old ↦ rw old (
            forward_candidates_total zero stack candidates known distinct nodes
              (λ k m. below k (unfold elem in ground arith)) room)
        | inr new ↦ absurd (
            omega (
              arith,
              length-le-of_Subset (key ∷ candidates) g.nodes (ground arith) (
                  unfold elem in
                  λ k m. ground (arith, nodes k, below k, ==_iff k key, ==_refl key)),
            ))
      ]
  forward_candidates_total (suc budget) (key ∷ stack) candidates known distinct nodes below room =
      elim (Bool-cases (elem key applied || elem key candidates)) [
        | inl old ↦ rw old (
            forward_candidates_total (suc budget) stack candidates known distinct nodes
              (λ k m. below k (unfold elem in ground arith)) room)
        | inr new ↦ rw new (
            forward_candidates_total budget (push (parents_of g key) stack) (key ∷ candidates) known
              (ground arith)
              (unfold elem in λ k m. ground (arith, nodes k, below k, ==_iff k key, ==_refl key))
              (unfold elem in
                λ k m. ground (arith, known key k, below k, elem-push k (parents_of g key) stack))
              (omega arith))
      ]
