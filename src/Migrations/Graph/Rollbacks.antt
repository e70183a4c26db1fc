-- ===== src/Migrations/Graph/Rollbacks.antt =====
-- The first loop of `planBackward`: what the candidates are when it ends, and that it ends within as
-- many visits as the graph has nodes.
use godj.Base.{
  ℕ, zero, suc, ◌+◌, ◌≤◌, ◌≡◌, refl, true, false, ◌&&◌, ◌||◌, List, [], ◌∷◌, inl, inr,
  if◌then◌else◌, ==_iff, ==_refl, Bool-cases, elem, insert, length, ◌∈◌, Nodup, Subset, elem-insert,
  elem-push, elem-head, elem-tail, elem-cons_cases, elem-push_cases, not-elem-nil, Nodup-insert,
  length-le-of_Subset, push, arith, ok,
}
use godj.Migrations.Keys.{MigrationKey, key_eq}
use godj.Migrations.Graph.{PlannerGraph, children_of, backward_candidates}
use godj.Migrations.Graph.Closures.{Dependent}

abbrev Keys : Type 0
Keys = List MigrationKey

module _ (g : PlannerGraph) (applied : Keys) where
  abbrev collected : MigrationKey → Keys → Keys
  collected key candidates = if elem key applied then insert key candidates else candidates

  -- What every round of the loop keeps holds at its end, of some set of visited keys.
  backward_rule :
      (P : Keys → Keys → Keys → Type 0)
      → ((key : MigrationKey) (stack visited candidates : Keys)
          → elem key visited ≡ true
          → P (key ∷ stack) visited candidates
          → P stack visited candidates)
      → ((key : MigrationKey) (stack visited candidates : Keys)
          → elem key visited ≡ false
          → P (key ∷ stack) visited candidates
          → P (push (children_of g key) stack) (key ∷ visited) (collected key candidates))
      → (budget : ℕ) (stack visited candidates result : Keys) → P stack visited candidates
      → backward_candidates g applied budget stack visited candidates ≡ ok result
      → (seen : Keys) × P [] seen result
  unfolding backward_candidates
  backward_rule P skip visit budget [] visited candidates result p h =
      let e : candidates ≡ result = ground arith in (visited, rw e at p)
  backward_rule P skip visit zero (key ∷ stack) visited candidates result p h =
      elim (Bool-cases (elem key visited)) [
        | inl old ↦
            backward_rule P skip visit zero stack visited candidates result
              (skip key stack visited candidates old p) (rw old at h)
        | inr new ↦ absurd (ground arith)
      ]
  backward_rule P skip visit (suc budget) (key ∷ stack) visited candidates result p h =
      elim (Bool-cases (elem key visited)) [
        | inl old ↦
            backward_rule P skip visit (suc budget) stack visited candidates result
              (skip key stack visited candidates old p) (rw old at h)
        | inr new ↦
            backward_rule P skip visit budget (push (children_of g key) stack) (key ∷ visited)
              (collected key candidates) result (visit key stack visited candidates new p)
              (rw new at h)
      ]

  -- The candidates are the applied keys among those visited.
  record BackwardClosure (seed : MigrationKey) (stack visited candidates : Keys) : Type 0 where
    picked : (key : MigrationKey) → elem key candidates ≡ (elem key visited && elem key applied)
    closed :
        (key child : MigrationKey)
        → key ∈ visited
        → child ∈ children_of g key
        → (elem child visited || elem child stack) ≡ true
    distinct : Nodup candidates
    reaches : (elem seed visited || elem seed stack) ≡ true

  BackwardClosure-skip :
      (seed key : MigrationKey) (stack visited candidates : Keys)
      → elem key visited ≡ true
      → BackwardClosure seed (key ∷ stack) visited candidates
      → BackwardClosure seed stack visited candidates
  unfolding elem
  BackwardClosure-skip seed key stack visited candidates old p = record {
    picked = p.picked;
    closed = λ k child m e. ground (arith, p.closed k child m e, ==_iff child key);
    distinct = p.distinct;
    reaches = ground (arith, p.reaches, ==_iff seed key);
  }

  BackwardClosure-visit :
      (seed key : MigrationKey) (stack visited candidates : Keys)
      → elem key visited ≡ false
      → BackwardClosure seed (key ∷ stack) visited candidates
      → BackwardClosure seed
          (push (children_of g key) stack)
          (key ∷ visited)
          (collected key candidates)
  unfolding elem
  BackwardClosure-visit seed key stack visited candidates new p = record {
    picked = λ k. ground (arith, p.picked k, elem-insert k key candidates, ==_iff k key);
    closed = λ k child m e. ground (
      arith,
      p.closed k child,
      ==_iff k key,
      ==_iff child key,
      elem-push child (children_of g key) stack,
    );
    distinct = ground (arith, p.distinct, Nodup-insert key candidates);
    reaches = ground (arith, p.reaches, elem-push seed (children_of g key) stack);
  }

  -- The candidates of `planBackward`: applied keys, each once, with the seed among them if it is
  -- applied, and closed under applied children of all keys that depend on the seed.
  pub record BackwardCandidates (seed : MigrationKey) (candidates : Keys) : Type 0 where
    pub visited : Keys
    pub picked : (key : MigrationKey) → elem key candidates ≡ (elem key visited && elem key applied)
    pub closed :
        (key child : MigrationKey) → key ∈ visited → child ∈ children_of g key → child ∈ visited
    pub distinct : Nodup candidates
    pub reaches : seed ∈ visited

  pub backward_candidates_lem :
      (budget : ℕ) (seed : MigrationKey) (candidates : Keys)
      → backward_candidates g applied budget (seed ∷ []) [] [] ≡ ok candidates
      → BackwardCandidates seed candidates
  unfolding elem
  backward_candidates_lem budget seed candidates h =
      let start : BackwardClosure seed (seed ∷ []) [] [] = record {
        picked = λ k. refl;
        closed = λ k child m e. absurd (ground arith);
        distinct = tt;
        reaches = ground arith;
      } in
      let (seen, end) =
        backward_rule (BackwardClosure seed) (BackwardClosure-skip seed)
          (BackwardClosure-visit seed) budget (seed ∷ []) [] [] candidates start h in
      record {
        visited = seen;
        picked = end.picked;
        closed = λ k child m e. ground (arith, end.closed k child m e);
        distinct = end.distinct;
        reaches = ground (arith, end.reaches);
      }

  -- Every candidate depends on the seed.
  pub backward_candidates-Dependent :
      (budget : ℕ) (seed : MigrationKey) (candidates : Keys)
      → backward_candidates g applied budget (seed ∷ []) [] [] ≡ ok candidates
      → (key : MigrationKey) → key ∈ candidates
      → Dependent g seed key
  backward_candidates-Dependent budget seed candidates h =
      let (_, end) =
        backward_rule
          (λ stack visited found.
            ((key : MigrationKey) → key ∈ stack → Dependent g seed key)
            × ((key : MigrationKey) → key ∈ found → Dependent g seed key))
          (λ key stack visited found old p. (λ k m. p.0 k (elem-tail k key stack m), p.1))
          (λ key stack visited found new p. (
            λ k m. elim (elem-push_cases k (children_of g key) stack m) [
              | inl down ↦ Dependent.dependent k (p.0 key (elem-head key stack)) down
              | inr waiting ↦ p.0 k (elem-tail k key stack waiting)
            ],
            λ k m. elim (Bool-cases (elem k found)) [
              | inl old ↦ p.1 k old
              | inr fresh ↦
                  let e : k ≡ key = ground (arith, elem-insert k key found, ==_iff k key) in
                  rw e (p.0 key (elem-head key stack))
            ],
          ))
          budget (seed ∷ []) [] [] candidates
          (
            λ k m. elim (elem-cons_cases k seed [] m) [
              | inl e ↦ rw e Dependent.itself
              | inr none ↦ absurd (not-elem-nil k none)
            ],
            λ k m. absurd (not-elem-nil k m),
          )
          h in
      end.1

  -- Where the graph holds the children of its nodes, its number of nodes is enough budget.
  pub backward_candidates_total :
      (budget : ℕ) (stack visited candidates : Keys)
      → ((key child : MigrationKey) → child ∈ children_of g key → child ∈ g.nodes)
      → Nodup visited
      → Subset visited g.nodes
      → Subset stack g.nodes
      → Subset candidates visited
      → length g.nodes ≤ length visited + budget
      → (result : Keys) × (backward_candidates g applied budget stack visited candidates
          ≡ ok result)
        × Subset result g.nodes
  unfolding backward_candidates
  backward_candidates_total budget [] visited candidates known distinct nodes below inside room =
      (candidates, refl, λ k m. nodes k (inside k m))
  backward_candidates_total zero (key ∷ stack) visited candidates known distinct nodes below inside
        room =
      elim (Bool-cases (elem key visited)) [
        | inl old ↦ rw old (
            backward_candidates_total zero stack visited candidates known distinct nodes
              (λ k m. below k (elem-tail k key stack m)) inside room)
        | inr new ↦ absurd (
            omega (
              arith,
              length-le-of_Subset (key ∷ visited) g.nodes (ground arith) (
                  unfold elem in
                  λ k m. ground (arith, nodes k, below k, ==_iff k key, ==_refl key)),
            ))
      ]
  backward_candidates_total (suc budget) (key ∷ stack) visited candidates known distinct nodes below
        inside room =
      elim (Bool-cases (elem key visited)) [
        | inl old ↦ rw old (
            backward_candidates_total (suc budget) stack visited candidates known distinct nodes
              (λ k m. below k (elem-tail k key stack m)) inside room)
        | inr new ↦ rw new (
            backward_candidates_total budget (push (children_of g key) stack) (key ∷ visited)
              (collected key candidates) known (ground arith)
              (unfold elem in λ k m. ground (arith, nodes k, below k, ==_iff k key, ==_refl key))
              (unfold elem in
                λ k m. ground (arith, known key k, below k, elem-push k (children_of g key) stack))
              (unfold elem in
                λ k m. ground (arith, inside k, elem-insert k key candidates, ==_iff k key))
              (omega arith))
      ]
