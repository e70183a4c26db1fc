-- ===== src/Migrations/Graph/Shape.antt =====
-- What a graph is that the planner has accepted, and when a set of applied keys fits it.
use godj.Base.{
  ℕ, ◌<◌, ◌≡◌, ◌↔◌, false, not, List, [], ◌∷◌, none, some, inl, inr, ==_iff, Bool-cases,
  Option-cases, elem, find, ◌∈◌, Nodup, elem-insert, elem-delete, elem-head, elem-tail,
  elem-cons_cases, not-elem-nil, find-eq-some, find-eq-none, arith, ok,
}
use godj.Migrations.Keys.{MigrationKey, key_eq}
use godj.Migrations.Errors.{Direction}
use godj.Migrations.Graph.{
  PlannerGraph, PlanStep, parents_of, children_of, contains, history_gap, validate_applied_history,
}
use godj.Migrations.Graph.Runs.{Allowed, applied_after, Run}

abbrev Keys : Type 0
Keys = List MigrationKey

-- The children are the parents read the other way, and all of them are nodes.
pub record IsWellFormed (g : PlannerGraph) : Type 0 where
  pub known : (key parent : MigrationKey) → parent ∈ parents_of g key → parent ∈ g.nodes
  pub source : (key parent : MigrationKey) → parent ∈ parents_of g key → key ∈ g.nodes
  pub transposed :
      (key child : MigrationKey) → elem child (children_of g key) ≡ elem key (parents_of g child)
  pub contained : (key : MigrationKey) → contains g key ≡ elem key g.nodes
  pub distinct : Nodup g.nodes

-- No key needs itself: every parent has a smaller rank.
pub record IsAcyclic (g : PlannerGraph) : Type 0 where
  pub rank : MigrationKey → ℕ
  pub descends : (key parent : MigrationKey) → parent ∈ parents_of g key → rank parent < rank key

module _ (g : PlannerGraph) where
  -- Every applied node has its parents applied.
  abbrev pub Consistent : Keys → Type 0
  Consistent applied =
      (child parent : MigrationKey)
      → child ∈ g.nodes
      → child ∈ applied
      → parent ∈ parents_of g child
      → parent ∈ applied

  history_gap-eq-none :
      (applied nodes : Keys)
      → history_gap g applied nodes ≡ none
      → (child parent : MigrationKey) → child ∈ nodes
      → child ∈ applied
      → parent ∈ parents_of g child
      → parent ∈ applied
  unfolding history_gap
  history_gap-eq-none applied [] h child parent m a e = absurd (not-elem-nil child m)
  history_gap-eq-none applied (node ∷ nodes) h child parent m a e =
      elim (elem-cons_cases child node nodes m) [
        | inl same ↦ elim (Option-cases (find (λ p. not (elem p applied)) (parents_of g node))) [
          | inl full ↦
              ground
                (arith, find-eq-none (λ p. not (elem p applied)) parent (parents_of g node) full)
          | inr (p, gap) ↦ absurd (ground arith)
        ]
        | inr later ↦ history_gap-eq-none applied nodes (ground arith) child parent later a e
      ]

  history_gap-eq-some :
      (applied nodes : Keys) {child parent : MigrationKey}
      → history_gap g applied nodes ≡ some (child, parent)
      → (child ∈ nodes)
        × (child ∈ applied)
        × (parent ∈ parents_of g child)
        × (elem parent applied ≡ false)
  unfolding history_gap
  history_gap-eq-some applied [] h = cc
  history_gap-eq-some applied (node ∷ nodes) {child} {parent} h =
      elim (Bool-cases (elem node applied)) [
        | inl held ↦ elim (Option-cases (find (λ p. not (elem p applied)) (parents_of g node))) [
          | inl full ↦
              let (m, a, e, f) =
                history_gap-eq-some applied nodes {child = child} {parent = parent}
                  (ground arith) in
              (elem-tail child node nodes m, a, e, f)
          | inr (p, gap) ↦
              let (fails, edge) =
                find-eq-some (λ p. not (elem p applied)) (parents_of g node) gap in
              let same : node ≡ child = ground arith in
              let same_parent : p ≡ parent = ground arith in
              rw (← same, ← same_parent) (elem-head node nodes, held, edge, ground arith)
        ]
        | inr free ↦
            let (m, a, e, f) =
              history_gap-eq-some applied nodes {child = child} {parent = parent} (ground arith) in
            (elem-tail child node nodes m, a, e, f)
      ]

  -- `validateAppliedHistory` accepts exactly the sets in which every applied node has its parents
  -- applied.
  pub validate_applied_history_iff :
      (applied : Keys) → (validate_applied_history g applied ≡ ok tt) ↔ Consistent applied
  unfolding validate_applied_history
  validate_applied_history_iff applied = elim (Option-cases (history_gap g applied g.nodes)) [
    | inl none_found ↦ (
      λ h child parent m a e. history_gap-eq-none applied g.nodes none_found child parent m a e,
      λ c. rw (none_found, validate_applied_history),
    )
    | inr ((child, parent), gap) ↦
        let (node, applied_child, edge, missing) = history_gap-eq-some applied g.nodes gap in
        (
          λ h. absurd (ground arith),
          λ c. absurd (ground (arith, c child parent node applied_child edge)),
        )
  ]

  Allowed-Consistent :
      IsWellFormed g
      → (applied : Keys) (key : MigrationKey) (direction : Direction)
      → Allowed g applied key direction
      → Consistent applied
      → Consistent (applied_after g applied key direction)
  Allowed-Consistent w applied key Direction.forward a c child parent m e edge = ground (
    arith,
    elem-insert child key applied,
    elem-insert parent key applied,
    ==_iff child key,
    c child parent,
    a.2 parent,
  )
  Allowed-Consistent w applied key Direction.backward a c child parent m e edge = ground (
    arith,
    elem-delete child key applied,
    elem-delete parent key applied,
    ==_iff parent key,
    c child parent,
    a.2 child,
    w.transposed parent child,
  )
  Allowed-Consistent w applied key (Direction.other _) a c child parent m e edge = absurd a

  -- Allowed steps keep the applied keys consistent.
  pub Run-Consistent :
      IsWellFormed g
      → (steps : List PlanStep) (applied after : Keys) → Run g applied steps after
      → Consistent applied
      → Consistent after
  Run-Consistent w [] applied after r c = rw r c
  Run-Consistent w (step ∷ rest) applied after r c =
      Run-Consistent w rest (applied_after g applied step.key step.direction) after r.1
        (Allowed-Consistent w applied step.key step.direction r.0 c)
