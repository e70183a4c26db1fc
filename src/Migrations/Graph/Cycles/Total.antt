-- ===== src/Migrations/Graph/Cycles/Total.antt =====
-- Tarjan's search of a well-formed graph always ends: a visit nests at most as deep as nodes have no
-- index, and the node that a component ends with is on the stack.
use godj.Base.{
  ℕ, zero, suc, ◌≤◌, ◌<◌, ◌≡◌, refl, true, List, [], ◌∷◌, ◌++◌, inl, inr, ◌==◌, nat_eq, Bool-cases,
  elem, keep, length, ◌∈◌, Subset, elem-head, elem-tail, sort, arith, ok,
}
use godj.Migrations.Keys.{MigrationKey, key_eq, sort_migration_keys}
use godj.Migrations.Errors.{Planned}
use godj.Migrations.Graph.{PlannerGraph, parents_of}
use godj.Migrations.Graph.Shape.{IsWellFormed}
use godj.Migrations.Graph.Cycles.{
  Search, fresh, index_of, low_of, enter, lower, visit_parents, pop_component, is_cyclic, finish,
  visit, visit_all, by_first, smallest, first_cycle_component,
}
use godj.Migrations.Graph.Cycles.Growth.{
  length-keep_le, length-keep_lt, length-keep, Grow, Grow-refl, Grow-trans, enter-Grow, enter-Known,
  lower-Grow, pop_component_total,
}

abbrev Keys : Type 0
Keys = List MigrationKey

module _ (g : PlannerGraph) where
  -- How many nodes have no index.
  abbrev unknown : Search → ℕ
  unknown s = length (keep (λ key. index_of s key == 0) g.nodes)

  unknown-Grow : (s t : Search) → Grow s t → unknown t ≤ unknown s
  unknown-Grow s t p =
      length-keep_le (λ key. index_of s key == 0) (λ key. index_of t key == 0) g.nodes
        (λ key new. ground (arith, p.kept key))

  unknown-enter :
      (node : MigrationKey) (s : Search)
      → node ∈ g.nodes
      → (index_of s node == 0) ≡ true
      → unknown (enter node s) < unknown s
  unknown-enter node s m new =
      let p = enter-Grow node s in
      length-keep_lt (λ key. index_of s key == 0) (λ key. index_of (enter node s) key == 0) node
        g.nodes (λ key later. ground (arith, p.kept key)) m new (enter-Known node s)

  -- The end of a visit leaves on the stack at least what was below the node.
  finish_total :
      (node : MigrationKey) (s m : Search)
      → Grow (enter node s) m
      → (t : Search) × (finish g node m ≡ ok t) × Grow s t
  unfolding finish enter
  finish_total node s m p = elim (Bool-cases (low_of m node == index_of m node)) [
    | inr waits ↦ (m, rw (finish, waits) refl, Grow-trans s (enter node s) m (enter-Grow node s) p)
    | inl root ↦
        let (some, left, members, popped) =
          pop_component_total node p.pushed s.stack m.on_stack [] in
        let down : pop_component node m.stack m.on_stack [] ≡ ok (some ++ s.stack, left, members) =
          rw p.stacked popped in
        let whole = Grow-trans s (enter node s) m (enter-Grow node s) p in
        elim (Bool-cases (is_cyclic g (sort_migration_keys members))) [
          | inl cyclic ↦ (
            record m {
              stack = some ++ s.stack;
              on_stack = left;
              components = m.components ++ sort_migration_keys members ∷ [];
            },
            simp (finish, root, down, cyclic) refl,
            record { pushed = some; stacked = refl; kept = whole.kept },
          )
          | inr single ↦ (
            record m { stack = some ++ s.stack; on_stack = left },
            simp (finish, root, down, single) refl,
            record { pushed = some; stacked = refl; kept = whole.kept },
          )
        ]
  ]

  -- A visit of a node without an index ends where so many nodes have none.
  abbrev Ends : ℕ → (MigrationKey → Search → Planned Search) → Type 0
  Ends n run =
      (node : MigrationKey) (s : Search)
      → node ∈ g.nodes
      → (index_of s node == 0) ≡ true
      → unknown s ≤ n
      → (t : Search) × (run node s ≡ ok t) × Grow s t

  visit_parents_total :
      (n : ℕ) (run : MigrationKey → Search → Planned Search)
      → Ends n run
      → (node : MigrationKey) (parents : Keys) (s : Search) → Subset parents g.nodes
      → unknown s ≤ n
      → (t : Search) × (visit_parents run node parents s ≡ ok t) × Grow s t
  unfolding visit_parents
  visit_parents_total n run ends node [] s known few = (s, refl, Grow-refl s)
  visit_parents_total n run ends node (parent ∷ rest) s known few =
      let others = λ (k : MigrationKey) (m : k ∈ rest). known k (elem-tail k parent rest m) in
      elim (Bool-cases (index_of s parent == 0)) [
        | inl new ↦
            let (m, ran, p) = ends parent s (known parent (elem-head parent rest)) new few in
            let next = lower node (low_of m parent) m in
            let whole = Grow-trans s m next p (lower-Grow node (low_of m parent) m) in
            let fewer = unknown-Grow s next whole in
            let (t, e, q) = visit_parents_total n run ends node rest next others (omega arith) in
            (t, rw (visit_parents, new, ran) e, Grow-trans s next t whole q)
        | inr old ↦ elim (Bool-cases (elem parent s.on_stack)) [
          | inl waiting ↦
              let next = lower node (index_of s parent) s in
              let whole = lower-Grow node (index_of s parent) s in
              let fewer = unknown-Grow s next whole in
              let (t, e, q) = visit_parents_total n run ends node rest next others (omega arith) in
              (t, rw (visit_parents, old, waiting) e, Grow-trans s next t whole q)
          | inr over ↦
              let (t, e, q) = visit_parents_total n run ends node rest s others few in
              (t, rw (visit_parents, old, over) e, q)
        ]
      ]

  module _ (w : IsWellFormed g) where
    -- As much fuel as nodes have no index is enough.
    visit_total : (fuel : ℕ) → Ends fuel (visit g fuel)
    unfolding visit
    visit_total zero node s m new few =
        let less = unknown-enter node s m new in absurd (omega arith)
    visit_total (suc fuel) node s m new few =
        let less = unknown-enter node s m new in
        let (middle, ran, p) =
          visit_parents_total fuel (visit g fuel) (visit_total fuel) node (parents_of g node)
            (enter node s) (λ parent e. w.known node parent e) (omega arith) in
        let (t, ended, q) = finish_total node s middle p in (t, rw (visit, ran) ended, q)

    visit_all_total :
        (fuel : ℕ) (nodes : Keys) (s : Search)
        → Subset nodes g.nodes
        → unknown s ≤ fuel
        → (t : Search) × (visit_all g fuel nodes s ≡ ok t)
    unfolding visit_all
    visit_all_total fuel [] s known few = (s, refl)
    visit_all_total fuel (node ∷ nodes) s known few =
        let others = λ (k : MigrationKey) (m : k ∈ nodes). known k (elem-tail k node nodes m) in
        elim (Bool-cases (index_of s node == 0)) [
          | inl new ↦
              let (m, ran, p) =
                visit_total fuel node s (known node (elem-head node nodes)) new few in
              let fewer = unknown-Grow s m p in
              let (t, e) = visit_all_total fuel nodes m others (omega arith) in
              (t, rw (visit_all, new, ran) e)
          | inr old ↦
              let (t, e) = visit_all_total fuel nodes s others few in (t, rw (visit_all, old) e)
        ]

    -- The search for a cycle in a well-formed graph gives a component or none.
    pub first_cycle_component_total : (members : Keys) × (first_cycle_component g ≡ ok members)
    unfolding first_cycle_component
    first_cycle_component_total =
        let (t, e) =
          visit_all_total (length g.nodes) g.nodes fresh (λ k m. m)
            (length-keep (λ key. index_of fresh key == 0) g.nodes) in
        (smallest (sort by_first t.components), rw (first_cycle_component, e) refl)
