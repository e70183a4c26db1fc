-- ===== src/Migrations/Graph/Cycles/Exact.antt =====
-- Tarjan's search reports no component of an acyclic graph: the stack is the path of the visits that
-- are under way, so that every node is popped alone.
use mathlib.Core.Path.{subst}
use godj.Base.{
  ℕ, zero, suc, ◌≤◌, ◌<◌, ◌≡◌, refl, sym, ◌∙◌, true, false, List, [], ◌∷◌, inl, inr, ◌↔◌, ◌==◌,
  ==_iff, ==_refl, nat_eq, Bool-cases, elem, delete, length, is_nil, elem-insert, elem-delete,
  lookup-put, sort, arith, ok, >>=-eq-ok, ok-injective, any-intro_false,
}
use godj.Migrations.Keys.{MigrationKey, key_eq, sort_migration_keys}
use godj.Migrations.Graph.{PlannerGraph, parents_of, has_self_loop}
use godj.Migrations.Graph.Shape.{IsWellFormed, IsAcyclic}
use godj.Migrations.Graph.Build.{reject_cycle}
use godj.Migrations.Graph.Cycles.{
  Search, fresh, index_of, low_of, enter, visit_parents, pop_component, is_cyclic, finish, visit,
  visit_all, by_first, smallest, first_cycle_component,
}
use godj.Migrations.Graph.Cycles.Invariant.{Known}
use godj.Migrations.Graph.Cycles.Calm.{
  Calm, Calm-refl, Calm-trans, Above, Alone, visit_parents-Calm,
}
use godj.Migrations.Graph.Cycles.Total.{first_cycle_component_total}
use godj.Migrations.Graph.Cycles.Recorded.{reject_cycle-IsAcyclic}

abbrev Keys : Type 0
Keys = List MigrationKey

module _ (g : PlannerGraph) (acyclic : IsAcyclic g) where
  no_loop : (node : MigrationKey) → has_self_loop g node ≡ false
  unfolding has_self_loop
  no_loop node =
      any-intro_false (λ parent. parent == node) (parents_of g node)
        (λ parent m. elim (Bool-cases (parent == node)) [
          | inl e ↦
              let same : parent ≡ node = (==_iff parent node).0 e in
              let less = acyclic.descends node parent m in
              absurd
                (let bad : acyclic.rank node < acyclic.rank node = rw same at less in omega arith)
          | inr other ↦ other
        ])

  single-not_cyclic : (node : MigrationKey) → is_cyclic g (sort_migration_keys (node ∷ [])) ≡ false
  unfolding sort_migration_keys sort length
  single-not_cyclic node = no_loop node

  -- A node on top of the stack that is a root is popped alone.
  finish_alone :
      (node : MigrationKey) (m : Search) (below : Keys)
      → m.stack ≡ node ∷ below
      → low_of m node ≡ index_of m node
      → finish g node m ≡ ok (record m { stack = below; on_stack = delete node m.on_stack })
  unfolding finish pop_component
  finish_alone node m below top root =
      let popped : pop_component node m.stack m.on_stack []
          ≡ ok (below, delete node m.on_stack, node ∷ []) =
        rw top (simp (pop_component, ==_refl node) refl) in
      let equal : (low_of m node == index_of m node) ≡ true =
        (==_iff (low_of m node) (index_of m node)).1 root in
      simp (finish, equal, popped, single-not_cyclic node) refl

  -- Entering a node changes the numbers of no other.
  enter-numbers :
      (node : MigrationKey) (s : Search) (key : MigrationKey)
      → (index_of s node == 0) ≡ true
      → Known s key
      → (index_of (enter node s) key ≡ index_of s key) × (low_of (enter node s) key ≡ low_of s key)
  unfolding enter
  enter-numbers node s key new known = (
    ground (arith, lookup-put key node (suc s.index) s.indices, ==_iff key node),
    ground (arith, lookup-put key node (suc s.index) s.low_link, ==_iff key node),
  )

  entered :
      (node : MigrationKey) (s : Search)
      → (index_of (enter node s) node ≡ suc s.index) × (low_of (enter node s) node ≡ suc s.index)
  unfolding enter
  entered node s = (
    ground (arith, lookup-put node node (suc s.index) s.indices, ==_refl node),
    ground (arith, lookup-put node node (suc s.index) s.low_link, ==_refl node),
  )

  enter-path :
      (node : MigrationKey) (s : Search)
      → Above g acyclic node s
      → (key : MigrationKey) → elem key (enter node s).on_stack ≡ true
      → acyclic.rank node ≤ acyclic.rank key
  unfolding enter
  enter-path node s above key on = elim (Bool-cases (key == node)) [
    | inl e ↦ let same : key ≡ node = (==_iff key node).0 e in rw same (omega arith)
    | inr other ↦
        let far = above key (ground (arith, elem-insert key node s.on_stack)) in omega arith
  ]

  -- After the node is popped the search is as calm as before it was entered.
  popped-Calm :
      (node : MigrationKey) (s m : Search)
      → (index_of s node == 0) ≡ true
      → Above g acyclic node s
      → Calm (enter node s) m
      → Calm s (record m { stack = s.stack; on_stack = delete node m.on_stack })
  unfolding enter
  popped-Calm node s m new above p =
      let off : elem node s.on_stack ≡ false = elim (Bool-cases (elem node s.on_stack)) [
        | inl on ↦ let far = above node on in absurd (omega arith)
        | inr other ↦ other
      ] in
      let later = p.later in
      record {
        stack = refl;
        flags = λ key. ground (
          arith,
          elem-delete key node m.on_stack,
          p.flags key,
          elem-insert key node s.on_stack,
          ==_iff key node,
        );
        components = p.components;
        later = omega arith;
        numbers = λ key known.
            let (i, l) = enter-numbers node s key new known in
            let (j, k) = p.numbers key (ground (arith, i)) in (j ∙ i, k ∙ l);
      }

  visit-Alone : (fuel : ℕ) → Alone g acyclic (visit g fuel)
  unfolding visit
  visit-Alone zero node s t new above h = cc
  visit-Alone (suc fuel) node s t new above h =
      let (middle, ran, ended) =
        >>=-eq-ok (visit_parents (visit g fuel) node (parents_of g node) (enter node s))
          (λ u. finish g node u) h in
      let (i, l) = entered node s in
      let known : Known (enter node s) node = ground (arith, i) in
      let count : (enter node s).index ≡ suc s.index = unfold enter in refl in
      let p =
        visit_parents-Calm g acyclic (visit g fuel) (visit-Alone fuel) node (parents_of g node)
          (enter node s) middle (λ parent m. acyclic.descends node parent m)
          (enter-path node s above) known (omega arith) ran in
      let (j, k) = p.numbers node known in
      let top : middle.stack ≡ node ∷ s.stack = p.stack ∙ (unfold enter in refl) in
      let same =
        ok-injective (sym (finish_alone node middle s.stack top (k ∙ l ∙ sym (j ∙ i))) ∙ ended) in
      subst
        (λ (x : Search). Calm s x × (index_of x node ≡ suc s.index) × (low_of x node ≡ suc s.index))
        same (popped-Calm node s middle new above p, j ∙ i, k ∙ l)

  visit_all-Calm :
      (fuel : ℕ) (nodes : Keys) (s t : Search)
      → ((key : MigrationKey) → elem key s.on_stack ≡ false)
      → visit_all g fuel nodes s ≡ ok t
      → Calm s t
  unfolding visit_all
  visit_all-Calm fuel [] s t empty h = let same : s ≡ t = ground arith in rw (← same) (Calm-refl s)
  visit_all-Calm fuel (node ∷ nodes) s t empty h = elim (Bool-cases (index_of s node == 0)) [
    | inl new ↦
        let (m, ran, more) =
          >>=-eq-ok (visit g fuel node s) (λ u. visit_all g fuel nodes u)
            (rw (new, visit_all) at h) in
        let p =
          (visit-Alone fuel node s m new (λ key on. let off = empty key in absurd (ground arith))
            ran).0 in
        Calm-trans s m t p (visit_all-Calm fuel nodes m t (λ key. p.flags key ∙ empty key) more)
    | inr old ↦ visit_all-Calm fuel nodes s t empty (rw (old, visit_all) at h)
  ]

  first_cycle_component-nil : IsWellFormed g → first_cycle_component g ≡ ok []
  unfolding first_cycle_component
  first_cycle_component-nil w =
      let (members, found) = first_cycle_component_total g w in
      let (t, searched, picked) =
        >>=-eq-ok (visit_all g (length g.nodes) g.nodes fresh)
          (λ s. ok (smallest (sort by_first s.components))) found in
      let p =
        visit_all-Calm (length g.nodes) g.nodes fresh t (λ key. unfold elem in refl) searched in
      let nothing : t.components ≡ [] = p.components in
      simp (first_cycle_component, searched, nothing) (unfold sort in refl)

-- On a well-formed graph, the check for cycles ends, and it accepts exactly the acyclic graphs: it
-- rejects no graph in which every node can be ranked above its parents, and every graph that it
-- accepts can be ranked so.
pub reject_cycle_iff : (g : PlannerGraph) → IsWellFormed g → (reject_cycle g ≡ ok tt) ↔ IsAcyclic g
unfolding reject_cycle is_nil
reject_cycle_iff g w = (
  reject_cycle-IsAcyclic g w,
  λ acyclic. rw (reject_cycle, first_cycle_component-nil g acyclic w) refl,
)
