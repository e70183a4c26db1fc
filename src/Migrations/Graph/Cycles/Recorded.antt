-- ===== src/Migrations/Graph/Cycles/Recorded.antt =====
-- No component that Tarjan's search records is empty, so an empty answer means that it recorded none.
-- A graph that passes the check has no cycle.
use godj.Base.{
  ◌≡◌, refl, ◌∙◌, Bool, true, false, ◌&&◌, not, List, [], ◌∷◌, ◌++◌, inl, inr, ◌==◌, nat_eq,
  Bool-cases, elem, all, delete, length, is_nil, suc, ℕ, zero, sort, arith, Outcome, ok, >>=-eq-ok,
  fail_if,
}
use godj.Base.Sort.{length-sort, all-sort, nil-of_sort}
use godj.Migrations.Keys.{MigrationKey, key_eq, migration_key_less, sort_migration_keys}
use godj.Migrations.Graph.{PlannerGraph, parents_of}
use godj.Migrations.Graph.Shape.{IsAcyclic, IsWellFormed}
use godj.Migrations.Graph.Build.{cycle_error, reject_cycle}
use godj.Migrations.Graph.Cycles.{
  Search, index_of, low_of, enter, lower, visit_parents, pop_component, finish, visit, visit_all,
  fresh, by_first, smallest, first_cycle_component,
}
use godj.Migrations.Errors.{PlanningError}
use godj.Migrations.Graph.Cycles.Visit.{lower-components}
use godj.Migrations.Graph.Cycles.Finished.{recorded}
use godj.Migrations.Graph.Cycles.Acyclic.{visit_all_lem, fresh-Inv, depth, depth-descends}

abbrev Keys : Type 0
Keys = List MigrationKey

-- All components that are recorded have a member.
abbrev members_everywhere : List Keys → Bool
members_everywhere = all (λ c. not (is_nil c))

append_member : (xs : Keys) (y : MigrationKey) → is_nil (xs ++ y ∷ []) ≡ false
unfolding is_nil
append_member [] y = refl
append_member (x ∷ xs) y = refl

all-append :
    (cs : List Keys) (c : Keys)
    → members_everywhere (cs ++ c ∷ []) ≡ (members_everywhere cs && not (is_nil c))
unfolding all
all-append [] c = ground arith
all-append (x ∷ cs) c = ground (arith, all-append cs c)

pop_component-member :
    (node : MigrationKey) (stack flags component : Keys) {p : Keys × Keys × Keys}
    → pop_component node stack flags component ≡ ok p
    → is_nil p.2 ≡ false
unfolding pop_component
pop_component-member node [] flags component h = cc
pop_component-member node (x ∷ stack) flags component {p} h = elim (Bool-cases (x == node)) [
  | inl last ↦ ground (arith, append_member component x)
  | inr more ↦
      pop_component-member node stack (delete x flags) (component ++ x ∷ []) {p = p}
        (rw (more, pop_component) at h)
]

sorted_member : (c : Keys) → is_nil (sort_migration_keys c) ≡ is_nil c
unfolding sort_migration_keys is_nil
sorted_member c = ground (arith, length-sort migration_key_less c)

module _ (g : PlannerGraph) where
  abbrev Keeps : (MigrationKey → Search → Outcome PlanningError Search) → Type 0
  Keeps run =
      (node : MigrationKey) (s t : Search)
      → run node s ≡ ok t
      → members_everywhere s.components ≡ true
      → members_everywhere t.components ≡ true

  finish-Keeps : Keeps (finish g)
  unfolding finish
  finish-Keeps node s t h e = elim (Bool-cases (low_of s node == index_of s node)) [
    | inr waits ↦ let same : s ≡ t = ground arith in rw (← same) e
    | inl root ↦
        let (p, popped, rest) =
          >>=-eq-ok (pop_component node s.stack s.on_stack []) (λ p. ok (recorded g s p))
            (rw (root, finish) at h) in
        ground (
          arith,
          pop_component-member node s.stack s.on_stack [] popped,
          sorted_member p.2,
          all-append s.components (sort_migration_keys p.2),
        )
  ]

  visit_parents-Keeps :
      (run : MigrationKey → Search → Outcome PlanningError Search)
      → Keeps run
      → (node : MigrationKey) (parents : Keys) (s t : Search)
      → visit_parents run node parents s ≡ ok t
      → members_everywhere s.components ≡ true
      → members_everywhere t.components ≡ true
  unfolding visit_parents
  visit_parents-Keeps run keeps node [] s t h e = let same : s ≡ t = ground arith in rw (← same) e
  visit_parents-Keeps run keeps node (parent ∷ rest) s t h e =
      elim (Bool-cases (index_of s parent == 0)) [
        | inl new ↦
            let (m, ran, more) =
              >>=-eq-ok (run parent s)
                (λ (u : Search). visit_parents run node rest (lower node (low_of u parent) u))
                (rw (new, visit_parents) at h) in
            visit_parents-Keeps run keeps node rest (lower node (low_of m parent) m) t more
              (rw (lower-components node (low_of m parent) m) (keeps parent s m ran e))
        | inr old ↦ elim (Bool-cases (elem parent s.on_stack)) [
          | inl waiting ↦
              visit_parents-Keeps run keeps node rest (lower node (index_of s parent) s) t
                (rw (old, waiting, visit_parents) at h)
                (rw (lower-components node (index_of s parent) s) e)
          | inr over ↦
              visit_parents-Keeps run keeps node rest s t (rw (old, over, visit_parents) at h) e
        ]
      ]

  visit-Keeps : (fuel : ℕ) → Keeps (visit g fuel)
  unfolding visit
  visit-Keeps zero node s t h e = cc
  visit-Keeps (suc fuel) node s t h e =
      let (m, ran, ended) =
        >>=-eq-ok (visit_parents (visit g fuel) node (parents_of g node) (enter node s))
          (λ u. finish g node u) h in
      finish-Keeps node m t ended (
        visit_parents-Keeps (visit g fuel) (visit-Keeps fuel) node (parents_of g node)
          (enter node s) m ran (unfold enter in e))

  visit_all-Keeps :
      (fuel : ℕ) (nodes : Keys) (s t : Search)
      → visit_all g fuel nodes s ≡ ok t
      → members_everywhere s.components ≡ true
      → members_everywhere t.components ≡ true
  unfolding visit_all
  visit_all-Keeps fuel [] s t h e = let same : s ≡ t = ground arith in rw (← same) e
  visit_all-Keeps fuel (node ∷ nodes) s t h e = elim (Bool-cases (index_of s node == 0)) [
    | inl new ↦
        let (m, ran, more) =
          >>=-eq-ok (visit g fuel node s) (λ u. visit_all g fuel nodes u)
            (rw (new, visit_all) at h) in
        visit_all-Keeps fuel nodes m t more (visit-Keeps fuel node s m ran e)
    | inr old ↦ visit_all-Keeps fuel nodes s t (rw (old, visit_all) at h) e
  ]

  smallest-nil :
      (cs : List Keys) → members_everywhere cs ≡ true → is_nil (smallest cs) ≡ true → cs ≡ []
  unfolding all is_nil
  smallest-nil [] h e = refl
  smallest-nil (c ∷ cs) h e = absurd (ground arith)

  -- A well-formed graph that passes the cycle check is acyclic.
  pub reject_cycle-IsAcyclic : IsWellFormed g → reject_cycle g ≡ ok tt → IsAcyclic g
  unfolding reject_cycle first_cycle_component
  reject_cycle-IsAcyclic w h =
      let (members, found, passed) =
        >>=-eq-ok (first_cycle_component g) (λ m. fail_if (not (is_nil m)) (cycle_error m)) h in
      let (t, searched, picked) =
        >>=-eq-ok (visit_all g (length g.nodes) g.nodes fresh)
          (λ s. ok (smallest (sort by_first s.components))) found in
      let sound = visit_all-Keeps (length g.nodes) g.nodes fresh t searched (unfold all in refl) in
      let sorted_none =
        smallest-nil (sort by_first t.components)
          (all-sort by_first (λ c. not (is_nil c)) t.components ∙ sound) (ground arith) in
      let none = nil-of_sort by_first t.components sorted_none in
      let (order, topological, nodes, _) =
        visit_all_lem g (length g.nodes) g.nodes fresh t [] refl (fresh-Inv g 1) searched none in
      record {
        rank = depth order;
        descends = λ key parent e.
            depth-descends g order topological key parent (nodes key (w.source key parent e)) e;
      }
