-- ===== src/Migrations/Graph/Cycles/Visit.antt =====
-- One visit of Tarjan's search that records no component: either it finishes its node, or it leaves
-- the node and more on the stack.
use godj.Base.{
  ℕ, zero, suc, ◌≡◌, sym, ◌∙◌, false, List, [], ◌∷◌, ◌++◌, inl, inr, ◌==◌, ==_iff, ==_refl, nat_eq,
  if◌then◌else◌, Bool-cases, elem, delete, append_assoc, arith, ok, >>=-eq-ok,
}
use godj.Migrations.Keys.{MigrationKey, key_eq, sort_migration_keys}
use godj.Migrations.Errors.{Planned}
use godj.Migrations.Graph.{PlannerGraph, parents_of}
use godj.Migrations.Graph.Cycles.{
  Search, index_of, low_of, enter, lower, visit_parents, pop_component, is_cyclic, finish, visit,
}

abbrev Keys : Type 0
Keys = List MigrationKey

-- Popping takes everything down to the node.
pub pop_component_lem :
    (node : MigrationKey) (above below flags component : Keys)
    → elem node above ≡ false
    → (left : Keys) × (pop_component node (above ++ node ∷ below) flags component
        ≡ ok (below, left, component ++ (above ++ node ∷ [])))
unfolding pop_component elem
pop_component_lem node [] below flags component h =
    (delete node flags, ground (arith, ==_refl node))
pop_component_lem node (x ∷ above) below flags component h =
    let (left, e) =
      pop_component_lem node above below (delete x flags) (component ++ x ∷ []) (ground arith) in
    (
      left,
      ground (
        arith,
        append_assoc component (x ∷ []) (above ++ node ∷ []),
        ==_iff node x,
        ==_iff x node,
      ),
    )

pub lower-components :
    (node : MigrationKey) (v : ℕ) (s : Search) → (lower node v s).components ≡ s.components
unfolding lower
lower-components node v s = ground arith

pub append-ne-nil {ℓ} : {A : Type ℓ} (xs : List A) (y : A) → ¬ (xs ++ y ∷ [] ≡ [])
append-ne-nil [] y e = cc
append-ne-nil (x ∷ xs) y e = cc

module _ (g : PlannerGraph) where
  -- No component was recorded before if none is recorded after.
  abbrev pub Silent : (MigrationKey → Search → Planned Search) → Type 0
  Silent run =
      (node : MigrationKey) (s t : Search)
      → run node s ≡ ok t
      → t.components ≡ []
      → s.components ≡ []

  pub finish-Silent : Silent (finish g)
  unfolding finish
  finish-Silent node s t h e = elim (Bool-cases (low_of s node == index_of s node)) [
    | inr waits ↦ let same : s ≡ t = ground arith in rw same e
    | inl root ↦
        let ((stack, flags, members), popped, rest) =
          >>=-eq-ok (pop_component node s.stack s.on_stack [])
            (λ (p : Keys × Keys × Keys). ok (
              if is_cyclic g (sort_migration_keys p.2)
              then record s {
                stack = p.0;
                on_stack = p.1;
                components = s.components ++ sort_migration_keys p.2 ∷ [];
              }
              else record s { stack = p.0; on_stack = p.1 }))
            (rw (root, finish) at h) in
        elim (Bool-cases (is_cyclic g (sort_migration_keys members))) [
          | inl cyclic ↦
              absurd (append-ne-nil s.components (sort_migration_keys members) (ground arith))
          | inr single ↦ ground arith
        ]
  ]

  module _ (run : MigrationKey → Search → Planned Search) (silent : Silent run) where
    pub visit_parents-Silent :
        (node : MigrationKey) (parents : Keys) (s t : Search)
        → visit_parents run node parents s ≡ ok t
        → t.components ≡ []
        → s.components ≡ []
    unfolding visit_parents
    visit_parents-Silent node [] s t h e = let same : s ≡ t = ground arith in rw same e
    visit_parents-Silent node (parent ∷ rest) s t h e = elim (Bool-cases (index_of s parent == 0)) [
      | inl new ↦
          let (middle, ran, more) =
            >>=-eq-ok (run parent s)
              (λ (u : Search). visit_parents run node rest (lower node (low_of u parent) u))
              (rw (new, visit_parents) at h) in
          let later =
            visit_parents-Silent node rest (lower node (low_of middle parent) middle) t more e in
          silent parent s middle ran
            (sym (lower-components node (low_of middle parent) middle) ∙ later)
      | inr old ↦ elim (Bool-cases (elem parent s.on_stack)) [
        | inl waiting ↦
            sym (lower-components node (index_of s parent) s)
            ∙ visit_parents-Silent node rest (lower node (index_of s parent) s) t
                (rw (old, waiting, visit_parents) at h) e
        | inr done ↦ visit_parents-Silent node rest s t (rw (old, done, visit_parents) at h) e
      ]
    ]

  pub visit-Silent : (fuel : ℕ) → Silent (visit g fuel)
  unfolding visit
  visit-Silent zero node s t h e = cc
  visit-Silent (suc fuel) node s t h e =
      let (middle, ran, ended) =
        >>=-eq-ok (visit_parents (visit g fuel) node (parents_of g node) (enter node s))
          (λ u. finish g node u) h in
      unfold enter in
      (visit_parents-Silent (visit g fuel) (visit-Silent fuel) node (parents_of g node)
        (enter node s) middle ran (finish-Silent node middle t ended e))
