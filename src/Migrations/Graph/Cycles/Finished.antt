-- ===== src/Migrations/Graph/Cycles/Finished.antt =====
-- The end of a visit, and the whole search: if it records no component, the graph has no cycle.
use godj.Base.{
  ◌≡◌, refl, sym, ◌∙◌, true, false, List, [], ◌∷◌, ◌++◌, inl, inr, ◌==◌, ==_refl, nat_eq,
  if◌then◌else◌, Bool-cases, elem, delete, length-append, sort, arith, ok, >>=-eq-ok,
}
use godj.Base.Sort.{length-sort}
use godj.Migrations.Keys.{MigrationKey, key_eq, migration_key_less, sort_migration_keys}
use godj.Migrations.Errors.{Planned}
use godj.Migrations.Graph.{PlannerGraph, has_self_loop}
use godj.Migrations.Graph.Cycles.{Search, index_of, low_of, pop_component, is_cyclic, finish}
use godj.Migrations.Graph.Cycles.Visit.{pop_component_lem, append-ne-nil}

abbrev Keys : Type 0
Keys = List MigrationKey

abbrev pub popped : Search → Keys → Keys → Search
popped s stack flags = record s { stack = stack; on_stack = flags }

-- The rest of `finish` once the component is popped.
abbrev pub recorded : PlannerGraph → Search → Keys × Keys × Keys → Search
recorded g s p =
    if is_cyclic g (sort_migration_keys p.2)
    then record s {
      stack = p.0;
      on_stack = p.1;
      components = s.components ++ sort_migration_keys p.2 ∷ [];
    }
    else popped s p.0 p.1

ok-injective : (s t : Search) → ◌≡◌ {A = Planned Search} (ok s) (ok t) → s ≡ t
ok-injective s t h = ground arith

module _ (g : PlannerGraph) where
  recorded_cyclic :
      (s t : Search) (p : Keys × Keys × Keys)
      → is_cyclic g (sort_migration_keys p.2) ≡ true
      → recorded g s p ≡ t
      → ¬ (t.components ≡ [])
  recorded_cyclic s t p cyclic h e =
      append-ne-nil s.components (sort_migration_keys p.2) (ground arith)

  single_cyclic :
      (node : MigrationKey) → is_cyclic g (sort_migration_keys (node ∷ [])) ≡ has_self_loop g node
  unfolding sort_migration_keys sort
  single_cyclic node = ground arith

  several_cyclic :
      (x node : MigrationKey) (above : Keys)
      → is_cyclic g (sort_migration_keys (x ∷ above ++ node ∷ [])) ≡ true
  unfolding sort_migration_keys
  several_cyclic x node above = ground (
    arith,
    length-sort migration_key_less (x ∷ above ++ node ∷ []),
    length-append above (node ∷ []),
  )

  -- Where a root is popped and nothing is recorded, it was alone and has no loop.
  pub finish_root :
      (node : MigrationKey) (s t : Search) (above below : Keys)
      → (low_of s node == index_of s node) ≡ true
      → s.stack ≡ above ++ node ∷ below
      → elem node above ≡ false
      → finish g node s ≡ ok t
      → t.components ≡ []
      → (above ≡ [])
        × (t ≡ popped s below (delete node s.on_stack))
        × (has_self_loop g node ≡ false)
  unfolding finish
  finish_root node s t [] below root on alone h e =
      let (p, pop, last) =
        >>=-eq-ok (pop_component node s.stack s.on_stack []) (λ p. ok (recorded g s p))
          (rw (root, finish) at h) in
      let taken : p ≡ (below, delete node s.on_stack, node ∷ []) =
        unfold pop_component in ground (arith, ==_refl node) in
      let result = ok-injective (recorded g s p) t last in
      elim (Bool-cases (has_self_loop g node)) [
        | inl cyclic ↦
            absurd (recorded_cyclic s t p (rw taken (single_cyclic node ∙ cyclic)) result e)
        | inr single ↦
            let alone_again = single_cyclic node in
            (refl, sym result ∙ rw (taken, alone_again, single) refl, single)
      ]
  finish_root node s t (x ∷ above) below root on alone h e =
      let (p, pop, last) =
        >>=-eq-ok (pop_component node s.stack s.on_stack []) (λ p. ok (recorded g s p))
          (rw (root, finish) at h) in
      let (left, pops) = pop_component_lem node (x ∷ above) below s.on_stack [] alone in
      let taken : p ≡ (below, left, x ∷ above ++ node ∷ []) = ground arith in
      absurd (
        recorded_cyclic s t p (rw taken (several_cyclic x node above))
          (ok-injective (recorded g s p) t last) e)

  -- Where the link of a node points below it, the node stays.
  pub finish_waits :
      (node : MigrationKey) (s t : Search)
      → (low_of s node == index_of s node) ≡ false
      → finish g node s ≡ ok t
      → t ≡ s
  unfolding finish
  finish_waits node s t waits h = ground arith
