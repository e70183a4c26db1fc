-- ===== src/Migrations/Graph/Cycles/Roots.antt =====
-- One visit of the search: a node whose component is popped comes after its parents.
use godj.Base.{
  ℕ, zero, suc, ◌≡◌, refl, ◌∙◌, ap, true, false, List, [], ◌∷◌, ◌++◌, inl, inr, ◌==◌, ==_iff,
  ==_refl, nat_eq, Bool-cases, elem, delete, ◌∈◌, elem-delete, elem-head, elem-cons_cases,
  any-false, lookup-put, arith, ok, >>=-eq-ok,
}
use godj.Migrations.Keys.{MigrationKey, key_eq}
use godj.Migrations.Graph.{PlannerGraph, parents_of, has_self_loop}
use godj.Migrations.Graph.Cycles.{Search, index_of, low_of, enter, visit_parents, finish, visit}
use godj.Migrations.Graph.Cycles.Invariant.{Known, Inv, Frame-trans, enter-Inv, enter-Frame}
use godj.Migrations.Graph.Cycles.Visit.{append-ne-nil, finish-Silent, visit-Silent}
use godj.Migrations.Graph.Cycles.Popped.{Visited, Visits, Looped, visit_parents_lem, on_after}
use godj.Migrations.Graph.Cycles.Finished.{popped, finish_root, finish_waits}

abbrev Keys : Type 0
Keys = List MigrationKey

module _ (g : PlannerGraph) (b : ℕ) where
  enter-index : (node : MigrationKey) (s : Search) → index_of (enter node s) node ≡ suc s.index
  unfolding enter
  enter-index node s = ground (arith, lookup-put node node (suc s.index) s.indices, ==_refl node)

  enter-low : (node : MigrationKey) (s : Search) → low_of (enter node s) node ≡ suc s.index
  unfolding enter
  enter-low node s = ground (arith, lookup-put node node (suc s.index) s.low_link, ==_refl node)

  -- No parent of a root without a loop is still on the stack.
  root_parent :
      (node : MigrationKey) (s m : Search) (done : Keys)
      → Inv g b s done
      → (index_of s node == 0) ≡ true
      → (l : Looped g b node (parents_of g node) (enter node s) m done) → l.frame.pushed ≡ []
      → (low_of m node == index_of m node) ≡ true
      → has_self_loop g node ≡ false
      → (parent : MigrationKey) → parent ∈ parents_of g node
      → parent ∈ l.after
  unfolding has_self_loop
  root_parent node s m done i new l alone root single parent edge =
      elim (l.found alone parent edge) [
        | inl over ↦ over
        | inr (waits, above) ↦ elim (elem-cons_cases parent node s.stack (unfold enter in waits)) [
          | inl same ↦ absurd (
              ground (
                arith,
                any-false (λ p. p == node) parent (parents_of g node) single edge,
                ==_iff parent node,
              ))
          | inr below ↦
              let entered = enter-Frame g b node s done new in
              let known : Known s parent = ground (arith, i.indexed parent) in
              let own : Known (enter node s) node = ground (arith, enter-index node s) in
              absurd (
                ground (
                  arith,
                  entered.index_kept parent known,
                  l.frame.index_kept node own,
                  enter-index node s,
                  i.recent parent below,
                ))
        ]
      ]

  -- A root that was alone on the stack is done, and all of its parents were done before.
  root_lem :
      (node : MigrationKey) (s m t : Search) (done : Keys)
      → Inv g b s done
      → (index_of s node == 0) ≡ true
      → (l : Looped g b node (parents_of g node) (enter node s) m done) → l.frame.pushed ≡ []
      → (low_of m node == index_of m node) ≡ true
      → t ≡ popped m s.stack (delete node m.on_stack)
      → has_self_loop g node ≡ false
      → Visited g b node s t done
  unfolding enter-Frame Frame-trans enter elem
  root_lem node s m t done i new l alone root e single =
      let entered = enter-Frame g b node s done new in
      let f = Frame-trans g b node s (enter node s) m done done l.after entered l.frame in
      let stack : m.stack ≡ node ∷ s.stack =
        l.frame.stacked ∙ ap (λ x. x ++ node ∷ s.stack) alone in
      rw e (record {
        after = node ∷ l.after;
        inv = record {
          flags = λ k. ground (
            arith,
            elem-delete k node m.on_stack,
            l.inv.flags k,
            ap (elem k) stack,
            i.indexed node,
            ==_iff k node,
          );
          indexed = λ k. ground (arith, l.inv.indexed k, ap (elem k) stack);
          topological = (root_parent node s m done i new l alone root single, l.inv.topological);
          low_bound = λ k n. l.inv.low_bound k (ground (arith, ap (elem k) stack));
          index_bound = λ k n. l.inv.index_bound k (ground (arith, ap (elem k) stack));
          recent = λ k n. l.inv.recent k (ground (arith, ap (elem k) stack));
        };
        frame = record {
          later = f.later;
          index_kept = f.index_kept;
          low_kept = f.low_kept;
          done_kept = λ k n. ground (arith, f.done_kept k n);
          pushed = [];
          stacked = refl;
          fresh = λ k n. refl;
        };
        low = ground (arith, l.inv.low_bound node, ap (elem node) stack, ==_refl node);
        finished = λ n. ground (arith, ==_refl node);
        bottom = λ q. refl;
      })

  visit_end :
      (node : MigrationKey) (s m t : Search) (done : Keys)
      → Inv g b s done
      → (index_of s node == 0) ≡ true
      → Looped g b node (parents_of g node) (enter node s) m done
      → finish g node m ≡ ok t
      → t.components ≡ []
      → Visited g b node s t done
  unfolding enter-Frame Frame-trans enter
  visit_end node s m t done i new l h e =
      let entered = enter-Frame g b node s done new in
      let f = Frame-trans g b node s (enter node s) m done done l.after entered l.frame in
      let own : Known (enter node s) node = ground (arith, enter-index node s) in
      let on =
        on_after node (enter node s) m l.frame.pushed l.frame.stacked (elem-head node s.stack) in
      elim (Bool-cases (low_of m node == index_of m node)) [
        | inr waits ↦ rw (finish_waits g node m t waits h) (record {
          after = l.after;
          inv = l.inv;
          frame = f;
          low = l.inv.low_bound node on;
          finished = λ n. absurd (append-ne-nil l.frame.pushed node n);
          bottom = λ q. absurd (
              ground (
                arith,
                l.inv.low_bound node on,
                l.lowered,
                l.frame.index_kept node own,
                enter-index node s,
                enter-low node s,
              ));
        })
        | inl root ↦
            let (alone, same, single) =
              finish_root g node m t l.frame.pushed s.stack root l.frame.stacked
                (l.frame.fresh node own) h e in
            root_lem node s m t done i new l alone root same single
      ]

  pub visit_lem : (fuel : ℕ) → Visits g b (visit g fuel)
  unfolding visit
  visit_lem zero node s t done i new room h e = absurd (ground arith)
  visit_lem (suc fuel) node s t done i new room h e =
      let (m, ran, ended) =
        >>=-eq-ok (visit_parents (visit g fuel) node (parents_of g node) (enter node s))
          (λ u. finish g node u) h in
      let l =
        visit_parents_lem g b (visit g fuel) (visit-Silent g fuel) (visit_lem fuel) node
          (parents_of g node) (enter node s) m done (enter-Inv g b node s done room new i)
          (unfold enter in elem-head node s.stack) ran (finish-Silent g node m t ended e) in
      visit_end node s m t done i new l ended e
