-- ===== src/Migrations/Graph/Cycles/Acyclic.antt =====
-- The whole search: where it finds no component, every node comes after its parents in the order in
-- which the nodes were finished, so the graph has no cycle.
use godj.Base.{
  ℕ, suc, ◌≤◌, ◌<◌, ◌≡◌, refl, ◌∙◌, ap, List, [], ◌∷◌, ◌++◌, inl, inr, ◌==◌, ==_iff, nat_eq,
  if◌then◌else◌, Bool-cases, elem, length, lookup, ◌∈◌, Subset, elem-tail, elem-cons_cases,
  not-elem-nil, arith, ok, >>=-eq-ok,
}
use godj.Migrations.Keys.{MigrationKey, key_eq}
use godj.Migrations.Graph.{PlannerGraph, parents_of}
use godj.Migrations.Graph.Cycles.{Search, index_of, visit, visit_all, fresh, first}
use godj.Migrations.Graph.Cycles.Invariant.{Topological, Inv}
use godj.Migrations.Graph.Cycles.Visit.{visit-Silent}
use godj.Migrations.Graph.Cycles.Roots.{visit_lem}

abbrev Keys : Type 0
Keys = List MigrationKey

module _ (g : PlannerGraph) where
  -- On an empty stack the bounds say nothing.
  rebase : (b c : ℕ) (s : Search) (done : Keys) → s.stack ≡ [] → Inv g b s done → Inv g c s done
  rebase b c s done none i = record {
    flags = i.flags;
    indexed = i.indexed;
    topological = i.topological;
    low_bound = λ k m. absurd (not-elem-nil k (rw none at m));
    index_bound = λ k m. absurd (not-elem-nil k (rw none at m));
    recent = i.recent;
  }

  visit_all-Silent :
      (fuel : ℕ) (nodes : Keys) (s t : Search)
      → visit_all g fuel nodes s ≡ ok t
      → t.components ≡ []
      → s.components ≡ []
  unfolding visit_all
  visit_all-Silent fuel [] s t h e = let same : s ≡ t = ground arith in rw same e
  visit_all-Silent fuel (node ∷ nodes) s t h e = elim (Bool-cases (index_of s node == 0)) [
    | inl new ↦
        let (m, ran, more) =
          >>=-eq-ok (visit g fuel node s) (λ u. visit_all g fuel nodes u)
            (rw (new, visit_all) at h) in
        visit-Silent g fuel node s m ran (visit_all-Silent fuel nodes m t more e)
    | inr old ↦ visit_all-Silent fuel nodes s t (rw (old, visit_all) at h) e
  ]

  -- The loop over the nodes leaves all of them done, each after its parents.
  pub visit_all_lem :
      (fuel : ℕ) (nodes : Keys) (s t : Search) (done : Keys)
      → s.stack ≡ []
      → Inv g (suc s.index) s done
      → visit_all g fuel nodes s ≡ ok t
      → t.components ≡ []
      → (after : Keys) × Topological g after × Subset nodes after × Subset done after
  unfolding visit_all
  visit_all_lem fuel [] s t done none i h e =
      (done, i.topological, λ k m. absurd (not-elem-nil k m), λ k m. m)
  visit_all_lem fuel (node ∷ nodes) s t done none i h e = elim (Bool-cases (index_of s node == 0)) [
    | inl new ↦
        let (m, ran, more) =
          >>=-eq-ok (visit g fuel node s) (λ u. visit_all g fuel nodes u)
            (rw (new, visit_all) at h) in
        let v =
          visit_lem g (suc s.index) fuel node s m done i new (omega arith) ran
            (visit_all-Silent fuel nodes m t more e) in
        let alone = v.bottom refl in
        let empty : m.stack ≡ [] = v.frame.stacked ∙ ap (λ x. x ++ s.stack) alone ∙ none in
        let (after, topo, rest, kept) =
          visit_all_lem fuel nodes m t v.after empty
            (rebase (suc s.index) (suc m.index) m v.after empty v.inv) more e in
        (
          after,
          topo,
          λ k n. elim (elem-cons_cases k node nodes n) [
            | inl same ↦ rw same (kept node (v.finished alone))
            | inr later ↦ rest k later
          ],
          λ k n. kept k (v.frame.done_kept k n),
        )
    | inr old ↦
        let (after, topo, rest, kept) =
          visit_all_lem fuel nodes s t done none i (rw (old, visit_all) at h) e in
        (
          after,
          topo,
          λ k m. elim (elem-cons_cases k node nodes m) [
            | inl same ↦
                rw same (
                  kept node
                    (ground (arith, i.indexed node, ap (elem node) none, not-elem-nil node)))
            | inr later ↦ rest k later
          ],
          kept,
        )
  ]

  pub fresh-Inv : (b : ℕ) → Inv g b fresh []
  unfolding elem lookup
  fresh-Inv b = record {
    flags = λ k. refl;
    indexed = λ k. ground arith;
    topological = tt;
    low_bound = λ k m. cc;
    index_bound = λ k m. cc;
    recent = λ k m. cc;
  }

-- The number of places below the last place of a key.
pub depth : Keys → MigrationKey → ℕ
depth [] key = 0
depth (k ∷ rest) key =
    let deeper = depth rest key in
    if elem key rest then deeper else if key == k then suc (length rest) else 0

depth-le : (keys : Keys) (key : MigrationKey) → depth keys key ≤ length keys
unfolding depth
depth-le [] key = omega arith
depth-le (k ∷ rest) key = ground (arith, depth-le rest key)

module _ (g : PlannerGraph) where
  Topological-elem :
      (keys : Keys)
      → Topological g keys
      → (key parent : MigrationKey) → key ∈ keys
      → parent ∈ parents_of g key
      → parent ∈ keys
  unfolding elem
  Topological-elem [] t key parent m e = cc
  Topological-elem (k ∷ rest) t key parent m e =
      elim (elem-cons_cases key k rest (unfold elem in m)) [
        | inl same ↦ elem-tail parent k rest (t.0 parent (rw same at e))
        | inr later ↦ elem-tail parent k rest (Topological-elem rest t.1 key parent later e)
      ]

  pub depth-descends :
      (keys : Keys)
      → Topological g keys
      → (key parent : MigrationKey) → key ∈ keys
      → parent ∈ parents_of g key
      → depth keys parent < depth keys key
  unfolding depth elem
  depth-descends [] t key parent m e = cc
  depth-descends (k ∷ rest) t key parent m e = elim (Bool-cases (elem key rest)) [
    | inl later ↦ ground (
      arith,
      depth-descends rest t.1 key parent later e,
      Topological-elem rest t.1 key parent later e,
    )
    | inr first ↦
        let same : key ≡ k = ground (arith, ==_iff key k) in
        ground (arith, t.0 parent (rw same at e), depth-le rest parent, ==_iff key k)
  ]
