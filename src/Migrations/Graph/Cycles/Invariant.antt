-- ===== src/Migrations/Graph/Cycles/Invariant.antt =====
-- The state of Tarjan's search between two steps. `done` is the list of the nodes that were popped
-- alone, the last one first; `b` is the index of the node at the bottom of the stack.
use godj.Base.{
  ℕ, suc, ◌≤◌, ◌≡◌, refl, sym, ◌∙◌, ap, true, false, ◌||◌, not, List, [], ◌∷◌, ◌++◌, inl, inr, ltb,
  ◌==◌, ==_iff, ==_refl, nat_eq, Bool-cases, elem, ◌∈◌, lookup-put, elem-append, elem-insert,
  append_assoc, arith,
}
use godj.Migrations.Keys.{MigrationKey, key_eq}
use godj.Migrations.Graph.{PlannerGraph, parents_of}
use godj.Migrations.Graph.Cycles.{Search, index_of, low_of, enter, lower}

abbrev Keys : Type 0
Keys = List MigrationKey

-- A node has an index.
abbrev pub Known : Search → MigrationKey → Type 0
Known s key = (index_of s key == 0) ≡ false

-- Every key of the list has its parents further down the list.
abbrev pub Topological : PlannerGraph → Keys → Type 0
Topological g [] = Unit
Topological g (key ∷ rest) =
    ((parent : MigrationKey) → parent ∈ parents_of g key → parent ∈ rest) × Topological g rest

module _ (g : PlannerGraph) (b : ℕ) where
  pub record Inv (s : Search) (done : Keys) : Type 0 where
    pub flags : (key : MigrationKey) → elem key s.on_stack ≡ elem key s.stack
    pub indexed :
        (key : MigrationKey) → (index_of s key == 0) ≡ not (elem key s.stack || elem key done)
    pub topological : Topological g done
    pub low_bound : (key : MigrationKey) → key ∈ s.stack → b ≤ low_of s key
    pub index_bound : (key : MigrationKey) → key ∈ s.stack → b ≤ index_of s key
    pub recent : (key : MigrationKey) → key ∈ s.stack → index_of s key ≤ s.index

  -- What a part of the search leaves as it was. Only the links of `own` may change among the nodes
  -- known before.
  pub record Frame (own : MigrationKey) (s t : Search) (done after : Keys) : Type 0 where
    pub later : s.index ≤ t.index
    pub index_kept : (key : MigrationKey) → Known s key → index_of t key ≡ index_of s key
    pub low_kept :
        (key : MigrationKey) → Known s key → (key == own) ≡ false → low_of t key ≡ low_of s key
    pub done_kept : (key : MigrationKey) → key ∈ done → key ∈ after
    pub pushed : Keys
    pub stacked : t.stack ≡ pushed ++ s.stack
    pub fresh : (key : MigrationKey) → Known s key → elem key pushed ≡ false

  unfoldable pub Frame-refl :
      (own : MigrationKey) (s : Search) (done : Keys) → Frame own s s done done
  unfolding elem
  Frame-refl own s done = record {
    later = omega arith;
    index_kept = λ key k. refl;
    low_kept = λ key k e. refl;
    done_kept = λ key m. m;
    pushed = [];
    stacked = refl;
    fresh = λ key k. refl;
  }

  unfoldable pub Frame-trans :
      (own : MigrationKey) (s t u : Search) (d e f : Keys)
      → Frame own s t d e
      → Frame own t u e f
      → Frame own s u d f
  Frame-trans own s t u d e f p q = record {
    later = omega arith;
    index_kept = λ key k. ground (arith, p.index_kept key k, q.index_kept key);
    low_kept = λ key k o. ground (arith, p.low_kept key k o, p.index_kept key k, q.low_kept key);
    done_kept = λ key m. q.done_kept key (p.done_kept key m);
    pushed = q.pushed ++ p.pushed;
    stacked =
        q.stacked
        ∙ ap (λ l. q.pushed ++ l) p.stacked
        ∙ sym (append_assoc q.pushed p.pushed s.stack);
    fresh = λ key k.
        ground (
          arith,
          p.fresh key k,
          p.index_kept key k,
          q.fresh key,
          elem-append key q.pushed p.pushed,
        );
  }

  -- A node that is not known is entered.
  pub enter-Inv :
      (node : MigrationKey) (s : Search) (done : Keys)
      → b ≤ suc s.index
      → (index_of s node == 0) ≡ true
      → Inv s done
      → Inv (enter node s) done
  unfolding enter elem
  enter-Inv node s done low new i = record {
    flags = λ key. ground (arith, elem-insert key node s.on_stack, i.flags key);
    indexed = λ key.
        ground (arith, lookup-put key node (suc s.index) s.indices, i.indexed key, ==_iff key node);
    topological = i.topological;
    low_bound = λ key m.
        ground
          (arith, lookup-put key node (suc s.index) s.low_link, i.low_bound key, ==_iff key node);
    index_bound = λ key m.
        ground
          (arith, lookup-put key node (suc s.index) s.indices, i.index_bound key, ==_iff key node);
    recent = λ key m.
        ground (arith, lookup-put key node (suc s.index) s.indices, i.recent key, ==_iff key node);
  }

  unfoldable pub enter-Frame :
      (node : MigrationKey) (s : Search) (done : Keys)
      → (index_of s node == 0) ≡ true
      → Frame node s (enter node s) done done
  unfolding enter elem
  enter-Frame node s done new = record {
    later = omega arith;
    index_kept =
        λ key k. ground (arith, lookup-put key node (suc s.index) s.indices, ==_iff key node);
    low_kept =
        λ key k o. ground (arith, lookup-put key node (suc s.index) s.low_link, ==_iff key node);
    done_kept = λ key m. m;
    pushed = node ∷ [];
    stacked = refl;
    fresh = λ key k. ground (arith, ==_iff key node);
  }

  -- A link of a node on the stack is lowered to a value that is not too small.
  pub lower-Inv :
      (node : MigrationKey) (value : ℕ) (s : Search) (done : Keys)
      → b ≤ value
      → Inv s done
      → Inv (lower node value s) done
  unfolding lower
  lower-Inv node value s done low i = elim (Bool-cases (ltb value (low_of s node))) [
    | inl smaller ↦
        rw (smaller, lower)
          (record {
            flags = i.flags;
            indexed = i.indexed;
            topological = i.topological;
            low_bound =
                λ key m. ground (arith, lookup-put key node value s.low_link, i.low_bound key);
            index_bound = i.index_bound;
            recent = i.recent;
          })
    | inr not_smaller ↦ rw (not_smaller, lower) i
  ]

  unfoldable pub lower-Frame :
      (node : MigrationKey) (value : ℕ) (s : Search) (done : Keys)
      → Frame node s (lower node value s) done done
  unfolding lower elem
  lower-Frame node value s done = record {
    later = ground arith;
    index_kept = λ key k. ground arith;
    low_kept = λ key k o. ground (arith, lookup-put key node value s.low_link);
    done_kept = λ key m. m;
    pushed = [];
    stacked = ground arith;
    fresh = λ key k. refl;
  }

  pub lower-le :
      (node : MigrationKey) (value : ℕ) (s : Search)
      → (low_of (lower node value s) node ≤ value)
        × (low_of (lower node value s) node ≤ low_of s node)
  unfolding lower
  lower-le node value s = ground (arith, lookup-put node node value s.low_link, ==_refl node)
