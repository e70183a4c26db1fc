-- ===== src/Migrations/Graph/Cycles/Calm.antt =====
-- Tarjan's search in an acyclic graph: visits of new nodes leave the stack as it was.
use godj.Base.{
  ℕ, suc, ◌≤◌, ◌<◌, ◌≡◌, refl, sym, ◌∙◌, true, List, [], ◌∷◌, inl, inr, ◌==◌, nat_eq, Bool-cases,
  elem, ◌∈◌, arith, ok, >>=-eq-ok, elem-head, elem-tail,
}
use godj.Migrations.Keys.{MigrationKey, key_eq}
use godj.Migrations.Errors.{Planned}
use godj.Migrations.Graph.{PlannerGraph}
use godj.Migrations.Graph.Shape.{IsAcyclic}
use godj.Migrations.Graph.Cycles.{Search, index_of, low_of, lower, visit_parents}
use godj.Migrations.Graph.Cycles.Invariant.{Known}

abbrev Keys : Type 0
Keys = List MigrationKey

-- What a part of the search leaves: the stack, the components, and the numbers of known keys.
pub record Calm (s t : Search) : Type 0 where
  pub stack : t.stack ≡ s.stack
  pub flags : (key : MigrationKey) → elem key t.on_stack ≡ elem key s.on_stack
  pub components : t.components ≡ s.components
  pub later : s.index ≤ t.index
  pub numbers :
      (key : MigrationKey)
      → Known s key
      → (index_of t key ≡ index_of s key) × (low_of t key ≡ low_of s key)

pub Calm-refl : (s : Search) → Calm s s
Calm-refl s = record {
  stack = refl;
  flags = λ key. refl;
  components = refl;
  later = omega arith;
  numbers = λ key k. (refl, refl);
}

pub Calm-trans : (s t u : Search) → Calm s t → Calm t u → Calm s u
Calm-trans s t u p q = record {
  stack = q.stack ∙ p.stack;
  flags = λ key. q.flags key ∙ p.flags key;
  components = q.components ∙ p.components;
  later = omega arith;
  numbers = λ key k.
      let (i, l) = p.numbers key k in
      let (j, m) = q.numbers key (ground (arith, i)) in (j ∙ i, m ∙ l);
}

module _ (g : PlannerGraph) (acyclic : IsAcyclic g) where
  -- All keys on the stack need the node, directly or not.
  abbrev pub Above : MigrationKey → Search → Type 0
  Above node s =
      (key : MigrationKey) → elem key s.on_stack ≡ true → acyclic.rank node < acyclic.rank key

  -- A visit of a new node leaves the search calm, and the node with its number.
  abbrev pub Alone : (MigrationKey → Search → Planned Search) → Type 0
  Alone run =
      (node : MigrationKey) (s t : Search)
      → (index_of s node == 0) ≡ true
      → Above node s
      → run node s ≡ ok t
      → Calm s t × (index_of t node ≡ suc s.index) × (low_of t node ≡ suc s.index)

  lower-same :
      (node : MigrationKey) (value : ℕ) (s : Search)
      → low_of s node ≤ value
      → lower node value s ≡ s
  unfolding lower
  lower-same node value s above = ground arith

  pub visit_parents-Calm :
      (run : MigrationKey → Search → Planned Search)
      → Alone run
      → (node : MigrationKey) (parents : Keys) (s t : Search)
      → ((parent : MigrationKey) → parent ∈ parents → acyclic.rank parent < acyclic.rank node)
      → ((key : MigrationKey) → elem key s.on_stack ≡ true → acyclic.rank node ≤ acyclic.rank key)
      → Known s node
      → low_of s node ≤ s.index
      → visit_parents run node parents s ≡ ok t
      → Calm s t
  unfolding visit_parents
  visit_parents-Calm run alone node [] s t descends path known low h =
      let same : s ≡ t = ground arith in rw (← same) (Calm-refl s)
  visit_parents-Calm run alone node (parent ∷ rest) s t descends path known low h =
      let smaller = descends parent (elem-head parent rest) in
      let others = λ (p : MigrationKey) (m : p ∈ rest). descends p (elem-tail p parent rest m) in
      elim (Bool-cases (index_of s parent == 0)) [
        | inl new ↦
            let (middle, ran, more) =
              >>=-eq-ok (run parent s)
                (λ (u : Search). visit_parents run node rest (lower node (low_of u parent) u))
                (rw (new, visit_parents) at h) in
            let (p, i, l) =
              alone parent s middle new (λ key on. let far = path key on in omega arith) ran in
            let (j, k) = p.numbers node known in
            let later = p.later in
            let same = lower-same node (low_of middle parent) middle (omega arith) in
            let q =
              visit_parents-Calm run alone node rest middle t others
                (λ key on. path key (sym (p.flags key) ∙ on)) (ground (arith, j)) (omega arith)
                (rw same at more) in
            Calm-trans s middle t p q
        | inr old ↦ elim (Bool-cases (elem parent s.on_stack)) [
          | inl waiting ↦ let far = path parent waiting in absurd (omega arith)
          | inr over ↦
              visit_parents-Calm run alone node rest s t others path known low
                (rw (old, over, visit_parents) at h)
        ]
      ]
