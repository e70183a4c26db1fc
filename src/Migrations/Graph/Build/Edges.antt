-- ===== src/Migrations/Graph/Build/Edges.antt =====
-- The maps of a graph hold exactly the dependencies of its definitions, read in both directions.
use godj.Base.{
  ◌≡◌, refl, Bool, false, ◌&&◌, ◌||◌, List, [], ◌∷◌, ◌++◌, map, ◌==◌, ==_iff, elem, Nodup, lookup,
  put, get_or, lookup-put, elem-append, arith,
}
use godj.Base.Sort.{elem-sort}
use godj.Migrations.Keys.{MigrationKey, key_eq, migration_key_less, sort_migration_keys}
use godj.Migrations.Graph.{parents_of, children_of, contains}
use godj.Migrations.Graph.Build.{
  PlannerDefinition, add_child, link_children, sorted_entry, graph_of,
}

abbrev Keys : Type 0
Keys = List MigrationKey

abbrev Neighbours : Type 0
Neighbours = List (MigrationKey × Keys)

abbrev pub neighbours : MigrationKey → Neighbours → Keys
neighbours key m = get_or [] (lookup key m)

-- Some definition of `child` names `parent`.
unfoldable pub has_edge : MigrationKey → MigrationKey → List PlannerDefinition → Bool
has_edge child parent [] = false
has_edge child parent (d ∷ rest) =
    child == d.key && elem parent d.dependencies || has_edge child parent rest

elem-add_child :
    (key child c : MigrationKey) (deps : Keys) (m : Neighbours)
    → elem c (neighbours key (add_child child deps m))
      ≡ (c == child && elem key deps || elem c (neighbours key m))
unfolding add_child elem
elem-add_child key child c [] m = ground arith
elem-add_child key child c (parent ∷ deps) m = ground (
  arith,
  elem-add_child key child c deps (put parent (neighbours parent m ++ child ∷ []) m),
  lookup-put key parent (neighbours parent m ++ child ∷ []) m,
  elem-append c (neighbours parent m) (child ∷ []),
  ==_iff key parent,
)

elem-link_children :
    (key c : MigrationKey) (ds : List PlannerDefinition) (m : Neighbours)
    → elem c (neighbours key (link_children ds m))
      ≡ (has_edge c key ds || elem c (neighbours key m))
unfolding link_children has_edge
elem-link_children key c [] m = refl
elem-link_children key c (d ∷ ds) m = ground (
  arith,
  elem-link_children key c ds (add_child d.key d.dependencies m),
  elem-add_child key d.key c d.dependencies m,
)

elem-sorted_entries :
    (key c : MigrationKey) (m : Neighbours)
    → elem c (neighbours key (map sorted_entry m)) ≡ elem c (neighbours key m)
unfolding lookup sort_migration_keys
elem-sorted_entries key c [] = refl
elem-sorted_entries key c ((k, keys) ∷ m) =
    ground (arith, elem-sorted_entries key c m, elem-sort migration_key_less c keys)

-- The children in the graph.
pub elem-children_of :
    (key child : MigrationKey) (ds : List PlannerDefinition)
    → elem child (children_of (graph_of ds) key) ≡ has_edge child key ds
unfolding graph_of children_of lookup elem
elem-children_of key child ds =
    ground (
      arith,
      elem-sorted_entries key child (link_children ds []),
      elem-link_children key child ds [],
    )

has_edge-of_absent :
    (child parent : MigrationKey) (ds : List PlannerDefinition)
    → elem child (map (λ d. d.key) ds) ≡ false
    → has_edge child parent ds ≡ false
unfolding has_edge elem
has_edge-of_absent child parent [] h = refl
has_edge-of_absent child parent (d ∷ ds) h = ground (arith, has_edge-of_absent child parent ds)

-- The parents in the graph, where no key has two definitions.
pub elem-parents_of :
    (key parent : MigrationKey) (ds : List PlannerDefinition)
    → Nodup (map (λ (d : PlannerDefinition). d.key) ds)
    → elem parent (parents_of (graph_of ds) key) ≡ has_edge key parent ds
unfolding graph_of parents_of lookup has_edge sort_migration_keys
elem-parents_of key parent [] n = unfold elem in refl
elem-parents_of key parent (d ∷ ds) n = ground (
  arith,
  elem-parents_of key parent ds n.1,
  elem-sort migration_key_less parent d.dependencies,
  has_edge-of_absent key parent ds,
  ==_iff key d.key,
)

-- The graph contains exactly its nodes.
pub contains-graph_of :
    (key : MigrationKey) (ds : List PlannerDefinition)
    → contains (graph_of ds) key ≡ elem key (map (λ (d : PlannerDefinition). d.key) ds)
unfolding graph_of contains lookup elem
contains-graph_of key [] = refl
contains-graph_of key (d ∷ ds) = ground (arith, contains-graph_of key ds)
