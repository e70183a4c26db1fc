-- ===== src/Migrations/Graph/Build/Accepted.antt =====
-- Every graph that newPlannerGraph returns is well formed, and its nodes are the migrations' keys.
use godj.Base.{
  ◌≡◌, refl, sym, ◌∙◌, ap, true, not, List, [], ◌∷◌, map, Option, none, some, inl, inr, List-cases,
  elem, keep, ◌∈◌, Nodup, elem-keep, not-elem-nil, sort, adjacent_duplicate, arith, ok,
}
use godj.Base.Sort.{map-sort, nil-of_sort, adjacent_duplicate-sort, Nodup-sort}
use godj.Migrations.Keys.{MigrationKey, key_eq, key_order, migration_key_less, sort_migration_keys}
use godj.Migrations.Errors.{ErrorCode}
use godj.Migrations.Definitions.{Migration, migration_key}
use godj.Migrations.Graph.{PlannerGraph}
use godj.Migrations.Graph.Shape.{IsWellFormed}
use godj.Migrations.Graph.Build.{
  PlannerDefinition, DependencyEdge, planner_definition, planner_definitions, dependency_edge_less,
  sort_dependency_edges, edges_where, reject_duplicate, reject_edge, graph_of, reject_cycle,
  new_planner_graph,
}
use godj.Migrations.Graph.Build.Edges.{
  has_edge, elem-children_of, elem-parents_of, contains-graph_of,
}

abbrev Keys : Type 0
Keys = List MigrationKey

-- `key ∷ rest` or nothing: when a check passes, it has found nothing.
reject_edge-eq-ok :
    (code : ErrorCode) (edges : List DependencyEdge)
    → reject_edge code (sort_dependency_edges edges) ≡ ok tt
    → edges ≡ []
unfolding sort_dependency_edges reject_edge
reject_edge-eq-ok code edges h =
    nil-of_sort dependency_edge_less edges (nothing (sort dependency_edge_less edges) h)
  where
    nothing : (l : List DependencyEdge) → reject_edge code l ≡ ok tt → l ≡ []
    nothing [] e = refl
    nothing (x ∷ l) e = cc

definition_keys :
    (ms : List Migration)
    → map (λ (d : PlannerDefinition). d.key) (map planner_definition ms) ≡ map migration_key ms
unfolding planner_definition
definition_keys [] = refl
definition_keys (m ∷ ms) = rw (definition_keys ms)

-- The nodes of the graph are the keys of the migrations in order.
planner_definitions-keys :
    (ms : List Migration)
    → map (λ (d : PlannerDefinition). d.key) (planner_definitions ms)
      ≡ sort_migration_keys (map migration_key ms)
unfolding planner_definitions sort_migration_keys
planner_definitions-keys ms =
    map-sort (λ (d : PlannerDefinition). d.key) migration_key_less (map planner_definition ms)
    ∙ ap (sort migration_key_less) (definition_keys ms)

-- What the checks of newPlannerGraph have established when it returns a graph.
pub record Accepts (ms : List Migration) (g : PlannerGraph) : Type 0 where
  pub built : g ≡ graph_of (planner_definitions ms)
  pub distinct : Nodup (map (λ (d : PlannerDefinition). d.key) (planner_definitions ms))
  pub complete :
      edges_where
        (keep (λ parent.
          not (elem parent (map (λ (d : PlannerDefinition). d.key) (planner_definitions ms)))))
        (planner_definitions ms)
      ≡ []
  pub no_cycle : reject_cycle g ≡ ok tt

reject_duplicate-eq-ok :
    (code : ErrorCode) (o : Option MigrationKey) → reject_duplicate code o ≡ ok tt → o ≡ none
unfolding reject_duplicate
reject_duplicate-eq-ok code none h = refl
reject_duplicate-eq-ok code (some k) h = cc

-- The check for repeated nodes leaves none.
keys-Nodup :
    (ms : List Migration)
    → reject_duplicate ErrorCode.duplicate_node
        (adjacent_duplicate (map (λ (d : PlannerDefinition). d.key) (planner_definitions ms)))
      ≡ ok tt
    → Nodup (map (λ (d : PlannerDefinition). d.key) (planner_definitions ms))
unfolding sort_migration_keys
keys-Nodup ms once =
    let keys = map (λ (d : PlannerDefinition). d.key) (planner_definitions ms) in
    let same_keys = planner_definitions-keys ms in
    let none_twice =
      reject_duplicate-eq-ok ErrorCode.duplicate_node (adjacent_duplicate keys) once in
    let unique =
      (adjacent_duplicate-sort migration_key_less key_order (map migration_key ms)).0
        (rw same_keys at none_twice) in
    rw same_keys (Nodup-sort migration_key_less (map migration_key ms) unique)

-- Every graph that `newPlannerGraph` returns is built from the sorted definitions; their keys are
-- distinct, each dependency is a key of them, and the graph has passed the cycle check.
pub new_planner_graph-Accepts :
    (ms : List Migration) (g : PlannerGraph) → new_planner_graph ms ≡ ok g → Accepts ms g
unfolding new_planner_graph sort_migration_keys
new_planner_graph-Accepts ms g h =
    let ds = planner_definitions ms in
    let keys = map (λ (d : PlannerDefinition). d.key) ds in
    let absent = keep (λ parent. not (elem parent keys)) in
    record {
      built = ground arith;
      distinct = keys-Nodup ms (ground arith);
      complete =
          reject_edge-eq-ok ErrorCode.dependency_not_found (edges_where absent ds) (ground arith);
      no_cycle = ground arith;
    }

-- With no edge to an absent node, every named parent is a node.
known_parent :
    (keys : Keys) (ds : List PlannerDefinition)
    → edges_where (keep (λ parent. not (elem parent keys))) ds ≡ []
    → (child parent : MigrationKey) → has_edge child parent ds ≡ true
    → parent ∈ keys
unfolding edges_where has_edge
known_parent keys [] h child parent e = cc
known_parent keys (d ∷ ds) h child parent e =
    let absent = keep (λ p. not (elem p keys)) d.dependencies in
    elim (List-cases absent) [
      | inl none_absent ↦ ground (
        arith,
        known_parent keys ds (rw none_absent at h) child parent,
        elem-keep (λ p. not (elem p keys)) parent d.dependencies,
        ap (elem parent) none_absent,
        not-elem-nil parent,
      )
      | inr (p, rest, some_absent) ↦ absurd (nil≢edge (rw some_absent at h))
    ]
  where
    nil≢edge : {x : DependencyEdge} {l : List DependencyEdge} → ¬ (x ∷ l ≡ [])
    nil≢edge q = cc

has_edge-elem :
    (child parent : MigrationKey) (ds : List PlannerDefinition)
    → has_edge child parent ds ≡ true
    → child ∈ map (λ (d : PlannerDefinition). d.key) ds
unfolding has_edge elem
has_edge-elem child parent [] h = cc
has_edge-elem child parent (d ∷ ds) h = ground (arith, has_edge-elem child parent ds)

module _ (ds : List PlannerDefinition) where
  abbrev keys : Keys
  keys = map (λ (d : PlannerDefinition). d.key) ds

  graph_of-IsWellFormed :
      Nodup keys
      → edges_where (keep (λ parent. not (elem parent keys))) ds ≡ []
      → IsWellFormed (graph_of ds)
  unfolding graph_of
  graph_of-IsWellFormed distinct complete = record {
    known = λ key parent m.
        known_parent keys ds complete key parent (rw (elem-parents_of key parent ds distinct) at m);
    source = λ key parent m.
        has_edge-elem key parent ds (rw (elem-parents_of key parent ds distinct) at m);
    transposed =
        λ key child. elem-children_of key child ds ∙ sym (elem-parents_of child key ds distinct);
    contained = λ key. contains-graph_of key ds;
    distinct = distinct;
  }

-- The checks for repeated nodes and for absent parents make the graph well formed.
pub checked-IsWellFormed :
    (ms : List Migration)
    → reject_duplicate ErrorCode.duplicate_node
        (adjacent_duplicate (map (λ (d : PlannerDefinition). d.key) (planner_definitions ms)))
      ≡ ok tt
    → reject_edge ErrorCode.dependency_not_found (
        sort_dependency_edges (
          edges_where
            (keep (λ parent.
              not (elem parent (map (λ (d : PlannerDefinition). d.key) (planner_definitions ms)))))
            (planner_definitions ms)))
      ≡ ok tt
    → IsWellFormed (graph_of (planner_definitions ms))
checked-IsWellFormed ms once complete =
    let ds = planner_definitions ms in
    let keys = map (λ (d : PlannerDefinition). d.key) ds in
    graph_of-IsWellFormed ds (keys-Nodup ms once) (
      reject_edge-eq-ok ErrorCode.dependency_not_found
        (edges_where (keep (λ parent. not (elem parent keys))) ds) complete)

-- Every graph that newPlannerGraph returns is well formed: no node twice, all parents nodes, and the
-- children exactly the parents read the other way.
pub new_planner_graph-IsWellFormed :
    (ms : List Migration) (g : PlannerGraph) → new_planner_graph ms ≡ ok g → IsWellFormed g
new_planner_graph-IsWellFormed ms g h =
    let a = new_planner_graph-Accepts ms g h in
    rw a.built (graph_of-IsWellFormed (planner_definitions ms) a.distinct a.complete)
