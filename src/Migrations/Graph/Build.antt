-- ===== src/Migrations/Graph/Build.antt =====
-- newPlannerGraph of migrations/planner_graph.go: validation of the definitions, in the order of the
-- program, and the maps of the graph.
pub mod Edges
pub mod Accepted
pub mod Total
use godj.Base.{
  Bool, true, false, not, List, [], ◌∷◌, ◌++◌, map, Option, none, some, ◌==◌, if◌then◌else◌, elem,
  keep, is_nil, lookup, put, get_or, sort, adjacent_duplicate, adjacent_duplicates, Outcome, ok,
  err, ◌>>=◌, ◌>>◌, fail_if,
}
use godj.Migrations.Keys.{
  MigrationKey, key_eq, no_key, valid_migration_key, migration_key_less, sort_migration_keys,
}
use godj.Migrations.Errors.{ErrorCategory, ErrorCode, PlanningError, new_planning_error, Planned}
use godj.Migrations.Definitions.{Migration, migration_key}
use godj.Migrations.Graph.{PlannerGraph}
use godj.Migrations.Graph.Cycles.{first_cycle_component}

pub record PlannerDefinition : Type 0 where
  pub key : MigrationKey
  pub dependencies : List MigrationKey

pub record DependencyEdge : Type 0 where
  pub child : MigrationKey
  pub parent : MigrationKey

abbrev pub graph_error : ErrorCode → MigrationKey → MigrationKey → PlanningError
graph_error code node related = new_planning_error ErrorCategory.graph code node related []

abbrev pub definition_less : PlannerDefinition → PlannerDefinition → Bool
definition_less left right = migration_key_less left.key right.key

unfoldable pub dependency_edge_less : DependencyEdge → DependencyEdge → Bool
dependency_edge_less left right =
    if not (left.child == right.child)
    then migration_key_less left.child right.child
    else migration_key_less left.parent right.parent

unfoldable pub sort_dependency_edges : List DependencyEdge → List DependencyEdge
unfolding dependency_edge_less
sort_dependency_edges = sort dependency_edge_less

-- The definitions in the order of their keys, each with its dependencies sorted.
unfoldable pub planner_definition : Migration → PlannerDefinition
planner_definition m = record {
  key = migration_key m;
  dependencies = sort_migration_keys m.dependencies;
}

unfoldable pub planner_definitions : List Migration → List PlannerDefinition
unfolding planner_definition
planner_definitions migrations = sort definition_less (map planner_definition migrations)

-- The edges of the definitions that a test picks out of each list of dependencies.
unfoldable pub edges_where :
    (List MigrationKey → List MigrationKey) → List PlannerDefinition → List DependencyEdge
edges_where pick [] = []
edges_where pick (d ∷ rest) =
    map (λ parent. record { child = d.key; parent = parent }) (pick d.dependencies)
    ++ edges_where pick rest

abbrev pub invalid_keys : List MigrationKey → List MigrationKey
invalid_keys = keep (λ key. not (valid_migration_key key))

-- An error about the first node, or the first edge, in sorted order.
unfoldable pub reject_node : ErrorCode → List MigrationKey → Planned (Unit {0})
reject_node code [] = ok tt
reject_node code (key ∷ _) = err (graph_error code key no_key)

unfoldable pub reject_duplicate : ErrorCode → Option MigrationKey → Planned (Unit {0})
reject_duplicate code none = ok tt
reject_duplicate code (some key) = err (graph_error code key no_key)

unfoldable pub reject_edge : ErrorCode → List DependencyEdge → Planned (Unit {0})
reject_edge code [] = ok tt
reject_edge code (edge ∷ _) = err (graph_error code edge.child edge.parent)

-- `for _, parent := range … { children[parent] = append(children[parent], child) }`
unfoldable pub add_child :
    MigrationKey
    → List MigrationKey
    → List (MigrationKey × List MigrationKey)
    → List (MigrationKey × List MigrationKey)
add_child child [] children = children
add_child child (parent ∷ rest) children =
    add_child child rest (put parent (get_or [] (lookup parent children) ++ child ∷ []) children)

unfoldable pub link_children :
    List PlannerDefinition
    → List (MigrationKey × List MigrationKey)
    → List (MigrationKey × List MigrationKey)
unfolding add_child
link_children [] children = children
link_children (d ∷ rest) children = link_children rest (add_child d.key d.dependencies children)

-- The two maps with each list sorted.
abbrev pub sorted_entry : MigrationKey × List MigrationKey → MigrationKey × List MigrationKey
sorted_entry (key, keys) = (key, sort_migration_keys keys)

unfoldable pub graph_of : List PlannerDefinition → PlannerGraph
unfolding link_children
graph_of definitions = record {
  nodes = map (λ d. d.key) definitions;
  parents = map (λ d. sorted_entry (d.key, d.dependencies)) definitions;
  children = map sorted_entry (link_children definitions []);
}

abbrev pub cycle_error : List MigrationKey → PlanningError
cycle_error members =
    new_planning_error ErrorCategory.graph ErrorCode.dependency_cycle no_key no_key members

unfoldable pub reject_cycle : PlannerGraph → Planned (Unit {0})
unfolding first_cycle_component
reject_cycle g = do
  members ← first_cycle_component g
  fail_if (not (is_nil members)) (cycle_error members)

unfoldable pub new_planner_graph : List Migration → Planned PlannerGraph
unfolding planner_definitions edges_where reject_node reject_duplicate reject_edge graph_of
    reject_cycle
new_planner_graph migrations = do
  reject_node ErrorCode.invalid_node
      (sort_migration_keys (invalid_keys (map migration_key migrations)))
  let definitions = planner_definitions migrations
  reject_duplicate ErrorCode.duplicate_node (adjacent_duplicate (map (λ d. d.key) definitions))
  reject_edge ErrorCode.invalid_dependency
      (sort_dependency_edges (edges_where invalid_keys definitions))
  reject_edge ErrorCode.duplicate_dependency
      (sort_dependency_edges (edges_where adjacent_duplicates definitions))
  let missing = keep (λ parent. not (elem parent (map (λ d. d.key) definitions)))
  reject_edge ErrorCode.dependency_not_found
      (sort_dependency_edges (edges_where missing definitions))
  let graph = graph_of definitions
  reject_cycle graph
  ok graph
