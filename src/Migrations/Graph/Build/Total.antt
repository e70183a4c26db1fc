-- ===== src/Migrations/Graph/Build/Total.antt =====
-- newPlannerGraph always returns a graph or an error: its search for a cycle has enough fuel.
use godj.Base.{
  ◌≡◌, List, [], ◌∷◌, map, not, elem, keep, is_nil, Option, none, some, adjacent_duplicate,
  adjacent_duplicates, ok, stuck, fail_if, ◌>>◌, >>-total, Bool, true, false,
}
use godj.Migrations.Keys.{MigrationKey, key_eq, sort_migration_keys}
use godj.Migrations.Errors.{ErrorCode}
use godj.Migrations.Definitions.{Migration, migration_key}
use godj.Migrations.Graph.{PlannerGraph}
use godj.Migrations.Graph.Shape.{IsWellFormed}
use godj.Migrations.Graph.Build.{
  PlannerDefinition, DependencyEdge, planner_definitions, sort_dependency_edges, edges_where,
  invalid_keys, reject_node, reject_duplicate, reject_edge, graph_of, cycle_error, reject_cycle,
  new_planner_graph,
}
use godj.Migrations.Graph.Build.Accepted.{checked-IsWellFormed}
use godj.Migrations.Graph.Cycles.Total.{first_cycle_component_total}

reject_node-ne-stuck :
    (code : ErrorCode) (keys : List MigrationKey) → ¬ (reject_node code keys ≡ stuck)
unfolding reject_node
reject_node-ne-stuck code [] h = cc
reject_node-ne-stuck code (_ ∷ _) h = cc

reject_duplicate-ne-stuck :
    (code : ErrorCode) (found : Option MigrationKey) → ¬ (reject_duplicate code found ≡ stuck)
unfolding reject_duplicate
reject_duplicate-ne-stuck code none h = cc
reject_duplicate-ne-stuck code (some _) h = cc

reject_edge-ne-stuck :
    (code : ErrorCode) (edges : List DependencyEdge) → ¬ (reject_edge code edges ≡ stuck)
unfolding reject_edge
reject_edge-ne-stuck code [] h = cc
reject_edge-ne-stuck code (_ ∷ _) h = cc

reject_cycle-ne-stuck : (g : PlannerGraph) → IsWellFormed g → ¬ (reject_cycle g ≡ stuck)
unfolding reject_cycle
reject_cycle-ne-stuck g w h =
    let (members, e) = first_cycle_component_total g w in
    checked (not (is_nil members)) (cycle_error members) (simp (reject_cycle, e) at h)
  where
    checked : {E : Type 0} (b : Bool) (e : E) → ¬ (fail_if b e ≡ stuck)
    checked true e h = cc
    checked false e h = cc

pub new_planner_graph-ne-stuck : (ms : List Migration) → ¬ (new_planner_graph ms ≡ stuck)
unfolding new_planner_graph
new_planner_graph-ne-stuck ms =
    let ds = planner_definitions ms in
    let keys = map (λ (d : PlannerDefinition). d.key) ds in
    let edges = λ (wrong : List MigrationKey → List MigrationKey).
      sort_dependency_edges (edges_where wrong ds) in
    let bad_keys = sort_migration_keys (invalid_keys (map migration_key ms)) in
    let missing = keep (λ parent. not (elem parent keys)) in
    let once = reject_duplicate ErrorCode.duplicate_node (adjacent_duplicate keys) in
    let valid = reject_edge ErrorCode.invalid_dependency (edges invalid_keys) in
    let single = reject_edge ErrorCode.duplicate_dependency (edges adjacent_duplicates) in
    let complete = reject_edge ErrorCode.dependency_not_found (edges missing) in
    let last = reject_cycle (graph_of ds) >> ok (graph_of ds) in
    >>-total (reject_node ErrorCode.invalid_node bad_keys)
      (once >> (valid >> (single >> (complete >> last))))
      (reject_node-ne-stuck ErrorCode.invalid_node bad_keys)
      (λ _.
        >>-total once (valid >> (single >> (complete >> last)))
          (reject_duplicate-ne-stuck ErrorCode.duplicate_node (adjacent_duplicate keys))
          (λ distinct.
            >>-total valid (single >> (complete >> last))
              (reject_edge-ne-stuck ErrorCode.invalid_dependency (edges invalid_keys))
              (λ _.
                >>-total single (complete >> last)
                  (reject_edge-ne-stuck ErrorCode.duplicate_dependency (edges adjacent_duplicates))
                  (λ _.
                    >>-total complete last
                      (reject_edge-ne-stuck ErrorCode.dependency_not_found (edges missing))
                      (λ none_missing.
                        >>-total (reject_cycle (graph_of ds)) (ok (graph_of ds))
                          (reject_cycle-ne-stuck (graph_of ds)
                            (checked-IsWellFormed ms distinct none_missing))
                          (λ _ h. cc))))))
