-- ===== src/Migrations/Graph.antt =====
-- migrations/planner_graph.go: the graph, its queries and the two planning loops. A map from keys
-- to keys is an association list in which a missing key has no neighbours.
pub mod Runs
pub mod Closures
pub mod Rollbacks
pub mod Shape
pub mod Effects
pub mod Progress
pub mod Cycles
pub mod Build
use godj.Base.{
  ℕ, zero, suc, GoString, Bool, true, false, ◌&&◌, ◌||◌, not, List, [], ◌∷◌, ◌++◌, Option, none,
  some, ◌==◌, if◌then◌else◌, string_eq, elem, insert, delete, keep, find, any, all, length, is_nil,
  push, lookup, get_or, Outcome, ok, err, stuck, ◌>>=◌,
}
use godj.Migrations.Keys.{MigrationKey, key_eq, no_key, sort_migration_keys}
use godj.Migrations.Errors.{
  Direction, ErrorCategory, ErrorCode, PlanningError, new_planning_error, Planned,
}

pub record PlannerGraph : Type 0 where
  pub nodes : List MigrationKey
  pub parents : List (MigrationKey × List MigrationKey)
  pub children : List (MigrationKey × List MigrationKey)

abbrev pub empty_planner_graph : PlannerGraph
empty_planner_graph = record { nodes = []; parents = []; children = [] }

pub record PlanStep : Type 0 where
  pub key : MigrationKey
  pub direction : Direction

abbrev pub internal_cycle_planning_error : List MigrationKey → PlanningError
internal_cycle_planning_error candidates =
    new_planning_error ErrorCategory.graph ErrorCode.dependency_cycle no_key no_key
      (sort_migration_keys candidates)

-- The steps of a plan, and the applied keys after them.
abbrev pub Steps : Type 0
Steps = List PlanStep × List MigrationKey

abbrev pub prepend : PlanStep → Planned Steps → Planned Steps
prepend step (ok (steps, after)) = ok (step ∷ steps, after)
prepend step (err e) = err e
prepend step stuck = stuck

module _ (g : PlannerGraph) where
  unfoldable pub parents_of : MigrationKey → List MigrationKey
  parents_of key = get_or [] (lookup key g.parents)

  unfoldable pub children_of : MigrationKey → List MigrationKey
  children_of key = get_or [] (lookup key g.children)

  unfoldable pub contains : MigrationKey → Bool
  contains key = elim (lookup key g.parents) [ none ↦ false | some _ ↦ true ]

  -- The first known edge from an applied child to a parent that is not applied.
  unfoldable pub history_gap :
      List MigrationKey → List MigrationKey → Option (MigrationKey × MigrationKey)
  history_gap applied [] = none
  history_gap applied (child ∷ rest) =
      let later = history_gap applied rest in
      let missing = find (λ parent. not (elem parent applied)) (parents_of child) in
      if elem child applied
      then (elim missing [ none ↦ later | some parent ↦ some (child, parent) ])
      else later

  unfoldable pub validate_applied_history : List MigrationKey → Planned (Unit {0})
  unfolding history_gap
  validate_applied_history applied = elim (history_gap applied g.nodes) [
    | none ↦ ok tt
    | some (child, parent) ↦ err (
        new_planning_error ErrorCategory.history ErrorCode.inconsistent_applied_history child parent
          [])
  ]

  -- The first loop of `planForward`, over a stack whose top stands first. `budget` bounds the keys that may still become candidates.
  unfoldable pub forward_candidates :
      List MigrationKey → ℕ → List MigrationKey → List MigrationKey → Planned (List MigrationKey)
  unfolding push
  forward_candidates applied budget [] candidates = ok candidates
  forward_candidates applied zero (key ∷ stack) candidates =
      let skip = forward_candidates applied zero stack candidates in
      if elem key applied || elem key candidates then skip else stuck
  forward_candidates applied (suc budget) (key ∷ stack) candidates =
      let skip = forward_candidates applied (suc budget) stack candidates in
      let visit =
        forward_candidates applied budget (push (parents_of key) stack) (key ∷ candidates) in
      if elem key applied || elem key candidates then skip else visit

  abbrev pub forward_ready : List MigrationKey → List MigrationKey → MigrationKey → Bool
  forward_ready candidates applied key =
      elem key candidates && all (λ parent. elem parent applied) (parents_of key)

  unfoldable pub first_forward_ready : List MigrationKey → List MigrationKey → Option MigrationKey
  first_forward_ready candidates applied = find (forward_ready candidates applied) g.nodes

  -- The second loop, which empties the candidates: the steps, and the applied keys after them.
  unfoldable pub forward_steps : ℕ → List MigrationKey → List MigrationKey → Planned Steps
  unfolding first_forward_ready is_nil
  forward_steps zero candidates applied = if is_nil candidates then ok ([], applied) else stuck
  forward_steps (suc fuel) candidates applied = elim (is_nil candidates) [
    | true ↦ ok ([], applied)
    | false ↦ elim (first_forward_ready candidates applied) [
      | none ↦ err (internal_cycle_planning_error candidates)
      | some next ↦
          prepend (record { key = next; direction = Direction.forward })
            (forward_steps fuel (delete next candidates) (insert next applied))
    ]
  ]

  unfoldable pub plan_forward : MigrationKey → List MigrationKey → Planned Steps
  unfolding forward_candidates forward_steps
  plan_forward target applied = do
    candidates ← forward_candidates applied (length g.nodes) (target ∷ []) []
    forward_steps (length candidates) candidates applied

  -- The first loop of `planBackward`, over the keys visited and the candidates.
  unfoldable pub backward_candidates :
      List MigrationKey
      → ℕ
      → List MigrationKey
      → List MigrationKey
      → List MigrationKey
      → Planned (List MigrationKey)
  unfolding push
  backward_candidates applied budget [] visited candidates = ok candidates
  backward_candidates applied zero (key ∷ stack) visited candidates =
      let skip = backward_candidates applied zero stack visited candidates in
      if elem key visited then skip else stuck
  backward_candidates applied (suc budget) (key ∷ stack) visited candidates =
      let skip = backward_candidates applied (suc budget) stack visited candidates in
      let visit =
        backward_candidates applied budget (push (children_of key) stack) (key ∷ visited)
          (if elem key applied then insert key candidates else candidates) in
      if elem key visited then skip else visit

  abbrev pub backward_ready : List MigrationKey → MigrationKey → Bool
  backward_ready candidates key =
      elem key candidates && not (any (λ child. elem child candidates) (children_of key))

  unfoldable pub first_backward_ready : List MigrationKey → Option MigrationKey
  first_backward_ready candidates = find (backward_ready candidates) g.nodes

  unfoldable pub backward_steps : ℕ → List MigrationKey → List MigrationKey → Planned Steps
  unfolding first_backward_ready is_nil
  backward_steps zero candidates applied = if is_nil candidates then ok ([], applied) else stuck
  backward_steps (suc fuel) candidates applied = elim (is_nil candidates) [
    | true ↦ ok ([], applied)
    | false ↦ elim (first_backward_ready candidates) [
      | none ↦ err (internal_cycle_planning_error candidates)
      | some next ↦
          prepend (record { key = next; direction = Direction.backward })
            (backward_steps fuel (delete next candidates) (delete next applied))
    ]
  ]

  unfoldable pub plan_backward : MigrationKey → List MigrationKey → Planned Steps
  unfolding backward_candidates backward_steps
  plan_backward seed applied = do
    candidates ← backward_candidates applied (length g.nodes) (seed ∷ []) [] []
    backward_steps (length candidates) candidates applied

  -- The nodes of an app that depend on no node of that app.
  unfoldable pub app_roots : GoString → List MigrationKey
  app_roots app =
      keep (λ key. key.app == app && not (any (λ parent. parent.app == app) (parents_of key)))
        g.nodes

  -- The nodes on which no node of their own app depends.
  unfoldable pub app_leaves : List MigrationKey
  app_leaves = keep (λ key. not (any (λ child. child.app == key.app) (children_of key))) g.nodes

  unfoldable pub has_self_loop : MigrationKey → Bool
  has_self_loop node = any (λ parent. parent == node) (parents_of node)
