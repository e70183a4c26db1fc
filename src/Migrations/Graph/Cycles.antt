-- ===== src/Migrations/Graph/Cycles.antt =====
-- firstCycleComponent of migrations/planner_graph.go: Tarjan's algorithm over the edges from a node
-- to its parents. `fuel` bounds how deep the visits nest.
pub mod Invariant
pub mod Visit
pub mod Popped
pub mod Finished
pub mod Roots
pub mod Acyclic
pub mod Recorded
pub mod Growth
pub mod Total
pub mod Calm
pub mod Exact
use godj.Base.{
  ℕ, zero, suc, ◌+◌, Bool, true, false, ◌&&◌, ◌||◌, List, [], ◌∷◌, ◌++◌, ◌==◌, nat_eq, ltb,
  if◌then◌else◌, elem, insert, delete, length, lookup, put, get_or, sort, Outcome, ok, err, stuck,
  ◌>>=◌,
}
use godj.Migrations.Keys.{MigrationKey, key_eq, no_key, migration_key_less, sort_migration_keys}
use godj.Migrations.Errors.{Planned}
use godj.Migrations.Graph.{PlannerGraph, parents_of, has_self_loop}

-- The variables that the closure `visit` shares. `on_stack` holds the keys whose flag is true.
pub record Search : Type 0 where
  pub index : ℕ
  pub indices : List (MigrationKey × ℕ)
  pub low_link : List (MigrationKey × ℕ)
  pub on_stack : List MigrationKey
  pub stack : List MigrationKey
  pub components : List (List MigrationKey)

abbrev pub fresh : Search
fresh = record {
  index = 0;
  indices = [];
  low_link = [];
  on_stack = [];
  stack = [];
  components = [];
}

abbrev pub index_of : Search → MigrationKey → ℕ
index_of s key = get_or 0 (lookup key s.indices)

abbrev pub low_of : Search → MigrationKey → ℕ
low_of s key = get_or 0 (lookup key s.low_link)

-- The assignments before the loop over the parents.
unfoldable pub enter : MigrationKey → Search → Search
enter node s = record {
  index = suc s.index;
  indices = put node (suc s.index) s.indices;
  low_link = put node (suc s.index) s.low_link;
  on_stack = insert node s.on_stack;
  stack = node ∷ s.stack;
  components = s.components;
}

-- `if value < lowLink[node] { lowLink[node] = value }`
unfoldable pub lower : MigrationKey → ℕ → Search → Search
lower node value s =
    if ltb value (low_of s node) then record s { low_link = put node value s.low_link } else s

-- The loop over the parents of `node`, given the recursive call.
unfoldable pub visit_parents :
    (MigrationKey → Search → Planned Search)
    → MigrationKey
    → List MigrationKey
    → Search
    → Planned Search
unfolding lower
visit_parents visit node [] s = ok s
visit_parents visit node (parent ∷ rest) s =
    let go_on = visit_parents visit node rest in
    if index_of s parent == 0
    then (do s' ← visit parent s; go_on (lower node (low_of s' parent) s'))
    else if elem parent s.on_stack
    then go_on (lower node (index_of s parent) s)
    else go_on s

-- The loop that pops the component of `node`: the stack, the flags and the component after it.
-- On an empty stack the program would panic.
unfoldable pub pop_component :
    MigrationKey
    → List MigrationKey
    → List MigrationKey
    → List MigrationKey
    → Planned (List MigrationKey × List MigrationKey × List MigrationKey)
pop_component node [] on_stack component = stuck
pop_component node (member ∷ stack) on_stack component =
    let rest = pop_component node stack (delete member on_stack) (component ++ member ∷ []) in
    if member == node then ok (stack, delete member on_stack, component ++ member ∷ []) else rest

-- `component[0]`
abbrev pub first : List MigrationKey → MigrationKey
first [] = no_key
first (key ∷ _) = key

abbrev pub by_first : List MigrationKey → List MigrationKey → Bool
by_first left right = migration_key_less (first left) (first right)

-- `components[0]`, if there is one.
abbrev pub smallest : List (List MigrationKey) → List MigrationKey
smallest [] = []
smallest (component ∷ _) = component

module _ (g : PlannerGraph) where
  abbrev pub is_cyclic : List MigrationKey → Bool
  is_cyclic component = ltb 1 (length component) || has_self_loop g (first component)

  unfoldable pub finish : MigrationKey → Search → Planned Search
  unfolding pop_component
  finish node s =
      if low_of s node == index_of s node
      then (do
        (stack, on_stack, members) ← pop_component node s.stack s.on_stack []
        let component = sort_migration_keys members
        let popped = record s { stack = stack; on_stack = on_stack }
        ok (
            if is_cyclic component
            then record popped { components = s.components ++ component ∷ [] }
            else popped))
      else ok s

  unfoldable pub visit : ℕ → MigrationKey → Search → Planned Search
  unfolding enter visit_parents finish
  visit zero node s = stuck
  visit (suc fuel) node s = do
    s' ← visit_parents (visit fuel) node (parents_of g node) (enter node s)
    finish node s'

  unfoldable pub visit_all : ℕ → List MigrationKey → Search → Planned Search
  unfolding visit
  visit_all fuel [] s = ok s
  visit_all fuel (node ∷ rest) s =
      if index_of s node == 0
      then (do s' ← visit fuel node s; visit_all fuel rest s')
      else visit_all fuel rest s

  unfoldable pub first_cycle_component : Planned (List MigrationKey)
  unfolding visit_all
  first_cycle_component = do
    s ← visit_all (length g.nodes) g.nodes fresh
    ok (smallest (sort by_first s.components))
