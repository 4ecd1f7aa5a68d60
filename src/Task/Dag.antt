-- ===== src/Task/Dag.antt =====
-- repo/backend/internal/service/task.go: ValidateDAG, the depth-first search for a dependency cycle.
pub mod Paths
pub mod Search
pub mod Decides
use training_ops_scheduling.Base.{
  ℕ, zero, suc, ◌+◌, String, Bool, true, false, ◌||◌, not, Option, none, some, List, [], ◌∷◌,
  length, str_eq, any, select,
}
use training_ops_scheduling.Base.Table.{Table, lookup, insert}
use training_ops_scheduling.Task.Data.{Task, TaskError}

-- `set[id]`, for a map of booleans of which only the true ones are kept.
unfoldable pub contains : String → List String → Bool
contains id [] = false
contains id (x ∷ xs) = str_eq x id || contains id xs

-- `delete(set, id)`
unfoldable pub remove : String → List String → List String
remove id [] = []
remove id (x ∷ xs) =
    let rest = remove id xs in elim (str_eq x id) [ true ↦ rest | false ↦ x ∷ rest ]

abbrev pub Graph : Type 0
Graph = Table (List String)

build_graph_from : List Task → Graph → Graph
build_graph_from [] graph = graph
build_graph_from (task ∷ rest) graph =
    build_graph_from rest (insert task.id task.dependency_ids graph)

-- The loop that fills the graph; a later task with the same ID replaces an earlier one.
unfoldable pub build_graph : List Task → Graph
unfolding build_graph_from
build_graph tasks = build_graph_from tasks []

-- `graph[id]`, which is nil on a missing key.
unfoldable pub dependencies : Graph → String → List String
dependencies graph id = elim (lookup id graph) [ none ↦ [] | some ids ↦ ids ]

-- The two maps that `visit` writes.
pub record Marks : Type 0 where
  pub visited : List String
  pub stack : List String

-- `none` means that the fuel ran out; `true` that a cycle was found.
abbrev pub Visit : Type 0
Visit = Option (Bool × Marks)

-- The rest of a loop, unless a call found a cycle.
unfoldable pub unless_found : Visit → (Marks → Visit) → Visit
unless_found none next = none
unless_found (some (true, marks)) next = some (true, marks)
unless_found (some (false, marks)) next = next marks

-- A loop that returns at the first call that finds a cycle.
unfoldable pub visit_each : (String → Marks → Visit) → List String → Marks → Visit
unfolding unless_found
visit_each call [] marks = some (false, marks)
visit_each call (id ∷ ids) marks = unless_found (call id marks) (visit_each call ids)

abbrev pub enter : String → Marks → Marks
enter id marks = record { visited = id ∷ marks.visited; stack = id ∷ marks.stack }

unfoldable pub leave : String → Marks → Visit
unfolding remove
leave id marks = some (false, record marks { stack = remove id marks.stack })

unfoldable pub visit : Graph → ℕ → String → Marks → Visit
unfolding contains visit_each leave dependencies
visit graph zero id marks = none
visit graph (suc fuel) id marks = elim (contains id marks.stack) [
  | true ↦ some (true, marks)
  | false ↦ elim (contains id marks.visited) [
    | true ↦ some (false, marks)
    | false ↦
        unless_found (visit_each (visit graph fuel) (dependencies graph id) (enter id marks))
          (leave id)
  ]
]

unfoldable pub keys : Graph → List String
keys [] = []
keys ((id, ids) ∷ rest) = id ∷ keys rest

-- More fuel than the graph has nodes is enough.
unfoldable pub search_graph : Graph → Visit
unfolding visit keys
search_graph graph =
    visit_each (visit graph (suc (length (keys graph)))) (keys graph)
      (record { visited = []; stack = [] })

unfoldable pub verdict : Visit → Option TaskError
verdict none = none
verdict (some (true, marks)) = some TaskError.task_cycle_detected
verdict (some (false, marks)) = none

unfoldable pub validate_dag : List Task → Option TaskError
unfolding build_graph search_graph verdict
validate_dag tasks = verdict (search_graph (build_graph tasks))
