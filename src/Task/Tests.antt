-- ===== src/Task/Tests.antt =====
-- The task component on concrete tasks: runs of its operations, and its theorems applied.
mod Postgres
use training_ops_scheduling.Base.{
  String, ◌≡◌, ◌≢◌, ◌↔◌, refl, none, some, List, [], ◌∷◌, arith, str_eq,
}
use training_ops_scheduling.Base.Int.{pos, negsuc}
use training_ops_scheduling.Base.Result.{ok}
use training_ops_scheduling.Base.Table.{lookup, insert}
use training_ops_scheduling.Task.Data.{Task, TaskError}
use training_ops_scheduling.Task.Dag.{build_graph, search_graph, validate_dag}
use training_ops_scheduling.Task.Dag.Paths.{HasCycle}
use training_ops_scheduling.Task.Dag.Decides.{validate_dag-cycle_iff}
use training_ops_scheduling.Task.Memory.{
  TaskRepository, task_key, get_task, upsert_task, memory_store,
}
use training_ops_scheduling.Task.Service.{versioned, update_task, calculate_effort}
use training_ops_scheduling.Task.Service.Update.{bump, update_task-stale, update_task-lost}
use training_ops_scheduling.Task.Service.Effort.{total, calculate_effort-exact}

abbrev job : String → List String → Task
job id needs = record {
  id = id;
  tenant_id = "acme";
  milestone_id = "m1";
  parent_task_id = "";
  title = "Prepare";
  description = "";
  due_date = none;
  dependency_ids = needs;
  estimated_minutes = pos 30;
  actual_minutes = pos 20;
  version = pos 1;
  created_at = 0;
  updated_at = 0;
}

-- The first task waits for itself, through the other.
abbrev looped : List Task
looped = job "a" ("b" ∷ []) ∷ job "b" ("a" ∷ []) ∷ []

-- Both later tasks wait for the first one.
abbrev fanned : List Task
fanned = job "a" [] ∷ job "b" ("a" ∷ []) ∷ job "c" ("a" ∷ "b" ∷ []) ∷ []

looped_refused : validate_dag looped ≡ some TaskError.task_cycle_detected
unfolding validate_dag insert str_eq lookup
looped_refused = refl

fanned_accepted : validate_dag fanned ≡ none
unfolding validate_dag insert str_eq lookup
fanned_accepted = refl

validate_dag-cycle_iff_example :
    (search_graph (build_graph looped) ≢ none)
    × ((validate_dag looped ≡ some TaskError.task_cycle_detected) ↔ HasCycle (build_graph looped))
    × ((validate_dag looped ≡ none) ↔ (¬ HasCycle (build_graph looped)))
validate_dag-cycle_iff_example = validate_dag-cycle_iff looped

abbrev stored : TaskRepository
stored = record { tasks = ("acme:a", job "a" []) ∷ [] }

abbrev lower : String → String
lower text = text

found : get_task "acme" "a" stored ≡ ok (job "a" [])
unfolding get_task lookup task_key str_eq
found = refl

abbrev updated : TaskRepository
updated = record { tasks = ("acme:a", bump (job "a" ("b" ∷ [])) (pos 1)) ∷ [] }

first_update :
    update_task (memory_store lower) (job "a" ("b" ∷ [])) (pos 1) stored ≡ (updated, none)
unfolding update_task get_task upsert_task lookup str_eq task_key insert
first_update = refl

update_task-stale_example :
    update_task (memory_store lower) (job "a" ("c" ∷ [])) (pos 1) updated
    ≡ (updated, some TaskError.task_version_conflict)
update_task-stale_example =
    update_task-stale lower (job "a" ("b" ∷ [])) (job "a" ("c" ∷ [])) (pos 1) stored updated refl
      refl first_update

update_task-lost_example :
    let checked_first = versioned (get_task "acme" "a" stored) (job "a" ("b" ∷ [])) (pos 1) in
    let checked_second = versioned (get_task "acme" "a" stored) (job "a" ("c" ∷ [])) (pos 1) in
    (checked_first ≡ ok (bump (job "a" ("b" ∷ [])) (pos 1)))
    × (checked_second ≡ ok (bump (job "a" ("c" ∷ [])) (pos 1)))
    × (get_task "acme" "a"
          (upsert_task
            (bump (job "a" ("c" ∷ [])) (pos 1))
            (upsert_task (bump (job "a" ("b" ∷ [])) (pos 1)) stored).0).0
        ≡ ok (bump (job "a" ("c" ∷ [])) (pos 1)))
update_task-lost_example =
    update_task-lost (job "a" []) (job "a" ("b" ∷ [])) (job "a" ("c" ∷ [])) stored refl refl found

calculate_effort-exact_example :
    calculate_effort fanned
    ≡ record { estimated_minutes = pos 90; actual_minutes = pos 60; variance_minutes = negsuc 29 }
unfolding total
calculate_effort-exact_example =
    calculate_effort-exact fanned ((refl, refl), ((refl, refl), ((refl, refl), tt))) (omega arith)
      (omega arith)
