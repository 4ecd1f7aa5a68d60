-- ===== src/Task/Service.antt =====
-- repo/backend/internal/service/task.go: the task service, over any task store.
pub mod Update
pub mod Effort
use training_ops_scheduling.Base.{String, Option, none, some, List, [], ◌∷◌, length, if◌then◌else◌}
use training_ops_scheduling.Base.Int.{ℤ, pos, negsuc, eqb_ℤ, increment, to_int64, ◌+ℤ◌, ◌-ℤ◌}
use training_ops_scheduling.Base.Text.{◌+ˢ◌, decimal}
use training_ops_scheduling.Base.Result.{Result, ok, err}
use training_ops_scheduling.Task.Data.{Task, TaskEffortSummary, TaskError}
use training_ops_scheduling.Task.Dag.{validate_dag}
use training_ops_scheduling.Task.Store.{TaskStore, Error?}

add_effort : List Task → TaskEffortSummary → TaskEffortSummary
add_effort [] summary = summary
add_effort (task ∷ rest) summary = add_effort rest (record summary {
  estimated_minutes = to_int64 (summary.estimated_minutes +ℤ task.estimated_minutes);
  actual_minutes = to_int64 (summary.actual_minutes +ℤ task.actual_minutes);
})

unfoldable pub calculate_effort : List Task → TaskEffortSummary
unfolding add_effort
calculate_effort tasks =
    let summary =
      add_effort tasks
        (record { estimated_minutes = pos 0; actual_minutes = pos 0; variance_minutes = pos 0 }) in
    record summary {
      variance_minutes = to_int64 (summary.actual_minutes -ℤ summary.estimated_minutes);
    }

-- The check between the read and the write: the task to write, or the error.
unfoldable pub versioned : Result TaskError Task → Task → ℤ → Result TaskError Task
versioned (err e) updated expected_version = err e
versioned (ok current) updated expected_version =
    if eqb_ℤ current.version expected_version
    then ok (record updated { version = increment expected_version })
    else err TaskError.task_version_conflict

module _ (store : TaskStore) where
  write_versioned : Result TaskError Task → store.State → store.State × Error?
  write_versioned (err e) state = (state, some e)
  write_versioned (ok task) state = store.upsert_task task state

  unfoldable pub update_task : Task → ℤ → store.State → store.State × Error?
  unfolding versioned write_versioned
  update_task updated expected_version state =
      write_versioned
        (versioned (store.get_task updated.tenant_id updated.id state) updated expected_version)
        state

-- The text of an error, as the errors' values declare it.
error_text : TaskError → String
error_text TaskError.task_not_found = "task not found"
error_text TaskError.task_cycle_detected = "task dependency cycle detected"
error_text TaskError.task_version_conflict = "task version conflict"
error_text (TaskError.other text) = text

unfoldable pub dependency_summary : List Task → String
unfolding error_text
dependency_summary tasks = elim (validate_dag tasks) [
  | some e ↦ error_text e
  | none ↦ decimal (length tasks) +ˢ " tasks validated"
]
