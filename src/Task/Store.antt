-- ===== src/Task/Store.antt =====
-- repo/backend/internal/repository/interfaces.go: the TaskStore interface. A method takes the store's
-- state and returns the new one; a method that only reads returns no state.
use training_ops_scheduling.Base.{String, Option, List}
use training_ops_scheduling.Base.Result.{Result}
use training_ops_scheduling.Task.Data.{Task, TaskError}

-- A method that returns only an error: `nil` is `none`.
abbrev pub Error? : Type 0
Error? = Option TaskError

pub record TaskStore : Type 1 where
  pub State : Type 0
  pub upsert_task : Task → State → State × Error?
  pub get_task : String → String → State → Result TaskError Task
  pub list_tasks : String → State → Result TaskError (List Task)
  pub delete_task : String → String → State → State × Error?
