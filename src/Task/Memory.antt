-- ===== src/Task/Memory.antt =====
-- repo/backend/internal/repository/memory/task_store.go: the in-memory task repository. `to_lower` is
-- strings.ToLower, whose Unicode tables are a parameter.
use training_ops_scheduling.Base.{String, none, some, List, [], select, str_eq, str_lt}
use training_ops_scheduling.Base.Text.{◌+ˢ◌}
use training_ops_scheduling.Base.Sort.{sort_slice}
use training_ops_scheduling.Base.Table.{Table, lookup, insert, delete, values}
use training_ops_scheduling.Base.Result.{Result, ok, err}
use training_ops_scheduling.Task.Data.{Task, TaskError}
use training_ops_scheduling.Task.Store.{TaskStore, Error?}

pub record TaskRepository : Type 0 where
  pub tasks : Table Task

unfoldable pub new_task_repository : TaskRepository
new_task_repository = record { tasks = [] }

unfoldable pub task_key : String → String → String
task_key tenant_id task_id = tenant_id +ˢ ":" +ˢ task_id

unfoldable pub upsert_task : Task → TaskRepository → TaskRepository × Error?
upsert_task task r =
    (record { tasks = insert (task_key task.tenant_id task.id) task r.tasks }, none)

unfoldable pub get_task : String → String → TaskRepository → Result TaskError Task
get_task tenant_id task_id r = elim (lookup (task_key tenant_id task_id) r.tasks) [
  | none ↦ err TaskError.task_not_found
  | some task ↦ ok task
]

unfoldable pub list_tasks :
    (String → String) → String → TaskRepository → Result TaskError (List Task)
list_tasks to_lower tenant_id r = ok (
    sort_slice (λ a b. str_lt (to_lower a.title) (to_lower b.title))
      (select (λ task. str_eq task.tenant_id tenant_id) (values r.tasks)))

unfoldable pub delete_task : String → String → TaskRepository → TaskRepository × Error?
delete_task tenant_id task_id r =
    (record { tasks = delete (task_key tenant_id task_id) r.tasks }, none)

abbrev pub memory_store : (String → String) → TaskStore
memory_store to_lower = record {
  State = TaskRepository;
  upsert_task = upsert_task;
  get_task = get_task;
  list_tasks = list_tasks to_lower;
  delete_task = delete_task;
}
