-- ===== src/Task/Postgres.antt =====
-- repo/backend/internal/repository/postgres/workflow_store.go: the methods that write, read and delete one
-- task, each one statement on a configured pool. The dependency identifiers are a list of texts,
-- where the column holds them as JSON.
pub mod Upsert
use training_ops_scheduling.Base.{
  String, Bool, true, false, not, ◌&&◌, ◌||◌, Option, none, some, List, [], ◌∷◌, ◌++◌, any, str_eq,
  if◌then◌else◌,
}
use training_ops_scheduling.Base.Rows.{update_where, first_where}
use training_ops_scheduling.Base.Result.{Result, ok, err, ◌>>=◌}
use training_ops_scheduling.Clock.{Time}
use training_ops_scheduling.Task.Data.{Task, TaskError}
use training_ops_scheduling.Task.Store.{Error?}
use training_ops_scheduling.Auth.Postgres
use training_ops_scheduling.Auth.Postgres.{resolve_tenant}

pub record TaskTables : Type 0 where
  pub accounts : Postgres.Tables
  pub milestones : List String
  pub tasks : List Task

-- * `uuid` is the cast `$n::uuid` followed by `::text`; `date` is what a column of type DATE keeps of a
--   time, and `timestamp` what one of type TIMESTAMPTZ keeps, which ends at the microsecond;
-- * `admits` tells whether the columns take the numbers and texts of a row.
pub record TaskServer : Type 0 where
  pub uuid : String → Option String
  pub date : Time → Time
  pub timestamp : Time → Time
  pub admits : Task → Bool

abbrev pub refused_task : TaskError
refused_task = TaskError.other "statement refused"

unfoldable pub tenant_of_task : String → TaskTables → Result TaskError String
tenant_of_task tenant db = elim (resolve_tenant tenant db.accounts) [
  | err e ↦ err (TaskError.other "no rows in result set")
  | ok id ↦ ok id
]

unfoldable pub has_task_id : String → Task → Bool
has_task_id id row = str_eq row.id id

-- `WHERE tenant_id = $1::uuid AND id = $2::uuid`
unfoldable pub is_task : String → String → Task → Bool
is_task tenant id row = str_eq row.tenant_id tenant && str_eq row.id id

-- `ON CONFLICT (id) DO UPDATE SET ...`
unfoldable pub overwrite_task : Task → Task → Task
overwrite_task excluded row = record row {
  title = excluded.title;
  description = excluded.description;
  due_date = excluded.due_date;
  dependency_ids = excluded.dependency_ids;
  estimated_minutes = excluded.estimated_minutes;
  actual_minutes = excluded.actual_minutes;
  version = excluded.version;
  updated_at = excluded.updated_at;
}

-- The references of a new row: NULL, which stands as the empty text, or a row that is there.
unfoldable pub task_refers : Task → TaskTables → Bool
unfolding any has_task_id
task_refers row db =
    (str_eq row.milestone_id "" || any (λ m. str_eq m row.milestone_id) db.milestones)
    && (str_eq row.parent_task_id ""
        || any (has_task_id row.parent_task_id) (db.tasks ++ (row ∷ [])))

-- The INSERT, where no row has the identifier, and the UPDATE of that row, where one has.
unfoldable pub insert_task : Task → TaskTables → Result TaskError TaskTables
unfolding any has_task_id update_where overwrite_task task_refers
insert_task row db =
    if any (has_task_id row.id) db.tasks
    then ok (record db { tasks = update_where (has_task_id row.id) (overwrite_task row) db.tasks })
    else if task_refers row db
    then ok (record db { tasks = db.tasks ++ (row ∷ []) })
    else err refused_task

unfoldable pub run_task : Result TaskError TaskTables → TaskTables → TaskTables × Error?
run_task (err e) db = (db, some e)
run_task (ok db') db = (db', none)

module _ (server : TaskServer) where
  unfoldable pub task_uuid : String → Result TaskError String
  task_uuid text = elim (server.uuid text) [ none ↦ err refused_task | some id ↦ ok id ]

  -- `NULLIF($n, '')::uuid`
  unfoldable pub optional_uuid : String → Result TaskError String
  unfolding task_uuid
  optional_uuid text = if str_eq text "" then ok "" else task_uuid text

  unfoldable pub stored_date : Option Time → Option Time
  stored_date none = none
  stored_date (some at) = some (server.date at)

  -- The row that VALUES makes. An empty identifier is NULL, which the key refuses.
  unfoldable pub task_row : String → Task → Result TaskError Task
  unfolding task_uuid optional_uuid stored_date
  task_row tenant task = if str_eq task.id "" then err refused_task else do
    id ← task_uuid task.id
    milestone_id ← optional_uuid task.milestone_id
    parent_task_id ← optional_uuid task.parent_task_id
    if server.admits task
        then ok (record task {
          id = id;
          tenant_id = tenant;
          milestone_id = milestone_id;
          parent_task_id = parent_task_id;
          due_date = stored_date task.due_date;
          created_at = server.timestamp task.created_at;
          updated_at = server.timestamp task.updated_at;
        })
        else err refused_task

  unfoldable pub upsert_task : Task → TaskTables → TaskTables × Error?
  unfolding run_task tenant_of_task task_row insert_task
  upsert_task task db =
      run_task
        (do
          tenant ← tenant_of_task task.tenant_id db
          row ← task_row tenant task
          insert_task row db)
        db

  unfoldable pub get_task : String → String → TaskTables → Result TaskError Task
  unfolding tenant_of_task task_uuid first_where is_task
  get_task tenant_id task_id db = do
    tenant ← tenant_of_task tenant_id db
    id ← task_uuid task_id
    elim (first_where (is_task tenant id) db.tasks) [
      | none ↦ err (TaskError.other "no rows in result set")
      | some row ↦ ok row
    ]
