-- ===== src/Task/Postgres/Upsert.antt =====
-- UpsertTask on Postgres: what a task that was written reads as.
use training_ops_scheduling.Base.{
  String, true, false, ◌≡◌, ◌≢◌, refl, sym, ap, ◌∙◌, inl, inr, Option, none, some, List, [], ◌∷◌,
  ◌++◌, any, arith, str_eq, str_eq_iff, Bool-cases, Option-cases,
}
use training_ops_scheduling.Base.Rows.{update_where, first_where, first_where-passes}
use training_ops_scheduling.Base.Result.{Result, ok, err}
use training_ops_scheduling.Task.Data.{Task, TaskError}
use training_ops_scheduling.Task.Postgres.{
  TaskTables, TaskServer, tenant_of_task, has_task_id, is_task, overwrite_task, insert_task,
  run_task, task_uuid, task_row, upsert_task, get_task,
}

-- The row that an accepted write leaves: a row that was there keeps its tenant, its milestone, its parent
-- and its creation, and takes all else from the new one.
unfoldable pub merged : Task → Task → Task
merged row old = record row {
  tenant_id = old.tenant_id;
  milestone_id = old.milestone_id;
  parent_task_id = old.parent_task_id;
  created_at = old.created_at;
}

unfoldable pub stored : Task → TaskTables → Task
unfolding first_where has_task_id merged
stored row db = elim (first_where (has_task_id row.id) db.tasks) [
  | none ↦ row
  | some old ↦ merged row old
]

overwrite_task-merged :
    (row old : Task) → has_task_id row.id old ≡ true → overwrite_task row old ≡ merged row old
unfolding overwrite_task merged has_task_id
overwrite_task-merged row old h =
    ap (λ id. record (merged row old) { id = id }) ((str_eq_iff old.id row.id).0 h)

first_where-any :
    (id : String) (rows : List Task)
    → first_where (has_task_id id) rows ≡ none
    → any (has_task_id id) rows ≡ false
unfolding any first_where
first_where-any id [] h = refl
first_where-any id (r ∷ rows) h = let ih = first_where-any id rows in ground (arith, ih)

found-any :
    (id : String) (rows : List Task) (old : Task)
    → first_where (has_task_id id) rows ≡ some old
    → any (has_task_id id) rows ≡ true
unfolding any first_where
found-any id [] old h = absurd (cc)
found-any id (r ∷ rows) old h = let ih = found-any id rows old in ground (arith, ih)

first_where-tenant :
    (tenant id : String) (rows : List Task) (row : Task)
    → first_where (has_task_id id) rows ≡ some row
    → row.tenant_id ≡ tenant
    → first_where (is_task tenant id) rows ≡ some row
unfolding first_where is_task has_task_id
first_where-tenant tenant id [] row h e = absurd (cc)
first_where-tenant tenant id (r ∷ rows) row h e =
    let ih = first_where-tenant tenant id rows row in
    elim (Bool-cases (str_eq r.id id)) [
      | inl there ↦
          let same : r ≡ row = ground arith in
          let t : str_eq r.tenant_id tenant ≡ true =
            (str_eq_iff r.tenant_id tenant).1 (ap (λ x. x.tenant_id) same ∙ e) in
          ground arith
      | inr away ↦ ground (arith, ih)
    ]

first_where-overwritten :
    (row : Task) (id : String) (rows : List Task) (old : Task)
    → first_where (has_task_id id) rows ≡ some old
    → first_where (has_task_id id) (update_where (has_task_id id) (overwrite_task row) rows)
      ≡ some (overwrite_task row old)
unfolding first_where update_where overwrite_task has_task_id
first_where-overwritten row id [] old h = absurd (cc)
first_where-overwritten row id (r ∷ rows) old h =
    let ih = first_where-overwritten row id rows old in
    elim (Bool-cases (str_eq r.id id)) [
      | inl there ↦
          let same : r ≡ old = ground arith in
          rw (there, there) (ap (λ x. some (overwrite_task row x)) same)
      | inr away ↦ rw (away, away) (ih (ground arith))
    ]

first_where-added :
    (id : String) (rows : List Task) (row : Task)
    → first_where (has_task_id id) rows ≡ none
    → row.id ≡ id
    → first_where (has_task_id id) (rows ++ (row ∷ [])) ≡ some row
unfolding first_where has_task_id
first_where-added id [] row h e = rw ((str_eq_iff row.id id).1 e) refl
first_where-added id (r ∷ rows) row h e =
    let ih = first_where-added id rows row in ground (arith, ih)

-- What the statement leaves, where it is not refused.
insert_task-stored :
    (row : Task) (db db' : TaskTables)
    → insert_task row db ≡ ok db'
    → (db'.accounts ≡ db.accounts)
      × (first_where (has_task_id row.id) db'.tasks ≡ some (stored row db))
unfolding insert_task stored
insert_task-stored row db db' h = elim (Option-cases (first_where (has_task_id row.id) db.tasks)) [
  | inl missing ↦
      let unused = first_where-any row.id db.tasks missing in
      let same : record db { tasks = db.tasks ++ (row ∷ []) } ≡ db' = ground arith in
      (
        sym (ap (λ d. d.accounts) same),
        rw (stored, missing, sym same) (first_where-added row.id db.tasks row missing refl),
      )
  | inr (old, found) ↦
      let used = found-any row.id db.tasks old found in
      let tasks = update_where (has_task_id row.id) (overwrite_task row) db.tasks in
      let same : record db { tasks = tasks } ≡ db' = ground arith in
      (
        sym (ap (λ d. d.accounts) same),
        rw (stored, found, sym same)
            (first_where-overwritten row row.id db.tasks old found
              ∙ ap some (
                  overwrite_task-merged row old
                    (first_where-passes (has_task_id row.id) db.tasks old found))),
      )
]

run_task-none :
    (db : TaskTables) (result : Result TaskError TaskTables)
    → (run_task result db).1 ≡ none
    → result ≡ ok (run_task result db).0
unfolding run_task
run_task-none db (err e) h = absurd (cc)
run_task-none db (ok db') h = refl

tenant_of_task-accounts :
    (tenant : String) (db db' : TaskTables)
    → db'.accounts ≡ db.accounts
    → tenant_of_task tenant db' ≡ tenant_of_task tenant db
unfolding tenant_of_task
tenant_of_task-accounts tenant db db' e =
    ap (λ accounts. tenant_of_task tenant (record db { accounts = accounts })) e

get_task-found :
    (server : TaskServer) (tenant id reader spelling : String) (row : Task) (db : TaskTables)
    → tenant_of_task reader db ≡ ok tenant
    → server.uuid spelling ≡ some id
    → first_where (is_task tenant id) db.tasks ≡ some row
    → get_task server reader spelling db ≡ ok row
unfolding get_task task_uuid
get_task-found server tenant id reader spelling row db reads same found =
    let answer : Option Task → Result TaskError Task =
      λ rows. elim rows [ none ↦ err (TaskError.other "no rows in result set") | some r ↦ ok r ] in
    let step : get_task server reader spelling db
        ≡ answer (first_where (is_task tenant id) db.tasks) =
      rw (reads, same, get_task, task_uuid) refl in
    step ∙ ap answer found

-- A task as a row of the tenant, its times as their columns keep them.
unfoldable pub as_row : TaskServer → String → Task → String → String → String → Task
as_row server tenant task id milestone_id parent_task_id = record task {
  id = id;
  tenant_id = tenant;
  milestone_id = milestone_id;
  parent_task_id = parent_task_id;
  due_date = elim task.due_date [ none ↦ none | some at ↦ some (server.date at) ];
  created_at = server.timestamp task.created_at;
  updated_at = server.timestamp task.updated_at;
}

module _ (server : TaskServer) (tenant : String) (task row : Task) (db : TaskTables) where
  upsert_task-runs :
      tenant_of_task task.tenant_id db ≡ ok tenant
      → task_row server tenant task ≡ ok row
      → upsert_task server task db ≡ run_task (insert_task row db) db
  unfolding upsert_task
  upsert_task-runs named made = rw (named, made, upsert_task) refl

  upsert_task-stored :
      (reader spelling : String)
      → tenant_of_task task.tenant_id db ≡ ok tenant
      → task_row server tenant task ≡ ok row
      → (upsert_task server task db).1 ≡ none
      → tenant_of_task reader db ≡ ok (stored row db).tenant_id
      → server.uuid spelling ≡ some row.id
      → get_task server reader spelling (upsert_task server task db).0 ≡ ok (stored row db)
  upsert_task-stored reader spelling named made done reads same =
      let runs = upsert_task-runs named made in
      let db' = (upsert_task server task db).0 in
      let written : insert_task row db ≡ ok db' =
        rw runs (run_task-none db (insert_task row db) (rw runs at done)) in
      let (accounts, found) = insert_task-stored row db db' written in
      get_task-found server (stored row db).tenant_id row.id reader spelling (stored row db) db'
        (tenant_of_task-accounts reader db db' accounts ∙ reads) same
        (first_where-tenant (stored row db).tenant_id row.id db'.tasks (stored row db) found refl)

  -- UpsertTask under an identifier that a task of another tenant has reports no error, and the other
  -- tenant then reads the new title and version in its task.
  pub upsert_task-crosses_tenants :
      (old : Task) (reader spelling : String)
      → tenant_of_task task.tenant_id db ≡ ok tenant
      → task_row server tenant task ≡ ok row
      → first_where (has_task_id row.id) db.tasks ≡ some old
      → old.tenant_id ≢ tenant
      → tenant_of_task reader db ≡ ok old.tenant_id
      → server.uuid spelling ≡ some row.id
      → ((upsert_task server task db).1 ≡ none)
        × (get_task server reader spelling (upsert_task server task db).0 ≡ ok (merged row old))
  unfolding stored merged insert_task run_task
  upsert_task-crosses_tenants old reader spelling named made found other reads same =
      let used = found-any row.id db.tasks old found in
      let kept : stored row db ≡ merged row old = rw (found, stored) refl in
      let done : (upsert_task server task db).1 ≡ none =
        rw (upsert_task-runs named made, used, insert_task) refl in
      (done, upsert_task-stored reader spelling named made done (rw kept reads) same ∙ ap ok kept)
