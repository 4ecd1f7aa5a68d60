-- ===== src/Task/Tests/Postgres.antt =====
-- Tasks on Postgres, on concrete tables: a task is written under the identifier of another tenant's.
use training_ops_scheduling.Base.{
  ◌/◌, ◌*◌, ◌≡◌, ◌≢◌, refl, true, none, some, [], ◌∷◌, arith, str_eq, str_eq_iff,
}
use training_ops_scheduling.Base.Int.{pos}
use training_ops_scheduling.Base.Result.{ok}
use training_ops_scheduling.Base.Rows.{first_where}
use training_ops_scheduling.Auth.Postgres.{resolve_tenant}
use training_ops_scheduling.Task.Data.{Task}
use training_ops_scheduling.Task.Postgres.{
  TaskTables, TaskServer, tenant_of_task, has_task_id, task_row, task_uuid, optional_uuid,
  stored_date, upsert_task, get_task,
}
use training_ops_scheduling.Task.Postgres.Upsert.{merged, upsert_task-crosses_tenants}

-- Every text is a UUID, and the columns take every row.
abbrev server : TaskServer
server = record {
  uuid = λ text. some text;
  date = λ at. at;
  timestamp = λ at. at / 1000 * 1000;
  admits = λ _. true;
}

abbrev theirs : Task
theirs = record {
  id = "k1";
  tenant_id = "t1";
  milestone_id = "";
  parent_task_id = "";
  title = "Prepare";
  description = "";
  due_date = none;
  dependency_ids = [];
  estimated_minutes = pos 30;
  actual_minutes = pos 20;
  version = pos 1;
  created_at = 0;
  updated_at = 0;
}

abbrev ours : Task
ours = record theirs { tenant_id = "globex"; title = "Cancel"; version = pos 7 }

abbrev written : Task
written = record ours { tenant_id = "t2" }

abbrev db : TaskTables
db = record {
  accounts = record {
    tenants = record { id = "t1"; slug = "acme" } ∷ record { id = "t2"; slug = "globex" } ∷ [];
    users = [];
    sessions = [];
  };
  milestones = [];
  tasks = theirs ∷ [];
}

our_tenant : tenant_of_task "globex" db ≡ ok "t2"
unfolding tenant_of_task resolve_tenant first_where str_eq
our_tenant = refl

their_tenant : tenant_of_task "acme" db ≡ ok "t1"
unfolding tenant_of_task resolve_tenant first_where str_eq
their_tenant = refl

made : task_row server "t2" ours ≡ ok written
unfolding task_row task_uuid optional_uuid stored_date str_eq
made = refl

found : first_where (has_task_id "k1") db.tasks ≡ some theirs
unfolding first_where has_task_id str_eq
found = refl

other_tenant : theirs.tenant_id ≢ written.tenant_id
unfolding str_eq
other_tenant e = ground (arith, str_eq_iff theirs.tenant_id written.tenant_id)

upsert_task-crosses_tenants_example :
    ((upsert_task server ours db).1 ≡ none)
    × (get_task server "acme" "k1" (upsert_task server ours db).0 ≡ ok (merged written theirs))
upsert_task-crosses_tenants_example =
    upsert_task-crosses_tenants server "t2" ours written db theirs "acme" "k1" our_tenant made found
      other_tenant their_tenant refl
