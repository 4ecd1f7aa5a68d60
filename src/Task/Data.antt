-- ===== src/Task/Data.antt =====
-- repo/backend/internal/model/task.go
use training_ops_scheduling.Base.{String, Option, List}
use training_ops_scheduling.Base.Int.{ℤ}
use training_ops_scheduling.Clock.{Time}

pub record Task : Type 0 where
  pub id : String
  pub tenant_id : String
  pub milestone_id : String
  pub parent_task_id : String
  pub title : String
  pub description : String
  pub due_date : Option Time
  pub dependency_ids : List String
  pub estimated_minutes : ℤ
  pub actual_minutes : ℤ
  pub version : ℤ
  pub created_at : Time
  pub updated_at : Time

pub record TaskEffortSummary : Type 0 where
  pub estimated_minutes : ℤ
  pub actual_minutes : ℤ
  pub variance_minutes : ℤ

-- `other` is an error that a store makes itself.
pub data TaskError : Type 0 where
  task_not_found task_cycle_detected task_version_conflict : TaskError
  other : String → TaskError
