-- ===== src/Ingestion/Data.antt =====
-- repo/backend/internal/service/ingestion.go and model/ingestion.go: the records of the ingestion bot.
use training_ops_scheduling.Base.{ℕ, String, Option}
use training_ops_scheduling.Base.Result.{Result}
use training_ops_scheduling.Clock.{Time, Duration}

pub data ScraperState : Type 0 where
  queued running manual_review completed failed : ScraperState

pub record ScraperJob : Type 0 where
  pub id : String
  pub url : String
  pub proxy : String
  pub user_agent : String
  pub delay : Duration
  pub state : ScraperState
  pub reason : String
  pub created_at : Time
  pub updated_at : Time

-- The fields that RunPersistent leaves out are zero.
pub record IngestionSession : Type 0 where
  pub id : String
  pub tenant_id : String
  pub actor_user_id : String
  pub proxy : String
  pub user_agent : String
  pub request_count : ℕ
  pub last_seen_at : Time
  pub created_at : Time
  pub updated_at : Time

-- `panicked` stands for a panic; `other` is an error of the store's own.
pub data IngestionError : Type 0 where
  store_not_configured rate_limited panicked : IngestionError
  other : String → IngestionError

-- The IngestionStore interface.
pub record IngestionStore (State : Type 0) : Type 0 where
  pub upsert_ingestion_session :
      IngestionSession → State → State × Result IngestionError IngestionSession
  pub save_ingestion_job :
      String → String → ScraperJob → State → State × Result IngestionError ScraperJob
  pub enqueue_manual_review : String → String → String → State → State × Option IngestionError
