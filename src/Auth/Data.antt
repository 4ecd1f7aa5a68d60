-- ===== src/Auth/Data.antt =====
-- repo/backend/internal/model/models.go: users and sessions, and the errors of the auth code.
use training_ops_scheduling.Base.{ℕ, String, Option, List}
use training_ops_scheduling.Base.Int.{ℤ}
use training_ops_scheduling.Clock.{Time}

pub record User : Type 0 where
  pub id : String
  pub tenant_id : String
  pub email : String
  pub display_name : String
  pub role : String
  pub password_hash : String
  pub failed_attempts : ℤ
  pub locked_until : Option Time
  pub pii_encrypted : List ℕ
  pub password_changed_at : Time
  pub created_at : Time
  pub updated_at : Time

pub record Session : Type 0 where
  pub id : String
  pub tenant_id : String
  pub user_id : String
  pub refresh_token_hash : String
  pub expires_at : Time
  pub last_used_at : Time
  pub revoked_at : Option Time
  pub created_at : Time
  pub updated_at : Time

-- `other` is an error that bcrypt or a store makes itself.
pub data AuthError : Type 0 where
  not_found already_exists : AuthError
  invalid_credentials account_locked user_exists password_too_weak : AuthError
  registration_not_configured sessions_not_configured : AuthError
  other : String → AuthError
