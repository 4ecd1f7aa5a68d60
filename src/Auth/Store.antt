-- ===== src/Auth/Store.antt =====
-- repo/backend/internal/repository/interfaces.go: the UserStore, UserCreator and SessionStore
-- interfaces. The three share a state: one store implements them all.
use training_ops_scheduling.Base.{String, Bool, Option}
use training_ops_scheduling.Base.Result.{Result}
use training_ops_scheduling.Clock.{Time}
use training_ops_scheduling.Auth.Data.{User, Session, AuthError}

-- A method that returns only an error: `nil` is `none`.
abbrev pub Error? : Type 0
Error? = Option AuthError

pub record UserStore (State : Type 0) : Type 0 where
  pub get_by_email : String → String → State → Result AuthError User
  pub increment_failed_attempts : String → String → Time → State → State × Error?
  pub reset_failed_attempts : String → String → State → State × Error?

pub record UserCreator (State : Type 0) : Type 0 where
  pub create_user : User → State → State × Error?

pub record SessionStore (State : Type 0) : Type 0 where
  pub create_session : Session → State → State × Error?
  pub revoke : String → String → Time → State → State × Error?
  pub is_active : String → String → Time → State → Result AuthError Bool
  pub rotate : String → String → Session → Time → State → State × Error?
