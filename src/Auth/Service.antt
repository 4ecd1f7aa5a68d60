-- ===== src/Auth/Service.antt =====
-- repo/backend/internal/service/auth.go: the auth service over any stores. bcrypt is a parameter, and so
-- are the IDs that GenerateUUID makes.
pub mod Authenticate
pub mod Register
use training_ops_scheduling.Base.{
  ◌+◌, ◌*◌, String, Bool, true, false, Option, none, some, if◌then◌else◌,
}
use training_ops_scheduling.Base.Text.{◌+ˢ◌, itoa}
use training_ops_scheduling.Base.Result.{Result, ok, err}
use training_ops_scheduling.Clock.{Time, before, hour, unix_nano}
use training_ops_scheduling.Auth.Data.{User, Session, AuthError}
use training_ops_scheduling.Auth.Unicode.{Unicode}
use training_ops_scheduling.Auth.Password.{validate_password}
use training_ops_scheduling.Auth.Store.{Error?, UserStore, UserCreator, SessionStore}

-- GenerateFromPassword, and whether CompareHashAndPassword returns nil.
pub record Bcrypt : Type 0 where
  pub generate_from_password : String → Result AuthError String
  pub matches : String → String → Bool

-- The account is locked at the time `now`.
unfoldable pub locked_at : Time → User → Bool
locked_at now user = elim user.locked_until [ none ↦ false | some until ↦ before now until ]

module _ (unicode : Unicode) (bcrypt : Bcrypt) {State : Type 0} where
  -- Users.GetByEmail returned a user.
  user_is_there : Option (UserStore State) → User → State → Bool
  user_is_there none user s = false
  user_is_there (some users) user s = elim (users.get_by_email user.tenant_id user.email s) [
    | err _ ↦ false
    | ok _ ↦ true
  ]

  store_user : Option (UserCreator State) → User → State → State × Error?
  store_user none user s = (s, some AuthError.registration_not_configured)
  store_user (some creator) user s = creator.create_user user s

  unfoldable pub register :
      Option (UserStore State)
      → Option (UserCreator State)
      → User
      → String
      → Time
      → State
      → State × Error?
  unfolding user_is_there store_user validate_password
  register users creator user password now s = elim (validate_password unicode password) [
    | some e ↦ (s, some e)
    | none ↦ elim (user_is_there users user s) [
      | true ↦ (s, some AuthError.user_exists)
      | false ↦ elim (bcrypt.generate_from_password password) [
        | err e ↦ (s, some e)
        | ok hash ↦
            store_user creator (record user { password_hash = hash; password_changed_at = now }) s
      ]
    ]
  ]

  -- The service's Users field is set.
  unfoldable pub authenticate :
      UserStore State → String → String → String → Time → State → State × Result AuthError User
  unfolding locked_at
  authenticate users tenant_id email password now s = elim (users.get_by_email tenant_id email s) [
    | err _ ↦ (s, err AuthError.invalid_credentials)
    | ok user ↦ elim (locked_at now user) [
      | true ↦ (s, err AuthError.account_locked)
      | false ↦ elim (bcrypt.matches user.password_hash password) [
        | false ↦ (
          (users.increment_failed_attempts tenant_id user.id now s).0,
          err AuthError.invalid_credentials,
        )
        | true ↦ ((users.reset_failed_attempts tenant_id user.id s).0, ok user)
      ]
    ]
  ]

-- The session that CreateSession makes.
unfoldable pub new_session : String → User → Time → Session
new_session uuid user now = record {
  id = uuid;
  tenant_id = user.tenant_id;
  user_id = user.id;
  refresh_token_hash = "rt_" +ˢ itoa (unix_nano now);
  expires_at = now + 24 * hour;
  last_used_at = now;
  revoked_at = none;
  created_at = now;
  updated_at = now;
}

module _ {State : Type 0} where
  unfoldable pub create_session :
      Option (SessionStore State) → String → User → Time → State → State × Result AuthError Session
  unfolding new_session
  create_session none uuid user now s = (s, err AuthError.sessions_not_configured)
  create_session (some sessions) uuid user now s =
      let session = new_session uuid user now in
      let (s', failed) = sessions.create_session session s in
      elim failed [ some e ↦ (s', err e) | none ↦ (s', ok session) ]
