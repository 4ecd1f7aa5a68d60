-- ===== src/Auth/Memory.antt =====
-- repo/backend/internal/repository/memory/store.go: the in-memory users and sessions.
pub mod Users
pub mod Sessions
use training_ops_scheduling.Base.{
  ℕ, ◌+◌, ◌*◌, String, Bool, true, false, not, ◌&&◌, Option, none, some, [], ◌∷◌, str_eq,
  if◌then◌else◌,
}
use training_ops_scheduling.Base.Int.{pos, increment, ltb_ℤ}
use training_ops_scheduling.Base.Text.{◌+ˢ◌}
use training_ops_scheduling.Base.Table.{Table, lookup, insert}
use training_ops_scheduling.Base.Result.{Result, ok, err}
use training_ops_scheduling.Clock.{Time, minute, after}
use training_ops_scheduling.Auth.Data.{User, Session, AuthError}
use training_ops_scheduling.Auth.Unicode.{Unicode}
use training_ops_scheduling.Auth.Store.{Error?, UserStore, UserCreator, SessionStore}

pub record Store : Type 0 where
  pub users : Table User
  pub sessions : Table Session

unfoldable pub new_store : Store
new_store = record { users = []; sessions = [] }

unfoldable pub user_key : Unicode → String → String → String
user_key unicode tenant_id email = tenant_id +ˢ ":" +ˢ unicode.to_lower (unicode.trim_space email)

unfoldable pub session_key : String → String → String
session_key tenant_id session_id = tenant_id +ˢ ":" +ˢ session_id

-- A range loop that rewrites the first entry that passes the test and returns; `none` if it ends.
unfoldable pub update_first : (User → Bool) → (User → User) → Table User → Option (Table User)
update_first p f [] = none
update_first p f ((key, user) ∷ rest) =
    let later = update_first p f rest in
    elim (p user) [
      | true ↦ some ((key, f user) ∷ rest)
      | false ↦ elim later [ none ↦ none | some rest' ↦ some ((key, user) ∷ rest') ]
    ]

unfoldable pub is_user : String → String → User → Bool
is_user tenant_id user_id user = str_eq user.tenant_id tenant_id && str_eq user.id user_id

unfoldable pub failed_user : Time → User → User
failed_user now user =
    let counted = increment user.failed_attempts in
    record user {
      failed_attempts = counted;
      locked_until =
          if not (ltb_ℤ counted (pos 5)) then some (now + 15 * minute) else user.locked_until;
    }

unfoldable pub reset_user : User → User
reset_user user = record user { failed_attempts = pos 0; locked_until = none }

unfoldable pub write_users : Store → Option (Table User) → Store × Error?
write_users s none = (s, some AuthError.not_found)
write_users s (some users) = (record s { users = users }, none)

unfoldable pub increment_failed_attempts : String → String → Time → Store → Store × Error?
unfolding is_user update_first write_users
increment_failed_attempts tenant_id user_id now s =
    write_users s (update_first (is_user tenant_id user_id) (failed_user now) s.users)

unfoldable pub reset_failed_attempts : String → String → Store → Store × Error?
unfolding is_user update_first write_users
reset_failed_attempts tenant_id user_id s =
    write_users s (update_first (is_user tenant_id user_id) reset_user s.users)

unfoldable pub create_session : Session → Store → Store × Error?
create_session session s = (
  record s { sessions = insert (session_key session.tenant_id session.id) session s.sessions },
  none,
)

unfoldable pub revoke : String → String → Time → Store → Store × Error?
revoke tenant_id session_id revoked_at s =
    let key = session_key tenant_id session_id in
    elim (lookup key s.sessions) [
      | none ↦ (s, some AuthError.not_found)
      | some session ↦ (
        record s {
          sessions = insert key (record session { revoked_at = some revoked_at }) s.sessions;
        },
        none,
      )
    ]

unfoldable pub session_is_active : Time → Session → Bool
session_is_active now session = elim session.revoked_at [
  | some _ ↦ false
  | none ↦ if after now session.expires_at then false else true
]

unfoldable pub is_active : String → String → Time → Store → Result AuthError Bool
is_active tenant_id session_id now s = elim (lookup (session_key tenant_id session_id) s.sessions) [
  | none ↦ err AuthError.not_found
  | some session ↦ ok (session_is_active now session)
]

unfoldable pub rotate : String → String → Session → Time → Store → Store × Error?
rotate tenant_id old_session_id next revoked_at s =
    let key = session_key tenant_id old_session_id in
    elim (lookup key s.sessions) [
      | none ↦ (s, some AuthError.not_found)
      | some current ↦
          let current' = record current { revoked_at = some revoked_at; updated_at = revoked_at } in
          (
            record s {
              sessions =
                  insert (session_key next.tenant_id next.id) next (insert key current' s.sessions);
            },
            none,
          )
    ]

module _ (unicode : Unicode) where
  unfoldable pub get_by_email : String → String → Store → Result AuthError User
  get_by_email tenant_id email s = elim (lookup (user_key unicode tenant_id email) s.users) [
    | none ↦ err AuthError.not_found
    | some user ↦ ok user
  ]

  unfoldable pub save_user : User → Store → Store
  save_user user s = record s {
    users = insert (user_key unicode user.tenant_id user.email) user s.users;
  }

  unfoldable pub create_user : User → Store → Store × Error?
  create_user user s =
      let key = user_key unicode user.tenant_id user.email in
      elim (lookup key s.users) [
        | some _ ↦ (s, some AuthError.already_exists)
        | none ↦ (record s { users = insert key user s.users }, none)
      ]

  abbrev pub users_of : UserStore Store
  users_of = record {
    get_by_email = get_by_email;
    increment_failed_attempts = increment_failed_attempts;
    reset_failed_attempts = reset_failed_attempts;
  }

  abbrev pub creator_of : UserCreator Store
  creator_of = record { create_user = create_user }

abbrev pub sessions_of : SessionStore Store
sessions_of = record {
  create_session = create_session;
  revoke = revoke;
  is_active = is_active;
  rotate = rotate;
}
