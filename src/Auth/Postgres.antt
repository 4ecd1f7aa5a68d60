-- ===== src/Auth/Postgres.antt =====
-- repo/backend/internal/repository/postgres/store.go: the sessions on Postgres, each method one
-- transaction on a configured pool. What the server computes are the fields of Server.

pub mod Revoked
pub mod Rotation
use training_ops_scheduling.Base.{
  ℕ, String, Bool, true, false, not, ◌&&◌, ◌||◌, ◌+◌, ◌*◌, Option, none, some, List, [], ◌∷◌, ◌++◌,
  any, str_eq, leb, if◌then◌else◌,
}
use training_ops_scheduling.Base.Int.{ℤ, pos, ◌+ℤ◌, ltb_ℤ}
use training_ops_scheduling.Base.Rows.{update_where, first_where}
use training_ops_scheduling.Base.Result.{Result, ok, err, ◌>>=◌}
use training_ops_scheduling.Clock.{Time, minute}
use training_ops_scheduling.Auth.Data.{User, Session, AuthError}
use training_ops_scheduling.Auth.Store.{Error?, SessionStore}

pub record TenantName : Type 0 where
  pub id : String
  pub slug : String

-- The tables that sessions read. Those of roles and of the content stay as they are.
pub record Tables : Type 0 where
  pub tenants : List TenantName
  pub users : List User
  pub sessions : List Session

-- `uuid` is the cast `$n::uuid` followed by `::text`, `clock` the function now.
pub record Server : Type 0 where
  pub uuid : String → Option String
  pub clock : Tables → Time

abbrev pub refused_statement : AuthError
refused_statement = AuthError.other "statement refused"

-- A name that is the id of one tenant and the slug of another resolves to the earlier row.
unfoldable pub resolve_tenant : String → Tables → Result AuthError String
resolve_tenant tenant db =
    elim (first_where (λ t. str_eq t.id tenant || str_eq t.slug tenant) db.tenants) [
      | none ↦ err (AuthError.other "no rows in result set")
      | some t ↦ ok t.id
    ]

-- `WHERE tenant_id = $1::uuid AND id = $2::uuid`
unfoldable pub is_session : String → String → Session → Bool
is_session tenant id row = str_eq row.tenant_id tenant && str_eq row.id id

-- A method that returns only an error.
unfoldable pub run : Result AuthError Tables → Tables → Tables × Error?
run (err e) db = (db, some e)
run (ok db') db = (db', none)

-- `CASE WHEN revoked_at IS NOT NULL THEN false WHEN expires_at <= $3 THEN false ELSE true END`
unfoldable pub row_is_active : Time → Session → Bool
row_is_active now row = elim row.revoked_at [ some _ ↦ false | none ↦ not (leb row.expires_at now) ]

module _ (server : Server) where
  unfoldable pub cast : String → Result AuthError String
  cast text = elim (server.uuid text) [ none ↦ err refused_statement | some id ↦ ok id ]

  -- The primary key of sessions, and the reference to users.
  unfoldable pub insert_session : Session → Tables → Result AuthError Tables
  unfolding any
  insert_session row db =
      if any (λ r. str_eq r.id row.id) db.sessions
      then err refused_statement
      else if not (any (λ u. str_eq u.id row.user_id) db.users)
      then err refused_statement
      else ok (record db { sessions = db.sessions ++ (row ∷ []) })

  unfoldable pub add_session : String → Session → Tables → Result AuthError Tables
  unfolding insert_session cast
  add_session tenant session db = do
    id ← cast session.id
    user_id ← cast session.user_id
    insert_session (record session { id = id; tenant_id = tenant; user_id = user_id }) db

  unfoldable pub create_session : Session → Tables → Tables × Error?
  unfolding run resolve_tenant add_session
  create_session session db =
      run (do tenant ← resolve_tenant session.tenant_id db; add_session tenant session db) db

  unfoldable pub end_session : Time → Time → Session → Session
  end_session revoked_at clock row = record row { revoked_at = some revoked_at; updated_at = clock }

  unfoldable pub revoke_row : String → String → Time → Tables → Tables
  unfolding update_where is_session end_session
  revoke_row tenant id revoked_at db = record db {
    sessions =
        update_where (is_session tenant id) (end_session revoked_at (server.clock db)) db.sessions;
  }

  unfoldable pub revoke : String → String → Time → Tables → Tables × Error?
  unfolding run resolve_tenant revoke_row cast
  revoke tenant_id session_id revoked_at db =
      run
        (do
          tenant ← resolve_tenant tenant_id db
          id ← cast session_id
          ok (revoke_row tenant id revoked_at db))
        db

  unfoldable pub session_activity : Time → Option Session → Bool
  unfolding row_is_active
  session_activity now none = false
  session_activity now (some row) = row_is_active now row

  -- A missing session is inactive, without an error.
  unfoldable pub is_active : String → String → Time → Tables → Result AuthError Bool
  unfolding resolve_tenant cast first_where is_session session_activity
  is_active tenant_id session_id now db = do
    tenant ← resolve_tenant tenant_id db
    id ← cast session_id
    ok (session_activity now (first_where (is_session tenant id) db.sessions))

  -- The two statements stand or fall together. replaced_by_session_id is read nowhere.
  unfoldable pub rotate : String → String → Session → Time → Tables → Tables × Error?
  unfolding run resolve_tenant revoke_row cast add_session
  rotate tenant_id old_session_id next revoked_at db =
      run
        (do
          tenant ← resolve_tenant tenant_id db
          id ← cast old_session_id
          _ ← cast next.id
          add_session tenant (record next { revoked_at = none })
              (revoke_row tenant id revoked_at db))
        db
