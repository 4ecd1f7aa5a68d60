-- ===== src/Booking/Postgres/Tables.antt =====
-- repo/backend/internal/repository/postgres/store.go and workflow_store.go, with the tables of
-- repo/backend/migrations: the rows that the booking statements read and write, and what they take
-- from the database server. Instants are whole microseconds, which a timestamptz column keeps.
use training_ops_scheduling.Base.{
  ℕ, String, Bool, ◌||◌, ◌&&◌, Option, none, some, List, any, str_eq,
}
use training_ops_scheduling.Base.Rows.{first_where}
use training_ops_scheduling.Base.Result.{Result, ok, err}
use training_ops_scheduling.Clock.{Time}
use training_ops_scheduling.Booking.Data.{Booking, Room}
use training_ops_scheduling.Booking.Store.{BookingError}

pub record TenantRow : Type 0 where
  pub id : String
  pub slug : String

pub record UserRow : Type 0 where
  pub id : String
  pub tenant_id : String
  pub display_name : String
  pub created_at : Time
  pub updated_at : Time

pub record UserRoleRow : Type 0 where
  pub tenant_id : String
  pub user_id : String
  pub role_id : String

pub record RoleRow : Type 0 where
  pub id : String
  pub name : String

pub record ClassPeriodRow : Type 0 where
  pub tenant_id : String
  pub weekday : ℕ
  pub start_time : ℕ
  pub end_time : ℕ

pub record BlackoutDateRow : Type 0 where
  pub tenant_id : String
  pub blackout_date : ℕ

-- A row of bookings is the booking that scanBooking reads from it.
pub record Database : Type 0 where
  pub tenants : List TenantRow
  pub users : List UserRow
  pub user_roles : List UserRoleRow
  pub roles : List RoleRow
  pub rooms : List Room
  pub class_periods : List ClassPeriodRow
  pub blackout_dates : List BlackoutDateRow
  pub bookings : List Booking

-- What the statements take from the server and from package time:
-- * `uuid` is the cast `$n::uuid` followed by `::text`, which may fail;
-- * `new_id` is gen_random_uuid();
-- * `date_of` is the cast `$2::date`, `weekday_of` is `EXTRACT(DOW FROM $2::timestamptz)::int`, and
--   `clock_of` is `Format("15:04:05")` cast to `time`, in seconds;
-- * `lower` is the function lower.
pub record Server : Type 0 where
  pub uuid : String → Option String
  pub new_id : Database → String
  pub date_of : Time → ℕ
  pub weekday_of : Time → ℕ
  pub clock_of : Time → ℕ
  pub lower : String → String

-- A statement that the server refuses: a cast that fails, or a constraint.
abbrev pub refused_statement : BookingError
refused_statement = BookingError.other "statement refused"

-- pgx.ErrNoRows
abbrev pub no_rows : BookingError
no_rows = BookingError.other "no rows in result set"

module _ (server : Server) where
  -- `$n::uuid`
  unfoldable pub cast_uuid : String → Result BookingError String
  cast_uuid text = elim (server.uuid text) [ none ↦ err refused_statement | some id ↦ ok id ]

-- `SELECT id::text FROM tenants WHERE id::text = $1 OR slug = $1 LIMIT 1`
unfoldable pub resolve_tenant_uuid : String → Database → Result BookingError String
resolve_tenant_uuid tenant db =
    elim (first_where (λ t. str_eq t.id tenant || str_eq t.slug tenant) db.tenants) [
      | none ↦ err no_rows
      | some t ↦ ok t.id
    ]

-- `WHERE tenant_id = $1::uuid AND id = $2::uuid`
unfoldable pub is_row : String → String → Booking → Bool
is_row tenant_id id row = str_eq row.tenant_id tenant_id && str_eq row.id id

-- `REFERENCES users(id)`
unfoldable pub refers_user : String → Database → Bool
refers_user id db = any (λ u. str_eq u.id id) db.users
