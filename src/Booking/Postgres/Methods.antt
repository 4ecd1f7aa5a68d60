-- ===== src/Booking/Postgres/Methods.antt =====
-- repo/backend/internal/repository/postgres/workflow_store.go: the methods of the booking store. A
-- method takes the database and returns the new one. A transaction that returns before its commit
-- leaves the database as it was.
use training_ops_scheduling.Base.{
  ℕ, String, Bool, not, ◌&&◌, Option, none, some, List, [], ◌∷◌, ◌++◌, any, select, map, length,
  str_eq, str_lt, if◌then◌else◌,
}
use training_ops_scheduling.Base.Sort.{sort_slice}
use training_ops_scheduling.Base.Rows.{update_where, first_where}
use training_ops_scheduling.Base.Result.{Result, ok, err, ◌>>=◌}
use training_ops_scheduling.Clock.{Time, Duration, before}
use training_ops_scheduling.Booking.Data.{Booking, Room, Instructor, BookingConflict}
use training_ops_scheduling.Booking.Store.{BookingError, HoldResult, Error?, BookingStore}
use training_ops_scheduling.Booking.Postgres.Tables.{
  Database, Server, UserRow, cast_uuid, resolve_tenant_uuid, refused_statement, no_rows, is_row,
  refers_user,
}
use training_ops_scheduling.Booking.Postgres.Detect.{detect_booking_conflicts_tx}
use training_ops_scheduling.Booking.Postgres.Rows.{
  held_row, has_run_out, confirm_row, expire_row, cancel_row, check_in_row, reschedule_row,
  is_confirmable_row, is_run_out_row, is_confirmed_row,
}

abbrev pub booking_conflict_error : BookingError
booking_conflict_error = BookingError.other "booking conflict"

-- `UPDATE bookings SET ... WHERE ...`
unfoldable pub update_bookings : (Booking → Bool) → (Booking → Booking) → Database → Database
unfolding update_where
update_bookings p f db = record db { bookings = update_where p f db.bookings }

-- The two statements of Confirm: the second one runs where the first changes no row.
unfoldable pub confirm_statements : String → String → Time → Database → Database × Error?
unfolding update_bookings is_confirmable_row is_run_out_row confirm_row expire_row any
confirm_statements tenant id now db =
    if any (is_confirmable_row tenant id now) db.bookings
    then (update_bookings (is_confirmable_row tenant id now) (confirm_row now) db, none)
    else (
      update_bookings (is_run_out_row tenant id now) (expire_row now) db,
      some (BookingError.other "booking cannot be confirmed"),
    )

unfoldable pub cancel_statement : String → String → Time → Database → Database × Error?
unfolding update_bookings is_row cancel_row any
cancel_statement tenant id now db =
    if any (is_row tenant id) db.bookings
    then (update_bookings (is_row tenant id) (cancel_row now) db, none)
    else (db, some (BookingError.other "booking not found"))

unfoldable pub check_in_statement : String → String → Time → Database → Database × Error?
unfolding update_bookings is_confirmed_row check_in_row any
check_in_statement tenant id now db =
    if any (is_confirmed_row tenant id) db.bookings
    then (update_bookings (is_confirmed_row tenant id) (check_in_row now) db, none)
    else (db, some (BookingError.other "only confirmed bookings can be checked in"))

-- A method that returns the error that the code before its statements met.
unfoldable pub or_fail : Database → Result BookingError (Database × Error?) → Database × Error?
or_fail db (err e) = (db, some e)
or_fail db (ok result) = result

-- scanBooking of the row that a query reads, or of none.
unfoldable pub one_row : Option Booking → Result BookingError Booking
one_row none = err no_rows
one_row (some row) = ok row

-- The primary key and the references of the table bookings. That the room stands in the table
-- rooms was found before the insert.
unfoldable pub insert_booking : Booking → Database → Database × HoldResult
unfolding any refers_user
insert_booking row db =
    if any (λ b. str_eq b.id row.id) db.bookings
    then (db, HoldResult.refused [] refused_statement)
    else if not (refers_user row.instructor_id db)
    then (db, HoldResult.refused [] refused_statement)
    else if not (str_eq row.user_id "") && not (refers_user row.user_id db)
    then (db, HoldResult.refused [] refused_statement)
    else (record db { bookings = db.bookings ++ (row ∷ []) }, HoldResult.placed row)

-- The UPDATE of Reschedule, whose row was read before.
unfoldable pub move_unless :
    String
    → Time
    → Time
    → Time
    → Booking
    → Result BookingError (List BookingConflict)
    → Database
    → Database × Result BookingError Booking
unfolding update_bookings is_row reschedule_row
move_unless tenant new_start new_end now current (err e) db = (db, err e)
move_unless tenant new_start new_end now current (ok []) db = (
  update_bookings (is_row tenant current.id) (reschedule_row new_start new_end now) db,
  ok (reschedule_row new_start new_end now current),
)
move_unless tenant new_start new_end now current (ok (c ∷ cs)) db = (db, err booking_conflict_error)

module _ (server : Server) where
  -- The two casts that the statements on one booking begin with.
  unfoldable pub with_row_ids :
      String → String → (String → String → Database × Error?) → Database → Database × Error?
  unfolding or_fail cast_uuid resolve_tenant_uuid
  with_row_ids tenant_id booking_id statements db = or_fail db do
    tenant ← resolve_tenant_uuid tenant_id db
    id ← cast_uuid server booking_id
    ok (statements tenant id)

  unfoldable pub get_booking_tx : String → String → Database → Result BookingError Booking
  unfolding cast_uuid is_row first_where one_row
  get_booking_tx tenant booking_id db = do
    id ← cast_uuid server booking_id
    one_row (first_where (is_row tenant id) db.bookings)

  unfoldable pub get_booking : String → String → Database → Result BookingError Booking
  unfolding resolve_tenant_uuid get_booking_tx
  get_booking tenant_id booking_id db = do
    tenant ← resolve_tenant_uuid tenant_id db
    get_booking_tx tenant booking_id db

  -- `NULLIF($2, '')::uuid`, read back with `COALESCE(user_id::text, '')`
  unfoldable pub cast_user : String → Result BookingError String
  unfolding cast_uuid
  cast_user user_id = if str_eq user_id "" then ok "" else cast_uuid server user_id

  -- The INSERT of CreateHold, its casts first.
  unfoldable pub insert_hold : String → Booking → Duration → Time → Database → Database × HoldResult
  unfolding insert_booking held_row cast_uuid cast_user
  insert_hold tenant booking hold_ttl now db =
      let ids : Result BookingError (String × String × String) = do
        user_id ← cast_user booking.user_id
        room_id ← cast_uuid server booking.room_id
        instructor_id ← cast_uuid server booking.instructor_id
        ok (user_id, room_id, instructor_id)
      in elim ids [
        | err e ↦ (db, HoldResult.refused [] e)
        | ok (user_id, room_id, instructor_id) ↦
            insert_booking
              (held_row booking hold_ttl now (server.new_id db) tenant user_id room_id
                instructor_id)
              db
      ]

  unfoldable pub hold_unless :
      String
      → Booking
      → Duration
      → Time
      → Result BookingError (List BookingConflict)
      → Database
      → Database × HoldResult
  unfolding insert_hold
  hold_unless tenant booking hold_ttl now (err e) db = (db, HoldResult.refused [] e)
  hold_unless tenant booking hold_ttl now (ok []) db = insert_hold tenant booking hold_ttl now db
  hold_unless tenant booking hold_ttl now (ok (c ∷ cs)) db =
      (db, HoldResult.refused (c ∷ cs) booking_conflict_error)

  unfoldable pub create_hold : Booking → Duration → Time → Database → Database × HoldResult
  unfolding resolve_tenant_uuid detect_booking_conflicts_tx hold_unless
  create_hold booking hold_ttl now db = elim (resolve_tenant_uuid booking.tenant_id db) [
    | err e ↦ (db, HoldResult.refused [] e)
    | ok tenant ↦
        hold_unless tenant booking hold_ttl now
          (detect_booking_conflicts_tx server tenant booking now [] db) db
  ]

  unfoldable pub confirm : String → String → Time → Database → Database × Error?
  unfolding with_row_ids confirm_statements
  confirm tenant_id booking_id now db =
      with_row_ids tenant_id booking_id (λ tenant id. confirm_statements tenant id now db) db

  unfoldable pub cancel : String → String → Time → Database → Database × Error?
  unfolding with_row_ids cancel_statement
  cancel tenant_id booking_id now db =
      with_row_ids tenant_id booking_id (λ tenant id. cancel_statement tenant id now db) db

  unfoldable pub check_in : String → String → Time → Database → Database × Error?
  unfolding with_row_ids check_in_statement
  check_in tenant_id booking_id now db =
      with_row_ids tenant_id booking_id (λ tenant id. check_in_statement tenant id now db) db

  unfoldable pub reschedule :
      String → String → Time → Time → Time → Database → Database × Result BookingError Booking
  unfolding resolve_tenant_uuid get_booking_tx detect_booking_conflicts_tx move_unless
  reschedule tenant_id booking_id new_start new_end now db =
      let read : Result BookingError (String × Booking) = do
        tenant ← resolve_tenant_uuid tenant_id db
        current ← get_booking_tx tenant booking_id db
        ok (tenant, current)
      in elim read [
        | err e ↦ (db, err e)
        | ok (tenant, current) ↦
            move_unless tenant new_start new_end now current
              (detect_booking_conflicts_tx server tenant
                (record current { start_at = new_start; end_at = new_end }) now (booking_id ∷ [])
                db)
              db
      ]

  unfoldable pub list_bookings : String → Database → Result BookingError (List Booking)
  unfolding resolve_tenant_uuid sort_slice select
  list_bookings tenant_id db = do
    tenant ← resolve_tenant_uuid tenant_id db
    ok (
        sort_slice (λ b c. before b.start_at c.start_at)
          (select (λ b. str_eq b.tenant_id tenant) db.bookings))

  unfoldable pub list_rooms : String → Database → Result BookingError (List Room)
  unfolding resolve_tenant_uuid sort_slice select
  list_rooms tenant_id db = do
    tenant ← resolve_tenant_uuid tenant_id db
    ok (
        sort_slice (λ a b. str_lt a.name b.name)
          (select (λ room. str_eq room.tenant_id tenant) db.rooms))

  -- The joins of ListInstructors: some role that the user has in its tenant is the instructor's.
  unfoldable pub teaches : UserRow → Database → Bool
  unfolding any
  teaches u db =
      any
        (λ ur.
          str_eq ur.tenant_id u.tenant_id
          && str_eq ur.user_id u.id
          && any (λ r. str_eq r.id ur.role_id && str_eq (server.lower r.name) "instructor")
              db.roles)
        db.user_roles

  unfoldable pub list_instructors : String → Database → Result BookingError (List Instructor)
  unfolding resolve_tenant_uuid sort_slice select teaches
  list_instructors tenant_id db = do
    tenant ← resolve_tenant_uuid tenant_id db
    ok (
        sort_slice (λ a b. str_lt a.name b.name)
          (map
            (λ u. record {
              id = u.id;
              tenant_id = u.tenant_id;
              name = u.display_name;
              created_at = u.created_at;
              updated_at = u.updated_at;
            })
            (select (λ u. str_eq u.tenant_id tenant && teaches u db) db.users)))

unfoldable pub release_expired_holds : Time → Database → Database × Result BookingError ℕ
unfolding update_bookings has_run_out expire_row select
release_expired_holds now db = (
  update_bookings (has_run_out now) (expire_row now) db,
  ok (length (select (has_run_out now) db.bookings)),
)

unfoldable pub expire_held_bookings :
    Time → Database → Database × Result BookingError (List Booking)
unfolding update_bookings has_run_out expire_row select
expire_held_bookings now db = (
  update_bookings (has_run_out now) (expire_row now) db,
  ok (map (expire_row now) (select (has_run_out now) db.bookings)),
)

-- The store as the service sees it.
abbrev pub postgres_store : Server → BookingStore
postgres_store server = record {
  State = Database;
  get_booking = get_booking server;
  create_hold = create_hold server;
  confirm = confirm server;
  cancel = cancel server;
  check_in = check_in server;
  reschedule = reschedule server;
  release_expired_holds = release_expired_holds;
  list_bookings = list_bookings server;
  list_rooms = list_rooms server;
  list_instructors = list_instructors server;
}
