-- ===== src/Booking/Postgres/Reserve.antt =====
-- repo/backend/internal/repository/postgres/admin_learner_store.go: ReserveLearnerSeat, as far as it reads
-- and writes the table of bookings. No statement on bookings reads the table of reservations.
use training_ops_scheduling.Base.{String, not, none, some, if◌then◌else◌}
use training_ops_scheduling.Base.Int.{pos, ◌+ℤ◌, ltb_ℤ}
use training_ops_scheduling.Base.Rows.{first_where}
use training_ops_scheduling.Base.Result.{Result, ok, err}
use training_ops_scheduling.Clock.{Time}
use training_ops_scheduling.Booking.Data.{Booking, is_confirmed}
use training_ops_scheduling.Booking.Store.{BookingError, Error?}
use training_ops_scheduling.Booking.Postgres.Tables.{
  Database, Server, cast_uuid, is_row, refers_user, refused_statement,
}
use training_ops_scheduling.Booking.Postgres.Methods.{update_bookings, with_row_ids, one_row}

unfoldable pub reserve_row : Time → Booking → Booking
reserve_row now row = record row {
  attendees = row.attendees +ℤ pos 1;
  updated_at = now;
  version = row.version +ℤ pos 1;
}

module _ (server : Server) where
  -- The INSERT of the reservation, which does nothing where the learner has one, and the UPDATE.
  unfoldable pub seat_statements : String → String → String → Time → Database → Database × Error?
  unfolding cast_uuid refers_user update_bookings is_row reserve_row
  seat_statements tenant id learner_user_id now db = elim (cast_uuid server learner_user_id) [
    | err e ↦ (db, some e)
    | ok learner ↦
        if refers_user learner db
        then (update_bookings (is_row tenant id) (reserve_row now) db, none)
        else (db, some refused_statement)
  ]

  -- What follows the read of the booking.
  unfoldable pub seat_unless :
      String → String → String → Time → Database → Result BookingError Booking → Database × Error?
  unfolding seat_statements is_confirmed
  seat_unless tenant id learner_user_id now db (err e) = (db, some e)
  seat_unless tenant id learner_user_id now db (ok row) =
      if not (is_confirmed row.status)
      then (db, some (BookingError.other "session is not available for reservations"))
      else if not (ltb_ℤ row.attendees row.capacity)
      then (db, some (BookingError.other "capacity reached"))
      else seat_statements tenant id learner_user_id now db

  unfoldable pub reserve_learner_seat :
      String → String → String → Time → Database → Database × Error?
  unfolding with_row_ids seat_unless one_row first_where
  reserve_learner_seat tenant_id booking_id learner_user_id now db =
      with_row_ids server tenant_id booking_id
        (λ tenant id.
          seat_unless tenant id learner_user_id now db
            (one_row (first_where (is_row tenant id) db.bookings)))
        db
