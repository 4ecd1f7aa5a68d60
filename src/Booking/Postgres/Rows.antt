-- ===== src/Booking/Postgres/Rows.antt =====
-- repo/backend/internal/repository/postgres/workflow_store.go: what the statements on bookings write
-- into a row, and the conditions under which they do.
use training_ops_scheduling.Base.{
  String, Bool, false, not, ◌&&◌, Option, none, some, ltb, ◌+◌, leb, if◌then◌else◌,
}
use training_ops_scheduling.Base.Int.{pos, ◌+ℤ◌}
use training_ops_scheduling.Clock.{Time, Duration}
use training_ops_scheduling.Booking.Data.{Booking, BookingStatus, is_held, is_confirmed}
use training_ops_scheduling.Booking.Postgres.Tables.{is_row}

-- The row that CreateHold inserts, with the identifiers that the server reads.
unfoldable pub held_row :
    Booking → Duration → Time → String → String → String → String → String → Booking
held_row booking hold_ttl now id tenant user_id room_id instructor_id = record {
  id = id;
  tenant_id = tenant;
  user_id = user_id;
  room_id = room_id;
  instructor_id = instructor_id;
  title = booking.title;
  start_at = booking.start_at;
  end_at = booking.end_at;
  capacity = booking.capacity;
  attendees = booking.attendees;
  status = BookingStatus.held;
  hold_expires_at = if ltb 0 hold_ttl then some (now + hold_ttl) else none;
  reschedule_count = pos 0;
  version = pos 1;
  created_at = now;
  updated_at = now;
  cancelled_at = none;
  checked_in_at = none;
}

-- `hold_expires_at <= $3`, which is not true of a null
unfoldable pub has_ended : Time → Option Time → Bool
has_ended now none = false
has_ended now (some expiry) = leb expiry now

-- `status = 'held' AND (hold_expires_at IS NULL OR hold_expires_at > $3)`
unfoldable pub is_confirmable : Time → Booking → Bool
unfolding is_held has_ended
is_confirmable now row = is_held row.status && not (has_ended now row.hold_expires_at)

-- `status = 'held' AND hold_expires_at <= $3`
unfoldable pub has_run_out : Time → Booking → Bool
unfolding is_held has_ended
has_run_out now row = is_held row.status && has_ended now row.hold_expires_at

unfoldable pub confirm_row : Time → Booking → Booking
confirm_row now row = record row {
  status = BookingStatus.confirmed;
  hold_expires_at = none;
  updated_at = now;
  version = row.version +ℤ pos 1;
}

unfoldable pub expire_row : Time → Booking → Booking
expire_row now row = record row {
  status = BookingStatus.expired;
  updated_at = now;
  version = row.version +ℤ pos 1;
}

unfoldable pub cancel_row : Time → Booking → Booking
cancel_row now row = record row {
  status = BookingStatus.cancelled;
  cancelled_at = some now;
  updated_at = now;
  version = row.version +ℤ pos 1;
}

unfoldable pub check_in_row : Time → Booking → Booking
check_in_row now row = record row {
  status = BookingStatus.checked_in;
  checked_in_at = some now;
  updated_at = now;
  version = row.version +ℤ pos 1;
}

unfoldable pub reschedule_row : Time → Time → Time → Booking → Booking
reschedule_row new_start new_end now row = record row {
  start_at = new_start;
  end_at = new_end;
  reschedule_count = row.reschedule_count +ℤ pos 1;
  updated_at = now;
  version = row.version +ℤ pos 1;
}

-- `tenant_id = $1::uuid AND id = $2::uuid AND ...`
unfoldable pub is_confirmable_row : String → String → Time → Booking → Bool
unfolding is_row is_confirmable
is_confirmable_row tenant id now row = is_row tenant id row && is_confirmable now row

unfoldable pub is_run_out_row : String → String → Time → Booking → Bool
unfolding is_row has_run_out
is_run_out_row tenant id now row = is_row tenant id row && has_run_out now row

unfoldable pub is_confirmed_row : String → String → Booking → Bool
unfolding is_row is_confirmed
is_confirmed_row tenant id row = is_row tenant id row && is_confirmed row.status
