-- ===== src/Booking/Postgres/Detect.antt =====
-- repo/backend/internal/repository/postgres/workflow_store.go: detectBookingConflictsTx. Its row
-- locks change nothing where transactions run one at a time.
use training_ops_scheduling.Base.{
  String, Bool, not, ◌&&◌, ◌||◌, Option, none, some, List, [], ◌∷◌, ◌++◌, any, select, leb, ◌==◌,
  str_eq, if◌then◌else◌,
}
use training_ops_scheduling.Base.Int.{pos, ltb_ℤ}
use training_ops_scheduling.Base.Rows.{first_where}
use training_ops_scheduling.Base.Result.{Result, ok, ◌>>=◌}
use training_ops_scheduling.Clock.{Time, before, after}
use training_ops_scheduling.Booking.Data.{
  Booking, Room, BookingConflict, BookingConflictReason, is_closed,
}
use training_ops_scheduling.Booking.Store.{BookingError}
use training_ops_scheduling.Booking.Conflict.{
  has_lapsed, room_conflict, instructor_conflict, capacity_conflict, dedupe_booking_conflicts,
}
use training_ops_scheduling.Booking.Postgres.Tables.{Database, Server, cast_uuid}

abbrev pub missing_room : BookingConflict
missing_room = record { reason = BookingConflictReason.room; detail = "room does not exist" }

abbrev pub blackout_conflict : BookingConflict
blackout_conflict = record {
  reason = BookingConflictReason.room;
  detail = "requested date is blocked by blackout schedule";
}

abbrev pub period_conflict : BookingConflict
period_conflict = record {
  reason = BookingConflictReason.room;
  detail = "requested time is outside configured class periods";
}

-- `roomCapacity > 0 && candidate.Attendees > roomCapacity`
unfoldable pub seat_conflicts : Booking → Room → List BookingConflict
seat_conflicts candidate room =
    if ltb_ℤ (pos 0) room.capacity && ltb_ℤ room.capacity candidate.attendees
    then capacity_conflict room candidate ∷ []
    else []

-- The WHERE clause of the query for the bookings.
unfoldable pub row_overlaps : String → Booking → String → String → Booking → Bool
unfolding is_closed
row_overlaps tenant candidate room_id instructor_id row =
    str_eq row.tenant_id tenant
    && not (is_closed row.status)
    && before row.start_at candidate.end_at
    && after row.end_at candidate.start_at
    && (str_eq row.room_id room_id || str_eq row.instructor_id instructor_id)

-- One round of the loop over the rows. The identifiers of the candidate are compared as they were
-- given.
unfoldable pub row_conflicts : Booking → Time → List String → Booking → List BookingConflict
unfolding has_lapsed any
row_conflicts candidate now excluded row =
    if any (str_eq row.id) excluded
    then []
    else if has_lapsed now row.hold_expires_at
    then []
    else (if str_eq row.room_id candidate.room_id then room_conflict ∷ [] else [])
      ++ (if str_eq row.instructor_id candidate.instructor_id then instructor_conflict ∷ [] else [])

unfoldable pub all_row_conflicts :
    Booking → Time → List String → List Booking → List BookingConflict
unfolding row_conflicts
all_row_conflicts candidate now excluded [] = []
all_row_conflicts candidate now excluded (row ∷ rows) =
    row_conflicts candidate now excluded row ++ all_row_conflicts candidate now excluded rows

module _ (server : Server) where
  -- `blackoutCount > 0`
  unfoldable pub blackout_conflicts : String → Booking → Database → List BookingConflict
  unfolding any
  blackout_conflicts tenant candidate db =
      if any
        (λ d. str_eq d.tenant_id tenant && d.blackout_date == server.date_of candidate.start_at)
        db.blackout_dates
      then blackout_conflict ∷ []
      else []

  -- `configuredPeriodCount > 0 && periodOverlapCount == 0`
  unfoldable pub period_conflicts : String → Booking → Database → List BookingConflict
  unfolding any
  period_conflicts tenant candidate db =
      if any (λ p. str_eq p.tenant_id tenant) db.class_periods
        && not (
            any
              (λ p.
                str_eq p.tenant_id tenant
                && p.weekday == server.weekday_of candidate.start_at
                && leb p.start_time (server.clock_of candidate.start_at)
                && leb (server.clock_of candidate.end_at) p.end_time)
              db.class_periods)
      then period_conflict ∷ []
      else []

  -- What is found once the room's row is read.
  unfoldable pub conflicts_in_room :
      String
      → Booking
      → Time
      → List String
      → String
      → Room
      → Database
      → Result BookingError (List BookingConflict)
  unfolding seat_conflicts blackout_conflicts period_conflicts all_row_conflicts row_overlaps select
  conflicts_in_room tenant candidate now excluded room_id room db = do
    instructor_id ← cast_uuid server candidate.instructor_id
    ok (
        dedupe_booking_conflicts (
          seat_conflicts candidate room
          ++ (blackout_conflicts tenant candidate db
              ++ (period_conflicts tenant candidate db
                  ++ all_row_conflicts candidate now excluded
                      (select (row_overlaps tenant candidate room_id instructor_id) db.bookings)))))

  -- `pgx.ErrNoRows` is `none`.
  unfoldable pub conflicts_for :
      String
      → Booking
      → Time
      → List String
      → String
      → Database
      → Option Room
      → Result BookingError (List BookingConflict)
  unfolding conflicts_in_room
  conflicts_for tenant candidate now excluded room_id db none = ok (missing_room ∷ [])
  conflicts_for tenant candidate now excluded room_id db (some room) =
      conflicts_in_room tenant candidate now excluded room_id room db

  unfoldable pub detect_booking_conflicts_tx :
      String → Booking → Time → List String → Database → Result BookingError (List BookingConflict)
  unfolding conflicts_for first_where
  detect_booking_conflicts_tx tenant candidate now excluded db = do
    room_id ← cast_uuid server candidate.room_id
    conflicts_for tenant candidate now excluded room_id db
        (first_where (λ r. str_eq r.tenant_id tenant && str_eq r.id room_id) db.rooms)
