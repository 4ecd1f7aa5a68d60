-- ===== src/Booking/Postgres/Spelling.antt =====
-- detectBookingConflictsTx compares the identifiers of the rows with those of the candidate as text:
-- what it misses where the candidate spells its room's identifier otherwise than the server does,
-- such as in upper case.
use training_ops_scheduling.Base.{
  String, Bool, ◌&&◌, ◌≡◌, ◌≢◌, refl, ap, inl, inr, some, List, [], ◌∷◌, any, select, arith, str_eq,
  str_eq_iff, Bool-cases, All,
}
use training_ops_scheduling.Base.Rows.{first_where}
use training_ops_scheduling.Base.Result.{ok}
use training_ops_scheduling.Clock.{Time}
use training_ops_scheduling.Booking.Data.{Booking, Room}
use training_ops_scheduling.Booking.Conflict.Dedupe.{dedupe_booking_conflicts-nil_iff}
use training_ops_scheduling.Booking.Postgres.Tables.{Database, Server, cast_uuid}
use training_ops_scheduling.Booking.Postgres.Detect.{
  row_overlaps, row_conflicts, all_row_conflicts, conflicts_in_room, conflicts_for,
  detect_booking_conflicts_tx,
}
use training_ops_scheduling.Booking.Postgres.Free.{Admits, Admits-nil_iff}
use training_ops_scheduling.Booking.Postgres.Exclusion.{Canonical}

module _ (candidate : Booking) (now : Time) where
  row_conflicts-nil :
      (row : Booking)
      → row.room_id ≢ candidate.room_id
      → row.instructor_id ≢ candidate.instructor_id
      → row_conflicts candidate now [] row ≡ []
  unfolding row_conflicts any
  row_conflicts-nil row r i = ground (
    arith,
    str_eq_iff row.room_id candidate.room_id,
    str_eq_iff row.instructor_id candidate.instructor_id,
  )

  all_row_conflicts-nil :
      (p : Booking → Bool) (rows : List Booking)
      → All (λ row. row.room_id ≢ candidate.room_id) rows
      → All (λ row. row.instructor_id ≢ candidate.instructor_id) rows
      → all_row_conflicts candidate now [] (select p rows) ≡ []
  unfolding all_row_conflicts select
  all_row_conflicts-nil p [] r i = refl
  all_row_conflicts-nil p (row ∷ rows) r i = elim (Bool-cases (p row)) [
    | inl t ↦
        rw (t, all_row_conflicts, row_conflicts-nil row r.0 i.0)
          (all_row_conflicts-nil p rows r.1 i.1)
    | inr t ↦ rw (t, all_row_conflicts) (all_row_conflicts-nil p rows r.1 i.1)
  ]

-- No row spells its room the way the candidate does.
other_spelling :
    (server : Server) (candidate : Booking) (room_id : String) (rows : List Booking)
    → server.uuid candidate.room_id ≡ some room_id
    → room_id ≢ candidate.room_id
    → All (Canonical server) rows
    → All (λ row. row.room_id ≢ candidate.room_id) rows
other_spelling server candidate room_id [] e ne c = tt
other_spelling server candidate room_id (row ∷ rows) e ne c = (
  λ same.
      let k = c.0.room_id in
      let k' : server.uuid candidate.room_id ≡ some candidate.room_id = rw same at k in
      let eq : some room_id ≡ some candidate.room_id = cc in ne (cc),
  other_spelling server candidate room_id rows e ne c.1,
)

-- A candidate that spells its room's identifier in another way than the server prints it meets no
-- conflict, whatever bookings the room has: where the room is known and admits it, its instructor is named
-- as the server prints it and has no booking, and the rows are named as the server prints them.
pub detect_booking_conflicts_tx-other_spelling :
    (server : Server) (tenant : String) (candidate : Booking) (room_id : String) (room : Room)
    (now : Time) (db : Database)
    → All (Canonical server) db.bookings
    → server.uuid candidate.room_id ≡ some room_id
    → room_id ≢ candidate.room_id
    → server.uuid candidate.instructor_id ≡ some candidate.instructor_id
    → first_where (λ r. str_eq r.tenant_id tenant && str_eq r.id room_id) db.rooms ≡ some room
    → Admits server tenant candidate room db
    → All (λ row. row.instructor_id ≢ candidate.instructor_id) db.bookings
    → detect_booking_conflicts_tx server tenant candidate now [] db ≡ ok []
unfolding detect_booking_conflicts_tx conflicts_for conflicts_in_room cast_uuid
detect_booking_conflicts_tx-other_spelling server tenant candidate room_id room now db c e ne ci f a
      free =
    let (seats, days, periods) = (Admits-nil_iff server tenant candidate room db).1 a in
    rw (e, cast_uuid, f, conflicts_for, ci, conflicts_in_room, cast_uuid)
      (ap ok (
        (dedupe_booking_conflicts-nil_iff _).1 (
          rw
            (
              seats,
              days,
              periods,
              all_row_conflicts-nil candidate now
                  (row_overlaps tenant candidate room_id candidate.instructor_id) db.bookings
                  (other_spelling server candidate room_id db.bookings e ne c) free,
            )
            refl)))
