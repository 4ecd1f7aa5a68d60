-- ===== src/Booking/Service/Alternatives.antt =====
-- repo/backend/internal/service/booking.go: SuggestAlternatives and hasConflict.
pub mod Sound
pub mod Agree
pub mod Placed
use training_ops_scheduling.Base.{
  ℕ, zero, suc, ◌+◌, ◌*◌, String, Bool, true, false, not, ◌&&◌, ◌||◌, Option, none, some, List, [],
  ◌∷◌, ◌++◌, length, str_eq, str_lt, ltb, ◌==◌, if◌then◌else◌,
}
use training_ops_scheduling.Base.Int.{ℤ, pos, ltb_ℤ}
use training_ops_scheduling.Base.Result.{Result, ok, err, ◌>>=◌}
use training_ops_scheduling.Base.Sort.{sort_slice}
use training_ops_scheduling.Base.Text.{◌+ˢ◌, decimal}
use training_ops_scheduling.Clock.{Time, Duration, minute, hour, before, after}
use training_ops_scheduling.Booking.Data.{
  Booking, BookingStatus, Room, Instructor, AlternativeSlot, is_closed,
}
use training_ops_scheduling.Booking.Conflict.{has_lapsed}
use training_ops_scheduling.Booking.Store.{BookingStore, BookingError}

-- The fields of a candidate that hasConflict reads.
pub record Candidate : Type 0 where
  pub tenant_id : String
  pub room_id : String
  pub instructor_id : String
  pub start_at : Time
  pub end_at : Time

unfoldable pub candidate_of : Booking → Candidate
candidate_of b = record {
  tenant_id = b.tenant_id;
  room_id = b.room_id;
  instructor_id = b.instructor_id;
  start_at = b.start_at;
  end_at = b.end_at;
}

unfoldable pub has_conflict : List Booking → Candidate → Time → Bool
unfolding is_closed has_lapsed
has_conflict [] candidate now = false
has_conflict (booking ∷ rest) candidate now =
    let others = has_conflict rest candidate now in
    if not (str_eq booking.tenant_id candidate.tenant_id)
    then others
    else if is_closed booking.status
    then others
    else if has_lapsed now booking.hold_expires_at
    then others
    else if before candidate.start_at booking.end_at && before booking.start_at candidate.end_at
    then (if str_eq candidate.room_id booking.room_id
          || str_eq candidate.instructor_id booking.instructor_id
        then true
        else others)
    else others

unfoldable pub slot_reason : Booking → Room → Instructor → String
slot_reason booking room instructor =
    if not (str_eq room.id booking.room_id) && not (str_eq instructor.id booking.instructor_id)
    then "alternate room and instructor"
    else if not (str_eq room.id booking.room_id)
    then "alternate room"
    else if not (str_eq instructor.id booking.instructor_id)
    then "alternate instructor"
    else "room and instructor availability"

-- A loop goes on with the alternatives found so far, or the function has returned with them.
pub data Search : Type 0 where
  going done : List AlternativeSlot → Search

module _ (bookings : List Booking) (booking : Booking) (now : Time) where
  candidate_at : String → String → Time → Time → Candidate
  candidate_at room_id instructor_id start end = record {
    tenant_id = booking.tenant_id;
    room_id = room_id;
    instructor_id = instructor_id;
    start_at = start;
    end_at = end;
  }

  slot_at : Room → Instructor → Time → Time → AlternativeSlot
  unfolding slot_reason
  slot_at room instructor start end = record {
    room_id = room.id;
    instructor_id = instructor.id;
    start_at = start;
    end_at = end;
    reason = slot_reason booking room instructor;
  }

  -- `for _, instructor := range instructors`
  try_instructors : Room → Time → Time → List Instructor → List AlternativeSlot → Search
  unfolding has_conflict candidate_at slot_at
  try_instructors room start end [] found = going found
  try_instructors room start end (instructor ∷ rest) found =
      elim (has_conflict bookings (candidate_at room.id instructor.id start end) now) [
        | true ↦ try_instructors room start end rest found
        | false ↦
            let found' = found ++ slot_at room instructor start end ∷ [] in
            elim (length found' == 3) [
              | true ↦ done found'
              | false ↦ try_instructors room start end rest found'
            ]
      ]

  -- `for _, room := range rooms`
  try_rooms : Time → Time → List Instructor → List Room → List AlternativeSlot → Search
  unfolding try_instructors
  try_rooms start end instructors [] found = going found
  try_rooms start end instructors (room ∷ rest) found =
      elim (ltb_ℤ room.capacity booking.attendees) [
        | true ↦ try_rooms start end instructors rest found
        | false ↦ elim (try_instructors room start end instructors found) [
          | done found' ↦ done found'
          | going found' ↦ try_rooms start end instructors rest found'
        ]
      ]

  -- `for offset := 1; offset <= 6 && len(alternatives) < 3; offset++`, by the rounds left.
  try_offsets : List Instructor → List Room → ℕ → ℕ → List AlternativeSlot → Search
  unfolding try_rooms
  try_offsets instructors rooms zero offset found = going found
  try_offsets instructors rooms (suc left) offset found = elim (ltb (length found) 3) [
    | false ↦ going found
    | true ↦
        let start = booking.start_at + offset * (30 * minute) in
        let end = booking.end_at + offset * (30 * minute) in
        elim (try_rooms start end instructors rooms found) [
          | done found' ↦ done found'
          | going found' ↦ try_offsets instructors rooms left (offset + 1) found'
        ]
  ]

  -- The capacity of the first room with the booking's room ID, or 0.
  room_capacity : List Room → ℤ
  room_capacity [] = pos 0
  room_capacity (room ∷ rest) =
      if str_eq room.id booking.room_id then room.capacity else room_capacity rest

  too_small : ℤ → Bool
  too_small capacity = ltb_ℤ (pos 0) capacity && ltb_ℤ capacity booking.attendees

  hour_slot : ℕ → Time → Time → AlternativeSlot
  unfolding decimal
  hour_slot offset start end = record {
    room_id = booking.room_id;
    instructor_id = booking.instructor_id;
    start_at = start;
    end_at = end;
    reason = "shift by " +ˢ decimal offset +ˢ " hour(s)";
  }

  -- `for offset := 1; offset <= 3 && len(alternatives) < 3; offset++`, by the rounds left.
  try_hours : List Room → ℕ → ℕ → List AlternativeSlot → List AlternativeSlot
  unfolding has_conflict candidate_at room_capacity too_small hour_slot
  try_hours rooms zero offset found = found
  try_hours rooms (suc left) offset found = elim (ltb (length found) 3) [
    | false ↦ found
    | true ↦
        let start = booking.start_at + offset * hour in
        let end = booking.end_at + offset * hour in
        elim (too_small (room_capacity rooms)) [
          | true ↦ try_hours rooms left (offset + 1) found
          | false ↦
              elim (has_conflict bookings
                (candidate_at booking.room_id booking.instructor_id start end) now) [
                  | true ↦ try_hours rooms left (offset + 1) found
                  | false ↦
                      try_hours rooms left (offset + 1) (found ++ hour_slot offset start end ∷ [])
                ]
        ]
  ]

  finish_search : List Room → Search → List AlternativeSlot
  unfolding try_hours
  finish_search rooms (done found) = found
  finish_search rooms (going found) =
      if ltb (length found) 3 then try_hours rooms 3 1 found else found

  -- The part of SuggestAlternatives behind its three reads.
  unfoldable pub search_alternatives : List Room → List Instructor → List AlternativeSlot
  unfolding try_offsets finish_search
  search_alternatives rooms instructors =
      let rooms' = sort_slice (λ a b. str_lt a.id b.id) rooms in
      let instructors' = sort_slice (λ a b. str_lt a.id b.id) instructors in
      finish_search rooms' (try_offsets instructors' rooms' 6 1 [])

unfoldable pub suggest_alternatives :
    (store : BookingStore)
    → Booking
    → Time
    → store.State
    → Result BookingError (List AlternativeSlot)
unfolding search_alternatives
suggest_alternatives store booking now s = do
  bookings ← store.list_bookings booking.tenant_id s
  rooms ← store.list_rooms booking.tenant_id s
  instructors ← store.list_instructors booking.tenant_id s
  ok (search_alternatives bookings booking now rooms instructors)
