-- ===== src/Booking/Conflict.antt =====
-- repo/backend/internal/repository/memory/booking_store.go: when a booking stands in the way of a
-- candidate, and the list of reasons that a hold is refused with.
pub mod Blocking
pub mod Dedupe
pub mod Apart
use training_ops_scheduling.Base.{
  String, Bool, true, false, not, ◌&&◌, ◌||◌, Option, none, some, List, [], ◌∷◌, ◌++◌, any, str_eq,
  if◌then◌else◌,
}
use training_ops_scheduling.Base.Int.{ltb_ℤ}
use training_ops_scheduling.Base.Text.{◌+ˢ◌, itoa}
use training_ops_scheduling.Clock.{Time, before, after}
use training_ops_scheduling.Booking.Data.{
  Booking, Room, BookingConflict, BookingConflictReason, is_closed, reason_eq,
}

unfoldable pub overlaps : Time → Time → Time → Time → Bool
overlaps a_start a_end b_start b_end = before a_start b_end && before b_start a_end

-- `expires != nil && now.After(*expires)`
unfoldable pub has_lapsed : Time → Option Time → Bool
has_lapsed now none = false
has_lapsed now (some expiry) = after now expiry

-- The guards of the loop over the bookings: the ones that the loop does not skip.
unfoldable pub in_the_way : Time → Booking → Booking → Bool
unfolding overlaps has_lapsed is_closed
in_the_way now candidate booking =
    if not (str_eq booking.tenant_id candidate.tenant_id)
    then false
    else if is_closed booking.status
    then false
    else if has_lapsed now booking.hold_expires_at
    then false
    else overlaps candidate.start_at candidate.end_at booking.start_at booking.end_at

unfoldable pub room_conflict : BookingConflict
room_conflict = record {
  reason = BookingConflictReason.room;
  detail = "room is already booked in the requested window";
}

unfoldable pub instructor_conflict : BookingConflict
instructor_conflict = record {
  reason = BookingConflictReason.instructor;
  detail = "instructor is already booked in the requested window";
}

unfoldable pub capacity_conflict : Room → Booking → BookingConflict
unfolding itoa
capacity_conflict room candidate = record {
  reason = BookingConflictReason.capacity;
  detail =
      "room capacity "
      +ˢ itoa room.capacity
      +ˢ " is lower than attendees "
      +ˢ itoa candidate.attendees;
}

-- What one round of the loop appends.
unfoldable pub booking_conflicts : Time → Booking → Booking → List BookingConflict
unfolding in_the_way
booking_conflicts now candidate booking =
    if in_the_way now candidate booking
    then (if str_eq booking.room_id candidate.room_id then room_conflict ∷ [] else [])
      ++ (if str_eq booking.instructor_id candidate.instructor_id
          then instructor_conflict ∷ []
          else [])
    else []

unfoldable pub all_booking_conflicts : Time → Booking → List Booking → List BookingConflict
unfolding booking_conflicts
all_booking_conflicts now candidate [] = []
all_booking_conflicts now candidate (booking ∷ rest) =
    booking_conflicts now candidate booking ++ all_booking_conflicts now candidate rest

-- `hasRoom && candidate.Attendees > room.Capacity`
unfoldable pub room_conflicts : Booking → Option Room → List BookingConflict
room_conflicts candidate none = []
room_conflicts candidate (some room) =
    if ltb_ℤ room.capacity candidate.attendees then capacity_conflict room candidate ∷ [] else []

-- `seen` holds the reasons that were met.
dedupe_from : List BookingConflictReason → List BookingConflict → List BookingConflict
unfolding reason_eq any
dedupe_from seen [] = []
dedupe_from seen (conflict ∷ rest) = elim (any (reason_eq conflict.reason) seen) [
  | true ↦ dedupe_from seen rest
  | false ↦ conflict ∷ dedupe_from (conflict.reason ∷ seen) rest
]

unfoldable pub dedupe_booking_conflicts : List BookingConflict → List BookingConflict
unfolding dedupe_from
dedupe_booking_conflicts conflicts = dedupe_from [] conflicts
