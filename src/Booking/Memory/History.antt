-- ===== src/Booking/Memory/History.antt =====
-- Histories of the booking repository: which of them keep the bookings apart, and which do not.
use training_ops_scheduling.Base.{◌<◌, ◌≤◌, ◌≡◌, ◌≢◌, some, false, String, arith, str_eq_iff}
use training_ops_scheduling.Base.Table.{Table, lookup, insert, lookup-insert, lookup-insert_self}
use training_ops_scheduling.Base.Invariant.{Pairs, Pairs-lookup}
use training_ops_scheduling.Base.Result.{ok}
use training_ops_scheduling.Clock.{Time, Duration}
use training_ops_scheduling.Booking.Data.{Booking, BookingStatus, Room, Instructor}
use training_ops_scheduling.Booking.Conflict.{has_lapsed}
use training_ops_scheduling.Booking.Conflict.Blocking.{has_lapsed-none, Active, Collide}
use training_ops_scheduling.Booking.Memory.Hold.{get_booking-ok_iff}
use training_ops_scheduling.Booking.Conflict.Apart.{Apart, Apart-symm}
use training_ops_scheduling.Booking.Memory.Exclusion.{
  NoDoubleBooking, NoDoubleBooking-mono, create_hold-NoDoubleBooking, confirm-NoDoubleBooking,
  cancel-NoDoubleBooking, check_in-NoDoubleBooking, release_expired_holds-NoDoubleBooking,
}
use training_ops_scheduling.Booking.Memory.{
  BookingRepository, create_hold, booking_key, get_booking, confirm, confirmed_booking, cancel,
  check_in, reschedule, rescheduled_booking, release_expired_holds, new_booking_repository,
  save_room, save_instructor,
}

-- A call at the time `now`. A booking is confirmed only while it is held, and none is moved.
pub data Step (now : Time) (r : BookingRepository) : BookingRepository → Type 0 where
  room_saved : (room : Room) → Step now r (save_room room r)
  instructor_saved : (i : Instructor) → Step now r (save_instructor i r)
  hold : (b : Booking) (ttl : Duration) → Step now r (create_hold b ttl now r).0
  confirmed :
      (t i : String)
      → ((b : Booking) → get_booking t i r ≡ ok b → b.status ≡ BookingStatus.held)
      → Step now r (confirm t i now r).0
  cancelled : (t i : String) → Step now r (cancel t i now r).0
  checked_in : (t i : String) → Step now r (check_in t i now r).0
  swept : Step now r (release_expired_holds now r).0

-- The repositories that such calls lead to, the clock never running backwards.
pub data Reach : Time → BookingRepository → Type 0 where
  start : (now : Time) → Reach now new_booking_repository
  next :
      {now : Time} {r : BookingRepository} (later : Time) {r' : BookingRepository}
      → Reach now r
      → now ≤ later
      → Step later r r'
      → Reach later r'

Step-NoDoubleBooking :
    {now : Time} {r r' : BookingRepository}
    → Step now r r'
    → NoDoubleBooking now r
    → NoDoubleBooking now r'
unfolding save_room save_instructor
Step-NoDoubleBooking (room_saved room) inv = inv
Step-NoDoubleBooking (instructor_saved i) inv = inv
Step-NoDoubleBooking {now} {r} (hold b ttl) inv = create_hold-NoDoubleBooking b ttl now r inv
Step-NoDoubleBooking {now} {r} (confirmed t i held) inv = confirm-NoDoubleBooking t i now r held inv
Step-NoDoubleBooking {now} {r} (cancelled t i) inv = cancel-NoDoubleBooking t i now r inv
Step-NoDoubleBooking {now} {r} (checked_in t i) inv = check_in-NoDoubleBooking t i now r inv
Step-NoDoubleBooking {now} {r} swept inv = release_expired_holds-NoDoubleBooking now r inv

-- Whatever was held, confirmed while held, cancelled, checked in and swept since the repository was
-- empty, each call with a time that is not before that of an earlier one, no two active bookings
-- collide.
pub Reach-NoDoubleBooking :
    (now : Time) (r : BookingRepository) → Reach now r → NoDoubleBooking now r
unfolding new_booking_repository
Reach-NoDoubleBooking now r (start _) = tt
Reach-NoDoubleBooking now r (next {now = before} {r = old} later path h step) =
    Step-NoDoubleBooking step
      (NoDoubleBooking-mono before later old h (Reach-NoDoubleBooking before old path))

-- What a write that books a slot twice leaves behind.
insert_collides :
    (now : Time) (k j : String) (b c : Booking) (m : Table Booking)
    → k ≢ j
    → lookup j m ≡ some c
    → Active now b
    → Active now c
    → Collide b c
    → ¬ Pairs (Apart now) (insert k b m)
insert_collides now k j b c m ne found act_b act_c both inv =
    Pairs-lookup (Apart now) (Apart-symm now) k j b c (insert k b m) ne (lookup-insert_self k b m)
      (rw (lookup-insert k j b m) (ground (arith, str_eq_iff k j))) inv act_b act_c both

-- Confirming a cancelled booking whose slot was given away, before the end of its hold, books the slot
-- twice.
pub confirm_revives :
    (t i u j : String) (now : Time) (r : BookingRepository) (b c : Booking)
    → get_booking t i r ≡ ok b
    → get_booking u j r ≡ ok c
    → booking_key t i ≢ booking_key u j
    → b.status ≡ BookingStatus.cancelled
    → has_lapsed now b.hold_expires_at ≡ false
    → Active now c
    → Collide b c
    → ¬ NoDoubleBooking now (confirm t i now r).0
unfolding confirm get_booking confirmed_booking
confirm_revives t i u j now r b c eb ec ne _ early act both inv =
    insert_collides now (booking_key t i) (booking_key u j) (confirmed_booking now b) c r.bookings
      ne ((get_booking-ok_iff u j r c).0 ec)
      (record { not_cancelled = λ x. cc; not_expired = λ x. cc; in_force = has_lapsed-none now })
      act (ground arith) (rw ((get_booking-ok_iff t i r b).0 eb, confirm, early) at inv)

-- A held booking has lapsed and another one was given its slot. A Confirm whose time was read before the
-- lapse, and which the repository runs after it, leaves the slot booked twice.
pub confirm_late :
    (t i u j : String) (read now until : Time) (r : BookingRepository) (b c : Booking)
    → get_booking t i r ≡ ok b
    → get_booking u j r ≡ ok c
    → booking_key t i ≢ booking_key u j
    → b.status ≡ BookingStatus.held
    → b.hold_expires_at ≡ some until
    → read < until
    → until < now
    → Active now c
    → Collide b c
    → ¬ NoDoubleBooking now (confirm t i read r).0
unfolding confirm get_booking confirmed_booking has_lapsed
confirm_late t i u j read now until r b c eb ec ne _ ends open_then _ act both inv =
    let early : has_lapsed read b.hold_expires_at ≡ false = rw ends (ground arith) in
    insert_collides now (booking_key t i) (booking_key u j) (confirmed_booking read b) c r.bookings
      ne ((get_booking-ok_iff u j r c).0 ec)
      (record { not_cancelled = λ x. cc; not_expired = λ x. cc; in_force = has_lapsed-none now })
      act (ground arith) (rw ((get_booking-ok_iff t i r b).0 eb, confirm, early) at inv)

-- Reschedule looks for no conflict: moving an active booking onto another one books the slot twice.
pub reschedule_collides :
    (t i u j : String) (new_start new_end now : Time) (r : BookingRepository) (b c : Booking)
    → get_booking t i r ≡ ok b
    → get_booking u j r ≡ ok c
    → booking_key t i ≢ booking_key u j
    → Active now b
    → Active now c
    → Collide (rescheduled_booking new_start new_end now b) c
    → ¬ NoDoubleBooking now (reschedule t i new_start new_end now r).0
unfolding reschedule get_booking rescheduled_booking
reschedule_collides t i u j new_start new_end now r b c eb ec ne act_b act_c both inv =
    insert_collides now (booking_key t i) (booking_key u j)
      (rescheduled_booking new_start new_end now b) c r.bookings ne
      ((get_booking-ok_iff u j r c).0 ec)
      (record {
        not_cancelled = act_b.not_cancelled;
        not_expired = act_b.not_expired;
        in_force = act_b.in_force;
      })
      act_c both (rw ((get_booking-ok_iff t i r b).0 eb, reschedule) at inv)
