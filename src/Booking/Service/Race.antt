-- ===== src/Booking/Service/Race.antt =====
-- repo/backend/internal/service/booking.go: Reschedule reads the booking in one call of the store and moves it
-- in another, each under the lock of the in-memory repository. Between the two calls of one move the
-- calls of another may run.
use training_ops_scheduling.Base.{String, ◌≡◌, refl, true}
use training_ops_scheduling.Base.Int.{pos, increment, ltb_ℤ}
use training_ops_scheduling.Base.Table.{insert, lookup-insert_self}
use training_ops_scheduling.Base.Result.{ok}
use training_ops_scheduling.Clock.{Time}
use training_ops_scheduling.Booking.Data.{Booking}
use training_ops_scheduling.Booking.Memory.Hold.{get_booking-ok_iff}
use training_ops_scheduling.Booking.Memory.{
  BookingRepository, memory_store, booking_key, get_booking, rescheduled_booking,
}
use training_ops_scheduling.Booking.Memory
use training_ops_scheduling.Booking.Service

-- The move of the store leaves the moved booking under its key.
moved :
    (t i : String) (new_start new_end now : Time) (r : BookingRepository) (b : Booking)
    → get_booking t i r ≡ ok b
    → get_booking t i (Memory.reschedule t i new_start new_end now r).0
      ≡ ok (rescheduled_booking new_start new_end now b)
unfolding Memory.reschedule get_booking
moved t i new_start new_end now r b e =
    let b' = rescheduled_booking new_start new_end now b in
    rw ((get_booking-ok_iff t i r b).0 e, Memory.reschedule)
      ((get_booking-ok_iff t i (record r { bookings = insert (booking_key t i) b' r.bookings })
          b').1
        (lookup-insert_self (booking_key t i) b' r.bookings))

-- Of a booking that was moved once, two moves whose reads both run before either one's write both pass
-- the limit of two, and it is then counted as moved three times.
pub third_move_passes :
    (t i : String) (start1 end1 now1 start2 end2 now2 : Time) (r : BookingRepository) (b : Booking)
    → get_booking t i r ≡ ok b
    → b.reschedule_count ≡ pos 1
    → let r1 = (Service.reschedule memory_store t i start1 end1 now1 r).0 in
      let r2 = (Memory.reschedule t i start2 end2 now2 r1).0 in
      (Service.reschedule memory_store t i start2 end2 now2 r
        ≡ Memory.reschedule t i start2 end2 now2 r)
      × ((b' : Booking) × (get_booking t i r2 ≡ ok b') × (b'.reschedule_count ≡ pos 3))
unfolding Service.reschedule rescheduled_booking increment
third_move_passes t i start1 end1 now1 start2 end2 now2 r b e once =
    let passes : ltb_ℤ b.reschedule_count (pos 2) ≡ true = rw once refl in
    rw (e, Service.reschedule, passes)
      (
        refl,
        (
          rescheduled_booking start2 end2 now2 (rescheduled_booking start1 end1 now1 b),
          moved t i start2 end2 now2 (Memory.reschedule t i start1 end1 now1 r).0
              (rescheduled_booking start1 end1 now1 b) (moved t i start1 end1 now1 r b e),
          rw once refl,
        ),
      )
