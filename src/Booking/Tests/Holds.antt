-- ===== src/Booking/Tests/Holds.antt =====
-- Holds, their refusals, sweeps and histories on concrete repositories.
use training_ops_scheduling.Base.{subst, ◌≡◌, ◌↔◌, refl, inl, some, arith, str_eq, select}
use training_ops_scheduling.Base.Result.{ok}
use training_ops_scheduling.Base.Int.{◌≤ℤ◌}
use training_ops_scheduling.Base.Table.{lookup, values}
use training_ops_scheduling.Clock.{minute}
use training_ops_scheduling.Booking.Data.{Booking, BookingStatus, is_held}
use training_ops_scheduling.Booking.Store.{HoldResult}
use training_ops_scheduling.Booking.Conflict.{has_lapsed}
use training_ops_scheduling.Booking.Memory.{
  create_hold, as_held, booking_key, room_key, get_booking, release_expired_holds,
  new_booking_repository, is_due,
}
use training_ops_scheduling.Booking.Memory.Hold.{Fits, IsFree, create_hold-placed_iff}
use training_ops_scheduling.Booking.Memory.Exclusion.{NoDoubleBooking}
use training_ops_scheduling.Booking.Memory.History.{Reach, start, next, Reach-NoDoubleBooking}
use training_ops_scheduling.Booking.Memory.History
use training_ops_scheduling.Booking.Tests.Samples.{lab, lesson, open_lab, busy_lab, held_lab}

abbrev wish : Booking
wish = lesson "b2" BookingStatus.held 100

seats : Fits wish open_lab
unfolding lookup room_key str_eq
seats room e =
    let same : lab ≡ room = cc in
    let fits : wish.attendees ≤ℤ lab.capacity = omega arith in
    subst (λ x. wish.attendees ≤ℤ x.capacity) same fits

create_hold-placed_iff_example :
    ((create_hold wish minute 5 open_lab).1 ≡ HoldResult.placed (as_held wish minute 5))
    ↔ (Fits wish open_lab × IsFree 5 wish open_lab.bookings)
create_hold-placed_iff_example = create_hold-placed_iff wish minute 5 open_lab

taken : ¬ (Fits wish busy_lab × IsFree 5 wish busy_lab.bookings)
unfolding has_lapsed
taken (fits, (clash, _)) = clash (
  record { not_cancelled = λ h. cc; not_expired = λ h. cc; in_force = refl },
  record {
    same_tenant = refl;
    starts_before = ground arith;
    ends_after = ground arith;
    shared = inl refl;
  },
)

Reach-NoDoubleBooking_example :
    NoDoubleBooking 9
      (release_expired_holds 9 (create_hold wish minute 5 new_booking_repository).0).0
Reach-NoDoubleBooking_example =
    Reach-NoDoubleBooking 9
      (release_expired_holds 9 (create_hold wish minute 5 new_booking_repository).0).0
      (next 9 (next 5 (start 5) (omega arith) (History.hold wish minute)) (omega arith)
        History.swept)

abbrev held_b1 : Booking
held_b1 = record (lesson "b1" BookingStatus.held 100) { hold_expires_at = some 7 }

held_found : get_booking "acme" "b1" held_lab ≡ ok held_b1
unfolding get_booking lookup booking_key str_eq
held_found = refl

released_one : (release_expired_holds 7 held_lab).1 ≡ 1
unfolding release_expired_holds select values is_due is_held
released_one = refl
