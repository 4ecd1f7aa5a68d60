-- ===== src/Booking/Tests/Slots.antt =====
-- Alternatives for a concrete booking whose slot is taken.
use training_ops_scheduling.Base.{◌≡◌, ◌↔◌, ◌≤◌, refl, false, All, length, List}
use training_ops_scheduling.Clock.{minute}
use training_ops_scheduling.Booking.Data.{Booking, BookingStatus, AlternativeSlot}
use training_ops_scheduling.Booking.Store.{HoldResult}
use training_ops_scheduling.Booking.Memory.{
  create_hold, as_held, list_bookings, list_rooms, list_instructors,
}
use training_ops_scheduling.Booking.Memory.Hold.{Fits, IsFree}
use training_ops_scheduling.Booking.Service.Alternatives.{
  search_alternatives, suggest_alternatives, has_conflict, candidate_of,
}
use training_ops_scheduling.Booking.Service.Alternatives.Agree.{has_conflict-IsFree_iff}
use training_ops_scheduling.Booking.Service.Alternatives.Sound.{at_slot}
use training_ops_scheduling.Booking.Service.Alternatives.Placed.{suggest_alternatives-placed}
use training_ops_scheduling.Booking.Tests.Samples.{lesson, busy_lab}

abbrev wish : Booking
wish = lesson "b2" BookingStatus.held 100

abbrev offered : List AlternativeSlot
offered =
    search_alternatives (list_bookings "acme" busy_lab) wish 5 (list_rooms "acme" busy_lab)
      (list_instructors "acme" busy_lab)

has_conflict-IsFree_iff_example :
    (has_conflict (list_bookings "acme" busy_lab) (candidate_of wish) 5 ≡ false)
    ↔ IsFree 5 wish busy_lab.bookings
has_conflict-IsFree_iff_example = has_conflict-IsFree_iff 5 wish busy_lab

suggest_alternatives-placed_example :
    All
      (λ slot.
        ((create_hold (at_slot wish slot) minute 5 busy_lab).1
          ≡ HoldResult.placed (as_held (at_slot wish slot) minute 5))
        ↔ Fits (at_slot wish slot) busy_lab)
      offered
    × (length offered ≤ 3)
unfolding suggest_alternatives
suggest_alternatives-placed_example =
    suggest_alternatives-placed wish minute 5 busy_lab offered refl
