-- ===== src/Booking/Tests/Moves.antt =====
-- Confirmation, cancellation, check-in and moves of concrete bookings.
use training_ops_scheduling.Base.{
  ◌+◌, ◌*◌, ◌<◌, ◌≤◌, ◌≡◌, ◌≢◌, ◌⊎◌, refl, inl, false, some, [], ◌∷◌, arith, str_eq, str_eq_iff,
}
use training_ops_scheduling.Base.Int.{pos, ◌≤ℤ◌}
use training_ops_scheduling.Base.Result.{ok, err}
use training_ops_scheduling.Base.Table.{lookup, values, insert}
use training_ops_scheduling.Clock.{hour}
use training_ops_scheduling.Booking.Data.{Booking, BookingStatus}
use training_ops_scheduling.Booking.Store.{BookingError}
use training_ops_scheduling.Booking.Conflict.{
  has_lapsed, dedupe_booking_conflicts, room_conflicts, all_booking_conflicts,
}
use training_ops_scheduling.Booking.Memory.{
  BookingRepository, new_booking_repository, create_hold, detect_conflicts_locked, as_held,
  memory_store, booking_key, get_booking, confirm, cancel, reschedule, rescheduled_booking,
}
use training_ops_scheduling.Booking.Memory.Exclusion.{NoDoubleBooking}
use training_ops_scheduling.Booking.Memory.History.{
  confirm_revives, confirm_late, reschedule_collides,
}
use training_ops_scheduling.Booking.Memory.Keys.{HasNoColon}
use training_ops_scheduling.Booking.Service
use training_ops_scheduling.Booking.Service.Policy.{cancel_cutoff}
use training_ops_scheduling.Booking.Service.Race.{third_move_passes}
use training_ops_scheduling.Booking.Service.History.{Served, fresh, more, Served-get_booking}
use training_ops_scheduling.Booking.Service.History
use training_ops_scheduling.Booking.Tests.Samples.{lesson, busy_lab, full_lab, rebooked_lab}

abbrev first : Booking
first = lesson "b1" BookingStatus.confirmed 100

found_first : get_booking "acme" "b1" busy_lab ≡ ok first
unfolding get_booking lookup booking_key str_eq
found_first = refl

missing : get_booking "acme" "b9" busy_lab ≡ err BookingError.booking_not_found
unfolding get_booking lookup booking_key str_eq
missing = refl

keys_differ : booking_key "acme" "b1" ≢ booking_key "acme" "b2"
unfolding booking_key str_eq
keys_differ h =
    let same = (str_eq_iff "acme:b1" "acme:b2").1 h in
    let other : str_eq "acme:b1" "acme:b2" ≡ false = refl in cc

keys_apart : booking_key "acme" "b0" ≢ booking_key "acme" "b1"
unfolding booking_key str_eq
keys_apart h =
    let same = (str_eq_iff "acme:b0" "acme:b1").1 h in
    let other : str_eq "acme:b0" "acme:b1" ≡ false = refl in cc

cancel_cutoff_example :
    ((100 * hour < 5 + 24 * hour)
      × (Service.cancel memory_store "acme" "b1" 5 busy_lab
          ≡ (busy_lab, some BookingError.cancellation_closed)))
    ⊎ ((5 + 24 * hour ≤ 100 * hour)
        × (Service.cancel memory_store "acme" "b1" 5 busy_lab ≡ cancel "acme" "b1" 5 busy_lab))
cancel_cutoff_example = cancel_cutoff memory_store "acme" "b1" 5 busy_lab first found_first

no_colon : HasNoColon "acme"
no_colon = (λ h. omega arith, (λ h. omega arith, (λ h. omega arith, (λ h. omega arith, tt))))

abbrev held_wish : Booking
held_wish = as_held (lesson "b2" BookingStatus.held 100) 60 5

served :
    Served
      (Service.hold memory_store 60 (lesson "b2" BookingStatus.held 100) 5 new_booking_repository).0
served = more fresh (History.held 60 (lesson "b2" BookingStatus.held 100) 5 refl)

found_wish :
    get_booking "acme" "b2"
      (Service.hold memory_store 60 (lesson "b2" BookingStatus.held 100) 5 new_booking_repository).0
    ≡ ok held_wish
unfolding Service.hold create_hold get_booking lookup detect_conflicts_locked
    dedupe_booking_conflicts room_conflicts new_booking_repository all_booking_conflicts values
    insert str_eq booking_key as_held
found_wish = refl

Served-get_booking_example :
    (held_wish.tenant_id ≡ "acme") × (held_wish.id ≡ "b2") × (held_wish.reschedule_count ≤ℤ pos 2)
unfolding as_held
Served-get_booking_example =
    Served-get_booking
      (Service.hold memory_store 60 (lesson "b2" BookingStatus.held 100) 5 new_booking_repository).0
      "acme" "b2" held_wish served no_colon no_colon found_wish

confirm_revives_example : ¬ NoDoubleBooking 5 (confirm "acme" "b0" 5 rebooked_lab).0
unfolding has_lapsed get_booking lookup booking_key str_eq
confirm_revives_example =
    confirm_revives "acme" "b0" "acme" "b1" 5 rebooked_lab (lesson "b0" BookingStatus.cancelled 100)
      first refl refl keys_apart refl refl
      (record { not_cancelled = λ h. cc; not_expired = λ h. cc; in_force = refl })
      (record {
        same_tenant = refl;
        starts_before = ground arith;
        ends_after = ground arith;
        shared = inl refl;
      })

-- A hold that ends at 65, and a booking that was given its slot at 66.
abbrev lapsed_hold : Booking
lapsed_hold = record (lesson "b0" BookingStatus.held 100) { hold_expires_at = some 65 }

abbrev relet_lab : BookingRepository
relet_lab = record rebooked_lab { bookings = ("acme:b0", lapsed_hold) ∷ ("acme:b1", first) ∷ [] }

confirm_late_example : ¬ NoDoubleBooking 66 (confirm "acme" "b0" 10 relet_lab).0
unfolding has_lapsed get_booking lookup booking_key str_eq
confirm_late_example =
    confirm_late "acme" "b0" "acme" "b1" 10 66 65 relet_lab lapsed_hold first refl refl keys_apart
      refl refl (omega arith) (omega arith)
      (record { not_cancelled = λ h. cc; not_expired = λ h. cc; in_force = refl })
      (record {
        same_tenant = refl;
        starts_before = ground arith;
        ends_after = ground arith;
        shared = inl refl;
      })

reschedule_collides_example :
    ¬ NoDoubleBooking 5 (reschedule "acme" "b1" (102 * hour) (103 * hour) 5 full_lab).0
unfolding has_lapsed get_booking lookup booking_key str_eq rescheduled_booking
reschedule_collides_example =
    reschedule_collides "acme" "b1" "acme" "b2" (102 * hour) (103 * hour) 5 full_lab first
      (lesson "b2" BookingStatus.confirmed 102) refl refl keys_differ
      (record { not_cancelled = λ h. cc; not_expired = λ h. cc; in_force = refl })
      (record { not_cancelled = λ h. cc; not_expired = λ h. cc; in_force = refl })
      (record {
        same_tenant = refl;
        starts_before = ground arith;
        ends_after = ground arith;
        shared = inl refl;
      })

-- A booking that was moved once.
abbrev moved_once : BookingRepository
moved_once = record busy_lab {
  bookings = ("acme:b1", record first { reschedule_count = pos 1 }) ∷ [];
}

found_once : get_booking "acme" "b1" moved_once ≡ ok (record first { reschedule_count = pos 1 })
unfolding get_booking lookup booking_key str_eq
found_once = refl

third_move_passes_example :
    let r1 = (Service.reschedule memory_store "acme" "b1" 5 6 1 moved_once).0 in
    let r2 = (reschedule "acme" "b1" 7 8 2 r1).0 in
    (Service.reschedule memory_store "acme" "b1" 7 8 2 moved_once
      ≡ reschedule "acme" "b1" 7 8 2 moved_once)
    × ((b' : Booking) × (get_booking "acme" "b1" r2 ≡ ok b') × (b'.reschedule_count ≡ pos 3))
third_move_passes_example =
    third_move_passes "acme" "b1" 5 6 1 7 8 2 moved_once (record first { reschedule_count = pos 1 })
      found_once refl
