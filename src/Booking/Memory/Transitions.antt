-- ===== src/Booking/Memory/Transitions.antt =====
-- What Confirm, Cancel, CheckIn and Reschedule of the booking repository do, branch by branch.
use training_ops_scheduling.Base.{
  ◌≡◌, ◌≢◌, ◌⊎◌, inl, inr, none, some, true, false, String, arith, str_eq_iff, Bool-cases,
  Option-cases, ◌↔◌,
}
use training_ops_scheduling.Base.Int.{increment}
use training_ops_scheduling.Base.Table.{lookup, lookup-insert, lookup-insert_self}
use training_ops_scheduling.Base.Result.{ok, err}
use training_ops_scheduling.Clock.{Time}
use training_ops_scheduling.Booking.Store.{BookingError}
use training_ops_scheduling.Booking.Data.{Booking, BookingStatus, is_confirmed}
use training_ops_scheduling.Booking.Conflict.{has_lapsed}
use training_ops_scheduling.Booking.Memory.Hold.{get_booking-ok_iff}
use training_ops_scheduling.Booking.Memory.{
  BookingRepository, booking_key, get_booking, confirm, confirmed_booking, cancel, check_in,
  checked_in_booking, reschedule, put,
}

-- Reading under a key after a write under the same one, and under another one.
get_booking-put_self :
    (t i : String) (b : Booking) (r : BookingRepository)
    → get_booking t i (put (booking_key t i) b r) ≡ ok b
get_booking-put_self t i b r =
    (get_booking-ok_iff t i (put (booking_key t i) b r) b).1
      (lookup-insert_self (booking_key t i) b r.bookings)

get_booking-put_ne :
    (t i u j : String) (b : Booking) (r : BookingRepository)
    → booking_key t i ≢ booking_key u j
    → get_booking u j (put (booking_key t i) b r) ≡ get_booking u j r
unfolding get_booking
get_booking-put_ne t i u j b r ne =
    rw (lookup-insert (booking_key t i) (booking_key u j) b r.bookings, get_booking)
      (ground (arith, str_eq_iff (booking_key t i) (booking_key u j)))

is_confirmed_iff : (s : BookingStatus) → (is_confirmed s ≡ true) ↔ (s ≡ BookingStatus.confirmed)
unfolding is_confirmed
is_confirmed_iff s = (λ h. ground arith, λ h. ground arith)

module _ (t i : String) (now : Time) (r : BookingRepository) where
  -- Of a booking that is not there the four methods change nothing and report that it is missing.
  pub booking_not_found_lem :
      (new_start new_end : Time)
      → get_booking t i r ≡ err BookingError.booking_not_found
      → (confirm t i now r ≡ (r, some BookingError.booking_not_found))
        × (cancel t i now r ≡ (r, some BookingError.booking_not_found))
        × (check_in t i now r ≡ (r, some BookingError.booking_not_found))
        × (reschedule t i new_start new_end now r ≡ (r, err BookingError.booking_not_found))
  unfolding get_booking confirm cancel check_in reschedule
  booking_not_found_lem new_start new_end e =
      let missing : lookup (booking_key t i) r.bookings ≡ none = ground arith in
      (
        rw (missing, confirm),
        rw (missing, cancel),
        rw (missing, check_in),
        rw (missing, reschedule),
      )

  module _ (b : Booking) (found : get_booking t i r ≡ ok b) where
    entry : lookup (booking_key t i) r.bookings ≡ some b
    entry = (get_booking-ok_iff t i r b).0 found

    -- Confirm turns a hold that has run out into an expired booking and reports a conflict;
    -- otherwise the booking is confirmed, without an expiry, at the next version.
    pub confirm_branches :
        ((has_lapsed now b.hold_expires_at ≡ true)
          × ((confirm t i now r).1 ≡ some BookingError.booking_conflict)
          × (get_booking t i (confirm t i now r).0
              ≡ ok (record b { status = BookingStatus.expired })))
        ⊎ ((has_lapsed now b.hold_expires_at ≡ false)
            × ((confirm t i now r).1 ≡ none)
            × (get_booking t i (confirm t i now r).0
                ≡ ok (record b {
                  status = BookingStatus.confirmed;
                  hold_expires_at = none;
                  updated_at = now;
                  version = increment b.version;
                })))
    unfolding confirm confirmed_booking
    confirm_branches = elim (Bool-cases (has_lapsed now b.hold_expires_at)) [
      | inl late ↦ inl (
        late,
        rw (entry, confirm, late),
        rw (entry, confirm, late) (get_booking-put_self t i _ r),
      )
      | inr early ↦ inr (
        early,
        rw (entry, confirm, early),
        rw (entry, confirm, early) (get_booking-put_self t i _ r),
      )
    ]

    -- A confirmed booking is checked in, at the next version; of any other one CheckIn reports a
    -- conflict and changes nothing.
    pub check_in_branches :
        ((b.status ≡ BookingStatus.confirmed)
          × ((check_in t i now r).1 ≡ none)
          × (get_booking t i (check_in t i now r).0
              ≡ ok (record b {
                status = BookingStatus.checked_in;
                checked_in_at = some now;
                updated_at = now;
                version = increment b.version;
              })))
        ⊎ ((b.status ≢ BookingStatus.confirmed)
            × (check_in t i now r ≡ (r, some BookingError.booking_conflict)))
    unfolding check_in checked_in_booking
    check_in_branches = elim (Bool-cases (is_confirmed b.status)) [
      | inl on ↦ inl (
        (is_confirmed_iff b.status).0 on,
        rw (entry, check_in, on),
        rw (entry, check_in, on) (get_booking-put_self t i _ r),
      )
      | inr off ↦
          inr (λ e. let on = (is_confirmed_iff b.status).1 e in cc, rw (entry, check_in, off))
    ]

  -- None of the four methods touches a booking under another key, whatever it returns.
  pub other_bookings_kept :
      (u j : String) (new_start new_end : Time)
      → booking_key t i ≢ booking_key u j
      → (get_booking u j (confirm t i now r).0 ≡ get_booking u j r)
        × (get_booking u j (cancel t i now r).0 ≡ get_booking u j r)
        × (get_booking u j (check_in t i now r).0 ≡ get_booking u j r)
        × (get_booking u j (reschedule t i new_start new_end now r).0 ≡ get_booking u j r)
  unfolding confirm cancel check_in reschedule
  other_bookings_kept u j new_start new_end ne =
      elim (Option-cases (lookup (booking_key t i) r.bookings)) [
        | inl e ↦ (rw (e, confirm), rw (e, cancel), rw (e, check_in), rw (e, reschedule))
        | inr (b, e) ↦
            let kept = λ (b' : Booking). get_booking-put_ne t i u j b' r ne in
            (
              elim (Bool-cases (has_lapsed now b.hold_expires_at)) [
                | inl late ↦ rw (e, confirm, late) (kept _)
                | inr early ↦ rw (e, confirm, early) (kept _)
              ],
              rw (e, cancel) (kept _),
              elim (Bool-cases (is_confirmed b.status)) [
                | inl on ↦ rw (e, check_in, on) (kept _)
                | inr off ↦ rw (e, check_in, off)
              ],
              rw (e, reschedule) (kept _),
            )
      ]
