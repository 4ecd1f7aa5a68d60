-- ===== src/Booking/Memory/Entries.antt =====
-- What the methods of the booking repository keep of every entry of its table.
use training_ops_scheduling.Base.{
  ◌≡◌, some, String, Bool-cases, Option-cases, inl, inr, List, [], ◌∷◌,
}
use training_ops_scheduling.Base.Table.{lookup, insert}
use training_ops_scheduling.Base.Invariant.{Each, Each-lookup, Each-insert, Each-update_all}
use training_ops_scheduling.Clock.{Time, Duration}
use training_ops_scheduling.Booking.Data.{Booking, BookingStatus, BookingConflict, is_confirmed}
use training_ops_scheduling.Booking.Conflict.{has_lapsed}
use training_ops_scheduling.Booking.Memory.{
  BookingRepository, create_hold, store_hold, as_held, booking_key, confirm, confirmed_booking,
  cancel, cancelled_booking, check_in, checked_in_booking, reschedule, rescheduled_booking, is_due,
  release_if_due, release_expired_holds, detect_conflicts_locked,
}

-- What each method keeps of every entry, if the booking that it writes has it.
module _ (P : String → Booking → Type 0) (now : Time) (r : BookingRepository)
    (h : Each P r.bookings) where
  store_hold-Each :
      (b : Booking) (cs : List BookingConflict)
      → P (booking_key b.tenant_id b.id) b
      → Each P (store_hold b cs r).0.bookings
  unfolding store_hold
  store_hold-Each b [] p = Each-insert P _ b r.bookings p h
  store_hold-Each b (c ∷ cs) p = h

  pub create_hold-Each :
      (candidate : Booking) (ttl : Duration)
      → (let b = as_held candidate ttl now in P (booking_key b.tenant_id b.id) b)
      → Each P (create_hold candidate ttl now r).0.bookings
  unfolding create_hold
  create_hold-Each candidate ttl p =
      store_hold-Each (as_held candidate ttl now) (detect_conflicts_locked candidate now r) p

  module _ (t i : String) where
    abbrev key : String
    key = booking_key t i

    write :
        (b b' : Booking)
        → lookup key r.bookings ≡ some b
        → (P key b → P key b')
        → Each P (insert key b' r.bookings)
    write b b' e f = Each-insert P key b' r.bookings (f (Each-lookup P key r.bookings b h e)) h

    pub confirm-Each :
        ((b : Booking) → P key b → P key (confirmed_booking now b))
        → ((b : Booking) → P key b → P key (record b { status = BookingStatus.expired }))
        → Each P (confirm t i now r).0.bookings
    unfolding confirm
    confirm-Each f g = elim (Option-cases (lookup key r.bookings)) [
      | inl e ↦ rw (e, confirm) h
      | inr (b, e) ↦ elim (Bool-cases (has_lapsed now b.hold_expires_at)) [
        | inl late ↦ rw (e, confirm, late) (write b _ e (g b))
        | inr early ↦ rw (e, confirm, early) (write b _ e (f b))
      ]
    ]

    pub cancel-Each :
        ((b : Booking) → P key b → P key (cancelled_booking now b))
        → Each P (cancel t i now r).0.bookings
    unfolding cancel
    cancel-Each f = elim (Option-cases (lookup key r.bookings)) [
      | inl e ↦ rw (e, cancel) h
      | inr (b, e) ↦ rw (e, cancel) (write b _ e (f b))
    ]

    pub check_in-Each :
        ((b : Booking) → P key b → P key (checked_in_booking now b))
        → Each P (check_in t i now r).0.bookings
    unfolding check_in
    check_in-Each f = elim (Option-cases (lookup key r.bookings)) [
      | inl e ↦ rw (e, check_in) h
      | inr (b, e) ↦ elim (Bool-cases (is_confirmed b.status)) [
        | inl yes_ ↦ rw (e, check_in, yes_) (write b _ e (f b))
        | inr no_ ↦ rw (e, check_in, no_) h
      ]
    ]

    pub reschedule-Each :
        (new_start new_end : Time)
        → ((b : Booking)
            → lookup key r.bookings ≡ some b
            → P key b
            → P key (rescheduled_booking new_start new_end now b))
        → Each P (reschedule t i new_start new_end now r).0.bookings
    unfolding reschedule
    reschedule-Each new_start new_end f = elim (Option-cases (lookup key r.bookings)) [
      | inl e ↦ rw (e, reschedule) h
      | inr (b, e) ↦ rw (e, reschedule) (write b _ e (f b e))
    ]

  pub release_expired_holds-Each :
      ((k : String) (b : Booking)
        → P k b
        → P k (record b { status = BookingStatus.expired; updated_at = now }))
      → Each P (release_expired_holds now r).0.bookings
  unfolding release_expired_holds release_if_due
  release_expired_holds-Each f = Each-update_all P (release_if_due now) r.bookings kept h
    where
      kept : (k : String) (b : Booking) → P k b → P k (release_if_due now b)
      kept k b p = elim (Bool-cases (is_due now b)) [
        | inl due ↦ rw due (f k b p)
        | inr early ↦ rw early p
      ]
