-- ===== src/Booking/Service/History.antt =====
-- Histories of the booking service over the in-memory repository: keys and the limit on moves.
use training_ops_scheduling.Base.{◌*◌, ◌≡◌, refl, subst, true, String, arith, Bool-cases, inl, inr}
use training_ops_scheduling.Base.Int.{ℤ, pos, ◌≤ℤ◌, ltb_ℤ, increment}
use training_ops_scheduling.Base.Invariant.{Each, Each-mono, Each-lookup}
use training_ops_scheduling.Base.Result.{ok, Result-cases}
use training_ops_scheduling.Clock.{Time, Duration, sub, hour}
use training_ops_scheduling.Booking.Data.{Booking}
use training_ops_scheduling.Booking.Memory.Hold.{get_booking-ok_iff}
use training_ops_scheduling.Booking.Memory.Keys.{Keyed, HasNoColon, get_booking_isolated}
use training_ops_scheduling.Booking.Memory.Entries.{
  create_hold-Each, confirm-Each, cancel-Each, check_in-Each, reschedule-Each,
  release_expired_holds-Each,
}
use training_ops_scheduling.Booking.Memory.{
  BookingRepository, new_booking_repository, memory_store, booking_key, get_booking, as_held,
  confirmed_booking, cancelled_booking, checked_in_booking, rescheduled_booking,
}
use training_ops_scheduling.Booking.Service.{
  hold, confirm, cancel, check_in, reschedule, release_expired_holds,
}

-- A call of the service. The handlers leave the reschedule count of a new booking at 0.
pub data Call (r : BookingRepository) : BookingRepository → Type 0 where
  held :
      (ttl : Duration) (b : Booking) (now : Time)
      → b.reschedule_count ≡ pos 0
      → Call r (hold memory_store ttl b now r).0
  confirmed : (t i : String) (now : Time) → Call r (confirm memory_store t i now r).0
  cancelled : (t i : String) (now : Time) → Call r (cancel memory_store t i now r).0
  checked_in : (t i : String) (now : Time) → Call r (check_in memory_store t i now r).0
  moved :
      (t i : String) (new_start new_end now : Time)
      → Call r (reschedule memory_store t i new_start new_end now r).0
  released : (now : Time) → Call r (release_expired_holds memory_store now r).0

pub data Served : BookingRepository → Type 0 where
  fresh : Served new_booking_repository
  more : {r r' : BookingRepository} → Served r → Call r r' → Served r'

-- A booking stands under its own key, and was moved twice at most.
pub record Sane (k : String) (b : Booking) : Type 0 where
  pub keyed : Keyed k b
  pub counted : pos 0 ≤ℤ b.reschedule_count
  pub limited : b.reschedule_count ≤ℤ pos 2

increment-below :
    (n : ℤ) → pos 0 ≤ℤ n → ltb_ℤ n (pos 2) ≡ true → (pos 0 ≤ℤ increment n) × (increment n ≤ℤ pos 2)
unfolding increment
increment-below n h k = ground arith

module _ (r : BookingRepository) (h : Each Sane r.bookings) where
  cancel-Sane : (t i : String) (now : Time) → Each Sane (cancel memory_store t i now r).0.bookings
  unfolding cancel cancelled_booking
  cancel-Sane t i now = elim (Result-cases (get_booking t i r)) [
    | inl (e, failed) ↦ rw (failed, cancel) h
    | inr (b, found) ↦ elim (Bool-cases (ltb_ℤ (sub b.start_at now) (pos (24 * hour)))) [
      | inl late ↦ rw (found, cancel, late) h
      | inr early ↦ rw (found, cancel, early) (cancel-Each Sane now r h t i (λ b s. ground arith))
    ]
  ]

  reschedule-Sane :
      (t i : String) (new_start new_end now : Time)
      → Each Sane (reschedule memory_store t i new_start new_end now r).0.bookings
  unfolding reschedule rescheduled_booking
  reschedule-Sane t i new_start new_end now = elim (Result-cases (get_booking t i r)) [
    | inl (e, failed) ↦ rw (failed, reschedule) h
    | inr (b, found) ↦ elim (Bool-cases (ltb_ℤ b.reschedule_count (pos 2))) [
      | inr many ↦ rw (found, reschedule, many) h
      | inl few ↦
          rw (found, reschedule, few)
            (reschedule-Each Sane now r h t i new_start new_end (λ b' found' s.
              let same : b ≡ b' = cc ((get_booking-ok_iff t i r b).0 found, found') in
              let (low, high) =
                increment-below b'.reschedule_count s.counted
                  (subst (λ x. ltb_ℤ x.reschedule_count (pos 2) ≡ true) same few) in
              record { keyed = s.keyed; counted = low; limited = high }))
    ]
  ]

Call-Sane : {r r' : BookingRepository} → Call r r' → Each Sane r.bookings → Each Sane r'.bookings
unfolding hold confirm check_in release_expired_holds as_held confirmed_booking checked_in_booking
Call-Sane {r} (held ttl b now zero_count) h =
    create_hold-Each Sane now r h b ttl
      (record { keyed = refl; counted = ground arith; limited = ground arith })
Call-Sane {r} (confirmed t i now) h =
    confirm-Each Sane now r h t i (λ b s. ground arith) (λ b s. ground arith)
Call-Sane {r} (cancelled t i now) h = cancel-Sane r h t i now
Call-Sane {r} (checked_in t i now) h = check_in-Each Sane now r h t i (λ b s. ground arith)
Call-Sane {r} (moved t i new_start new_end now) h = reschedule-Sane r h t i new_start new_end now
Call-Sane {r} (released now) h = release_expired_holds-Each Sane now r h (λ k b s. ground arith)

-- However the service was called since the repository was empty, a booking stands under its own
-- key, and it has been moved twice at most.
pub Served-Sane : {r : BookingRepository} → Served r → Each Sane r.bookings
unfolding new_booking_repository
Served-Sane fresh = tt
Served-Sane (more s c) = Call-Sane c (Served-Sane s)

-- After calls of the service that run one at a time, whose holds bring a count of moves of 0, GetBooking
-- returns the booking of the tenant that asks, moved at most twice, where no colon stands in the tenant
-- IDs.
pub Served-get_booking :
    (r : BookingRepository) (t i : String) (b : Booking)
    → Served r
    → HasNoColon t
    → HasNoColon b.tenant_id
    → get_booking t i r ≡ ok b
    → (b.tenant_id ≡ t) × (b.id ≡ i) × (b.reschedule_count ≤ℤ pos 2)
Served-get_booking r t i b s ht hb e =
    let sane = Served-Sane s in
    let keyed = Each-mono Sane Keyed r.bookings (λ _ _ x. x.keyed) sane in
    let (tenant, id) = get_booking_isolated t i r b keyed ht hb e in
    let found = (get_booking-ok_iff t i r b).0 e in
    (tenant, id, (Each-lookup Sane (booking_key t i) r.bookings b sane found).limited)
