-- ===== src/Booking/Memory/Exclusion.antt =====
-- No room and no instructor is booked twice: the histories of the booking repository for which
-- this holds, and the calls that break it.
use training_ops_scheduling.Base.{
  ◌≤◌, ◌≡◌, refl, ◌⊎◌, inl, inr, some, true, false, String, arith, Bool-cases, Option-cases, [],
  ◌∷◌, List,
}
use training_ops_scheduling.Base.Table.{lookup, insert}
use training_ops_scheduling.Base.Invariant.{
  Each, Each-mono, Pairs, Pairs-insert, Pairs-replace, Pairs-update_all, Pairs-mono,
}
use training_ops_scheduling.Base.Result.{ok}
use training_ops_scheduling.Clock.{Time, Duration}
use training_ops_scheduling.Booking.Data.{is_confirmed, Booking, BookingStatus, BookingConflict}
use training_ops_scheduling.Booking.Conflict.{has_lapsed}
use training_ops_scheduling.Booking.Conflict.Blocking.{Active, Collide, Collide-symm}
use training_ops_scheduling.Booking.Conflict.Apart.{
  Apart, Apart-symm, Apart-mono, Stands, Apart-Stands, Apart-Stands_both,
}
use training_ops_scheduling.Booking.Memory.Hold.{
  get_booking-ok_iff, detect_conflicts_locked-nil_iff,
}
use training_ops_scheduling.Booking.Memory.{
  BookingRepository, create_hold, store_hold, as_held, booking_key, get_booking, confirm,
  confirmed_booking, cancel, cancelled_booking, check_in, checked_in_booking, is_due,
  release_if_due, release_expired_holds,
}

abbrev pub NoDoubleBooking : Time → BookingRepository → Type 0
NoDoubleBooking now r = Pairs (Apart now) r.bookings

module _ (now : Time) (key : String) (a b : Booking) (r : BookingRepository) where
  put-NoDoubleBooking :
      Stands now a b
      → lookup key r.bookings ≡ some a
      → NoDoubleBooking now r
      → Pairs (Apart now) (insert key b r.bookings)
  put-NoDoubleBooking s found h =
      Pairs-replace (Apart now) (Apart-symm now) key a b r.bookings (λ c. Apart-Stands now a b c s)
        found h

pub NoDoubleBooking-mono :
    (now later : Time) (r : BookingRepository)
    → now ≤ later
    → NoDoubleBooking now r
    → NoDoubleBooking later r
NoDoubleBooking-mono now later r h =
    Pairs-mono (Apart now) (Apart later) r.bookings (λ a b. Apart-mono now later a b h)

store_hold-NoDoubleBooking :
    (now : Time) (b : Booking) (cs : List BookingConflict) (r : BookingRepository)
    → (cs ≡ [] → Each (λ _ c. Apart now b c) r.bookings)
    → NoDoubleBooking now r
    → NoDoubleBooking now (store_hold b cs r).0
unfolding store_hold
store_hold-NoDoubleBooking now b [] r h inv =
    Pairs-insert (Apart now) (Apart-symm now) _ b r.bookings (h refl) inv
store_hold-NoDoubleBooking now b (c ∷ cs) r h inv = inv

-- A placed hold collides with no active booking; a refused one changes nothing.
pub create_hold-NoDoubleBooking :
    (candidate : Booking) (ttl : Duration) (now : Time) (r : BookingRepository)
    → NoDoubleBooking now r
    → NoDoubleBooking now (create_hold candidate ttl now r).0
unfolding create_hold as_held
create_hold-NoDoubleBooking candidate ttl now r inv =
    store_hold-NoDoubleBooking now (as_held candidate ttl now) _ r
      (λ e.
        Each-mono (λ _ c. ¬ (Active now c × Collide c candidate))
          (λ _ c. Apart now (as_held candidate ttl now) c) r.bookings
          (λ _ c free _ act both. free (act, Collide-symm candidate c (ground arith)))
          ((detect_conflicts_locked-nil_iff candidate now r).0 e).1)
      inv

-- Only a hold that has not lapsed may be confirmed.
confirmed-Stands :
    (now : Time) (b : Booking)
    → b.status ≡ BookingStatus.held
    → has_lapsed now b.hold_expires_at ≡ false
    → Stands now b (confirmed_booking now b)
unfolding confirmed_booking
confirmed-Stands now b h e = record {
  active = λ a. record { not_cancelled = λ x. cc; not_expired = λ x. cc; in_force = e };
  collide = λ c k. ground arith;
}

expired-Stands :
    (now : Time) (b : Booking) → Stands now b (record b { status = BookingStatus.expired })
expired-Stands now b = record {
  active = λ a. absurd (a.not_expired refl);
  collide = λ c k. ground arith;
}

cancelled-Stands : (now : Time) (b : Booking) → Stands now b (cancelled_booking now b)
unfolding cancelled_booking
cancelled-Stands now b = record {
  active = λ a. absurd (a.not_cancelled refl);
  collide = λ c k. ground arith;
}

checked_in-Stands :
    (now : Time) (b : Booking)
    → b.status ≡ BookingStatus.confirmed
    → Stands now b (checked_in_booking now b)
unfolding checked_in_booking
checked_in-Stands now b h = record {
  active = λ a. record { not_cancelled = λ x. cc; not_expired = λ x. cc; in_force = a.in_force };
  collide = λ c k. ground arith;
}

released-Stands : (now : Time) (b : Booking) → Stands now b (release_if_due now b)
unfolding release_if_due
released-Stands now b = elim (Bool-cases (is_due now b)) [
  | inl due ↦
      rw due (record { active = λ a. absurd (a.not_expired refl); collide = λ c k. ground arith })
  | inr kept ↦ rw kept (record { active = λ a. a; collide = λ c k. k })
]

is_confirmed-cases :
    (s : BookingStatus)
    → ((is_confirmed s ≡ true) × (s ≡ BookingStatus.confirmed)) ⊎ (is_confirmed s ≡ false)
unfolding is_confirmed
is_confirmed-cases s = ground arith

-- Sweeping the holds that ran out keeps the bookings apart.
pub release_expired_holds-NoDoubleBooking :
    (now : Time) (r : BookingRepository)
    → NoDoubleBooking now r
    → NoDoubleBooking now (release_expired_holds now r).0
unfolding release_expired_holds
release_expired_holds-NoDoubleBooking now r =
    Pairs-update_all (Apart now) (release_if_due now) r.bookings λ a b.
      Apart-Stands_both now a b (release_if_due now a) (release_if_due now b)
        (released-Stands now a) (released-Stands now b)

pub cancel-NoDoubleBooking :
    (t i : String) (now : Time) (r : BookingRepository)
    → NoDoubleBooking now r
    → NoDoubleBooking now (cancel t i now r).0
unfolding cancel
cancel-NoDoubleBooking t i now r inv = elim (Option-cases (lookup (booking_key t i) r.bookings)) [
  | inl e ↦ rw (e, cancel) inv
  | inr (b, e) ↦ rw (e, cancel) (put-NoDoubleBooking now _ b _ r (cancelled-Stands now b) e inv)
]

pub check_in-NoDoubleBooking :
    (t i : String) (now : Time) (r : BookingRepository)
    → NoDoubleBooking now r
    → NoDoubleBooking now (check_in t i now r).0
unfolding check_in is_confirmed
check_in-NoDoubleBooking t i now r inv = elim (Option-cases (lookup (booking_key t i) r.bookings)) [
  | inl e ↦ rw (e, check_in) inv
  | inr (b, e) ↦ elim (is_confirmed-cases b.status) [
    | inl c ↦
        rw (e, check_in, c.0) (put-NoDoubleBooking now _ b _ r (checked_in-Stands now b c.1) e inv)
    | inr c ↦ rw (e, check_in, c) inv
  ]
]

pub confirm-NoDoubleBooking :
    (t i : String) (now : Time) (r : BookingRepository)
    → ((b : Booking) → get_booking t i r ≡ ok b → b.status ≡ BookingStatus.held)
    → NoDoubleBooking now r
    → NoDoubleBooking now (confirm t i now r).0
unfolding confirm get_booking
confirm-NoDoubleBooking t i now r only inv =
    elim (Option-cases (lookup (booking_key t i) r.bookings)) [
      | inl e ↦ rw (e, confirm) inv
      | inr (b, e) ↦ elim (Bool-cases (has_lapsed now b.hold_expires_at)) [
        | inl late ↦
            rw (e, confirm, late) (put-NoDoubleBooking now _ b _ r (expired-Stands now b) e inv)
        | inr early ↦
            rw (e, confirm, early)
              (put-NoDoubleBooking now _ b _ r
                (confirmed-Stands now b (only b ((get_booking-ok_iff t i r b).1 e)) early) e inv)
      ]
    ]
