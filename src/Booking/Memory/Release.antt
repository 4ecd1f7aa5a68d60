-- ===== src/Booking/Memory/Release.antt =====
-- ReleaseExpiredHolds: what the sweep of the booking repository leaves behind.
use training_ops_scheduling.Base.{
  ◌≡◌, refl, inl, inr, ◌⊎◌, Option-cases, some, ◌≤◌, true, false, [], ◌∷◌, arith, Bool-cases,
  select, String,
}
use training_ops_scheduling.Base.Table.{Table, values, update_all, lookup-update_all}
use training_ops_scheduling.Base.Result.{ok}
use training_ops_scheduling.Clock.{Time}
use training_ops_scheduling.Booking.Data.{Booking, is_held, BookingStatus}
use training_ops_scheduling.Booking.Memory.{
  BookingRepository, is_due, release_if_due, release_expired_holds, get_booking, booking_key,
}
use training_ops_scheduling.Booking.Memory.Hold.{get_booking-ok_iff}

released_not-due : (now : Time) (b : Booking) → is_due now (release_if_due now b) ≡ false
unfolding release_if_due is_due is_held
released_not-due now b = elim (Bool-cases (is_due now b)) [
  | inl due ↦ rw (due, release_if_due)
  | inr early ↦ rw (early, release_if_due) early
]

release_if_due-kept : (now : Time) (b : Booking) → is_due now b ≡ false → release_if_due now b ≡ b
unfolding release_if_due
release_if_due-kept now b early = rw early

released-fixed :
    (now : Time) (b : Booking) → release_if_due now (release_if_due now b) ≡ release_if_due now b
released-fixed now b = release_if_due-kept now (release_if_due now b) (released_not-due now b)

select-update_all :
    (now : Time) (m : Table Booking)
    → select (is_due now) (values (update_all (release_if_due now) m)) ≡ []
unfolding select values update_all
select-update_all now [] = refl
select-update_all now ((k, b) ∷ m) = rw (released_not-due now b) (select-update_all now m)

update_all_twice :
    (now : Time) (m : Table Booking)
    → update_all (release_if_due now) (update_all (release_if_due now) m)
      ≡ update_all (release_if_due now) m
unfolding update_all
update_all_twice now [] = refl
update_all_twice now ((k, b) ∷ m) = rw (released-fixed now b, update_all_twice now m)

-- A second sweep at the same moment releases nothing and changes nothing.
pub release_expired_holds_twice :
    (now : Time) (r : BookingRepository)
    → let swept = (release_expired_holds now r).0 in release_expired_holds now swept ≡ (swept, 0)
unfolding release_expired_holds
release_expired_holds_twice now r =
    rw (select-update_all now r.bookings, update_all_twice now r.bookings)

-- A hold whose expiry has come.
pub record IsDue (now : Time) (b : Booking) : Type 0 where
  pub held : b.status ≡ BookingStatus.held
  pub expiry : Time
  pub set : b.hold_expires_at ≡ some expiry
  pub passed : expiry ≤ now

is_due_sound : (now : Time) (b : Booking) → is_due now b ≡ true → IsDue now b
unfolding is_due is_held
is_due_sound now b h = elim (Option-cases b.hold_expires_at) [
  | inl e ↦ absurd (ground arith)
  | inr (expiry, e) ↦ record {
    held = ground arith;
    expiry = expiry;
    set = e;
    passed = ground arith;
  }
]

is_due_complete : (now : Time) (b : Booking) → IsDue now b → is_due now b ≡ true
unfolding is_due is_held
is_due_complete now b d =
    let status = d.held in let set = d.set in let passed = d.passed in ground arith

-- The sweep turns a booking into an expired one exactly when it is a hold whose expiry has come, and
-- keeps every other booking as it is.
pub release_expired_holds_entry :
    (now : Time) (r : BookingRepository) (t i : String) (b : Booking)
    → get_booking t i r ≡ ok b
    → let swept = (release_expired_holds now r).0 in
      (IsDue now b
        × (get_booking t i swept
            ≡ ok (record b { status = BookingStatus.expired; updated_at = now })))
      ⊎ ((¬ IsDue now b) × (get_booking t i swept ≡ ok b))
unfolding release_expired_holds release_if_due
release_expired_holds_entry now r t i b e =
    let swept = (release_expired_holds now r).0 in
    let found = (get_booking-ok_iff t i r b).0 e in
    let kept = lookup-update_all (release_if_due now) (booking_key t i) r.bookings b found in
    let read = (get_booking-ok_iff t i swept (release_if_due now b)).1 kept in
    elim (Bool-cases (is_due now b)) [
      | inl due ↦ inl (is_due_sound now b due, rw (due, release_if_due) at read)
      | inr early ↦
          inr (λ d. let due = is_due_complete now b d in cc, rw (early, release_if_due) at read)
    ]
