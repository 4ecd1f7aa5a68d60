-- ===== src/Booking/Conflict/Blocking.antt =====
-- When the conflict loop of the booking repository reports a booking, said without its tests.
use training_ops_scheduling.Base.{
  ◌≤◌, ◌<◌, ◌≡◌, refl, ◌≢◌, ◌⊎◌, inl, inr, ◌↔◌, Option, none, some, Bool, true, false, ◌&&◌, ◌||◌,
  [], arith, str_eq, str_eq_iff, Bool-cases,
}
use training_ops_scheduling.Clock.{Time}
use training_ops_scheduling.Booking.Data.{Booking, BookingStatus, is_closed}
use training_ops_scheduling.Booking.Conflict.{overlaps, has_lapsed, in_the_way, booking_conflicts}

-- The booking still holds its room and instructor at the time `now`.
pub record Active (now : Time) (b : Booking) : Type 0 where
  pub not_cancelled : b.status ≢ BookingStatus.cancelled
  pub not_expired : b.status ≢ BookingStatus.expired
  pub in_force : has_lapsed now b.hold_expires_at ≡ false

-- The windows of two bookings of one tenant overlap, and they share a room or an instructor.
pub record Collide (a b : Booking) : Type 0 where
  pub same_tenant : a.tenant_id ≡ b.tenant_id
  pub starts_before : a.start_at < b.end_at
  pub ends_after : b.start_at < a.end_at
  pub shared : (a.room_id ≡ b.room_id) ⊎ (a.instructor_id ≡ b.instructor_id)

pub Collide-symm : (a b : Booking) → Collide a b → Collide b a
Collide-symm a b c = record {
  same_tenant = cc;
  starts_before = c.ends_after;
  ends_after = c.starts_before;
  shared = ground arith;
}

pub has_lapsed_iff : (now expiry : Time) → (has_lapsed now (some expiry) ≡ false) ↔ (now ≤ expiry)
unfolding has_lapsed
has_lapsed_iff now expiry = (λ h. ground arith, λ h. ground arith)

pub has_lapsed-none : (now : Time) → has_lapsed now none ≡ false
unfolding has_lapsed
has_lapsed-none now = refl

-- A booking that has lapsed stays so.
pub has_lapsed_mono :
    (now later : Time) (expiry : Option Time)
    → now ≤ later
    → has_lapsed later expiry ≡ false
    → has_lapsed now expiry ≡ false
unfolding has_lapsed
has_lapsed_mono now later none h e = refl
has_lapsed_mono now later (some t) h e = ground arith

pub Active-mono : (now later : Time) (b : Booking) → now ≤ later → Active later b → Active now b
Active-mono now later b h a = record {
  not_cancelled = a.not_cancelled;
  not_expired = a.not_expired;
  in_force = has_lapsed_mono now later b.hold_expires_at h a.in_force;
}

pub is_closed-cases :
    (s : BookingStatus)
    → (is_closed s ≡ false)
    → (s ≢ BookingStatus.cancelled) × (s ≢ BookingStatus.expired)
unfolding is_closed
is_closed-cases BookingStatus.held e = (λ h. cc, λ h. cc)
is_closed-cases BookingStatus.confirmed e = (λ h. cc, λ h. cc)
is_closed-cases BookingStatus.checked_in e = (λ h. cc, λ h. cc)
is_closed-cases BookingStatus.cancelled e = cc
is_closed-cases BookingStatus.expired e = cc

pub is_closed_of :
    (s : BookingStatus)
    → (s ≢ BookingStatus.cancelled)
    → (s ≢ BookingStatus.expired)
    → is_closed s ≡ false
unfolding is_closed
is_closed_of BookingStatus.held h k = refl
is_closed_of BookingStatus.confirmed h k = refl
is_closed_of BookingStatus.checked_in h k = refl
is_closed_of BookingStatus.cancelled h k = absurd (h refl)
is_closed_of BookingStatus.expired h k = absurd (k refl)

unfoldable pub blocks : Time → Booking → Booking → Bool
blocks now candidate b =
    in_the_way now candidate b
    && (str_eq b.room_id candidate.room_id || str_eq b.instructor_id candidate.instructor_id)

blocks_sound :
    (now : Time) (candidate b : Booking)
    → blocks now candidate b ≡ true
    → Active now b × Collide b candidate
unfolding blocks in_the_way overlaps
blocks_sound now candidate b h =
    let passed : (is_closed b.status ≡ false) = ground arith in
    let (c, e) = is_closed-cases b.status passed in
    (
      record { not_cancelled = c; not_expired = e; in_force = ground arith },
      record {
        same_tenant = (str_eq_iff b.tenant_id candidate.tenant_id).0 (ground arith);
        starts_before = ground arith;
        ends_after = ground arith;
        shared = ground (
          arith,
          str_eq_iff b.room_id candidate.room_id,
          str_eq_iff b.instructor_id candidate.instructor_id,
        );
      },
    )

blocks_complete :
    (now : Time) (candidate b : Booking)
    → Active now b
    → Collide b candidate
    → blocks now candidate b ≡ true
unfolding blocks in_the_way overlaps
blocks_complete now candidate b a c = ground (
  arith,
  is_closed_of b.status a.not_cancelled a.not_expired,
  str_eq_iff b.tenant_id candidate.tenant_id,
  str_eq_iff b.room_id candidate.room_id,
  str_eq_iff b.instructor_id candidate.instructor_id,
)

pub blocks_iff :
    (now : Time) (candidate b : Booking)
    → (blocks now candidate b ≡ false) ↔ (¬ (Active now b × Collide b candidate))
blocks_iff now candidate b = (
  λ h (a, c). let on = blocks_complete now candidate b a c in cc,
  λ h. elim (Bool-cases (blocks now candidate b)) [
    | inl on ↦ absurd (h (blocks_sound now candidate b on))
    | inr off ↦ off
  ],
)

booking_conflicts-blocks :
    (now : Time) (candidate b : Booking)
    → (booking_conflicts now candidate b ≡ []) ↔ (blocks now candidate b ≡ false)
unfolding booking_conflicts blocks
booking_conflicts-blocks now candidate b = (λ h. ground arith, λ h. ground arith)

-- The loop over the bookings reports nothing exactly when no active booking collides.
pub booking_conflicts-nil_iff :
    (now : Time) (candidate b : Booking)
    → (booking_conflicts now candidate b ≡ []) ↔ (¬ (Active now b × Collide b candidate))
booking_conflicts-nil_iff now candidate b =
    let tests = booking_conflicts-blocks now candidate b in
    let said = blocks_iff now candidate b in (λ h. said.0 (tests.0 h), λ h. tests.1 (said.1 h))
