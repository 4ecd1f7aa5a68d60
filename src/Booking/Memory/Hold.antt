-- ===== src/Booking/Memory/Hold.antt =====
-- When CreateHold places a booking, and what it leaves behind.
use training_ops_scheduling.Base.{
  subst, ◌≡◌, refl, ◌≢◌, ◌↔◌, Option, none, some, List, [], ◌∷◌, arith, str_eq, if◌then◌else◌,
  String, append-eq-nil,
}
use training_ops_scheduling.Base.Int.{◌≤ℤ◌}
use training_ops_scheduling.Base.Table.{Table, lookup, insert, values, lookup-insert}
use training_ops_scheduling.Base.Invariant.{Each}
use training_ops_scheduling.Base.Result.{ok}
use training_ops_scheduling.Booking.Store.{BookingError, HoldResult}
use training_ops_scheduling.Clock.{Time, Duration}
use training_ops_scheduling.Booking.Data.{Booking, Room, BookingConflict}
use training_ops_scheduling.Booking.Conflict.{
  room_conflicts, booking_conflicts, all_booking_conflicts,
}
use training_ops_scheduling.Booking.Conflict.Blocking.{Active, Collide, booking_conflicts-nil_iff}
use training_ops_scheduling.Booking.Conflict.Dedupe.{dedupe_booking_conflicts-nil_iff}
use training_ops_scheduling.Booking.Memory.{
  BookingRepository, create_hold, store_hold, as_held, detect_conflicts_locked, room_key,
  booking_key, get_booking,
}

-- No active booking of the repository collides with the candidate.
abbrev pub IsFree : Time → Booking → Table Booking → Type 0
IsFree now candidate = Each (λ _ b. ¬ (Active now b × Collide b candidate))

all_booking_conflicts-nil_iff :
    (now : Time) (candidate : Booking) (m : Table Booking)
    → (all_booking_conflicts now candidate (values m) ≡ []) ↔ IsFree now candidate m
unfolding all_booking_conflicts values
all_booking_conflicts-nil_iff now candidate [] = (λ h. tt, λ h. refl)
all_booking_conflicts-nil_iff now candidate ((k, b) ∷ m) = (
  λ h.
      let (first, later) = append-eq-nil (booking_conflicts now candidate b) _ h in
      (
        (booking_conflicts-nil_iff now candidate b).0 first,
        (all_booking_conflicts-nil_iff now candidate m).0 later,
      ),
  λ h. rw (
    (booking_conflicts-nil_iff now candidate b).1 h.0,
    (all_booking_conflicts-nil_iff now candidate m).1 h.1,
  ),
)

-- The room, if there is one, seats the attendees.
abbrev pub Seats : Booking → Option Room → Type 0
Seats candidate found = (room : Room) → found ≡ some room → candidate.attendees ≤ℤ room.capacity

room_conflicts-nil_iff :
    (candidate : Booking) (found : Option Room)
    → (room_conflicts candidate found ≡ []) ↔ Seats candidate found
unfolding room_conflicts
room_conflicts-nil_iff candidate none = (λ h room e. absurd (cc), λ h. refl)
room_conflicts-nil_iff candidate (some seats) = (
  λ h room e.
      let fits : candidate.attendees ≤ℤ seats.capacity = grind arith in
      let same : seats ≡ room = cc in subst (λ x. candidate.attendees ≤ℤ x.capacity) same fits,
  λ h. let fits = h seats refl in grind arith,
)

-- The room that a booking asks for, if the repository knows it, seats its attendees.
abbrev pub Fits : Booking → BookingRepository → Type 0
Fits candidate r = Seats candidate (lookup (room_key candidate.tenant_id candidate.room_id) r.rooms)

pub detect_conflicts_locked-nil_iff :
    (candidate : Booking) (now : Time) (r : BookingRepository)
    → (detect_conflicts_locked candidate now r ≡ [])
      ↔ (Fits candidate r × IsFree now candidate r.bookings)
unfolding detect_conflicts_locked
detect_conflicts_locked-nil_iff candidate now r = (
  λ h.
      let (seats, slots) = append-eq-nil _ _ ((dedupe_booking_conflicts-nil_iff _).0 h) in
      (
        (room_conflicts-nil_iff candidate _).0 seats,
        (all_booking_conflicts-nil_iff now candidate r.bookings).0 slots,
      ),
  λ h. (dedupe_booking_conflicts-nil_iff _).1 (
      rw (
        (room_conflicts-nil_iff candidate _).1 h.0,
        (all_booking_conflicts-nil_iff now candidate r.bookings).1 h.1,
      )),
)

store_hold-placed :
    (b : Booking) (cs : List BookingConflict) (r : BookingRepository)
    → ((store_hold b cs r).1 ≡ HoldResult.placed b) ↔ (cs ≡ [])
unfolding store_hold
store_hold-placed b [] r = (λ h. refl, λ h. refl)
store_hold-placed b (c ∷ cs) r = (λ h. cc, λ h. cc)

store_hold-refused :
    (b : Booking) (cs : List BookingConflict) (r : BookingRepository)
    → cs ≢ []
    → ((store_hold b cs r).0 ≡ r)
      × ((store_hold b cs r).1 ≡ HoldResult.refused cs BookingError.booking_conflict)
unfolding store_hold
store_hold-refused b [] r h = absurd (h refl)
store_hold-refused b (c ∷ cs) r h = (refl, refl)

pub create_hold-stored :
    (candidate : Booking) (ttl : Duration) (now : Time) (r : BookingRepository)
    → Fits candidate r
    → IsFree now candidate r.bookings
    → let b = as_held candidate ttl now in
      (create_hold candidate ttl now r).0
      ≡ record r { bookings = insert (booking_key b.tenant_id b.id) b r.bookings }
unfolding create_hold store_hold
create_hold-stored candidate ttl now r seats free =
    rw ((detect_conflicts_locked-nil_iff candidate now r).1 (seats, free), store_hold) refl

-- A hold is placed exactly when its room seats the attendees and no active booking collides with
-- it. What is then stored and returned is the booking as a hold that ends after the time to live.
pub create_hold-placed_iff :
    (candidate : Booking) (ttl : Duration) (now : Time) (r : BookingRepository)
    → ((create_hold candidate ttl now r).1 ≡ HoldResult.placed (as_held candidate ttl now))
      ↔ (Fits candidate r × IsFree now candidate r.bookings)
unfolding create_hold store_hold
create_hold-placed_iff candidate ttl now r = (
  λ h. (detect_conflicts_locked-nil_iff candidate now r).0 ((store_hold-placed _ _ r).0 h),
  λ h. (store_hold-placed _ _ r).1 ((detect_conflicts_locked-nil_iff candidate now r).1 h),
)

-- A refused hold leaves the repository as it was, and names at least one conflict.
pub create_hold-refused :
    (candidate : Booking) (ttl : Duration) (now : Time) (r : BookingRepository)
    → ¬ (Fits candidate r × IsFree now candidate r.bookings)
    → let (r', result) = create_hold candidate ttl now r in
      (r' ≡ r)
      × (result
          ≡ HoldResult.refused
              (detect_conflicts_locked candidate now r)
              BookingError.booking_conflict)
      × (detect_conflicts_locked candidate now r ≢ [])
unfolding create_hold store_hold
create_hold-refused candidate ttl now r h =
    let found : detect_conflicts_locked candidate now r ≢ [] =
      λ e. h ((detect_conflicts_locked-nil_iff candidate now r).0 e) in
    let (same, result) = store_hold-refused (as_held candidate ttl now) _ r found in
    (same, result, found)

-- What `GetBooking` returns is what stands under the key.
pub get_booking-ok_iff :
    (t i : String) (r : BookingRepository) (b : Booking)
    → (get_booking t i r ≡ ok b) ↔ (lookup (booking_key t i) r.bookings ≡ some b)
unfolding get_booking
get_booking-ok_iff t i r b = (λ h. ground arith, λ h. ground arith)

-- A hold that is placed can be read back under its key, and the bookings under the other keys are
-- those that stood there.
pub get_booking-create_hold :
    (candidate : Booking) (ttl : Duration) (now : Time) (r : BookingRepository) (t i : String)
    → Fits candidate r
    → IsFree now candidate r.bookings
    → let b = as_held candidate ttl now in
      get_booking t i (create_hold candidate ttl now r).0 ≡ (
        if str_eq (booking_key b.tenant_id b.id) (booking_key t i) then ok b else get_booking t i r)
unfolding create_hold store_hold get_booking
get_booking-create_hold candidate ttl now r t i seats free =
    let b = as_held candidate ttl now in
    let found = lookup-insert (booking_key b.tenant_id b.id) (booking_key t i) b r.bookings in
    rw (create_hold-stored candidate ttl now r seats free, found, get_booking) (ground arith)
