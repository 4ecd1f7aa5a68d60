-- ===== src/Booking/Memory.antt =====
-- repo/backend/internal/repository/memory/booking_store.go: the in-memory booking repository. A
-- method takes the repository and returns the new one; the mutex makes each method one step.
pub mod Hold
pub mod Exclusion
pub mod History
pub mod Entries
pub mod Keys
pub mod Transitions
pub mod Release
use training_ops_scheduling.Base.{
  ℕ, ◌+◌, String, Bool, false, not, ◌&&◌, Option, none, some, List, [], ◌∷◌, ◌++◌, select, length,
  str_eq, str_lt, if◌then◌else◌,
}
use training_ops_scheduling.Base.Int.{pos, increment}
use training_ops_scheduling.Base.Text.{◌+ˢ◌, itoa}
use training_ops_scheduling.Base.Sort.{sort_slice}
use training_ops_scheduling.Base.Table.{Table, lookup, insert, values, update_all}
use training_ops_scheduling.Base.Result.{Result, ok, err}
use training_ops_scheduling.Booking.Store.{BookingError, HoldResult, Error?, BookingStore}
use training_ops_scheduling.Clock.{Time, Duration, before, unix_nano}
use training_ops_scheduling.Booking.Data.{
  Booking, Room, Instructor, BookingConflict, BookingStatus, is_held, is_confirmed,
}
use training_ops_scheduling.Booking.Conflict.{
  has_lapsed, all_booking_conflicts, room_conflicts, dedupe_booking_conflicts,
}

pub record BookingRepository : Type 0 where
  pub bookings : Table Booking
  pub rooms : Table Room
  pub instructors : Table Instructor

unfoldable pub new_booking_repository : BookingRepository
new_booking_repository = record { bookings = []; rooms = []; instructors = [] }

unfoldable pub booking_key : String → String → String
booking_key tenant_id booking_id = tenant_id +ˢ ":" +ˢ booking_id

unfoldable pub room_key : String → String → String
room_key tenant_id room_id = tenant_id +ˢ ":" +ˢ room_id

unfoldable pub instructor_key : String → String → String
instructor_key tenant_id instructor_id = tenant_id +ˢ ":" +ˢ instructor_id

unfoldable pub save_room : Room → BookingRepository → BookingRepository
save_room room r = record r { rooms = insert (room_key room.tenant_id room.id) room r.rooms }

unfoldable pub save_instructor : Instructor → BookingRepository → BookingRepository
save_instructor i r = record r {
  instructors = insert (instructor_key i.tenant_id i.id) i r.instructors;
}

unfoldable pub detect_conflicts_locked : Booking → Time → BookingRepository → List BookingConflict
detect_conflicts_locked candidate now r = dedupe_booking_conflicts (
    room_conflicts candidate (lookup (room_key candidate.tenant_id candidate.room_id) r.rooms)
    ++ all_booking_conflicts now candidate (values r.bookings))

-- The booking that a hold stores.
unfoldable pub as_held : Booking → Duration → Time → Booking
as_held booking hold_ttl now = record booking {
  id = if str_eq booking.id "" then "bk_" +ˢ itoa (unix_nano now) else booking.id;
  status = BookingStatus.held;
  hold_expires_at = some (now + hold_ttl);
  created_at = now;
  updated_at = now;
  version = pos 1;
}

store_hold : Booking → List BookingConflict → BookingRepository → BookingRepository × HoldResult
store_hold booking [] r = (
  record r { bookings = insert (booking_key booking.tenant_id booking.id) booking r.bookings },
  HoldResult.placed booking,
)
store_hold booking (c ∷ cs) r = (r, HoldResult.refused (c ∷ cs) BookingError.booking_conflict)

unfoldable pub create_hold :
    Booking → Duration → Time → BookingRepository → BookingRepository × HoldResult
unfolding store_hold
create_hold booking hold_ttl now r =
    store_hold (as_held booking hold_ttl now) (detect_conflicts_locked booking now r) r

unfoldable pub get_booking : String → String → BookingRepository → Result BookingError Booking
get_booking tenant_id booking_id r = elim (lookup (booking_key tenant_id booking_id) r.bookings) [
  | none ↦ err BookingError.booking_not_found
  | some booking ↦ ok booking
]

abbrev put : String → Booking → BookingRepository → BookingRepository
put key booking r = record r { bookings = insert key booking r.bookings }

unfoldable pub confirmed_booking : Time → Booking → Booking
confirmed_booking now booking = record booking {
  status = BookingStatus.confirmed;
  hold_expires_at = none;
  updated_at = now;
  version = increment booking.version;
}

unfoldable pub confirm : String → String → Time → BookingRepository → BookingRepository × Error?
confirm tenant_id booking_id now r =
    let key = booking_key tenant_id booking_id in
    elim (lookup key r.bookings) [
      | none ↦ (r, some BookingError.booking_not_found)
      | some booking ↦
          if has_lapsed now booking.hold_expires_at
          then (
            put key (record booking { status = BookingStatus.expired }) r,
            some BookingError.booking_conflict,
          )
          else (put key (confirmed_booking now booking) r, none)
    ]

unfoldable pub cancelled_booking : Time → Booking → Booking
cancelled_booking now booking = record booking {
  status = BookingStatus.cancelled;
  cancelled_at = some now;
  updated_at = now;
  version = increment booking.version;
}

unfoldable pub cancel : String → String → Time → BookingRepository → BookingRepository × Error?
cancel tenant_id booking_id now r =
    let key = booking_key tenant_id booking_id in
    elim (lookup key r.bookings) [
      | none ↦ (r, some BookingError.booking_not_found)
      | some booking ↦ (put key (cancelled_booking now booking) r, none)
    ]

unfoldable pub checked_in_booking : Time → Booking → Booking
checked_in_booking now booking = record booking {
  status = BookingStatus.checked_in;
  checked_in_at = some now;
  updated_at = now;
  version = increment booking.version;
}

unfoldable pub check_in : String → String → Time → BookingRepository → BookingRepository × Error?
check_in tenant_id booking_id now r =
    let key = booking_key tenant_id booking_id in
    elim (lookup key r.bookings) [
      | none ↦ (r, some BookingError.booking_not_found)
      | some booking ↦
          if not (is_confirmed booking.status)
          then (r, some BookingError.booking_conflict)
          else (put key (checked_in_booking now booking) r, none)
    ]

unfoldable pub rescheduled_booking : Time → Time → Time → Booking → Booking
rescheduled_booking new_start new_end now booking = record booking {
  start_at = new_start;
  end_at = new_end;
  reschedule_count = increment booking.reschedule_count;
  updated_at = now;
  version = increment booking.version;
}

unfoldable pub reschedule :
    String
    → String
    → Time
    → Time
    → Time
    → BookingRepository
    → BookingRepository × Result BookingError Booking
reschedule tenant_id booking_id new_start new_end now r =
    let key = booking_key tenant_id booking_id in
    elim (lookup key r.bookings) [
      | none ↦ (r, err BookingError.booking_not_found)
      | some booking ↦
          let booking' = rescheduled_booking new_start new_end now booking in
          (put key booking' r, ok booking')
    ]

-- `status == Held && expires != nil && !now.Before(*expires)`
unfoldable pub is_due : Time → Booking → Bool
is_due now booking =
    is_held booking.status
    && elim booking.hold_expires_at [ none ↦ false | some expiry ↦ not (before now expiry) ]

unfoldable pub release_if_due : Time → Booking → Booking
release_if_due now booking =
    if is_due now booking
    then record booking { status = BookingStatus.expired; updated_at = now }
    else booking

unfoldable pub release_expired_holds : Time → BookingRepository → BookingRepository × ℕ
release_expired_holds now r = (
  record r { bookings = update_all (release_if_due now) r.bookings },
  length (select (is_due now) (values r.bookings)),
)

unfoldable pub list_bookings : String → BookingRepository → List Booking
list_bookings tenant_id r =
    sort_slice (λ b c. before b.start_at c.start_at)
      (select (λ b. str_eq b.tenant_id tenant_id) (values r.bookings))

unfoldable pub list_rooms : String → BookingRepository → List Room
list_rooms tenant_id r =
    sort_slice (λ a b. str_lt a.id b.id)
      (select (λ room. str_eq room.tenant_id tenant_id) (values r.rooms))

unfoldable pub list_instructors : String → BookingRepository → List Instructor
list_instructors tenant_id r =
    sort_slice (λ a b. str_lt a.id b.id)
      (select (λ i. str_eq i.tenant_id tenant_id) (values r.instructors))

-- The repository as the service sees it. `sort.Slice` and the map reads raise no error.
abbrev pub memory_store : BookingStore
memory_store = record {
  State = BookingRepository;
  get_booking = get_booking;
  create_hold = create_hold;
  confirm = confirm;
  cancel = cancel;
  check_in = check_in;
  reschedule = reschedule;
  release_expired_holds =
      λ now r. let (r', released) = release_expired_holds now r in (r', ok released);
  list_bookings = λ tenant_id r. ok (list_bookings tenant_id r);
  list_rooms = λ tenant_id r. ok (list_rooms tenant_id r);
  list_instructors = λ tenant_id r. ok (list_instructors tenant_id r);
}
