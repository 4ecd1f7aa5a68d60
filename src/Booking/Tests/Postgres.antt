-- ===== src/Booking/Tests/Postgres.antt =====
-- The booking store on Postgres, on concrete tables.
use training_ops_scheduling.Base.{
  ◌*◌, ◌≤◌, ◌<◌, String, none, some, List, [], ◌∷◌, ◌≡◌, refl, str_eq, arith, if◌then◌else◌, ◌&&◌,
  ◌≢◌, ◌↔◌, false, str_eq_iff, All,
}
use training_ops_scheduling.Base.Int.{pos, ◌+ℤ◌}
use training_ops_scheduling.Base.Rows.{Pairwise, first_where}
use training_ops_scheduling.Base.Result.{ok}
use training_ops_scheduling.Clock.{Time, hour}
use training_ops_scheduling.Booking.Data.{Booking, BookingStatus, Room}
use training_ops_scheduling.Booking.Store.{BookingError, HoldResult}
use training_ops_scheduling.Booking.Tests.Samples.{lab, lesson}
use training_ops_scheduling.Booking.Conflict.{dedupe_booking_conflicts}
use training_ops_scheduling.Booking.Conflict.Apart.{Apart}
use training_ops_scheduling.Booking.Postgres.Tables.{
  Database, Server, cast_uuid, resolve_tenant_uuid, is_row,
}
use training_ops_scheduling.Booking.Postgres.Detect.{
  detect_booking_conflicts_tx, seat_conflicts, blackout_conflicts, period_conflicts,
}
use training_ops_scheduling.Booking.Postgres.Methods.{
  create_hold, confirm, reschedule, get_booking, insert_hold,
}
use training_ops_scheduling.Booking.Postgres.Free.{
  IsClear, Admits, Admits-nil_iff, found_room, detect_booking_conflicts_tx-nil_iff,
}
use training_ops_scheduling.Booking.Postgres.Exclusion.{Canonical, WellFormed}
use training_ops_scheduling.Booking.Postgres.History
use training_ops_scheduling.Booking.Postgres.History.{Reach-WellFormed, NewIds, IsCanonical}
use training_ops_scheduling.Booking.Postgres.Race
use training_ops_scheduling.Booking.Postgres.Race.{Checked, System, RoomApart}
use training_ops_scheduling.Booking.Postgres.Locked.{Reach-RoomApart}
use training_ops_scheduling.Booking.Postgres.Twice.{IsPassed, instructor_booked_twice}
use training_ops_scheduling.Booking.Postgres.Spelling.{detect_booking_conflicts_tx-other_spelling}
use training_ops_scheduling.Booking.Postgres.Outcomes.{Names, confirm_outcome}

unfoldable pub next_id : List Booking → String
next_id [] = "b1"
next_id (_ ∷ []) = "b2"
next_id _ = "b3"

-- A server that prints the identifier LAB in lower case, and numbers the rows.
abbrev pub server : Server
server = record {
  uuid = λ text. if str_eq text "LAB" then some "lab" else some text;
  new_id = λ db. next_id db.bookings;
  date_of = λ t. 0;
  weekday_of = λ t. 0;
  clock_of = λ t. 0;
  lower = λ text. text;
}

-- A tenant with two rooms and one instructor.
abbrev pub empty_tables : Database
empty_tables = record {
  tenants = (record { id = "acme"; slug = "acme-inc" }) ∷ [];
  users =
      (record {
        id = "ann";
        tenant_id = "acme";
        display_name = "Ann";
        created_at = 0;
        updated_at = 0;
      })
      ∷ (record {
        id = "u1";
        tenant_id = "acme";
        display_name = "Uma";
        created_at = 0;
        updated_at = 0;
      })
      ∷ [];
  user_roles = [];
  roles = [];
  rooms = lab ∷ (record lab { id = "hall" }) ∷ [];
  class_periods = [];
  blackout_dates = [];
  bookings = [];
}

abbrev pub in_lab : Booking
in_lab = lesson "" BookingStatus.held 100

abbrev in_hall : Booking
in_hall = record in_lab { room_id = "hall" }

pub new_ids : NewIds server
unfolding next_id str_eq
new_ids db = numbered db.bookings
  where
    numbered : (rows : List Booking) → server.uuid (next_id rows) ≡ some (next_id rows)
    numbered [] = refl
    numbered (_ ∷ []) = refl
    numbered (_ ∷ _ ∷ _) = refl

in_lab-IsCanonical : IsCanonical server in_lab
unfolding str_eq
in_lab-IsCanonical = record { room_id = refl; instructor_id = refl }

in_hall-IsCanonical : IsCanonical server in_hall
unfolding str_eq
in_hall-IsCanonical = record { room_id = refl; instructor_id = refl }

-- Held for a minute, confirmed and moved.
abbrev held_tables : Database
held_tables = (create_hold server in_lab 60 5 empty_tables).0

abbrev confirmed_tables : Database
confirmed_tables = (confirm server "acme-inc" "b1" 7 held_tables).0

abbrev moved_tables : Database
moved_tables = (reschedule server "acme" "b1" (101 * hour) (102 * hour) 9 confirmed_tables).0

held-reached : History.Reach server 5 held_tables
held-reached =
    History.next 5 (History.start 5 empty_tables refl) (omega arith)
      (History.hold in_lab 60 in_lab-IsCanonical)

moved-reached : History.Reach server 9 moved_tables
moved-reached =
    History.next 9 (History.next 7 held-reached (omega arith) (History.confirmed "acme-inc" "b1"))
      (omega arith) (History.rescheduled "acme" "b1" (101 * hour) (102 * hour))

Reach-WellFormed_example : WellFormed server 9 moved_tables
Reach-WellFormed_example = Reach-WellFormed server 9 moved_tables new_ids moved-reached

-- The moved row, as the table holds it.
moved_row : Booking
moved_row = record in_lab {
  id = "b1";
  status = BookingStatus.confirmed;
  start_at = 101 * hour;
  end_at = 102 * hour;
  reschedule_count = pos 1;
  version = pos 3;
  created_at = 5;
  updated_at = 9;
}

moved_tables_sample : moved_tables.bookings ≡ moved_row ∷ []
unfolding create_hold confirm reschedule moved_row next_id str_eq dedupe_booking_conflicts ◌+ℤ◌
moved_tables_sample = refl

held_row_sample : Booking
held_row_sample = record in_lab {
  id = "b1";
  hold_expires_at = some 65;
  created_at = 5;
  updated_at = 5;
}

held_row-Names : Names server "acme-inc" "b1" held_tables held_row_sample
unfolding create_hold held_row_sample next_id str_eq resolve_tenant_uuid is_row
    dedupe_booking_conflicts
held_row-Names = record { tenant = refl; id = refl; found = refl }

confirm_outcome_example :
    let (db', e) = confirm server "acme-inc" "b1" 65 held_tables in
    (held_row_sample.status ≡ BookingStatus.held
      → ((until : Time) → held_row_sample.hold_expires_at ≡ some until → 65 < until)
      → (e ≡ none)
        × (get_booking server "acme-inc" "b1" db'
            ≡ ok (record held_row_sample {
              status = BookingStatus.confirmed;
              hold_expires_at = none;
              updated_at = 65;
              version = held_row_sample.version +ℤ pos 1;
            })))
    × ((until : Time)
        → held_row_sample.status ≡ BookingStatus.held
        → held_row_sample.hold_expires_at ≡ some until
        → until ≤ 65
        → (e ≡ some (BookingError.other "booking cannot be confirmed"))
          × (get_booking server "acme-inc" "b1" db'
              ≡ ok (record held_row_sample {
                status = BookingStatus.expired;
                updated_at = 65;
                version = held_row_sample.version +ℤ pos 1;
              })))
    × (held_row_sample.status ≢ BookingStatus.held
        → (e ≡ some (BookingError.other "booking cannot be confirmed"))
          × (get_booking server "acme-inc" "b1" db' ≡ ok held_row_sample))
confirm_outcome_example =
    confirm_outcome server "acme-inc" "b1" 65 held_tables held_row_sample held_row-Names (
      Reach-WellFormed server 65 held_tables new_ids
        (History.next 65 held-reached (omega arith) (History.settled held_tables refl)))

-- Two transactions for Ann, in two rooms, checked side by side.
abbrev for_lab : Checked
for_lab = record { tenant = "acme"; booking = in_lab; hold_ttl = 60; started = 5 }

abbrev for_hall : Checked
for_hall = record { tenant = "acme"; booking = in_hall; hold_ttl = 60; started = 5 }

for_lab-IsPassed : IsPassed server 5 empty_tables for_lab
unfolding detect_booking_conflicts_tx resolve_tenant_uuid str_eq cast_uuid dedupe_booking_conflicts
for_lab-IsPassed = record {
  canonical = in_lab-IsCanonical;
  starts_now = refl;
  tenant = refl;
  none_found = refl;
}

for_hall-IsPassed : IsPassed server 5 empty_tables for_hall
unfolding detect_booking_conflicts_tx resolve_tenant_uuid str_eq cast_uuid dedupe_booking_conflicts
for_hall-IsPassed = record {
  canonical = in_hall-IsCanonical;
  starts_now = refl;
  tenant = refl;
  none_found = refl;
}

abbrev pub lab_row : Booking
lab_row = record in_lab { id = "b1"; hold_expires_at = some 65; created_at = 5; updated_at = 5 }

abbrev hall_row : Booking
hall_row = record lab_row { id = "b2"; room_id = "hall" }

abbrev pub one_row_tables : Database
one_row_tables = record empty_tables { bookings = lab_row ∷ [] }

abbrev two_row_tables : Database
two_row_tables = record empty_tables { bookings = lab_row ∷ hall_row ∷ [] }

rooms_differ : ¬ Race.SameRoom for_hall for_lab
unfolding str_eq
rooms_differ h =
    let same = (str_eq_iff "hall" "lab").1 h.room_id in
    let other : str_eq "hall" "lab" ≡ false = refl in cc

lab_inserted :
    insert_hold server "acme" in_lab 60 5 empty_tables ≡ (one_row_tables, HoldResult.placed lab_row)
unfolding insert_hold next_id str_eq cast_uuid
lab_inserted = refl

hall_inserted :
    insert_hold server "acme" in_hall 60 5 one_row_tables
    ≡ (two_row_tables, HoldResult.placed hall_row)
unfolding insert_hold next_id str_eq cast_uuid
hall_inserted = refl

instructor_booked_twice_example :
    Race.Reach server 5 (record { db = two_row_tables; pending = [] })
    × (¬ Pairwise (Apart 5) two_row_tables.bookings)
instructor_booked_twice_example =
    instructor_booked_twice server 5 empty_tables one_row_tables two_row_tables for_lab for_hall
      lab_row hall_row (Race.start 5 empty_tables refl) for_lab-IsPassed for_hall-IsPassed
      rooms_differ
      (record {
        tenant = refl;
        instructor = refl;
        starts_before = omega arith;
        ends_after = omega arith;
      })
      lab_inserted hall_inserted

Reach-RoomApart_example : Pairwise (RoomApart 5) two_row_tables.bookings
Reach-RoomApart_example =
    Reach-RoomApart server 5 (record { db = two_row_tables; pending = [] })
      instructor_booked_twice_example.0

-- The lab is booked by Ann; Bob asks for the same hour, and spells the room in upper case.
abbrev in_upper_case : Booking
in_upper_case = record in_lab { room_id = "LAB"; instructor_id = "bob" }

in_upper_case-Admits : Admits server "acme" in_upper_case lab one_row_tables
unfolding seat_conflicts blackout_conflicts period_conflicts
in_upper_case-Admits =
    (Admits-nil_iff server "acme" in_upper_case lab one_row_tables).0 (refl, refl, refl)

spelt_otherwise : ◌≢◌ {A = String} "lab" "LAB"
unfolding str_eq
spelt_otherwise h =
    let same = (str_eq_iff "lab" "LAB").1 h in let other : str_eq "lab" "LAB" ≡ false = refl in cc

other_instructor : ◌≢◌ {A = String} "ann" "bob"
unfolding str_eq
other_instructor h =
    let same = (str_eq_iff "ann" "bob").1 h in let other : str_eq "ann" "bob" ≡ false = refl in cc

lab_row-Canonical : Canonical server lab_row
unfolding str_eq
lab_row-Canonical = record { id = refl; room_id = refl; instructor_id = refl }

upper_case : server.uuid "LAB" ≡ some "lab"
unfolding str_eq
upper_case = refl

bob : server.uuid "bob" ≡ some "bob"
unfolding str_eq
bob = refl

lab_found :
    first_where (λ (r : Room). str_eq r.tenant_id "acme" && str_eq r.id "lab") one_row_tables.rooms
    ≡ some lab
unfolding first_where str_eq
lab_found = refl

detect_booking_conflicts_tx-other_spelling_example :
    detect_booking_conflicts_tx server "acme" in_upper_case 6 [] one_row_tables ≡ ok []
detect_booking_conflicts_tx-other_spelling_example =
    detect_booking_conflicts_tx-other_spelling server "acme" in_upper_case "lab" lab 6
      one_row_tables (lab_row-Canonical, tt) upper_case spelt_otherwise bob lab_found
      in_upper_case-Admits (other_instructor, tt)

in_lab_room : server.uuid "lab" ≡ some "lab"
unfolding str_eq
in_lab_room = refl

ann_known : server.uuid "ann" ≡ some "ann"
unfolding str_eq
ann_known = refl

detect_booking_conflicts_tx-nil_iff_example :
    (detect_booking_conflicts_tx server "acme" in_lab 6 [] one_row_tables ≡ ok []) ↔ (
      ((room : Room) × (found_room "acme" in_lab one_row_tables ≡ some room)
        × Admits server "acme" in_lab room one_row_tables)
      × All (IsClear "acme" in_lab 6 []) one_row_tables.bookings)
detect_booking_conflicts_tx-nil_iff_example =
    detect_booking_conflicts_tx-nil_iff server "acme" in_lab 6 [] one_row_tables in_lab_room
      ann_known
