-- ===== src/Booking/Tests/Samples.antt =====
-- A tenant with one room, and bookings of it.
use training_ops_scheduling.Base.{ℕ, ◌+◌, ◌*◌, String, none, some, [], ◌∷◌}
use training_ops_scheduling.Base.Int.{pos}
use training_ops_scheduling.Clock.{hour}
use training_ops_scheduling.Booking.Data.{Booking, BookingStatus, Room, Instructor}
use training_ops_scheduling.Booking.Memory.{BookingRepository}

abbrev pub lab : Room
lab = record {
  id = "lab";
  tenant_id = "acme";
  name = "Lab";
  capacity = pos 10;
  created_at = 0;
  updated_at = 0;
}

abbrev pub ann : Instructor
ann = record { id = "ann"; tenant_id = "acme"; name = "Ann"; created_at = 0; updated_at = 0 }

-- A booking of the lab with Ann, from the hour on, with eight attendees.
abbrev pub lesson : String → BookingStatus → ℕ → Booking
lesson id status from = record {
  id = id;
  tenant_id = "acme";
  user_id = "u1";
  room_id = "lab";
  instructor_id = "ann";
  title = "Forklift";
  start_at = from * hour;
  end_at = from * hour + hour;
  capacity = pos 10;
  attendees = pos 8;
  status = status;
  hold_expires_at = none;
  reschedule_count = pos 0;
  version = pos 1;
  created_at = 0;
  updated_at = 0;
  cancelled_at = none;
  checked_in_at = none;
}

-- Nothing is booked.
abbrev pub open_lab : BookingRepository
open_lab = record {
  bookings = [];
  rooms = ("acme:lab", lab) ∷ [];
  instructors = ("acme:ann", ann) ∷ [];
}

-- The hour 100 is booked and confirmed.
abbrev pub busy_lab : BookingRepository
busy_lab = record open_lab { bookings = ("acme:b1", lesson "b1" BookingStatus.confirmed 100) ∷ [] }

-- The hour 100 was cancelled and booked again.
abbrev pub rebooked_lab : BookingRepository
rebooked_lab = record open_lab {
  bookings =
      ("acme:b0", lesson "b0" BookingStatus.cancelled 100)
      ∷ ("acme:b1", lesson "b1" BookingStatus.confirmed 100)
      ∷ [];
}

-- Two hours are booked, one after the other.
abbrev pub full_lab : BookingRepository
full_lab = record open_lab {
  bookings =
      ("acme:b1", lesson "b1" BookingStatus.confirmed 100)
      ∷ ("acme:b2", lesson "b2" BookingStatus.confirmed 102)
      ∷ [];
}

-- A hold on the hour 100 that ends at the instant 7.
abbrev pub held_lab : BookingRepository
held_lab = record open_lab {
  bookings =
      ("acme:b1", record (lesson "b1" BookingStatus.held 100) { hold_expires_at = some 7 }) ∷ [];
}
