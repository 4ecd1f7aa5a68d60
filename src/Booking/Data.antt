-- ===== src/Booking/Data.antt =====
-- repo/backend/internal/model/booking.go: the records of the booking component.
use training_ops_scheduling.Base.{String, Option, Bool, true, false}
use training_ops_scheduling.Base.Int.{ℤ}
use training_ops_scheduling.Clock.{Time}

pub data BookingStatus : Type 0 where
  held confirmed checked_in cancelled expired : BookingStatus

pub data BookingConflictReason : Type 0 where
  room instructor capacity : BookingConflictReason

pub record Room : Type 0 where
  pub id : String
  pub tenant_id : String
  pub name : String
  pub capacity : ℤ
  pub created_at : Time
  pub updated_at : Time

pub record Instructor : Type 0 where
  pub id : String
  pub tenant_id : String
  pub name : String
  pub created_at : Time
  pub updated_at : Time

pub record Booking : Type 0 where
  pub id : String
  pub tenant_id : String
  pub user_id : String
  pub room_id : String
  pub instructor_id : String
  pub title : String
  pub start_at : Time
  pub end_at : Time
  pub capacity : ℤ
  pub attendees : ℤ
  pub status : BookingStatus
  pub hold_expires_at : Option Time
  pub reschedule_count : ℤ
  pub version : ℤ
  pub created_at : Time
  pub updated_at : Time
  pub cancelled_at : Option Time
  pub checked_in_at : Option Time

pub record BookingConflict : Type 0 where
  pub reason : BookingConflictReason
  pub detail : String

pub record AlternativeSlot : Type 0 where
  pub room_id : String
  pub instructor_id : String
  pub start_at : Time
  pub end_at : Time
  pub reason : String

-- `status == model.BookingStatusCancelled || status == model.BookingStatusExpired`
unfoldable pub is_closed : BookingStatus → Bool
is_closed cancelled = true
is_closed expired = true
is_closed _ = false

unfoldable pub is_held : BookingStatus → Bool
is_held held = true
is_held _ = false

unfoldable pub is_confirmed : BookingStatus → Bool
is_confirmed confirmed = true
is_confirmed _ = false

unfoldable pub reason_eq : BookingConflictReason → BookingConflictReason → Bool
reason_eq room room = true
reason_eq instructor instructor = true
reason_eq capacity capacity = true
reason_eq _ _ = false
