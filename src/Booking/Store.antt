-- ===== src/Booking/Store.antt =====
-- repo/backend/internal/repository/interfaces.go: the BookingStore interface. A method takes the
-- store's state and returns the new one; a method that only reads returns no state.
use training_ops_scheduling.Base.{ℕ, String, Option, List}
use training_ops_scheduling.Base.Result.{Result}
use training_ops_scheduling.Clock.{Time, Duration}
use training_ops_scheduling.Booking.Data.{Booking, Room, Instructor, BookingConflict}

-- The errors that the booking code returns; `other` is any error of a store's own.
pub data BookingError : Type 0 where
  booking_not_found booking_conflict : BookingError
  reschedule_limit_reached cancellation_closed : BookingError
  other : String → BookingError

-- A refusal comes with the conflicts that were found, none if the store itself failed.
pub data HoldResult : Type 0 where
  placed : Booking → HoldResult
  refused : List BookingConflict → BookingError → HoldResult

-- A method that returns only an error: `nil` is `none`.
abbrev pub Error? : Type 0
Error? = Option BookingError

pub record BookingStore : Type 1 where
  pub State : Type 0
  pub get_booking : String → String → State → Result BookingError Booking
  pub create_hold : Booking → Duration → Time → State → State × HoldResult
  pub confirm : String → String → Time → State → State × Error?
  pub cancel : String → String → Time → State → State × Error?
  pub check_in : String → String → Time → State → State × Error?
  pub reschedule :
      String → String → Time → Time → Time → State → State × Result BookingError Booking
  pub release_expired_holds : Time → State → State × Result BookingError ℕ
  pub list_bookings : String → State → Result BookingError (List Booking)
  pub list_rooms : String → State → Result BookingError (List Room)
  pub list_instructors : String → State → Result BookingError (List Instructor)
