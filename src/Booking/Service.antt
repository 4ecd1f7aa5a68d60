-- ===== src/Booking/Service.antt =====
-- repo/backend/internal/service/booking.go: the booking service over any booking store.
pub mod Alternatives
pub mod Policy
pub mod Race
pub mod History
use training_ops_scheduling.Base.{
  ℕ, ◌*◌, String, not, Option, none, some, List, [], ◌∷◌, if◌then◌else◌,
}
use training_ops_scheduling.Base.Int.{ℤ, pos, ltb_ℤ}
use training_ops_scheduling.Base.Result.{Result, ok, err}
use training_ops_scheduling.Clock.{Time, Duration, sub, hour, minute}
use training_ops_scheduling.Booking.Data.{Booking, BookingConflict, AlternativeSlot}
use training_ops_scheduling.Booking.Store.{BookingStore, BookingError, HoldResult, Error?}
use Alternatives.{suggest_alternatives}

-- `5 * time.Minute`, which NewBookingService sets.
abbrev pub default_hold_ttl : Duration
default_hold_ttl = 300000000000

-- The four values that Hold returns; a zero booking is `none`.
pub record HoldReply : Type 0 where
  pub booking : Option Booking
  pub conflicts : List BookingConflict
  pub alternatives : List AlternativeSlot
  pub error : Error?

module _ (store : BookingStore) where
  open store use {State}

  hold_refused : Booking → Time → List BookingConflict → BookingError → State → HoldReply
  unfolding suggest_alternatives
  hold_refused booking now [] e s = record {
    booking = none;
    conflicts = [];
    alternatives = [];
    error = some e;
  }
  hold_refused booking now (c ∷ cs) e s = elim (suggest_alternatives store booking now s) [
    | err alt_err ↦ record {
      booking = none;
      conflicts = c ∷ cs;
      alternatives = [];
      error = some alt_err;
    }
    | ok slots ↦ record { booking = none; conflicts = c ∷ cs; alternatives = slots; error = some e }
  ]

  hold_reply : Booking → Time → State → HoldResult → HoldReply
  unfolding hold_refused
  hold_reply booking now s (HoldResult.placed held) = record {
    booking = some held;
    conflicts = [];
    alternatives = [];
    error = none;
  }
  hold_reply booking now s (HoldResult.refused conflicts e) = hold_refused booking now conflicts e s

  unfoldable pub hold : Duration → Booking → Time → State → State × HoldReply
  unfolding hold_reply
  hold hold_ttl booking now s =
      let (s', result) = store.create_hold booking hold_ttl now s in
      (s', hold_reply booking now s' result)

  unfoldable pub confirm : String → String → Time → State → State × Error?
  confirm tenant_id booking_id now s = store.confirm tenant_id booking_id now s

  unfoldable pub cancel : String → String → Time → State → State × Error?
  unfolding sub
  cancel tenant_id booking_id now s = elim (store.get_booking tenant_id booking_id s) [
    | err e ↦ (s, some e)
    | ok booking ↦
        if ltb_ℤ (sub booking.start_at now) (pos (24 * hour))
        then (s, some BookingError.cancellation_closed)
        else store.cancel tenant_id booking_id now s
  ]

  unfoldable pub check_in : String → String → Time → State → State × Error?
  check_in tenant_id booking_id now s = store.check_in tenant_id booking_id now s

  unfoldable pub reschedule :
      String → String → Time → Time → Time → State → State × Result BookingError Booking
  reschedule tenant_id booking_id new_start new_end now s =
      elim (store.get_booking tenant_id booking_id s) [
        | err e ↦ (s, err e)
        | ok booking ↦
            if not (ltb_ℤ booking.reschedule_count (pos 2))
            then (s, err BookingError.reschedule_limit_reached)
            else store.reschedule tenant_id booking_id new_start new_end now s
      ]

  unfoldable pub release_expired_holds : Time → State → State × Result BookingError ℕ
  release_expired_holds now s = store.release_expired_holds now s
