-- ===== src/Api/Booking/History.antt =====
-- Histories of requests: whatever is asked of the handlers, no room and no instructor is booked twice.
use training_ops_scheduling.Base.{String, ◌≤◌, ◌≡◌, Option, some, []}
use training_ops_scheduling.Clock.{Time}
use training_ops_scheduling.Booking.Postgres.Tables.{Database, Server}
use training_ops_scheduling.Booking.Postgres.Methods.{postgres_store, expire_held_bookings}
use training_ops_scheduling.Booking.Postgres.Exclusion.{WellFormed}
use training_ops_scheduling.Booking.Postgres.History.{NewIds, Step, expired, Reach-WellFormed}
use training_ops_scheduling.Booking.Postgres.History
use training_ops_scheduling.Audit.Trail.{AuditStore, AuditRecorder}
use training_ops_scheduling.Api.Http.{Caller}
use training_ops_scheduling.Api.Booking
use training_ops_scheduling.Api.Booking.{Backend, BookingRequest, RescheduleRequest}
use training_ops_scheduling.Api.Booking.Requests.{
  NamesIds, Serves, serves, hold-Serves, reschedule-Serves, confirm-Serves, cancel-Serves,
  check_in-Serves,
}

module _ (to_lower trim_space : String → String) (parse : String → String → Option Time)
    (server : Server) {A : Type 0} (audit_store : Option (AuditStore A)) where
  -- A request that is handled at the time `now`, or a sweep of the worker.
  pub data Handled (now : Time) (s : Backend Database A) : Backend Database A → Type 0 where
    hold :
        (c : Caller) (req : Option BookingRequest) (recorded_at : Time)
        → ((r : BookingRequest)
            → req ≡ some r
            → NamesIds to_lower trim_space parse server audit_store r)
        → Handled now s
            (Booking.hold to_lower trim_space parse
              (postgres_store server)
              audit_store
              c
              req
              now
              recorded_at
              s).0
    confirm :
        (c : Caller) (req : Option BookingRequest) (recorded_at : Time)
        → Handled now s
            (Booking.confirm to_lower trim_space parse
              (postgres_store server)
              audit_store
              c
              req
              now
              recorded_at
              s).0
    cancel :
        (c : Caller) (req : Option BookingRequest) (recorded_at : Time)
        → Handled now s
            (Booking.cancel to_lower trim_space parse
              (postgres_store server)
              audit_store
              c
              req
              now
              recorded_at
              s).0
    reschedule :
        (c : Caller) (req : Option RescheduleRequest) (recorded_at : Time)
        → Handled now s
            (Booking.reschedule to_lower trim_space parse
              (postgres_store server)
              audit_store
              c
              req
              now
              recorded_at
              s).0
    check_in :
        (c : Caller) (param : String) (recorded_at : Time)
        → Handled now s
            (Booking.check_in to_lower trim_space parse
              (postgres_store server)
              audit_store
              c
              param
              now
              recorded_at
              s).0
    swept :
        (trail : AuditRecorder A)
        → Handled now s
            (record { bookings = (expire_held_bookings now s.bookings).0; audit = trail })

  -- What requests lead to, one after the other and the clock never running backwards.
  pub data Asked : Time → Backend Database A → Type 0 where
    fresh : (now : Time) (s : Backend Database A) → s.bookings.bookings ≡ [] → Asked now s
    more :
        {now : Time} {s : Backend Database A} (later : Time) {s' : Backend Database A}
        → Asked now s
        → now ≤ later
        → Handled later s s'
        → Asked later s'

  Serves_step :
      (now : Time) (s : Backend Database A) (reply : Backend Database A × Booking.Response)
      → Serves to_lower trim_space parse server audit_store now s reply
      → Step server now s.bookings reply.0.bookings
  Serves_step now s _ (serves h) = h

  Handled-Step :
      (now : Time) (s s' : Backend Database A)
      → Handled now s s'
      → Step server now s.bookings s'.bookings
  Handled-Step now s _ (hold c req at ids) =
      Serves_step now s _
        (hold-Serves to_lower trim_space parse server audit_store c req now at s ids)
  Handled-Step now s _ (confirm c req at) =
      Serves_step now s _
        (confirm-Serves to_lower trim_space parse server audit_store c req now at s)
  Handled-Step now s _ (cancel c req at) =
      Serves_step now s _
        (cancel-Serves to_lower trim_space parse server audit_store c req now at s)
  Handled-Step now s _ (reschedule c req at) =
      Serves_step now s _
        (reschedule-Serves to_lower trim_space parse server audit_store c req now at s)
  Handled-Step now s _ (check_in c param at) =
      Serves_step now s _
        (check_in-Serves to_lower trim_space parse server audit_store c param now at s)
  Handled-Step now s _ (swept trail) = expired

  Asked-Reach :
      (now : Time) (s : Backend Database A) → Asked now s → History.Reach server now s.bookings
  Asked-Reach now s (fresh _ _ e) = History.start now s.bookings e
  Asked-Reach now s (more {now = before} {s = old} _ path h step) =
      History.next now (Asked-Reach before old path) h (Handled-Step now old s step)

  -- Whatever requests the handlers of bookings and sweeps of the worker ran, one at a time, since the
  -- table was empty: no two active bookings of a tenant overlap in time and share a room or an
  -- instructor, where requests for holds name their room and instructor as the server prints them.
  pub Asked-WellFormed :
      (now : Time) (s : Backend Database A)
      → NewIds server
      → Asked now s
      → WellFormed server now s.bookings
  Asked-WellFormed now s new_ids path =
      Reach-WellFormed server now s.bookings new_ids (Asked-Reach now s path)
