-- ===== src/Api/Booking/Requests.antt =====
-- Requests for bookings over the store on Postgres: the handlers, the service and the store together.
use training_ops_scheduling.Base.{
  ◌*◌, String, Bool, not, ◌||◌, ◌≡◌, refl, inl, inr, Option, none, some, str_eq, Bool-cases,
  Option-cases,
}
use training_ops_scheduling.Base.Int.{pos, ltb_ℤ}
use training_ops_scheduling.Base.Result.{Result, ok, err, Result-cases}
use training_ops_scheduling.Clock.{Time, sub, hour}
use training_ops_scheduling.Booking.Data.{Booking, BookingStatus}
use training_ops_scheduling.Booking.Store.{BookingStore, BookingError, Error?}
use training_ops_scheduling.Booking.Service
use training_ops_scheduling.Booking.Service.{HoldReply, default_hold_ttl}
use training_ops_scheduling.Booking.Postgres.Tables.{Database, Server}
use training_ops_scheduling.Booking.Postgres.Methods
use training_ops_scheduling.Booking.Postgres.Methods.{postgres_store}
use training_ops_scheduling.Booking.Postgres.History.{
  Step, hold, confirmed, cancelled, checked_in, rescheduled, settled,
}
use training_ops_scheduling.Audit.Trail.{AuditStore, AuditRecorder}
use training_ops_scheduling.Api.Http.{
  Caller, context_tenant, Response, audit_metadata, plain_metadata,
}
use training_ops_scheduling.Api.Booking
use training_ops_scheduling.Api.Booking.{
  Backend, BookingRequest, RescheduleRequest, authorize_booking_access, on_resource, on_booking,
  settle, moved, record_booking, status_name, held_response, hold_between, reschedule_between,
  parse_flex_time, wanted,
}

module _ (to_lower trim_space : String → String) (parse : String → String → Option Time)
    (server : Server) {A : Type 0} (audit_store : Option (AuditStore A)) where
  abbrev pub store : BookingStore
  store = postgres_store server

  -- The bookings after the handler are those before it, or those that one method of the store leaves.
  pub data Serves (now : Time) (s : Backend Database A)
      : Backend Database A × Response → Type 0 where
    serves :
        {s' : Backend Database A} {response : Response}
        → Step server now s.bookings s'.bookings
        → Serves now s (s', response)

  unchanged : (now : Time) (db : Database) → Step server now db db
  unchanged now db = settled db refl

  still : (now : Time) (s : Backend Database A) (response : Response) → Serves now s (s, response)
  still now s response = serves (unchanged now s.bookings)

  on_booking-Serves :
      (c : Caller) (now : Time) (s : Backend Database A) (booking_id : String) (malformed : Bool)
      (complaint : String) (next_ : String → Booking → Backend Database A × Response)
      → ((t : String) (b : Booking) → Serves now s (next_ t b))
      → Serves now s (
          on_booking to_lower trim_space parse store audit_store c booking_id malformed complaint
            next_ s)
  unfolding on_booking on_resource
  on_booking-Serves c now s booking_id malformed complaint next_ h =
      elim (Option-cases (context_tenant c)) [
        | inl e ↦ rw (e, on_booking) (still now s _)
        | inr (t, e) ↦ elim (Bool-cases malformed) [
          | inl m ↦ rw (e, on_booking, m) (still now s _)
          | inr m ↦ elim (Result-cases (Methods.get_booking server t booking_id s.bookings)) [
            | inl (x, g) ↦ rw (e, on_booking, m, g, on_resource) (still now s _)
            | inr (b, g) ↦
                elim (Option-cases
                  (authorize_booking_access to_lower trim_space c b.tenant_id b.user_id)) [
                    | inr (x, a) ↦ rw (e, on_booking, m, g, on_resource, a) (still now s _)
                    | inl a ↦ rw (e, on_booking, m, g, on_resource, a) (h t b)
                  ]
          ]
        ]
      ]

  settle-Serves :
      (now : Time) (s : Backend Database A) (result : Database × Error?) (refusal done : String)
      (recorded : AuditRecorder A → AuditRecorder A)
      → Step server now s.bookings result.0
      → Serves now s
          (settle to_lower trim_space parse store audit_store result refusal recorded done s)
  unfolding settle
  settle-Serves now s (db, none) refusal done recorded h = serves h
  settle-Serves now s (db, some e) refusal done recorded h = serves h

  moved-Serves :
      (now : Time) (s : Backend Database A) (result : Database × Result BookingError Booking)
      (recorded : Booking → AuditRecorder A → AuditRecorder A)
      → Step server now s.bookings result.0
      → Serves now s (moved to_lower trim_space parse store audit_store result recorded s)
  unfolding moved
  moved-Serves now s (db, ok b) recorded h = serves h
  moved-Serves now s (db, err e) recorded h = serves h

  cancel-Step :
      (now : Time) (t i : String) (db : Database)
      → Step server now db (Service.cancel store t i now db).0
  unfolding Service.cancel
  cancel-Step now t i db = elim (Result-cases (Methods.get_booking server t i db)) [
    | inl (e, g) ↦ rw (g, Service.cancel) (unchanged now db)
    | inr (b, g) ↦ elim (Bool-cases (ltb_ℤ (sub b.start_at now) (pos (24 * hour)))) [
      | inl late ↦ rw (g, Service.cancel, late) (unchanged now db)
      | inr early ↦ rw (g, Service.cancel, early) (cancelled t i)
    ]
  ]

  reschedule-Step :
      (now : Time) (t i : String) (new_start new_end : Time) (db : Database)
      → Step server now db (Service.reschedule store t i new_start new_end now db).0
  unfolding Service.reschedule
  reschedule-Step now t i new_start new_end db =
      elim (Result-cases (Methods.get_booking server t i db)) [
        | inl (e, g) ↦ rw (g, Service.reschedule) (unchanged now db)
        | inr (b, g) ↦ elim (Bool-cases (not (ltb_ℤ b.reschedule_count (pos 2)))) [
          | inl late ↦ rw (g, Service.reschedule, late) (unchanged now db)
          | inr early ↦ rw (g, Service.reschedule, early) (rescheduled t i new_start new_end)
        ]
      ]

  -- The request names its room and its instructor the way the server prints them.
  pub record NamesIds (req : BookingRequest) : Type 0 where
    pub room_id : server.uuid req.room_id ≡ some req.room_id
    pub instructor_id : server.uuid req.instructor_id ≡ some req.instructor_id

  held_response-Serves :
      (c : Caller) (req : BookingRequest) (tenant_id : String) (now recorded_at : Time)
      (result : Database × HoldReply) (s : Backend Database A)
      → Step server now s.bookings result.0
      → Serves now s (
          held_response to_lower trim_space parse store audit_store c req tenant_id recorded_at
            result s)
  unfolding held_response
  held_response-Serves c req tenant_id now recorded_at (db, reply) s h =
      elim (Option-cases reply.error) [
        | inr (e, x) ↦ rw (x, held_response) (serves h)
        | inl x ↦ elim (Option-cases reply.booking) [
          | inl y ↦ rw (x, y, held_response) (serves h)
          | inr (b, y) ↦ rw (x, y, held_response) (serves h)
        ]
      ]

  hold_between-Serves :
      (c : Caller) (req : BookingRequest) (start_at end_at now recorded_at : Time)
      (s : Backend Database A)
      → NamesIds req
      → Serves now s (
          hold_between to_lower trim_space parse store audit_store c req start_at end_at now
            recorded_at s)
  unfolding hold_between Service.hold wanted
  hold_between-Serves c req start_at end_at now recorded_at s ids =
      elim (Option-cases (context_tenant c)) [
        | inl e ↦ rw (e, hold_between) (still now s _)
        | inr (t, e) ↦
            elim (Bool-cases
              (str_eq req.room_id "" || str_eq req.instructor_id "" || str_eq req.title "")) [
                | inl m ↦ rw (e, hold_between, m) (still now s _)
                | inr m ↦
                    rw (e, hold_between, m)
                      (held_response-Serves c req t now recorded_at
                        (Service.hold store default_hold_ttl
                          (wanted trim_space c req t start_at end_at) now s.bookings)
                        s
                        (hold (wanted trim_space c req t start_at end_at) default_hold_ttl
                          (record { room_id = ids.room_id; instructor_id = ids.instructor_id })))
              ]
      ]

  pub hold-Serves :
      (c : Caller) (req : Option BookingRequest) (now recorded_at : Time) (s : Backend Database A)
      → ((r : BookingRequest) → req ≡ some r → NamesIds r)
      → Serves now s
          (Booking.hold to_lower trim_space parse store audit_store c req now recorded_at s)
  unfolding Booking.hold
  hold-Serves c none now recorded_at s ids = still now s _
  hold-Serves c (some req) now recorded_at s ids =
      elim (Option-cases (parse_flex_time trim_space parse req.start_at)) [
        | inl p ↦ rw (p, Booking.hold) (still now s _)
        | inr (start, p) ↦ elim (Option-cases (parse_flex_time trim_space parse req.end_at)) [
          | inl q ↦ rw (p, q, Booking.hold) (still now s _)
          | inr (end_, q) ↦
              rw (p, q, Booking.hold)
                (hold_between-Serves c req start end_ now recorded_at s (ids req refl))
        ]
      ]

  pub reschedule-Serves :
      (c : Caller) (req : Option RescheduleRequest) (now recorded_at : Time)
      (s : Backend Database A)
      → Serves now s
          (Booking.reschedule to_lower trim_space parse store audit_store c req now recorded_at s)
  unfolding Booking.reschedule reschedule_between
  reschedule-Serves c none now recorded_at s = still now s _
  reschedule-Serves c (some req) now recorded_at s =
      elim (Option-cases (parse_flex_time trim_space parse req.new_start)) [
        | inl p ↦ rw (p, Booking.reschedule) (still now s _)
        | inr (start, p) ↦ elim (Option-cases (parse_flex_time trim_space parse req.new_end)) [
          | inl q ↦ rw (p, q, Booking.reschedule) (still now s _)
          | inr (end_, q) ↦
              rw (p, q, Booking.reschedule)
                (on_booking-Serves c now s _ _ _ _ λ t b.
                  moved-Serves now s
                    (Service.reschedule store t req.booking_id start end_ now s.bookings)
                    (λ x.
                      record_booking to_lower trim_space parse store audit_store
                        "booking_rescheduled" req.booking_id t (status_name b.status)
                        (status_name x.status) (audit_metadata trim_space c req.why) recorded_at)
                    (reschedule-Step now t req.booking_id start end_ s.bookings))
        ]
      ]

  pub confirm-Serves :
      (c : Caller) (req : Option BookingRequest) (now recorded_at : Time) (s : Backend Database A)
      → Serves now s
          (Booking.confirm to_lower trim_space parse store audit_store c req now recorded_at s)
  unfolding Booking.confirm Service.confirm
  confirm-Serves c none now recorded_at s = still now s _
  confirm-Serves c (some req) now recorded_at s = on_booking-Serves c now s _ _ _ _ λ t b.
      settle-Serves now s (Service.confirm store t req.booking_id now s.bookings)
        "Unable to confirm booking" "confirmed"
        (record_booking to_lower trim_space parse store audit_store "booking_confirmed"
          req.booking_id t (status_name b.status) (status_name BookingStatus.confirmed)
          (audit_metadata trim_space c req.why) recorded_at)
        (confirmed t req.booking_id)

  pub cancel-Serves :
      (c : Caller) (req : Option BookingRequest) (now recorded_at : Time) (s : Backend Database A)
      → Serves now s
          (Booking.cancel to_lower trim_space parse store audit_store c req now recorded_at s)
  unfolding Booking.cancel
  cancel-Serves c none now recorded_at s = still now s _
  cancel-Serves c (some req) now recorded_at s = on_booking-Serves c now s _ _ _ _ λ t b.
      settle-Serves now s (Service.cancel store t req.booking_id now s.bookings)
        "Unable to cancel booking" "cancelled"
        (record_booking to_lower trim_space parse store audit_store "booking_cancelled"
          req.booking_id t (status_name b.status) (status_name BookingStatus.cancelled)
          (audit_metadata trim_space c req.why) recorded_at)
        (cancel-Step now t req.booking_id s.bookings)

  pub check_in-Serves :
      (c : Caller) (param : String) (now recorded_at : Time) (s : Backend Database A)
      → Serves now s
          (Booking.check_in to_lower trim_space parse store audit_store c param now recorded_at s)
  unfolding Booking.check_in Service.check_in
  check_in-Serves c param now recorded_at s = on_booking-Serves c now s _ _ _ _ λ t b.
      settle-Serves now s (Service.check_in store t (trim_space param) now s.bookings)
        "Only confirmed bookings can be checked in" "checked_in"
        (record_booking to_lower trim_space parse store audit_store "booking_checked_in"
          (trim_space param) t (status_name b.status) (status_name BookingStatus.checked_in)
          (plain_metadata c) recorded_at)
        (checked_in t (trim_space param))
