-- ===== src/Api/Booking.antt =====
-- repo/backend/internal/api/handlers/booking.go: the handlers of bookings, over any booking store and
-- audit store. ToLower, TrimSpace and time.Parse are parameters. A handler takes the instants of its
-- calls of time.Now.

pub mod Access
pub mod Trail
pub mod Requests
pub mod History
use training_ops_scheduling.Base.{
  String, Bool, true, false, not, ◌||◌, Option, none, some, List, [], ◌∷◌, str_eq, ltb, ◌==◌,
  if◌then◌else◌,
}
use training_ops_scheduling.Base.Int.{ℤ, pos}
use training_ops_scheduling.Base.Result.{Result, ok, err}
use training_ops_scheduling.Clock.{Time, after}
use training_ops_scheduling.Booking.Data.{Booking, BookingStatus}
use training_ops_scheduling.Booking.Store.{BookingStore, BookingError, Error?}
use training_ops_scheduling.Booking.Service
use training_ops_scheduling.Booking.Service.{HoldReply, default_hold_ttl}
use training_ops_scheduling.Audit.Trail.{AuditStore, AuditRecorder, Metadata, record_transition}
use training_ops_scheduling.Api.Http.{
  Caller, context_tenant, Body, Response, json_error, actor_user, actor_role, audit_metadata,
  plain_metadata,
}

pub record BookingRequest : Type 0 where
  pub booking_id : String
  pub room_id : String
  pub instructor_id : String
  pub title : String
  pub start_at : String
  pub end_at : String
  pub capacity : ℤ
  pub attendees : ℤ
  pub why : String

pub record RescheduleRequest : Type 0 where
  pub booking_id : String
  pub new_start : String
  pub new_end : String
  pub why : String

-- `string(booking.Status)`
unfoldable pub status_name : BookingStatus → String
status_name BookingStatus.held = "held"
status_name BookingStatus.confirmed = "confirmed"
status_name BookingStatus.checked_in = "checked_in"
status_name BookingStatus.cancelled = "cancelled"
status_name BookingStatus.expired = "expired"

-- The first layout that reads the text.
unfoldable pub first_layout : (String → Option Time) → List String → Option Time
first_layout parse [] = none
first_layout parse (layout ∷ rest) = elim (parse layout) [
  | some t ↦ some t
  | none ↦ first_layout parse rest
]

-- The stores behind the handlers.
pub record Backend (S A : Type 0) : Type 0 where
  pub bookings : S
  pub audit : AuditRecorder A

module _ (trim_space : String → String) (parse : String → String → Option Time) where
  -- An empty text is the zero time; an error is `none`.
  unfoldable pub parse_flex_time : String → Option Time
  unfolding first_layout
  parse_flex_time text =
      let val = trim_space text in
      if str_eq val ""
      then some 0
      else first_layout (λ layout. parse layout val)
          ("2006-01-02T15:04:05Z07:00" ∷ "2006-01-02T15:04" ∷ "2006-01-02T15:04:05" ∷ "2006-01-02"
            ∷ [])

module _ (to_lower trim_space : String → String) where
  -- `nil` is `none`.
  unfoldable pub authorize_booking_access : Caller → String → String → Option String
  unfolding context_tenant actor_role actor_user
  authorize_booking_access c resource_tenant_id resource_user_id = elim (context_tenant c) [
    | none ↦ some "missing tenant claims"
    | some tenant_id ↦
        if not (str_eq tenant_id resource_tenant_id)
        then some "tenant mismatch"
        else if str_eq (actor_role to_lower trim_space c) "admin"
        then none
        else if str_eq resource_user_id ""
            || str_eq (actor_user trim_space c) ""
            || not (str_eq resource_user_id (actor_user trim_space c))
        then some "booking ownership mismatch"
        else none
  ]

-- The booking that Hold asks the service for. Its zero status, and the other fields that are not
-- named in the code, are replaced by the store.
unfoldable pub wanted : (String → String) → Caller → BookingRequest → String → Time → Time → Booking
unfolding actor_user
wanted trim_space c req tenant_id start_at end_at = record {
  id = "";
  tenant_id = tenant_id;
  user_id = actor_user trim_space c;
  room_id = req.room_id;
  instructor_id = req.instructor_id;
  title = req.title;
  start_at = start_at;
  end_at = end_at;
  capacity = req.capacity;
  attendees = req.attendees;
  status = BookingStatus.held;
  hold_expires_at = none;
  reschedule_count = pos 0;
  version = pos 0;
  created_at = 0;
  updated_at = 0;
  cancelled_at = none;
  checked_in_at = none;
}

module _ (to_lower trim_space : String → String) (parse : String → String → Option Time)
    (store : BookingStore) {A : Type 0} (audit_store : Option (AuditStore A)) where
  open store use {State}

  abbrev Reply : Type 0
  Reply = Backend State A × Response

  -- What Confirm, Cancel, Reschedule and CheckIn do once the booking is read.
  unfoldable pub on_resource :
      Caller → Result BookingError Booking → (Booking → Reply) → Backend State A → Reply
  unfolding authorize_booking_access json_error
  on_resource c (err e) next s = (s, json_error 404 "Booking not found")
  on_resource c (ok resource) next s =
      elim (authorize_booking_access to_lower trim_space c resource.tenant_id resource.user_id) [
        | some e ↦ (s, json_error 403 "Access denied")
        | none ↦ next resource
      ]

  -- How they begin: the tenant, a test of the request, and the booking.
  unfoldable pub on_booking :
      Caller → String → Bool → String → (String → Booking → Reply) → Backend State A → Reply
  unfolding context_tenant on_resource json_error
  on_booking c booking_id malformed complaint next s = elim (context_tenant c) [
    | none ↦ (s, json_error 401 "tenant context required")
    | some tenant_id ↦
        if malformed
        then (s, json_error 400 complaint)
        else on_resource c (store.get_booking tenant_id booking_id s.bookings) (next tenant_id) s
  ]

  unfoldable pub record_booking :
      String
      → String
      → String
      → String
      → String
      → Metadata
      → Time
      → AuditRecorder A
      → AuditRecorder A
  unfolding record_transition
  record_booking action booking_id tenant_id old_state new_state md now r =
      record_transition audit_store action "booking" booking_id tenant_id old_state new_state md now
        r

  -- The end of Confirm, Cancel and CheckIn, after the service's method.
  unfoldable pub settle :
      State × Error?
      → String
      → (AuditRecorder A → AuditRecorder A)
      → String
      → Backend State A
      → Reply
  unfolding json_error
  settle result refusal recorded done s = elim (result.1) [
    | some e ↦ (record s { bookings = result.0 }, json_error 409 refusal)
    | none ↦ (
      record { bookings = result.0; audit = recorded s.audit },
      record { code = 200; body = Body.status_text done },
    )
  ]

  unfoldable pub confirm : Caller → Option BookingRequest → Time → Time → Backend State A → Reply
  unfolding on_booking settle record_booking status_name audit_metadata Service.confirm json_error
  confirm c none now recorded_at s = (s, json_error 400 "invalid request body")
  confirm c (some req) now recorded_at s =
      on_booking c req.booking_id (str_eq (trim_space req.booking_id) "") "booking_id is required"
        (λ tenant_id resource.
          settle (Service.confirm store tenant_id req.booking_id now s.bookings)
            "Unable to confirm booking"
            (record_booking "booking_confirmed" req.booking_id tenant_id
              (status_name resource.status) (status_name BookingStatus.confirmed)
              (audit_metadata trim_space c req.why) recorded_at)
            "confirmed" s)
        s

  unfoldable pub cancel : Caller → Option BookingRequest → Time → Time → Backend State A → Reply
  unfolding on_booking settle record_booking status_name audit_metadata Service.cancel json_error
  cancel c none now recorded_at s = (s, json_error 400 "invalid request body")
  cancel c (some req) now recorded_at s =
      on_booking c req.booking_id (str_eq (trim_space req.booking_id) "") "booking_id is required"
        (λ tenant_id resource.
          settle (Service.cancel store tenant_id req.booking_id now s.bookings)
            "Unable to cancel booking"
            (record_booking "booking_cancelled" req.booking_id tenant_id
              (status_name resource.status) (status_name BookingStatus.cancelled)
              (audit_metadata trim_space c req.why) recorded_at)
            "cancelled" s)
        s

  -- `c.Param("id")` is an argument.
  unfoldable pub check_in : Caller → String → Time → Time → Backend State A → Reply
  unfolding on_booking settle record_booking status_name plain_metadata Service.check_in
  check_in c param now recorded_at s =
      let booking_id = trim_space param in
      on_booking c booking_id (str_eq booking_id "") "booking id is required"
        (λ tenant_id resource.
          settle (Service.check_in store tenant_id booking_id now s.bookings)
            "Only confirmed bookings can be checked in"
            (record_booking "booking_checked_in" booking_id tenant_id (status_name resource.status)
              (status_name BookingStatus.checked_in) (plain_metadata c) recorded_at)
            "checked_in" s)
        s

  unfoldable pub moved :
      State × Result BookingError Booking
      → (Booking → AuditRecorder A → AuditRecorder A)
      → Backend State A
      → Reply
  unfolding json_error
  moved result recorded s = elim (result.1) [
    | err e ↦ (record s { bookings = result.0 }, json_error 409 "Unable to reschedule booking")
    | ok booking ↦ (
      record { bookings = result.0; audit = recorded booking s.audit },
      record { code = 200; body = Body.booking booking },
    )
  ]

  reschedule_between :
      Caller → RescheduleRequest → Time → Time → Time → Time → Backend State A → Reply
  unfolding on_booking moved record_booking status_name audit_metadata Service.reschedule
  reschedule_between c req new_start new_end now recorded_at s =
      on_booking c req.booking_id
        (str_eq (trim_space req.booking_id) ""
          || new_start == 0
          || new_end == 0
          || not (after new_end new_start))
        "booking_id and valid new_start/new_end are required"
        (λ tenant_id resource.
          moved (Service.reschedule store tenant_id req.booking_id new_start new_end now s.bookings)
            (λ booking.
              record_booking "booking_rescheduled" req.booking_id tenant_id
                (status_name resource.status) (status_name booking.status)
                (audit_metadata trim_space c req.why) recorded_at)
            s)
        s

  unfoldable pub reschedule :
      Caller → Option RescheduleRequest → Time → Time → Backend State A → Reply
  unfolding reschedule_between parse_flex_time json_error
  reschedule c none now recorded_at s = (s, json_error 400 "invalid request body")
  reschedule c (some req) now recorded_at s =
      elim (parse_flex_time trim_space parse req.new_start) [
        | none ↦ (s, json_error 400 "invalid new_start format")
        | some new_start ↦ elim (parse_flex_time trim_space parse req.new_end) [
          | none ↦ (s, json_error 400 "invalid new_end format")
          | some new_end ↦ reschedule_between c req new_start new_end now recorded_at s
        ]
      ]

  -- A hold without an error has a booking; a nil one would end the request with a panic.
  unfoldable pub held_response :
      Caller → BookingRequest → String → Time → State × HoldReply → Backend State A → Reply
  unfolding record_booking status_name audit_metadata json_error
  held_response c req tenant_id recorded_at (bookings, reply) s = elim reply.error [
    | some e ↦ (
      record {
        bookings = bookings;
        audit =
            record_booking "booking_hold_failed" req.booking_id tenant_id "" ""
              (audit_metadata trim_space c req.why) recorded_at s.audit;
      },
      record { code = 409; body = Body.conflicts reply.conflicts reply.alternatives },
    )
    | none ↦ elim reply.booking [
      | none ↦ (record s { bookings = bookings }, json_error 500 "panic")
      | some booking ↦ (
        record {
          bookings = bookings;
          audit =
              record_booking "booking_held" booking.id tenant_id "" (status_name booking.status)
                (audit_metadata trim_space c req.why) recorded_at s.audit;
        },
        record { code = 201; body = Body.booking booking },
      )
    ]
  ]

  hold_between : Caller → BookingRequest → Time → Time → Time → Time → Backend State A → Reply
  unfolding context_tenant held_response wanted Service.hold json_error
  hold_between c req start_at end_at now recorded_at s = elim (context_tenant c) [
    | none ↦ (s, json_error 400 "room_id, instructor_id, and title are required")
    | some tenant_id ↦
        if str_eq req.room_id "" || str_eq req.instructor_id "" || str_eq req.title ""
        then (s, json_error 400 "room_id, instructor_id, and title are required")
        else held_response c req tenant_id recorded_at
            (Service.hold store default_hold_ttl (wanted trim_space c req tenant_id start_at end_at)
              now s.bookings)
            s
  ]

  unfoldable pub hold : Caller → Option BookingRequest → Time → Time → Backend State A → Reply
  unfolding hold_between parse_flex_time json_error
  hold c none now recorded_at s = (s, json_error 400 "invalid request body")
  hold c (some req) now recorded_at s = elim (parse_flex_time trim_space parse req.start_at) [
    | none ↦ (s, json_error 400 "invalid start_at format. use YYYY-MM-DDTHH:MM or RFC3339")
    | some start_at ↦ elim (parse_flex_time trim_space parse req.end_at) [
      | none ↦ (s, json_error 400 "invalid end_at format. use YYYY-MM-DDTHH:MM or RFC3339")
      | some end_at ↦ hold_between c req start_at end_at now recorded_at s
    ]
  ]

  unfoldable pub list_rooms : Caller → Backend State A → Response
  unfolding context_tenant json_error
  list_rooms c s = elim (context_tenant c) [
    | none ↦ json_error 401 "tenant context required"
    | some tenant_id ↦ elim (store.list_rooms tenant_id s.bookings) [
      | err e ↦ json_error 500 "Unable to list rooms"
      | ok rooms ↦ record { code = 200; body = Body.rooms rooms }
    ]
  ]

  unfoldable pub list_instructors : Caller → Backend State A → Response
  unfolding context_tenant json_error
  list_instructors c s = elim (context_tenant c) [
    | none ↦ json_error 401 "tenant context required"
    | some tenant_id ↦ elim (store.list_instructors tenant_id s.bookings) [
      | err e ↦ json_error 500 "Unable to list instructors"
      | ok instructors ↦ record { code = 200; body = Body.instructors instructors }
    ]
  ]
