-- ===== src/Api/Booking/Trail.antt =====
-- What the handlers of bookings write to the audit trail.
use training_ops_scheduling.Base.{
  String, Bool, ◌≡◌, ◌≢◌, refl, inl, inr, Option, none, some, [], ◌∷◌, ◌++◌, arith, Bool-cases,
  Option-cases,
}
use training_ops_scheduling.Base.Result.{Result, ok, err, Result-cases}
use training_ops_scheduling.Clock.{Time}
use training_ops_scheduling.Booking.Data.{Booking, BookingStatus}
use training_ops_scheduling.Booking.Store.{BookingStore, BookingError, Error?}
use training_ops_scheduling.Booking.Service
use training_ops_scheduling.Audit.Trail.{AuditStore, AuditEntry, Metadata, record_transition}
use training_ops_scheduling.Api.Http.{
  Caller, context_tenant, Response, json_error, audit_metadata, plain_metadata,
}
use training_ops_scheduling.Api.Booking.{
  Backend, BookingRequest, RescheduleRequest, authorize_booking_access, on_resource, on_booking,
  settle, moved, record_booking, status_name, confirm, cancel, check_in, reschedule,
  reschedule_between, parse_flex_time,
}

-- A request that is answered with 200 has added one entry with the action to the trail, for the
-- caller's tenant; any other one has added none.
pub data Audited {S A : Type 0} (c : Caller) (action : String) (s : Backend S A)
    : Backend S A × Response → Type 0 where
  logged :
      {s' : Backend S A} {response : Response} (entry : AuditEntry)
      → response.code ≡ 200
      → entry.action ≡ action
      → context_tenant c ≡ some entry.tenant_id
      → s'.audit.entries ≡ s.audit.entries ++ (entry ∷ [])
      → Audited c action s (s', response)
  silent :
      {s' : Backend S A} {response : Response}
      → response.code ≢ 200
      → s'.audit ≡ s.audit
      → Audited c action s (s', response)

module _ (to_lower trim_space : String → String) (parse : String → String → Option Time)
    (store : BookingStore) {A : Type 0} (audit_store : Option (AuditStore A)) (c : Caller)
    (s : Backend store.State A) where
  on_booking-Audited :
      (action booking_id : String) (malformed : Bool) (complaint : String)
      (next : String → Booking → Backend store.State A × Response)
      → ((t : String) (b : Booking) → context_tenant c ≡ some t → Audited c action s (next t b))
      → Audited c action s (
          on_booking to_lower trim_space parse store audit_store c booking_id malformed complaint
            next s)
  unfolding on_booking on_resource json_error
  on_booking-Audited action booking_id malformed complaint next h =
      elim (Option-cases (context_tenant c)) [
        | inl e ↦ rw (e, on_booking) (silent (λ x. grind arith) refl)
        | inr (t, e) ↦ elim (Bool-cases malformed) [
          | inl m ↦ rw (e, on_booking, m) (silent (λ x. grind arith) refl)
          | inr m ↦ elim (Result-cases (store.get_booking t booking_id s.bookings)) [
            | inl (x, g) ↦ rw (e, on_booking, m, g, on_resource) (silent (λ x. grind arith) refl)
            | inr (b, g) ↦
                elim (Option-cases
                  (authorize_booking_access to_lower trim_space c b.tenant_id b.user_id)) [
                    | inr (x, a) ↦
                        rw (e, on_booking, m, g, on_resource, a) (silent (λ x. grind arith) refl)
                    | inl a ↦ rw (e, on_booking, m, g, on_resource, a) (h t b e)
                  ]
          ]
        ]
      ]

  settle-Audited :
      (action booking_id tenant_id old_state new_state refusal done : String) (md : Metadata)
      (at : Time) (result : store.State × Error?)
      → context_tenant c ≡ some tenant_id
      → Audited c action s (
          settle to_lower trim_space parse store audit_store result refusal
            (record_booking to_lower trim_space parse store audit_store action booking_id tenant_id
              old_state new_state md at)
            done
            s)
  unfolding settle record_booking record_transition json_error
  settle-Audited action booking_id tenant_id old_state new_state refusal done md at (after, none)
        t =
      logged _ refl refl t refl
  settle-Audited action booking_id tenant_id old_state new_state refusal done md at (after, some e)
        t =
      silent (λ x. grind arith) refl

  moved-Audited :
      (booking_id tenant_id old_state : String) (status : Booking → String) (md : Metadata)
      (at : Time) (result : store.State × Result BookingError Booking)
      → context_tenant c ≡ some tenant_id
      → Audited c "booking_rescheduled" s (
          moved to_lower trim_space parse store audit_store result
            (λ booking.
              record_booking to_lower trim_space parse store audit_store "booking_rescheduled"
                booking_id tenant_id old_state
                (status booking)
                md
                at)
            s)
  unfolding moved record_booking record_transition json_error
  moved-Audited booking_id tenant_id old_state status md at (after, ok b) t =
      logged _ refl refl t refl
  moved-Audited booking_id tenant_id old_state status md at (after, err e) t =
      silent (λ x. grind arith) refl

  reschedule-Audited :
      (req : Option RescheduleRequest) (now recorded_at : Time)
      → Audited c "booking_rescheduled" s
          (reschedule to_lower trim_space parse store audit_store c req now recorded_at s)
  unfolding reschedule reschedule_between json_error
  reschedule-Audited none now recorded_at = silent (λ x. grind arith) refl
  reschedule-Audited (some req) now recorded_at =
      elim (Option-cases (parse_flex_time trim_space parse req.new_start)) [
        | inl p ↦ rw (p, reschedule) (silent (λ x. grind arith) refl)
        | inr (start, p) ↦ elim (Option-cases (parse_flex_time trim_space parse req.new_end)) [
          | inl q ↦ rw (p, q, reschedule) (silent (λ x. grind arith) refl)
          | inr (end_, q) ↦
              rw (p, q, reschedule)
                (on_booking-Audited _ _ _ _ _ λ t b e.
                  moved-Audited req.booking_id t (status_name b.status) (λ x. status_name x.status)
                    (audit_metadata trim_space c req.why) recorded_at
                    (Service.reschedule store t req.booking_id start end_ now s.bookings) e)
        ]
      ]

  check_in-Audited :
      (param : String) (now recorded_at : Time)
      → Audited c "booking_checked_in" s
          (check_in to_lower trim_space parse store audit_store c param now recorded_at s)
  unfolding check_in
  check_in-Audited param now recorded_at = on_booking-Audited _ _ _ _ _ λ t b e.
      settle-Audited "booking_checked_in" (trim_space param) t (status_name b.status)
        (status_name BookingStatus.checked_in) "Only confirmed bookings can be checked in"
        "checked_in" (plain_metadata c) recorded_at
        (Service.check_in store t (trim_space param) now s.bookings) e

  -- Confirm, Cancel, Reschedule and CheckIn each add one entry, with the action's name and the
  -- caller's tenant, where they answer with 200, and none where they answer with another status.
  pub one_entry_if_served :
      (req : Option BookingRequest) (move : Option RescheduleRequest) (param : String)
      (now recorded_at : Time)
      → Audited c "booking_confirmed" s
          (confirm to_lower trim_space parse store audit_store c req now recorded_at s)
        × Audited c "booking_cancelled" s
            (cancel to_lower trim_space parse store audit_store c req now recorded_at s)
        × Audited c "booking_rescheduled" s
            (reschedule to_lower trim_space parse store audit_store c move now recorded_at s)
        × Audited c "booking_checked_in" s
            (check_in to_lower trim_space parse store audit_store c param now recorded_at s)
  unfolding confirm cancel check_in json_error
  one_entry_if_served none move param now recorded_at = (
    silent (λ x. grind arith) refl,
    silent (λ x. grind arith) refl,
    reschedule-Audited move now recorded_at,
    check_in-Audited param now recorded_at,
  )
  one_entry_if_served (some req) move param now recorded_at = (
    on_booking-Audited _ _ _ _ _ λ t b e.
        settle-Audited "booking_confirmed" req.booking_id t (status_name b.status)
          (status_name BookingStatus.confirmed) "Unable to confirm booking" "confirmed"
          (audit_metadata trim_space c req.why) recorded_at
          (Service.confirm store t req.booking_id now s.bookings) e,
    on_booking-Audited _ _ _ _ _ λ t b e.
        settle-Audited "booking_cancelled" req.booking_id t (status_name b.status)
          (status_name BookingStatus.cancelled) "Unable to cancel booking" "cancelled"
          (audit_metadata trim_space c req.why) recorded_at
          (Service.cancel store t req.booking_id now s.bookings) e,
    reschedule-Audited move now recorded_at,
    check_in-Audited param now recorded_at,
  )
