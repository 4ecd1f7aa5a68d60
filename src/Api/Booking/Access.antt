-- ===== src/Api/Booking/Access.antt =====
-- Who may change a booking through the handlers, and what the audit trail then holds.
use training_ops_scheduling.Base.{
  String, Bool, ◌≡◌, ◌≢◌, refl, sym, ap, ◌∙◌, subst, ◌⊎◌, inl, inr, Option, none, some, arith,
  str_eq_iff, Bool-cases, Option-cases,
}
use training_ops_scheduling.Base.Result.{ok, Result-cases}
use training_ops_scheduling.Clock.{Time}
use training_ops_scheduling.Booking.Data.{Booking}
use training_ops_scheduling.Booking.Store.{BookingStore}
use training_ops_scheduling.Audit.Trail.{AuditStore}
use training_ops_scheduling.Api.Http.{Caller, context_tenant, Response, actor_user, actor_role}
use training_ops_scheduling.Api.Booking.{
  Backend, BookingRequest, RescheduleRequest, authorize_booking_access, on_resource, on_booking,
  confirm, cancel, check_in, reschedule, reschedule_between, parse_flex_time,
}

module _ (to_lower trim_space : String → String) where
  -- The caller belongs to the booking's tenant, and is its administrator or the booking's owner.
  pub record MayChange (c : Caller) (b : Booking) : Type 0 where
    pub tenant : context_tenant c ≡ some b.tenant_id
    pub entitled :
        (actor_role to_lower trim_space c ≡ "admin")
        ⊎ ((actor_user trim_space c ≡ b.user_id) × (b.user_id ≢ ""))

  authorize_booking_access-MayChange :
      (c : Caller) (b : Booking)
      → authorize_booking_access to_lower trim_space c b.tenant_id b.user_id ≡ none
      → MayChange c b
  unfolding authorize_booking_access
  authorize_booking_access-MayChange c b h = elim (Option-cases (context_tenant c)) [
    | inl e ↦ absurd (let k = rw (e, authorize_booking_access) at h in cc)
    | inr (t, e) ↦
        let k = rw (e, authorize_booking_access) at h in
        let same : t ≡ b.tenant_id = ground (arith, str_eq_iff t b.tenant_id) in
        record {
          tenant = e ∙ ap some same;
          entitled = ground (
            arith,
            str_eq_iff (actor_role to_lower trim_space c) "admin",
            str_eq_iff b.user_id "",
            str_eq_iff b.user_id (actor_user trim_space c),
          );
        }
  ]

  -- The store has a booking under the identifier, and the caller may change it.
  pub record Entitled (store : BookingStore) (c : Caller) (booking_id : String) (s : store.State)
      : Type 0 where
    pub tenant_id : String
    pub resource : Booking
    pub named : context_tenant c ≡ some tenant_id
    pub found : store.get_booking tenant_id booking_id s ≡ ok resource
    pub may_change : MayChange c resource

module _ (to_lower trim_space : String → String) (parse : String → String → Option Time)
    (store : BookingStore) {A : Type 0} (audit_store : Option (AuditStore A)) (c : Caller)
    (s : Backend store.State A) where
  on_booking_unchanged :
      (booking_id : String) (malformed : Bool) (complaint : String)
      (next : String → Booking → Backend store.State A × Response)
      → ¬ Entitled to_lower trim_space store c booking_id s.bookings
      → (on_booking to_lower trim_space parse store audit_store c booking_id malformed complaint
          next s).0
        ≡ s
  unfolding on_booking on_resource
  on_booking_unchanged booking_id malformed complaint next h =
      elim (Option-cases (context_tenant c)) [
        | inl e ↦ rw (e, on_booking) refl
        | inr (t, e) ↦ elim (Bool-cases malformed) [
          | inl m ↦ rw (e, on_booking, m) refl
          | inr m ↦ elim (Result-cases (store.get_booking t booking_id s.bookings)) [
            | inl (x, g) ↦ rw (e, on_booking, m, g, on_resource) refl
            | inr (b, g) ↦
                elim (Option-cases
                  (authorize_booking_access to_lower trim_space c b.tenant_id b.user_id)) [
                    | inr (x, a) ↦ rw (e, on_booking, m, g, on_resource, a) refl
                    | inl a ↦ absurd (
                        h (record {
                          tenant_id = t;
                          resource = b;
                          named = e;
                          found = g;
                          may_change = authorize_booking_access-MayChange to_lower trim_space c b a;
                        }))
                  ]
          ]
        ]
      ]

  -- Without a booking of the caller's tenant under the identifier that the caller owns or administers,
  -- Confirm, Cancel, Reschedule and CheckIn leave the bookings and the audit trail as they were.
  pub strangers_change_nothing :
      (booking_id : String) (now recorded_at : Time)
      → ¬ Entitled to_lower trim_space store c booking_id s.bookings
      → ((req : BookingRequest)
          → req.booking_id ≡ booking_id
          → ((confirm to_lower trim_space parse store audit_store c (some req) now recorded_at s).0
              ≡ s)
            × ((cancel to_lower trim_space parse store audit_store c (some req) now recorded_at s).0
                ≡ s))
        × ((req : RescheduleRequest)
            → req.booking_id ≡ booking_id
            → (reschedule to_lower trim_space parse store audit_store c
                (some req)
                now
                recorded_at
                s).0
              ≡ s)
        × ((param : String)
            → trim_space param ≡ booking_id
            → (check_in to_lower trim_space parse store audit_store c param now recorded_at s).0
              ≡ s)
  unfolding confirm cancel reschedule reschedule_between check_in
  strangers_change_nothing booking_id now recorded_at h = (
    λ req e.
        let out = subst (λ i. ¬ Entitled to_lower trim_space store c i s.bookings) (sym e) h in
        (
          on_booking_unchanged req.booking_id _ _ _ out,
          on_booking_unchanged req.booking_id _ _ _ out,
        ),
    λ req e.
        let out = subst (λ i. ¬ Entitled to_lower trim_space store c i s.bookings) (sym e) h in
        elim (Option-cases (parse_flex_time trim_space parse req.new_start)) [
          | inl p ↦ rw (p, reschedule) refl
          | inr (start, p) ↦ elim (Option-cases (parse_flex_time trim_space parse req.new_end)) [
            | inl q ↦ rw (p, q, reschedule) refl
            | inr (end_, q) ↦ rw (p, q, reschedule) (on_booking_unchanged req.booking_id _ _ _ out)
          ]
        ],
    λ param e.
        on_booking_unchanged (trim_space param) _ _ _
          (subst (λ i. ¬ Entitled to_lower trim_space store c i s.bookings) (sym e) h),
  )
