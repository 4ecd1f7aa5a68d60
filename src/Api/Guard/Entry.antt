-- ===== src/Api/Guard/Entry.antt =====
-- Which requests pass the guard, and what the handlers of bookings then do for them.
use training_ops_scheduling.Base.{
  String, true, false, ◌≡◌, ◌≢◌, ap, ◌∙◌, subst, ◌⊎◌, inl, inr, Option, some, List, str_eq,
  str_eq_iff, Bool-cases,
}
use training_ops_scheduling.Base.Result.{ok, Result-cases}
use training_ops_scheduling.Clock.{Time}
use training_ops_scheduling.Booking.Data.{Booking}
use training_ops_scheduling.Booking.Store.{BookingStore}
use training_ops_scheduling.Audit.Trail.{AuditStore}
use training_ops_scheduling.Auth.Store.{SessionStore}
use training_ops_scheduling.Security.Token.{SessionClaims, Codec, verify_session_token}
use training_ops_scheduling.Security.Trust.{IsAccepted, verify-IsAccepted}
use training_ops_scheduling.Api.Http.{context_tenant, actor_user, actor_role}
use training_ops_scheduling.Api.Guard.{
  HttpRequest, Cookie, passed, Strings, is_public, request_token, with_claims, admit, auth_guard,
  tenant_context, caller_of,
}
use training_ops_scheduling.Api.Booking
use training_ops_scheduling.Api.Booking.{Backend, BookingRequest, RescheduleRequest}
use training_ops_scheduling.Api.Booking.Access.{MayChange, Entitled, strangers_change_nothing}

module _ (strings : Strings) (codec : Codec) {S : Type 0} (sessions : SessionStore S)
    (signing_key : String) (public_paths : List String) (verified_at now : Time) (s : S) where
  -- The token of the request was signed with the key and is in force, and its session is active.
  pub record Trusted (r : HttpRequest) (claims : SessionClaims) : Type 0 where
    pub accepted : IsAccepted codec signing_key (request_token strings r) verified_at claims
    pub active : sessions.is_active claims.tenant_id claims.session_id now s ≡ ok true

  admit-passed :
      (claims : SessionClaims) (r r' : HttpRequest) (cookie : Option Cookie)
      → admit strings codec sessions signing_key claims now s r ≡ passed r' cookie
      → (sessions.is_active claims.tenant_id claims.session_id now s ≡ ok true)
        × (r' ≡ with_claims claims r)
  unfolding admit
  admit-passed claims r r' cookie h =
      elim (Result-cases (sessions.is_active claims.tenant_id claims.session_id now s)) [
        | inl (e, a) ↦ absurd (let k = rw (a, admit) at h in cc)
        | inr (b, a) ↦ elim (Bool-cases b) [
          | inr off ↦ absurd (let k = rw (a, admit, off) at h in cc)
          | inl on ↦ let k = rw (a, admit, on) at h in (a ∙ ap ok on, cc)
        ]
      ]

  -- A request that is not public passes only with a token that was signed with the key and is in
  -- force, and whose session is active; the next handler then sees the token's claims in place of
  -- the headers that were sent.
  pub auth_guard-passed :
      (r r' : HttpRequest) (cookie : Option Cookie)
      → is_public strings public_paths r.path ≡ false
      → auth_guard strings codec sessions signing_key public_paths verified_at now s r
        ≡ passed r' cookie
      → ((claims : SessionClaims) × Trusted r claims × (r' ≡ with_claims claims r))
  unfolding auth_guard
  auth_guard-passed r r' cookie private h =
      elim (Bool-cases (str_eq (request_token strings r) "")) [
        | inl e ↦ absurd (let k = rw (private, auth_guard, e) at h in cc)
        | inr e ↦
            elim (Result-cases
              (verify_session_token codec signing_key (request_token strings r) verified_at)) [
                | inl (x, v) ↦ absurd (let k = rw (private, auth_guard, e, v) at h in cc)
                | inr (claims, v) ↦
                    let k = rw (private, auth_guard, e, v) at h in
                    let (a, same) = admit-passed claims r r' cookie k in
                    (
                      claims,
                      record {
                        accepted =
                            verify-IsAccepted codec signing_key verified_at
                              (request_token strings r) claims v;
                        active = a;
                      },
                      same,
                    )
              ]
      ]

-- The claims belong to the booking's tenant, and are an administrator's or its owner's.
pub record IsEntitled (strings : Strings) (claims : SessionClaims) (b : Booking) : Type 0 where
  pub tenant : claims.tenant_id ≡ b.tenant_id
  pub entitled :
      (strings.to_lower (strings.trim_space claims.role) ≡ "admin")
      ⊎ ((strings.trim_space claims.user_id ≡ b.user_id) × (b.user_id ≢ ""))

-- What the handlers read of a request that passed the guard.
MayChange-IsEntitled :
    (strings : Strings) (claims : SessionClaims) (r : HttpRequest) (at : Time) (b : Booking)
    (t : String)
    → claims.tenant_id ≢ ""
    → context_tenant (caller_of strings at (with_claims claims r)) ≡ some t
    → MayChange strings.to_lower strings.trim_space (caller_of strings at (with_claims claims r)) b
    → (t ≡ claims.tenant_id) × IsEntitled strings claims b
unfolding context_tenant caller_of tenant_context with_claims actor_user actor_role
MayChange-IsEntitled strings claims r at b t named e m =
    elim (Bool-cases (str_eq claims.tenant_id "")) [
      | inl blank ↦ absurd (named ((str_eq_iff claims.tenant_id "").0 blank))
      | inr n ↦
          let here : some claims.tenant_id ≡ some t = rw (n, n) at e in
          let there : some claims.tenant_id ≡ some b.tenant_id = rw (n, n) at m.tenant in
          (cc, record { tenant = cc; entitled = m.entitled })
    ]

module _ (strings : Strings) (codec : Codec) {S : Type 0} (sessions : SessionStore S)
    (signing_key : String) (public_paths : List String) (verified_at now : Time) (s : S)
    (parse : String → String → Option Time) (store : BookingStore) {A : Type 0}
    (audit_store : Option (AuditStore A)) (backend : Backend store.State A) where
  -- The request carries a trusted token whose claims are entitled to the booking that the store has
  -- under the identifier.
  pub record Authorized (r : HttpRequest) (booking_id : String) : Type 0 where
    pub claims : SessionClaims
    pub resource : Booking
    pub trusted : Trusted strings codec sessions signing_key public_paths verified_at now s r claims
    pub found : store.get_booking claims.tenant_id booking_id backend.bookings ≡ ok resource
    pub is_entitled : IsEntitled strings claims resource

  Entitled-Authorized :
      (r r' : HttpRequest) (cookie : Option Cookie) (at : Time) (booking_id : String)
      → is_public strings public_paths r.path ≡ false
      → auth_guard strings codec sessions signing_key public_paths verified_at now s r
        ≡ passed r' cookie
      → Entitled strings.to_lower strings.trim_space store
          (caller_of strings at r')
          booking_id
          backend.bookings
      → Authorized r booking_id
  Entitled-Authorized r r' cookie at booking_id private h e =
      let (claims, trusted, same) =
        auth_guard-passed strings codec sessions signing_key public_paths verified_at now s r r'
          cookie private h in
      let e' =
        subst
          (λ x.
            Entitled strings.to_lower strings.trim_space store (caller_of strings at x) booking_id
              backend.bookings)
          same e in
      let (t, k) =
        MayChange-IsEntitled strings claims r at e'.resource e'.tenant_id
          trusted.accepted.in_force.tenant e'.named e'.may_change in
      record {
        claims = claims;
        resource = e'.resource;
        trusted = trusted;
        found =
            subst (λ x. store.get_booking x booking_id backend.bookings ≡ ok e'.resource) t
              e'.found;
        is_entitled = k;
      }

  -- A request that is not public and passes the guard, but carries no trusted token of an
  -- administrator of the booking's tenant or of the booking's owner, changes neither the bookings
  -- nor the audit trail, whatever headers it was sent with and whichever of Confirm, Cancel,
  -- Reschedule and CheckIn handles it.
  pub unauthorized_change_nothing :
      (r r' : HttpRequest) (cookie : Option Cookie) (at : Time) (booking_id : String)
      (handled_at recorded_at : Time)
      → is_public strings public_paths r.path ≡ false
      → auth_guard strings codec sessions signing_key public_paths verified_at now s r
        ≡ passed r' cookie
      → ¬ Authorized r booking_id
      → let c = caller_of strings at r' in
        ((req : BookingRequest)
          → req.booking_id ≡ booking_id
          → ((Booking.confirm strings.to_lower strings.trim_space parse store audit_store c
                (some req)
                handled_at
                recorded_at
                backend).0
              ≡ backend)
            × ((Booking.cancel strings.to_lower strings.trim_space parse store audit_store c
                  (some req)
                  handled_at
                  recorded_at
                  backend).0
                ≡ backend))
        × ((req : RescheduleRequest)
            → req.booking_id ≡ booking_id
            → (Booking.reschedule strings.to_lower strings.trim_space parse store audit_store c
                (some req)
                handled_at
                recorded_at
                backend).0
              ≡ backend)
        × ((param : String)
            → strings.trim_space param ≡ booking_id
            → (Booking.check_in strings.to_lower strings.trim_space parse store audit_store c param
                handled_at recorded_at backend).0
              ≡ backend)
  unauthorized_change_nothing r r' cookie at booking_id handled_at recorded_at private h out =
      strangers_change_nothing strings.to_lower strings.trim_space parse store audit_store
        (caller_of strings at r') backend booking_id handled_at recorded_at
        (λ e. out (Entitled-Authorized r r' cookie at booking_id private h e))
