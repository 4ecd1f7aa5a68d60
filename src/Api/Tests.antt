-- ===== src/Api/Tests.antt =====
-- The handlers on concrete requests.
mod Guarded
use training_ops_scheduling.Base.{
  ℕ, ◌*◌, String, ◌≡◌, refl, sym, ◌∙◌, ap, inl, inr, Option, none, some, [], arith, str_eq,
  str_eq_iff, false, subst, if◌then◌else◌,
}
use training_ops_scheduling.Base.Int.{pos}
use training_ops_scheduling.Base.Result.{Result, ok}
use training_ops_scheduling.Clock.{Time, hour}
use training_ops_scheduling.Booking.Data.{Booking}
use training_ops_scheduling.Booking.Tests.Postgres.{
  server, empty_tables, one_row_tables, new_ids, lab_row,
}
use training_ops_scheduling.Booking.Store.{BookingError}
use training_ops_scheduling.Booking.Postgres.Tables.{Database}
use training_ops_scheduling.Booking.Postgres.Methods.{postgres_store, get_booking}
use training_ops_scheduling.Booking.Postgres.Exclusion.{WellFormed}
use training_ops_scheduling.Audit.Trail.{AuditStore}
use training_ops_scheduling.Api.Http.{Caller, context_tenant, actor_role, actor_user}
use training_ops_scheduling.Api.Booking
use training_ops_scheduling.Api.Booking.{Backend, BookingRequest, RescheduleRequest}
use training_ops_scheduling.Api.Booking.Access.{Entitled, strangers_change_nothing}
use training_ops_scheduling.Api.Booking.Trail.{Audited, one_entry_if_served}
use training_ops_scheduling.Api.Booking.Requests.{NamesIds}
use training_ops_scheduling.Api.Booking.History.{Asked, Asked-WellFormed}
use training_ops_scheduling.Api.Booking.History

abbrev pub same_text : String → String
same_text t = t

-- Two texts that time.Parse reads.
unfoldable pub times : String → String → Option Time
times layout text =
    if str_eq text "10"
    then some (10 * hour)
    else if str_eq text "11"
    then some (11 * hour)
    else none

abbrev pub no_store : Option (AuditStore ℕ)
no_store = none

abbrev pub backend : Database → Backend Database ℕ
backend db = record { bookings = db; audit = record { entries = []; stored = 0 } }

abbrev uma : Caller
uma = record {
  tenant_id = some "acme";
  user_header = "u1";
  role_header = "coordinator";
  metadata = none;
}

abbrev pub stranger : Caller
stranger = record uma { user_header = "u2" }

abbrev pub about : String → BookingRequest
about id = record {
  booking_id = id;
  room_id = "lab";
  instructor_id = "ann";
  title = "Forklift";
  start_at = "10";
  end_at = "11";
  capacity = pos 10;
  attendees = pos 8;
  why = "";
}

abbrev pub a_move : RescheduleRequest
a_move = record { booking_id = "b1"; new_start = "10"; new_end = "11"; why = "late" }

-- The user u2 owns nothing.
stranger-Entitled :
    ¬ Entitled same_text same_text (postgres_store server) stranger "b1" one_row_tables
unfolding get_booking context_tenant str_eq actor_role actor_user
stranger-Entitled h =
    let named : ◌≡◌ {A = Option String} (some "acme") (some h.tenant_id) = h.named in
    let t : ◌≡◌ {A = String} "acme" h.tenant_id = cc in
    let found : get_booking server "acme" "b1" one_row_tables ≡ ok h.resource =
      subst (λ x. get_booking server x "b1" one_row_tables ≡ ok h.resource) (sym t) h.found in
    let read : ◌≡◌ {A = Result BookingError Booking} (ok lab_row) (ok h.resource) = found in
    let row : lab_row ≡ h.resource = cc in
    elim h.may_change.entitled [
      | inl boss ↦
          let same = (str_eq_iff "coordinator" "admin").1 boss in
          let other : str_eq "coordinator" "admin" ≡ false = refl in cc
      | inr (owner, _) ↦
          let same = (str_eq_iff "u2" "u1").1 (owner ∙ ap (λ (b : Booking). b.user_id) (sym row)) in
          let other : str_eq "u2" "u1" ≡ false = refl in cc
    ]

one_entry_if_served_example :
    Audited uma "booking_confirmed" (backend one_row_tables) (
      Booking.confirm same_text same_text times
        (postgres_store server)
        no_store
        uma
        (some (about "b1"))
        5
        6
        (backend one_row_tables))
    × Audited uma "booking_cancelled" (backend one_row_tables) (
        Booking.cancel same_text same_text times
          (postgres_store server)
          no_store
          uma
          (some (about "b1"))
          5
          6
          (backend one_row_tables))
    × Audited uma "booking_rescheduled" (backend one_row_tables) (
        Booking.reschedule same_text same_text times
          (postgres_store server)
          no_store
          uma
          (some a_move)
          5
          6
          (backend one_row_tables))
    × Audited uma "booking_checked_in" (backend one_row_tables) (
        Booking.check_in same_text same_text times
          (postgres_store server)
          no_store
          uma
          "b1"
          5
          6
          (backend one_row_tables))
one_entry_if_served_example =
    one_entry_if_served same_text same_text times (postgres_store server) no_store uma
      (backend one_row_tables) (some (about "b1")) (some a_move) "b1" 5 6

about-NamesIds :
    (r : BookingRequest)
    → some (about "") ≡ some r
    → NamesIds same_text same_text times server no_store r
unfolding str_eq
about-NamesIds r e =
    let same : about "" ≡ r = cc in
    subst (NamesIds same_text same_text times server no_store) same
      (record { room_id = refl; instructor_id = refl })

abbrev asked : Backend Database ℕ
asked =
    (Booking.hold same_text same_text times (postgres_store server) no_store uma (some (about "")) 5
      6 (backend empty_tables)).0

Asked-WellFormed_example : WellFormed server 5 asked.bookings
Asked-WellFormed_example =
    Asked-WellFormed same_text same_text times server no_store 5 asked new_ids (
      History.more 5 (History.fresh 5 (backend empty_tables) refl) (omega arith)
        (History.hold uma (some (about "")) 6 about-NamesIds))
