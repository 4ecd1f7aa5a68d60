-- ===== src/Api/Tests/Guarded.antt =====
-- Requests that pass the guard, on concrete tokens and sessions.
use Prim.Native.String
use training_ops_scheduling.Base.{
  String, Bool, true, false, ◌≡◌, ◌≢◌, refl, sym, ap, ◌∙◌, subst, ◌⊎◌, inl, inr, Option, none, some,
  List, ◌&&◌, ◌||◌, if◌then◌else◌, [], ◌∷◌, ◌+◌, ◌*◌, str_eq, str_eq_iff,
}
use training_ops_scheduling.Base.Table.{lookup}
use training_ops_scheduling.Base.Result.{Result, ok}
use training_ops_scheduling.Clock.{unix_epoch, unix, hour}
use training_ops_scheduling.Booking.Data.{Booking}
use training_ops_scheduling.Booking.Store.{BookingError}
use training_ops_scheduling.Booking.Tests.Postgres.{server, one_row_tables, lab_row}
use training_ops_scheduling.Booking.Postgres.Tables.{Database}
use training_ops_scheduling.Booking.Postgres.Methods.{postgres_store, get_booking}
use training_ops_scheduling.Auth.Data.{Session}
use training_ops_scheduling.Auth.Memory.{
  Store, sessions_of, is_active, session_key, session_is_active,
}
use training_ops_scheduling.Ingestion.Text.{has_prefix}
use training_ops_scheduling.Security.Token.{SessionClaims, verify_session_token}
use training_ops_scheduling.Security.Tests.{bits, uma_claims, parts_from}
use training_ops_scheduling.Api.Guard.{
  HttpRequest, Cookie, Passage, passed, request_token, Strings, is_public, auth_guard, with_claims,
  caller_of,
}
use training_ops_scheduling.Api.Guard.Entry.{Trusted, Authorized, unauthorized_change_nothing}
use training_ops_scheduling.Api.Router.{Method, Route, public_paths, enter, serve, routes}
use training_ops_scheduling.Api.Router.Admission.{HasRole, enter-passed, serve-forged}
use training_ops_scheduling.Api.Router
use training_ops_scheduling.Api.Booking
use training_ops_scheduling.Api.Booking.{BookingRequest, RescheduleRequest}
use training_ops_scheduling.Api.Tests.{times, no_store, backend, same_text}

-- The text before the first space and the one after it.
unfoldable halves_from : String → String → List String
halves_from part String.[] = part ∷ []
halves_from part (String.◌∷◌ c rest) = elim (str_eq (String.◌∷◌ c "") " ") [
  | true ↦ part ∷ rest ∷ []
  | false ↦ halves_from (String.◌++◌ part (String.◌∷◌ c "")) rest
]

abbrev plain_strings : Strings
plain_strings = record {
  trim_space = λ t. t;
  to_lower = λ t. t;
  equal_fold = str_eq;
  has_prefix = has_prefix;
  split_space = halves_from "";
  format_time = λ t. "";
}

abbrev uma_session : Session
uma_session = record {
  id = "s1";
  tenant_id = "acme";
  user_id = "u1";
  refresh_token_hash = "rt_0";
  expires_at = unix_epoch + hour;
  last_used_at = 0;
  revoked_at = none;
  created_at = 0;
  updated_at = 0;
}

abbrev logged_in : Store
logged_in = record { users = []; sessions = ("acme:s1", uma_session) ∷ [] }

-- A request of Uma that claims to be an administrator's.
abbrev asks : String → HttpRequest
asks path = record {
  path = path;
  authorization = "Bearer f.t.t";
  session_cookie = none;
  has_tls = true;
  forwarded_proto = "";
  tenant_query = "";
  tenant_header = "other";
  user_header = "u9";
  email_header = "";
  role_header = "admin";
  session_header = "";
  reason_header = "";
  name_header = "";
  context_tenant = none;
}

abbrev guarded : HttpRequest → Passage
guarded =
    auth_guard plain_strings bits sessions_of "key" public_paths unix_epoch unix_epoch logged_in

-- What the guard makes of it.
abbrev seen : HttpRequest
seen = with_claims uma_claims (asks "/v1/bookings/confirm")

abbrev fresh_cookie : Cookie
fresh_cookie = record {
  value = "f.t.t";
  is_secure = true;
  expires_at = unix (unix_epoch + 24 * hour);
}

confirm_private : is_public plain_strings public_paths "/v1/bookings/confirm" ≡ false
unfolding is_public str_eq has_prefix
confirm_private = refl

seen_passed : guarded (asks "/v1/bookings/confirm") ≡ passed seen (some fresh_cookie)
unfolding auth_guard str_eq has_prefix halves_from parts_from verify_session_token unix is_active
    lookup session_key session_is_active
seen_passed = refl

-- The lab is booked by the user u2.
abbrev foreign_tables : Database
foreign_tables = record one_row_tables { bookings = (record lab_row { user_id = "u2" }) ∷ [] }

abbrev foreign_row : Booking
foreign_row = record lab_row { user_id = "u2" }

some_injective {ℓ} : {A : Type ℓ} (a b : A) → some a ≡ some b → a ≡ b
some_injective a b e = cc

-- The claims that the token holds.
held_claims :
    (path : String) (claims : SessionClaims)
    → Trusted plain_strings bits sessions_of "key" public_paths unix_epoch unix_epoch logged_in
        (asks path)
        claims
    → claims ≡ uma_claims
unfolding str_eq halves_from parts_from request_token
held_claims path claims t =
    let a = t.accepted in
    let parts : "f" ∷ "t" ∷ "t" ∷ [] ≡ a.head ∷ a.payload ∷ _ ∷ [] = a.signed in
    let payload : ◌≡◌ {A = String} "t" a.payload = cc in
    let decoded : bits.decode "t" ≡ some a.raw =
      subst (λ x. bits.decode x ≡ some a.raw) (sym payload) a.decoded in
    let raw : ◌≡◌ {A = Bool} true a.raw = some_injective true a.raw decoded in
    let read : bits.unmarshal true ≡ some claims =
      subst (λ x. bits.unmarshal x ≡ some claims) (sym raw) a.holds_claims in
    sym (some_injective uma_claims claims read)

unauthorized :
    ¬ Authorized plain_strings bits sessions_of "key" public_paths unix_epoch unix_epoch logged_in
      times
      (postgres_store server)
      no_store
      (backend foreign_tables)
      (asks "/v1/bookings/confirm")
      "b1"
unfolding get_booking str_eq
unauthorized h =
    let claims = held_claims "/v1/bookings/confirm" h.claims h.trusted in
    let found : get_booking server "acme" "b1" foreign_tables ≡ ok h.resource =
      subst
        (λ (x : SessionClaims). get_booking server x.tenant_id "b1" foreign_tables ≡ ok h.resource)
        claims h.found in
    let read : ◌≡◌ {A = Result BookingError Booking} (ok foreign_row) (ok h.resource) = found in
    let row : foreign_row ≡ h.resource = cc in
    let e =
      subst
        (λ (x : SessionClaims).
          (x.role ≡ "admin") ⊎ ((x.user_id ≡ h.resource.user_id) × (h.resource.user_id ≢ "")))
        claims h.is_entitled.entitled in
    elim e [
      | inl boss ↦
          let same = (str_eq_iff "coordinator" "admin").1 boss in
          let other : str_eq "coordinator" "admin" ≡ false = refl in cc
      | inr (owner, _) ↦
          let same = (str_eq_iff "u1" "u2").1 (owner ∙ ap (λ (b : Booking). b.user_id) (sym row)) in
          let other : str_eq "u1" "u2" ≡ false = refl in cc
    ]

-- Uma's token does not reach the booking of the user u2, although she sends an administrator's role.
unauthorized_change_nothing_example :
    let c = caller_of plain_strings 7 seen in
    ((req : BookingRequest)
      → req.booking_id ≡ "b1"
      → ((Booking.confirm same_text same_text times
            (postgres_store server)
            no_store
            c
            (some req)
            5
            6
            (backend foreign_tables)).0
          ≡ backend foreign_tables)
        × ((Booking.cancel same_text same_text times
              (postgres_store server)
              no_store
              c
              (some req)
              5
              6
              (backend foreign_tables)).0
            ≡ backend foreign_tables))
    × ((req : RescheduleRequest)
        → req.booking_id ≡ "b1"
        → (Booking.reschedule same_text same_text times
            (postgres_store server)
            no_store
            c
            (some req)
            5
            6
            (backend foreign_tables)).0
          ≡ backend foreign_tables)
    × ((param : String)
        → param ≡ "b1"
        → (Booking.check_in same_text same_text times
            (postgres_store server)
            no_store
            c
            param
            5
            6
            (backend foreign_tables)).0
          ≡ backend foreign_tables)
unauthorized_change_nothing_example =
    unauthorized_change_nothing plain_strings bits sessions_of "key" public_paths unix_epoch
      unix_epoch logged_in times (postgres_store server) no_store (backend foreign_tables)
      (asks "/v1/bookings/confirm") seen (some fresh_cookie) 7 "b1" 5 6 confirm_private seen_passed
      unauthorized

abbrev confirm_route : Route
confirm_route = record {
  method = Router.post;
  pattern = "/v1/bookings/confirm";
  roles = some ("coordinator" ∷ []);
  handler = "bookingHandler.Confirm";
}

confirm_entered :
    enter plain_strings bits sessions_of "key" confirm_route unix_epoch unix_epoch logged_in
      (asks "/v1/bookings/confirm")
    ≡ passed seen (some fresh_cookie)
unfolding enter auth_guard str_eq has_prefix halves_from parts_from verify_session_token unix
    is_active lookup session_key session_is_active
confirm_entered = refl

enter-passed_example :
    (claims : SessionClaims) × Trusted plain_strings bits sessions_of "key" public_paths unix_epoch
      unix_epoch logged_in
      (asks "/v1/bookings/confirm")
      claims
    × HasRole plain_strings ("coordinator" ∷ []) claims.role
    × (seen ≡ with_claims claims (asks "/v1/bookings/confirm"))
enter-passed_example =
    enter-passed plain_strings bits sessions_of "key" confirm_route ("coordinator" ∷ []) unix_epoch
      unix_epoch logged_in (asks "/v1/bookings/confirm") seen (some fresh_cookie) refl
      confirm_private confirm_entered

abbrev share_route : Route
share_route = record {
  method = Router.post;
  pattern = "/v1/content/:id/share";
  roles = some ("coordinator" ∷ "instructor" ∷ []);
  handler = "contentHandler.GenerateShare";
}

-- A request without a token.
abbrev forged : HttpRequest
forged = record (asks "/v1/content/share/share") { authorization = "" }

shared_prefix : has_prefix "/v1/content/share/share" "/v1/content/share/" ≡ true
unfolding has_prefix
shared_prefix = refl

-- The parts of a path between its slashes.
unfoldable segments_from : String → String → List String
segments_from part String.[] = part ∷ []
segments_from part (String.◌∷◌ c rest) = elim (str_eq (String.◌∷◌ c "") "/") [
  | true ↦ part ∷ segments_from "" rest
  | false ↦ segments_from (String.◌++◌ part (String.◌∷◌ c "")) rest
]

unfoldable same_segments : List String → List String → Bool
unfolding has_prefix
same_segments [] [] = true
same_segments (p ∷ ps) (s ∷ ss) = (has_prefix p ":" || str_eq p s) && same_segments ps ss
same_segments _ _ = false

unfoldable same_method : Method → Method → Bool
same_method Router.get Router.get = true
same_method Router.post Router.post = true
same_method Router.put Router.put = true
same_method Router.delete Router.delete = true
same_method _ _ = false

-- The first route with the method and the segments of the path.
unfoldable first_match : List Route → Method → String → Option Route
unfolding segments_from same_segments same_method
first_match [] method path = none
first_match (route ∷ rest) method path =
    let later = first_match rest method path in
    if same_method route.method method
      && same_segments (segments_from "" route.pattern) (segments_from "" path)
    then some route
    else later

share_chosen : first_match routes Router.post "/v1/content/share/share" ≡ some share_route
unfolding first_match routes str_eq
share_chosen = refl

serve-forged_example :
    serve plain_strings bits sessions_of "key" first_match Router.post unix_epoch unix_epoch
      logged_in forged
    ≡ some ("contentHandler.GenerateShare", passed forged none)
serve-forged_example =
    serve-forged plain_strings bits sessions_of "key" first_match Router.post share_route
      ("coordinator" ∷ "instructor" ∷ []) unix_epoch unix_epoch logged_in forged share_chosen refl
      shared_prefix refl
