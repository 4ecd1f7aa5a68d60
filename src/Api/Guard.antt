-- ===== src/Api/Guard.antt =====
-- repo/backend/internal/api/middleware/auth.go, tenant.go and audit.go: what every request passes on
-- its way to a handler. The functions of package strings and the text of
-- a time are parameters.
pub mod Entry
use training_ops_scheduling.Base.{
  ℕ, String, Bool, true, false, not, ◌||◌, ◌+◌, ◌*◌, Option, none, some, List, [], ◌∷◌, str_eq, any,
  if◌then◌else◌,
}
use training_ops_scheduling.Base.Int.{ℤ}
use training_ops_scheduling.Base.Result.{Result, ok, err}
use training_ops_scheduling.Clock.{Time, hour, unix}
use training_ops_scheduling.Audit.Trail.{Metadata}
use training_ops_scheduling.Auth.Data.{AuthError}
use training_ops_scheduling.Auth.Store.{SessionStore}
use training_ops_scheduling.Security.Token.{
  SessionClaims, Codec, sign_session_token, verify_session_token,
}
use training_ops_scheduling.Api.Http.{Caller, Response, json_error}

-- The parts of a request that the middleware reads and writes.
pub record HttpRequest : Type 0 where
  pub path : String
  pub authorization : String
  pub session_cookie : Option String
  pub has_tls : Bool
  pub forwarded_proto : String
  pub tenant_query : String
  pub tenant_header : String
  pub user_header : String
  pub email_header : String
  pub role_header : String
  pub session_header : String
  pub reason_header : String
  pub name_header : String
  pub context_tenant : Option String

pub record Cookie : Type 0 where
  pub value : String
  pub is_secure : Bool
  pub expires_at : ℤ

-- A response, or the request that the next handler sees, with the cookie that is set.
pub data Passage : Type 0 where
  refused : Response → Passage
  passed : HttpRequest → Option Cookie → Passage

-- * `trim_space`, `to_lower`, `equal_fold` and `has_prefix` are those of package strings, and
--   `split_space` is SplitN with a space and two parts;
-- * `format_time` is Format with RFC 3339.
pub record Strings : Type 0 where
  pub trim_space : String → String
  pub to_lower : String → String
  pub equal_fold : String → String → Bool
  pub has_prefix : String → String → Bool
  pub split_space : String → List String
  pub format_time : Time → String

-- The request that the next handler sees: the claims take the place of the headers that were sent.
unfoldable pub with_claims : SessionClaims → HttpRequest → HttpRequest
with_claims claims r = record r {
  context_tenant = some claims.tenant_id;
  tenant_header = claims.tenant_id;
  user_header = claims.user_id;
  email_header = claims.email;
  role_header = claims.role;
  session_header = claims.session_id;
}

unfoldable pub tenant_context : HttpRequest → HttpRequest
tenant_context r = record r {
  context_tenant = some (if str_eq r.tenant_header "" then r.tenant_query else r.tenant_header);
}

module _ (strings : Strings) where
  bearer_parts : List String → String
  bearer_parts (scheme ∷ token ∷ []) =
      if not (strings.equal_fold scheme "Bearer") then "" else strings.trim_space token
  bearer_parts _ = ""

  unfoldable pub bearer_token : String → String
  unfolding bearer_parts
  bearer_token header = if str_eq header "" then "" else bearer_parts (strings.split_space header)

  -- The bearer token, or the cookie's where there is none.
  unfoldable pub request_token : HttpRequest → String
  unfolding bearer_token
  request_token r =
      let token = bearer_token r.authorization in
      if str_eq token ""
      then elim r.session_cookie [ none ↦ token | some value ↦ strings.trim_space value ]
      else token

  unfoldable pub use_secure_cookie : HttpRequest → Bool
  use_secure_cookie r =
      if r.has_tls then true else strings.equal_fold (strings.trim_space r.forwarded_proto) "https"

  unfoldable pub is_public : List String → String → Bool
  unfolding any
  is_public public_paths path =
      any (λ p. str_eq p path) public_paths || strings.has_prefix path "/v1/content/share/"

  -- `SetCookie`, unless the token cannot be signed. The expiry is in seconds since 1970.
  unfoldable pub set_session_cookie :
      Codec → String → SessionClaims → Time → HttpRequest → Option Cookie
  unfolding sign_session_token use_secure_cookie
  set_session_cookie codec signing_key claims now r =
      elim (sign_session_token codec signing_key
        (record claims { expires_at = unix (now + 24 * hour) })) [
          | err e ↦ none
          | ok token ↦ some (record {
            value = token;
            is_secure = use_secure_cookie r;
            expires_at = unix (now + 24 * hour);
          })
        ]

  module _ (codec : Codec) {S : Type 0} (sessions : SessionStore S) where
    -- What is done once the claims are known. `now` is read after the token was verified.
    unfoldable pub admit : String → SessionClaims → Time → S → HttpRequest → Passage
    unfolding with_claims set_session_cookie json_error
    admit signing_key claims now s r =
        elim (sessions.is_active claims.tenant_id claims.session_id now s) [
          | err e ↦ Passage.refused (json_error 401 "session expired or revoked")
          | ok active ↦
              if not active
              then Passage.refused (json_error 401 "session expired or revoked")
              else Passage.passed (with_claims claims r)
                  (set_session_cookie codec signing_key claims now r)
        ]

    unfoldable pub auth_guard : String → List String → Time → Time → S → HttpRequest → Passage
    unfolding admit is_public request_token json_error
    auth_guard signing_key public_paths verified_at now s r =
        if is_public public_paths r.path
        then Passage.passed r none
        else if str_eq (request_token r) ""
        then Passage.refused (json_error 401 "missing bearer token")
        else elim (verify_session_token codec signing_key (request_token r) verified_at) [
          | err e ↦ Passage.refused (json_error 401 "invalid session")
          | ok claims ↦ admit signing_key claims now s r
        ]

  -- The metadata of AuditContext; its instant is the argument.
  unfoldable pub audit_context : Time → HttpRequest → Metadata
  audit_context now r = record {
    actor_user_id = r.user_header;
    reason = r.reason_header;
    who = r.name_header;
    when = strings.format_time now;
  }

  -- The request as a handler sees it, after TenantContext and AuditContext.
  unfoldable pub caller_of : Time → HttpRequest → Caller
  unfolding tenant_context audit_context
  caller_of now r =
      let r' = tenant_context r in
      record {
        tenant_id = r'.context_tenant;
        user_header = r'.user_header;
        role_header = r'.role_header;
        metadata = some (audit_context now r');
      }
