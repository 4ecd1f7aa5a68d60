-- ===== src/Security/Token.antt =====
-- repo/backend/internal/security/token.go: session tokens. JSON, base64, HMAC-SHA256 and
-- strings.Split are parameters.
use training_ops_scheduling.Base.{
  String, not, ◌||◌, Option, none, some, List, [], ◌∷◌, str_eq, if◌then◌else◌,
}
use training_ops_scheduling.Base.Int.{ℤ, pos, ltb_ℤ, eqb_ℤ}
use training_ops_scheduling.Base.Text.{◌+ˢ◌}
use training_ops_scheduling.Base.Result.{Result, ok, err}
use training_ops_scheduling.Clock.{Time, unix}

pub record SessionClaims : Type 0 where
  pub user_id : String
  pub tenant_id : String
  pub email : String
  pub role : String
  pub session_id : String
  pub expires_at : ℤ

-- What the code calls of other packages:
-- * `header` is json.Marshal of the header map, `marshal` and `unmarshal` those of the claims;
-- * `encode` and `decode` are base64.RawURLEncoding's, `mac` is HMAC-SHA256 of a secret and a text;
-- * `split_dots` is strings.Split with a dot.
pub record Codec : Type 1 where
  pub Bytes : Type 0
  pub header : Option Bytes
  pub marshal : SessionClaims → Option Bytes
  pub unmarshal : Bytes → Option SessionClaims
  pub encode : Bytes → String
  pub decode : String → Option Bytes
  pub mac : String → String → Bytes
  pub split_dots : String → List String

module _ (codec : Codec) where
  open codec use {Bytes, header, marshal, unmarshal, encode, decode, mac, split_dots}

  unfoldable pub sign : String → Bytes → Bytes → String
  sign secret header payload =
      let signing_input = encode header +ˢ "." +ˢ encode payload in
      signing_input +ˢ "." +ˢ encode (mac secret signing_input)

  unfoldable pub sign_session_token : String → SessionClaims → Result String String
  unfolding sign
  sign_session_token secret claims = elim header [
    | none ↦ err "json"
    | some h ↦ elim (marshal claims) [
      | none ↦ err "json"
      | some payload ↦ ok (sign secret h payload)
    ]
  ]

  -- The tests of the claims, once they are read.
  unfoldable pub check_claims : SessionClaims → Time → Result String SessionClaims
  check_claims claims now =
      if str_eq claims.user_id "" || str_eq claims.tenant_id "" || eqb_ℤ claims.expires_at (pos 0)
      then err "token missing required claims"
      else if not (ltb_ℤ (unix now) claims.expires_at)
      then err "token expired"
      else ok claims

  unfoldable pub read_claims : String → Time → Result String SessionClaims
  unfolding check_claims
  read_claims payload now = elim (decode payload) [
    | none ↦ err "invalid token payload"
    | some raw ↦ elim (unmarshal raw) [
      | none ↦ err "invalid token claims"
      | some claims ↦ check_claims claims now
    ]
  ]

  unfoldable pub verify_parts : String → Time → List String → Result String SessionClaims
  unfolding read_claims
  verify_parts secret now (h ∷ payload ∷ signature ∷ []) =
      if not (str_eq signature (encode (mac secret (h +ˢ "." +ˢ payload))))
      then err "invalid token signature"
      else read_claims payload now
  verify_parts secret now _ = err "invalid token format"

  unfoldable pub verify_session_token : String → String → Time → Result String SessionClaims
  unfolding verify_parts
  verify_session_token secret token now = verify_parts secret now (split_dots token)
