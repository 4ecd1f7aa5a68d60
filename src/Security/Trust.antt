-- ===== src/Security/Trust.antt =====
-- What a session token is worth: a signed one is read back until it expires, and one that is read
-- carries the signature of the secret.
use training_ops_scheduling.Base.{
  String, true, ◌≡◌, ◌≢◌, refl, ◌∙◌, ap, subst, ◌↔◌, inl, inr, some, List, [], ◌∷◌, arith, str_eq,
  str_eq_iff, str_eq_refl, Bool-cases, Option-cases,
}
use training_ops_scheduling.Base.Int.{pos, ltb_ℤ, eqb_ℤ_iff}
use training_ops_scheduling.Base.Text.{◌+ˢ◌}
use training_ops_scheduling.Base.Result.{ok}
use training_ops_scheduling.Clock.{Time, unix}
use training_ops_scheduling.Security.Token.{
  SessionClaims, Codec, sign, sign_session_token, check_claims, read_claims, verify_parts,
  verify_session_token,
}

-- The claims name a user and a tenant, and expire later than the second of `now`.
pub record InForce (now : Time) (claims : SessionClaims) : Type 0 where
  pub user : claims.user_id ≢ ""
  pub tenant : claims.tenant_id ≢ ""
  pub dated : claims.expires_at ≢ pos 0
  pub unexpired : ltb_ℤ (unix now) claims.expires_at ≡ true

pub check_claims-ok_iff :
    (codec : Codec) (claims read : SessionClaims) (now : Time)
    → (check_claims codec claims now ≡ ok read) ↔ ((claims ≡ read) × InForce now claims)
unfolding check_claims
check_claims-ok_iff codec claims read now =
    let u = str_eq_iff claims.user_id "" in
    let t = str_eq_iff claims.tenant_id "" in
    let d = eqb_ℤ_iff claims.expires_at (pos 0) in
    (
      λ h. (
        ground arith,
        record {
          user = λ e. let k = u.1 e in ground arith;
          tenant = λ e. let k = t.1 e in ground arith;
          dated = λ e. let k = d.1 e in ground arith;
          unexpired = ground arith;
        },
      ),
      λ (e, f).
          let fu = f.user in
          let ft = f.tenant in let fd = f.dated in let fx = f.unexpired in ground (arith, u, t, d),
    )

-- What is documented of the other packages: what is encoded is decoded, no encoded text holds a dot,
-- and these claims are read back from their JSON.
pub record Lawful (codec : Codec) (claims : SessionClaims) : Type 0 where
  pub decode_encode : (b : codec.Bytes) → codec.decode (codec.encode b) ≡ some b
  pub unmarshal_marshal :
      (b : codec.Bytes) → codec.marshal claims ≡ some b → codec.unmarshal b ≡ some claims
  pub split_three :
      (a b c : codec.Bytes)
      → codec.split_dots ((codec.encode a +ˢ "." +ˢ codec.encode b) +ˢ "." +ˢ codec.encode c)
        ≡ codec.encode a ∷ codec.encode b ∷ codec.encode c ∷ []

module _ (codec : Codec) (secret : String) (claims : SessionClaims)
    (lawful : Lawful codec claims) where
  verify-sign :
      (token : String) (now : Time)
      → sign_session_token codec secret claims ≡ ok token
      → verify_session_token codec secret token now ≡ check_claims codec claims now
  unfolding sign_session_token sign verify_session_token verify_parts read_claims
  verify-sign token now h = elim (Option-cases codec.header) [
    | inl e ↦ absurd (let k = rw (e, sign_session_token) at h in cc)
    | inr (hd, e) ↦ elim (Option-cases (codec.marshal claims)) [
      | inl m ↦ absurd (let k = rw (e, m, sign_session_token) at h in cc)
      | inr (p, m) ↦
          let k = rw (e, m, sign_session_token) at h in
          let made : sign codec secret hd p ≡ token = cc in
          subst (λ x. verify_session_token codec secret x now ≡ check_claims codec claims now) made
            (rw
              (
                lawful.split_three hd p
                    (codec.mac secret (codec.encode hd +ˢ "." +ˢ codec.encode p)),
                verify_parts,
                str_eq_refl
                    (codec.encode (codec.mac secret (codec.encode hd +ˢ "." +ˢ codec.encode p))),
                lawful.decode_encode p,
                read_claims,
                lawful.unmarshal_marshal p m,
              )
              refl)
    ]
  ]

  -- A token that was signed for claims is read back as these claims exactly while they are in force:
  -- they name a user and a tenant, and their second of expiry has not come.
  pub verify-sign_iff :
      (token : String) (now : Time)
      → sign_session_token codec secret claims ≡ ok token
      → (verify_session_token codec secret token now ≡ ok claims) ↔ InForce now claims
  verify-sign_iff token now h =
      let e = verify-sign token now h in
      let said = check_claims-ok_iff codec claims claims now in
      (λ k. (said.0 (rw e at k)).1, λ f. e ∙ said.1 (refl, f))

-- The token has three parts: the third is the secret's signature of the first two, and the second
-- holds the claims, which are in force.
pub record IsAccepted (codec : Codec) (secret token : String) (now : Time) (claims : SessionClaims)
    : Type 0 where
  pub head : String
  pub payload : String
  pub raw : codec.Bytes
  pub signed :
      codec.split_dots token
      ≡ head ∷ payload ∷ codec.encode (codec.mac secret (head +ˢ "." +ˢ payload)) ∷ []
  pub decoded : codec.decode payload ≡ some raw
  pub holds_claims : codec.unmarshal raw ≡ some claims
  pub in_force : InForce now claims

module _ (codec : Codec) (secret : String) (now : Time) where
  read_claims-InForce :
      (payload : String) (claims : SessionClaims)
      → read_claims codec payload now ≡ ok claims
      → ((raw : codec.Bytes) × (codec.decode payload ≡ some raw)
          × (codec.unmarshal raw ≡ some claims)
          × InForce now claims)
  unfolding read_claims
  read_claims-InForce payload claims h = elim (Option-cases (codec.decode payload)) [
    | inl e ↦ absurd (let k = rw (e, read_claims) at h in cc)
    | inr (raw, e) ↦ elim (Option-cases (codec.unmarshal raw)) [
      | inl u ↦ absurd (let k = rw (e, read_claims, u) at h in cc)
      | inr (read, u) ↦
          let k = rw (e, read_claims, u) at h in
          let (same, f) = (check_claims-ok_iff codec read claims now).0 k in
          (raw, e, u ∙ ap some same, subst (InForce now) same f)
    ]
  ]

  verify_parts-read_claims :
      (parts : List String) (claims : SessionClaims)
      → verify_parts codec secret now parts ≡ ok claims
      → ((h : String) × (p : String) × (parts
            ≡ h ∷ p ∷ codec.encode (codec.mac secret (h +ˢ "." +ˢ p)) ∷ [])
          × (read_claims codec p now ≡ ok claims))
  unfolding verify_parts
  verify_parts-read_claims [] claims h = absurd (cc)
  verify_parts-read_claims (a ∷ []) claims h = absurd (cc)
  verify_parts-read_claims (a ∷ b ∷ []) claims h = absurd (cc)
  verify_parts-read_claims (a ∷ b ∷ c ∷ d ∷ rest) claims h = absurd (cc)
  verify_parts-read_claims (a ∷ b ∷ c ∷ []) claims h =
      let mine = codec.encode (codec.mac secret (a +ˢ "." +ˢ b)) in
      elim (Bool-cases (str_eq c mine)) [
        | inr e ↦ absurd (let k = rw (e, verify_parts) at h in cc)
        | inl e ↦
            let k = rw (e, verify_parts) at h in
            (a, b, ap (λ x. a ∷ b ∷ x ∷ []) ((str_eq_iff c mine).0 e), k)
      ]

  -- A token that is accepted was signed with the secret, and holds the claims, which are in force.
  pub verify-IsAccepted :
      (token : String) (claims : SessionClaims)
      → verify_session_token codec secret token now ≡ ok claims
      → IsAccepted codec secret token now claims
  unfolding verify_session_token
  verify-IsAccepted token claims h =
      let (a, b, e, k) = verify_parts-read_claims (codec.split_dots token) claims h in
      let (raw, d, u, f) = read_claims-InForce b claims k in
      record {
        head = a;
        payload = b;
        raw = raw;
        signed = e;
        decoded = d;
        holds_claims = u;
        in_force = f;
      }
