-- ===== src/Security/Tests.antt =====
-- Session tokens over small concrete codecs.
use Prim.Native.Char.{code}
use training_ops_scheduling.Base.{
  String, Bool, true, false, ◌≡◌, refl, ◌↔◌, none, some, List, [], ◌∷◌, ◌==◌, ◌+◌, str_eq,
  if◌then◌else◌,
}
use training_ops_scheduling.Base.Int.{pos}
use training_ops_scheduling.Base.Text.{◌+ˢ◌}
use training_ops_scheduling.Base.Result.{ok, err}
use training_ops_scheduling.Clock.{unix_epoch, unix, hour}
use training_ops_scheduling.Security.Token.{
  SessionClaims, Codec, sign_session_token, verify_session_token,
}
use training_ops_scheduling.Security.Trust.{InForce, Lawful, verify-sign_iff}

-- The parts of a text between its dots; `part` is the one that is being read.
unfoldable pub parts_from : String → String → List String
parts_from part String.[] = part ∷ []
parts_from part (String.◌∷◌ c rest) = elim (code c == b'.') [
  | true ↦ part ∷ parts_from "" rest
  | false ↦ parts_from (part +ˢ String.◌∷◌ c "") rest
]

abbrev pub uma_claims : SessionClaims
uma_claims = record {
  user_id = "u1";
  tenant_id = "acme";
  email = "uma@acme.test";
  role = "coordinator";
  session_id = "s1";
  expires_at = pos 3600;
}

-- Two byte strings: the claims and anything else. The key signs with the first.
abbrev pub bits : Codec
bits = record {
  Bytes = Bool;
  header = some false;
  marshal = λ c. some true;
  unmarshal = λ b. if b then some uma_claims else none;
  encode = λ b. if b then "t" else "f";
  decode =
      λ text. if str_eq text "t" then some true else if str_eq text "f" then some false else none;
  mac = λ secret text. str_eq secret "key";
  split_dots = parts_from "";
}

bits-Lawful : Lawful bits uma_claims
unfolding parts_from str_eq
bits-Lawful = record { decode_encode = coded; unmarshal_marshal = read_back; split_three = three }
  where
    coded : (b : Bool) → bits.decode (bits.encode b) ≡ some b
    coded true = refl
    coded false = refl

    read_back : (b : Bool) → bits.marshal uma_claims ≡ some b → bits.unmarshal b ≡ some uma_claims
    read_back true e = refl
    read_back false e = cc

    three :
        (a b c : Bool)
        → bits.split_dots ((bits.encode a +ˢ "." +ˢ bits.encode b) +ˢ "." +ˢ bits.encode c)
          ≡ bits.encode a ∷ bits.encode b ∷ bits.encode c ∷ []
    three true true true = refl
    three true true false = refl
    three true false true = refl
    three true false false = refl
    three false true true = refl
    three false true false = refl
    three false false true = refl
    three false false false = refl

uma_signed : sign_session_token bits "key" uma_claims ≡ ok "f.t.t"
unfolding sign_session_token str_eq
uma_signed = refl

uma_read : verify_session_token bits "key" "f.t.t" unix_epoch ≡ ok uma_claims
unfolding verify_session_token parts_from str_eq unix
uma_read = refl

uma_expired : verify_session_token bits "key" "f.t.t" (unix_epoch + hour) ≡ err "token expired"
unfolding verify_session_token parts_from str_eq unix
uma_expired = refl

verify-sign_iff_example :
    (verify_session_token bits "key" "f.t.t" unix_epoch ≡ ok uma_claims)
    ↔ InForce unix_epoch uma_claims
verify-sign_iff_example =
    verify-sign_iff bits "key" uma_claims bits-Lawful "f.t.t" unix_epoch uma_signed
