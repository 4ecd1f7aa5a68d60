-- ===== src/Auth/Tests.antt =====
-- The authentication component on concrete users and sessions: its theorems applied. The Unicode tables
-- and bcrypt are small concrete functions.
mod Postgres
use Prim.Native.Char.{code}
use training_ops_scheduling.Base.{
  ◌+◌, ◌*◌, ◌<◌, ◌≤◌, ◌≡◌, ◌≢◌, ◌↔◌, refl, String, true, false, ◌&&◌, none, some, [], ◌∷◌, leb,
  str_eq, str_eq_iff,
}
use training_ops_scheduling.Base.Int.{pos}
use training_ops_scheduling.Base.Result.{ok, err}
use training_ops_scheduling.Base.Table.{lookup}
use training_ops_scheduling.Clock.{Time, minute}
use training_ops_scheduling.Auth.Data.{User, Session, AuthError}
use training_ops_scheduling.Auth.Unicode.{Unicode}
use training_ops_scheduling.Auth.Password.{
  mark, validate_password, validate_password-none_iff, byte_len, any_rune, is_lower_only,
  is_digit_only, is_mark_only,
}
use training_ops_scheduling.Auth.Memory.{
  Store, new_store, user_key, session_key, get_by_email, revoke, is_active, failed_user, reset_user,
}
use training_ops_scheduling.Auth.Memory.Users.{UniqueId, rewritten}
use training_ops_scheduling.Auth.Memory.Sessions.{here, onward, ended, revoked_for_good}
use training_ops_scheduling.Auth.Service.{Bcrypt, locked_at}
use training_ops_scheduling.Auth.Service.Authenticate.{attempt, attempts, five_failures_lock}
use training_ops_scheduling.Auth.Service.Register.{sign_up, registered, register-authenticate}

-- ASCII.
abbrev ascii : Unicode
ascii = record {
  to_lower = λ s. s;
  trim_space = λ s. s;
  is_upper = λ c. leb b'A' (code c) && leb (code c) b'Z';
  is_lower = λ c. leb b'a' (code c) && leb (code c) b'z';
  is_digit = λ c. leb b'0' (code c) && leb (code c) b'9';
  is_punct = λ c. leb b'!' (code c) && leb (code c) b'/';
  is_symbol = λ c. false;
}

abbrev plain : Bcrypt
plain = record { generate_from_password = λ p. ok p; matches = str_eq }

abbrev eve : User
eve = record {
  id = "u1";
  tenant_id = "acme";
  email = "eve";
  display_name = "Eve";
  role = "learner";
  password_hash = "Admin12345678!";
  failed_attempts = pos 0;
  locked_until = none;
  pii_encrypted = [];
  password_changed_at = 0;
  created_at = 0;
  updated_at = 0;
}

abbrev login : Session
login = record {
  id = "s1";
  tenant_id = "acme";
  user_id = "u1";
  refresh_token_hash = "rt_0";
  expires_at = 100;
  last_used_at = 0;
  revoked_at = none;
  created_at = 0;
  updated_at = 0;
}

abbrev second_login : Session
second_login = record login { id = "s2" }

abbrev shop : Store
shop = record { users = ("acme:eve", eve) ∷ []; sessions = ("acme:s1", login) ∷ [] }

abbrev secret : String
secret = "Admin12345678!"

strong : validate_password ascii secret ≡ none
unfolding validate_password mark
strong = refl

validate_password-none_iff_example : (validate_password ascii secret ≡ none) ↔ (
    (12 ≤ byte_len secret)
    × (any_rune ascii ascii.is_upper secret ≡ true)
    × (any_rune ascii (is_lower_only ascii) secret ≡ true)
    × (any_rune ascii (is_digit_only ascii) secret ≡ true)
    × (any_rune ascii (is_mark_only ascii) secret ≡ true))
validate_password-none_iff_example = validate_password-none_iff ascii secret

found_eve : get_by_email ascii "acme" "eve" shop ≡ ok eve
unfolding get_by_email lookup user_key str_eq
found_eve = refl

only_eve : UniqueId ascii "eve" eve shop
unfolding user_key
only_eve = (λ _. refl, tt)

wrong : str_eq secret "guess" ≡ false
unfolding str_eq
wrong = refl

five_failures_lock_example :
    let s' =
      (attempt ascii plain "acme" "eve" "guess" 5 (
        attempts ascii plain "acme" "eve"
          (("guess", 1) ∷ ("guess", 2) ∷ ("guess", 3) ∷ ("guess", 4) ∷ [])
          shop)).0 in
    ((password : String) (now : Time)
      → now < 5 + 15 * minute
      → attempt ascii plain "acme" "eve" password now s' ≡ (s', err AuthError.account_locked))
    × ((password : String) (now : Time)
        → 5 + 15 * minute ≤ now
        → str_eq secret password ≡ true
        → (found : User) × ((attempt ascii plain "acme" "eve" password now s').1 ≡ ok found))
five_failures_lock_example =
    five_failures_lock ascii plain "acme" "eve" "guess" 5
      (("guess", 1) ∷ ("guess", 2) ∷ ("guess", 3) ∷ ("guess", 4) ∷ []) eve shop found_eve refl
      only_eve refl refl refl (wrong, (wrong, (wrong, (wrong, tt)))) wrong

nobody : get_by_email ascii "acme" "eve" new_store ≡ err AuthError.not_found
unfolding get_by_email lookup new_store
nobody = refl

right : str_eq secret secret ≡ true
unfolding str_eq
right = refl

open_eve : locked_at 9 eve ≡ false
unfolding locked_at
open_eve = refl

register-authenticate_example :
    (attempt ascii plain "acme" "eve" secret 9 (sign_up ascii plain eve secret 5 new_store).0).1
    ≡ ok (registered ascii plain eve secret 5)
register-authenticate_example =
    register-authenticate ascii plain eve secret 5 new_store 9 secret strong nobody refl right
      open_eve

found_login : lookup (session_key "acme" "s1") shop.sessions ≡ some login
unfolding lookup session_key str_eq
found_login = refl

revoked_for_good_example :
    is_active "acme" "s1" 9 (revoke "acme" "s1" 6 (revoke "acme" "s1" 5 shop).0).0 ≡ ok false
revoked_for_good_example =
    revoked_for_good "acme" "s1" 5 9 shop (revoke "acme" "s1" 6 (revoke "acme" "s1" 5 shop).0).0
      login found_login (onward here (ended "acme" "s1" 6))

keys_differ : session_key "acme" "s1" ≢ session_key "acme" "s2"
unfolding session_key str_eq
keys_differ h =
    let same = (str_eq_iff "acme:s1" "acme:s2").1 h in
    let other : str_eq "acme:s1" "acme:s2" ≡ false = refl in cc
