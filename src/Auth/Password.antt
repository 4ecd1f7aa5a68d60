-- ===== src/Auth/Password.antt =====
-- repo/backend/internal/security/password.go: the rules for a new password.
use Prim.Native.Char.{Char, code}
use training_ops_scheduling.Base.{
  ℕ, ◌+◌, ◌≤◌, ◌≡◌, ◌↔◌, String, Bool, true, false, not, ◌&&◌, ◌||◌, Option, none, some, arith, ltb,
  if◌then◌else◌,
}
use training_ops_scheduling.Auth.Data.{AuthError}
use training_ops_scheduling.Auth.Unicode.{Unicode}

-- The bytes of a rune in UTF-8.
rune_len : Char → ℕ
rune_len c =
    if ltb (code c) 128
    then 1
    else if ltb (code c) 2048
    then 2
    else if ltb (code c) 65536
    then 3
    else 4

-- `len(password)`, which counts bytes. A text here is valid UTF-8.
unfoldable pub byte_len : String → ℕ
unfolding rune_len
byte_len String.[] = 0
byte_len (String.◌∷◌ c s) = rune_len c + byte_len s

pub record Classes : Type 0 where
  pub has_upper : Bool
  pub has_lower : Bool
  pub has_number : Bool
  pub has_symbol : Bool

module _ (unicode : Unicode) where
  -- The switch in the loop.
  unfoldable pub mark : Char → Classes → Classes
  mark r found =
      if unicode.is_upper r
      then record found { has_upper = true }
      else if unicode.is_lower r
      then record found { has_lower = true }
      else if unicode.is_digit r
      then record found { has_number = true }
      else if unicode.is_punct r || unicode.is_symbol r
      then record found { has_symbol = true }
      else found

  unfoldable pub mark_all : String → Classes → Classes
  mark_all String.[] found = found
  mark_all (String.◌∷◌ r s) found = mark_all s (mark r found)

  unfoldable pub validate_password : String → Option AuthError
  unfolding byte_len mark_all
  validate_password password =
      if ltb (byte_len password) 12
      then some AuthError.password_too_weak
      else let found = mark_all password (record {
        has_upper = false;
        has_lower = false;
        has_number = false;
        has_symbol = false;
      }) in
        if not found.has_upper
          || not found.has_lower
          || not found.has_number
          || not found.has_symbol
        then some AuthError.password_too_weak
        else none

  -- Some rune of the text passes the test.
  unfoldable pub any_rune : (Char → Bool) → String → Bool
  any_rune p String.[] = false
  any_rune p (String.◌∷◌ r s) = p r || any_rune p s

  abbrev pub is_lower_only : Char → Bool
  is_lower_only r = not (unicode.is_upper r) && unicode.is_lower r

  abbrev pub is_digit_only : Char → Bool
  is_digit_only r = not (unicode.is_upper r) && not (unicode.is_lower r) && unicode.is_digit r

  abbrev pub is_mark_only : Char → Bool
  is_mark_only r =
      not (unicode.is_upper r)
      && not (unicode.is_lower r)
      && not (unicode.is_digit r)
      && (unicode.is_punct r || unicode.is_symbol r)

  mark_all_lem :
      (s : String) (found : Classes)
      → ((mark_all s found).has_upper ≡ (found.has_upper || any_rune unicode.is_upper s))
        × ((mark_all s found).has_lower ≡ (found.has_lower || any_rune is_lower_only s))
        × ((mark_all s found).has_number ≡ (found.has_number || any_rune is_digit_only s))
        × ((mark_all s found).has_symbol ≡ (found.has_symbol || any_rune is_mark_only s))
  unfolding mark_all any_rune mark
  mark_all_lem String.[] found = (ground arith, ground arith, ground arith, ground arith)
  mark_all_lem (String.◌∷◌ r s) found =
      let (a, b, c, d) = mark_all_lem s (mark r found) in
      (ground arith, ground arith, ground arith, ground arith)

  -- A password is accepted exactly when it has twelve bytes or more, an upper case letter, a lower
  -- case letter, a digit, and a mark of punctuation or a symbol, a rune counting for the first of
  -- these classes that it is in.
  pub validate_password-none_iff :
      (s : String)
      → (validate_password s ≡ none) ↔ (
          (12 ≤ byte_len s)
          × (any_rune unicode.is_upper s ≡ true)
          × (any_rune is_lower_only s ≡ true)
          × (any_rune is_digit_only s ≡ true)
          × (any_rune is_mark_only s ≡ true))
  unfolding validate_password
  validate_password-none_iff s =
      let (a, b, c, d) =
        mark_all_lem s (record {
          has_upper = false;
          has_lower = false;
          has_number = false;
          has_symbol = false;
        }) in
      (λ h. ground arith, λ h. ground arith)
