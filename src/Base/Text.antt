-- ===== src/Base/Text.antt =====
-- Decimal text of numbers, as `%d` and strconv.Itoa print it.
use Prim.Native.Nat.{ℕ, zero, suc, ◌+◌, ◌/◌, ◌%◌}
use Prim.Native.String
use Prim.Native.String.{String}
use mathlib.Core.Path.{◌≡◌, refl}
use mathlib.Core.Bool.{true, false}
use training_ops_scheduling.Base.Tests.{ltb}
use training_ops_scheduling.Base.Int.{ℤ, pos, negsuc}

infixr 65 ◌+ˢ◌
abbrev pub ◌+ˢ◌ : String → String → String
s +ˢ t = String.◌++◌ s t

digit : ℕ → String
digit zero = "0"
digit (suc zero) = "1"
digit (suc (suc zero)) = "2"
digit (suc (suc (suc zero))) = "3"
digit (suc (suc (suc (suc zero)))) = "4"
digit (suc (suc (suc (suc (suc zero))))) = "5"
digit (suc (suc (suc (suc (suc (suc zero)))))) = "6"
digit (suc (suc (suc (suc (suc (suc (suc zero))))))) = "7"
digit (suc (suc (suc (suc (suc (suc (suc (suc zero)))))))) = "8"
digit _ = "9"

-- The fuel is one more than the number: each round divides it by ten.
digits_of : ℕ → ℕ → String → String
digits_of zero n text = text
digits_of (suc fuel) n text = elim (ltb n 10) [
  | true ↦ digit n +ˢ text
  | false ↦ digits_of fuel (n / 10) (digit (n % 10) +ˢ text)
]

unfoldable pub decimal : ℕ → String
unfolding digit digits_of
decimal n = digits_of (suc n) n ""

unfoldable pub itoa : ℤ → String
unfolding decimal
itoa (pos n) = decimal n
itoa (negsuc n) = "-" +ˢ decimal (n + 1)

itoa_samples : itoa (pos 1764084000) ≡ "1764084000"
unfolding itoa
itoa_samples = refl

itoa_negative : itoa (negsuc 41) ≡ "-42"
unfolding itoa
itoa_negative = refl
