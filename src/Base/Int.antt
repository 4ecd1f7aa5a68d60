-- ===== src/Base/Int.antt =====
-- Go's signed integers: ℤ over the native numbers, read through its two parts, and the increment of
-- a 64-bit counter with its wrap-around.
use Prim.Native.Nat.{ℕ, zero, suc, ◌+◌, ◌-◌, ◌%◌, ◌≤◌}
use mathlib.Core.Path.{◌≡◌}
use mathlib.Core.Logic.{◌≢◌, ◌↔◌}
use mathlib.Core.Bool.{Bool, true}
use native.Mathlib.Omega.{arith}
use training_ops_scheduling.Base.Tests.{ltb, leb, ◌==◌, if◌then◌else◌}

-- `negsuc n` is -(n + 1).
pub data ℤ : Type 0 where
  pos : ℕ → ℤ
  negsuc : ℕ → ℤ

abbrev pub pos_part : ℤ → ℕ
pos_part (pos n) = n
pos_part (negsuc n) = 0

abbrev pub neg_part : ℤ → ℕ
neg_part (pos n) = 0
neg_part (negsuc n) = suc n

-- a - b, as an integer.
abbrev pub sub_ℕ : ℕ → ℕ → ℤ
sub_ℕ a b = if leb b a then pos (a - b) else negsuc (b - a - 1)

infixl 65 ◌+ℤ◌ ◌-ℤ◌
unfoldable pub ◌+ℤ◌ : ℤ → ℤ → ℤ
a +ℤ b = sub_ℕ (pos_part a + pos_part b) (neg_part a + neg_part b)

unfoldable pub ◌-ℤ◌ : ℤ → ℤ → ℤ
a -ℤ b = sub_ℕ (pos_part a + neg_part b) (neg_part a + pos_part b)

abbrev pub eqb_ℤ : ℤ → ℤ → Bool
eqb_ℤ a b = pos_part a + neg_part b == pos_part b + neg_part a

abbrev pub ltb_ℤ : ℤ → ℤ → Bool
ltb_ℤ a b = ltb (pos_part a + neg_part b) (pos_part b + neg_part a)

infix 50 ◌≤ℤ◌
abbrev pub ◌≤ℤ◌ : ℤ → ℤ → Type 0
a ≤ℤ b = pos_part a + neg_part b ≤ pos_part b + neg_part a

abbrev pub max_int64 : ℕ
max_int64 = 9223372036854775807

-- `n++` on a 64-bit signed counter.
unfoldable pub increment : ℤ → ℤ
increment (pos n) = if n == max_int64 then negsuc max_int64 else pos (n + 1)
increment (negsuc zero) = pos 0
increment (negsuc (suc n)) = negsuc n

-- A sum of two 64-bit signed integers, with its wrap-around.
abbrev pub range64 : ℕ
range64 = 18446744073709551616

unfoldable pub to_int64 : ℤ → ℤ
to_int64 (pos n) =
    if leb (n % range64) max_int64 then pos (n % range64) else negsuc (range64 - 1 - n % range64)
to_int64 (negsuc n) =
    if leb (n % range64) max_int64 then negsuc (n % range64) else pos (range64 - 1 - n % range64)

pub increment-moves : (n : ℤ) → increment n ≢ n
unfolding increment
increment-moves (pos n) h = grind arith
increment-moves (negsuc zero) h = cc
increment-moves (negsuc (suc n)) h = grind arith

pub eqb_ℤ_iff : (a b : ℤ) → (eqb_ℤ a b ≡ true) ↔ (a ≡ b)
eqb_ℤ_iff (pos m) (pos n) = (λ h. grind arith, λ h. grind arith)
eqb_ℤ_iff (pos m) (negsuc n) = (λ h. grind arith, λ h. grind arith)
eqb_ℤ_iff (negsuc m) (pos n) = (λ h. grind arith, λ h. grind arith)
eqb_ℤ_iff (negsuc m) (negsuc n) = (λ h. grind arith, λ h. grind arith)

pub to_int64-pos : (n : ℕ) → n ≤ max_int64 → to_int64 (pos n) ≡ pos n
unfolding to_int64
to_int64-pos n h = grind arith

pub to_int64-negsuc : (n : ℕ) → n ≤ max_int64 → to_int64 (negsuc n) ≡ negsuc n
unfolding to_int64
to_int64-negsuc n h = grind arith

-- A difference of two numbers in range does not wrap around.
pub to_int64-sub_ℕ : (a b : ℕ) → a ≤ max_int64 → b ≤ max_int64 → to_int64 (sub_ℕ a b) ≡ sub_ℕ a b
to_int64-sub_ℕ a b ha hb = ground (arith, to_int64-pos (a - b), to_int64-negsuc (b - a - 1))
