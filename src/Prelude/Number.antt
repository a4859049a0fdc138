-- ===== src/Prelude/Number.antt =====
-- JavaScript numbers where the program tests them with `Number.isFinite` and `Number.isInteger`,
-- and signed integers. A finite double is `n / 2 ^ k`.
use Prim.Native.Nat.{ℕ, suc, ◌+◌, ◌-◌, ◌/◌, ◌%◌, ◌^◌, ◌≤◌, ◌<◌}
use mathlib.Core.Path.{◌≡◌}
use mathlib.Core.Bool.{Bool, true, false}
use mathlib.Core.Option.{Option, none, some}
use native.Mathlib.Omega.{arith}
use proof_cli_baran.Prelude.Tests.{ltb, leb, ◌==◌, if◌then◌else◌}

-- `negsuc n` is -(n + 1).
pub data ℤ : Type 0 where
  pos : ℕ → ℤ
  negsuc : ℕ → ℤ

abbrev pub pos_part : ℤ → ℕ
pos_part (pos n) = n
pos_part (negsuc n) = 0

abbrev pub neg_part : ℤ → ℕ
neg_part (pos n) = 0
neg_part (negsuc n) = suc n

-- a - b, as an integer.
abbrev pub sub_ℕ : ℕ → ℕ → ℤ
sub_ℕ a b = if leb b a then pos (a - b) else negsuc (b - a - 1)

infixl 65 ◌-ℤ◌
unfoldable pub ◌-ℤ◌ : ℤ → ℤ → ℤ
a -ℤ b = sub_ℕ (pos_part a + neg_part b) (neg_part a + pos_part b)

infixl 65 ◌+ℤ◌
unfoldable pub ◌+ℤ◌ : ℤ → ℤ → ℤ
a +ℤ b = sub_ℕ (pos_part a + pos_part b) (neg_part a + neg_part b)

infix 50 ◌≤ℤ◌
abbrev pub ◌≤ℤ◌ : ℤ → ℤ → Type 0
a ≤ℤ b = pos_part a + neg_part b ≤ pos_part b + neg_part a

infix 50 ◌<ℤ◌
abbrev pub ◌<ℤ◌ : ℤ → ℤ → Type 0
a <ℤ b = pos_part a + neg_part b < pos_part b + neg_part a

abbrev pub leb_ℤ : ℤ → ℤ → Bool
leb_ℤ a b = leb (pos_part a + neg_part b) (pos_part b + neg_part a)

abbrev pub ltb_ℤ : ℤ → ℤ → Bool
ltb_ℤ a b = ltb (pos_part a + neg_part b) (pos_part b + neg_part a)

pub data Number : Type 0 where
  nan infinity minus_infinity : Number
  finite : ℤ → ℕ → Number

abbrev pub integer : ℤ → Number
integer z = finite z 0

abbrev pub whole : ℕ → Number
whole n = finite (pos n) 0

unfoldable pub is_finite : Number → Bool
is_finite (finite _ _) = true
is_finite _ = false

unfoldable pub is_integer : Number → Bool
is_integer (finite (pos n) k) = n % 2 ^ k == 0
is_integer (finite (negsuc n) k) = suc n % 2 ^ k == 0
is_integer _ = false

-- `x <= 0` and `x < 0`; every comparison with NaN is false.
unfoldable pub is_le_zero : Number → Bool
is_le_zero (finite (pos n) _) = n == 0
is_le_zero (finite (negsuc _) _) = true
is_le_zero minus_infinity = true
is_le_zero _ = false

unfoldable pub is_lt_zero : Number → Bool
is_lt_zero (finite (negsuc _) _) = true
is_lt_zero minus_infinity = true
is_lt_zero _ = false

-- `Math.floor` of n / 2 ^ k.
unfoldable pub floor : ℤ → ℕ → ℤ
floor (pos n) k = pos (n / 2 ^ k)
floor (negsuc n) k = negsuc (n / 2 ^ k)

-- The whole part of a number that is no less than 0.
unfoldable pub floor_ℕ : Number → ℕ
floor_ℕ (finite (pos n) k) = n / 2 ^ k
floor_ℕ _ = 0

-- The number that passes `Number.isInteger(x) && x > 0`.
unfoldable pub positive_integer : Number → Option ℕ
unfolding is_integer is_le_zero floor_ℕ
positive_integer x =
    if is_integer x then (if is_le_zero x then none else some (floor_ℕ x)) else none

pub positive_integer-pos : (x : Number) (n : ℕ) → positive_integer x ≡ some n → 1 ≤ n
unfolding positive_integer
positive_integer-pos (finite (pos m) k) n h = grind arith
positive_integer-pos (finite (negsuc m) k) n h = ground arith
positive_integer-pos nan n h = ground arith
positive_integer-pos infinity n h = ground arith
positive_integer-pos minus_infinity n h = ground arith
