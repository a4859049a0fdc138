-- ===== src/Ingress/BigInt.antt =====
-- `BigInt(value)` of JavaScript, on the values that src/switchboard-core/src/ingress-quote.ts gives it.
use proof_cli_baran.Prelude.{
  ℕ, suc, ◌+◌, ◌-◌, ◌*◌, ◌/◌, ◌^◌, not, ◌&&◌, ◌||◌, Option, none, some, [], ◌∷◌, ltb, leb, ◌==◌,
  if◌then◌else◌,
}
use proof_cli_baran.Prelude.Text.{Text, trim}
use proof_cli_baran.Prelude.Number.{ℤ, pos, negsuc, sub_ℕ, Number, finite, is_integer}

-- `bigint | number | string`
pub data IntegerLike : Type 0 where
  bigint : ℤ → IntegerLike
  number : Number → IntegerLike
  text : Text → IntegerLike

digit_value : ℕ → ℕ
digit_value c =
    if leb b'0' c && leb c b'9'
    then c - b'0'
    else if leb b'a' c && leb c b'f'
    then c - b'a' + 10
    else if leb b'A' c && leb c b'F'
    then c - b'A' + 10
    else 16

read_digits : ℕ → ℕ → Text → Option ℕ
unfolding digit_value
read_digits base n [] = some n
read_digits base n (c ∷ s) =
    let rest = read_digits base (n * base + digit_value c) s in
    if ltb (digit_value c) base then rest else none

-- At least one digit.
read_numeral : ℕ → Text → Option ℕ
unfolding read_digits
read_numeral base [] = none
read_numeral base (c ∷ s) = read_digits base 0 (c ∷ s)

signed : (ℕ → ℤ) → Option ℕ → Option ℤ
signed f none = none
signed f (some n) = some (f n)

-- The base that a numeral names, and what follows the prefix.
based : Text → Option (ℕ × Text)
based [] = none
based (z ∷ []) = none
based (z ∷ x ∷ s) =
    if not (z == b'0')
    then none
    else if x == b'x' || x == b'X'
    then some (16, s)
    else if x == b'o' || x == b'O'
    then some (8, s)
    else if x == b'b' || x == b'B'
    then some (2, s)
    else none

decimal : Text → Option ℤ
unfolding signed read_numeral
decimal [] = some (pos 0)
decimal (c ∷ s) =
    if c == b'-'
    then signed (λ n. sub_ℕ 0 n) (read_numeral 10 s)
    else if c == b'+'
    then signed pos (read_numeral 10 s)
    else signed pos (read_numeral 10 (c ∷ s))

-- A text without white space around it; one that is no numeral throws.
integer_text : Text → Option ℤ
unfolding based decimal signed read_numeral
integer_text s = elim (based s) [
  | none ↦ decimal s
  | some (base, digits) ↦ signed pos (read_numeral base digits)
]

whole_value : Number → ℤ
whole_value (finite (pos n) k) = pos (n / 2 ^ k)
whole_value (finite (negsuc n) k) = sub_ℕ 0 (suc n / 2 ^ k)
whole_value _ = pos 0

-- `none` stands for a call that throws.
unfoldable pub big_int : IntegerLike → Option ℤ
unfolding integer_text whole_value is_integer trim
big_int (bigint z) = some z
big_int (number x) = if is_integer x then some (whole_value x) else none
big_int (text s) = integer_text (trim s)
