-- ===== src/Prelude/Decimal.antt =====
-- Decimal numerals: `${n}` of a non-negative integer, and reading `\d+` back.
use Prim.Native.Nat.{ℕ, zero, suc, ◌+◌, ◌-◌, ◌*◌, ◌/◌, ◌%◌, ◌<◌}
use mathlib.Core.Path.{◌≡◌, refl, ◌∙◌}
use mathlib.Core.Bool.{Bool, true, ◌&&◌}
use mathlib.Core.List.{[], ◌∷◌}
use mathlib.Core.Option.{Option, none, some}
use native.Mathlib.Omega.{arith}
use proof_cli_baran.Prelude.Tests.{ltb, leb, if◌then◌else◌, Bool-cases}
use proof_cli_baran.Prelude.Lists.{All}
use proof_cli_baran.Prelude.Text.{Text}
use mathlib.Core.Logic.{inl, inr, ◌≢◌}

abbrev pub is_digit : ℕ → Bool
is_digit c = leb b'0' c && leb c b'9'

digits_from : ℕ → ℕ → Text → Text
digits_from zero n acc = acc
digits_from (suc f) n acc =
    let more = digits_from f (n / 10) ((b'0' + n % 10) ∷ acc) in
    if ltb n 10 then (b'0' + n) ∷ acc else more

-- The number has at most `suc n` digits.
unfoldable pub show_ℕ : ℕ → Text
unfolding digits_from
show_ℕ n = digits_from (suc n) n []

unfoldable pub read_from : ℕ → Text → Option ℕ
read_from a [] = some a
read_from a (c ∷ s) =
    let rest = read_from (a * 10 + (c - b'0')) s in if is_digit c then rest else none

unfoldable pub read_ℕ : Text → Option ℕ
unfolding read_from
read_ℕ [] = none
read_ℕ (c ∷ s) = read_from 0 (c ∷ s)

read_from-digits_from :
    (f n : ℕ) (acc : Text) → n < f → read_from 0 (digits_from f n acc) ≡ read_from n acc
unfolding digits_from
read_from-digits_from zero n acc h = elim h [ ]
read_from-digits_from (suc f) n acc h = elim (Bool-cases (ltb n 10)) [
  | inl small ↦ rw small (unfold read_from in ground arith)
  | inr large ↦ rw large (
      read_from-digits_from f (n / 10) ((b'0' + n % 10) ∷ acc) (ground arith)
      ∙ unfold read_from in ground arith)
]

digits_from_nonempty : (f n : ℕ) (c : ℕ) (acc : Text) → digits_from f n (c ∷ acc) ≢ []
unfolding digits_from
digits_from_nonempty zero n c acc = λ e. ground arith
digits_from_nonempty (suc f) n c acc =
    λ e. ground (arith, digits_from_nonempty f (n / 10) (b'0' + n % 10) (c ∷ acc))

pub show_ℕ_nonempty : (n : ℕ) → show_ℕ n ≢ []
unfolding show_ℕ
show_ℕ_nonempty n = λ e. ground (arith, digits_from_nonempty n (n / 10) (b'0' + n % 10) [])

read_ℕ-eq-read_from : (s : Text) → s ≢ [] → read_ℕ s ≡ read_from 0 s
unfolding read_ℕ
read_ℕ-eq-read_from [] h = absurd (h refl)
read_ℕ-eq-read_from (c ∷ s) h = refl

read_from-show_ℕ : (n : ℕ) → read_from 0 (show_ℕ n) ≡ some n
unfolding show_ℕ read_from
read_from-show_ℕ n = read_from-digits_from (suc n) n [] (omega arith)

pub read_ℕ-show_ℕ : (n : ℕ) → read_ℕ (show_ℕ n) ≡ some n
read_ℕ-show_ℕ n = read_ℕ-eq-read_from (show_ℕ n) (show_ℕ_nonempty n) ∙ read_from-show_ℕ n

digits_from-All :
    (f n : ℕ) (acc : Text)
    → All (λ c. is_digit c ≡ true) acc
    → All (λ c. is_digit c ≡ true) (digits_from f n acc)
unfolding digits_from
digits_from-All zero n acc h = h
digits_from-All (suc f) n acc h = elim (Bool-cases (ltb n 10)) [
  | inl small ↦ rw small (ground arith, h)
  | inr large ↦ rw large (digits_from-All f (n / 10) ((b'0' + n % 10) ∷ acc) (ground arith, h))
]

pub show_ℕ-All : (n : ℕ) → All (λ c. is_digit c ≡ true) (show_ℕ n)
unfolding show_ℕ
show_ℕ-All n = digits_from-All (suc n) n [] tt

show_tests : show_ℕ 604800000 ≡ b'6' ∷ b'0' ∷ b'4' ∷ b'8' ∷ b'0' ∷ b'0' ∷ b'0' ∷ b'0' ∷ b'0' ∷ []
unfolding show_ℕ
show_tests = refl
