-- ===== src/Relay/Duration.antt =====
-- src/switchboard-core/cli/src/relay/duration.ts: `15m`, `7d` and the like, and milliseconds.
use native.Mathlib.Nat.{div-add-mod'}
use proof_cli_baran.Prelude.{
  ℕ, ◌*◌, ◌/◌, ◌%◌, ◌≡◌, refl, ap, ◌∙◌, inl, inr, true, false, Option, none, some, [], ◌∷◌, ◌++◌,
  arith, ◌==◌, if◌then◌else◌, ==_iff, Bool-cases, All, All-append, All-mono,
}
use proof_cli_baran.Prelude.Text.{Text, codes, text_eq, is_space, trim, trim_solid}
use proof_cli_baran.Prelude.Decimal.{is_digit, show_ℕ, read_ℕ, read_ℕ-show_ℕ, show_ℕ-All}

pub data DurationError : Type 0 where
  invalid_duration : Text → DurationError

pub data Parsed : Type 0 where
  millis : ℕ → Parsed
  bad : DurationError → Parsed

-- The digits that a text begins with, and what follows them.
leading_digits : Text → Text × Text
leading_digits [] = ([], [])
leading_digits (c ∷ s) =
    let rest = leading_digits s in if is_digit c then (c ∷ rest.0, rest.1) else ([], c ∷ s)

-- The milliseconds of a unit.
unit_ms : Text → Option ℕ
unit_ms u =
    if text_eq u (codes "ms")
    then some 1
    else if text_eq u (codes "s")
    then some 1_000
    else if text_eq u (codes "m")
    then some 60_000
    else if text_eq u (codes "h")
    then some (60 * 60_000)
    else if text_eq u (codes "d")
    then some (24 * 60 * 60_000)
    else if text_eq u (codes "w")
    then some (7 * 24 * 60 * 60_000)
    else none

-- `/^(\d+)(ms|s|m|h|d|w)$/`: no unit begins with a digit, so the digits are all that lead.
matched : Text → Option ℕ → Option ℕ → Parsed
matched value (some amount) (some unit) = millis (amount * unit)
matched value (some amount) none = bad (invalid_duration value)
matched value none unit = bad (invalid_duration value)

unfoldable pub parse_duration : Text → Parsed
unfolding leading_digits unit_ms matched
parse_duration value =
    let parts = leading_digits (trim value) in matched value (read_ℕ parts.0) (unit_ms parts.1)

abbrev pub week_ms : ℕ
week_ms = 7 * 24 * 60 * 60_000

abbrev pub day_ms : ℕ
day_ms = 24 * 60 * 60_000

unfoldable pub format_duration : ℕ → Text
format_duration ms =
    if ms % week_ms == 0
    then show_ℕ (ms / week_ms) ++ codes "w"
    else if ms % day_ms == 0
    then show_ℕ (ms / day_ms) ++ codes "d"
    else if ms % 3_600_000 == 0
    then show_ℕ (ms / 3_600_000) ++ codes "h"
    else if ms % 60_000 == 0
    then show_ℕ (ms / 60_000) ++ codes "m"
    else if ms % 1_000 == 0
    then show_ℕ (ms / 1_000) ++ codes "s"
    else show_ℕ ms ++ codes "ms"

-- A unit's letters: none is a digit or white space.
IsUnit : Text → ℕ → Type 0
IsUnit u k =
    (unit_ms u ≡ some k) × All (λ c. is_digit c ≡ false) u × All (λ c. is_space c ≡ false) u

leading_digits-append :
    (s u : Text)
    → All (λ c. is_digit c ≡ true) s
    → All (λ c. is_digit c ≡ false) u
    → leading_digits (s ++ u) ≡ (s, u)
unfolding leading_digits
leading_digits-append [] [] h k = refl
leading_digits-append [] (c ∷ u) h k = ground (arith, k.0)
leading_digits-append (c ∷ s) u h k = ground (arith, h.0, leading_digits-append s u h.1 k)

digit-not-space : (c : ℕ) → is_digit c ≡ true → is_space c ≡ false
unfolding is_space
digit-not-space c h = ground arith

-- A number and a unit are read as their product.
parse_number_unit :
    (n k : ℕ) (u : Text) → IsUnit u k → parse_duration (show_ℕ n ++ u) ≡ millis (n * k)
unfolding parse_duration IsUnit
parse_number_unit n k u (unit, letters, solid) =
    let plain : All (λ c. is_space c ≡ false) (show_ℕ n ++ u) =
      All-append (λ c. is_space c ≡ false) (show_ℕ n) u
        (All-mono (λ c. is_digit c ≡ true) (λ c. is_space c ≡ false) digit-not-space (show_ℕ n)
          (show_ℕ-All n))
        solid in
    rw
      (
        trim_solid (show_ℕ n ++ u) plain,
        leading_digits-append (show_ℕ n) u (show_ℕ-All n) letters,
        read_ℕ-show_ℕ,
        unit,
      )
      refl

parse-whole_units :
    (ms k : ℕ) (u : Text)
    → IsUnit u k
    → (ms % k == 0) ≡ true
    → parse_duration (show_ℕ (ms / k) ++ u) ≡ millis ms
parse-whole_units ms k u unit whole_units =
    parse_number_unit (ms / k) k u unit
    ∙ ap (λ (n : ℕ). millis n)
        (let e : ms % k ≡ 0 = (==_iff (ms % k) 0).0 whole_units in omega (arith, div-add-mod' ms k))

-- What is printed is read back as the same number of milliseconds.
pub parse_duration-format_duration : (ms : ℕ) → parse_duration (format_duration ms) ≡ millis ms
unfolding format_duration IsUnit unit_ms text_eq is_space
parse_duration-format_duration ms = elim (Bool-cases (ms % week_ms == 0)) [
  | inl weeks ↦
      rw weeks (parse-whole_units ms week_ms (codes "w") (refl, (refl, tt), (refl, tt)) weeks)
  | inr not_weeks ↦ elim (Bool-cases (ms % day_ms == 0)) [
    | inl days ↦
        rw (not_weeks, days)
          (parse-whole_units ms day_ms (codes "d") (refl, (refl, tt), (refl, tt)) days)
    | inr not_days ↦ elim (Bool-cases (ms % 3_600_000 == 0)) [
      | inl hours ↦
          rw (not_weeks, not_days, hours)
            (parse-whole_units ms 3_600_000 (codes "h") (refl, (refl, tt), (refl, tt)) hours)
      | inr not_hours ↦ elim (Bool-cases (ms % 60_000 == 0)) [
        | inl minutes ↦
            rw (not_weeks, not_days, not_hours, minutes)
              (parse-whole_units ms 60_000 (codes "m") (refl, (refl, tt), (refl, tt)) minutes)
        | inr not_minutes ↦ elim (Bool-cases (ms % 1_000 == 0)) [
          | inl seconds ↦
              rw (not_weeks, not_days, not_hours, not_minutes, seconds)
                (parse-whole_units ms 1_000 (codes "s") (refl, (refl, tt), (refl, tt)) seconds)
          | inr not_seconds ↦
              rw (not_weeks, not_days, not_hours, not_minutes, not_seconds)
                (parse_number_unit ms 1 (codes "ms") (refl, (refl, (refl, tt)), (refl, (refl, tt)))
                  ∙ ap (λ (n : ℕ). millis n) (omega arith))
        ]
      ]
    ]
  ]
]
