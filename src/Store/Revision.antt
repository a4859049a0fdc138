-- ===== src/Store/Revision.antt =====
-- Revisions `<generation>-<hash>`: `nextRevision` and `assertExpectedRevision`.
use Prim.Native.String.{String}
use proof_cli_baran.Prelude.{
  ℕ, ◌+◌, ◌≡◌, refl, ap, ◌∙◌, ◌≢◌, ◌↔◌, true, Option, none, some, [], ◌∷◌, ◌++◌, arith, ◌==◌,
  if◌then◌else◌, take, All,
}
use proof_cli_baran.Prelude.Text.{Text, codes, text_eq, text_eq_iff}
use proof_cli_baran.Prelude.Decimal.{
  is_digit, show_ℕ, read_ℕ, read_ℕ-show_ℕ, show_ℕ-All, show_ℕ_nonempty,
}
use proof_cli_baran.Store.Types.{Document, Error, revision_conflict}

-- `rev.split("-", 1)[0]`
pub before_dash : Text → Text
before_dash [] = []
before_dash (c ∷ s) = let rest = c ∷ before_dash s in if c == b'-' then [] else rest

-- `Number(text)` on decimal digits, `Number("") = 0`; `none` stands for NaN.
to_number : Text → Option ℕ
to_number [] = some 0
to_number (c ∷ s) = read_ℕ (c ∷ s)

-- `previousRev ? Number(previousRev.split("-", 1)[0]) : 0`
unfoldable pub previous_generation : Option Text → Option ℕ
unfolding to_number before_dash
previous_generation none = some 0
previous_generation (some []) = some 0
previous_generation (some (c ∷ s)) = to_number (before_dash (c ∷ s))

-- `${previousGeneration + 1}`
show_next : Option ℕ → Text
show_next none = codes "NaN"
show_next (some g) = show_ℕ (g + 1)

-- `digest` is the SHA-256 of `JSON.stringify({ sequence, value })`, in hexadecimal.
module _ {ℓ} {T : Type ℓ} (digest : ℕ → T → Text) where
  unfoldable pub next_revision : Option Text → ℕ → T → Text
  unfolding show_next
  next_revision previous sequence value =
      show_next (previous_generation previous) ++ b'-' ∷ take 16 (digest sequence value)

abbrev pub rev_of {ℓ} : {T : Type ℓ} → Option (Document T) → Option Text
rev_of none = none
rev_of (some d) = some d.rev

-- The error that is thrown, if any.
unfoldable pub assert_expected_revision {ℓ} :
    {T : Type ℓ} → String → Option (Document T) → Option Text → Option Error
assert_expected_revision id none none = none
assert_expected_revision id none (some r) = some (revision_conflict id (some r) none)
assert_expected_revision id (some d) none = some (revision_conflict id none (some d.rev))
assert_expected_revision id (some d) (some r) =
    if text_eq r d.rev then none else some (revision_conflict id (some r) (some d.rev))

before_dash-append : (s t : Text) → All (λ c. is_digit c ≡ true) s → before_dash (s ++ b'-' ∷ t) ≡ s
unfolding before_dash
before_dash-append [] t h = refl
before_dash-append (c ∷ s) t h = ground (arith, h.0, before_dash-append s t h.1)

to_number-eq-read_ℕ : (s : Text) → s ≢ [] → to_number s ≡ read_ℕ s
unfolding to_number
to_number-eq-read_ℕ [] ne = absurd (ne refl)
to_number-eq-read_ℕ (c ∷ s) ne = refl

previous_generation-append :
    (s t : Text) → s ≢ [] → previous_generation (some (s ++ t)) ≡ to_number (before_dash (s ++ t))
unfolding previous_generation
previous_generation-append [] t ne = absurd (ne refl)
previous_generation-append (c ∷ s) t ne = refl

generation_of_show : (n : ℕ) (t : Text) → previous_generation (some (show_ℕ n ++ b'-' ∷ t)) ≡ some n
generation_of_show n t =
    previous_generation-append (show_ℕ n) (b'-' ∷ t) (show_ℕ_nonempty n)
    ∙ ap to_number (before_dash-append (show_ℕ n) t (show_ℕ-All n))
    ∙ to_number-eq-read_ℕ (show_ℕ n) (show_ℕ_nonempty n)
    ∙ read_ℕ-show_ℕ n

-- The generation of a new revision is one more than that of the revision before it.
pub previous_generation-next_revision {ℓ} :
    {T : Type ℓ} (digest : ℕ → T → Text) (previous : Option Text) (sequence : ℕ) (value : T) (g : ℕ)
    → previous_generation previous ≡ some g
    → previous_generation (some (next_revision digest previous sequence value)) ≡ some (g + 1)
unfolding next_revision
previous_generation-next_revision digest previous sequence value g h =
    rw h (generation_of_show (g + 1) (take 16 (digest sequence value)))

-- A revision is accepted exactly when it is the stored one; where nothing is stored, only its absence is.
pub assert_expected_revision_iff {ℓ} :
    {T : Type ℓ} (id : String) (existing : Option (Document T)) (expected : Option Text)
    → (assert_expected_revision id existing expected ≡ none) ↔ (expected ≡ rev_of existing)
unfolding assert_expected_revision
assert_expected_revision_iff id none none = (λ e. refl, λ e. refl)
assert_expected_revision_iff id none (some r) = (λ e. cc, λ e. cc)
assert_expected_revision_iff id (some d) none = (λ e. cc, λ e. cc)
assert_expected_revision_iff id (some d) (some r) =
    (λ e. ground (arith, text_eq_iff r d.rev), λ e. ground (arith, text_eq_iff r d.rev))
