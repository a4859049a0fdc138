-- ===== src/Prelude/TextMap.antt =====
-- Maps from texts, as lists of entries.
use proof_cli_baran.Prelude.{
  ◌≡◌, inl, inr, Option, none, some, List, [], ◌∷◌, if◌then◌else◌, Bool-cases, All,
}
use proof_cli_baran.Prelude.Text.{Text, text_eq, text_eq_iff}

abbrev pub value_or {ℓ} : {A : Type ℓ} → A → Option A → A
value_or a none = a
value_or a (some b) = b

-- An object used as a map, by its own members.
unfoldable pub lookup_text {ℓ} : {A : Type ℓ} → Text → List (Text × A) → Option A
lookup_text k [] = none
lookup_text k ((j, a) ∷ entries) = if text_eq j k then some a else lookup_text k entries

unfoldable pub put_text {ℓ} : {A : Type ℓ} → Text → A → List (Text × A) → List (Text × A)
put_text k a [] = (k, a) ∷ []
put_text k a ((j, b) ∷ entries) =
    let later = put_text k a entries in if text_eq j k then (j, a) ∷ entries else (j, b) ∷ later

pub put_text-All {ℓ κ} :
    {A : Type ℓ} (P : Text × A → Type κ) (k : Text) (a : A) (entries : List (Text × A))
    → P (k, a)
    → All P entries
    → All P (put_text k a entries)
unfolding put_text
put_text-All P k a [] p ps = (p, tt)
put_text-All P k a ((j, b) ∷ entries) p (q, ps) = elim (Bool-cases (text_eq j k)) [
  | inl same ↦ rw (same, put_text, (text_eq_iff j k).0 same) (p, ps)
  | inr other ↦ rw (other, put_text) (q, put_text-All P k a entries p ps)
]

-- What holds of every entry holds of the one that is found, if it holds without one.
pub lookup_text-All {ℓ κ} :
    {A : Type ℓ} (P : A → Type κ) (k : Text) (empty : A) (entries : List (Text × A))
    → P empty
    → All (λ entry. P entry.1) entries
    → P (value_or empty (lookup_text k entries))
unfolding lookup_text
lookup_text-All P k empty [] p ps = p
lookup_text-All P k empty ((j, a) ∷ entries) p (q, ps) = elim (Bool-cases (text_eq j k)) [
  | inl same ↦ rw (same, lookup_text) q
  | inr other ↦ rw (other, lookup_text) (lookup_text-All P k empty entries p ps)
]

-- What holds of every entry holds of one that is found.
pub lookup_text-found {ℓ κ} :
    {A : Type ℓ} (P : Text × A → Type κ) (k : Text) (a : A) (entries : List (Text × A))
    → lookup_text k entries ≡ some a
    → All P entries
    → P (k, a)
unfolding lookup_text
lookup_text-found P k a [] h ps = absurd (cc h)
lookup_text-found P k a ((j, b) ∷ entries) h (p, ps) = elim (Bool-cases (text_eq j k)) [
  | inl same ↦
      let e : j ≡ k = (text_eq_iff j k).0 same in
      let e' : b ≡ a = cc (rw (same, lookup_text) at h) in rw (← e, ← e') p
  | inr other ↦ lookup_text-found P k a entries (rw (other, lookup_text) at h) ps
]
