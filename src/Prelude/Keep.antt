-- ===== src/Prelude/Keep.antt =====
-- What `keep` keeps, and membership in lists that are made of others.
use proof_cli_baran.Prelude.{
  ℕ, zero, suc, ◌≤◌, ◌≡◌, refl, ap, inl, inr, Bool, true, ◌&&◌, List, [], ◌∷◌, arith, Bool-cases,
  length, take, keep, Listed, listed_first, listed_later, Listed-cases, ◌++◌, map, ◌⊎◌,
}

module _ {ℓ} {A : Type ℓ} (p q : A → Bool) where
  pub keep-keep : (xs : List A) → keep p (keep q xs) ≡ keep (λ x. q x && p x) xs
  keep-keep [] = refl
  keep-keep (x ∷ xs) = ground (arith, keep-keep xs)

  pub keep-keep_same :
      (xs : List A)
      → ((x : A) → Listed x xs → p x ≡ true → q x ≡ true)
      → keep p (keep q xs) ≡ keep p xs
  keep-keep_same [] h = refl
  keep-keep_same (x ∷ xs) h =
      let later = keep-keep_same xs (λ y m. h y (listed_later m)) in
      let here = h x listed_first in ground arith

  pub length-keep-keep : (xs : List A) → length (keep p (keep q xs)) ≤ length (keep p xs)
  length-keep-keep [] = omega arith
  length-keep-keep (x ∷ xs) = ground (arith, length-keep-keep xs)

module _ {ℓ} {A : Type ℓ} (p : A → Bool) where
  pub Listed-keep : (xs : List A) (x : A) → Listed x (keep p xs) → Listed x xs × (p x ≡ true)
  Listed-keep [] x m = elim m [ ]
  Listed-keep (y ∷ ys) x m = elim (Bool-cases (p y)) [
    | inr out ↦ let (l, e) = Listed-keep ys x (rw out at m) in (listed_later l, e)
    | inl kept ↦ elim (Listed-cases x y (keep p ys) (rw kept at m)) [
      | inl same ↦ rw same (listed_first, kept)
      | inr l ↦ let (l', e) = Listed-keep ys x l in (listed_later l', e)
    ]
  ]

  pub keep-Listed : (xs : List A) (x : A) → Listed x xs → p x ≡ true → Listed x (keep p xs)
  keep-Listed [] x m e = elim m [ ]
  keep-Listed (y ∷ ys) x listed_first e = rw e listed_first
  keep-Listed (y ∷ ys) x (listed_later l) e = elim (Bool-cases (p y)) [
    | inl kept ↦ rw kept (listed_later (keep-Listed ys x l e))
    | inr out ↦ rw out (keep-Listed ys x l e)
  ]

-- The first `n` of at most `n` are all.
pub take_all {ℓ} : {A : Type ℓ} (n : ℕ) (xs : List A) → length xs ≤ n → take n xs ≡ xs
take_all zero [] h = refl
take_all zero (x ∷ xs) h = absurd (omega arith)
take_all (suc n) [] h = refl
take_all (suc n) (x ∷ xs) h = ap (λ ys. x ∷ ys) (take_all n xs (omega arith))

pub keep_all {ℓ} : {A : Type ℓ} (xs : List A) → keep (λ _. true) xs ≡ xs
keep_all [] = refl
keep_all (x ∷ xs) = ap (λ ys. x ∷ ys) (keep_all xs)

pub keep_ext {ℓ} :
    {A : Type ℓ} (p q : A → Bool) → ((x : A) → p x ≡ q x) → (xs : List A) → keep p xs ≡ keep q xs
keep_ext p q h [] = refl
keep_ext p q h (x ∷ xs) = let e = h x in ground (arith, keep_ext p q h xs)

pub Listed-append {ℓ} :
    {A : Type ℓ} (a x : A) (xs : List A) → Listed a (xs ++ x ∷ []) → Listed a xs ⊎ (a ≡ x)
Listed-append a x [] m = elim (Listed-cases a x [] m) [ inl e ↦ inr e | inr l ↦ inl l ]
Listed-append a x (y ∷ ys) m = elim (Listed-cases a y (ys ++ x ∷ []) m) [
  | inl e ↦ inl (rw e listed_first)
  | inr l ↦ elim (Listed-append a x ys l) [ inl l' ↦ inl (listed_later l') | inr e ↦ inr e ]
]

pub Listed-last {ℓ} : {A : Type ℓ} (x : A) (xs : List A) → Listed x (xs ++ x ∷ [])
Listed-last x [] = listed_first
Listed-last x (y ∷ ys) = listed_later (Listed-last x ys)

pub Listed-map {ℓ κ} :
    {A : Type ℓ} {B : Type κ} (f : A → B) (xs : List A) (x : A)
    → Listed x xs
    → Listed (f x) (map f xs)
Listed-map f [] x m = elim m [ ]
Listed-map f (y ∷ ys) x listed_first = listed_first
Listed-map f (y ∷ ys) x (listed_later l) = listed_later (Listed-map f ys x l)
