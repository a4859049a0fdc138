-- ===== src/Prelude/Sorting.antt =====
-- Laws of the stable sort: it keeps the elements, sorts by a measure that the comparator respects,
-- and under a strict total order does not depend on the order of its input.
use proof_cli_baran.Prelude.{
  ℕ, suc, ◌≤◌, ◌≡◌, refl, sym, ap, ◌∙◌, ◌≢◌, inl, inr, Bool, true, false, ◌||◌, List, [], ◌∷◌,
  arith, Bool-cases, length, any, All, sort, insert_sorted, All-mono,
}

module _ {ℓ} {A : Type ℓ} (le : A → A → Bool) where
  module _ {κ} (P : A → Type κ) where
    All-insert_sorted : (a : A) (xs : List A) → P a → All P xs → All P (insert_sorted le a xs)
    unfolding insert_sorted
    All-insert_sorted a [] p h = (p, tt)
    All-insert_sorted a (x ∷ xs) p (q, h) = elim (Bool-cases (le a x)) [
      | inl before ↦ rw before (p, (q, h))
      | inr after ↦ rw after (q, All-insert_sorted a xs p h)
    ]

    pub All-sort : (xs : List A) → All P xs → All P (sort le xs)
    unfolding sort
    All-sort [] h = tt
    All-sort (x ∷ xs) (p, h) = All-insert_sorted x (sort le xs) p (All-sort xs h)

    insert_sorted-All : (a : A) (xs : List A) → All P (insert_sorted le a xs) → P a × All P xs
    unfolding insert_sorted
    insert_sorted-All a [] (p, h) = (p, tt)
    insert_sorted-All a (x ∷ xs) h = elim (Bool-cases (le a x)) [
      | inl before ↦ rw before at h
      | inr after ↦
          let (q, r) = rw after at h in let (p, s) = insert_sorted-All a xs r in (p, (q, s))
    ]

    -- What holds of every element of the sorted list holds of every element.
    pub sort-All : (xs : List A) → All P (sort le xs) → All P xs
    unfolding sort
    sort-All [] h = tt
    sort-All (x ∷ xs) h = let (p, r) = insert_sorted-All x (sort le xs) h in (p, sort-All xs r)

  length-insert_sorted : (a : A) (xs : List A) → length (insert_sorted le a xs) ≡ suc (length xs)
  unfolding insert_sorted
  length-insert_sorted a [] = refl
  length-insert_sorted a (x ∷ xs) = ground (arith, length-insert_sorted a xs)

  pub length-sort : (xs : List A) → length (sort le xs) ≡ length xs
  unfolding sort
  length-sort [] = refl
  length-sort (x ∷ xs) = omega (arith, length-insert_sorted x (sort le xs), length-sort xs)

module _ {ℓ} {A : Type ℓ} (le : A → A → Bool) (p : A → Bool) where
  any-insert_sorted : (a : A) (xs : List A) → any p (insert_sorted le a xs) ≡ (p a || any p xs)
  unfolding insert_sorted
  any-insert_sorted a [] = refl
  any-insert_sorted a (x ∷ xs) = ground (arith, any-insert_sorted a xs)

  pub any-sort : (xs : List A) → any p (sort le xs) ≡ any p xs
  unfolding sort
  any-sort [] = refl
  any-sort (x ∷ xs) = any-insert_sorted x (sort le xs) ∙ ap (λ b. p x || b) (any-sort xs)

  sort-eq-nil_step : (a : A) (xs : List A) → insert_sorted le a xs ≢ []
  unfolding insert_sorted
  sort-eq-nil_step a [] e = cc
  sort-eq-nil_step a (x ∷ xs) e = ground arith

module _ {ℓ} {A : Type ℓ} (m : A → ℕ) where
  abbrev pub Rising : List A → Type 0
  Rising [] = Unit
  Rising (x ∷ xs) = All (λ y. m x ≤ m y) xs × Rising xs

module _ {ℓ} {A : Type ℓ} (le : A → A → Bool) (m : A → ℕ)
    (upward : (a b : A) → le a b ≡ true → m a ≤ m b)
    (downward : (a b : A) → le a b ≡ false → m b ≤ m a) where
  Rising-insert_sorted : (a : A) (xs : List A) → Rising m xs → Rising m (insert_sorted le a xs)
  unfolding insert_sorted
  Rising-insert_sorted a [] h = (tt, tt)
  Rising-insert_sorted a (x ∷ xs) (q, h) = elim (Bool-cases (le a x)) [
    | inl before ↦
        let low = upward a x before in
        rw before
          ((low, All-mono (λ y. m x ≤ m y) (λ y. m a ≤ m y) (λ y p. omega arith) xs q), (q, h))
    | inr after ↦ rw after (
      All-insert_sorted le (λ y. m x ≤ m y) a xs (downward a x after) q,
      Rising-insert_sorted a xs h,
    )
  ]

  -- A sorted list rises in every measure that the comparator respects.
  pub Rising-sort : (xs : List A) → Rising m (sort le xs)
  unfolding sort
  Rising-sort [] = tt
  Rising-sort (x ∷ xs) = Rising-insert_sorted x (sort le xs) (Rising-sort xs)

module _ {ℓ} {A : Type ℓ} (le : A → A → Bool) (total : (a b : A) → le a b ≡ false → le b a ≡ true)
    (transitive : (a b c : A) → le a b ≡ true → le b c ≡ true → le a c ≡ true) where
  insert_sorted_first :
      (a b : A) (xs : List A)
      → (le a b ≡ true → le b a ≡ true → a ≡ b)
      → le a b ≡ true
      → insert_sorted le a (insert_sorted le b xs) ≡ insert_sorted le b (insert_sorted le a xs)
  unfolding insert_sorted
  insert_sorted_first a b [] same ab = ground (arith, same ab)
  insert_sorted_first a b (x ∷ xs) same ab = ground (
    arith,
    same ab,
    insert_sorted_first a b xs same ab,
    transitive a b x ab,
    total a x,
    total b x,
  )

  -- Of two elements that the order tells apart, it does not matter which is inserted first.
  pub insert_sorted_comm :
      (a b : A) (xs : List A)
      → (le a b ≡ true → le b a ≡ true → a ≡ b)
      → insert_sorted le a (insert_sorted le b xs) ≡ insert_sorted le b (insert_sorted le a xs)
  insert_sorted_comm a b xs same = elim (Bool-cases (le a b)) [
    | inl ab ↦ insert_sorted_first a b xs same ab
    | inr ba ↦ sym (insert_sorted_first b a xs (λ h k. sym (same k h)) (total a b ba))
  ]

pub sort-eq-nil {ℓ} : {A : Type ℓ} (le : A → A → Bool) (xs : List A) → sort le xs ≡ [] → xs ≡ []
unfolding sort
sort-eq-nil le [] e = refl
sort-eq-nil le (x ∷ xs) e = absurd (sort-eq-nil_step le (λ _. true) x (sort le xs) e)
