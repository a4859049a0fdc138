-- ===== src/Prelude/Lists.antt =====
-- Lists measured by native numbers, predicates on lists by recursion, and a stable sort.
use Prim.Native.Nat.{ℕ, zero, suc, ◌+◌}
use mathlib.Core.Path.{◌≡◌, refl, ap, ◌∙◌}
use mathlib.Core.Logic.{◌⊎◌, inl, inr}
use mathlib.Core.Bool.{Bool, true, false, ◌&&◌, ◌||◌}
use mathlib.Core.List.{List, [], ◌∷◌, ◌++◌}
use mathlib.Core.Option.{Option, none, some}
use native.Mathlib.Omega.{arith}
use proof_cli_baran.Prelude.Tests.{if◌then◌else◌}

module _ {ℓ} {A : Type ℓ} where
  abbrev pub length : List A → ℕ
  length [] = 0
  length (x ∷ xs) = suc (length xs)

  abbrev pub get_elem? : List A → ℕ → Option A
  get_elem? [] i = none
  get_elem? (x ∷ xs) zero = some x
  get_elem? (x ∷ xs) (suc i) = get_elem? xs i

  abbrev pub take : ℕ → List A → List A
  take zero xs = []
  take (suc n) [] = []
  take (suc n) (x ∷ xs) = x ∷ take n xs

  abbrev pub drop : ℕ → List A → List A
  drop zero xs = xs
  drop (suc n) [] = []
  drop (suc n) (x ∷ xs) = drop n xs

  -- `Array.prototype.every`, `some`, `filter` and `find`.
  abbrev pub all : (A → Bool) → List A → Bool
  all p [] = true
  all p (x ∷ xs) = p x && all p xs

  abbrev pub any : (A → Bool) → List A → Bool
  any p [] = false
  any p (x ∷ xs) = p x || any p xs

  abbrev pub keep : (A → Bool) → List A → List A
  keep p [] = []
  keep p (x ∷ xs) = let rest = keep p xs in if p x then x ∷ rest else rest

  abbrev pub find : (A → Bool) → List A → Option A
  find p [] = none
  find p (x ∷ xs) = let rest = find p xs in if p x then some x else rest

  pub length-append : (xs ys : List A) → length (xs ++ ys) ≡ length xs + length ys
  length-append [] ys = omega arith
  length-append (x ∷ xs) ys = omega (arith, length-append xs ys)

  pub keep-append : (p : A → Bool) (xs ys : List A) → keep p (xs ++ ys) ≡ keep p xs ++ keep p ys
  keep-append p [] ys = refl
  keep-append p (x ∷ xs) ys = ground (arith, keep-append p xs ys)

module _ {ℓ κ} {A : Type ℓ} (P : A → Type κ) where
  abbrev pub All : List A → Type κ
  All [] = Unit
  All (x ∷ xs) = P x × All xs

  pub All-append : (xs ys : List A) → All xs → All ys → All (xs ++ ys)
  All-append [] ys _ k = k
  All-append (x ∷ xs) ys (p, h) k = (p, All-append xs ys h k)

-- Membership, as evidence.
pub data Listed {ℓ} {A : Type ℓ} (a : A) : List A → Type ℓ where
  listed_first : {xs : List A} → Listed a (a ∷ xs)
  listed_later : {x : A} {xs : List A} → Listed a xs → Listed a (x ∷ xs)

pub Listed-cases {ℓ} :
    {A : Type ℓ} (a x : A) (xs : List A) → Listed a (x ∷ xs) → (a ≡ x) ⊎ Listed a xs
Listed-cases a x xs listed_first = inl refl
Listed-cases a x xs (listed_later m) = inr m

pub All-Listed {ℓ κ} :
    {A : Type ℓ} (P : A → Type κ) (xs : List A) → ((a : A) → Listed a xs → P a) → All P xs
All-Listed P [] h = tt
All-Listed P (x ∷ xs) h = (h x listed_first, All-Listed P xs (λ a m. h a (listed_later m)))

-- `Array.prototype.sort` with a comparator is stable; `le a b` says that `a` may stand before `b`.
module _ {ℓ} {A : Type ℓ} (le : A → A → Bool) where
  unfoldable pub insert_sorted : A → List A → List A
  insert_sorted a [] = a ∷ []
  insert_sorted a (x ∷ xs) =
      let later = x ∷ insert_sorted a xs in if le a x then a ∷ x ∷ xs else later

  unfoldable pub sort : List A → List A
  unfolding insert_sorted
  sort [] = []
  sort (x ∷ xs) = insert_sorted x (sort xs)

  abbrev pub IsSorted : List A → Type 0
  IsSorted [] = Unit
  IsSorted (x ∷ xs) = All (λ y. le x y ≡ true) xs × IsSorted xs

  insert_sorted-first :
      (a : A) (xs : List A) → All (λ y. le a y ≡ true) xs → insert_sorted a xs ≡ a ∷ xs
  unfolding insert_sorted
  insert_sorted-first a [] h = refl
  insert_sorted-first a (x ∷ xs) h = ground (arith, h.0)

  -- Sorting a sorted list leaves it as it is.
  pub sort-of_IsSorted : (xs : List A) → IsSorted xs → sort xs ≡ xs
  unfolding sort
  sort-of_IsSorted [] h = refl
  sort-of_IsSorted (x ∷ xs) h =
      ap (insert_sorted x) (sort-of_IsSorted xs h.1) ∙ insert_sorted-first x xs h.0

module _ {ℓ κ μ} {A : Type ℓ} (P : A → Type κ) (Q : A → Type μ) where
  pub All-mono : ((a : A) → P a → Q a) → (xs : List A) → All P xs → All Q xs
  All-mono f [] h = tt
  All-mono f (x ∷ xs) (p, h) = (f x p, All-mono f xs h)

module _ {ℓ κ} {A : Type ℓ} (P : A → Type κ) (p : A → Bool) where
  All-keep_step :
      (b : Bool) (x : A) (xs : List A) → P x → All P xs → All P (if b then x ∷ xs else xs)
  All-keep_step true x xs q h = (q, h)
  All-keep_step false x xs q h = h

  pub All-keep : (xs : List A) → All P xs → All P (keep p xs)
  All-keep [] h = tt
  All-keep (x ∷ xs) (q, h) = All-keep_step (p x) x (keep p xs) q (All-keep xs h)

  -- What is kept has passed the test.
  pub All-keep_passed : (xs : List A) → All (λ x. p x ≡ true) (keep p xs)
  All-keep_passed [] = tt
  All-keep_passed (x ∷ xs) = step (p x) refl (All-keep_passed xs)
    where
      step :
          (b : Bool)
          → p x ≡ b
          → All (λ y. p y ≡ true) (keep p xs)
          → All (λ y. p y ≡ true) (if b then x ∷ keep p xs else keep p xs)
      step true e h = (e, h)
      step false e h = h

module _ {ℓ} {A : Type ℓ} (le : A → A → Bool) where
  IsSorted-keep_step :
      (b : Bool) (x : A) (xs : List A)
      → All (λ y. le x y ≡ true) xs
      → IsSorted le xs
      → IsSorted le (if b then x ∷ xs else xs)
  IsSorted-keep_step true x xs q h = (q, h)
  IsSorted-keep_step false x xs q h = h

  pub IsSorted-keep : (p : A → Bool) (xs : List A) → IsSorted le xs → IsSorted le (keep p xs)
  IsSorted-keep p [] h = tt
  IsSorted-keep p (x ∷ xs) (q, h) =
      IsSorted-keep_step (p x) x (keep p xs) (All-keep (λ y. le x y ≡ true) p xs q)
        (IsSorted-keep p xs h)

  pub IsSorted-append_last :
      (xs : List A) (z : A)
      → IsSorted le xs
      → All (λ y. le y z ≡ true) xs
      → IsSorted le (xs ++ z ∷ [])
  IsSorted-append_last [] z h k = (tt, tt)
  IsSorted-append_last (x ∷ xs) z (q, h) (e, k) =
      (All-append (λ y. le x y ≡ true) xs (z ∷ []) q (e, tt), IsSorted-append_last xs z h k)

pub List-cases {ℓ} :
    {A : Type ℓ} (xs : List A) → (xs ≡ []) ⊎ ((x : A) × (rest : List A) × (xs ≡ x ∷ rest))
List-cases [] = inl refl
List-cases (x ∷ xs) = inr (x, xs, refl)
