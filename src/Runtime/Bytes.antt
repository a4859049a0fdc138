-- ===== src/Runtime/Bytes.antt =====
-- Byte arrays: `Uint8Array.prototype.slice`, and a big-endian number.
use proof_cli_baran.Prelude.{
  ℕ, suc, ◌+◌, ◌-◌, ◌*◌, ◌≡◌, refl, ap, Option, none, some, List, [], ◌∷◌, ◌++◌, arith, length,
  get_elem?, take, drop,
}

-- `bytes.slice(from, to)`, which is clipped at the end of the array.
unfoldable pub slice : ℕ → ℕ → List ℕ → List ℕ
slice from to bytes = take (to - from) (drop from bytes)

abbrev pub be_from : ℕ → List ℕ → ℕ
be_from acc [] = acc
be_from acc (b ∷ bs) = be_from (acc * 256 + b) bs

-- `BigInt(ethers.hexlify(bytes))`; `BigInt("0x")` throws.
unfoldable pub bytes_to_big_int : List ℕ → Option ℕ
bytes_to_big_int [] = none
bytes_to_big_int (b ∷ bs) = some (be_from 0 (b ∷ bs))

take-append : (xs ys : List ℕ) → take (length xs) (xs ++ ys) ≡ xs
take-append [] ys = refl
take-append (x ∷ xs) ys = ap (λ (l : List ℕ). x ∷ l) (take-append xs ys)

pub get_elem?-append :
    (xs : List ℕ) (y : ℕ) (ys : List ℕ) (i : ℕ)
    → i ≡ length xs
    → get_elem? (xs ++ y ∷ ys) i ≡ some y
get_elem?-append [] y ys i e = rw e
get_elem?-append (x ∷ xs) y ys i e = rw e (get_elem?-append xs y ys (length xs) refl)

pub get_elem?-append_next :
    (xs : List ℕ) (y z : ℕ) (ys : List ℕ) (i : ℕ)
    → i ≡ suc (length xs)
    → get_elem? (xs ++ y ∷ z ∷ ys) i ≡ some z
get_elem?-append_next [] y z ys i e = rw e
get_elem?-append_next (x ∷ xs) y z ys i e =
    rw e (get_elem?-append_next xs y z ys (suc (length xs)) refl)

drop-append_two :
    (xs : List ℕ) (y z : ℕ) (ys : List ℕ) → drop (suc (suc (length xs))) (xs ++ y ∷ z ∷ ys) ≡ ys
drop-append_two [] y z ys = refl
drop-append_two (x ∷ xs) y z ys = drop-append_two xs y z ys

-- The bytes that stand two places after a prefix.
pub slice-append_two :
    (xs : List ℕ) (y z : ℕ) (bs after : List ℕ) (from to : ℕ)
    → from ≡ suc (suc (length xs))
    → to ≡ from + length bs
    → slice from to (xs ++ y ∷ z ∷ (bs ++ after)) ≡ bs
unfolding slice
slice-append_two xs y z bs after from to e f =
    let n : to - from ≡ length bs = omega arith in
    rw (n, e, drop-append_two xs y z (bs ++ after)) (take-append bs after)
