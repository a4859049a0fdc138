-- ===== src/Runtime/DerLaws.antt =====
-- A DER signature is read back: a sequence of two integers with short lengths.
use mathlib.Core.List.{append-nil}
use proof_cli_baran.Prelude.{
  ℕ, ◌+◌, ◌≤◌, ◌<◌, ◌≡◌, refl, sym, ap, ◌∙◌, inl, inr, true, false, none, some, List, [], ◌∷◌, ◌++◌,
  arith, ltb, ◌==◌, lt→ltb, ==_iff, Bool-cases, length, get_elem?, length-append,
}
use proof_cli_baran.Runtime.Bytes.{
  slice, bytes_to_big_int, be_from, get_elem?-append, get_elem?-append_next, slice-append_two,
}
use proof_cli_baran.Runtime.Der.{
  ok, der_length, der_integer, der_integers, der_integer_at, der_number, trim_zeros,
  trim_integer_bytes, parse_der_signature,
}

-- DER, for bodies shorter than 128 bytes.
abbrev pub encode_integer : List ℕ → List ℕ
encode_integer bs = 0x02 ∷ length bs ∷ bs

abbrev pub encode_signature : List ℕ → List ℕ → List ℕ
encode_signature r s = 0x30 ∷ (length r + length s + 4) ∷ (encode_integer r ++ encode_integer s)

be_from-trim_zeros : (bs : List ℕ) → be_from 0 (trim_zeros bs) ≡ be_from 0 bs
unfolding trim_zeros
be_from-trim_zeros [] = refl
be_from-trim_zeros (b ∷ []) = refl
be_from-trim_zeros (b ∷ c ∷ bs) = elim (Bool-cases (b == 0)) [
  | inl zero_byte ↦
      let e : b ≡ 0 = (==_iff b 0).0 zero_byte in rw zero_byte (be_from-trim_zeros (c ∷ bs) ∙ rw e)
  | inr other ↦ rw other
]

-- An integer with a short length is read from its tag, its length and the slice after them.
der_integer_reads :
    (bytes : List ℕ) (i n : ℕ) (bs : List ℕ)
    → get_elem? bytes i ≡ some 0x02
    → get_elem? bytes (i + 1) ≡ some n
    → n < 128
    → slice (i + 1 + 1) (i + 1 + 1 + n) bytes ≡ bs
    → der_integer bytes i ≡ ok (record { value = bs; next_offset = some (i + 1 + 1 + n) })
unfolding der_integer der_length
der_integer_reads bytes i n bs tag len short value = rw (tag, len, lt→ltb n 128 short, value)

-- An encoded integer behind `before` is found with its value and the offset after it.
der_integer-encode :
    (before bs tail after : List ℕ) (i : ℕ)
    → length bs < 128
    → tail ≡ bs ++ after
    → i ≡ length before
    → der_integer (before ++ 0x02 ∷ length bs ∷ tail) i
      ≡ ok (record { value = bs; next_offset = some (i + 1 + 1 + length bs) })
der_integer-encode before bs tail after i short e at = rw e (
    der_integer_reads (before ++ 0x02 ∷ length bs ∷ (bs ++ after)) i (length bs) bs
      (get_elem?-append before 0x02 (length bs ∷ (bs ++ after)) i at)
      (get_elem?-append_next before 0x02 (length bs) (bs ++ after) (i + 1) (omega arith)) short
      (slice-append_two before 0x02 (length bs) bs after (i + 1 + 1) (i + 1 + 1 + length bs)
        (omega arith) refl))

trim_zeros-nonempty :
    (b : ℕ) (bs : List ℕ) → (c : ℕ) × (cs : List ℕ) × (trim_zeros (b ∷ bs) ≡ c ∷ cs)
unfolding trim_zeros
trim_zeros-nonempty b [] = (b, [], refl)
trim_zeros-nonempty b (c ∷ bs) = elim (Bool-cases (b == 0)) [
  | inl zero_byte ↦ let (d, ds, e) = trim_zeros-nonempty c bs in (d, ds, rw zero_byte e)
  | inr other ↦ (b, c ∷ bs, rw other)
]

number_of_trimmed :
    (bs ts : List ℕ) (c : ℕ) (cs : List ℕ)
    → trim_zeros bs ≡ c ∷ cs
    → length (trim_zeros bs) ≤ 32
    → der_number bs ≡ ok (be_from 0 (c ∷ cs))
unfolding der_number trim_integer_bytes bytes_to_big_int
number_of_trimmed bs ts c cs e fits =
    let small : ltb 32 (length (trim_zeros bs)) ≡ false = ground arith in rw (small, e)

der_number_lem :
    (b : ℕ) (bs : List ℕ)
    → length (trim_zeros (b ∷ bs)) ≤ 32
    → der_number (b ∷ bs) ≡ ok (be_from 0 (b ∷ bs))
der_number_lem b bs fits =
    let (c, cs, e) = trim_zeros-nonempty b bs in
    number_of_trimmed (b ∷ bs) [] c cs e fits
    ∙ ap (λ (l : List ℕ). ok (be_from 0 l)) (sym e)
    ∙ ap ok (be_from-trim_zeros (b ∷ bs))

-- The two integers of an encoded signature, from the offset after the length of the sequence.
integers_of_encoding :
    (r s : List ℕ)
    → length r < 128
    → length s < 128
    → der_number r ≡ ok (be_from 0 r)
    → der_number s ≡ ok (be_from 0 s)
    → der_integers (encode_signature r s) 2
      ≡ ok (record { r = be_from 0 r; s = be_from 0 s; v = none })
unfolding der_integers der_integer_at
integers_of_encoding r s sr ss nr ns =
    let len : ℕ = length r + length s + 4 in
    let first : der_integer (encode_signature r s) 2
        ≡ ok (record { value = r; next_offset = some (4 + length r) }) =
      der_integer-encode (0x30 ∷ len ∷ []) r (r ++ encode_integer s) (encode_integer s) 2 sr refl
        refl
      ∙ ap (λ (n : ℕ). ok (record { value = r; next_offset = some n })) (omega arith) in
    let second : der_integer (encode_signature r s) (4 + length r)
        ≡ ok (record { value = s; next_offset = some (4 + length r + 2 + length s) }) =
      der_integer-encode (0x30 ∷ len ∷ 0x02 ∷ length r ∷ r) s s [] (4 + length r) ss
        (sym (append-nil s)) (omega arith)
      ∙ ap (λ (n : ℕ). ok (record { value = s; next_offset = some n })) (omega arith) in
    rw (first, second, nr, ns)

-- The DER encoding of two integers, each given by at least one byte and at most 32 after its leading
-- zeros, is parsed to the numbers that their bytes denote, provided that the bodies are so short
-- that one byte holds each length.
pub parse_der_signature-encode :
    (a b : ℕ) (r s : List ℕ)
    → length (trim_zeros (a ∷ r)) ≤ 32
    → length (trim_zeros (b ∷ s)) ≤ 32
    → length (a ∷ r) + length (b ∷ s) + 4 < 128
    → parse_der_signature (encode_signature (a ∷ r) (b ∷ s))
      ≡ ok (record { r = be_from 0 (a ∷ r); s = be_from 0 (b ∷ s); v = none })
unfolding parse_der_signature der_length
parse_der_signature-encode a b r s fr fs short =
    let short_form : ltb (length (a ∷ r) + length (b ∷ s) + 4) 128 ≡ true = lt→ltb _ 128 short in
    let whole : length (encode_signature (a ∷ r) (b ∷ s))
        ≡ 2 + (length (a ∷ r) + length (b ∷ s) + 4) =
      let e : length (r ++ encode_integer (b ∷ s)) ≡ length r + length (encode_integer (b ∷ s)) =
        length-append r (encode_integer (b ∷ s)) in
      ground (arith, e) in
    let both =
      integers_of_encoding (a ∷ r) (b ∷ s) (ground arith) (ground arith) (der_number_lem a r fr)
        (der_number_lem b s fs) in
    let whole_test : (1 + 1 + (length (a ∷ r) + length (b ∷ s) + 4)
          == 2 + (length (a ∷ r) + length (b ∷ s) + 4))
        ≡ true =
      (==_iff _ _).1 (omega arith) in
    rw (short_form, whole, whole_test, both)
