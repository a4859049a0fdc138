-- ===== src/Runtime/Der.antt =====
-- The signature bytes of an Acurast signer (src/switchboard-core/src/runtime/index.ts): raw r, s and
-- perhaps v, or DER. A byte is a number below 256; reading past the end gives `undefined`.
use proof_cli_baran.Prelude.{
  ℕ, ◌+◌, ◌*◌, ◌%◌, Bool, false, ◌||◌, Option, none, some, List, [], ◌∷◌, ltb, ◌==◌, if◌then◌else◌,
  length, get_elem?,
}
use proof_cli_baran.Runtime.Bytes.{slice, bytes_to_big_int}

pub data SignatureError : Type 0 where
  unsupported_length : ℕ → SignatureError
  invalid_der_sequence invalid_der_length invalid_der_integer unsupported_der_length
        invalid_integer_length empty_integer :
      SignatureError
  out_of_range not_recovered wrong_signer recovery_threw : SignatureError

pub data Result {ℓ} (A : Type ℓ) : Type ℓ where
  ok : A → Result A
  err : SignatureError → Result A

infixl 5 ◌>>=◌
abbrev pub ◌>>=◌ {ℓ κ} : {A : Type ℓ} {B : Type κ} → Result A → (A → Result B) → Result B
ok a >>= f = f a
err e >>= f = err e

abbrev pub or_err {ℓ} : {A : Type ℓ} → Option A → SignatureError → Result A
or_err none e = err e
or_err (some a) e = ok a

pub record ParsedSignature : Type 0 where
  pub r : ℕ
  pub s : ℕ
  pub v : Option ℕ

-- A length, where `none` stands for NaN, and the offset after it.
pub record DerLength : Type 0 where
  pub length_value : Option ℕ
  pub next_offset : ℕ

abbrev der_length_of : Option ℕ → ℕ → Result DerLength
der_length_of n next = ok (record { length_value = n; next_offset = next })

-- One more byte of a long length: `(length << 8) + bytes[offset]`, where NaN << 8 is 0.
shift_in : Option ℕ → Option ℕ → Option ℕ
shift_in len none = none
shift_in none (some b) = some b
shift_in (some n) (some b) = some (n * 256 + b)

long_length : ℕ → List ℕ → ℕ → Result DerLength
unfolding shift_in
long_length n bytes offset =
    if n == 1
    then der_length_of (shift_in (some 0) (get_elem? bytes offset)) (offset + 1)
    else if n == 2
    then der_length_of
        (shift_in (shift_in (some 0) (get_elem? bytes offset)) (get_elem? bytes (offset + 1)))
        (offset + 2)
    else err unsupported_der_length

-- `undefined < 0x80` is false and `undefined & 0x7f` is 0.
unfoldable pub first_length : Option ℕ → List ℕ → ℕ → Result DerLength
unfolding long_length
first_length none bytes offset = err unsupported_der_length
first_length (some first) bytes offset =
    if ltb first 0x80
    then der_length_of (some first) offset
    else long_length (first % 0x80) bytes offset

unfoldable pub der_length : List ℕ → ℕ → Result DerLength
unfolding first_length
der_length bytes offset = first_length (get_elem? bytes offset) bytes (offset + 1)

-- The value, and the next offset: NaN where the length is NaN, and then nothing more can be read.
pub record DerInteger : Type 0 where
  pub value : List ℕ
  pub next_offset : Option ℕ

abbrev pub is_byte : Option ℕ → ℕ → Bool
is_byte none b = false
is_byte (some a) b = a == b

integer_at : List ℕ → DerLength → DerInteger
integer_at bytes l = elim l.length_value [
  | none ↦ record { value = []; next_offset = none }
  | some n ↦ record {
    value = slice l.next_offset (l.next_offset + n) bytes;
    next_offset = some (l.next_offset + n);
  }
]

unfoldable pub der_integer : List ℕ → ℕ → Result DerInteger
unfolding integer_at
der_integer bytes offset =
    if is_byte (get_elem? bytes offset) 0x02
    then (do l ← der_length bytes (offset + 1); ok (integer_at bytes l))
    else err invalid_der_integer

unfoldable pub der_integer_at : List ℕ → Option ℕ → Result DerInteger
der_integer_at bytes none = err invalid_der_integer
der_integer_at bytes (some offset) = der_integer bytes offset

-- Leading zeros go, all but a last byte.
unfoldable pub trim_zeros : List ℕ → List ℕ
trim_zeros [] = []
trim_zeros (b ∷ []) = b ∷ []
trim_zeros (b ∷ c ∷ bs) = let rest = trim_zeros (c ∷ bs) in if b == 0 then rest else b ∷ c ∷ bs

unfoldable pub trim_integer_bytes : List ℕ → Result (List ℕ)
unfolding trim_zeros
trim_integer_bytes bytes =
    if ltb 32 (length (trim_zeros bytes)) then err invalid_integer_length else ok (trim_zeros bytes)

unfoldable pub der_number : List ℕ → Result ℕ
der_number bytes = do
  trimmed ← trim_integer_bytes bytes
  or_err (bytes_to_big_int trimmed) empty_integer

-- `offset + sequenceLength.length !== bytes.length`
whole_sequence : List ℕ → DerLength → Bool
whole_sequence bytes l = elim l.length_value [
  | none ↦ false
  | some n ↦ l.next_offset + n == length bytes
]

unfoldable pub der_integers : List ℕ → ℕ → Result ParsedSignature
unfolding der_integer_at der_number
der_integers bytes offset = do
  r ← der_integer bytes offset
  s ← der_integer_at bytes r.next_offset
  rn ← der_number r.value
  sn ← der_number s.value
  ok (record { r = rn; s = sn; v = none })

unfoldable pub parse_der_signature : List ℕ → Result ParsedSignature
unfolding whole_sequence der_integers
parse_der_signature bytes =
    if is_byte (get_elem? bytes 0) 0x30
    then (der_length bytes 1 >>= λ l.
        if whole_sequence bytes l then der_integers bytes l.next_offset else err invalid_der_length)
    else err invalid_der_sequence

unfoldable pub parse_acurast_secp256k1_signature : List ℕ → Result ParsedSignature
parse_acurast_secp256k1_signature bytes =
    if length bytes == 64 || length bytes == 65
    then (do
      r ← or_err (bytes_to_big_int (slice 0 32 bytes)) empty_integer
      s ← or_err (bytes_to_big_int (slice 32 64 bytes)) empty_integer
      ok (record { r = r; s = s; v = get_elem? bytes 64 }))
    else if is_byte (get_elem? bytes 0) 0x30
    then parse_der_signature bytes
    else err (unsupported_length (length bytes))
