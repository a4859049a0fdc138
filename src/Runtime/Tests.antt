-- ===== src/Runtime/Tests.antt =====
-- The properties of the signatures at concrete inputs.
use proof_cli_baran.Prelude.{
  ℕ, zero, suc, ◌≤◌, ◌≡◌, refl, inl, Option, none, some, List, [], ◌∷◌, arith, length,
}
use proof_cli_baran.Runtime.Bytes.{be_from, slice, bytes_to_big_int}
use proof_cli_baran.Runtime.Der.{
  ParsedSignature, parse_acurast_secp256k1_signature, ok, parse_der_signature, trim_zeros,
}
use proof_cli_baran.Runtime.DerLaws.{encode_signature, parse_der_signature-encode}
use proof_cli_baran.Runtime.LowS.{IsNormalised, normalize_acurast_secp256k1_signature-IsNormalised}
use proof_cli_baran.Runtime.Signature.{
  try_candidates, serialize_signature, normalize_signature_s, to_be_32, Signature,
  normalize_acurast_secp256k1_signature, normalize_secp256k1_signature_for_digest,
}
use proof_cli_baran.Runtime.Agree.{normalisers_agree, Alike}

abbrev repeat : ℕ → ℕ → List ℕ
repeat zero b = []
repeat (suc n) b = b ∷ repeat n b

one_byte : length (trim_zeros (5 ∷ [])) ≤ 32
unfolding trim_zeros
one_byte = omega arith

padded : length (trim_zeros (0 ∷ 200 ∷ [])) ≤ 32
unfolding trim_zeros
padded = omega arith

parse_der_signature-encode_example :
    parse_der_signature (encode_signature (0 ∷ 200 ∷ []) (5 ∷ []))
    ≡ ok (record { r = be_from 0 (0 ∷ 200 ∷ []); s = be_from 0 (5 ∷ []); v = none })
parse_der_signature-encode_example =
    parse_der_signature-encode 0 5 (200 ∷ []) [] padded one_byte (omega arith)

-- Recovery to the v alone, in place of a curve.
abbrev recover_v : Signature → Option ℕ
recover_v sig = some sig.v

abbrev raw_signature : List ℕ
raw_signature = repeat 64 0xff

normalisers_agree_example :
    Alike recover_v 28
      (bytes_to_big_int (slice 0 32 raw_signature))
      (bytes_to_big_int (slice 32 64 raw_signature))
      (normalize_secp256k1_signature_for_digest recover_v 28 raw_signature)
      (normalize_acurast_secp256k1_signature recover_v 28 raw_signature)
normalisers_agree_example = normalisers_agree recover_v 28 raw_signature (inl refl)

-- r and s of 32 ones each, both below N / 2.
abbrev low_bytes : List ℕ
low_bytes = repeat 64 1

abbrev low_signature : Signature
low_signature = record { r = be_from 0 (repeat 32 1); s = be_from 0 (repeat 32 1); v = 27 }

low_signature_lem : normalize_acurast_secp256k1_signature recover_v 27 low_bytes ≡ ok low_signature
unfolding normalize_acurast_secp256k1_signature parse_acurast_secp256k1_signature try_candidates
    serialize_signature normalize_signature_s slice bytes_to_big_int to_be_32
low_signature_lem = refl

normalize_acurast_secp256k1_signature-IsNormalised_example :
    (p : ParsedSignature) × (parse_acurast_secp256k1_signature low_bytes ≡ ok p)
    × IsNormalised recover_v 27 p.r p.s low_signature
normalize_acurast_secp256k1_signature-IsNormalised_example =
    normalize_acurast_secp256k1_signature-IsNormalised recover_v 27 low_bytes low_signature
      low_signature_lem
