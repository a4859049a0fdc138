-- ===== src/Runtime/Signature.antt =====
-- The two normalisers of secp256k1 signatures: of a job's certificate
-- (src/switchboard-core/src/runtime/index.ts) and of an upstream admission
-- (src/switchboard-core/src/runtime/gateway-upstream-admission.ts). Address recovery is a parameter:
-- `none` stands for a call that throws.
use proof_cli_baran.Prelude.{
  ℕ, ◌+◌, ◌-◌, ◌^◌, Bool, false, not, ◌&&◌, Option, none, some, List, [], ◌∷◌, ltb, leb, ◌==◌,
  if◌then◌else◌, length, get_elem?,
}
use proof_cli_baran.Prelude.Number.{ℤ, pos, negsuc, sub_ℕ}
use proof_cli_baran.Runtime.Bytes.{slice, bytes_to_big_int}
use proof_cli_baran.Runtime.Der.{
  Result, ok, err, ◌>>=◌, or_err, unsupported_length, out_of_range, not_recovered, wrong_signer,
  empty_integer, recovery_threw, parse_acurast_secp256k1_signature,
}

abbrev pub secp256k1_n : ℕ
secp256k1_n = 0xfffffffffffffffffffffffffffffffebaaedce6af48a03bbfd25e8cd0364141

abbrev pub secp256k1_half_n : ℕ
secp256k1_half_n = 0x7fffffffffffffffffffffffffffffff5d576e7357a4501ddfe92f46681b20a0

-- What a serialized signature holds.
pub record Signature : Type 0 where
  pub r : ℕ
  pub s : ℕ
  pub v : ℕ

-- `ethers.toBeHex(value, 32)` throws for a negative value and for one that needs more bytes.
unfoldable pub to_be_32 : ℤ → Result ℕ
to_be_32 (pos n) = if ltb n (2 ^ 256) then ok n else err out_of_range
to_be_32 (negsuc n) = err out_of_range

unfoldable pub serialize_signature : ℕ → ℤ → ℕ → Result Signature
unfolding to_be_32
serialize_signature r s v = do
  rw ← to_be_32 (pos r)
  sw ← to_be_32 s
  ok (record { r = rw; s = sw; v = v })

-- The s and the v that are tried for a v of 27 or 28.
unfoldable pub normalize_signature_s : ℕ → ℕ → Option (ℤ × ℕ)
normalize_signature_s s v =
    if not (v == 27) && not (v == 28)
    then none
    else if ltb secp256k1_half_n s
    then some (sub_ℕ secp256k1_n s, if v == 27 then 28 else 27)
    else some (pos s, v)

unfoldable pub normalize_v : ℕ → ℕ
normalize_v v = if ltb v 27 then v + 27 else v

module _ (recover : Signature → Option ℕ) (expected : ℕ) where
  abbrev pub recovers_to : Option ℕ → Bool
  recovers_to none = false
  recovers_to (some a) = a == expected

  unfoldable pub try_candidates : ℕ → ℕ → List ℕ → Result Signature
  try_candidates r s [] = err not_recovered
  try_candidates r s (v ∷ vs) =
      let rest = try_candidates r s vs in
      elim (normalize_signature_s s v) [
        | none ↦ rest
        | some (t, w) ↦ (do
          sig ← serialize_signature r t w
          if recovers_to (recover sig) then ok sig else rest)
      ]

  abbrev pub v_candidates : Option ℕ → List ℕ
  v_candidates none = 27 ∷ 28 ∷ []
  v_candidates (some v) = normalize_v v ∷ []

  unfoldable pub normalize_acurast_secp256k1_signature : List ℕ → Result Signature
  normalize_acurast_secp256k1_signature bytes = do
    parsed ← parse_acurast_secp256k1_signature bytes
    try_candidates parsed.r parsed.s (v_candidates parsed.v)

  -- A recovery that throws ends this loop, and the signature is made by `Signature.from`.
  unfoldable pub recovered_or : Result Signature → Signature → Option ℕ → Result Signature
  recovered_or rest sig none = err recovery_threw
  recovered_or rest sig (some a) = if a == expected then ok sig else rest

  unfoldable pub try_recovery_candidates : ℕ → ℕ → List ℕ → Result Signature
  unfolding recovered_or
  try_recovery_candidates r s [] = err wrong_signer
  try_recovery_candidates r s (c ∷ cs) =
      let rest = try_recovery_candidates r s cs in
      if not (c == 0) && not (c == 1) then rest else (do
        sig ←
            if ltb secp256k1_half_n s
            then serialize_signature r (sub_ℕ secp256k1_n s) (1 - c + 27)
            else serialize_signature r (pos s) (c + 27)
        recovered_or rest sig (recover sig))

  abbrev pub recovery_candidates : Option ℕ → List ℕ
  recovery_candidates none = 0 ∷ 1 ∷ []
  recovery_candidates (some v) = (if leb 27 v then v - 27 else v) ∷ []

  unfoldable pub normalize_secp256k1_signature_for_digest : List ℕ → Result Signature
  normalize_secp256k1_signature_for_digest bytes =
      if not (length bytes == 64) && not (length bytes == 65)
      then err (unsupported_length (length bytes))
      else (do
        r ← or_err (bytes_to_big_int (slice 0 32 bytes)) empty_integer
        s ← or_err (bytes_to_big_int (slice 32 64 bytes)) empty_integer
        try_recovery_candidates r s (recovery_candidates (get_elem? bytes 64)))
