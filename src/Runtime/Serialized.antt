-- ===== src/Runtime/Serialized.antt =====
-- What serializing a signature gives, and how the errors of the two normalisers correspond
-- (src/switchboard-core/src/runtime/index.ts and gateway-upstream-admission.ts).
use proof_cli_baran.Prelude.{ℕ, ◌^◌, ◌≡◌, refl, ◌⊎◌, inl, inr, ltb, Bool-cases}
use proof_cli_baran.Prelude.Number.{ℤ, pos, negsuc}
use proof_cli_baran.Runtime.Der.{
  SignatureError, out_of_range, not_recovered, wrong_signer, Result, ok, err,
}
use proof_cli_baran.Runtime.Signature.{Signature, to_be_32, serialize_signature}

-- The same failure in the words of the admission normaliser.
abbrev pub renamed_error : SignatureError → SignatureError
renamed_error not_recovered = wrong_signer
renamed_error e = e

abbrev pub renamed : Result Signature → Result Signature
renamed (ok sig) = ok sig
renamed (err e) = err (renamed_error e)

pub to_be_32-cases :
    (z : ℤ) → ((n : ℕ) × (to_be_32 z ≡ ok n) × (pos n ≡ z)) ⊎ (to_be_32 z ≡ err out_of_range)
unfolding to_be_32
to_be_32-cases (pos n) = elim (Bool-cases (ltb n (2 ^ 256))) [
  | inl fits ↦ inl (n, rw fits refl, refl)
  | inr large ↦ inr (rw large)
]
to_be_32-cases (negsuc n) = inr refl

pub serialize_signature-cases :
    (r : ℕ) (s : ℤ) (v : ℕ)
    → ((sig : Signature) × (serialize_signature r s v ≡ ok sig)
        × (pos sig.r ≡ pos r)
        × (pos sig.s ≡ s))
      ⊎ (serialize_signature r s v ≡ err out_of_range)
unfolding serialize_signature
serialize_signature-cases r s v = elim (to_be_32-cases (pos r)) [
  | inr large ↦ inr (rw large)
  | inl (rw_value, fits, same_r) ↦ elim (to_be_32-cases s) [
    | inr large ↦ inr (rw (fits, large))
    | inl (sw_value, also, same_s) ↦
        inl (record { r = rw_value; s = sw_value; v = v }, rw (fits, also) refl, same_r, same_s)
  ]
]
