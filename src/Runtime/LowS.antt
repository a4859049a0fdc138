-- ===== src/Runtime/LowS.antt =====
-- What a normalised signature is (src/switchboard-core/src/runtime/index.ts).
use proof_cli_baran.Prelude.{
  ℕ, ◌^◌, ◌≤◌, ◌<◌, ◌≡◌, refl, ap, ◌⊎◌, inl, inr, true, not, ◌&&◌, Option, none, some, List, [],
  ◌∷◌, arith, ltb, ◌==◌, if◌then◌else◌, ltb→lt, ==_iff, Bool-cases, Option-cases,
}
use proof_cli_baran.Prelude.Number.{ℤ, pos, negsuc, pos_part, sub_ℕ}
use proof_cli_baran.Runtime.Der.{
  Result, ok, err, SignatureError, parse_acurast_secp256k1_signature, ParsedSignature,
}
use proof_cli_baran.Runtime.Signature.{
  to_be_32, Signature, secp256k1_n, secp256k1_half_n, serialize_signature, normalize_signature_s,
  recovers_to, try_candidates, v_candidates, normalize_acurast_secp256k1_signature,
}

-- What is tried for an s: a v of 27 or 28, with s itself or with N - s, whichever is at most N / 2.
abbrev AreLow : ℕ → ℤ × ℕ → Type 0
AreLow s c =
    (pos_part c.0 ≤ secp256k1_half_n)
    × ((c.0 ≡ pos s) ⊎ (c.0 ≡ sub_ℕ secp256k1_n s))
    × ((c.1 ≡ 27) ⊎ (c.1 ≡ 28))

high-AreLow :
    (s v : ℕ) → secp256k1_half_n < s → AreLow s (sub_ℕ secp256k1_n s, if v == 27 then 28 else 27)
high-AreLow s v h = (ground arith, inr refl, ground arith)

normalize_signature_s-AreLow :
    (s v : ℕ) (c : ℤ × ℕ) → normalize_signature_s s v ≡ some c → AreLow s c
unfolding normalize_signature_s
normalize_signature_s-AreLow s v c e = elim (Bool-cases (not (v == 27) && not (v == 28))) [
  | inl rejected ↦ absurd (cc (rw rejected at e))
  | inr accepted ↦ elim (Bool-cases (ltb secp256k1_half_n s)) [
    | inl high ↦
        let same : (sub_ℕ secp256k1_n s, if v == 27 then 28 else 27) ≡ c =
          cc (rw (accepted, high) at e) in
        rw (← same) (high-AreLow s v (ltb→lt secp256k1_half_n s high))
    | inr low ↦
        let same : (pos s, v) ≡ c = cc (rw (accepted, low) at e) in
        rw (← same) (ground arith, inl refl, ground arith)
  ]
]

-- A serialized signature holds what it was made of.
serialize_signature_lem :
    (r : ℕ) (s : ℤ) (v : ℕ) (sig : Signature)
    → serialize_signature r s v ≡ ok sig
    → (sig.r ≡ r) × (s ≡ pos sig.s) × (sig.v ≡ v)
unfolding serialize_signature to_be_32
serialize_signature_lem r (negsuc n) v sig e = elim (Bool-cases (ltb r (2 ^ 256))) [
  | inl fits ↦ absurd (cc (rw fits at e))
  | inr wide ↦ absurd (cc (rw wide at e))
]
serialize_signature_lem r (pos n) v sig e = elim (Bool-cases (ltb r (2 ^ 256))) [
  | inr wide ↦ absurd (cc (rw wide at e))
  | inl fits ↦ elim (Bool-cases (ltb n (2 ^ 256))) [
    | inr wide ↦ absurd (cc (rw (fits, wide) at e))
    | inl small ↦
        let made : Signature = record { r = r; s = n; v = v } in
        let same : made ≡ sig = cc (rw (fits, small) at e) in rw (← same) (refl, refl, refl)
  ]
]

-- The signature has the r of what was read, its s or N - s whichever is at most N / 2, a v of 27 or
-- 28, and recovers to the expected address.
pub record IsNormalised (recover : Signature → Option ℕ) (expected r s : ℕ) (sig : Signature)
    : Type 0 where
  pub recovered : recover sig ≡ some expected
  pub same_r : sig.r ≡ r
  pub low_s : sig.s ≤ secp256k1_half_n
  pub either_s : (pos sig.s ≡ pos s) ⊎ (pos sig.s ≡ sub_ℕ secp256k1_n s)
  pub valid_v : (sig.v ≡ 27) ⊎ (sig.v ≡ 28)

result_cases {ℓ} :
    {A : Type ℓ} (m : Result A) → ((a : A) × (m ≡ ok a)) ⊎ ((e : SignatureError) × (m ≡ err e))
result_cases (ok a) = inl (a, refl)
result_cases (err e) = inr (e, refl)

module _ (recover : Signature → Option ℕ) (expected : ℕ) where
  recovers_to_lem : (a : Option ℕ) → recovers_to recover expected a ≡ true → a ≡ some expected
  recovers_to_lem none h = absurd (cc h)
  recovers_to_lem (some a) h = ap (λ (n : ℕ). some n) ((==_iff a expected).0 h)

  candidate-IsNormalised :
      (r s w : ℕ) (t : ℤ) (sig : Signature)
      → AreLow s (t, w)
      → serialize_signature r t w ≡ ok sig
      → recovers_to recover expected (recover sig) ≡ true
      → IsNormalised recover expected r s sig
  candidate-IsNormalised r s w t sig (low, either, v) made right =
      let (same_r, same_s, same_v) = serialize_signature_lem r t w sig made in
      record {
        recovered = recovers_to_lem (recover sig) right;
        same_r = same_r;
        low_s = rw same_s at low;
        either_s = rw same_s at either;
        valid_v = rw same_v v;
      }

  try_candidates-IsNormalised :
      (r s : ℕ) (vs : List ℕ) (sig : Signature)
      → try_candidates recover expected r s vs ≡ ok sig
      → IsNormalised recover expected r s sig
  unfolding try_candidates
  try_candidates-IsNormalised r s [] sig e = absurd (cc e)
  try_candidates-IsNormalised r s (v ∷ vs) sig e = elim (Option-cases (normalize_signature_s s v)) [
    | inl skipped ↦ try_candidates-IsNormalised r s vs sig (rw (skipped, try_candidates) at e)
    | inr ((t, w), found) ↦ elim (result_cases (serialize_signature r t w)) [
      | inr (x, bad) ↦ absurd (cc (rw (found, bad, try_candidates) at e))
      | inl (made, ok_made) ↦ elim (Bool-cases (recovers_to recover expected (recover made))) [
        | inr wrong ↦
            try_candidates-IsNormalised r s vs sig (rw (found, ok_made, wrong, try_candidates) at e)
        | inl right ↦
            let same : made ≡ sig = cc (rw (found, ok_made, right, try_candidates) at e) in
            let n =
              candidate-IsNormalised r s w t made (normalize_signature_s-AreLow s v (t, w) found)
                ok_made right in
            rw (← same) n
      ]
    ]
  ]

  -- A normalised signature comes from the r and the s that the bytes hold: it has that r, that s or
  -- N - s and no more than N / 2, a v of 27 or 28, and it recovers to the expected address.
  pub normalize_acurast_secp256k1_signature-IsNormalised :
      (bytes : List ℕ) (sig : Signature)
      → normalize_acurast_secp256k1_signature recover expected bytes ≡ ok sig
      → (p : ParsedSignature) × (parse_acurast_secp256k1_signature bytes ≡ ok p)
        × IsNormalised recover expected p.r p.s sig
  unfolding normalize_acurast_secp256k1_signature
  normalize_acurast_secp256k1_signature-IsNormalised bytes sig e =
      elim (result_cases (parse_acurast_secp256k1_signature bytes)) [
        | inr (x, bad) ↦ absurd (cc (rw bad at e))
        | inl (p, parsed) ↦ (
          p,
          parsed,
          try_candidates-IsNormalised p.r p.s (v_candidates recover expected p.v) sig
              (rw parsed at e),
        )
      ]
