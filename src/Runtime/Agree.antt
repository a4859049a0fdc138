-- ===== src/Runtime/Agree.antt =====
-- The normaliser of a job's certificate and the one of an upstream admission, compared.
use proof_cli_baran.Runtime.Serialized.{renamed, serialize_signature-cases}
use proof_cli_baran.Prelude.{
  ℕ, ◌+◌, ◌-◌, ◌≡◌, refl, sym, ap, ◌∙◌, ◌⊎◌, inl, inr, true, false, not, ◌&&◌, ◌||◌, Option, none,
  some, List, [], ◌∷◌, map, arith, ltb, ◌==◌, if◌then◌else◌, ==_iff, Bool-cases, Option-cases,
  length, get_elem?,
}
use proof_cli_baran.Prelude.Number.{ℤ, pos, sub_ℕ}
use proof_cli_baran.Runtime.Bytes.{slice, bytes_to_big_int}
use proof_cli_baran.Runtime.Der.{
  ParsedSignature, recovery_threw, Result, ok, err, ◌>>=◌, or_err, empty_integer,
  parse_acurast_secp256k1_signature,
}
use proof_cli_baran.Runtime.Signature.{
  Signature, secp256k1_n, secp256k1_half_n, serialize_signature, normalize_signature_s, normalize_v,
  recovers_to, try_candidates, v_candidates, normalize_acurast_secp256k1_signature, recovered_or,
  try_recovery_candidates, recovery_candidates, normalize_secp256k1_signature_for_digest,
}

abbrev parsed_raw : ℕ → ℕ → Option ℕ → ParsedSignature
parsed_raw r s v = record { r = r; s = s; v = v }

module _ (recover : Signature → Option ℕ) (expected : ℕ) where
  -- A signature made of r and s, or of r and N - s, on which recovery throws.
  pub record Throwing (r s : ℕ) : Type 0 where
    pub sig : Signature
    pub same_r : pos sig.r ≡ pos r
    pub same_s : (pos sig.s ≡ pos s) ⊎ (pos sig.s ≡ sub_ℕ secp256k1_n s)
    pub threw : recover sig ≡ none

  -- What the loops of the two normalisers give: the same, unless recovery throws, which ends one of them.
  abbrev AlikeFor : ℕ → ℕ → Result Signature → Result Signature → Type 0
  AlikeFor r s a b = ((a ≡ err recovery_threw) × Throwing r s) ⊎ (a ≡ renamed b)

  recovered_or-Alike :
      (r s : ℕ) (sig : Signature) (a b : Result Signature)
      → pos sig.r ≡ pos r
      → (pos sig.s ≡ pos s) ⊎ (pos sig.s ≡ sub_ℕ secp256k1_n s)
      → AlikeFor r s a b
      → AlikeFor r s
          (recovered_or recover expected a sig (recover sig))
          (if recovers_to recover expected (recover sig) then ok sig else b)
  unfolding recovered_or
  recovered_or-Alike r s sig a b same_r same_s h = elim (Option-cases (recover sig)) [
    | inl threw ↦
        inl (rw threw refl, record { sig = sig; same_r = same_r; same_s = same_s; threw = threw })
    | inr (address, found) ↦ elim (Bool-cases (address == expected)) [
      | inl right ↦ inr (rw (found, right) refl)
      | inr wrong ↦ rw (found, wrong) h
    ]
  ]

  serialized-Alike :
      (r s : ℕ) (t : ℤ) (v : ℕ) (a b : Result Signature)
      → (t ≡ pos s) ⊎ (t ≡ sub_ℕ secp256k1_n s)
      → AlikeFor r s a b
      → AlikeFor r s
          (serialize_signature r t v >>= λ sig. recovered_or recover expected a sig (recover sig))
          (serialize_signature r t v >>= λ sig.
            if recovers_to recover expected (recover sig) then ok sig else b)
  serialized-Alike r s t v a b from h = elim (serialize_signature-cases r t v) [
    | inl (sig, made, same_r, same_t) ↦ rw made (
        recovered_or-Alike r s sig a b same_r
          (elim from [ inl low ↦ inl (same_t ∙ low) | inr high ↦ inr (same_t ∙ high) ]) h)
    | inr large ↦ inr (rw large refl)
  ]

  try_found :
      (r s v : ℕ) (vs : List ℕ) (t : ℤ) (w : ℕ)
      → normalize_signature_s s v ≡ some (t, w)
      → try_candidates recover expected r s (v ∷ vs) ≡ (
          serialize_signature r t w >>= λ sig.
          if recovers_to recover expected (recover sig)
          then ok sig
          else try_candidates recover expected r s vs)
  unfolding try_candidates
  try_found r s v vs t w found = rw (found, try_candidates)

  try_skipped :
      (r s v : ℕ) (vs : List ℕ)
      → normalize_signature_s s v ≡ none
      → try_candidates recover expected r s (v ∷ vs) ≡ try_candidates recover expected r s vs
  unfolding try_candidates
  try_skipped r s v vs skipped = rw (skipped, try_candidates)

  -- One round of the loops, for a recovery id that is 0 or 1.
  tried-Alike :
      (r s c : ℕ) (cs : List ℕ)
      → (c ≡ 0) ⊎ (c ≡ 1)
      → AlikeFor r s
          (try_recovery_candidates recover expected r s cs)
          (try_candidates recover expected r s (map (λ k. k + 27) cs))
      → AlikeFor r s
          (try_recovery_candidates recover expected r s (c ∷ cs))
          (try_candidates recover expected r s ((c + 27) ∷ map (λ k. k + 27) cs))
  unfolding try_recovery_candidates normalize_signature_s
  tried-Alike r s c cs id ih =
      let tried : (not (c == 0) && not (c == 1)) ≡ false = ground arith in
      let allowed : (not (c + 27 == 27) && not (c + 27 == 28)) ≡ false = ground arith in
      elim (Bool-cases (ltb secp256k1_half_n s)) [
        | inl high ↦
            let flip : (if c + 27 == 27 then 28 else 27) ≡ 1 - c + 27 = ground arith in
            let found : normalize_signature_s s (c + 27)
                ≡ some ((sub_ℕ secp256k1_n s), 1 - c + 27) =
              rw (allowed, high, flip) in
            rw
              (
                try_found r s (c + 27) (map (λ k. k + 27) cs) (sub_ℕ secp256k1_n s) (1 - c + 27)
                    found,
                tried,
                high,
              )
              (serialized-Alike r s (sub_ℕ secp256k1_n s) (1 - c + 27)
                (try_recovery_candidates recover expected r s cs)
                (try_candidates recover expected r s (map (λ k. k + 27) cs)) (inr refl) ih)
        | inr low ↦
            let found : normalize_signature_s s (c + 27) ≡ some ((pos s), c + 27) =
              rw (allowed, low) in
            rw (try_found r s (c + 27) (map (λ k. k + 27) cs) (pos s) (c + 27) found, tried, low)
              (serialized-Alike r s (pos s) (c + 27)
                (try_recovery_candidates recover expected r s cs)
                (try_candidates recover expected r s (map (λ k. k + 27) cs)) (inl refl) ih)
      ]

  -- The recovery candidates of the one loop are the v candidates of the other, less 27.
  try_recovery_candidates-Alike :
      (r s : ℕ) (cs : List ℕ)
      → AlikeFor r s
          (try_recovery_candidates recover expected r s cs)
          (try_candidates recover expected r s (map (λ c. c + 27) cs))
  unfolding try_recovery_candidates normalize_signature_s
  try_recovery_candidates-Alike r s [] = inr (unfold try_candidates in refl)
  try_recovery_candidates-Alike r s (c ∷ cs) =
      let ih = try_recovery_candidates-Alike r s cs in
      elim (Bool-cases (not (c == 0) && not (c == 1))) [
        | inr tried ↦
            tried-Alike r s c cs
              (elim (Bool-cases (c == 0)) [
                | inl first ↦ inl ((==_iff c 0).0 first)
                | inr other ↦ inr ((==_iff c 1).0 (ground arith))
              ])
              ih
        | inl skipped ↦
            let never : (not (c + 27 == 27) && not (c + 27 == 28)) ≡ true = ground arith in
            let gone : normalize_signature_s s (c + 27) ≡ none = rw never in
            rw (skipped, try_skipped r s (c + 27) (map (λ k. k + 27) cs) gone) ih
      ]

  candidates_lem :
      (v : Option ℕ)
      → map (λ c. c + 27) (recovery_candidates recover expected v) ≡ v_candidates recover expected v
  unfolding normalize_v
  candidates_lem none = refl
  candidates_lem (some v) = ap (λ (n : ℕ). n ∷ []) (ground arith)

  -- The same on the r and s of a raw signature.
  abbrev pub Alike : Option ℕ → Option ℕ → Result Signature → Result Signature → Type 0
  Alike x y a b =
      ((a ≡ err recovery_threw) × ((r : ℕ) × (s : ℕ) × (x ≡ some r) × (y ≡ some s) × Throwing r s))
      ⊎ (a ≡ renamed b)

  AlikeFor-Alike :
      (r s : ℕ) (a b : Result Signature) → AlikeFor r s a b → Alike (some r) (some s) a b
  AlikeFor-Alike r s a b (inl (e, threw)) = inl (e, (r, s, refl, refl, threw))
  AlikeFor-Alike r s a b (inr same) = inr same

  raw-Alike :
      (x y v : Option ℕ)
      → Alike x y
          (do
            r ← or_err x empty_integer
            s ← or_err y empty_integer
            try_recovery_candidates recover expected r s (recovery_candidates recover expected v))
          ((do r ← or_err x empty_integer; s ← or_err y empty_integer; ok (parsed_raw r s v))
            >>= λ parsed.
                try_candidates recover expected parsed.r parsed.s
                  (v_candidates recover expected parsed.v))
  raw-Alike none y v = inr refl
  raw-Alike (some r) none v = inr refl
  raw-Alike (some r) (some s) v = rw (sym (candidates_lem v)) (
      AlikeFor-Alike r s
        (try_recovery_candidates recover expected r s (recovery_candidates recover expected v))
        (try_candidates recover expected r s
          (map (λ c. c + 27) (recovery_candidates recover expected v)))
        (try_recovery_candidates-Alike r s (recovery_candidates recover expected v)))

  -- On a raw signature of 64 or 65 bytes the two normalisers give the same signature or fail alike,
  -- where the failure to find the signer has a message of its own in each. They may differ only where
  -- recovery throws on a signature of the given r with s or N - s, and ends the admission normaliser.
  pub normalisers_agree :
      (bytes : List ℕ)
      → (length bytes ≡ 64) ⊎ (length bytes ≡ 65)
      → Alike
          (bytes_to_big_int (slice 0 32 bytes))
          (bytes_to_big_int (slice 32 64 bytes))
          (normalize_secp256k1_signature_for_digest recover expected bytes)
          (normalize_acurast_secp256k1_signature recover expected bytes)
  unfolding normalize_secp256k1_signature_for_digest normalize_acurast_secp256k1_signature
      parse_acurast_secp256k1_signature
  normalisers_agree bytes h =
      let rejected : (not (length bytes == 64) && not (length bytes == 65)) ≡ false =
        ground arith in
      let raw : (length bytes == 64 || length bytes == 65) ≡ true = ground arith in
      rw (rejected, raw)
        (raw-Alike (bytes_to_big_int (slice 0 32 bytes)) (bytes_to_big_int (slice 32 64 bytes))
          (get_elem? bytes 64))
