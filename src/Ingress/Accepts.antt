-- ===== src/Ingress/Accepts.antt =====
-- That every quote that agrees with a request passes (src/switchboard-core/src/quote-binding.ts).
use proof_cli_baran.Prelude.{ℕ, ◌≡◌, refl, sym, ◌↔◌, true, Option, none, some, arith, ==_iff}
use proof_cli_baran.Prelude.Number.{ℤ, pos}
use proof_cli_baran.Ingress.Quote.{IngressQuote, eq_ℤ}
use proof_cli_baran.Ingress.Binding.{
  QuoteField, developer, asset, expected_job_signer, job_id, operator_id, processor_id, salt,
  endpoint_hash, endpoint_hostname, BindingError, passed, ◌>>=◌, guard, UintInput,
  IngressQuoteBindingRequest, Ethers, truthy, address, normalize_bytes32, check_address,
  assert_optional_bytes32, check_amount, check_endpoint, assert_ingress_quote_matches_request,
  mismatch, Checked,
}
use proof_cli_baran.Ingress.Matches.{
  Asked, SameAddress, SameAmount, IsBytes32, SameBytes, EndpointAsked, Matches,
}
use proof_cli_baran.Ingress.Bound.{assert_ingress_quote_matches_request-Matches}
use mathlib.Core.Path.{subst}
use Prim.Native.String.{String}
use text.Mathlib.Text.{◌==◌ as str_eq}
use text.Mathlib.TextEquality.{eq_iff}

eq_ℤ_refl : (n : ℕ) → eq_ℤ (pos n) (pos n) ≡ true
eq_ℤ_refl n = ground arith

abbrev pass : Checked (Unit {0})
pass = passed tt

eq_ℤ-eq : (z : ℤ) (n : ℕ) → z ≡ pos n → eq_ℤ z (pos n) ≡ true
eq_ℤ-eq z n e = rw e (eq_ℤ_refl n)

module _ (o : Ethers) where
  address_passes : (a b : String) → o.get_address a ≡ some b → address o a ≡ passed b
  unfolding address
  address_passes a b e = rw e refl

  check_address_passes :
      (f : QuoteField) (a b : String) → o.get_address a ≡ some b → check_address o f a b ≡ passed tt
  unfolding check_address address
  check_address_passes f a b e = rw (e, (eq_iff b b).1 refl) refl

  normalize_passes : (a b : String) → IsBytes32 o a b → normalize_bytes32 o a ≡ passed b
  unfolding normalize_bytes32 IsBytes32
  normalize_passes a b (hex, e, n, l) = rw (e, (==_iff (o.data_length hex) 32).1 n, l) refl

  optional_passes :
      (f : QuoteField) (actual : String) (expected : Option String)
      → Asked (truthy expected) (SameBytes o actual)
      → assert_optional_bytes32 o f actual expected ≡ passed tt
  unfolding assert_optional_bytes32 SameBytes
  optional_passes f actual expected h = found_passes (truthy expected) h
    where
      found_passes :
          (found : Option String)
          → Asked found (SameBytes o actual)
          → (elim found [
            | none ↦ passed tt
            | some value ↦ do
              a ← normalize_bytes32 o actual
              b ← normalize_bytes32 o value
              guard (str_eq a b) (mismatch f)
          ])
            ≡ pass
      found_passes none g = refl
      found_passes (some value) (b, p, q) =
          rw (normalize_passes actual b p, normalize_passes value b q, (eq_iff b b).1 refl) refl

  amount_passes :
      (quote : IngressQuote) (value : Option UintInput)
      → Asked value (SameAmount o quote)
      → check_amount o quote value ≡ passed tt
  unfolding check_amount SameAmount
  amount_passes quote none h = refl
  amount_passes quote (some value) (n, e, p, q) = rw (e, p, q, eq_ℤ_refl n) refl

  endpoint_passes :
      (found hash hostname : Option String) (actual : String) (e : BindingError)
      → truthy hash ≡ found
      → EndpointAsked o actual found hostname
      → (elim found [
        | some value ↦ assert_optional_bytes32 o endpoint_hash actual hash
        | none ↦ elim hostname [
          | none ↦ passed tt
          | some name ↦ do
            a ← normalize_bytes32 o actual
            guard (str_eq a (o.endpoint_hash_of name)) e
        ]
      ])
        ≡ pass
  endpoint_passes none hash none actual e p h = refl
  endpoint_passes none hash (some name) actual e p h =
      rw
        (
          normalize_passes actual (o.endpoint_hash_of name) h,
          (eq_iff (o.endpoint_hash_of name) (o.endpoint_hash_of name)).1 refl,
        )
        refl
  endpoint_passes (some value) hash hostname actual e p h =
      optional_passes endpoint_hash actual hash
        (subst (λ t. Asked t (SameBytes o actual)) (sym p) h)

  check_endpoint_passes :
      (quote : IngressQuote) (request : IngressQuoteBindingRequest)
      → EndpointAsked o quote.endpoint_hash
          (truthy request.endpoint_hash)
          (truthy request.endpoint_hostname)
      → check_endpoint o quote request ≡ passed tt
  unfolding check_endpoint
  check_endpoint_passes quote request h =
      endpoint_passes (truthy request.endpoint_hash) request.endpoint_hash
        (truthy request.endpoint_hostname) quote.endpoint_hash (mismatch endpoint_hostname) refl h

  matching_passes :
      (quote : IngressQuote) (request : IngressQuoteBindingRequest)
      → Matches o quote request
      → assert_ingress_quote_matches_request o quote request ≡ passed tt
  unfolding assert_ingress_quote_matches_request SameAddress
  matching_passes quote request m =
      let (by, d1, d2) = m.developer in
      let (with_asset, a1, a2) = m.asset in
      let (signer, s1, s2) = m.signer in
      let (n, t1, t2) = m.seconds in
      rw
        (
          address_passes request.developer by d1,
          address_passes request.asset with_asset a1,
          address_passes request.expected_job_signer signer s1,
          t1,
          check_address_passes developer quote.developer by d2,
          check_address_passes asset quote.asset with_asset a2,
          eq_ℤ-eq quote.paid_seconds n t2,
          amount_passes quote request.max_amount m.amount,
          check_address_passes expected_job_signer quote.expected_job_signer signer s2,
          optional_passes job_id quote.job_id request.job_id m.job,
          optional_passes operator_id quote.operator_id request.operator_id m.operator,
          optional_passes processor_id quote.processor_id request.processor_id m.processor,
          optional_passes salt quote.salt request.salt m.salt,
        )
        (check_endpoint_passes quote request m.endpoint)

  -- The check lets a quote through exactly when it agrees with the request: in its parties, time and
  -- amount, and in every id, salt and endpoint that the request gives.
  pub assert_ingress_quote_matches_request_iff :
      (quote : IngressQuote) (request : IngressQuoteBindingRequest)
      → (assert_ingress_quote_matches_request o quote request ≡ passed tt) ↔ Matches o quote request
  assert_ingress_quote_matches_request_iff quote request =
      (assert_ingress_quote_matches_request-Matches o quote request, matching_passes quote request)
