-- ===== src/Ingress/Bound.antt =====
-- Which quotes the check of quote-binding.ts lets through (src/switchboard-core/src/quote-binding.ts).
use proof_cli_baran.Prelude.{◌≡◌, refl, ap, ◌∙◌, Option, none, some}
use proof_cli_baran.Prelude.Number.{pos}
use proof_cli_baran.Ingress.Quote.{IngressQuote, eq_ℤ}
use proof_cli_baran.Ingress.Binding.{
  developer, asset, paid_seconds, expected_job_signer, job_id, operator_id, processor_id, salt,
  endpoint_hash, endpoint_hostname, BindingError, passed, ◌>>=◌, guard, parse_uint,
  IngressQuoteBindingRequest, Ethers, truthy, address, normalize_bytes32, check_address,
  assert_optional_bytes32, check_amount, check_endpoint, assert_ingress_quote_matches_request,
  mismatch, invalid_address,
}
use proof_cli_baran.Ingress.Matches.{
  bind-passed, guard-passed, or_failed-passed, eq_ℤ-pos, Asked, SameAddress, IsBytes32, SameBytes,
  EndpointAsked, Matches, check_address-passed, normalize_bytes32-IsBytes32,
  assert_optional_bytes32-Asked, check_amount-Asked,
}
use mathlib.Core.Path.{subst}
use Prim.Native.String.{String}
use text.Mathlib.Text.{◌==◌ as str_eq}
use text.Mathlib.TextEquality.{eq_iff}

module _ (o : Ethers) where
  hostname-IsBytes32 :
      (found : Option String) (actual : String) (e : BindingError) (u : Unit {0})
      → (elim found [
        | none ↦ passed tt
        | some name ↦ do
          a ← normalize_bytes32 o actual
          guard (str_eq a (o.endpoint_hash_of name)) e
      ])
        ≡ passed u
      → Asked found (λ name. IsBytes32 o actual (o.endpoint_hash_of name))
  hostname-IsBytes32 none actual e u h = tt
  hostname-IsBytes32 (some name) actual e u h =
      let (a, ha, g) = bind-passed (normalize_bytes32 o actual) _ u h in
      normalize_bytes32-IsBytes32 o actual (o.endpoint_hash_of name)
        (ha ∙ ap passed ((eq_iff a (o.endpoint_hash_of name)).0 (guard-passed _ e u g)))

  endpoint-EndpointAsked :
      (found hash hostname : Option String) (actual : String) (e : BindingError) (u : Unit {0})
      → truthy hash ≡ found
      → (elim found [
        | some value ↦ assert_optional_bytes32 o endpoint_hash actual hash
        | none ↦ elim hostname [
          | none ↦ passed tt
          | some name ↦ do
            a ← normalize_bytes32 o actual
            guard (str_eq a (o.endpoint_hash_of name)) e
        ]
      ])
        ≡ passed u
      → EndpointAsked o actual found hostname
  endpoint-EndpointAsked none hash hostname actual e u p h =
      hostname-IsBytes32 hostname actual e u h
  endpoint-EndpointAsked (some value) hash hostname actual e u p h =
      subst (λ t. Asked t (SameBytes o actual)) p
        (assert_optional_bytes32-Asked o endpoint_hash actual hash u h)

  check_endpoint-EndpointAsked :
      (quote : IngressQuote) (request : IngressQuoteBindingRequest) (u : Unit {0})
      → check_endpoint o quote request ≡ passed u
      → EndpointAsked o quote.endpoint_hash
          (truthy request.endpoint_hash)
          (truthy request.endpoint_hostname)
  unfolding check_endpoint
  check_endpoint-EndpointAsked quote request u h =
      endpoint-EndpointAsked (truthy request.endpoint_hash) request.endpoint_hash
        (truthy request.endpoint_hostname) quote.endpoint_hash (mismatch endpoint_hostname) u refl h

  -- A quote that the check lets through agrees with the request: in its parties, time and amount, and in
  -- every id, salt and endpoint that the request gives.
  pub assert_ingress_quote_matches_request-Matches :
      (quote : IngressQuote) (request : IngressQuoteBindingRequest)
      → assert_ingress_quote_matches_request o quote request ≡ passed tt
      → Matches o quote request
  unfolding assert_ingress_quote_matches_request address SameAddress
  assert_ingress_quote_matches_request-Matches quote request h0 =
      let (by, e1, h1) = bind-passed (address o request.developer) _ tt h0 in
      let (with_asset, e2, h2) = bind-passed (address o request.asset) _ tt h1 in
      let (signer, e3, h3) = bind-passed (address o request.expected_job_signer) _ tt h2 in
      let (n, e4, h4) = bind-passed (parse_uint request.paid_seconds) _ tt h3 in
      let (u5, e5, h5) = bind-passed (check_address o developer quote.developer by) _ tt h4 in
      let (u6, e6, h6) = bind-passed (check_address o asset quote.asset with_asset) _ tt h5 in
      let (u7, e7, h7) =
        bind-passed (guard (eq_ℤ quote.paid_seconds (pos n)) (mismatch paid_seconds)) _ tt h6 in
      let (u8, e8, h8) = bind-passed (check_amount o quote request.max_amount) _ tt h7 in
      let (u9, e9, h9) =
        bind-passed (check_address o expected_job_signer quote.expected_job_signer signer) _ tt
          h8 in
      let (u10, e10, h10) =
        bind-passed (assert_optional_bytes32 o job_id quote.job_id request.job_id) _ tt h9 in
      let (u11, e11, h11) =
        bind-passed (assert_optional_bytes32 o operator_id quote.operator_id request.operator_id) _
          tt h10 in
      let (u12, e12, h12) =
        bind-passed (assert_optional_bytes32 o processor_id quote.processor_id request.processor_id)
          _ tt h11 in
      let (u13, e13, h13) =
        bind-passed (assert_optional_bytes32 o salt quote.salt request.salt) _ tt h12 in
      record {
        developer = (
          by,
          or_failed-passed _ invalid_address by e1,
          check_address-passed o developer _ by u5 e5,
        );
        asset = (
          with_asset,
          or_failed-passed _ invalid_address with_asset e2,
          check_address-passed o asset _ with_asset u6 e6,
        );
        signer = (
          signer,
          or_failed-passed _ invalid_address signer e3,
          check_address-passed o expected_job_signer _ signer u9 e9,
        );
        seconds = (n, e4, eq_ℤ-pos _ n (guard-passed _ (mismatch paid_seconds) u7 e7));
        amount = check_amount-Asked o quote request.max_amount u8 e8;
        job = assert_optional_bytes32-Asked o job_id _ request.job_id u10 e10;
        operator = assert_optional_bytes32-Asked o operator_id _ request.operator_id u11 e11;
        processor = assert_optional_bytes32-Asked o processor_id _ request.processor_id u12 e12;
        salt = assert_optional_bytes32-Asked o salt _ request.salt u13 e13;
        endpoint = check_endpoint-EndpointAsked quote request tt h13;
      }
