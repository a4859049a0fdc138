-- ===== src/Ingress/Matches.antt =====
-- When a quote agrees with a request, and what the checks of single fields let through (src/switchboard-core/src/quote-binding.ts).
use proof_cli_baran.Prelude.{
  ℕ, ◌≡◌, refl, ap, ◌∙◌, Bool, true, false, Option, none, some, arith, ◌==◌, ==_iff,
}
use proof_cli_baran.Prelude.Number.{ℤ, pos, negsuc}
use proof_cli_baran.Ingress.Quote.{IngressQuote, eq_ℤ}
use proof_cli_baran.Ingress.Binding.{
  QuoteField, max_amount, BindingError, Checked, passed, failed, ◌>>=◌, guard, or_failed, UintInput,
  parse_uint, IngressQuoteBindingRequest, Ethers, truthy, address, normalize_bytes32, check_address,
  assert_optional_bytes32, check_amount, mismatch, invalid_address, invalid_bytes, not_bytes32,
}
use Prim.Native.String.{String}
use text.Mathlib.Text.{◌==◌ as str_eq}
use text.Mathlib.TextEquality.{eq_iff}

pub bind-passed {ℓ κ} :
    {A : Type ℓ} {B : Type κ} (c : Checked A) (f : A → Checked B) (b : B)
    → (c >>= f) ≡ passed b
    → (a : A) × (c ≡ passed a) × (f a ≡ passed b)
bind-passed (passed a) f b h = (a, refl, h)
bind-passed (failed e) f b h = absurd (cc h)

pub guard-passed :
    (test : Bool) (e : BindingError) (u : Unit {0}) → guard test e ≡ passed u → test ≡ true
guard-passed true e u h = refl
guard-passed false e u h = absurd (cc h)

pub or_failed-passed {ℓ} :
    {A : Type ℓ} (x : Option A) (e : BindingError) (a : A) → or_failed x e ≡ passed a → x ≡ some a
or_failed-passed none e a h = absurd (cc h)
or_failed-passed (some b) e a h = cc h

pub eq_ℤ-pos : (z : ℤ) (n : ℕ) → eq_ℤ z (pos n) ≡ true → z ≡ pos n
eq_ℤ-pos (pos m) n h = ap pos (ground arith)
eq_ℤ-pos (negsuc m) n h = ground arith

-- What is asked of a value that may be absent.
abbrev pub Asked {ℓ} : {A : Type ℓ} → Option A → (A → Type 0) → Type 0
Asked none P = Unit {0}
Asked (some a) P = P a

module _ (o : Ethers) where
  unfoldable pub SameAddress : String → String → Type 0
  SameAddress actual expected =
      (a : String) × (o.get_address expected ≡ some a) × (o.get_address actual ≡ some a)

  -- 32 bytes, in the form in which they are compared.
  unfoldable pub IsBytes32 : String → String → Type 0
  IsBytes32 value b =
      (hex : String) × (o.hexlify value ≡ some hex)
      × (o.data_length hex ≡ 32)
      × (o.to_lower_case hex ≡ b)

  unfoldable pub SameBytes : String → String → Type 0
  SameBytes actual expected = (b : String) × IsBytes32 actual b × IsBytes32 expected b

  unfoldable pub SameAmount : IngressQuote → UintInput → Type 0
  SameAmount quote value =
      (n : ℕ) × (parse_uint value ≡ passed n) × (quote.amount ≡ pos n) × (quote.max_amount ≡ pos n)

  -- The endpoint is compared by its hash where one is given, and else by its hostname.
  abbrev pub EndpointAsked : String → Option String → Option String → Type 0
  EndpointAsked actual (some hash) hostname = SameBytes actual hash
  EndpointAsked actual none hostname =
      Asked hostname (λ name. IsBytes32 actual (o.endpoint_hash_of name))

  -- A quote that agrees with a request in all that the request says.
  pub record Matches (quote : IngressQuote) (request : IngressQuoteBindingRequest) : Type 0 where
    pub developer : SameAddress quote.developer request.developer
    pub asset : SameAddress quote.asset request.asset
    pub signer : SameAddress quote.expected_job_signer request.expected_job_signer
    pub seconds :
        (n : ℕ) × (parse_uint request.paid_seconds ≡ passed n) × (quote.paid_seconds ≡ pos n)
    pub amount : Asked request.max_amount (SameAmount quote)
    pub job : Asked (truthy request.job_id) (SameBytes quote.job_id)
    pub operator : Asked (truthy request.operator_id) (SameBytes quote.operator_id)
    pub processor : Asked (truthy request.processor_id) (SameBytes quote.processor_id)
    pub salt : Asked (truthy request.salt) (SameBytes quote.salt)
    pub endpoint :
        EndpointAsked quote.endpoint_hash
          (truthy request.endpoint_hash)
          (truthy request.endpoint_hostname)

  pub check_address-passed :
      (f : QuoteField) (actual expected : String) (u : Unit {0})
      → check_address o f actual expected ≡ passed u
      → o.get_address actual ≡ some expected
  unfolding check_address address
  check_address-passed f actual expected u h =
      let (a, e, g) = bind-passed (or_failed (o.get_address actual) invalid_address) _ u h in
      or_failed-passed (o.get_address actual) invalid_address a e
      ∙ ap some ((eq_iff a expected).0 (guard-passed (str_eq a expected) (mismatch f) u g))

  pub normalize_bytes32-IsBytes32 :
      (value b : String) → normalize_bytes32 o value ≡ passed b → IsBytes32 value b
  unfolding normalize_bytes32 IsBytes32
  normalize_bytes32-IsBytes32 value b h =
      let (hex, e, g) = bind-passed (or_failed (o.hexlify value) invalid_bytes) _ b h in
      let (u, long, k) = bind-passed (guard (o.data_length hex == 32) not_bytes32) _ b g in
      (
        hex,
        or_failed-passed (o.hexlify value) invalid_bytes hex e,
        (==_iff (o.data_length hex) 32).0 (guard-passed _ not_bytes32 u long),
        cc k,
      )

  compared-SameBytes :
      (actual value : String) (e : BindingError) (u : Unit {0})
      → (do a ← normalize_bytes32 o actual; b ← normalize_bytes32 o value; guard (str_eq a b) e)
        ≡ passed u
      → SameBytes actual value
  unfolding SameBytes
  compared-SameBytes actual value e u h =
      let (a, ha, g) = bind-passed (normalize_bytes32 o actual) _ u h in
      let (b, hb, k) = bind-passed (normalize_bytes32 o value) _ u g in
      (
        b,
        normalize_bytes32-IsBytes32 actual b
            (ha ∙ ap passed ((eq_iff a b).0 (guard-passed (str_eq a b) e u k))),
        normalize_bytes32-IsBytes32 value b hb,
      )

  pub assert_optional_bytes32-Asked :
      (f : QuoteField) (actual : String) (expected : Option String) (u : Unit {0})
      → assert_optional_bytes32 o f actual expected ≡ passed u
      → Asked (truthy expected) (SameBytes actual)
  unfolding assert_optional_bytes32
  assert_optional_bytes32-Asked f actual expected u h = found-Asked (truthy expected) h
    where
      found-Asked :
          (found : Option String)
          → (elim found [
            | none ↦ passed tt
            | some value ↦ do
              a ← normalize_bytes32 o actual
              b ← normalize_bytes32 o value
              guard (str_eq a b) (mismatch f)
          ])
            ≡ passed u
          → Asked found (SameBytes actual)
      found-Asked none g = tt
      found-Asked (some value) g = compared-SameBytes actual value (mismatch f) u g

  pub check_amount-Asked :
      (quote : IngressQuote) (value : Option UintInput) (u : Unit {0})
      → check_amount o quote value ≡ passed u
      → Asked value (SameAmount quote)
  unfolding check_amount SameAmount
  check_amount-Asked quote none u h = tt
  check_amount-Asked quote (some value) u h =
      let (n, e, g) = bind-passed (parse_uint value) _ u h in
      let both = guard-passed _ (mismatch max_amount) u g in
      (n, e, eq_ℤ-pos quote.amount n (ground arith), eq_ℤ-pos quote.max_amount n (ground arith))
