-- ===== src/Ingress/Binding.antt =====
-- Whether a quote is the one that was asked for (src/switchboard-core/src/quote-binding.ts). ethers'
-- `getAddress`, `hexlify` and `dataLength`, `toLowerCase` and the hash of registration.ts are
-- parameters: `none` stands for a call that throws.
use proof_cli_baran.Prelude.{
  ℕ, Bool, true, false, not, ◌&&◌, Option, none, some, leb, ◌==◌, if◌then◌else◌,
}
use proof_cli_baran.Prelude.Text.{Text}
use proof_cli_baran.Prelude.Number.{ℤ, pos, negsuc, Number, is_integer, is_lt_zero, floor_ℕ}
use proof_cli_baran.Prelude.Decimal.{read_ℕ}
use proof_cli_baran.Ingress.Quote.{IngressQuote, eq_ℤ}
use Prim.Native.String.{String}
use text.Mathlib.Text.{◌==◌ as str_eq}

pub data QuoteField : Type 0 where
  developer asset paid_seconds max_amount expected_job_signer job_id operator_id processor_id salt
        endpoint_hash endpoint_hostname :
      QuoteField

pub data BindingError : Type 0 where
  invalid_address invalid_bytes not_bytes32 not_uint : BindingError
  mismatch : QuoteField → BindingError

pub data Checked {ℓ} (A : Type ℓ) : Type ℓ where
  passed : A → Checked A
  failed : BindingError → Checked A

infixl 5 ◌>>=◌
abbrev pub ◌>>=◌ {ℓ κ} : {A : Type ℓ} {B : Type κ} → Checked A → (A → Checked B) → Checked B
passed a >>= f = f a
failed e >>= f = failed e

abbrev pub or_failed {ℓ} : {A : Type ℓ} → Option A → BindingError → Checked A
or_failed none e = failed e
or_failed (some a) e = passed a

abbrev pub guard : Bool → BindingError → Checked (Unit {0})
guard true e = passed tt
guard false e = failed e

-- `string | bigint | number`
pub data UintInput : Type 0 where
  digits : Text → UintInput
  bigint : ℤ → UintInput
  number : Number → UintInput

-- `Number.isSafeInteger(value) && value >= 0`
abbrev is_safe : Number → Bool
is_safe x = is_integer x && not (is_lt_zero x) && leb (floor_ℕ x) 9_007_199_254_740_991

unfoldable pub parse_uint : UintInput → Checked ℕ
unfolding is_integer is_lt_zero floor_ℕ read_ℕ
parse_uint (bigint (pos n)) = passed n
parse_uint (bigint (negsuc n)) = failed not_uint
parse_uint (number x) = if is_safe x then passed (floor_ℕ x) else failed not_uint
parse_uint (digits s) = or_failed (read_ℕ s) not_uint

pub record IngressQuoteBindingRequest : Type 0 where
  pub developer : String
  pub asset : String
  pub paid_seconds : UintInput
  pub max_amount : Option UintInput
  pub expected_job_signer : String
  pub job_id : Option String
  pub operator_id : Option String
  pub processor_id : Option String
  pub endpoint_hash : Option String
  pub endpoint_hostname : Option String
  pub salt : Option String

-- What the check takes from elsewhere.
pub record Ethers : Type 0 where
  pub get_address : String → Option String
  pub hexlify : String → Option String
  pub data_length : String → ℕ
  pub to_lower_case : String → String
  pub endpoint_hash_of : String → String

-- A value that is present and not empty.
unfoldable pub truthy : Option String → Option String
truthy none = none
truthy (some s) = if str_eq s "" then none else some s

module _ (o : Ethers) where
  unfoldable pub address : String → Checked String
  address a = or_failed (o.get_address a) invalid_address

  unfoldable pub normalize_bytes32 : String → Checked String
  normalize_bytes32 value = do
    hex ← or_failed (o.hexlify value) invalid_bytes
    _ ← guard (o.data_length hex == 32) not_bytes32
    passed (o.to_lower_case hex)

  unfoldable pub check_address : QuoteField → String → String → Checked (Unit {0})
  unfolding address
  check_address field actual expected = do
    a ← address actual
    guard (str_eq a expected) (mismatch field)

  unfoldable pub assert_optional_bytes32 : QuoteField → String → Option String → Checked (Unit {0})
  unfolding normalize_bytes32 truthy
  assert_optional_bytes32 field actual expected = elim (truthy expected) [
    | none ↦ passed tt
    | some value ↦ do
      a ← normalize_bytes32 actual
      b ← normalize_bytes32 value
      guard (str_eq a b) (mismatch field)
  ]

  unfoldable pub check_amount : IngressQuote → Option UintInput → Checked (Unit {0})
  unfolding parse_uint
  check_amount quote none = passed tt
  check_amount quote (some value) = do
    n ← parse_uint value
    guard (eq_ℤ quote.amount (pos n) && eq_ℤ quote.max_amount (pos n)) (mismatch max_amount)

  unfoldable pub check_endpoint : IngressQuote → IngressQuoteBindingRequest → Checked (Unit {0})
  unfolding assert_optional_bytes32
  check_endpoint quote request = elim (truthy request.endpoint_hash) [
    | some value ↦ assert_optional_bytes32 endpoint_hash quote.endpoint_hash request.endpoint_hash
    | none ↦ elim (truthy request.endpoint_hostname) [
      | none ↦ passed tt
      | some hostname ↦ do
        a ← normalize_bytes32 quote.endpoint_hash
        guard (str_eq a (o.endpoint_hash_of hostname)) (mismatch endpoint_hostname)
    ]
  ]

  unfoldable pub assert_ingress_quote_matches_request :
      IngressQuote → IngressQuoteBindingRequest → Checked (Unit {0})
  unfolding address parse_uint check_address check_amount assert_optional_bytes32 check_endpoint
  assert_ingress_quote_matches_request quote request = do
    by ← address request.developer
    with_asset ← address request.asset
    signer ← address request.expected_job_signer
    seconds ← parse_uint request.paid_seconds
    _ ← check_address developer quote.developer by
    _ ← check_address asset quote.asset with_asset
    _ ← guard (eq_ℤ quote.paid_seconds (pos seconds)) (mismatch paid_seconds)
    _ ← check_amount quote request.max_amount
    _ ← check_address expected_job_signer quote.expected_job_signer signer
    _ ← assert_optional_bytes32 job_id quote.job_id request.job_id
    _ ← assert_optional_bytes32 operator_id quote.operator_id request.operator_id
    _ ← assert_optional_bytes32 processor_id quote.processor_id request.processor_id
    _ ← assert_optional_bytes32 salt quote.salt request.salt
    check_endpoint quote request
