-- ===== src/Ingress/Quote.antt =====
-- `buildIngressQuote` of src/switchboard-core/src/ingress-quote.ts. A bigint is an integer without a
-- bound, and texts are only passed on. What comes from ethers and from the hashes of other files is a
-- parameter: `none` stands for a call that throws.
use proof_cli_baran.Prelude.{ℕ, ◌+◌, Bool, not, ◌||◌, Option, none, some, ◌==◌, if◌then◌else◌}
use proof_cli_baran.Prelude.Number.{ℤ, pos, pos_part, neg_part, ◌+ℤ◌, leb_ℤ, ltb_ℤ}
use proof_cli_baran.Ingress.BigInt.{IntegerLike, big_int}
use Prim.Native.String.{String, ◌++◌ as str_append}
use text.Mathlib.Text.{◌==◌ as str_eq}

pub data QuoteError : Type 0 where
  no_service_amount negative_fees unbalanced_amount paid_seconds_not_positive paid_seconds_too_long
        native_asset invalid_address invalid_bytes deadline_not_integer :
      QuoteError

pub data Quoted {ℓ} (A : Type ℓ) : Type ℓ where
  quoted : A → Quoted A
  refused : QuoteError → Quoted A

infixl 5 ◌>>=◌
abbrev pub ◌>>=◌ {ℓ κ} : {A : Type ℓ} {B : Type κ} → Quoted A → (A → Quoted B) → Quoted B
quoted a >>= f = f a
refused e >>= f = refused e

abbrev pub or_refused {ℓ} : {A : Type ℓ} → Option A → QuoteError → Quoted A
or_refused none e = refused e
or_refused (some a) e = quoted a

abbrev pub or_else {ℓ} : {A : Type ℓ} → Option A → A → A
or_else none a = a
or_else (some b) a = b

-- 28 days, in seconds.
abbrev pub max_ingress_quote_paid_seconds : ℕ
max_ingress_quote_paid_seconds = 2_419_200

pub record IngressQuote : Type 0 where
  pub quote_id : String
  pub session_id : String
  pub developer : String
  pub asset : String
  pub amount : ℤ
  pub min_amount : ℤ
  pub max_amount : ℤ
  pub paid_seconds : ℤ
  pub service_amount : ℤ
  pub setup_fee : ℤ
  pub validation_fee_cap : ℤ
  pub job_id : String
  pub expected_job_signer : String
  pub operator_id : String
  pub processor_id : String
  pub endpoint_hash : String
  pub salt : String
  pub operator_recipient : String
  pub validator_recipient : String
  pub proof_recipient : String
  pub max_operator_bps : ℕ
  pub max_validator_bps : ℕ
  pub max_proof_bps : ℕ
  pub policy_hash : String
  pub deadline : ℤ

pub record IngressQuoteBuildInput : Type 0 where
  pub chain_id : IntegerLike
  pub registry_address : String
  pub developer : String
  pub asset : String
  pub amount : Option ℤ
  pub service_amount : Option ℤ
  pub setup_fee : Option ℤ
  pub validation_fee_cap : Option ℤ
  pub min_amount : Option ℤ
  pub max_amount : Option ℤ
  pub paid_seconds : ℤ
  pub expected_job_signer : String
  pub operator_recipient : String
  pub validator_recipient : String
  pub proof_recipient : String
  pub max_operator_bps : Option ℕ
  pub max_validator_bps : Option ℕ
  pub max_proof_bps : Option ℕ
  pub policy_hash : String
  pub deadline : IntegerLike
  pub quote_id : Option String
  pub session_label : Option String
  pub job_id : Option String
  pub operator_id : Option String
  pub processor_id : Option String
  pub endpoint_hostname : Option String
  pub endpoint_hash : Option String
  pub salt : Option String

-- The amounts of a quote that the code computes before anything else.
pub record Payment : Type 0 where
  pub amount : ℤ
  pub service_amount : ℤ
  pub setup_fee : ℤ
  pub validation_fee_cap : ℤ

abbrev pub eq_ℤ : ℤ → ℤ → Bool
eq_ℤ a b = pos_part a + neg_part b == pos_part b + neg_part a

-- The guards on the amounts and on the time, in the order of the code.
unfoldable pub check_payment : Payment → ℤ → Quoted Payment
check_payment p paid_seconds =
    if leb_ℤ p.amount (pos 0)
      || leb_ℤ p.service_amount (pos 0)
      || not (eq_ℤ p.amount (p.service_amount +ℤ p.setup_fee +ℤ p.validation_fee_cap))
    then refused unbalanced_amount
    else if leb_ℤ paid_seconds (pos 0)
    then refused paid_seconds_not_positive
    else if ltb_ℤ (pos max_ingress_quote_paid_seconds) paid_seconds
    then refused paid_seconds_too_long
    else quoted p

unfoldable pub payment_for : IngressQuoteBuildInput → ℤ → ℤ → ℤ → Payment
payment_for input service setup cap = record {
  amount = or_else input.amount (service +ℤ setup +ℤ cap);
  service_amount = service;
  setup_fee = setup;
  validation_fee_cap = cap;
}

-- `input.serviceAmount ?? input.amount`
abbrev pub service_amount_of : IngressQuoteBuildInput → Option ℤ
service_amount_of input = elim input.service_amount [ none ↦ input.amount | some a ↦ some a ]

unfoldable pub payment_of : IngressQuoteBuildInput → Quoted Payment
unfolding check_payment payment_for
payment_of input =
    let setup = or_else input.setup_fee (pos 0) in
    let cap = or_else input.validation_fee_cap (pos 0) in
    elim (service_amount_of input) [
      | none ↦ refused no_service_amount
      | some service ↦
          if ltb_ℤ setup (pos 0) || ltb_ℤ cap (pos 0)
          then refused negative_fees
          else check_payment (payment_for input service setup cap) input.paid_seconds
    ]

-- What the session id is derived from.
pub record SessionKey : Type 0 where
  pub chain_id : IntegerLike
  pub registry_address : String
  pub developer_address : String
  pub asset_address : String
  pub job_id : String
  pub expected_job_signer : String
  pub operator_id : String
  pub processor_id : String
  pub endpoint_hash : String
  pub salt : String

abbrev zero_address : String
zero_address = "0x0000000000000000000000000000000000000000"

-- What the build takes from elsewhere: ethers' `getAddress` and `hexlify`, the hashes and the label
-- of registration.ts and native-dot-payment.ts, a random quote id, and the label for this instant.
pub record Hashes : Type 0 where
  pub get_address : String → Option String
  pub hexlify : String → Option String
  pub endpoint_hash_of : String → String
  pub id_bytes32 : String → String
  pub dns_label : String → String
  pub derive_ingress_session_id : SessionKey → Option String
  pub random_quote_id : String
  pub label_now : String

-- `input.endpointHash ? hexlify(input.endpointHash) : endpointHash(endpointHostname)`
endpoint_hash_for : Hashes → IngressQuoteBuildInput → String → Quoted String
endpoint_hash_for h input label =
    let hostname =
      or_else input.endpoint_hostname (str_append (h.dns_label label) ".ingress.test") in
    elim input.endpoint_hash [
      | none ↦ quoted (h.endpoint_hash_of hostname)
      | some bytes ↦
          if str_eq bytes ""
          then quoted (h.endpoint_hash_of hostname)
          else or_refused (h.hexlify bytes) invalid_bytes
    ]

not_native : String → Quoted String
not_native asset = if str_eq asset zero_address then refused native_asset else quoted asset

-- The addresses, hashes and ids of a quote.
pub record Parties : Type 0 where
  pub session_id : String
  pub developer : String
  pub asset : String
  pub job_id : String
  pub expected_job_signer : String
  pub operator_id : String
  pub processor_id : String
  pub endpoint_hash : String
  pub salt : String
  pub operator_recipient : String
  pub validator_recipient : String
  pub proof_recipient : String
  pub policy_hash : String

unfoldable pub parties_of : Hashes → IngressQuoteBuildInput → Quoted Parties
unfolding endpoint_hash_for not_native
parties_of h input = do
  let label = or_else input.session_label h.label_now
  address ← or_refused (h.get_address input.asset) invalid_address
  asset ← not_native address
  signer ← or_refused (h.get_address input.expected_job_signer) invalid_address
  developer ← or_refused (h.get_address input.developer) invalid_address
  endpoint ← endpoint_hash_for h input label
  let job = or_else input.job_id (h.id_bytes32 (str_append label ":job"))
  let operator = or_else input.operator_id (h.id_bytes32 "proof-operator-local")
  let processor = or_else input.processor_id (h.id_bytes32 "processor-local-1")
  let salt = or_else input.salt (h.id_bytes32 (str_append label ":session"))
  session ←
      or_refused
        (h.derive_ingress_session_id (record {
          chain_id = input.chain_id;
          registry_address = input.registry_address;
          developer_address = developer;
          asset_address = asset;
          job_id = job;
          expected_job_signer = signer;
          operator_id = operator;
          processor_id = processor;
          endpoint_hash = endpoint;
          salt = salt;
        }))
        invalid_bytes
  operator_recipient ← or_refused (h.get_address input.operator_recipient) invalid_address
  validator_recipient ← or_refused (h.get_address input.validator_recipient) invalid_address
  proof_recipient ← or_refused (h.get_address input.proof_recipient) invalid_address
  policy ← or_refused (h.hexlify input.policy_hash) invalid_bytes
  quoted (record {
    session_id = session;
    developer = developer;
    asset = asset;
    job_id = job;
    expected_job_signer = signer;
    operator_id = operator;
    processor_id = processor;
    endpoint_hash = endpoint;
    salt = salt;
    operator_recipient = operator_recipient;
    validator_recipient = validator_recipient;
    proof_recipient = proof_recipient;
    policy_hash = policy;
  })

unfoldable pub quote_of : Hashes → IngressQuoteBuildInput → Payment → Parties → ℤ → IngressQuote
quote_of h input p who deadline = record {
  quote_id = or_else input.quote_id h.random_quote_id;
  session_id = who.session_id;
  developer = who.developer;
  asset = who.asset;
  amount = p.amount;
  min_amount = or_else input.min_amount p.amount;
  max_amount = or_else input.max_amount p.amount;
  paid_seconds = input.paid_seconds;
  service_amount = p.service_amount;
  setup_fee = p.setup_fee;
  validation_fee_cap = p.validation_fee_cap;
  job_id = who.job_id;
  expected_job_signer = who.expected_job_signer;
  operator_id = who.operator_id;
  processor_id = who.processor_id;
  endpoint_hash = who.endpoint_hash;
  salt = who.salt;
  operator_recipient = who.operator_recipient;
  validator_recipient = who.validator_recipient;
  proof_recipient = who.proof_recipient;
  max_operator_bps = or_else input.max_operator_bps 8_000;
  max_validator_bps = or_else input.max_validator_bps 500;
  max_proof_bps = or_else input.max_proof_bps 2_000;
  policy_hash = who.policy_hash;
  deadline = deadline;
}

unfoldable pub build_ingress_quote : Hashes → IngressQuoteBuildInput → Quoted IngressQuote
unfolding quote_of big_int
build_ingress_quote h input = do
  p ← payment_of input
  who ← parties_of h input
  deadline ← or_refused (big_int input.deadline) deadline_not_integer
  quoted (quote_of h input p who deadline)
