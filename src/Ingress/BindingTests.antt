-- ===== src/Ingress/BindingTests.antt =====
-- A quote for an hour of one job, and the request that it answers.
use proof_cli_baran.Prelude.{◌≡◌, refl, ◌↔◌, none, some}
use proof_cli_baran.Prelude.Text.{codes}
use proof_cli_baran.Prelude.Number.{pos}
use proof_cli_baran.Ingress.Quote.{IngressQuote}
use proof_cli_baran.Ingress.Binding.{
  IngressQuoteBindingRequest, Ethers, passed, digits, bigint, assert_ingress_quote_matches_request,
}
use proof_cli_baran.Ingress.Matches.{Matches}
use proof_cli_baran.Ingress.Accepts.{assert_ingress_quote_matches_request_iff}
use proof_cli_baran.Prelude.{◌≡◌, refl, ◌↔◌, none, some}

-- Texts are passed through, and all of them count as 32 bytes.
abbrev as_written : Ethers
as_written = record {
  get_address = λ s. some s;
  hexlify = λ s. some s;
  data_length = λ s. 32;
  to_lower_case = λ s. s;
  endpoint_hash_of = λ s. s;
}

abbrev quote : IngressQuote
quote = record {
  quote_id = "0x77";
  session_id = "0x78";
  developer = "0x02";
  asset = "0x03";
  amount = pos 120;
  min_amount = pos 120;
  max_amount = pos 120;
  paid_seconds = pos 36;
  service_amount = pos 100;
  setup_fee = pos 20;
  validation_fee_cap = pos 0;
  job_id = "0x0a";
  expected_job_signer = "0x04";
  operator_id = "0x0b";
  processor_id = "0x0c";
  endpoint_hash = "relay.example";
  salt = "0x0d";
  operator_recipient = "0x05";
  validator_recipient = "0x06";
  proof_recipient = "0x07";
  max_operator_bps = 8_000;
  max_validator_bps = 500;
  max_proof_bps = 2_000;
  policy_hash = "0x08";
  deadline = pos 9;
}

abbrev request : IngressQuoteBindingRequest
request = record {
  developer = "0x02";
  asset = "0x03";
  paid_seconds = digits (codes "36");
  max_amount = some (bigint (pos 120));
  expected_job_signer = "0x04";
  job_id = some "0x0a";
  operator_id = some "";
  processor_id = none;
  endpoint_hash = none;
  endpoint_hostname = some "relay.example";
  salt = some "0x0d";
}

quote_passes : assert_ingress_quote_matches_request as_written quote request ≡ passed tt
unfolding assert_ingress_quote_matches_request
quote_passes = refl

assert_ingress_quote_matches_request_iff_example :
    (assert_ingress_quote_matches_request as_written quote request ≡ passed tt)
    ↔ Matches as_written quote request
assert_ingress_quote_matches_request_iff_example =
    assert_ingress_quote_matches_request_iff as_written quote request
