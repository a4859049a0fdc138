-- ===== src/Ingress/Tests.antt =====
-- The properties of quotes at concrete inputs.
use proof_cli_baran.Ingress.BigInt.{big_int, bigint, text}
use proof_cli_baran.Prelude.Number.{ℤ, pos, ◌+ℤ◌}
use proof_cli_baran.Prelude.Text.{codes}
use proof_cli_baran.Prelude.{◌≡◌, refl, ◌↔◌, none, some}
use proof_cli_baran.Prelude.Number.{ℤ, pos, ◌+ℤ◌}
use proof_cli_baran.Ingress.Quote.{IngressQuoteBuildInput, Hashes, Payment, quoted, payment_of}
use proof_cli_baran.Ingress.Payment.{IsPayable, requested, payment_of_iff}

-- Texts are passed through, in place of addresses and hashes.
abbrev plain : Hashes
plain = record {
  get_address = λ s. some s;
  hexlify = λ s. some s;
  endpoint_hash_of = λ s. s;
  id_bytes32 = λ s. s;
  dns_label = λ s. s;
  derive_ingress_session_id = λ k. some k.job_id;
  random_quote_id = "0x77";
  label_now = "ingress-1";
}

-- 100 for the service and 20 for the setup, for one hour.
abbrev hour : IngressQuoteBuildInput
hour = record {
  chain_id = bigint (pos 1);
  registry_address = "0x01";
  developer = "0x02";
  asset = "0x03";
  amount = none;
  service_amount = some (pos 100);
  setup_fee = some (pos 20);
  validation_fee_cap = none;
  min_amount = none;
  max_amount = none;
  paid_seconds = pos 3600;
  expected_job_signer = "0x04";
  operator_recipient = "0x05";
  validator_recipient = "0x06";
  proof_recipient = "0x07";
  max_operator_bps = none;
  max_validator_bps = none;
  max_proof_bps = none;
  policy_hash = "0x08";
  deadline = text (codes " 0x9 ");
  quote_id = none;
  session_label = none;
  job_id = none;
  operator_id = none;
  processor_id = none;
  endpoint_hostname = none;
  endpoint_hash = none;
  salt = none;
}

-- The setup fee is part of the amount.
hour_amount :
    payment_of hour
    ≡ quoted (record {
      amount = pos 120;
      service_amount = pos 100;
      setup_fee = pos 20;
      validation_fee_cap = pos 0;
    })
unfolding payment_of ◌+ℤ◌
hour_amount = refl

hour_deadline : big_int hour.deadline ≡ some (pos 9)
unfolding big_int
hour_deadline = refl

payment_of_iff_example :
    (payment_of hour ≡ quoted (requested hour (pos 100)))
    ↔ IsPayable (requested hour (pos 100)) hour.paid_seconds
payment_of_iff_example = payment_of_iff hour (pos 100) refl
