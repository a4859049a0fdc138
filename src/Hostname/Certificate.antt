-- ===== src/Hostname/Certificate.antt =====
-- DNS-01 challenges of customer hostnames (src/switchboard-core/src/customer-hostname.ts). `digest` is
-- SHA-256 in hexadecimal.
use proof_cli_baran.Prelude.{Option, none, some, [], ◌∷◌, ◌++◌, take}
use proof_cli_baran.Prelude.Text.{Text, codes}
use proof_cli_baran.Dns.Names.{
  Named, named, ◌>>=◌, normalize_dns_hostname, normalize_dns_record_name,
}

pub data ValidationMode : Type 0 where
  dns01_cname_delegation dns01_manual : ValidationMode

pub data RecordType : Type 0 where
  cname txt : RecordType

pub data Note : Type 0 where
  add_each_time create_once : Note

pub record CustomerHostnameCertificateInstructions : Type 0 where
  pub mode : ValidationMode
  pub challenge_name : Text
  pub record_type : RecordType
  pub name : Text
  pub value : Option Text
  pub summary : Text
  pub note : Note

pub record CertificateInput : Type 0 where
  pub customer_hostname : Text
  pub endpoint_hostname : Text
  pub mode : Option ValidationMode
  pub delegation_suffix : Option Text
  pub manual_txt_value : Option Text

unfoldable pub customer_hostname_acme_challenge_name : Text → Named Text
customer_hostname_acme_challenge_name customer = do
  c ← normalize_dns_hostname customer
  normalize_dns_record_name (codes "_acme-challenge." ++ c)

module _ (digest : Text → Text) where
  unfoldable pub customer_hostname_acme_delegation_target : Text → Text → Option Text → Named Text
  customer_hostname_acme_delegation_target customer endpoint suffix = do
    c ← normalize_dns_hostname customer
    e ← normalize_dns_hostname endpoint
    s ←
        normalize_dns_record_name
          (elim suffix [ none ↦ codes "_acme-challenge." ++ e | some t ↦ t ])
    normalize_dns_record_name (take 32 (digest c) ++ codes "." ++ s)

  -- The summary quotes a value that is not empty.
  manual_summary : Text → Option Text → Text
  manual_summary challenge none =
      challenge ++ codes " TXT <shown when the Acurast job requests the certificate>"
  manual_summary challenge (some []) =
      challenge ++ codes " TXT <shown when the Acurast job requests the certificate>"
  manual_summary challenge (some (c ∷ s)) = challenge ++ codes " TXT \"" ++ (c ∷ s) ++ codes "\""

  manual_instructions : Text → Option Text → CustomerHostnameCertificateInstructions
  unfolding manual_summary
  manual_instructions challenge value = record {
    mode = dns01_manual;
    challenge_name = challenge;
    record_type = txt;
    name = challenge;
    value = value;
    summary = manual_summary challenge value;
    note = add_each_time;
  }

  delegated_instructions : Text → Text → CustomerHostnameCertificateInstructions
  delegated_instructions challenge value = record {
    mode = dns01_cname_delegation;
    challenge_name = challenge;
    record_type = cname;
    name = challenge;
    value = some value;
    summary = challenge ++ codes " CNAME " ++ value;
    note = create_once;
  }

  delegate : CertificateInput → Text → Named CustomerHostnameCertificateInstructions
  unfolding delegated_instructions
  delegate input challenge = do
    value ←
        customer_hostname_acme_delegation_target input.customer_hostname input.endpoint_hostname
          input.delegation_suffix
    named (delegated_instructions challenge value)

  unfoldable pub customer_hostname_certificate_instructions :
      CertificateInput → Named CustomerHostnameCertificateInstructions
  unfolding manual_instructions delegate
  customer_hostname_certificate_instructions input = do
    challenge ← customer_hostname_acme_challenge_name input.customer_hostname
    elim input.mode [
      | some dns01_manual ↦ named (manual_instructions challenge input.manual_txt_value)
      | some dns01_cname_delegation ↦ delegate input challenge
      | none ↦ delegate input challenge
    ]
