-- ===== src/Hostname/Attachment.antt =====
-- The attachment of a customer's hostname to an endpoint (src/switchboard-core/src/customer-hostname.ts).
-- ethers' `hexlify` and the hash of an endpoint are parameters.
use proof_cli_baran.Prelude.{Bool, Option, none, some, ◌++◌, ltb, if◌then◌else◌, length}
use proof_cli_baran.Prelude.Text.{Text, codes, text_eq, trim, to_lower_case, split}
use proof_cli_baran.Dns.Names.{
  Named, named, failing, ◌>>=◌, same_as_endpoint, apex_not_supported, invalid_session_id,
  normalize_dns_hostname,
}

pub data CustomerHostnameAction : Type 0 where
  attach_customer_hostname remove_customer_hostname : CustomerHostnameAction

-- `nonce` and `deadline` as their decimal texts.
pub record CustomerHostnameAttachmentPayload : Type 0 where
  pub action : CustomerHostnameAction
  pub endpoint_id : Text
  pub endpoint_hostname : Text
  pub customer_hostname : Text
  pub session_id : Text
  pub nonce : Text
  pub deadline : Text

unfoldable pub normalize_customer_hostname_attachment :
    (Text → Option Text)
    → CustomerHostnameAttachmentPayload
    → Named CustomerHostnameAttachmentPayload
normalize_customer_hostname_attachment hexlify a = do
  endpoint ← normalize_dns_hostname a.endpoint_hostname
  customer ← normalize_dns_hostname a.customer_hostname
  session ← elim (hexlify a.session_id) [ none ↦ failing invalid_session_id | some s ↦ named s ]
  named (record a {
    endpoint_id = to_lower_case (trim a.endpoint_id);
    endpoint_hostname = endpoint;
    customer_hostname = customer;
    session_id = session;
  })

pub record CnameInstructions : Type 0 where
  pub name : Text
  pub value : Text
  pub summary : Text

unfoldable pub customer_hostname_instructions : Text → Text → Named CnameInstructions
customer_hostname_instructions customer endpoint = do
  c ← normalize_dns_hostname customer
  e ← normalize_dns_hostname endpoint
  named (record { name = c; value = e; summary = c ++ codes " CNAME " ++ e })

-- The hostname must differ from the endpoint's and have at least three labels.
unfoldable pub validate_customer_hostname_policy : Text → Text → Named (Unit {0})
validate_customer_hostname_policy customer endpoint = do
  c ← normalize_dns_hostname customer
  e ← normalize_dns_hostname endpoint
  if text_eq c e
      then failing same_as_endpoint
      else if ltb (length (split b'.' c)) 3
      then failing apex_not_supported
      else named tt

unfoldable pub endpoint_hash_matches_hostname : (Text → Text) → Text → Text → Named Bool
endpoint_hash_matches_hostname endpoint_hash session_hash endpoint = do
  e ← normalize_dns_hostname endpoint
  named (text_eq (to_lower_case session_hash) (to_lower_case (endpoint_hash e)))
