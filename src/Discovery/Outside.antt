-- ===== src/Discovery/Outside.antt =====
-- What discovery takes from elsewhere, and the errors that it throws.
use proof_cli_baran.Prelude.{ℕ, Bool, true, false, Option, none, some, List, [], ◌∷◌}
use proof_cli_baran.Prelude.Text.{Text}
use proof_cli_baran.Discovery.Types.{Payload, SignedNetworkManifest, SignedServiceCatalog}

mutual
  pub data DiscoveryError : Type 0 where
    signer_required : DiscoveryError
    unexpected_domain : Text → DiscoveryError
    expired : DiscoveryError
    invalid_report_signature public_key_mismatch : Text → DiscoveryError
    unexpected_signer : Text → Text → DiscoveryError
    invalid_address invalid_url : Text → DiscoveryError
    unparsable : DiscoveryError
    inactive_with_state : Text → DiscoveryError
    request_failed : Text → DiscoveryError
    bad_status : ℕ → DiscoveryError
    signer_or_digest_required digest_mismatch invalid_issued_at too_old : Text → DiscoveryError
    unexpected_chain : Text → Text → DiscoveryError
    manifest_fetch_failed : Failures → DiscoveryError
    not_resolved : Text → DiscoveryError

  -- A list of addresses with the error of each.
  pub data Failures : Type 0 where
    no_failures : Failures
    failure : Text → DiscoveryError → Failures → Failures

pub data Result {ℓ} (A : Type ℓ) : Type ℓ where
  ok : A → Result A
  err : DiscoveryError → Result A

infixl 5 ◌>>=◌
unfoldable pub ◌>>=◌ {ℓ κ} : {A : Type ℓ} {B : Type κ} → Result A → (A → Result B) → Result B
ok a >>= f = f a
err e >>= f = err e

abbrev pub or_err {ℓ} : {A : Type ℓ} → Option A → DiscoveryError → Result A
or_err none e = err e
or_err (some a) e = ok a

abbrev pub guard : Bool → DiscoveryError → Result (Unit {0})
guard true e = ok tt
guard false e = err e

-- `xs.map(f)`, where `f` may throw.
unfoldable pub map_result {ℓ κ} :
    {A : Type ℓ} {B : Type κ} → (A → Result B) → List A → Result (List B)
map_result f [] = ok []
map_result f (x ∷ xs) = do y ← f x; ys ← map_result f xs; ok (y ∷ ys)

-- The bytes of a body.
pub record Bytes : Type 0 where
  pub octets : List ℕ

-- The answer to a request: whether its status is a success, the status and the body.
pub data Answer : Type 0 where
  answer : Bool → ℕ → Bytes → Answer
  no_answer : Text → Answer

-- `response_text` is `response.text()` and `utf8_text` is `toString("utf8")` of a buffer. What
-- `signatureVerify` gives: `none` for an invalid signature, or the public key.
pub record Outside : Type 0 where
  pub fetch : Text → Answer
  pub parse_manifest : Text → Option SignedNetworkManifest
  pub parse_catalog : Text → Option SignedServiceCatalog
  pub response_text : Bytes → Text
  pub utf8_text : Bytes → Text
  pub sha256_hex : Bytes → Text
  pub get_address : Text → Option Text
  pub url_without_hash : Text → Option Text
  pub url_without_hash_and_search : Text → Option Text
  pub url_with_path : Text → Text → Option Text
  pub signing_message : Text → Payload → Text
  pub verify_message : Text → Text → Option Text
  pub signature_verify : Text → Text → Text → Option Text
  pub encode_address : Text → Option ℕ → Text
