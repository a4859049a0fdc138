-- ===== src/Discovery/Signing.antt =====
-- The check of a report's signature (src/switchboard-core/src/report-signing.ts), and the comparison
-- of signers of network-manifest.ts and service-catalog.ts.
use proof_cli_baran.Prelude.{
  ℕ, Bool, false, not, ◌&&◌, ◌||◌, Option, none, some, [], ◌∷◌, leb, ◌==◌, if◌then◌else◌, all,
}
use proof_cli_baran.Prelude.Text.{Text, text_eq, to_lower_case}
use proof_cli_baran.Discovery.Types.{Payload, ReportSignature, substrate_sr25519, eip191_secp256k1}
use proof_cli_baran.Discovery.Outside.{
  Outside, Result, ok, err, ◌>>=◌, or_err, invalid_report_signature, public_key_mismatch,
}

abbrev pub or_else {ℓ} : {A : Type ℓ} → Option A → A → A
or_else none a = a
or_else (some b) a = b

-- A text that is present and not empty, as JavaScript tests one.
abbrev pub is_given : Option Text → Bool
is_given none = false
is_given (some s) = not (text_eq s [])

-- The address of the public key is checked where the signature carries one.
check_public_key : Outside → ReportSignature → Text → Result Text
check_public_key o s public_key =
    if is_given s.public_key && not (text_eq (o.encode_address public_key s.ss58_format) s.signer)
    then err (public_key_mismatch s.signer)
    else ok s.signer

unfoldable pub verify_report_signature : Outside → Payload → ReportSignature → Result Text
unfolding check_public_key
verify_report_signature o payload s =
    let message : Text = o.signing_message s.domain payload in
    elim s.scheme [
      | eip191_secp256k1 ↦
          or_err (o.verify_message message s.signature) (invalid_report_signature s.signer)
      | substrate_sr25519 ↦ (do
        key ←
            or_err (o.signature_verify message s.signature (or_else s.public_key s.signer))
              (invalid_report_signature s.signer)
        check_public_key o s key)
    ]

unfoldable pub is_hex_digit : ℕ → Bool
is_hex_digit c =
    (leb b'0' c && leb c b'9') || (leb b'a' c && leb c b'f') || (leb b'A' c && leb c b'F')

-- `/^0x[0-9a-fA-F]+$/`
unfoldable pub is_hex : Text → Bool
unfolding is_hex_digit
is_hex (z ∷ x ∷ c ∷ s) = z == b'0' && x == b'x' && is_hex_digit c && all is_hex_digit s
is_hex _ = false

unfoldable pub same_signer : Text → Text → Bool
same_signer left right =
    if is_hex left && is_hex right
    then text_eq (to_lower_case left) (to_lower_case right)
    else text_eq left right
