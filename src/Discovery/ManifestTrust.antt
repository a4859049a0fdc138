-- ===== src/Discovery/ManifestTrust.antt =====
-- What the manifest of a discovery that succeeds has been checked for.
use proof_cli_baran.Discovery.Outside.{Bytes}
use proof_cli_baran.Prelude.{
  ℕ, ◌≡◌, refl, ◌⊎◌, inl, inr, true, false, List, [], ◌∷◌, arith, Bool-cases,
}
use proof_cli_baran.Prelude.Text.{Text, text_eq_iff}
use proof_cli_baran.Discovery.Types.{SignedNetworkManifest, manifest_payload}
use proof_cli_baran.Discovery.Outside.{Outside, ok, answer}
use proof_cli_baran.Discovery.Signing.{or_else, is_given, same_signer, verify_report_signature}
use proof_cli_baran.Discovery.Manifests.{
  network_manifest_domain, manifest_expired, parse_signed_network_manifest,
  verify_signed_network_manifest,
}
use proof_cli_baran.Discovery.Discover.{
  ServiceDiscoveryConfig, VerifiedManifest, chain_fits, fetch_manifest_from,
  fetch_verified_manifest,
}
use proof_cli_baran.Discovery.Trust.{given_or, binds, bind-ok, guard-ok, answer_cases, Result-cases}

-- The manifest came from its address, and is the normal form of a document whose signature, domain,
-- signer, chain and expiry are as the configuration wants them.
unfoldable pub ManifestTrusted : Outside → ServiceDiscoveryConfig → VerifiedManifest → Type 0
ManifestTrusted o config m =
    (status : ℕ) × (body : Bytes) × (signed : SignedNetworkManifest) × (o.fetch m.url
      ≡ answer true status body)
    × (parse_signed_network_manifest o (o.response_text body) ≡ ok signed)
    × (signed.manifest ≡ m.manifest)
    × (signed.signature.domain ≡ network_manifest_domain)
    × (verify_report_signature o (manifest_payload m.manifest) signed.signature ≡ ok m.signer)
    × ((is_given config.expected_manifest_signer ≡ false)
        ⊎ (same_signer m.signer (or_else config.expected_manifest_signer []) ≡ true))
    × ((is_given config.expected_chain_id ≡ false)
        ⊎ (m.manifest.chain.chain_id ≡ or_else config.expected_chain_id []))
    × ((config.allow_expired_manifest ≡ true) ⊎ (manifest_expired o m.manifest config.now ≡ false))

pub Sum-cases {ℓ κ} :
    {A : Type ℓ} {B : Type κ} (x : A ⊎ B) → ((a : A) × (x ≡ inl a)) ⊎ ((b : B) × (x ≡ inr b))
Sum-cases (inl a) = inl (a, refl)
Sum-cases (inr b) = inr (b, refl)

module _ (o : Outside) (config : ServiceDiscoveryConfig) where
  fetch_manifest_from-ManifestTrusted :
      (url : Text) (m : VerifiedManifest)
      → fetch_manifest_from o config url ≡ ok m
      → ManifestTrusted o config m
  unfolding fetch_manifest_from verify_signed_network_manifest ManifestTrusted chain_fits
  fetch_manifest_from-ManifestTrusted url m h = elim (answer_cases (o.fetch url)) [
    | inl (why, none_came) ↦ absurd (cc (rw (none_came, fetch_manifest_from) at h))
    | inr (success, status, body, came) ↦
        let (good, h1) = guard-ok _ _ _ _ (rw (came, fetch_manifest_from) at h) in
        elim (bind-ok _ _ _ h1) [
          | binds (manifest, signer) verified h2 ↦
              let (chain, h3) = guard-ok _ _ _ _ h2 in
              elim (bind-ok _ _ _ verified) [
                | binds signed parsed v1 ↦
                    let (domain, v2) = guard-ok _ _ _ _ v1 in
                    let (fresh, v3) = guard-ok _ _ _ _ v2 in
                    elim (bind-ok _ _ _ v3) [
                      | binds s valid v4 ↦
                          let (fits, v5) = guard-ok _ _ _ _ v4 in
                          let same_m : signed.manifest ≡ manifest = cc v5 in
                          let same_s : s ≡ signer = cc v5 in
                          let result : record { url = url; manifest = manifest; signer = signer }
                              ≡ m =
                            cc h3 in
                          rw (← result) (
                            status,
                            body,
                            signed,
                            rw good at came,
                            parsed,
                            same_m,
                            (text_eq_iff _ _).0 domain,
                            rw (same_m, same_s) at valid,
                            given_or _ _ (rw same_s at fits),
                            elim (given_or _ _ chain) [
                              | inl unset ↦ inl unset
                              | inr named ↦ inr ((text_eq_iff _ _).0 named)
                            ],
                            elim (Bool-cases config.allow_expired_manifest) [
                              | inl lax ↦ inl lax
                              | inr strict ↦
                                  let f = rw (same_m, strict) at fresh in inr (ground arith)
                            ],
                          )
                    ]
              ]
        ]
  ]

  -- The manifest that is taken is that of one of the addresses.
  pub fetch_verified_manifest-ManifestTrusted :
      (urls : List Text) (m : VerifiedManifest)
      → fetch_verified_manifest o config urls ≡ inl m
      → ManifestTrusted o config m
  unfolding fetch_verified_manifest
  fetch_verified_manifest-ManifestTrusted [] m h = absurd (cc h)
  fetch_verified_manifest-ManifestTrusted (url ∷ urls) m h =
      elim (Result-cases (fetch_manifest_from o config url)) [
        | inl (found, came) ↦
            let same : found ≡ m = cc (rw (came, fetch_verified_manifest) at h) in
            fetch_manifest_from-ManifestTrusted url m (rw same at came)
        | inr (e, failed) ↦ elim (Sum-cases (fetch_verified_manifest o config urls)) [
          | inl (found, came) ↦
              let same : found ≡ m = cc (rw (failed, came, fetch_verified_manifest) at h) in
              fetch_verified_manifest-ManifestTrusted urls m (rw same at came)
          | inr (thrown_by, none_came) ↦
              absurd (cc (rw (failed, none_came, fetch_verified_manifest) at h))
        ]
      ]
