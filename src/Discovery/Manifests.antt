-- ===== src/Discovery/Manifests.antt =====
-- Verification of a signed manifest (src/switchboard-core/src/network-manifest.ts).
use proof_cli_baran.Prelude.{
  Bool, true, false, not, ◌||◌, Option, none, some, List, [], ◌∷◌, ◌++◌, map,
}
use proof_cli_baran.Prelude.Text.{Text, codes, text_eq}
use proof_cli_baran.Prelude.Number.{ℤ, leb_ℤ}
use proof_cli_baran.Discovery.Types.{
  Instant, Registry, RegistryStatus, active, deprecated, retired, Asset, ManifestRelay, CatalogRef,
  NetworkManifest, SignedNetworkManifest, manifest_payload,
}
use proof_cli_baran.Discovery.Outside.{
  Outside, Result, ok, ◌>>=◌, or_err, guard, map_result, unparsable, unexpected_domain, expired,
  unexpected_signer, invalid_address, invalid_url,
}
use proof_cli_baran.Discovery.Signing.{or_else, is_given, verify_report_signature, same_signer}

abbrev pub network_manifest_domain : Text
network_manifest_domain = codes "switchboard.network-manifest.v1"

-- `x?.map(f)`, `x ? f(x) : undefined`, where `f` may throw.
abbrev pub map_optional {ℓ κ} :
    {A : Type ℓ} {B : Type κ} → (A → Result B) → Option A → Result (Option B)
map_optional f none = ok none
map_optional f (some a) = do b ← f a; ok (some b)

-- As before for a text, where the empty text counts as absent.
unfoldable pub map_given : (Text → Result Text) → Option Text → Result (Option Text)
map_given f none = ok none
map_given f (some []) = ok none
map_given f (some (c ∷ s)) = do t ← f (c ∷ s); ok (some t)

-- `Date.parse(at) <= now`, which is false of NaN.
abbrev pub is_past : Option Instant → ℤ → Bool
is_past none now = false
is_past (some none) now = false
is_past (some (some t)) now = leb_ℤ t now

module _ (o : Outside) where
  checksum : Text → Result Text
  checksum a = or_err (o.get_address a) (invalid_address a)

  unfoldable pub normalize_url : Text → Result Text
  normalize_url u = or_err (o.url_without_hash u) (invalid_url u)

  normalize_registries : RegistryStatus → List Registry → Result (List Registry)
  unfolding checksum
  normalize_registries status =
      map_result (λ r. do a ← checksum r.address; ok (record r { status = status; address = a }))

  normalize_assets : List Asset → Result (List Asset)
  unfolding checksum
  normalize_assets =
      map_result (λ asset. do a ← checksum asset.address; ok (record asset { address = a }))

  normalize_catalog_refs : List (Text × CatalogRef) → Result (List (Text × CatalogRef))
  unfolding normalize_url
  normalize_catalog_refs =
      map_result
        (λ entry. do u ← normalize_url entry.1.url; ok (entry.0, record entry.1 { url = u }))

  normalize_relays : List ManifestRelay → List ManifestRelay
  normalize_relays = map (λ (r : ManifestRelay). record r { active = some (or_else r.active true) })

  unfoldable pub normalize_network_manifest : NetworkManifest → Result NetworkManifest
  unfolding checksum normalize_registries normalize_assets normalize_catalog_refs normalize_relays
      map_given
  normalize_network_manifest m = do
    signer ← map_given checksum m.quote_signer
    current ← normalize_registries active m.registries.active
    old ← normalize_registries deprecated m.registries.deprecated
    gone ← normalize_registries retired m.registries.retired
    assets ← map_optional normalize_assets m.supported_assets
    refs ← map_optional normalize_catalog_refs m.catalogs
    ok (record m {
      quote_signer = signer;
      registries = record { active = current; deprecated = old; retired = gone };
      supported_assets = assets;
      catalogs = refs;
      relays = elim m.relays [ none ↦ none | some rs ↦ some (normalize_relays rs) ];
    })

  unfoldable pub watched_manifest_registries : NetworkManifest → Result (List Registry)
  unfolding normalize_network_manifest
  watched_manifest_registries m = do
    normalized ← normalize_network_manifest m
    ok (normalized.registries.active ++ normalized.registries.deprecated)

  abbrev pub manifest_expired : NetworkManifest → ℤ → Bool
  manifest_expired m now = is_past m.expires_at now

  unfoldable pub parse_signed_network_manifest : Text → Result SignedNetworkManifest
  unfolding normalize_network_manifest
  parse_signed_network_manifest body = do
    signed ← or_err (o.parse_manifest body) unparsable
    m ← normalize_network_manifest signed.manifest
    ok (record { manifest = m; signature = signed.signature })

  -- The expected signer counts where it is given.
  abbrev pub signer_fits : Text → Option Text → Bool
  signer_fits signer expected = not (is_given expected) || same_signer signer (or_else expected [])

  unfoldable pub verify_signed_network_manifest :
      Text → Option Text → ℤ → Bool → Result (NetworkManifest × Text)
  unfolding parse_signed_network_manifest
  verify_signed_network_manifest body expected now allow_expired = do
    signed ← parse_signed_network_manifest body
    _ ←
        guard (text_eq signed.signature.domain network_manifest_domain)
          (unexpected_domain signed.signature.domain)
    _ ← guard (allow_expired || not (manifest_expired signed.manifest now)) expired
    signer ← verify_report_signature o (manifest_payload signed.manifest) signed.signature
    _ ← guard (signer_fits signer expected) (unexpected_signer signer (or_else expected []))
    ok (signed.manifest, signer)
