-- ===== src/Discovery/Discover.antt =====
-- Discovery of services (src/switchboard-core/src/service-discovery.ts): the manifest, then the
-- catalogs that it names. A clock is read once and given as `now`.
use proof_cli_baran.Discovery.Outside.{Bytes}
use proof_cli_baran.Prelude.TextMap.{lookup_text, put_text, value_or}
use proof_cli_baran.Prelude.{
  ◌*◌, ◌⊎◌, inl, inr, Bool, true, false, not, ◌&&◌, ◌||◌, Option, none, some, List, [], ◌∷◌, ◌++◌,
  map, leb, ◌==◌, if◌then◌else◌, keep,
}
use proof_cli_baran.Prelude.Text.{Text, codes, text_eq, to_lower_case, mem_text}
use proof_cli_baran.Prelude.Number.{ℤ, pos, ◌-ℤ◌, leb_ℤ}
use proof_cli_baran.Discovery.Types.{
  ServiceRole, ServiceCatalogMember, ServiceCatalog, CatalogRef, NetworkManifest,
}
use proof_cli_baran.Discovery.Outside.{
  DiscoveryError, Failures, no_failures, failure, manifest_fetch_failed, signer_required,
  bad_status, request_failed, unexpected_chain, signer_or_digest_required, digest_mismatch,
  invalid_issued_at, too_old, not_resolved, Outside, answer, no_answer, Result, ok, err, ◌>>=◌,
  guard,
}
use proof_cli_baran.Discovery.Signing.{or_else, is_given}
use proof_cli_baran.Discovery.Manifests.{verify_signed_network_manifest}
use proof_cli_baran.Discovery.Catalogs.{
  verify_signed_service_catalog, active_service_catalog_members,
}

pub record ServiceDiscoveryConfig : Type 0 where
  pub manifest_url_candidates : List Text
  pub expected_manifest_signer : Option Text
  pub allow_unpinned_manifest_signer : Bool
  pub expected_chain_id : Option Text
  pub required_catalogs : List Text
  pub now : ℤ
  pub allow_expired_manifest : Bool
  pub allow_expired_catalogs : Bool

pub record ResolvedServiceCatalog : Type 0 where
  pub key : Text
  pub ref : CatalogRef
  pub catalog : ServiceCatalog
  pub signer : Text

pub record ResolvedCatalogs : Type 0 where
  pub catalogs : List (Text × ResolvedServiceCatalog)
  pub members_by_role : List (ServiceRole × List ServiceCatalogMember)

pub record VerifiedManifest : Type 0 where
  pub url : Text
  pub manifest : NetworkManifest
  pub signer : Text

pub record ResolvedServiceDiscovery : Type 0 where
  pub manifest_url : Text
  pub manifest : NetworkManifest
  pub manifest_signer : Text
  pub catalogs : List (Text × ResolvedServiceCatalog)
  pub members_by_role : List (ServiceRole × List ServiceCatalogMember)

-- `/([a-z])([A-Z])/g` replaced by the two with a dash between.
unfoldable pub dash_words : Text → Text
dash_words [] = []
dash_words (a ∷ []) = a ∷ []
dash_words (a ∷ b ∷ s) =
    let rest = dash_words (b ∷ s) in
    if (leb b'a' a && leb a b'z') && (leb b'A' b && leb b b'Z') then a ∷ b'-' ∷ rest else a ∷ rest

pub plural_roles : List (Text × Text)
plural_roles =
    (codes "control-apis", codes "control-api")
    ∷ (codes "controlapi", codes "control-api")
    ∷ (codes "relays", codes "relay")
    ∷ (codes "gateways", codes "gateway")
    ∷ (codes "validators", codes "validator")
    ∷ (codes "explorers", codes "explorer")
    ∷ (codes "operator-intakes", codes "operator-intake")
    ∷ (codes "job-managers", codes "job-manager")
    ∷ []

unfoldable pub catalog_key_to_role : Text → ServiceRole
unfolding dash_words plural_roles lookup_text
catalog_key_to_role key =
    let normalized : Text =
      to_lower_case (map (λ c. if c == b'_' then b'-' else c) (dash_words key)) in
    value_or normalized (lookup_text normalized plural_roles)

-- `candidates.filter((candidate) => candidate.length > 0)`
abbrev pub nonempty_urls : List Text → List Text
nonempty_urls = keep (λ u. not (text_eq u []))

module _ (o : Outside) (config : ServiceDiscoveryConfig) where
  unfoldable pub chain_fits : Text → Bool
  chain_fits chain =
      not (is_given config.expected_chain_id) || text_eq chain (or_else config.expected_chain_id [])

  -- The body of the `try` for one address.
  unfoldable pub fetch_manifest_from : Text → Result VerifiedManifest
  unfolding chain_fits
  fetch_manifest_from url = elim (o.fetch url) [
    | no_answer why ↦ err (request_failed why)
    | answer success status body ↦ (do
      _ ← guard success (bad_status status)
      (m, signer) ←
          verify_signed_network_manifest o (o.response_text body) config.expected_manifest_signer
            config.now config.allow_expired_manifest
      _ ←
          guard (chain_fits m.chain.chain_id)
            (unexpected_chain m.chain.chain_id (or_else config.expected_chain_id []))
      ok (record { url = url; manifest = m; signer = signer }))
  ]

  -- The first address that succeeds, or the errors of all.
  unfoldable pub fetch_verified_manifest : List Text → VerifiedManifest ⊎ Failures
  fetch_verified_manifest [] = inr no_failures
  fetch_verified_manifest (url ∷ urls) = elim (fetch_manifest_from url) [
    | ok m ↦ inl m
    | err e ↦ elim (fetch_verified_manifest urls) [
      | inl m ↦ inl m
      | inr thrown_by ↦ inr (failure url e thrown_by)
    ]
  ]

  abbrev pub found_manifest : VerifiedManifest ⊎ Failures → Result VerifiedManifest
  found_manifest (inl m) = ok m
  found_manifest (inr thrown_by) = err (manifest_fetch_failed thrown_by)

  unfoldable pub digest_fits : Bytes → Option Text → Bool
  digest_fits body digest =
      not (is_given digest)
      || text_eq (to_lower_case (codes "0x" ++ o.sha256_hex body))
          (to_lower_case (or_else digest []))

  -- The test of the age of a catalog, where its reference limits it.
  unfoldable pub check_age : CatalogRef → ServiceCatalog → Result (Unit {0})
  check_age ref catalog = elim ref.max_stale_seconds [
    | none ↦ ok tt
    | some limit ↦ if config.allow_expired_catalogs then ok tt else elim catalog.issued_at [
      | none ↦ err (invalid_issued_at ref.url)
      | some issued ↦ guard (leb_ℤ (config.now -ℤ issued) (pos (limit * 1000))) (too_old ref.url)
    ]
  ]

  unfoldable pub fetch_verified_catalog : CatalogRef → Result (ServiceCatalog × Text)
  unfolding digest_fits check_age
  fetch_verified_catalog ref = elim (o.fetch ref.url) [
    | no_answer why ↦ err (request_failed why)
    | answer success status body ↦ (do
      _ ← guard success (bad_status status)
      _ ← guard (is_given ref.signer || is_given ref.digest) (signer_or_digest_required ref.url)
      _ ← guard (digest_fits body ref.digest) (digest_mismatch ref.url)
      (catalog, signer) ←
          verify_signed_service_catalog o (o.utf8_text body) ref.signer config.now
            config.allow_expired_catalogs
      _ ← check_age ref catalog
      ok (catalog, signer))
  ]

  -- The body of the `try` for one catalog: the state that it leaves, and what it throws.
  unfoldable pub resolve_catalog :
      Text → CatalogRef → ResolvedCatalogs → ResolvedCatalogs × Option DiscoveryError
  resolve_catalog key ref st = elim (fetch_verified_catalog ref) [
    | err e ↦ (st, some e)
    | ok (catalog, signer) ↦
        let resolved : ResolvedServiceCatalog = record {
          key = key;
          ref = ref;
          catalog = catalog;
          signer = signer;
        } in
        let listed : ResolvedCatalogs = record st {
          catalogs = put_text key resolved st.catalogs;
        } in
        elim (active_service_catalog_members o catalog config.now true false) [
          | err e ↦ (listed, some e)
          | ok members ↦
              let before : List ServiceCatalogMember =
                value_or [] (lookup_text catalog.role st.members_by_role) in
              (
                record listed {
                  members_by_role = put_text catalog.role (before ++ members) st.members_by_role;
                },
                none,
              )
        ]
  ]

  unfoldable pub is_required : Text → CatalogRef → Bool
  is_required key ref =
      or_else ref.required false
      || mem_text key config.required_catalogs
      || mem_text (catalog_key_to_role key) config.required_catalogs

  -- The loop over the catalogs of the manifest.
  unfoldable pub resolve_catalogs :
      List (Text × CatalogRef) → ResolvedCatalogs → Result ResolvedCatalogs
  resolve_catalogs [] st = ok st
  resolve_catalogs ((key, ref) ∷ refs) st =
      let (next, thrown) = resolve_catalog key ref st in
      let rest = resolve_catalogs refs next in
      elim thrown [ none ↦ rest | some e ↦ if is_required key ref then err e else rest ]

  abbrev pub is_present {ℓ} : {A : Type ℓ} → Option A → Bool
  is_present none = false
  is_present (some a) = true

  unfoldable pub is_resolved : ResolvedCatalogs → Text → Bool
  is_resolved st required =
      is_present (lookup_text required st.catalogs)
      || is_present (lookup_text (catalog_key_to_role required) st.members_by_role)

  unfoldable pub check_required : ResolvedCatalogs → List Text → Result (Unit {0})
  check_required st [] = ok tt
  check_required st (required ∷ more) = do
    _ ← guard (is_resolved st required) (not_resolved required)
    check_required st more

  unfoldable pub discover_services : Result ResolvedServiceDiscovery
  discover_services = do
    _ ←
        guard (is_given config.expected_manifest_signer || config.allow_unpinned_manifest_signer)
          signer_required
    m ← found_manifest (fetch_verified_manifest (nonempty_urls config.manifest_url_candidates))
    st ←
        resolve_catalogs (or_else m.manifest.catalogs [])
          (record { catalogs = []; members_by_role = [] })
    _ ← check_required st config.required_catalogs
    ok (record {
      manifest_url = m.url;
      manifest = m.manifest;
      manifest_signer = m.signer;
      catalogs = st.catalogs;
      members_by_role = st.members_by_role;
    })
