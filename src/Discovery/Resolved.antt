-- ===== src/Discovery/Resolved.antt =====
-- What a discovery that succeeds has resolved, and when the loop over the catalogs throws.
use proof_cli_baran.Prelude.{
  ◌≡◌, ◌⊎◌, inl, inr, true, ◌||◌, List, [], ◌∷◌, Bool-cases, Option-cases, All, Listed,
}
use proof_cli_baran.Prelude.Text.{Text}
use proof_cli_baran.Discovery.Types.{CatalogRef}
use proof_cli_baran.Discovery.Outside.{Outside, ok, Failures}
use proof_cli_baran.Discovery.Signing.{or_else, is_given}
use proof_cli_baran.Discovery.Discover.{
  ServiceDiscoveryConfig, ResolvedServiceCatalog, ResolvedCatalogs, VerifiedManifest,
  ResolvedServiceDiscovery, fetch_verified_manifest, resolve_catalog, resolve_catalogs,
  check_required, discover_services, is_required, nonempty_urls, found_manifest,
}
use proof_cli_baran.Discovery.Trust.{binds, bind-ok, guard-ok, CatalogTrusted}

module _ (o : Outside) (config : ServiceDiscoveryConfig) where
  -- What each step keeps, for the entries that the loop goes over, the loop keeps.
  pub resolve_catalogs-keeps {κ} :
      (P : ResolvedCatalogs → Type κ) (Q : Text × CatalogRef → Type 0)
      → ((key : Text) (ref : CatalogRef) (st : ResolvedCatalogs)
          → Q (key, ref)
          → P st
          → P (resolve_catalog o config key ref st).0)
      → (refs : List (Text × CatalogRef)) (st after : ResolvedCatalogs) → All Q refs
      → P st
      → resolve_catalogs o config refs st ≡ ok after
      → P after
  unfolding resolve_catalogs
  resolve_catalogs-keeps P Q keeps [] st after _ before h =
      let same : st ≡ after = cc h in rw (← same) before
  resolve_catalogs-keeps P Q keeps ((key, ref) ∷ refs) st after (q, qs) before h =
      let step =
        resolve_catalogs-keeps P Q keeps refs (resolve_catalog o config key ref st).0 after qs
          (keeps key ref st q before) in
      elim (Option-cases (resolve_catalog o config key ref st).1) [
        | inl fine ↦ step (rw (fine, resolve_catalogs) at h)
        | inr (e, thrown) ↦ elim (Bool-cases (is_required o config key ref)) [
          | inl must ↦ absurd (cc (rw (thrown, must, resolve_catalogs) at h))
          | inr may ↦ step (rw (thrown, may, resolve_catalogs) at h)
        ]
      ]

  -- An entry of the result is a catalog that the manifest lists under its key, and is trusted.
  abbrev pub IsResolvedFrom : List (Text × CatalogRef) → Text × ResolvedServiceCatalog → Type 0
  IsResolvedFrom refs (key, r) =
      (r.key ≡ key) × Listed (key, r.ref) refs × CatalogTrusted o config r

  found_manifest-ok :
      (x : VerifiedManifest ⊎ Failures) (m : VerifiedManifest)
      → found_manifest o config x ≡ ok m
      → x ≡ inl m
  found_manifest-ok (inl n) m h = cc h
  found_manifest-ok (inr thrown_by) m h = absurd (cc h)

  -- The steps of a discovery that succeeds.
  pub data Succeeds (d : ResolvedServiceDiscovery) : Type 0 where
    succeeds :
        (m : VerifiedManifest) (st : ResolvedCatalogs)
        → (is_given config.expected_manifest_signer || config.allow_unpinned_manifest_signer) ≡ true
        → fetch_verified_manifest o config (nonempty_urls config.manifest_url_candidates) ≡ inl m
        → resolve_catalogs o config
            (or_else m.manifest.catalogs [])
            (record { catalogs = []; members_by_role = [] })
          ≡ ok st
        → check_required o config st config.required_catalogs ≡ ok tt
        → record {
          manifest_url = m.url;
          manifest = m.manifest;
          manifest_signer = m.signer;
          catalogs = st.catalogs;
          members_by_role = st.members_by_role;
        }
          ≡ d
        → Succeeds d

  pub discover_services-Succeeds :
      (d : ResolvedServiceDiscovery) → discover_services o config ≡ ok d → Succeeds d
  unfolding discover_services
  discover_services-Succeeds d h =
      let (pinned, h1) = guard-ok _ _ _ _ h in
      elim (bind-ok _ _ _ h1) [
        | binds m found h2 ↦
            let came = found_manifest-ok _ m found in
            elim (bind-ok _ _ _ h2) [
              | binds st resolved h3 ↦ elim (bind-ok _ _ _ h3) [
                | binds u checked h4 ↦ succeeds m st pinned came resolved checked (cc h4)
              ]
            ]
      ]
