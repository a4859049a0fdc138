-- ===== src/Discovery/Failing.antt =====
-- When the loop over the catalogs throws.
use proof_cli_baran.Prelude.{
  ◌≡◌, ◌↔◌, ◌⊎◌, inl, inr, true, false, none, some, List, [], ◌∷◌, Bool-cases,
}
use proof_cli_baran.Prelude.Text.{Text}
use proof_cli_baran.Discovery.Types.{CatalogRef, ServiceCatalog, ServiceCatalogMember}
use proof_cli_baran.Discovery.Outside.{Outside, ok, err, DiscoveryError}
use proof_cli_baran.Discovery.Catalogs.{active_service_catalog_members}
use proof_cli_baran.Discovery.Discover.{
  ServiceDiscoveryConfig, ResolvedCatalogs, fetch_verified_catalog, resolve_catalog,
  resolve_catalogs, is_required,
}
use proof_cli_baran.Discovery.Trust.{Result-cases}

module _ (o : Outside) (config : ServiceDiscoveryConfig) where
  -- What is wrong with a catalog, whatever was resolved before it.
  pub data Fails (ref : CatalogRef) (e : DiscoveryError) : Type 0 where
    unverified : fetch_verified_catalog o config ref ≡ err e → Fails ref e
    unusable :
        (catalog : ServiceCatalog) (signer : Text)
        → fetch_verified_catalog o config ref ≡ ok (catalog, signer)
        → active_service_catalog_members o catalog config.now true false ≡ err e
        → Fails ref e

  pub data Works (ref : CatalogRef) : Type 0 where
    works :
        (catalog : ServiceCatalog) (signer : Text) (members : List ServiceCatalogMember)
        → fetch_verified_catalog o config ref ≡ ok (catalog, signer)
        → active_service_catalog_members o catalog config.now true false ≡ ok members
        → Works ref

  -- The first catalog that fails, of those that are required, fails with `e`.
  pub data FirstFailure (e : DiscoveryError) : List (Text × CatalogRef) → Type 0 where
    fails_here :
        {key : Text} {ref : CatalogRef} {refs : List (Text × CatalogRef)}
        → is_required o config key ref ≡ true
        → Fails ref e
        → FirstFailure e ((key, ref) ∷ refs)
    fails_later :
        {key : Text} {ref : CatalogRef} {refs : List (Text × CatalogRef)}
        → (is_required o config key ref ≡ false) ⊎ Works ref
        → FirstFailure e refs
        → FirstFailure e ((key, ref) ∷ refs)

  resolve_catalog-outcome :
      (key : Text) (ref : CatalogRef) (st : ResolvedCatalogs)
      → (Works ref × ((resolve_catalog o config key ref st).1 ≡ none))
        ⊎ ((e : DiscoveryError) × Fails ref e × ((resolve_catalog o config key ref st).1 ≡ some e))
  unfolding resolve_catalog
  resolve_catalog-outcome key ref st = elim (Result-cases (fetch_verified_catalog o config ref)) [
    | inr (e, failed) ↦ inr (e, unverified failed, rw (failed, resolve_catalog))
    | inl ((catalog, signer), came) ↦
        elim (Result-cases (active_service_catalog_members o catalog config.now true false)) [
          | inr (e, failed) ↦
              inr (e, unusable catalog signer came failed, rw (came, failed, resolve_catalog))
          | inl (members, found) ↦
              inl (works catalog signer members came found, rw (came, found, resolve_catalog))
        ]
  ]

  Fails-Works : (ref : CatalogRef) (e : DiscoveryError) → Fails ref e → Works ref → ⊥
  Fails-Works ref e (unverified failed) (works catalog signer members came found) =
      cc (failed, came)
  Fails-Works ref e (unusable c s came' failed) (works catalog signer members came found) =
      let same : c ≡ catalog = cc (came, came') in cc (rw same at failed, found)

  Fails-unique : (ref : CatalogRef) (e f : DiscoveryError) → Fails ref e → Fails ref f → e ≡ f
  Fails-unique ref e f (unverified p) (unverified q) = cc (p, q)
  Fails-unique ref e f (unverified p) (unusable c s q r) = absurd (cc (p, q))
  Fails-unique ref e f (unusable c s q r) (unverified p) = absurd (cc (p, q))
  Fails-unique ref e f (unusable c s p q) (unusable c' s' p' q') =
      let same : c ≡ c' = cc (p, p') in cc (rw same at q, q')

  -- The loop over the catalogs throws exactly what the first catalog that fails, of those that are
  -- required, fails with; the catalogs that are not required and what was resolved before do not count.
  pub resolve_catalogs-err_iff :
      (refs : List (Text × CatalogRef)) (st : ResolvedCatalogs) (e : DiscoveryError)
      → (resolve_catalogs o config refs st ≡ err e) ↔ FirstFailure e refs
  unfolding resolve_catalogs
  resolve_catalogs-err_iff [] st e = ((λ h. absurd (cc h)), λ first. elim first [ ])
  resolve_catalogs-err_iff ((key, ref) ∷ refs) st e =
      let next : ResolvedCatalogs = (resolve_catalog o config key ref st).0 in
      let rest = resolve_catalogs-err_iff refs next e in
      elim (resolve_catalog-outcome key ref st) [
        | inl (fine, none_thrown) ↦ (
          (λ h. fails_later (inr fine) (rest.0 (rw (none_thrown, resolve_catalogs) at h))),
          λ first. elim first [
            | fails_here must bad ↦ absurd (Fails-Works ref e bad fine)
            | fails_later _ more ↦ rw (none_thrown, resolve_catalogs) (rest.1 more)
          ],
        )
        | inr (f, bad, thrown) ↦ elim (Bool-cases (is_required o config key ref)) [
          | inl must ↦ (
            (λ h.
                let same : f ≡ e = cc (rw (thrown, must, resolve_catalogs) at h) in
                fails_here must (rw same at bad)),
            λ first. elim first [
              | fails_here _ also ↦
                  rw (thrown, must, Fails-unique ref f e bad also, resolve_catalogs)
              | fails_later (inl may) more ↦ absurd (cc (must, may))
              | fails_later (inr fine) more ↦ absurd (Fails-Works ref f bad fine)
            ],
          )
          | inr may ↦ (
            (λ h. fails_later (inl may) (rest.0 (rw (thrown, may, resolve_catalogs) at h))),
            λ first. elim first [
              | fails_here must _ ↦ absurd (cc (must, may))
              | fails_later _ more ↦ rw (thrown, may, resolve_catalogs) (rest.1 more)
            ],
          )
        ]
      ]
