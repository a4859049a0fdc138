-- ===== src/Discovery/Offered.antt =====
-- The members that a discovery offers by role.
use proof_cli_baran.Discovery.Manifests.{is_past}
use proof_cli_baran.Discovery.Types.{ServiceState, candidate, active, degraded, draining, disabled}
use proof_cli_baran.Prelude.Number.{ℤ, ◌≤ℤ◌, ◌<ℤ◌}
use proof_cli_baran.Prelude.TextMap.{put_text-All, lookup_text-All}
use proof_cli_baran.Prelude.{
  ◌≡◌, refl, ◌⊎◌, inl, inr, true, false, Option, none, some, List, [], arith, keep, All, All-append,
  All-mono, All-keep_passed, All-Listed,
}
use proof_cli_baran.Prelude.Text.{Text}
use proof_cli_baran.Discovery.Types.{
  CatalogRef, ServiceCatalogMember, ServiceCatalog, Instant, active, ServiceState, degraded,
}
use proof_cli_baran.Discovery.Outside.{Outside, ok}
use proof_cli_baran.Discovery.Signing.{or_else}
use proof_cli_baran.Discovery.Catalogs.{active_service_catalog_members, is_active_member, is_future}
use proof_cli_baran.Discovery.Discover.{
  ServiceDiscoveryConfig, ResolvedCatalogs, ResolvedServiceDiscovery, fetch_verified_catalog,
  resolve_catalog, discover_services,
}
use proof_cli_baran.Discovery.Trust.{binds, bind-ok, Result-cases}
use proof_cli_baran.Discovery.Resolved.{
  succeeds, discover_services-Succeeds, resolve_catalogs-keeps,
}

-- A date that is absent or cannot be read, and one that has come or has not.
pub data HasCome (now : ℤ) : Option Instant → Type 0 where
  always : HasCome now none
  unreadable_start : HasCome now (some none)
  begun : (t : ℤ) → t ≤ℤ now → HasCome now (some (some t))

pub data NotYet (now : ℤ) : Option Instant → Type 0 where
  never : NotYet now none
  unreadable_end : NotYet now (some none)
  ahead : (t : ℤ) → now <ℤ t → NotYet now (some (some t))

-- A member that may be offered.
pub record IsOffered (now : ℤ) (m : ServiceCatalogMember) : Type 0 where
  pub in_service : (m.state ≡ active) ⊎ (m.state ≡ degraded)
  pub in_effect : HasCome now m.effective_at
  pub unexpired : NotYet now m.expires_at

HasCome-not_future :
    (now : ℤ) (start : Option Instant) → is_future start now ≡ false → HasCome now start
HasCome-not_future now none h = always
HasCome-not_future now (some none) h = unreadable_start
HasCome-not_future now (some (some t)) h = begun t (ground arith)

NotYet-not_past : (now : ℤ) (end : Option Instant) → is_past end now ≡ false → NotYet now end
NotYet-not_past now none h = never
NotYet-not_past now (some none) h = unreadable_end
NotYet-not_past now (some (some t)) h = ahead t (ground arith)

state_in_service :
    (s : ServiceState)
    → elim s [
      | disabled ↦ false
      | candidate ↦ false
      | degraded ↦ true
      | draining ↦ false
      | active ↦ true
    ]
      ≡ true
    → (s ≡ active) ⊎ (s ≡ degraded)
state_in_service active h = inl refl
state_in_service degraded h = inr refl
state_in_service disabled h = absurd (cc h)
state_in_service candidate h = absurd (cc h)
state_in_service draining h = absurd (cc h)

is_active_member-IsOffered :
    (now : ℤ) (m : ServiceCatalogMember)
    → is_active_member now true false m ≡ true
    → IsOffered now m
unfolding is_active_member
is_active_member-IsOffered now m h = record {
  in_service = state_in_service m.state (ground arith);
  in_effect = HasCome-not_future now m.effective_at (ground arith);
  unexpired = NotYet-not_past now m.expires_at (ground arith);
}

module _ (o : Outside) (config : ServiceDiscoveryConfig) where
  abbrev pub AllActive : List ServiceCatalogMember → Type 0
  AllActive = All (IsOffered config.now)

  active_members-AllActive :
      (catalog : ServiceCatalog) (members : List ServiceCatalogMember)
      → active_service_catalog_members o catalog config.now true false ≡ ok members
      → AllActive members
  unfolding active_service_catalog_members
  active_members-AllActive catalog members h = elim (bind-ok _ _ _ h) [
    | binds normalized came h1 ↦
        let same : keep (is_active_member config.now true false) normalized.members ≡ members =
          cc h1 in
        rw (← same) (
          All-mono (λ m. is_active_member config.now true false m ≡ true) (IsOffered config.now)
            (λ m. is_active_member-IsOffered config.now m)
            (keep (is_active_member config.now true false) normalized.members)
            (All-keep_passed (λ _. Unit {0}) (is_active_member config.now true false)
              normalized.members))
  ]

  resolve_catalog-AllActive :
      (key : Text) (ref : CatalogRef) (st : ResolvedCatalogs)
      → All (λ entry. AllActive entry.1) st.members_by_role
      → All (λ entry. AllActive entry.1) (resolve_catalog o config key ref st).0.members_by_role
  unfolding resolve_catalog
  resolve_catalog-AllActive key ref st before =
      elim (Result-cases (fetch_verified_catalog o config ref)) [
        | inr (e, failed) ↦ rw (failed, resolve_catalog) before
        | inl ((catalog, signer), came) ↦
            elim (Result-cases (active_service_catalog_members o catalog config.now true false)) [
              | inr (e, failed) ↦ rw (came, failed, resolve_catalog) before
              | inl (members, found) ↦
                  rw (came, found, resolve_catalog)
                    (put_text-All (λ entry. AllActive entry.1) catalog.role _ st.members_by_role
                      (All-append _ _ members
                        (lookup_text-All AllActive catalog.role [] st.members_by_role tt before)
                        (active_members-AllActive catalog members found))
                      before)
            ]
      ]

  -- Every member that a discovery offers under a role is in service or degraded, has come into effect
  -- and has not expired, where a date that is absent or cannot be read restricts nothing.
  pub discover_services-AllActive :
      (d : ResolvedServiceDiscovery)
      → discover_services o config ≡ ok d
      → All (λ entry. AllActive entry.1) d.members_by_role
  discover_services-AllActive d h = elim (discover_services-Succeeds o config d h) [
    | succeeds m st pinned came resolved checked same ↦ rw (← same) (
        resolve_catalogs-keeps o config
          (λ after. All (λ entry. AllActive entry.1) after.members_by_role) (λ _. Unit)
          (λ key ref before _. resolve_catalog-AllActive key ref before)
          (or_else m.manifest.catalogs []) _ st (All-Listed (λ _. Unit) _ (λ _ _. tt)) tt resolved)
  ]
