-- ===== src/Discovery/Tests.antt =====
-- A discovery on a manifest with a required and an optional catalog, and the properties there.
use proof_cli_baran.Prelude.TextMap.{lookup_text, put_text}
use proof_cli_baran.Discovery.Signing.{is_hex, is_hex_digit, same_signer, verify_report_signature}
use proof_cli_baran.Prelude.{
  ◌≡◌, refl, ◌↔◌, true, false, none, some, List, [], ◌∷◌, if◌then◌else◌, All,
}
use proof_cli_baran.Prelude.Text.{Text, codes, text_eq, to_lower_case, mem_text, lower_code}
use proof_cli_baran.Prelude.Number.{pos, ◌-ℤ◌}
use proof_cli_baran.Discovery.Types.{
  CatalogRef, ServiceCatalog, NetworkManifest, ReportSignature, ServiceCatalogMember, active,
  draining, eip191_secp256k1,
}
use proof_cli_baran.Discovery.Outside.{
  Outside, answer, no_answer, ok, map_result, ◌>>=◌, err, request_failed,
}
use proof_cli_baran.Discovery.Manifests.{
  network_manifest_domain, map_given, normalize_network_manifest, normalize_url,
  parse_signed_network_manifest, verify_signed_network_manifest,
}
use proof_cli_baran.Discovery.Catalogs.{
  service_catalog_domain, active_service_catalog_members, is_active_member, normalize_base_url,
  normalize_service_catalog, normalize_service_catalog_member, parse_signed_service_catalog,
  strip_slashes, verify_signed_service_catalog,
}
use proof_cli_baran.Discovery.Offered.{discover_services-AllActive, AllActive}
use proof_cli_baran.Discovery.Failing.{FirstFailure, resolve_catalogs-err_iff}
use proof_cli_baran.Discovery.Discover.{
  ServiceDiscoveryConfig, ResolvedServiceDiscovery, discover_services, catalog_key_to_role,
  chain_fits, check_age, check_required, dash_words, digest_fits, fetch_manifest_from,
  fetch_verified_catalog, fetch_verified_manifest, is_required, is_resolved, resolve_catalog,
  resolve_catalogs, ResolvedCatalogs,
}

abbrev manifest_at : Text
manifest_at = codes "m"

abbrev relays_at : Text
relays_at = codes "r"

abbrev signer : Text
signer = codes "0xA1"

abbrev relays_ref : CatalogRef
relays_ref = record {
  url = relays_at;
  signer = some signer;
  required = some true;
  max_stale_seconds = some 60;
  digest = none;
  metadata = none;
}

abbrev missing_ref : CatalogRef
missing_ref = record relays_ref { url = codes "x"; required = none }

abbrev manifest : NetworkManifest
manifest = record {
  sequence = 1;
  issued_at = some (pos 1000);
  effective_at = none;
  expires_at = some (some (pos 90000));
  chain = record { name = none; chain_id = codes "1" };
  registries = record { active = []; deprecated = []; retired = [] };
  quote_signer = none;
  supported_assets = none;
  rpc = none;
  explorer = none;
  control_plane = none;
  catalogs = some ((codes "relays", relays_ref) ∷ (codes "gateways", missing_ref) ∷ []);
  validators = none;
  relays = none;
  finality = none;
}

abbrev member : ServiceCatalogMember
member = record {
  service_id = codes "a";
  role = some (codes "relay");
  state = active;
  api_base_url = none;
  status_url = none;
  validation_report_url = none;
  control_plane_url = none;
  service_signer = none;
  acurast_deployment_id = none;
  acurast_job_id = none;
  script_hash = none;
  capabilities = none;
  weight = none;
  effective_at = none;
  expires_at = none;
  metadata = none;
}

abbrev catalog : ServiceCatalog
catalog = record {
  role = codes "relay";
  sequence = 1;
  issued_at = some (pos 1000);
  effective_at = none;
  expires_at = none;
  members = member ∷ record member { service_id = codes "b"; state = draining } ∷ [];
  metadata = none;
}

abbrev signed_with : Text → ReportSignature
signed_with domain = record {
  scheme = eip191_secp256k1;
  domain = domain;
  signer = signer;
  signature = [];
  signed_at = [];
  public_key = none;
  ss58_format = none;
}

abbrev network : Outside
network = record {
  fetch = λ url.
      if text_eq url (codes "x") then no_answer [] else answer true 200 (record { octets = url });
  response_text = λ b. b.octets;
  utf8_text = λ b. b.octets;
  parse_manifest =
      λ _. some (record { manifest = manifest; signature = signed_with network_manifest_domain });
  parse_catalog =
      λ _. some (record { catalog = catalog; signature = signed_with service_catalog_domain });
  sha256_hex = λ _. [];
  get_address = some;
  url_without_hash = some;
  url_without_hash_and_search = some;
  url_with_path = λ path _. some path;
  signing_message = λ domain _. domain;
  verify_message = λ _ _. some signer;
  signature_verify = λ _ _ _. none;
  encode_address = λ key _. key;
}

abbrev config : ServiceDiscoveryConfig
config = record {
  manifest_url_candidates = [] ∷ codes "x" ∷ manifest_at ∷ [];
  expected_manifest_signer = some (codes "0xa1");
  allow_unpinned_manifest_signer = false;
  expected_chain_id = some (codes "1");
  required_catalogs = codes "relays" ∷ [];
  now = pos 50000;
  allow_expired_manifest = false;
  allow_expired_catalogs = false;
}

abbrev discovery : ResolvedServiceDiscovery
discovery = record {
  manifest_url = manifest_at;
  manifest = manifest;
  manifest_signer = signer;
  catalogs =
      (
        codes "relays",
        record { key = codes "relays"; ref = relays_ref; catalog = catalog; signer = signer },
      )
      ∷ [];
  members_by_role = (codes "relay", member ∷ []) ∷ [];
}

discovers : discover_services network config ≡ ok discovery
unfolding discover_services active_service_catalog_members is_active_member normalize_base_url
    normalize_service_catalog normalize_service_catalog_member parse_signed_service_catalog
    strip_slashes verify_signed_service_catalog catalog_key_to_role chain_fits check_age
    check_required dash_words digest_fits fetch_manifest_from fetch_verified_catalog
    fetch_verified_manifest is_required is_resolved lookup_text put_text resolve_catalog
    resolve_catalogs map_given normalize_network_manifest normalize_url
    parse_signed_network_manifest verify_signed_network_manifest map_result ◌>>=◌ is_hex
    is_hex_digit same_signer verify_report_signature ◌-ℤ◌ lower_code mem_text to_lower_case text_eq
discovers = refl

discover_services-AllActive_example :
    All (λ entry. AllActive network config entry.1) discovery.members_by_role
discover_services-AllActive_example = discover_services-AllActive network config discovery discovers

abbrev failing_refs : List (Text × CatalogRef)
failing_refs =
    (codes "gateways", missing_ref)
    ∷ (codes "job_managers", record missing_ref { required = some true })
    ∷ []

abbrev nothing_yet : ResolvedCatalogs
nothing_yet = record { catalogs = []; members_by_role = [] }

resolve_catalogs-err_iff_example :
    (resolve_catalogs network config failing_refs nothing_yet ≡ err (request_failed []))
    ↔ FirstFailure network config (request_failed []) failing_refs
resolve_catalogs-err_iff_example =
    resolve_catalogs-err_iff network config failing_refs nothing_yet (request_failed [])
