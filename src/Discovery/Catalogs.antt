-- ===== src/Discovery/Catalogs.antt =====
-- Service catalogs, their members and the verification of a signed one
-- (src/switchboard-core/src/service-catalog.ts).
use mathlib.Core.List.{reverse}
use proof_cli_baran.Prelude.{
  ℕ, Bool, true, false, not, ◌&&◌, ◌||◌, Option, none, some, List, [], ◌∷◌, ◌==◌, if◌then◌else◌,
  keep,
}
use proof_cli_baran.Prelude.Text.{Text, codes, text_eq}
use proof_cli_baran.Prelude.Number.{ℤ, leb_ℤ}
use proof_cli_baran.Discovery.Types.{
  Instant, Metadata, ServiceRole, ServiceState, candidate, active, degraded, draining, disabled,
  ServiceCatalogMember, ServiceCatalog, SignedServiceCatalog, catalog_payload,
}
use proof_cli_baran.Discovery.Outside.{
  Outside, Result, ok, err, ◌>>=◌, or_err, guard, map_result, unparsable, unexpected_domain,
  expired, unexpected_signer, invalid_url, inactive_with_state,
}
use proof_cli_baran.Discovery.Signing.{or_else, verify_report_signature}
use proof_cli_baran.Discovery.Manifests.{map_given, is_past, normalize_url, signer_fits}

abbrev pub service_catalog_domain : Text
service_catalog_domain = codes "switchboard.service-catalog.v1"

pub record RelayCatalogInputEntry : Type 0 where
  pub relay_id : Text
  pub api_base_url : Text
  pub validation_report_url : Option Text
  pub control_plane_url : Option Text
  pub state : Option ServiceState
  pub active_flag : Option Bool
  pub weight : Option ℕ
  pub capabilities : Option (List Text)
  pub metadata : Option Metadata

pub record ControlApiCatalogInputEntry : Type 0 where
  pub service_id : Text
  pub api_base_url : Text
  pub state : Option ServiceState
  pub capabilities : Option (List Text)
  pub weight : Option ℕ
  pub metadata : Option Metadata

-- `a ?? b` of two values that may both be absent.
abbrev pub or_also {ℓ} : {A : Type ℓ} → Option A → Option A → Option A
or_also none b = b
or_also (some a) b = some a

abbrev pub is_disabled : ServiceState → Bool
is_disabled disabled = true
is_disabled candidate = false
is_disabled active = false
is_disabled degraded = false
is_disabled draining = false

abbrev pub is_false : Option Bool → Bool
is_false (some false) = true
is_false (some true) = false
is_false none = false

unfoldable pub resolve_relay_catalog_input_state : RelayCatalogInputEntry → Result ServiceState
resolve_relay_catalog_input_state entry = elim entry.state [
  | some state ↦
      if is_false entry.active_flag && not (is_disabled state)
      then err (inactive_with_state entry.relay_id)
      else ok state
  | none ↦ ok (if is_false entry.active_flag then disabled else active)
]

unfoldable pub control_api_catalog_member_from_input :
    ControlApiCatalogInputEntry → Option (List Text) → ServiceCatalogMember
control_api_catalog_member_from_input entry default_capabilities = record {
  service_id = entry.service_id;
  role = some (codes "control-api");
  state = or_else entry.state active;
  api_base_url = some entry.api_base_url;
  status_url = none;
  validation_report_url = none;
  control_plane_url = none;
  service_signer = none;
  acurast_deployment_id = none;
  acurast_job_id = none;
  script_hash = none;
  capabilities = or_also entry.capabilities default_capabilities;
  weight = entry.weight;
  effective_at = none;
  expires_at = none;
  metadata = entry.metadata;
}

drop_slashes : Text → Text
drop_slashes [] = []
drop_slashes (c ∷ s) = let rest = drop_slashes s in if c == b'/' then rest else c ∷ s

-- `.replace(/\/+$/, "")`
unfoldable pub strip_slashes : Text → Text
unfolding drop_slashes
strip_slashes s = reverse (drop_slashes (reverse s))

-- `Date.parse(at) > now`, which is false of NaN.
abbrev pub is_future : Option Instant → ℤ → Bool
is_future none now = false
is_future (some none) now = false
is_future (some (some t)) now = not (leb_ℤ t now)

abbrev pub service_catalog_expired : ServiceCatalog → ℤ → Bool
service_catalog_expired catalog now = is_past catalog.expires_at now

-- The tests that `activeServiceCatalogMembers` makes of a member.
unfoldable pub is_active_member : ℤ → Bool → Bool → ServiceCatalogMember → Bool
is_active_member now include_degraded include_draining member =
    elim member.state [
      | disabled ↦ false
      | candidate ↦ false
      | degraded ↦ include_degraded
      | draining ↦ include_draining
      | active ↦ true
    ]
    && not (is_future member.effective_at now)
    && not (is_past member.expires_at now)

module _ (o : Outside) where
  -- The address of the validation reports of a service.
  unfoldable pub validation_reports_url : Text → Result Text
  validation_reports_url base =
      or_err (o.url_with_path (codes "/v1/validation-reports") base) (invalid_url base)

  unfoldable pub relay_catalog_member_from_input :
      RelayCatalogInputEntry → Option (List Text) → Result ServiceCatalogMember
  unfolding resolve_relay_catalog_input_state validation_reports_url
  relay_catalog_member_from_input entry default_capabilities = do
    state ← resolve_relay_catalog_input_state entry
    reports ← elim entry.validation_report_url [
      | some u ↦ ok u
      | none ↦ validation_reports_url entry.api_base_url
    ]
    ok (record {
      service_id = entry.relay_id;
      role = some (codes "relay");
      state = state;
      api_base_url = some entry.api_base_url;
      status_url = none;
      validation_report_url = some reports;
      control_plane_url = entry.control_plane_url;
      service_signer = none;
      acurast_deployment_id = none;
      acurast_job_id = none;
      script_hash = none;
      capabilities = or_also entry.capabilities default_capabilities;
      weight = entry.weight;
      effective_at = none;
      expires_at = none;
      metadata = entry.metadata;
    })

  unfoldable pub normalize_base_url : Text → Result Text
  unfolding strip_slashes
  normalize_base_url value = do
    u ← or_err (o.url_without_hash_and_search value) (invalid_url value)
    ok (strip_slashes u)

  unfoldable pub normalize_service_catalog_member :
      ServiceRole → ServiceCatalogMember → Result ServiceCatalogMember
  unfolding normalize_base_url map_given
  normalize_service_catalog_member role member = do
    api ← map_given normalize_base_url member.api_base_url
    status ← map_given (normalize_url o) member.status_url
    reports ← map_given (normalize_url o) member.validation_report_url
    control ← map_given (normalize_url o) member.control_plane_url
    ok (record member {
      role = some (or_else member.role role);
      api_base_url = api;
      status_url = status;
      validation_report_url = reports;
      control_plane_url = control;
    })

  unfoldable pub normalize_service_catalog : ServiceCatalog → Result ServiceCatalog
  unfolding normalize_service_catalog_member
  normalize_service_catalog catalog = do
    members ← map_result (normalize_service_catalog_member catalog.role) catalog.members
    ok (record catalog { members = members })

  unfoldable pub active_service_catalog_members :
      ServiceCatalog → ℤ → Bool → Bool → Result (List ServiceCatalogMember)
  unfolding is_active_member
  active_service_catalog_members catalog now include_degraded include_draining = do
    normalized ← normalize_service_catalog catalog
    ok (keep (is_active_member now include_degraded include_draining) normalized.members)

  unfoldable pub parse_signed_service_catalog : Text → Result SignedServiceCatalog
  parse_signed_service_catalog body = do
    signed ← or_err (o.parse_catalog body) unparsable
    catalog ← normalize_service_catalog signed.catalog
    ok (record { catalog = catalog; signature = signed.signature })

  unfoldable pub verify_signed_service_catalog :
      Text → Option Text → ℤ → Bool → Result (ServiceCatalog × Text)
  verify_signed_service_catalog body expected now allow_expired = do
    signed ← parse_signed_service_catalog body
    _ ←
        guard (text_eq signed.signature.domain service_catalog_domain)
          (unexpected_domain signed.signature.domain)
    _ ← guard (allow_expired || not (service_catalog_expired signed.catalog now)) expired
    signer ← verify_report_signature o (catalog_payload signed.catalog) signed.signature
    _ ← guard (signer_fits o signer expected) (unexpected_signer signer (or_else expected []))
    ok (signed.catalog, signer)
