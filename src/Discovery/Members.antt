-- ===== src/Discovery/Members.antt =====
-- The addresses and relays that a discovery gives to its users
-- (src/switchboard-core/src/service-discovery.ts).
use proof_cli_baran.Prelude.TextMap.{lookup_text, put_text}
use proof_cli_baran.Prelude.{
  ℕ, Bool, true, false, ◌||◌, Option, none, some, List, [], ◌∷◌, map, ltb, if◌then◌else◌, length,
  keep, find,
}
use proof_cli_baran.Prelude.Text.{Text, codes, text_eq, mem_text, unique_from}
use proof_cli_baran.Discovery.Types.{
  texts, other, Metadata, ServiceState, active, degraded, candidate, draining, disabled,
  ServiceCatalogMember, ManifestRelay,
}
use proof_cli_baran.Discovery.Outside.{Outside, Result, ok, ◌>>=◌, map_result}
use proof_cli_baran.Discovery.Signing.{or_else}
use proof_cli_baran.Discovery.Catalogs.{
  or_also, is_false, normalize_base_url, validation_reports_url,
}
use proof_cli_baran.Discovery.Discover.{ResolvedServiceDiscovery, ResolvedServiceCatalog}

pub record RelayDiscoveryMember : Type 0 where
  pub relay_id : Text
  pub api_base_url : Option Text
  pub validation_report_url : Option Text
  pub control_plane_url : Option Text
  pub weight : Option ℕ
  pub state : Option ServiceState
  pub active_flag : Option Bool
  pub metadata : Option Metadata

-- The texts among optional ones that are present and not empty.
abbrev pub given_urls : List (Option Text) → List Text
given_urls [] = []
given_urls (none ∷ us) = given_urls us
given_urls (some [] ∷ us) = given_urls us
given_urls (some (c ∷ u) ∷ us) = (c ∷ u) ∷ given_urls us

unfoldable pub unique_strings : List Text → List Text
unfolding unique_from
unique_strings = unique_from []

unfoldable pub relay_member_metadata : ServiceCatalogMember → Option Metadata
unfolding put_text
relay_member_metadata member = elim member.capabilities [
  | none ↦ member.metadata
  | some capabilities ↦
      some (put_text (codes "capabilities") (texts capabilities) (or_else member.metadata []))
]

unfoldable pub service_member_settlement_capable : RelayDiscoveryMember → Bool
unfolding lookup_text mem_text
service_member_settlement_capable relay =
    elim (lookup_text (codes "capabilities") (or_else relay.metadata [])) [
      | some (texts capabilities) ↦
          mem_text (codes "settlement") capabilities || mem_text (codes "fulfillment") capabilities
      | some (other _) ↦ true
      | none ↦ true
    ]

abbrev pub is_serving : ServiceState → Bool
is_serving active = true
is_serving degraded = true
is_serving candidate = false
is_serving draining = false
is_serving disabled = false

abbrev pub is_on : ManifestRelay → Bool
is_on relay = or_else relay.active true

-- `discovery.manifest.controlPlane?.apiBaseUrl`
abbrev pub plane_url : ResolvedServiceDiscovery → Option Text
plane_url discovery = elim discovery.manifest.control_plane [
  | none ↦ none
  | some control ↦ control.api_base_url
]

abbrev pub manifest_relays : ResolvedServiceDiscovery → List ManifestRelay
manifest_relays discovery = or_else discovery.manifest.relays []

module _ (o : Outside) where
  -- A validation report address, or that of the base address, where one is given.
  unfoldable pub reports_url : Option Text → Option Text → Result (Option Text)
  unfolding validation_reports_url
  reports_url (some u) base = ok (some u)
  reports_url none none = ok none
  reports_url none (some []) = ok none
  reports_url none (some (c ∷ s)) = do u ← validation_reports_url o (c ∷ s); ok (some u)

  unfoldable pub base_url_of : Option Text → Result (Option Text)
  unfolding normalize_base_url
  base_url_of none = ok none
  base_url_of (some []) = ok none
  base_url_of (some (c ∷ s)) = do u ← normalize_base_url o (c ∷ s); ok (some u)

  unfoldable pub service_catalog_member_to_relay :
      ServiceCatalogMember → Result RelayDiscoveryMember
  unfolding reports_url relay_member_metadata
  service_catalog_member_to_relay member = do
    reports ← reports_url member.validation_report_url member.api_base_url
    ok (record {
      relay_id = member.service_id;
      api_base_url = member.api_base_url;
      validation_report_url = reports;
      control_plane_url = member.control_plane_url;
      weight = member.weight;
      state = some member.state;
      active_flag = some (is_serving member.state);
      metadata = relay_member_metadata member;
    })

  unfoldable pub manifest_relay_to_member : ManifestRelay → Result RelayDiscoveryMember
  unfolding base_url_of
  manifest_relay_to_member relay = do
    base ← base_url_of relay.api_base_url
    ok (record {
      relay_id = relay.relay_id;
      api_base_url = base;
      validation_report_url = relay.validation_report_url;
      control_plane_url = relay.control_plane_url;
      weight = relay.weight;
      state = some (if is_false relay.active then disabled else active);
      active_flag = relay.active;
      metadata = relay.metadata;
    })

  unfoldable pub resolve_control_api_endpoints : ResolvedServiceDiscovery → Result (List Text)
  unfolding normalize_base_url unique_strings lookup_text
  resolve_control_api_endpoints discovery = do
    let members = or_else (lookup_text (codes "control-api") discovery.members_by_role) []
    catalog_urls ← map_result (normalize_base_url o) (
        given_urls
          (map (λ (m : ServiceCatalogMember). or_also m.api_base_url m.control_plane_url) members))
    let relay_urls =
        map (λ (r : ManifestRelay). or_also r.control_plane_url r.api_base_url)
          (keep is_on (manifest_relays discovery))
    let legacy : Result (List Text) = do
      urls ← map_result (normalize_base_url o) (given_urls (plane_url discovery ∷ relay_urls))
      ok (unique_strings urls)
    if ltb 0 (length catalog_urls) then ok (unique_strings catalog_urls) else legacy

  unfoldable pub resolve_relay_members :
      ResolvedServiceDiscovery → Result (List RelayDiscoveryMember)
  unfolding service_catalog_member_to_relay manifest_relay_to_member lookup_text
  resolve_relay_members discovery =
      elim (or_else (lookup_text (codes "relay") discovery.members_by_role) []) [
        | [] ↦ map_result manifest_relay_to_member (keep is_on (manifest_relays discovery))
        | m ∷ ms ↦ map_result service_catalog_member_to_relay (m ∷ ms)
      ]

  unfoldable pub resolve_relay_inventory_members :
      ResolvedServiceDiscovery → Result (List RelayDiscoveryMember)
  unfolding service_catalog_member_to_relay manifest_relay_to_member
  resolve_relay_inventory_members discovery =
      elim (find
        (λ (entry : Text × ResolvedServiceCatalog). text_eq entry.1.catalog.role (codes "relay"))
        discovery.catalogs) [
          | none ↦ map_result manifest_relay_to_member (manifest_relays discovery)
          | some (_, resolved) ↦ map_result service_catalog_member_to_relay resolved.catalog.members
        ]

  unfoldable pub resolve_validation_report_submit_urls :
      ResolvedServiceDiscovery → Result (List Text)
  unfolding resolve_relay_members reports_url unique_strings
  resolve_validation_report_submit_urls discovery = do
    relays ← resolve_relay_members discovery
    urls ←
        map_result
          (λ (r : RelayDiscoveryMember). reports_url r.validation_report_url r.api_base_url) relays
    ok (unique_strings (given_urls urls))

  unfoldable pub resolve_settlement_relay_members :
      ResolvedServiceDiscovery → Result (List RelayDiscoveryMember)
  unfolding resolve_relay_members service_member_settlement_capable
  resolve_settlement_relay_members discovery = do
    relays ← resolve_relay_members discovery
    ok (keep service_member_settlement_capable relays)
