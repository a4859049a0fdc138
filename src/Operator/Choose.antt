-- ===== src/Operator/Choose.antt =====
-- The loops over reports and their processors (src/switchboard-core/src/operator-capability.ts).
use proof_cli_baran.Prelude.{
  ◌-◌, Bool, not, ◌&&◌, ◌||◌, Option, none, some, List, [], ◌∷◌, ◌++◌, map, if◌then◌else◌, keep,
}
use proof_cli_baran.Prelude.Text.{Text, codes, text_eq, to_lower_case}
use proof_cli_baran.Prelude.TextMap.{lookup_text, value_or}
use proof_cli_baran.Discovery.Signing.{is_given}
use proof_cli_baran.Operator.Types.{
  GatewayCapabilityReport, OperatorProfile, StoredGatewayCapabilityReport,
  OperatorCapabilityCandidate, OperatorCapacityMember, SelectionInput,
}
use proof_cli_baran.Operator.Processors.{ReportProcessor, expanded_report_processors}
use proof_cli_baran.Operator.Select.{
  is_eligible, is_usable, profiles_from, newest_first, operator_capability_route_state_url,
  operator_capability_route_state_healthy, operator_profile_route_intent_url_for_gateway,
  operator_profile_upstream_admission_url_for_gateway, operator_capability_upstream_admission_modes,
}

-- The first value that a list gives.
abbrev pub first_some {ℓ κ} : {A : Type ℓ} {B : Type κ} → (A → Option B) → List A → Option B
first_some f [] = none
first_some f (x ∷ xs) = let rest = first_some f xs in elim (f x) [ none ↦ rest | some b ↦ some b ]

unfoldable pub selection_reasons : SelectionInput → ReportProcessor → List Text
selection_reasons input processor =
    codes "operator-profile-active"
    ∷ codes "capability-report-fresh"
    ∷ codes "gateway-capacity-available"
    ∷ ((if input.require_route_state_url then codes "route-state-polling" ∷ [] else [])
        ++ (if input.require_route_intent_sink then codes "route-intent-sink" ∷ [] else [])
        ++ (if is_given processor.manager_id
            then codes "manager-scoped-processor"
            else codes "explicit-processor")
          ∷ [])

-- What the two selections ask of routes.
unfoldable pub candidate_routes_fit :
    SelectionInput → OperatorProfile → GatewayCapabilityReport → Bool
candidate_routes_fit input profile report =
    (not input.require_route_state_url
      || (is_given (operator_capability_route_state_url profile report)
          && operator_capability_route_state_healthy report))
    && (not input.require_route_intent_sink
        || is_given
            (operator_profile_route_intent_url_for_gateway profile report.operator.gateway_id))

abbrev pub route_state_available : OperatorProfile → GatewayCapabilityReport → Bool
route_state_available profile report =
    is_given (operator_capability_route_state_url profile report)
    && operator_capability_route_state_healthy report

unfoldable pub member_fits : SelectionInput → OperatorProfile → GatewayCapabilityReport → Bool
member_fits input profile report =
    (not (is_given input.gateway_id)
      || text_eq report.operator.gateway_id (value_or [] input.gateway_id))
    && (not input.require_route_state_url || route_state_available profile report)

unfoldable pub candidate_of :
    SelectionInput
    → OperatorProfile
    → StoredGatewayCapabilityReport
    → ReportProcessor
    → OperatorCapabilityCandidate
unfolding selection_reasons
candidate_of input profile stored processor =
    let report : GatewayCapabilityReport = stored.report in
    record {
      operator_id = to_lower_case report.operator.operator_id;
      gateway_id = report.operator.gateway_id;
      processor_id = processor.processor_id;
      processor_address = processor.address;
      manager_id = processor.manager_id;
      report_id = report.report_id;
      report_expires_at = report.expires_at;
      report_signer = stored.signer;
      public_addresses = report.gateway.public_addresses;
      active_route_count = report.gateway.active_route_count;
      route_capacity = report.gateway.route_capacity;
      route_state_url = operator_capability_route_state_url profile report;
      route_intent_url =
          operator_profile_route_intent_url_for_gateway profile report.operator.gateway_id;
      upstream_admission_url =
          operator_profile_upstream_admission_url_for_gateway profile report.operator.gateway_id;
      upstream_admission_modes = operator_capability_upstream_admission_modes report;
      route_intent_token_env = profile.route_intent_token_env;
      selection_reasons = selection_reasons input processor;
    }

unfoldable pub member_of :
    SelectionInput
    → OperatorProfile
    → StoredGatewayCapabilityReport
    → ReportProcessor
    → OperatorCapacityMember
member_of input profile stored processor =
    let report : GatewayCapabilityReport = stored.report in
    record {
      operator_id = to_lower_case report.operator.operator_id;
      gateway_id = report.operator.gateway_id;
      processor = value_or processor.processor_id processor.address;
      processor_id = processor.processor_id;
      manager_id = processor.manager_id;
      report_id = report.report_id;
      reported_at = report.reported_at;
      expires_at = report.expires_at;
      active_route_count = report.gateway.active_route_count;
      route_capacity = report.gateway.route_capacity;
      available_route_slots = report.gateway.route_capacity - report.gateway.active_route_count;
      public_addresses = report.gateway.public_addresses;
      route_state_available = route_state_available profile report;
      route_state_healthy = report.gateway.route_state_healthy;
      route_state_last_success_at = report.gateway.route_state_last_success_at;
      processor_discovery_fresh = report.gateway.processor_discovery_fresh;
      reported_processor_count = report.gateway.reported_processor_count;
      supported_classes = report.gateway.supported_classes;
      upstream_admission_modes = operator_capability_upstream_admission_modes report;
      source_relay_id = input.source_relay_id;
      source_relay_url = input.source_relay_url;
    }

module _ (decode_address : Text → Option Text) (input : SelectionInput) where
  -- The profile of a report's operator.
  unfoldable pub profile_of : GatewayCapabilityReport → Option OperatorProfile
  unfolding profiles_from lookup_text
  profile_of report =
      lookup_text (to_lower_case report.operator.operator_id) (profiles_from [] input.profiles)

  unfoldable pub candidate_from : StoredGatewayCapabilityReport → Option OperatorCapabilityCandidate
  candidate_from stored = elim (profile_of stored.report) [
    | none ↦ none
    | some profile ↦
        if is_eligible input profile stored && candidate_routes_fit input profile stored.report
        then first_some
            (λ processor.
              if is_usable input profile processor
              then some (candidate_of input profile stored processor)
              else none)
            (expanded_report_processors decode_address stored.report)
        else none
  ]

  unfoldable pub select_operator_capability_candidate : Option OperatorCapabilityCandidate
  unfolding candidate_from newest_first
  select_operator_capability_candidate = first_some candidate_from (newest_first input.reports)

  unfoldable pub members_from : StoredGatewayCapabilityReport → List OperatorCapacityMember
  members_from stored = elim (profile_of stored.report) [
    | none ↦ []
    | some profile ↦
        if is_eligible input profile stored && member_fits input profile stored.report
        then map (member_of input profile stored) (
            keep (is_usable input profile)
              (expanded_report_processors decode_address stored.report))
        else []
  ]

  abbrev pub all_members : List StoredGatewayCapabilityReport → List OperatorCapacityMember
  all_members [] = []
  all_members (stored ∷ more) = members_from stored ++ all_members more

  unfoldable pub select_operator_capacity_members : List OperatorCapacityMember
  unfolding members_from newest_first
  select_operator_capacity_members = all_members (newest_first input.reports)
