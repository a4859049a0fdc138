-- ===== src/Operator/Tests.antt =====
-- A profile with one gateway that reports one processor, and the properties there.
use proof_cli_baran.Operator.Select.{is_eligible, is_usable}
use proof_cli_baran.Discovery.Signing.{is_hex}
use proof_cli_baran.Prelude.{
  ◌≡◌, refl, false, not, Option, none, some, [], ◌∷◌, map, arith, any, sort,
}
use proof_cli_baran.Prelude.Text.{Text, codes, text_eq, to_lower_case, mem_text}
use proof_cli_baran.Prelude.Number.{pos}
use proof_cli_baran.Operator.Types.{
  ProcessorScope, Gateway, GatewayCapabilityReport, OperatorProfile, StoredGatewayCapabilityReport,
  OperatorCapabilityCandidate, SelectionInput, active, manager,
}
use proof_cli_baran.Operator.Addresses.{is_public}
use proof_cli_baran.Operator.Blocks.{is_public_iff, in_block, number_of, reserved}
use proof_cli_baran.Operator.Processors.{
  expanded_report_processors, processor_ref_to_id, raw_processors,
}
use proof_cli_baran.Operator.Normal.{
  expanded_report_processors-without_includes, normalize_gateway_capability_report,
  without_includes,
}
use proof_cli_baran.Operator.Choose.{
  select_operator_capability_candidate, candidate_of, candidate_routes_fit, profile_of,
}
use proof_cli_baran.Operator.Agree.{
  select_operator_capability_candidate-first_of, chosen_by, choice_of_candidate, choice_of_member,
  first_of,
}
use proof_cli_baran.Operator.Choose.{select_operator_capacity_members}
use proof_cli_baran.Operator.Eligible.{ChosenFrom, select_operator_capability_candidate-ChosenFrom}

abbrev no_address : Text → Option Text
no_address a = none

abbrev processor_id : Text
processor_id = codes "0x1111111111111111111111111111111111111111111111111111111111111111"

abbrev scope : ProcessorScope
scope = record {
  kind = manager;
  manager_id = none;
  processors = some (processor_id ∷ []);
  include_processors = some (codes "0x2" ∷ []);
  exclude_processors = none;
}

abbrev gateway : Gateway
gateway = record {
  public_addresses = codes "8.8.8.8" ∷ [];
  validation_hostname = none;
  route_state_url = none;
  route_state_healthy = none;
  route_state_last_success_at = none;
  route_intent_url = none;
  active_route_count = 1;
  route_capacity = 2;
  processor_discovery_fresh = none;
  reported_processor_count = none;
  software_version = none;
  supported_classes = [];
  upstream_admission_modes = none;
}

abbrev report : GatewayCapabilityReport
report = record {
  report_id = codes "r";
  reported_at = some (pos 10);
  expires_at = some (pos 100);
  operator = record { operator_id = codes "0xO"; gateway_id = codes "g"; manager_ids = none };
  gateway = gateway;
  processor_scopes = scope ∷ [];
}

abbrev profile : OperatorProfile
profile = record {
  operator_id = codes "0xo";
  status = active;
  display_name = none;
  payout_address = none;
  report_signers = codes "0xA1" ∷ [];
  gateway_ids = codes "g" ∷ [];
  manager_ids = [];
  processor_ids = [];
  route_state_url = none;
  route_intent_url = none;
  upstream_admission_url = none;
  upstream_admission_urls = none;
  route_intent_token_env = none;
  max_active_sessions = none;
  floor_price_per_minute = none;
}

abbrev stored : StoredGatewayCapabilityReport
stored = record { signer = codes "0xa1"; report = report }

abbrev input : SelectionInput
input = record {
  profiles = profile ∷ [];
  reports = stored ∷ [];
  now = pos 50;
  operator_id = none;
  gateway_id = none;
  processor_id = none;
  require_route_state_url = false;
  require_route_intent_sink = false;
  source_relay_id = none;
  source_relay_url = none;
}

abbrev candidate : OperatorCapabilityCandidate
candidate =
    candidate_of input profile stored
      (record { processor_id = processor_id; address = none; manager_id = none })

input_selects : select_operator_capability_candidate no_address input ≡ some candidate
unfolding select_operator_capability_candidate expanded_report_processors is_hex
    candidate_routes_fit profile_of processor_ref_to_id raw_processors is_eligible is_usable
    mem_text text_eq to_lower_case sort
input_selects = refl

is_public_iff_example : is_public 8 8 4 4 ≡ not (any (in_block (number_of 8 8 4 4)) reserved)
is_public_iff_example =
    is_public_iff 8 8 4 4 (omega arith) (omega arith) (omega arith) (omega arith)

expanded_report_processors-without_includes_example :
    expanded_report_processors no_address (normalize_gateway_capability_report false report)
    ≡ expanded_report_processors no_address (
        normalize_gateway_capability_report false
          (record report { processor_scopes = map without_includes report.processor_scopes }))
expanded_report_processors-without_includes_example =
    expanded_report_processors-without_includes no_address false report

select_operator_capability_candidate-ChosenFrom_example : ChosenFrom no_address input candidate
select_operator_capability_candidate-ChosenFrom_example =
    select_operator_capability_candidate-ChosenFrom no_address input candidate input_selects

select_operator_capability_candidate-first_of_example :
    chosen_by choice_of_candidate (select_operator_capability_candidate no_address input)
    ≡ chosen_by choice_of_member (first_of (select_operator_capacity_members no_address input))
select_operator_capability_candidate-first_of_example =
    select_operator_capability_candidate-first_of no_address input refl refl
