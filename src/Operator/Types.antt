-- ===== src/Operator/Types.antt =====
-- What a capability report and a profile hold: the fields of the schemas in
-- src/switchboard-core/src/operator-capability.ts, without the economics and the route state and metrics
-- of a gateway, which no selection looks at. The tests that a schema makes of single fields belong to
-- parsing.
use proof_cli_baran.Prelude.Number.{ℤ}
use proof_cli_baran.Prelude.{ℕ, Bool, Option, List}
use proof_cli_baran.Prelude.Text.{Text}
use proof_cli_baran.Discovery.Types.{Instant}

pub data ScopeKind : Type 0 where
  explicit manager : ScopeKind

pub record ProcessorScope : Type 0 where
  pub kind : ScopeKind
  pub manager_id : Option Text
  pub processors : Option (List Text)
  pub include_processors : Option (List Text)
  pub exclude_processors : Option (List Text)

pub data AdmissionMode : Type 0 where
  direct_post relay_pull : AdmissionMode

pub record ReportOperator : Type 0 where
  pub operator_id : Text
  pub gateway_id : Text
  pub manager_ids : Option (List Text)

pub record Gateway : Type 0 where
  pub public_addresses : List Text
  pub validation_hostname : Option Text
  pub route_state_url : Option Text
  pub route_state_healthy : Option Bool
  pub route_state_last_success_at : Option Text
  pub route_intent_url : Option Text
  pub active_route_count : ℕ
  pub route_capacity : ℕ
  pub processor_discovery_fresh : Option Bool
  pub reported_processor_count : Option ℕ
  pub software_version : Option Text
  pub supported_classes : List Text
  pub upstream_admission_modes : Option (List AdmissionMode)

pub record GatewayCapabilityReport : Type 0 where
  pub report_id : Text
  pub reported_at : Instant
  pub expires_at : Instant
  pub operator : ReportOperator
  pub gateway : Gateway
  pub processor_scopes : List ProcessorScope

pub data ProfileStatus : Type 0 where
  active draining inactive : ProfileStatus

pub record OperatorProfile : Type 0 where
  pub operator_id : Text
  pub status : ProfileStatus
  pub display_name : Option Text
  pub payout_address : Option Text
  pub report_signers : List Text
  pub gateway_ids : List Text
  pub manager_ids : List Text
  pub processor_ids : List Text
  pub route_state_url : Option Text
  pub route_intent_url : Option Text
  pub upstream_admission_url : Option Text
  pub upstream_admission_urls : Option (List (Text × Text))
  pub route_intent_token_env : Option Text
  pub max_active_sessions : Option ℕ
  pub floor_price_per_minute : Option Text

pub record StoredGatewayCapabilityReport : Type 0 where
  pub signer : Text
  pub report : GatewayCapabilityReport

pub record OperatorCapabilityCandidate : Type 0 where
  pub operator_id : Text
  pub gateway_id : Text
  pub processor_id : Text
  pub processor_address : Option Text
  pub manager_id : Option Text
  pub report_id : Text
  pub report_expires_at : Instant
  pub report_signer : Text
  pub public_addresses : List Text
  pub active_route_count : ℕ
  pub route_capacity : ℕ
  pub route_state_url : Option Text
  pub route_intent_url : Option Text
  pub upstream_admission_url : Option Text
  pub upstream_admission_modes : List AdmissionMode
  pub route_intent_token_env : Option Text
  pub selection_reasons : List Text

pub record OperatorCapacityMember : Type 0 where
  pub operator_id : Text
  pub gateway_id : Text
  pub processor : Text
  pub processor_id : Text
  pub manager_id : Option Text
  pub report_id : Text
  pub reported_at : Instant
  pub expires_at : Instant
  pub active_route_count : ℕ
  pub route_capacity : ℕ
  pub available_route_slots : ℕ
  pub public_addresses : List Text
  pub route_state_available : Bool
  pub route_state_healthy : Option Bool
  pub route_state_last_success_at : Option Text
  pub processor_discovery_fresh : Option Bool
  pub reported_processor_count : Option ℕ
  pub supported_classes : List Text
  pub upstream_admission_modes : List AdmissionMode
  pub source_relay_id : Option Text
  pub source_relay_url : Option Text

pub record SelectionInput : Type 0 where
  pub profiles : List OperatorProfile
  pub reports : List StoredGatewayCapabilityReport
  pub now : ℤ
  pub operator_id : Option Text
  pub gateway_id : Option Text
  pub processor_id : Option Text
  pub require_route_state_url : Bool
  pub require_route_intent_sink : Bool
  pub source_relay_id : Option Text
  pub source_relay_url : Option Text
