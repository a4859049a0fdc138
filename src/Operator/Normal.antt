-- ===== src/Operator/Normal.antt =====
-- The normal form of a report (src/switchboard-core/src/operator-capability.ts), and which processors
-- count in it.
use proof_cli_baran.Prelude.{
  ◌≡◌, refl, ap, Bool, Option, none, some, List, [], ◌∷◌, ◌++◌, map, if◌then◌else◌,
}
use proof_cli_baran.Prelude.Text.{Text, to_lower_case}
use proof_cli_baran.Operator.Types.{ProcessorScope, explicit, manager, GatewayCapabilityReport}
use proof_cli_baran.Operator.Addresses.{unique_nonempty}
use proof_cli_baran.Operator.Processors.{
  expand_refs, ids_of, expanded_report_processors, expand_scopes, raw_processors, list_or,
}
use proof_cli_baran.Operator.Select.{given_text, operator_capability_upstream_admission_modes}

unfoldable pub normalize_scope : ProcessorScope → ProcessorScope
unfolding unique_nonempty
normalize_scope scope = record scope {
  processors = some (unique_nonempty (list_or scope.processors []));
  include_processors = some (unique_nonempty (list_or scope.include_processors []));
  exclude_processors = some (unique_nonempty (list_or scope.exclude_processors []));
}

-- `preserveLegacyRouteIntentUrl` keeps the address that is dropped otherwise.
unfoldable pub normalize_gateway_capability_report :
    Bool → GatewayCapabilityReport → GatewayCapabilityReport
unfolding normalize_scope unique_nonempty operator_capability_upstream_admission_modes
normalize_gateway_capability_report preserve_legacy report = record report {
  operator = record report.operator {
    operator_id = to_lower_case report.operator.operator_id;
    manager_ids = some (unique_nonempty (list_or report.operator.manager_ids []));
  };
  gateway = record report.gateway {
    public_addresses = unique_nonempty report.gateway.public_addresses;
    supported_classes = unique_nonempty report.gateway.supported_classes;
    upstream_admission_modes = elim report.gateway.upstream_admission_modes [
      | none ↦ none
      | some _ ↦ some (operator_capability_upstream_admission_modes report)
    ];
    route_intent_url = if preserve_legacy then given_text report.gateway.route_intent_url else none;
  };
  processor_scopes = map normalize_scope report.processor_scopes;
}

abbrev pub without_includes : ProcessorScope → ProcessorScope
without_includes scope = record scope { include_processors = none }

module _ (decode_address : Text → Option Text) where
  raw_processors-without_includes :
      (s : ProcessorScope)
      → raw_processors decode_address (normalize_scope s)
        ≡ raw_processors decode_address (normalize_scope (without_includes s))
  unfolding raw_processors normalize_scope
  raw_processors-without_includes s =
      elim s.kind
        as (λ k.
          raw_processors decode_address (normalize_scope (record s { kind = k }))
          ≡ raw_processors decode_address
              (normalize_scope (without_includes (record s { kind = k })))) [
                | explicit ↦ refl
                | manager ↦ refl
              ]

  expand_scopes-without_includes :
      (seen : List Text) (ss : List ProcessorScope)
      → expand_scopes decode_address seen (map normalize_scope ss)
        ≡ expand_scopes decode_address seen (map normalize_scope (map without_includes ss))
  unfolding expand_scopes normalize_scope
  expand_scopes-without_includes seen [] = refl
  expand_scopes-without_includes seen (s ∷ ss) =
      let (here, seen_after) =
        expand_refs decode_address
          (ids_of decode_address (list_or (normalize_scope s).exclude_processors [])) s.manager_id
          seen (raw_processors decode_address (normalize_scope (without_includes s))) in
      rw (raw_processors-without_includes s)
        (ap (λ more. here ++ more) (expand_scopes-without_includes seen_after ss))

-- In the normal form of a report the included processors do not count: it has the same processors as
-- that of the report without them.
pub expanded_report_processors-without_includes :
    (decode_address : Text → Option Text) (preserve_legacy : Bool)
    (report : GatewayCapabilityReport)
    → expanded_report_processors decode_address
        (normalize_gateway_capability_report preserve_legacy report)
      ≡ expanded_report_processors decode_address (
          normalize_gateway_capability_report preserve_legacy
            (record report { processor_scopes = map without_includes report.processor_scopes }))
unfolding expanded_report_processors normalize_gateway_capability_report
expanded_report_processors-without_includes decode_address preserve_legacy report =
    expand_scopes-without_includes decode_address [] report.processor_scopes
