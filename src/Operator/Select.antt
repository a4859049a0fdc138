-- ===== src/Operator/Select.antt =====
-- The selection of a gateway for a route, and the capacity that gateways offer
-- (src/switchboard-core/src/operator-capability.ts).
use proof_cli_baran.Prelude.{
  Bool, true, false, not, ◌&&◌, ◌||◌, Option, none, some, List, [], ◌∷◌, leb, if◌then◌else◌, any,
  sort,
}
use proof_cli_baran.Prelude.Text.{Text, text_eq, to_lower_case, mem_text}
use proof_cli_baran.Prelude.Number.{ℤ, leb_ℤ}
use proof_cli_baran.Prelude.TextMap.{lookup_text, put_text, value_or}
use proof_cli_baran.Discovery.Signing.{same_signer}
use proof_cli_baran.Discovery.Manifests.{is_past}
use proof_cli_baran.Discovery.Catalogs.{is_false}
use proof_cli_baran.Operator.Types.{
  AdmissionMode, direct_post, relay_pull, ProfileStatus, active, draining, inactive,
  GatewayCapabilityReport, OperatorProfile, StoredGatewayCapabilityReport, SelectionInput,
}
use proof_cli_baran.Operator.Processors.{ReportProcessor}

abbrev pub is_active : ProfileStatus → Bool
is_active active = true
is_active draining = false
is_active inactive = false

-- A list that restricts nothing where it is empty.
abbrev pub allows : List Text → Text → Bool
allows [] a = true
allows (x ∷ xs) a = mem_text a (x ∷ xs)

-- A request for one id, in any case, that asks for nothing where it is absent or empty.
unfoldable pub fits_request : Option Text → Text → Bool
fits_request none id = true
fits_request (some []) id = true
fits_request (some (c ∷ s)) id = text_eq id (to_lower_case (c ∷ s))

abbrev pub given_text : Option Text → Option Text
given_text none = none
given_text (some []) = none
given_text (some (c ∷ s)) = some (c ∷ s)

unfoldable pub capability_report_expired : GatewayCapabilityReport → ℤ → Bool
capability_report_expired report now = is_past (some report.expires_at) now

unfoldable pub report_signer_allowed_by_profile : OperatorProfile → Text → Bool
unfolding same_signer
report_signer_allowed_by_profile profile signer =
    any (λ allowed. same_signer allowed signer) profile.report_signers

-- The only gateway of a profile.
unfoldable pub is_only_gateway : OperatorProfile → Text → Bool
is_only_gateway profile gateway_id = elim profile.gateway_ids [
  | [] ↦ false
  | only ∷ [] ↦ text_eq only gateway_id
  | first ∷ second ∷ more ↦ false
]

unfoldable pub operator_profile_route_intent_url_for_gateway : OperatorProfile → Text → Option Text
unfolding is_only_gateway
operator_profile_route_intent_url_for_gateway profile gateway_id =
    if is_only_gateway profile gateway_id then given_text profile.route_intent_url else none

unfoldable pub operator_profile_route_state_url_for_gateway : OperatorProfile → Text → Option Text
unfolding is_only_gateway
operator_profile_route_state_url_for_gateway profile gateway_id =
    if is_only_gateway profile gateway_id then given_text profile.route_state_url else none

unfoldable pub operator_profile_upstream_admission_url_for_gateway :
    OperatorProfile → Text → Option Text
unfolding is_only_gateway lookup_text
operator_profile_upstream_admission_url_for_gateway profile gateway_id =
    elim (given_text (lookup_text gateway_id (value_or [] profile.upstream_admission_urls))) [
      | some url ↦ some url
      | none ↦
          (if is_only_gateway profile gateway_id
            then given_text profile.upstream_admission_url
            else none)
    ]

unfoldable pub operator_capability_route_state_url :
    OperatorProfile → GatewayCapabilityReport → Option Text
unfolding operator_profile_route_state_url_for_gateway
operator_capability_route_state_url profile report = elim report.gateway.route_state_url [
  | some url ↦ some url
  | none ↦ operator_profile_route_state_url_for_gateway profile report.operator.gateway_id
]

abbrev pub operator_capability_route_state_healthy : GatewayCapabilityReport → Bool
operator_capability_route_state_healthy report = not (is_false report.gateway.route_state_healthy)

same_mode : AdmissionMode → AdmissionMode → Bool
same_mode direct_post direct_post = true
same_mode relay_pull relay_pull = true
same_mode direct_post relay_pull = false
same_mode relay_pull direct_post = false

unique_modes : List AdmissionMode → List AdmissionMode → List AdmissionMode
unfolding same_mode
unique_modes seen [] = []
unique_modes seen (m ∷ ms) =
    let first = m ∷ unique_modes (m ∷ seen) ms in
    let again = unique_modes seen ms in if any (same_mode m) seen then again else first

unfoldable pub operator_capability_upstream_admission_modes :
    GatewayCapabilityReport → List AdmissionMode
unfolding unique_modes
operator_capability_upstream_admission_modes report =
    elim (value_or [] report.gateway.upstream_admission_modes) [
      | [] ↦ direct_post ∷ []
      | m ∷ ms ↦ unique_modes [] (m ∷ ms)
    ]

-- `new Map(...)`: of profiles with the same id the last one counts.
unfoldable pub profiles_from :
    List (Text × OperatorProfile) → List OperatorProfile → List (Text × OperatorProfile)
unfolding put_text
profiles_from entries [] = entries
profiles_from entries (p ∷ ps) = profiles_from (put_text (to_lower_case p.operator_id) p entries) ps

-- `Date.parse(right) - Date.parse(left) <= 0`, where a date that is none counts as equal. The order of
-- reports without a date is that of an insertion sort.
abbrev pub not_older : StoredGatewayCapabilityReport → StoredGatewayCapabilityReport → Bool
not_older left right = elim left.report.reported_at [
  | none ↦ true
  | some l ↦ elim right.report.reported_at [ none ↦ true | some r ↦ leb_ℤ r l ]
]

unfoldable pub newest_first :
    List StoredGatewayCapabilityReport → List StoredGatewayCapabilityReport
newest_first = sort not_older

-- The tests of a report and its profile that both selections make.
unfoldable pub is_eligible : SelectionInput → OperatorProfile → StoredGatewayCapabilityReport → Bool
unfolding fits_request capability_report_expired report_signer_allowed_by_profile
is_eligible input profile stored =
    let report : GatewayCapabilityReport = stored.report in
    is_active profile.status
    && fits_request input.operator_id (to_lower_case report.operator.operator_id)
    && not (capability_report_expired report input.now)
    && report_signer_allowed_by_profile profile stored.signer
    && allows profile.gateway_ids report.operator.gateway_id
    && not (
        leb report.gateway.route_capacity 0
        || leb report.gateway.route_capacity report.gateway.active_route_count)
    && not (is_false report.gateway.processor_discovery_fresh)

-- The tests of a processor.
unfoldable pub is_usable : SelectionInput → OperatorProfile → ReportProcessor → Bool
unfolding fits_request
is_usable input profile processor =
    fits_request input.processor_id processor.processor_id
    && allows profile.processor_ids processor.processor_id
    && elim (given_text processor.manager_id) [
      | none ↦ true
      | some m ↦ allows profile.manager_ids m
    ]
