-- ===== src/Operator/Agree.antt =====
-- The selection of one gateway and the capacity of all of them (src/switchboard-core/src/operator-capability.ts).
use proof_cli_baran.Prelude.{
  ◌≡◌, refl, Bool, true, false, ◌&&◌, Option, none, some, List, [], ◌∷◌, ◌++◌, map, arith,
  if◌then◌else◌, keep,
}
use proof_cli_baran.Prelude.Text.{Text}
use proof_cli_baran.Operator.Types.{
  OperatorProfile, StoredGatewayCapabilityReport, OperatorCapabilityCandidate,
  OperatorCapacityMember, SelectionInput,
}
use proof_cli_baran.Operator.Processors.{ReportProcessor, expanded_report_processors}
use proof_cli_baran.Operator.Select.{is_eligible, is_usable, newest_first}
use proof_cli_baran.Operator.Choose.{
  first_some, candidate_routes_fit, candidate_of, member_of, member_fits, profile_of,
  candidate_from, members_from, all_members, select_operator_capability_candidate,
  select_operator_capacity_members,
}

-- What a route is tied to: operator, gateway, processor and report.
abbrev pub Choice : Type 0
Choice = Text × Text × Text × Text

abbrev pub choice_of_candidate : OperatorCapabilityCandidate → Choice
choice_of_candidate c = (c.operator_id, c.gateway_id, c.processor_id, c.report_id)

abbrev pub choice_of_member : OperatorCapacityMember → Choice
choice_of_member m = (m.operator_id, m.gateway_id, m.processor_id, m.report_id)

abbrev pub chosen_by {ℓ κ} : {A : Type ℓ} {B : Type κ} → (A → B) → Option A → Option B
chosen_by f none = none
chosen_by f (some a) = some (f a)

abbrev pub first_of {ℓ} : {A : Type ℓ} → List A → Option A
first_of [] = none
first_of (x ∷ xs) = some x

-- A selection chooses what comes first in a list.
abbrev Agrees : Option OperatorCapabilityCandidate → List OperatorCapacityMember → Type 0
Agrees c ms = chosen_by choice_of_candidate c ≡ chosen_by choice_of_member (first_of ms)

Agrees-if :
    (b : Bool) (c : Option OperatorCapabilityCandidate) (ms : List OperatorCapacityMember)
    → Agrees c ms
    → Agrees (if b then c else none) (if b then ms else [])
Agrees-if true c ms h = h
Agrees-if false c ms h = refl

Agrees-or :
    (c later : Option OperatorCapabilityCandidate) (ms more : List OperatorCapacityMember)
    → Agrees c ms
    → Agrees later more
    → Agrees (elim c [ none ↦ later | some a ↦ some a ]) (ms ++ more)
Agrees-or none later [] more h g = g
Agrees-or none later (m ∷ ms) more h g = absurd (cc h)
Agrees-or (some c) later [] more h g = absurd (cc h)
Agrees-or (some c) later (m ∷ ms) more h g = h

module _ (input : SelectionInput) (profile : OperatorProfile)
    (stored : StoredGatewayCapabilityReport) where
  Agrees-usable :
      (usable : Bool) (p : ReportProcessor) (later : Option OperatorCapabilityCandidate)
      (ps : List ReportProcessor)
      → Agrees later (map (member_of input profile stored) ps)
      → Agrees
          (elim (if usable then some (candidate_of input profile stored p) else none) [
            | none ↦ later
            | some a ↦ some a
          ])
          (map (member_of input profile stored) (if usable then p ∷ ps else ps))
  unfolding candidate_of member_of
  Agrees-usable true p later ps h = refl
  Agrees-usable false p later ps h = h

  Agrees-processors :
      (ps : List ReportProcessor)
      → Agrees
          (first_some
            (λ p.
              if is_usable input profile p
              then some (candidate_of input profile stored p)
              else none)
            ps)
          (map (member_of input profile stored) (keep (is_usable input profile) ps))
  Agrees-processors [] = refl
  Agrees-processors (p ∷ ps) =
      Agrees-usable (is_usable input profile p) p _ (keep (is_usable input profile) ps)
        (Agrees-processors ps)

module _ (decode_address : Text → Option Text) (input : SelectionInput)
    (any_gateway : input.gateway_id ≡ none)
    (no_sink : input.require_route_intent_sink ≡ false) where
  fits_agree :
      (profile : OperatorProfile) (stored : StoredGatewayCapabilityReport)
      → candidate_routes_fit input profile stored.report ≡ member_fits input profile stored.report
  unfolding member_fits candidate_routes_fit
  fits_agree profile stored = rw (any_gateway, no_sink) (ground arith)

  Agrees-found :
      (found : Option OperatorProfile) (stored : StoredGatewayCapabilityReport)
      → Agrees
          (elim found [
            | none ↦ none
            | some profile ↦
                if is_eligible input profile stored
                  && candidate_routes_fit input profile stored.report
                then first_some
                    (λ p.
                      if is_usable input profile p
                      then some (candidate_of input profile stored p)
                      else none)
                    (expanded_report_processors decode_address stored.report)
                else none
          ])
          (elim found [
            | none ↦ []
            | some profile ↦
                if is_eligible input profile stored && member_fits input profile stored.report
                then map (member_of input profile stored) (
                    keep
                      (is_usable input profile)
                      (expanded_report_processors decode_address stored.report))
                else []
          ])
  Agrees-found none stored = refl
  Agrees-found (some profile) stored = rw (fits_agree profile stored) (
      Agrees-if (is_eligible input profile stored && member_fits input profile stored.report) _
        (map (member_of input profile stored) (
          keep (is_usable input profile) (expanded_report_processors decode_address stored.report)))
        (Agrees-processors input profile stored
          (expanded_report_processors decode_address stored.report)))

  Agrees-report :
      (stored : StoredGatewayCapabilityReport)
      → Agrees
          (candidate_from decode_address input stored)
          (members_from decode_address input stored)
  unfolding candidate_from members_from
  Agrees-report stored = Agrees-found (profile_of decode_address input stored.report) stored

  Agrees-reports :
      (reports : List StoredGatewayCapabilityReport)
      → Agrees
          (first_some (candidate_from decode_address input) reports)
          (all_members decode_address input reports)
  Agrees-reports [] = refl
  Agrees-reports (stored ∷ more) =
      Agrees-or (candidate_from decode_address input stored) _
        (members_from decode_address input stored) (all_members decode_address input more)
        (Agrees-report stored) (Agrees-reports more)

  -- Where no gateway id and no sink of route intents is asked for, the gateway that is selected is the
  -- first of those whose capacity is offered, with the same operator, processor and report, and none is
  -- selected exactly where none is offered.
  pub select_operator_capability_candidate-first_of :
      chosen_by choice_of_candidate (select_operator_capability_candidate decode_address input)
      ≡ chosen_by choice_of_member
          (first_of (select_operator_capacity_members decode_address input))
  unfolding select_operator_capability_candidate select_operator_capacity_members
  select_operator_capability_candidate-first_of = Agrees-reports (newest_first input.reports)
