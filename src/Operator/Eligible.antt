-- ===== src/Operator/Eligible.antt =====
-- What a selected gateway has been tested for.
use proof_cli_baran.Operator.Owner.{profile_of-Owns}
use proof_cli_baran.Prelude.{
  ◌≡◌, ◌∙◌, inl, inr, true, ◌&&◌, Option, none, some, List, [], ◌∷◌, arith, Bool-cases,
  Option-cases, All, sort, Listed, All-Listed,
}
use proof_cli_baran.Prelude.Text.{Text, to_lower_case}
use proof_cli_baran.Prelude.{
  ◌≡◌, ◌∙◌, inl, inr, true, ◌&&◌, Option, none, some, List, [], ◌∷◌, arith, Bool-cases,
  Option-cases, All, sort, Listed, All-Listed,
}
use proof_cli_baran.Prelude.Text.{Text, to_lower_case}
use proof_cli_baran.Prelude.Sorting.{All-sort, sort-All}
use proof_cli_baran.Discovery.Signing.{same_signer}
use proof_cli_baran.Operator.Types.{
  OperatorProfile, StoredGatewayCapabilityReport, OperatorCapabilityCandidate, SelectionInput,
}
use proof_cli_baran.Operator.Processors.{ReportProcessor, expanded_report_processors}
use proof_cli_baran.Operator.Select.{
  is_eligible, is_usable, not_older, newest_first, capability_report_expired,
  report_signer_allowed_by_profile,
}
use proof_cli_baran.Operator.Choose.{
  first_some, candidate_routes_fit, candidate_of, profile_of, candidate_from,
  select_operator_capability_candidate,
}
use proof_cli_baran.Operator.Passes.{
  Passes, fits_request-Requested, allows-Permitted, allows-PermittedManager, not_past-Unexpired,
  any-Listed, is_false_iff, is_active-active,
}

first_some-All {ℓ κ} :
    {A : Type ℓ} {B : Type 0} (P : A → Type κ) (f : A → Option B) (xs : List A) (b : B)
    → first_some f xs ≡ some b
    → All P xs
    → (x : A) × P x × (f x ≡ some b)
first_some-All P f [] b h _ = absurd (cc h)
first_some-All P f (x ∷ xs) b h (p, ps) = elim (Option-cases (f x)) [
  | inl e ↦ first_some-All P f xs b (rw (e, first_some) at h) ps
  | inr (c, e) ↦ (x, p, e ∙ (rw (e, first_some) at h))
]

first_some-none {ℓ} :
    {A : Type ℓ} {B : Type 0} (f : A → Option B) (xs : List A)
    → first_some f xs ≡ none
    → All (λ x. f x ≡ none) xs
first_some-none f [] h = tt
first_some-none f (x ∷ xs) h = elim (Option-cases (f x)) [
  | inl e ↦ (e, first_some-none f xs (rw (e, first_some) at h))
  | inr (c, e) ↦ absurd (cc (rw (e, first_some) at h))
]

module _ (decode_address : Text → Option Text) (input : SelectionInput) where
  -- What a candidate comes from.
  pub data ChosenFrom (c : OperatorCapabilityCandidate) : Type 0 where
    chosen :
        (stored : StoredGatewayCapabilityReport) (profile : OperatorProfile)
        (processor : ReportProcessor)
        → Passes decode_address input stored profile processor
        → c ≡ candidate_of input profile stored processor
        → ChosenFrom c

  -- What the tests of a report and its profile come to.
  is_eligible-Passes :
      (stored : StoredGatewayCapabilityReport) (profile : OperatorProfile)
      (processor : ReportProcessor)
      → Listed stored input.reports
      → profile_of decode_address input stored.report ≡ some profile
      → (is_eligible input profile stored && candidate_routes_fit input profile stored.report)
        ≡ true
      → Listed processor (expanded_report_processors decode_address stored.report)
      → is_usable input profile processor ≡ true
      → Passes decode_address input stored profile processor
  unfolding is_eligible is_usable capability_report_expired report_signer_allowed_by_profile
      candidate_routes_fit
  is_eligible-Passes stored profile processor listed owned fit expanded usable = record {
    reported = listed;
    owned = owned;
    owner = profile_of-Owns decode_address input stored.report profile owned;
    in_service = is_active-active profile.status (ground arith);
    of_operator =
        fits_request-Requested input.operator_id (to_lower_case stored.report.operator.operator_id)
          (ground arith);
    unexpired = not_past-Unexpired input.now stored.report.expires_at (ground arith);
    signed =
        any-Listed (λ allowed. same_signer allowed stored.signer) profile.report_signers
          (ground arith);
    of_gateway =
        allows-Permitted profile.gateway_ids stored.report.operator.gateway_id (ground arith);
    free = ground arith;
    fresh = is_false_iff stored.report.gateway.processor_discovery_fresh (ground arith);
    route_state = elim (Bool-cases input.require_route_state_url) [
      | inr free_of ↦ inl free_of
      | inl required ↦
          inr (ground arith, is_false_iff stored.report.gateway.route_state_healthy (ground arith))
    ];
    route_intent = elim (Bool-cases input.require_route_intent_sink) [
      | inr free_of ↦ inl free_of
      | inl required ↦ inr (ground arith)
    ];
    expanded = expanded;
    of_processor = fits_request-Requested input.processor_id processor.processor_id (ground arith);
    processor_permitted =
        allows-Permitted profile.processor_ids processor.processor_id (ground arith);
    manager_permitted =
        allows-PermittedManager profile.manager_ids processor.manager_id (ground arith);
  }

  candidate_from-ChosenFrom :
      (stored : StoredGatewayCapabilityReport) (c : OperatorCapabilityCandidate)
      → Listed stored input.reports
      → candidate_from decode_address input stored ≡ some c
      → ChosenFrom c
  unfolding candidate_from
  candidate_from-ChosenFrom stored c listed h =
      elim (Option-cases (profile_of decode_address input stored.report)) [
        | inl unknown ↦ absurd (cc (rw (unknown, candidate_from) at h))
        | inr (profile, owned) ↦
            elim (Bool-cases (
              is_eligible input profile stored
              && candidate_routes_fit input profile stored.report)) [
                | inr unfit ↦ absurd (cc (rw (owned, unfit, candidate_from) at h))
                | inl fit ↦
                    let g = rw (owned, fit, candidate_from) at h in
                    let ps = expanded_report_processors decode_address stored.report in
                    let (processor, expanded, e) =
                      first_some-All (λ p. Listed p ps) _ ps c g
                        (All-Listed (λ p. Listed p ps) ps (λ p l. l)) in
                    elim (Bool-cases (is_usable input profile processor)) [
                      | inr unusable ↦ absurd (cc (rw unusable at e))
                      | inl usable ↦
                          chosen stored profile processor
                            (is_eligible-Passes stored profile processor listed owned fit expanded
                              usable)
                            (cc (rw usable at e))
                    ]
              ]
      ]

  -- A gateway that is selected comes from a listed report with the listed profile of its operator, which
  -- is active: it is the operator that is asked for, if one is; the report has not expired (a time that
  -- cannot be read never passes), is signed by one of the profile's signers, belongs to one of its
  -- gateways (if it restricts them), has a free slot and no stale discovery, and has the route state
  -- and the route intent addresses that are asked for; and its processor is one of the report's, is
  -- the one that is asked for, if one is, and is permitted with its manager.
  pub select_operator_capability_candidate-ChosenFrom :
      (c : OperatorCapabilityCandidate)
      → select_operator_capability_candidate decode_address input ≡ some c
      → ChosenFrom c
  unfolding select_operator_capability_candidate newest_first
  select_operator_capability_candidate-ChosenFrom c h =
      let (stored, listed, e) =
        first_some-All (λ s. Listed s input.reports) (candidate_from decode_address input)
          (sort not_older input.reports) c h
          (All-sort not_older (λ s. Listed s input.reports) input.reports
            (All-Listed (λ s. Listed s input.reports) input.reports (λ s l. l))) in
      candidate_from-ChosenFrom stored c listed e

  -- Where none is selected, no report gives a candidate.
  select_operator_capability_candidate-none :
      select_operator_capability_candidate decode_address input ≡ none
      → All (λ s. candidate_from decode_address input s ≡ none) input.reports
  unfolding select_operator_capability_candidate newest_first
  select_operator_capability_candidate-none h =
      sort-All not_older (λ s. candidate_from decode_address input s ≡ none) input.reports
        (first_some-none (candidate_from decode_address input) (sort not_older input.reports) h)
