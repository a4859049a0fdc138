-- ===== src/Operator/Passes.antt =====
-- What the tests of a report, a profile and a processor mean
-- (src/switchboard-core/src/operator-capability.ts).
use proof_cli_baran.Operator.Owner.{Owns}
use proof_cli_baran.Prelude.{
  ℕ, ◌<◌, ◌≡◌, refl, ◌≢◌, ◌⊎◌, inl, inr, Bool, true, false, Option, none, some, List, [], ◌∷◌,
  arith, Bool-cases, any, Listed, listed_first, listed_later,
}
use proof_cli_baran.Prelude.Text.{Text, text_eq, text_eq_iff, to_lower_case, mem_text}
use proof_cli_baran.Prelude.Number.{ℤ, ◌<ℤ◌}
use proof_cli_baran.Discovery.Types.{Instant}
use proof_cli_baran.Discovery.Signing.{is_given}
use proof_cli_baran.Operator.Select.{
  given_text, operator_capability_route_state_url, operator_profile_route_intent_url_for_gateway,
  fits_request,
}
use proof_cli_baran.Prelude.{
  ℕ, ◌<◌, ◌≡◌, refl, ◌≢◌, ◌⊎◌, inl, inr, Bool, true, false, Option, none, some, List, [], ◌∷◌,
  arith, Bool-cases, any, Listed, listed_first, listed_later,
}
use proof_cli_baran.Prelude.Text.{Text, text_eq, text_eq_iff, to_lower_case, mem_text}
use proof_cli_baran.Discovery.Signing.{same_signer}
use proof_cli_baran.Discovery.Manifests.{is_past}
use proof_cli_baran.Discovery.Catalogs.{is_false}
use proof_cli_baran.Operator.Types.{
  ProfileStatus, active, draining, inactive, OperatorProfile, StoredGatewayCapabilityReport,
  SelectionInput,
}
use proof_cli_baran.Operator.Processors.{ReportProcessor, expanded_report_processors}
use proof_cli_baran.Operator.Select.{is_active, allows}
use proof_cli_baran.Operator.Choose.{profile_of}

-- What a request for an id leaves: everything where it is absent or empty, and else that id in lower case.
pub data Requested (id : Text) : Option Text → Type 0 where
  nothing_asked : Requested id none
  empty_asked : Requested id (some [])
  asked : (c : ℕ) (s : Text) → id ≡ to_lower_case (c ∷ s) → Requested id (some (c ∷ s))

-- A list that restricts nothing where it is empty.
pub data Permitted (id : Text) (ids : List Text) : Type 0 where
  unrestricted : ids ≡ [] → Permitted id ids
  permitted : Listed id ids → Permitted id ids

pub data PermittedManager (ids : List Text) : Option Text → Type 0 where
  no_manager : PermittedManager ids none
  empty_manager : PermittedManager ids (some [])
  manager_permitted :
      (c : ℕ) (s : Text) → Permitted (c ∷ s) ids → PermittedManager ids (some (c ∷ s))

-- A time that cannot be read never passes.
pub data Unexpired (now : ℤ) : Instant → Type 0 where
  unreadable : Unexpired now none
  ends_later : (t : ℤ) → now <ℤ t → Unexpired now (some t)

-- A report, with its profile and one of its processors, that every test has let through.
pub record Passes (decode_address : Text → Option Text) (input : SelectionInput)
    (stored : StoredGatewayCapabilityReport) (profile : OperatorProfile)
    (processor : ReportProcessor) : Type 0 where
  pub reported : Listed stored input.reports
  pub owned : profile_of decode_address input stored.report ≡ some profile
  pub owner : Owns input.profiles (to_lower_case stored.report.operator.operator_id) profile
  pub in_service : profile.status ≡ active
  pub of_operator : Requested (to_lower_case stored.report.operator.operator_id) input.operator_id
  pub unexpired : Unexpired input.now stored.report.expires_at
  pub signed :
      (allowed : Text) × Listed allowed profile.report_signers
      × (same_signer allowed stored.signer ≡ true)
  pub of_gateway : Permitted stored.report.operator.gateway_id profile.gateway_ids
  pub free : stored.report.gateway.active_route_count < stored.report.gateway.route_capacity
  pub fresh : stored.report.gateway.processor_discovery_fresh ≢ some false
  pub route_state :
      (input.require_route_state_url ≡ false)
      ⊎ ((is_given (operator_capability_route_state_url profile stored.report) ≡ true)
          × (stored.report.gateway.route_state_healthy ≢ some false))
  pub route_intent :
      (input.require_route_intent_sink ≡ false)
      ⊎ (is_given (
            operator_profile_route_intent_url_for_gateway profile stored.report.operator.gateway_id)
          ≡ true)
  pub expanded : Listed processor (expanded_report_processors decode_address stored.report)
  pub of_processor : Requested processor.processor_id input.processor_id
  pub processor_permitted : Permitted processor.processor_id profile.processor_ids
  pub manager_permitted : PermittedManager profile.manager_ids processor.manager_id

pub fits_request-Requested :
    (asked_for : Option Text) (id : Text)
    → fits_request asked_for id ≡ true
    → Requested id asked_for
unfolding fits_request
fits_request-Requested none id h = nothing_asked
fits_request-Requested (some []) id h = empty_asked
fits_request-Requested (some (c ∷ s)) id h =
    asked c s ((text_eq_iff id (to_lower_case (c ∷ s))).0 h)

mem_text-Listed : (id : Text) (ids : List Text) → mem_text id ids ≡ true → Listed id ids
unfolding mem_text
mem_text-Listed id [] h = absurd (cc h)
mem_text-Listed id (x ∷ xs) h = elim (Bool-cases (text_eq id x)) [
  | inl same ↦ let e : id ≡ x = (text_eq_iff id x).0 same in rw e listed_first
  | inr other ↦ listed_later (mem_text-Listed id xs (ground arith))
]

pub allows-Permitted : (ids : List Text) (id : Text) → allows ids id ≡ true → Permitted id ids
allows-Permitted [] id h = unrestricted refl
allows-Permitted (x ∷ xs) id h = permitted (mem_text-Listed id (x ∷ xs) h)

pub allows-PermittedManager :
    (ids : List Text) (m : Option Text)
    → (elim (given_text m) [ none ↦ true | some id ↦ allows ids id ]) ≡ true
    → PermittedManager ids m
allows-PermittedManager ids none h = no_manager
allows-PermittedManager ids (some []) h = empty_manager
allows-PermittedManager ids (some (c ∷ s)) h =
    manager_permitted c s (allows-Permitted ids (c ∷ s) h)

pub not_past-Unexpired :
    (now : ℤ) (end : Instant) → is_past (some end) now ≡ false → Unexpired now end
not_past-Unexpired now none h = unreadable
not_past-Unexpired now (some t) h = ends_later t (ground arith)

pub any-Listed :
    (p : Text → Bool) (xs : List Text) → any p xs ≡ true → (x : Text) × Listed x xs × (p x ≡ true)
any-Listed p [] h = absurd (cc h)
any-Listed p (x ∷ xs) h = elim (Bool-cases (p x)) [
  | inl here ↦ (x, listed_first, here)
  | inr past ↦ let (y, l, e) = any-Listed p xs (ground arith) in (y, listed_later l, e)
]

pub is_false_iff : (b : Option Bool) → is_false b ≡ false → b ≢ some false
is_false_iff none h e = absurd (cc e)
is_false_iff (some true) h e = absurd (cc e)
is_false_iff (some false) h e = absurd (cc h)

pub is_active-active : (s : ProfileStatus) → is_active s ≡ true → s ≡ active
is_active-active active h = refl
is_active-active draining h = absurd (cc h)
is_active-active inactive h = absurd (cc h)
