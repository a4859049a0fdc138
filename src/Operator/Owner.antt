-- ===== src/Operator/Owner.antt =====
-- The profile of a report's operator (src/switchboard-core/src/operator-capability.ts).
use proof_cli_baran.Prelude.{
  ◌≡◌, refl, Option, some, List, [], ◌∷◌, All, Listed, listed_first, listed_later,
}
use proof_cli_baran.Prelude.Text.{Text, to_lower_case}
use proof_cli_baran.Prelude.TextMap.{put_text-All, lookup_text-found}
use proof_cli_baran.Operator.Types.{GatewayCapabilityReport, OperatorProfile, SelectionInput}
use proof_cli_baran.Operator.Select.{profiles_from}
use proof_cli_baran.Operator.Choose.{profile_of}

-- A listed profile of an operator, whose ids are compared in lower case.
pub Owns : List OperatorProfile → Text → OperatorProfile → Type 0
Owns profiles key p = Listed p profiles × (to_lower_case p.operator_id ≡ key)

profiles_from-Owns :
    (every ps : List OperatorProfile) (entries : List (Text × OperatorProfile))
    → ((p : OperatorProfile) → Listed p ps → Listed p every)
    → All (λ entry. Owns every entry.0 entry.1) entries
    → All (λ entry. Owns every entry.0 entry.1) (profiles_from entries ps)
unfolding profiles_from Owns
profiles_from-Owns every [] entries sub h = h
profiles_from-Owns every (p ∷ ps) entries sub h =
    profiles_from-Owns every ps _ (λ q l. sub q (listed_later l))
      (put_text-All (λ entry. Owns every entry.0 entry.1) (to_lower_case p.operator_id) p entries
        (sub p listed_first, refl) h)

pub profile_of-Owns :
    (decode_address : Text → Option Text) (input : SelectionInput)
    (report : GatewayCapabilityReport) (p : OperatorProfile)
    → profile_of decode_address input report ≡ some p
    → Owns input.profiles (to_lower_case report.operator.operator_id) p
unfolding profile_of
profile_of-Owns decode_address input report p h =
    lookup_text-found (λ entry. Owns input.profiles entry.0 entry.1)
      (to_lower_case report.operator.operator_id) p (profiles_from [] input.profiles) h
      (profiles_from-Owns input.profiles input.profiles [] (λ q l. l) tt)
