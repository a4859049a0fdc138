-- ===== src/Operator/Processors.antt =====
-- The processors of a report (src/switchboard-core/src/operator-capability.ts). `decodeAddress`, whose
-- result stands as hexadecimal digits, is a parameter.
use proof_cli_baran.Prelude.{
  Bool, ◌&&◌, ◌||◌, Option, none, some, List, [], ◌∷◌, ◌++◌, ◌==◌, if◌then◌else◌, length,
}
use proof_cli_baran.Prelude.Text.{Text, codes, text_eq, to_lower_case, mem_text}
use proof_cli_baran.Discovery.Signing.{is_hex}
use proof_cli_baran.Operator.Types.{ProcessorScope, GatewayCapabilityReport, explicit, manager}

pub record ReportProcessor : Type 0 where
  pub processor_id : Text
  pub address : Option Text
  pub manager_id : Option Text

-- `/^0x[0-9a-fA-F]{64}$/`
unfoldable pub is_hex_id : Text → Bool
unfolding is_hex
is_hex_id s = is_hex s && length s == 66

abbrev pub list_or {ℓ} : {A : Type ℓ} → Option (List A) → List A → List A
list_or none xs = xs
list_or (some ys) xs = ys

module _ (decode_address : Text → Option Text) where
  unfoldable pub processor_ref_to_id : Text → Option Text
  unfolding is_hex_id
  processor_ref_to_id value =
      if is_hex_id value then some (to_lower_case value) else elim (decode_address value) [
        | none ↦ none
        | some hex ↦ some (to_lower_case (codes "0x" ++ hex))
      ]

  -- The ids of references, without those that have none.
  unfoldable pub ids_of : List Text → List Text
  ids_of [] = []
  ids_of (raw ∷ raws) = elim (processor_ref_to_id raw) [
    | none ↦ ids_of raws
    | some [] ↦ ids_of raws
    | some (c ∷ id) ↦ (c ∷ id) ∷ ids_of raws
  ]

  unfoldable pub raw_processors : ProcessorScope → List Text
  raw_processors scope = elim scope.kind [
    | explicit ↦ list_or scope.processors []
    | manager ↦ list_or scope.processors (list_or scope.include_processors [])
  ]

  -- The processors that references stand for, without those that are excluded or were seen before.
  unfoldable pub expand_refs :
      List Text → Option Text → List Text → List Text → List ReportProcessor × List Text
  expand_refs excluded manager_id seen [] = ([], seen)
  expand_refs excluded manager_id seen (raw ∷ raws) =
      let skipped = expand_refs excluded manager_id seen raws in
      elim (processor_ref_to_id raw) [
        | none ↦ skipped
        | some id ↦
            let (more, seen_after) = expand_refs excluded manager_id (id ∷ seen) raws in
            let processor : ReportProcessor = record {
              processor_id = id;
              address = if is_hex_id raw then none else some raw;
              manager_id = manager_id;
            } in
            if text_eq id [] || mem_text id excluded || mem_text id seen
            then skipped
            else (processor ∷ more, seen_after)
      ]

  unfoldable pub expand_scopes : List Text → List ProcessorScope → List ReportProcessor
  unfolding expand_refs ids_of
  expand_scopes seen [] = []
  expand_scopes seen (scope ∷ scopes) =
      let (here, seen_after) =
        expand_refs (ids_of (list_or scope.exclude_processors [])) scope.manager_id seen
          (raw_processors scope) in
      here ++ expand_scopes seen_after scopes

  unfoldable pub expanded_report_processors : GatewayCapabilityReport → List ReportProcessor
  unfolding expand_scopes
  expanded_report_processors report = expand_scopes [] report.processor_scopes
