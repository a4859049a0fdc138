-- ===== src/Hostname/FirstZone.antt =====
-- Which zone a hint is for.
use proof_cli_baran.Prelude.{
  ◌≡◌, refl, inl, inr, Bool, true, false, Option, none, some, List, [], ◌∷◌, ltb, if◌then◌else◌,
  Bool-cases, length, find,
}
use proof_cli_baran.Prelude.Text.{Text, split, join}
use proof_cli_baran.Dns.Names.{Named, named, failing, normalize_dns_hostname}
use proof_cli_baran.Hostname.Providers.{
  lookup_zones, lookup_dns_provider_hint, HintError, no_ns_records_for, lookup_failed,
}
use proof_cli_baran.Hostname.Reaches.{answers_cases}

-- The suffixes of a name with at least two labels, the longest first.
abbrev pub candidate_zones : List Text → List Text
candidate_zones [] = []
candidate_zones (l ∷ ls) = if ltb (length ls) 1 then [] else join b'.' (l ∷ ls) ∷ candidate_zones ls

abbrev pub has_records : Named (List Text) → Bool
has_records (failing e) = false
has_records (named []) = false
has_records (named (s ∷ ss)) = true

module _ (resolve_ns : Text → Named (List Text)) where
  lookup_zones-zone :
      (hostname : Text) (last : Option HintError) (labels : List Text)
      → (lookup_zones resolve_ns hostname last labels).zone
        ≡ find (λ z. has_records (resolve_ns z)) (candidate_zones labels)
  unfolding lookup_zones
  lookup_zones-zone hostname last [] = refl
  lookup_zones-zone hostname last (l ∷ ls) = elim (Bool-cases (ltb (length ls) 1)) [
    | inl short ↦ rw short
    | inr long ↦ elim (answers_cases (resolve_ns (join b'.' (l ∷ ls)))) [
      | inl (e, failed) ↦
          rw (long, failed, lookup_zones) (lookup_zones-zone hostname (some (lookup_failed e)) ls)
      | inr (inl empty) ↦
          rw (long, empty, lookup_zones)
            (lookup_zones-zone hostname (some (no_ns_records_for (join b'.' (l ∷ ls)))) ls)
      | inr (inr (s, more, found)) ↦ rw (long, found, lookup_zones)
    ]
  ]

  -- The hint for a valid name is for the longest of its suffixes with at least two labels that has
  -- name servers, and for no zone where none has.
  pub lookup_dns_provider_hint-zone :
      (hostname normalized : Text)
      → normalize_dns_hostname hostname ≡ named normalized
      → (lookup_dns_provider_hint resolve_ns hostname).zone
        ≡ find (λ z. has_records (resolve_ns z)) (candidate_zones (split b'.' normalized))
  unfolding lookup_dns_provider_hint
  lookup_dns_provider_hint-zone hostname normalized valid =
      rw (valid, lookup_dns_provider_hint)
        (lookup_zones-zone normalized none (split b'.' normalized))
