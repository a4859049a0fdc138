-- ===== src/Hostname/Tests.antt =====
-- Checks of a hostname against tables of records, and the properties there.
use proof_cli_baran.Prelude.{
  ◌≡◌, refl, ◌↔◌, true, none, some, List, [], ◌∷◌, if◌then◌else◌, find, All,
}
use proof_cli_baran.Prelude.Text.{Text, codes, text_eq, trim, to_lower_case, split, includes}
use proof_cli_baran.Dns.Names.{Named, named, normalize_dns_hostname, map_named}
use proof_cli_baran.Hostname.Cname.{
  CnameInput, CnameValidationResult, cname_records, validate_cname_target, resolvers_of,
  max_depth_of,
}
use proof_cli_baran.Hostname.Reaches.{Reaches, validate_cname_target_iff}
use proof_cli_baran.Hostname.Providers.{lookup_dns_provider_hint}
use proof_cli_baran.Hostname.FirstZone.{has_records, candidate_zones, lookup_dns_provider_hint-zone}

abbrev shop : Text
shop = codes "shop.example.com"

abbrev edge : Text
edge = codes "edge.example.net"

abbrev answers : Text → Text → Named (List Text)
answers name _ = named (
    if text_eq name shop
    then codes "Middle.example.net." ∷ []
    else if text_eq name (codes "middle.example.net")
    then edge ∷ []
    else [])

abbrev input : CnameInput
input = record {
  customer_hostname = codes " Shop.Example.com ";
  expected_target = edge;
  resolvers = some (codes "system" ∷ []);
  max_depth = none;
}

shop_valid : normalize_dns_hostname input.customer_hostname ≡ named shop
unfolding normalize_dns_hostname text_eq to_lower_case trim includes split
shop_valid = refl

edge_valid : normalize_dns_hostname input.expected_target ≡ named edge
unfolding normalize_dns_hostname text_eq to_lower_case trim includes split
edge_valid = refl

validate_cname_target_iff_example :
    (v : CnameValidationResult) × (validate_cname_target answers input ≡ named v)
    × ((v.ok ≡ true)
        ↔ All
            (λ resolver.
              Reaches
                (λ x. cname_records answers resolver x)
                edge
                (max_depth_of answers input)
                shop)
            (resolvers_of answers input))
validate_cname_target_iff_example =
    validate_cname_target_iff answers input shop edge shop_valid edge_valid

abbrev servers : Text → Named (List Text)
servers zone =
    named (if text_eq zone (codes "example.com") then codes "a.ns.cloudflare.com" ∷ [] else [])

lookup_dns_provider_hint-zone_example :
    (lookup_dns_provider_hint servers input.customer_hostname).zone
    ≡ find (λ z. has_records (servers z)) (candidate_zones (split b'.' shop))
lookup_dns_provider_hint-zone_example =
    lookup_dns_provider_hint-zone servers input.customer_hostname shop shop_valid

abbrev checked : CnameValidationResult
checked = record {
  ok = true;
  customer_hostname = shop;
  expected_target = edge;
  results =
      record {
        resolver = codes "system";
        ok = true;
        chain = shop ∷ codes "middle.example.net" ∷ edge ∷ [];
        error = none;
      }
      ∷ [];
}

checks : validate_cname_target answers input ≡ named checked
unfolding validate_cname_target cname_records includes normalize_dns_hostname map_named split
    text_eq to_lower_case trim
checks = refl
