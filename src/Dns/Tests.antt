-- ===== src/Dns/Tests.antt =====
-- Tests of names and zones, and their properties at concrete inputs.
use proof_cli_baran.Prelude.{
  ℕ, ◌≡◌, refl, ◌≢◌, ◌⊎◌, true, List, [], ◌∷◌, arith, length, any, All, sort,
}
use proof_cli_baran.Prelude.Text.{
  Text, codes, text_eq, trim, to_lower_case, split, includes, unique_from,
}
use proof_cli_baran.Dns.Names.{
  named, failing, outside_zones, normalize_dns_record_name, drop_last_dot, map_named,
  normalize_dns_hostname,
}
use proof_cli_baran.Dns.Zones.{
  normalized_zones, infer_cloudflare_zone_name, select_cloudflare_zone_name,
}
use proof_cli_baran.Dns.Longest.{IsLongest, NotCovered, select_cloudflare_zone_name_outcome}
use proof_cli_baran.Dns.Pool.{select_domain_from_pool, select_domain_from_pool_listed}

abbrev host : Text
host = codes "a.b.example.com"

abbrev configured : List Text
configured = codes "example.com" ∷ codes " b.example.com." ∷ []

abbrev zones : List Text
zones = codes "b.example.com" ∷ codes "example.com" ∷ []

host_valid : normalize_dns_record_name host ≡ named host
unfolding normalize_dns_record_name text_eq to_lower_case trim includes split drop_last_dot
host_valid = refl

zones_valid : normalized_zones configured ≡ named zones
unfolding normalized_zones map_named text_eq trim normalize_dns_hostname to_lower_case includes
    split sort unique_from drop_last_dot
zones_valid = refl

select_cloudflare_zone_name_outcome_example :
    ((zones ≡ []) × (select_cloudflare_zone_name host configured ≡ infer_cloudflare_zone_name host))
    ⊎ ((z : Text) × (select_cloudflare_zone_name host configured ≡ named z)
        × IsLongest host zones z)
    ⊎ ((zones ≢ [])
        × All (NotCovered host) zones
        × (select_cloudflare_zone_name host configured ≡ failing (outside_zones host)))
select_cloudflare_zone_name_outcome_example =
    select_cloudflare_zone_name_outcome host host configured zones host_valid zones_valid

-- The length of the seed, in place of a digest.
abbrev digest : Text → ℕ
digest seed = length seed

select_domain_from_pool_listed_example :
    (d : Text) × (select_domain_from_pool digest zones host ≡ named d)
    × (any (text_eq d) zones ≡ true)
select_domain_from_pool_listed_example =
    select_domain_from_pool_listed digest zones host (λ e. ground arith)
