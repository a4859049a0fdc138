-- ===== src/Dns/Zones.antt =====
-- The zone of a hostname (src/switchboard-core/src/cloudflare-dns.ts).
use proof_cli_baran.Prelude.{
  ◌-◌, Bool, not, ◌||◌, Option, none, some, List, [], ◌∷◌, map, ltb, leb, if◌then◌else◌, length,
  drop, keep, find, sort,
}
use proof_cli_baran.Prelude.Text.{Text, text_eq, trim, split, join, ends_with, unique_from}
use proof_cli_baran.Dns.Names.{
  Named, named, failing, ◌>>=◌, map_named, no_zone_for, outside_zones, normalize_dns_hostname,
  normalize_dns_record_name,
}

-- `labels.slice(-2).join(".")`
abbrev pub last_two : List Text → Text
last_two labels = join b'.' (drop (length labels - 2) labels)

unfoldable pub infer_cloudflare_zone_name : Text → Named Text
infer_cloudflare_zone_name hostname = do
  normalized ← normalize_dns_record_name hostname
  if ltb (length (split b'.' normalized)) 2
      then failing (no_zone_for hostname)
      else named (last_two (split b'.' normalized))

-- `unique(...).sort(...)` of the configured zones.
abbrev pub longer_first : Text → Text → Bool
longer_first left right = leb (length right) (length left)

unfoldable pub normalized_zones : List Text → Named (List Text)
normalized_zones names = do
  zones ← map_named normalize_dns_hostname (keep (λ n. not (text_eq n [])) (map trim names))
  named (sort longer_first (unique_from [] zones))

-- The hostname is the zone or ends with a dot and the zone.
unfoldable pub covers : Text → Text → Bool
covers hostname zone = text_eq hostname zone || ends_with (b'.' ∷ zone) hostname

unfoldable pub zone_or_infer : Text → Text → List Text → Option Text → Named Text
zone_or_infer hostname normalized zones (some match) = named match
zone_or_infer hostname normalized [] none = infer_cloudflare_zone_name normalized
zone_or_infer hostname normalized (z ∷ zs) none = failing (outside_zones hostname)

unfoldable pub select_cloudflare_zone_name : Text → List Text → Named Text
unfolding normalized_zones zone_or_infer
select_cloudflare_zone_name hostname names = do
  normalized ← normalize_dns_record_name hostname
  zones ← normalized_zones names
  zone_or_infer hostname normalized zones (find (covers normalized) zones)

-- The suffixes of at least two labels, without the name itself.
unfoldable pub parents_of_labels : List Text → List Text
parents_of_labels [] = []
parents_of_labels (l ∷ ls) =
    let rest = parents_of_labels ls in if ltb (length ls) 2 then [] else join b'.' ls ∷ rest

unfoldable pub parent_zone_candidates : Text → Named (List Text)
unfolding parents_of_labels
parent_zone_candidates name = do
  normalized ← normalize_dns_hostname name
  named (parents_of_labels (split b'.' normalized))

unfoldable pub candidate_cloudflare_zone_names : Text → List Text → Named (List Text)
unfolding select_cloudflare_zone_name parent_zone_candidates
candidate_cloudflare_zone_names hostname names = do
  selected ← select_cloudflare_zone_name hostname names
  parents ← parent_zone_candidates selected
  named (unique_from [] (selected ∷ parents))
