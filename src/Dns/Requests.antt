-- ===== src/Dns/Requests.antt =====
-- The requests that the record operations are made of (src/switchboard-core/src/cloudflare-dns.ts).
use proof_cli_baran.Prelude.{
  ℕ, Bool, false, Option, none, some, List, [], ◌∷◌, if◌then◌else◌, all, find,
}
use proof_cli_baran.Prelude.Text.{Text, codes, text_eq}
use proof_cli_baran.Dns.Names.{
  Named, named, failing, unexpected_record_type, normalize_dns_hostname, normalize_dns_record_name,
}
use proof_cli_baran.Dns.Zones.{candidate_cloudflare_zone_names, infer_cloudflare_zone_name}
use proof_cli_baran.Dns.Api.{
  RecordType, type_a, type_txt, type_cname, type_aaaa, other_type, CloudflareZone,
  CloudflareRecordResponse, CloudflareDnsRecord, ApiRequest, get_zones, get_records, delete_record,
  CloudflareEnvelope, missing_token, zone_not_found, Api, err, Act, ◌>>=◌, return, throw, lift,
  read_response,
}

abbrev pub default_to {ℓ} : {A : Type ℓ} → A → Option A → A
default_to a none = a
default_to a (some b) = b

abbrev pub given : Option Text → Option Text
given none = none
given (some []) = none
given (some (c ∷ s)) = some (c ∷ s)

-- The name of a record of a type that is expected, normalised.
normalized_name : RecordType → Text → Named Text
normalized_name type_a name = normalize_dns_hostname name
normalized_name type_txt name = normalize_dns_record_name name
normalized_name type_cname name = normalize_dns_record_name name
normalized_name type_aaaa name = failing (unexpected_record_type (codes "AAAA"))
normalized_name (other_type t) name = failing (unexpected_record_type t)

abbrev proxied_of : RecordType → Option Bool → Option Bool
proxied_of type_a proxied = some (default_to false proxied)
proxied_of _ proxied = none

unfoldable pub to_dns_record : CloudflareRecordResponse → CloudflareZone → Named CloudflareDnsRecord
unfolding normalized_name
to_dns_record r zone = elim (normalized_name r.record_type r.name) [
  | failing e ↦ failing e
  | named n ↦ named (record {
    id = r.id;
    zone_id = default_to zone.id r.zone_id;
    zone_name = default_to zone.name r.zone_name;
    name = n;
    record_type = r.record_type;
    content = r.content;
    ttl = r.ttl;
    proxied = proxied_of r.record_type r.proxied;
  })
]

pub record RecordInput : Type 0 where
  pub api_token : Text
  pub hostname : Text
  pub content : Text
  pub zone_id : Option Text
  pub zone_name : Option Text
  pub zone_names : Option (List Text)
  pub ttl : Option ℕ
  pub proxied : Option Bool
  pub comment : Option Text

unfoldable pub zone_names_of : RecordInput → Text → Named (List Text)
zone_names_of input hostname = elim (given input.zone_name) [
  | some zone ↦ (elim (normalize_dns_hostname zone) [
    | failing e ↦ failing e
    | named z ↦ named (z ∷ [])
  ])
  | none ↦ elim (default_to [] input.zone_names) [
    | z ∷ zs ↦ candidate_cloudflare_zone_names hostname (z ∷ zs)
    | [] ↦ (elim (infer_cloudflare_zone_name hostname) [
      | failing e ↦ failing e
      | named z ↦ named (z ∷ [])
    ])
  ]
]

module _ {W Body : Type 0} (api : Api W Body) where
  unfoldable pub cloudflare_fetch :
      {A : Type 0} → (Body → Option (CloudflareEnvelope A)) → Text → ApiRequest → Act W A
  unfolding read_response
  cloudflare_fetch parse token request w =
      let (came, after) = api.http request w in
      if text_eq token []
      then (err missing_token, w)
      else (read_response api.excerpt parse request came, after)

  unfoldable pub list_cloudflare_dns_records :
      Text → Text → RecordType → Text → Act W (List CloudflareRecordResponse)
  list_cloudflare_dns_records token zone t hostname =
      cloudflare_fetch api.parse_records token (get_records zone t hostname)

  unfoldable pub delete_cloudflare_dns_record : Text → Text → Text → Act W (Unit {0})
  delete_cloudflare_dns_record token zone id =
      cloudflare_fetch api.parse_any token (delete_record zone id)

  -- The loop over the candidates for a zone's name; `all` are those that the error names.
  unfoldable pub find_zone : Text → List Text → List Text → Act W CloudflareZone
  find_zone token all [] = throw (zone_not_found all)
  find_zone token all (candidate ∷ more) = do
    zones ← cloudflare_fetch api.parse_zones token (get_zones candidate)
    elim (find (λ (z : CloudflareZone). text_eq z.name candidate) zones) [
      | some zone ↦ return zone
      | none ↦ find_zone token all more
    ]

  unfoldable pub resolve_cloudflare_zone : RecordInput → Text → Act W CloudflareZone
  unfolding zone_names_of
  resolve_cloudflare_zone input hostname = do
    names ← lift (zone_names_of input hostname)
    elim (given input.zone_id) [
      | some id ↦ return (record { id = id; name = elim names [ [] ↦ [] | n ∷ _ ↦ n ] })
      | none ↦ find_zone input.api_token names names
    ]
