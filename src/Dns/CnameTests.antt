-- ===== src/Dns/CnameTests.antt =====
-- The upsert of a CNAME at a server that keeps the records of one zone.
use proof_cli_baran.Dns.Api.{CloudflareRecordResponse}
use proof_cli_baran.Prelude.{
  true, not, Option, none, some, List, [], ◌∷◌, ◌++◌, map, if◌then◌else◌, take, keep,
}
use proof_cli_baran.Prelude.Text.{Text, codes, text_eq}
use proof_cli_baran.Dns.Api.{
  RecordType, type_a, type_cname, CloudflareZone, CloudflareRecordResponse, CloudflareDnsRecord,
  CloudflareEnvelope, RecordPayload, ApiRequest, get_zones, get_records, post_record, patch_record,
  delete_record, HttpResponse, response, Api,
}
use proof_cli_baran.Dns.Requests.{RecordInput}
use proof_cli_baran.Dns.Records.{is_at}
use proof_cli_baran.Dns.ZoneLaws.{ZoneLaws}

-- What the text of a response holds.
data Body : Type 0 where
  zones_body : List CloudflareZone → Body
  records_body : List CloudflareRecordResponse → Body
  record_body : CloudflareRecordResponse → Body
  empty_body : Body

abbrev Records : Type 0
Records = List CloudflareRecordResponse

abbrev success : {A : Type 0} → A → Option (CloudflareEnvelope A)
success a = some (record { success = some true; errors = []; result = a })

abbrev made : Text → RecordPayload → CloudflareRecordResponse
made id p = record {
  id = id;
  zone_id = none;
  zone_name = none;
  name = p.name;
  record_type = p.record_type;
  content = p.content;
  ttl = p.ttl;
  proxied = p.proxied;
}

-- A new record gets an id that is longer than all others.
abbrev fresh_id : Records → Text
fresh_id [] = b'n' ∷ []
fresh_id (r ∷ rs) = r.id ++ fresh_id rs

abbrev serve : ApiRequest → Records → HttpResponse Body × Records
serve (get_zones name) rs =
    (response true 200 (zones_body (record { id = codes "z"; name = name } ∷ [])), rs)
serve (get_records zone t hostname) rs =
    (response true 200 (records_body (take 50 (keep (is_at t hostname) rs))), rs)
serve (post_record zone p) rs =
    (response true 200 (record_body (made (fresh_id rs) p)), rs ++ made (fresh_id rs) p ∷ [])
serve (patch_record zone id p) rs = (
  response true 200 (record_body (made id p)),
  map (λ s. if text_eq s.id id then made id p else s) rs,
)
serve (delete_record zone id) rs =
    (response true 200 empty_body, keep (λ r. not (text_eq r.id id)) rs)

abbrev server : Api Records Body
server = record {
  http = serve;
  excerpt = λ _. [];
  parse_zones = λ b. elim b [ zones_body zs ↦ success zs | _ ↦ none ];
  parse_records = λ b. elim b [ records_body rs ↦ success rs | _ ↦ none ];
  parse_record = λ b. elim b [ record_body r ↦ success r | _ ↦ none ];
  parse_any = λ _. success tt;
}

abbrev kept_by : Text → Records → Records
kept_by zone rs = rs

abbrev host : Text
host = codes "a.example.com"

abbrev target : Text
target = codes "edge.example.net"

abbrev payload : RecordType → Text → RecordPayload
payload t name = record {
  record_type = t;
  name = name;
  content = codes "10.0.0.1";
  ttl = 60;
  proxied = none;
  comment = none;
}

abbrev address : CloudflareRecordResponse
address = made (codes "1") (payload type_a host)

abbrev another : CloudflareRecordResponse
another = made (codes "2") (payload type_a (codes "b.example.com"))

abbrev zone_records : Records
zone_records = address ∷ another ∷ []

abbrev input : RecordInput
input = record {
  api_token = codes "secret";
  hostname = codes "A.example.com";
  content = codes "Edge.example.net.";
  zone_id = none;
  zone_name = none;
  zone_names = none;
  ttl = none;
  proxied = none;
  comment = none;
}

abbrev zone_after : Records
zone_after =
    another ∷ made (codes "2n") (record (payload type_cname host) { content = target }) ∷ []

abbrev result : CloudflareDnsRecord
result = record {
  id = codes "2n";
  zone_id = codes "z";
  zone_name = codes "example.com";
  name = host;
  record_type = type_cname;
  content = target;
  ttl = 60;
  proxied = none;
}
