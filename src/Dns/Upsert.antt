-- ===== src/Dns/Upsert.antt =====
-- The operations on DNS records (src/switchboard-core/src/cloudflare-dns.ts).
use proof_cli_baran.Prelude.{false, none, some, List, [], ◌∷◌}
use proof_cli_baran.Prelude.Text.{Text}
use proof_cli_baran.Dns.Names.{normalize_dns_hostname, normalize_dns_record_name}
use proof_cli_baran.Dns.Api.{
  RecordType, type_a, type_txt, type_cname, type_aaaa, CloudflareRecordResponse,
  CloudflareDnsRecord, RecordPayload, post_record, patch_record, Api, Act, ◌>>=◌, return, lift,
}
use proof_cli_baran.Dns.Requests.{
  given, default_to, to_dns_record, RecordInput, cloudflare_fetch, list_cloudflare_dns_records,
  delete_cloudflare_dns_record, resolve_cloudflare_zone,
}

module _ {W Body : Type 0} (api : Api W Body) where
  unfoldable pub payload_of : RecordType → RecordInput → Text → Text → RecordPayload
  payload_of t input hostname content = record {
    record_type = t;
    name = hostname;
    content = content;
    ttl = default_to 60 input.ttl;
    proxied = elim t [ type_a ↦ some (default_to false input.proxied) | _ ↦ none ];
    comment = given input.comment;
  }

  -- The first of the existing records is changed; without one a record is made.
  unfoldable pub write_record :
      Text → Text → List CloudflareRecordResponse → RecordPayload → Act W CloudflareRecordResponse
  write_record token zone [] payload =
      cloudflare_fetch api api.parse_record token (post_record zone payload)
  write_record token zone (r ∷ rs) payload =
      cloudflare_fetch api api.parse_record token (patch_record zone r.id payload)

  unfoldable pub upsert_cloudflare_a_record : RecordInput → Act W CloudflareDnsRecord
  unfolding payload_of write_record
  upsert_cloudflare_a_record input = do
    hostname ← lift (normalize_dns_hostname input.hostname)
    zone ← resolve_cloudflare_zone api input hostname
    existing ← list_cloudflare_dns_records api input.api_token zone.id type_a hostname
    r ←
        write_record input.api_token zone.id existing
          (payload_of type_a input hostname input.content)
    lift (to_dns_record r zone)

  unfoldable pub create_cloudflare_txt_record : RecordInput → Act W CloudflareDnsRecord
  unfolding payload_of write_record
  create_cloudflare_txt_record input = do
    hostname ← lift (normalize_dns_record_name input.hostname)
    zone ← resolve_cloudflare_zone api input hostname
    r ← write_record input.api_token zone.id [] (payload_of type_txt input hostname input.content)
    lift (to_dns_record r zone)

  unfoldable pub delete_all : Text → Text → List CloudflareRecordResponse → Act W (Unit {0})
  delete_all token zone [] = return tt
  delete_all token zone (r ∷ rs) = do
    _ ← delete_cloudflare_dns_record api token zone r.id
    delete_all token zone rs

  -- The records of one type at a name are listed and deleted.
  unfoldable pub clear_records : Text → Text → Text → RecordType → Act W (Unit {0})
  clear_records token zone hostname t = do
    conflicting ← list_cloudflare_dns_records api token zone t hostname
    delete_all token zone conflicting

  -- Before a CNAME is made, the addresses at its name are cleared.
  unfoldable pub clear_conflicts :
      Text → Text → Text → List CloudflareRecordResponse → Act W (Unit {0})
  clear_conflicts token zone hostname (r ∷ rs) = return tt
  clear_conflicts token zone hostname [] = do
    _ ← clear_records token zone hostname type_a
    clear_records token zone hostname type_aaaa

  unfoldable pub upsert_cloudflare_cname_record : RecordInput → Act W CloudflareDnsRecord
  upsert_cloudflare_cname_record input = do
    hostname ← lift (normalize_dns_record_name input.hostname)
    content ← lift (normalize_dns_record_name input.content)
    zone ← resolve_cloudflare_zone api input hostname
    existing ← list_cloudflare_dns_records api input.api_token zone.id type_cname hostname
    _ ← clear_conflicts input.api_token zone.id hostname existing
    r ← write_record input.api_token zone.id existing (payload_of type_cname input hostname content)
    lift (to_dns_record r zone)
