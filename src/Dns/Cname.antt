-- ===== src/Dns/Cname.antt =====
-- What the upsert of a CNAME record leaves in its zone.
use proof_cli_baran.Prelude.{◌≡◌, ◌⊎◌, true, List, keep, Listed}
use proof_cli_baran.Prelude.Text.{Text}
use proof_cli_baran.Dns.Api.{type_cname, CloudflareRecordResponse, Api}
use proof_cli_baran.Dns.Records.{is_at, is_elsewhere}
use proof_cli_baran.Dns.ZoneLaws.{ZoneLaws}
use proof_cli_baran.Dns.Clearing.{NoAddress}

-- The zone has the record, and it is a CNAME of the content at the name.
abbrev pub HasCname :
    CloudflareRecordResponse → Text → Text → List CloudflareRecordResponse → Type 0
HasCname r hostname content rs =
    Listed r rs × (is_at type_cname hostname r ≡ true) × (r.content ≡ content)

module _ {W Body : Type 0} (api : Api W Body) (records : Text → W → List CloudflareRecordResponse)
    (laws : ZoneLaws api records) where
  -- What a zone has after a CNAME was written, by what it had before.
  abbrev pub Settled :
      CloudflareRecordResponse
      → Text
      → Text
      → List CloudflareRecordResponse
      → List CloudflareRecordResponse
      → Type 0
  Settled r hostname content before after =
      HasCname r hostname content after
      × (keep (is_elsewhere hostname) after ≡ keep (is_elsewhere hostname) before)
      × (((r : CloudflareRecordResponse) × Listed r before × (is_at type_cname hostname r ≡ true))
          ⊎ NoAddress hostname after)
