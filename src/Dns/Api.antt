-- ===== src/Dns/Api.antt =====
-- Requests to Cloudflare (src/switchboard-core/src/cloudflare-dns.ts). The state of the outside is a
-- parameter, with what a request gives and does to it and what `JSON.parse` makes of the text of a
-- response, which is a parameter too.
use proof_cli_baran.Prelude.{
  ℕ, Bool, true, false, not, ◌||◌, Option, none, some, List, [], ◌∷◌, if◌then◌else◌,
}
use proof_cli_baran.Prelude.Text.{Text}
use proof_cli_baran.Dns.Names.{Named, named, failing, DnsError}

pub data RecordType : Type 0 where
  type_a type_txt type_cname type_aaaa : RecordType
  other_type : Text → RecordType

pub record CloudflareZone : Type 0 where
  pub id : Text
  pub name : Text

pub record CloudflareRecordResponse : Type 0 where
  pub id : Text
  pub zone_id : Option Text
  pub zone_name : Option Text
  pub name : Text
  pub record_type : RecordType
  pub content : Text
  pub ttl : ℕ
  pub proxied : Option Bool

pub record CloudflareDnsRecord : Type 0 where
  pub id : Text
  pub zone_id : Text
  pub zone_name : Text
  pub name : Text
  pub record_type : RecordType
  pub content : Text
  pub ttl : ℕ
  pub proxied : Option Bool

-- The body of a request.
pub record RecordPayload : Type 0 where
  pub record_type : RecordType
  pub name : Text
  pub content : Text
  pub ttl : ℕ
  pub proxied : Option Bool
  pub comment : Option Text

-- The requests that the program makes, each with its path, method and body.
pub data ApiRequest : Type 0 where
  get_zones : Text → ApiRequest
  get_records : Text → RecordType → Text → ApiRequest
  post_record : Text → RecordPayload → ApiRequest
  patch_record : Text → Text → RecordPayload → ApiRequest
  delete_record : Text → Text → ApiRequest

pub record ApiError : Type 0 where
  pub code : Option ℕ
  pub message : Option Text

pub record CloudflareEnvelope (A : Type 0) : Type 0 where
  pub success : Option Bool
  pub errors : List ApiError
  pub result : A

pub data Detail : Type 0 where
  listed : List ApiError → Detail
  raw_start : Text → Detail

pub data CloudflareError : Type 0 where
  missing_token : CloudflareError
  request_failed : Text → CloudflareError
  api_failed : ApiRequest → ℕ → Detail → CloudflareError
  zone_not_found : List Text → CloudflareError
  dns : DnsError → CloudflareError

-- A response with its text, or why there is none.
pub data HttpResponse (Body : Type 0) : Type 0 where
  response : Bool → ℕ → Body → HttpResponse Body
  no_response : Text → HttpResponse Body

-- `excerpt` is `slice(0, 500)` of a text.
pub record Api (W Body : Type 0) : Type 0 where
  pub http : ApiRequest → W → HttpResponse Body × W
  pub excerpt : Body → Text
  pub parse_zones : Body → Option (CloudflareEnvelope (List CloudflareZone))
  pub parse_records : Body → Option (CloudflareEnvelope (List CloudflareRecordResponse))
  pub parse_record : Body → Option (CloudflareEnvelope CloudflareRecordResponse)
  pub parse_any : Body → Option (CloudflareEnvelope (Unit {0}))

pub data Reply (A : Type 0) : Type 0 where
  ok : A → Reply A
  err : CloudflareError → Reply A

-- An operation on the outside.
abbrev pub Act : Type 0 → Type 0 → Type 0
Act W A = W → Reply A × W

abbrev then_act : {W A B : Type 0} → (A → Act W B) → Reply A → Act W B
then_act f (ok a) w = f a w
then_act f (err e) w = (err e, w)

infixl 5 ◌>>=◌
unfoldable pub ◌>>=◌ : {W A B : Type 0} → Act W A → (A → Act W B) → Act W B
(m >>= f) w = then_act f (m w).0 (m w).1

unfoldable pub return : {W A : Type 0} → A → Act W A
return a w = (ok a, w)

unfoldable pub throw : {W A : Type 0} → CloudflareError → Act W A
throw e w = (err e, w)

unfoldable pub lift : {W A : Type 0} → Named A → Act W A
lift (named a) w = (ok a, w)
lift (failing e) w = (err (dns e), w)

abbrev pub is_failure : Option Bool → Bool
is_failure (some false) = true
is_failure (some true) = false
is_failure none = false

abbrev detail_of : List ApiError → Text → Detail
detail_of [] start = raw_start start
detail_of (e ∷ es) start = listed (e ∷ es)

-- The reply that a response stands for.
unfoldable pub read_response :
    {A Body : Type 0}
    → (Body → Text)
    → (Body → Option (CloudflareEnvelope A))
    → ApiRequest
    → HttpResponse Body
    → Reply A
read_response excerpt parse request (no_response why) = err (request_failed why)
read_response excerpt parse request (response success status raw) = elim (parse raw) [
  | none ↦ err (api_failed request status (raw_start (excerpt raw)))
  | some envelope ↦
      if not success || is_failure envelope.success
      then err (api_failed request status (detail_of envelope.errors (excerpt raw)))
      else ok envelope.result
]
