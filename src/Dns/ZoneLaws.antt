-- ===== src/Dns/ZoneLaws.antt =====
-- What the requests to Cloudflare do to the records of a zone, and what the operations make of it.
use proof_cli_baran.Prelude.{
  ◌≡◌, refl, ap, ◌⊎◌, inl, inr, not, Option, List, [], ◌∷◌, ◌++◌, map, if◌then◌else◌, Bool-cases,
  take, keep,
}
use proof_cli_baran.Prelude.Text.{Text, text_eq}
use proof_cli_baran.Dns.Api.{
  CloudflareError, RecordType, CloudflareRecordResponse, CloudflareEnvelope, RecordPayload,
  ApiRequest, get_zones, get_records, post_record, patch_record, delete_record, Api, Reply, ok, err,
  Act, ◌>>=◌, lift, read_response,
}
use proof_cli_baran.Dns.Names.{Named, named, failing}
use proof_cli_baran.Dns.Requests.{cloudflare_fetch}
use proof_cli_baran.Dns.Records.{is_at}

-- A record is what a payload asked for.
abbrev pub Written : RecordPayload → CloudflareRecordResponse → Type 0
Written p r = (r.record_type ≡ p.record_type) × (r.name ≡ p.name) × (r.content ≡ p.content)

-- The documented behaviour of the requests: reading changes nothing, a list has the first 50 records of
-- a type at a name, and a write that is answered with success has been made.
pub record ZoneLaws {W Body : Type 0} (api : Api W Body)
    (records : Text → W → List CloudflareRecordResponse) : Type 0 where
  pub zones_read :
      (name zone : Text) (w : W) → records zone (api.http (get_zones name) w).1 ≡ records zone w
  pub list_read :
      (zone hostname : Text) (t : RecordType) (w : W)
      → records zone (api.http (get_records zone t hostname) w).1 ≡ records zone w
  pub lists :
      (zone hostname : Text) (t : RecordType) (w : W) (rs : List CloudflareRecordResponse)
      → read_response api.excerpt api.parse_records
          (get_records zone t hostname)
          (api.http (get_records zone t hostname) w).0
        ≡ ok rs
      → rs ≡ take 50 (keep (is_at t hostname) (records zone w))
  pub deletes :
      (zone id : Text) (w : W) (u : Unit {0})
      → read_response api.excerpt api.parse_any
          (delete_record zone id)
          (api.http (delete_record zone id) w).0
        ≡ ok u
      → records zone (api.http (delete_record zone id) w).1
        ≡ keep (λ r. not (text_eq r.id id)) (records zone w)
  pub posts :
      (zone : Text) (p : RecordPayload) (w : W) (r : CloudflareRecordResponse)
      → read_response api.excerpt api.parse_record
          (post_record zone p)
          (api.http (post_record zone p) w).0
        ≡ ok r
      → Written p r × (records zone (api.http (post_record zone p) w).1 ≡ records zone w ++ r ∷ [])
  pub patches :
      (zone id : Text) (p : RecordPayload) (w : W) (r : CloudflareRecordResponse)
      → read_response api.excerpt api.parse_record
          (patch_record zone id p)
          (api.http (patch_record zone id p) w).0
        ≡ ok r
      → Written p r
        × (records zone (api.http (patch_record zone id p) w).1
            ≡ map (λ s. if text_eq s.id id then r else s) (records zone w))

-- What an operation and the one after it gave.
pub data ActBinds {W A B : Type 0} (m : Act W A) (f : A → Act W B) (w : W) (b : B) (w' : W)
    : Type 0 where
  act_binds : (a : A) (v : W) → m w ≡ (ok a, v) → f a v ≡ (ok b, w') → ActBinds m f w b w'

pub Reply-cases :
    {A : Type 0} (r : Reply A) → ((a : A) × (r ≡ ok a)) ⊎ ((e : CloudflareError) × (r ≡ err e))
Reply-cases (ok a) = inl (a, refl)
Reply-cases (err e) = inr (e, refl)

pub act-ok :
    {W A B : Type 0} (m : Act W A) (f : A → Act W B) (w : W) (b : B) (w' : W)
    → (m >>= f) w ≡ (ok b, w')
    → ActBinds m f w b w'
unfolding ◌>>=◌
act-ok m f w b w' h = elim (Reply-cases (m w).0) [
  | inl (a, e) ↦ act_binds a (m w).1 (cc e) (rw e at h)
  | inr (x, e) ↦ absurd (cc (rw e at h))
]

pub lift-ok :
    {W A : Type 0} (m : Named A) (w w' : W) (a : A)
    → lift m w ≡ (ok a, w')
    → (m ≡ named a) × (w ≡ w')
unfolding lift
lift-ok (named b) w w' a h = let e : b ≡ a = cc h in (ap named e, cc h)
lift-ok (failing x) w w' a h = absurd (cc h)

module _ {W Body : Type 0} (api : Api W Body) where
  pub fetch-ok :
      {A : Type 0} (parse : Body → Option (CloudflareEnvelope A)) (token : Text)
      (request : ApiRequest) (w w' : W) (a : A)
      → cloudflare_fetch api parse token request w ≡ (ok a, w')
      → (read_response api.excerpt parse request (api.http request w).0 ≡ ok a)
        × ((api.http request w).1 ≡ w')
  unfolding cloudflare_fetch
  fetch-ok parse token request w w' a h = elim (Bool-cases (text_eq token [])) [
    | inl empty ↦ absurd (cc (rw (empty, cloudflare_fetch) at h))
    | inr fine ↦ let g = rw (fine, cloudflare_fetch) at h in (cc g, cc g)
  ]
