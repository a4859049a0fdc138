-- ===== src/Dns/Clearing.antt =====
-- What the operations on records do to a zone: those that read leave it as it is, and clearing takes
-- the records of a type at a name.
use proof_cli_baran.Prelude.{
  ◌≤◌, ◌≡◌, sym, ap, ◌∙◌, inl, inr, Bool, false, not, List, [], ◌∷◌, arith, Option-cases, length,
  keep, find, Listed,
}
use proof_cli_baran.Prelude.Text.{Text, text_eq, mem_text}
use proof_cli_baran.Prelude.Keep.{
  Listed-keep, length-keep-keep, keep-keep, take_all, keep_all, keep_ext,
}
use proof_cli_baran.Dns.Api.{
  RecordType, CloudflareRecordResponse, CloudflareZone, get_zones, get_records, delete_record, Api,
  ok, return, throw, type_a, type_aaaa,
}
use proof_cli_baran.Dns.Requests.{
  RecordInput, list_cloudflare_dns_records, delete_cloudflare_dns_record, find_zone,
  resolve_cloudflare_zone, given, zone_names_of,
}
use proof_cli_baran.Dns.Upsert.{clear_conflicts, delete_all, clear_records}
use proof_cli_baran.Dns.Records.{
  is_elsewhere, IdsUnique, without-none, without-elsewhere, is_at, without,
}
use proof_cli_baran.Dns.ZoneLaws.{ZoneLaws, act_binds, act-ok, lift-ok, fetch-ok}

-- No record of the list is an address at the name.
abbrev pub NoAddress : Text → List CloudflareRecordResponse → Type 0
NoAddress hostname rs =
    (r : CloudflareRecordResponse)
    → Listed r rs
    → (is_at type_a hostname r ≡ false) × (is_at type_aaaa hostname r ≡ false)

-- A list of the records of one type at the name has all of them.
abbrev pub Few : Text → List CloudflareRecordResponse → Type 0
Few hostname rs = (t : RecordType) → length (keep (is_at t hostname) rs) ≤ 50

module _ {W Body : Type 0} (api : Api W Body) (records : Text → W → List CloudflareRecordResponse)
    (laws : ZoneLaws api records) where
  find_zone-reads :
      (token : Text) (every names : List Text) (w w' : W) (zone : CloudflareZone) (z : Text)
      → find_zone api token every names w ≡ (ok zone, w')
      → records z w' ≡ records z w
  unfolding find_zone return throw
  find_zone-reads token every [] w w' zone z h = absurd (cc h)
  find_zone-reads token every (n ∷ ns) w w' zone z h = elim (act-ok _ _ w zone w' h) [
    | act_binds zones v listed h1 ↦
        let (_, e) = fetch-ok api _ token (get_zones n) w v zones listed in
        let same : records z v ≡ records z w = rw (← e) (laws.zones_read n z w) in
        elim (Option-cases (find (λ (c : CloudflareZone). text_eq c.name n) zones)) [
          | inl missing ↦ find_zone-reads token every ns v w' zone z (rw missing at h1) ∙ same
          | inr (found, there) ↦ let e' : v ≡ w' = cc (rw there at h1) in rw (← e') same
        ]
  ]

  pub resolve_cloudflare_zone-reads :
      (input : RecordInput) (hostname : Text) (w w' : W) (zone : CloudflareZone) (z : Text)
      → resolve_cloudflare_zone api input hostname w ≡ (ok zone, w')
      → records z w' ≡ records z w
  unfolding resolve_cloudflare_zone return
  resolve_cloudflare_zone-reads input hostname w w' zone z h = elim (act-ok _ _ w zone w' h) [
    | act_binds names v lifted h1 ↦
        let (_, e) = lift-ok (zone_names_of input hostname) w v names lifted in
        elim (Option-cases (given input.zone_id)) [
          | inl unknown ↦
              rw e (find_zone-reads input.api_token names names v w' zone z (rw unknown at h1))
          | inr (id, known) ↦ let e' : v ≡ w' = cc (rw known at h1) in ap (records z) (sym (e ∙ e'))
        ]
  ]

  pub list-lists :
      (token zone hostname : Text) (t : RecordType) (w w' : W) (rs : List CloudflareRecordResponse)
      → list_cloudflare_dns_records api token zone t hostname w ≡ (ok rs, w')
      → length (keep (is_at t hostname) (records zone w)) ≤ 50
      → (rs ≡ keep (is_at t hostname) (records zone w)) × (records zone w' ≡ records zone w)
  unfolding list_cloudflare_dns_records
  list-lists token zone hostname t w w' rs h few =
      let (reply, e) =
        fetch-ok api api.parse_records token (get_records zone t hostname) w w' rs h in
      (
        laws.lists zone hostname t w rs reply
            ∙ take_all 50 (keep (is_at t hostname) (records zone w)) few,
        rw (← e) (laws.list_read zone hostname t w),
      )

  delete_all-without :
      (token zone : Text) (rs : List CloudflareRecordResponse) (w w' : W) (u : Unit {0})
      → delete_all api token zone rs w ≡ (ok u, w')
      → records zone w' ≡ keep (without rs) (records zone w)
  unfolding delete_all delete_cloudflare_dns_record return mem_text
  delete_all-without token zone [] w w' u h =
      let e : w ≡ w' = cc h in rw (← e) (sym (keep_all (records zone w)))
  delete_all-without token zone (r ∷ rs) w w' u h = elim (act-ok _ _ w u w' h) [
    | act_binds x v deleted h1 ↦
        let (reply, e) = fetch-ok api api.parse_any token (delete_record zone r.id) w v x deleted in
        let one : records zone v ≡ keep (λ s. not (text_eq s.id r.id)) (records zone w) =
          rw (← e) (laws.deletes zone r.id w x reply) in
        delete_all-without token zone rs v w' u h1
        ∙ ap (keep (without rs)) one
        ∙ keep-keep (without rs) (λ s. not (text_eq s.id r.id)) (records zone w)
        ∙ keep_ext _ (without (r ∷ rs)) (λ s. ground arith) (records zone w)
  ]

  pub clear_records-without :
      (token zone hostname : Text) (t : RecordType) (w w' : W) (u : Unit {0})
      → clear_records api token zone hostname t w ≡ (ok u, w')
      → length (keep (is_at t hostname) (records zone w)) ≤ 50
      → records zone w' ≡ keep (without (keep (is_at t hostname) (records zone w))) (records zone w)
  unfolding clear_records
  clear_records-without token zone hostname t w w' u h few = elim (act-ok _ _ w u w' h) [
    | act_binds rs v listed h1 ↦
        let (e, same) = list-lists token zone hostname t w v rs listed few in
        rw (← e, ← same) (delete_all-without token zone rs v w' u h1)
  ]

  pub clear_conflicts-clears :
      (token zone hostname : Text) (w w' : W) (u : Unit {0})
      → clear_conflicts api token zone hostname [] w ≡ (ok u, w')
      → IdsUnique (records zone w)
      → Few hostname (records zone w)
      → NoAddress hostname (records zone w')
        × (keep (is_elsewhere hostname) (records zone w')
            ≡ keep (is_elsewhere hostname) (records zone w))
  unfolding clear_conflicts
  clear_conflicts-clears token zone hostname w w' u h unique few = elim (act-ok _ _ w u w' h) [
    | act_binds x v first h1 ↦
        let R : List CloudflareRecordResponse = records zone w in
        let gone : CloudflareRecordResponse → Bool = without (keep (is_at type_a hostname) R) in
        let e1 : records zone v ≡ keep gone R =
          clear_records-without token zone hostname type_a w v x first (few type_a) in
        let few' : length (keep (is_at type_aaaa hostname) (records zone v)) ≤ 50 = rw e1 (
          let l = length-keep-keep (is_at type_aaaa hostname) gone R in
          let f = few type_aaaa in omega arith) in
        let e2 = clear_records-without token zone hostname type_aaaa v w' u h1 few' in
        let unique' : IdsUnique (records zone v) =
          rw e1 (λ r s lr ls. unique r s (Listed-keep gone R r lr).0 (Listed-keep gone R s ls).0) in
        (
          λ r l.
              let l2 = rw e2 at l in
              let l1 =
                (Listed-keep (without (keep (is_at type_aaaa hostname) (records zone v)))
                  (records zone v) r l2).0 in
              (
                without-none type_a hostname R r (rw e1 at l1),
                without-none type_aaaa hostname (records zone v) r l2,
              ),
          ap (keep (is_elsewhere hostname)) e2
              ∙ without-elsewhere type_aaaa hostname (records zone v) unique'
              ∙ ap (keep (is_elsewhere hostname)) e1
              ∙ without-elsewhere type_a hostname R unique,
        )
  ]
