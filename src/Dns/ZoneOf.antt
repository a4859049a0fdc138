-- ===== src/Dns/ZoneOf.antt =====
-- Which zone a hostname is resolved to (src/switchboard-core/src/cloudflare-dns.ts).
use proof_cli_baran.Prelude.{
  ◌≡◌, ap, ◌∙◌, inl, inr, Bool, true, none, some, List, [], ◌∷◌, Bool-cases, Option-cases, find,
  Listed, listed_first, listed_later,
}
use proof_cli_baran.Prelude.Text.{Text, text_eq, text_eq_iff}
use proof_cli_baran.Dns.Names.{named}
use proof_cli_baran.Dns.Api.{Api, CloudflareZone, ok, get_zones, read_response, return, throw}
use proof_cli_baran.Dns.Requests.{
  RecordInput, find_zone, resolve_cloudflare_zone, given, zone_names_of,
}
use proof_cli_baran.Dns.ZoneLaws.{act_binds, act-ok, lift-ok, fetch-ok}

find-Listed {ℓ} :
    {A : Type ℓ} (p : A → Bool) (xs : List A) (x : A)
    → find p xs ≡ some x
    → Listed x xs × (p x ≡ true)
find-Listed p [] x h = absurd (cc h)
find-Listed p (y ∷ ys) x h = elim (Bool-cases (p y)) [
  | inl here ↦ let e : y ≡ x = cc (rw (here, find) at h) in rw (← e) (listed_first, here)
  | inr past ↦ let (l, q) = find-Listed p ys x (rw (past, find) at h) in (listed_later l, q)
]

module _ {W Body : Type 0} (api : Api W Body) where
  -- A zone that a request for its name was answered with.
  pub record Answered (zone : CloudflareZone) : Type 0 where
    pub state : W
    pub zones : List CloudflareZone
    pub answer :
        read_response api.excerpt api.parse_zones
          (get_zones zone.name)
          (api.http (get_zones zone.name) state).0
        ≡ ok zones
    pub listed : Listed zone zones

  -- The zone that an input names by its id, or one that was looked up by one of the names that the input
  -- and the hostname leave.
  pub data IsZoneOf (input : RecordInput) (hostname : Text) (zone : CloudflareZone) : Type 0 where
    given_id : given input.zone_id ≡ some zone.id → IsZoneOf input hostname zone
    looked_up :
        (names : List Text)
        → given input.zone_id ≡ none
        → zone_names_of input hostname ≡ named names
        → Listed zone.name names
        → Answered zone
        → IsZoneOf input hostname zone

  find_zone-Answered :
      (token : Text) (every names : List Text) (w w' : W) (zone : CloudflareZone)
      → find_zone api token every names w ≡ (ok zone, w')
      → Listed zone.name names × Answered zone
  unfolding find_zone return throw
  find_zone-Answered token every [] w w' zone h = absurd (cc h)
  find_zone-Answered token every (n ∷ ns) w w' zone h = elim (act-ok _ _ w zone w' h) [
    | act_binds zones v listed h1 ↦
        let (reply, e) = fetch-ok api _ token (get_zones n) w v zones listed in
        elim (Option-cases (find (λ (c : CloudflareZone). text_eq c.name n) zones)) [
          | inl missing ↦
              let (l, a) = find_zone-Answered token every ns v w' zone (rw missing at h1) in
              (listed_later l, a)
          | inr (found, there) ↦
              let same : found ≡ zone = cc (rw there at h1) in
              let (l, named_n) =
                find-Listed (λ (c : CloudflareZone). text_eq c.name n) zones zone
                  (there ∙ ap some same) in
              let e_n : zone.name ≡ n = (text_eq_iff zone.name n).0 named_n in
              (
                rw e_n listed_first,
                record { state = w; zones = zones; answer = rw e_n reply; listed = l },
              )
        ]
  ]

  pub resolve_cloudflare_zone-IsZoneOf :
      (input : RecordInput) (hostname : Text) (w w' : W) (zone : CloudflareZone)
      → resolve_cloudflare_zone api input hostname w ≡ (ok zone, w')
      → IsZoneOf input hostname zone
  unfolding resolve_cloudflare_zone return
  resolve_cloudflare_zone-IsZoneOf input hostname w w' zone h = elim (act-ok _ _ w zone w' h) [
    | act_binds names v lifted h1 ↦
        let (n, e) = lift-ok (zone_names_of input hostname) w v names lifted in
        elim (Option-cases (given input.zone_id)) [
          | inl unknown ↦
              let (l, a) =
                find_zone-Answered input.api_token names names v w' zone (rw unknown at h1) in
              looked_up names unknown n l a
          | inr (id, known) ↦
              let same : id ≡ zone.id = cc (rw known at h1) in given_id (known ∙ ap some same)
        ]
  ]
