-- ===== src/Dns/Longest.antt =====
-- The choice among configured zones (src/switchboard-core/src/cloudflare-dns.ts).
use proof_cli_baran.Prelude.{
  ◌≤◌, ◌≡◌, refl, sym, ◌∙◌, ◌≢◌, ◌⊎◌, inl, inr, true, false, not, none, some, List, [], ◌∷◌, map,
  arith, Bool-cases, length, any, keep, find, All, sort, insert_sorted, All-mono, List-cases,
}
use proof_cli_baran.Prelude.Text.{Text, text_eq, text_eq_refl, trim, unique_from}
use proof_cli_baran.Dns.Names.{
  Named, named, failing, DnsError, map_named, outside_zones, normalize_dns_hostname,
  normalize_dns_record_name,
}
use proof_cli_baran.Dns.Zones.{
  infer_cloudflare_zone_name, longer_first, normalized_zones, covers, zone_or_infer,
  select_cloudflare_zone_name,
}

-- From the longest to the shortest.
abbrev Falling : List Text → Type 0
Falling [] = Unit
Falling (x ∷ xs) = All (λ y. length y ≤ length x) xs × Falling xs

All-insert :
    (P : Text → Type 0) (a : Text) (xs : List Text)
    → P a
    → All P xs
    → All P (insert_sorted longer_first a xs)
unfolding insert_sorted
All-insert P a [] p h = (p, tt)
All-insert P a (x ∷ xs) p (q, h) = elim (Bool-cases (longer_first a x)) [
  | inl longer ↦ rw longer (p, (q, h))
  | inr shorter ↦ rw shorter (q, All-insert P a xs p h)
]

Falling-insert :
    (a : Text) (xs : List Text) → Falling xs → Falling (insert_sorted longer_first a xs)
unfolding insert_sorted
Falling-insert a [] f = (tt, tt)
Falling-insert a (x ∷ xs) (h, f) = elim (Bool-cases (longer_first a x)) [
  | inl longer ↦
      let ax : length x ≤ length a = ground arith in
      rw longer (
        (
          ax,
          All-mono (λ y. length y ≤ length x) (λ y. length y ≤ length a) (λ y k. omega arith) xs h,
        ),
        (h, f),
      )
  | inr shorter ↦
      let xa : length a ≤ length x = ground arith in
      rw shorter (All-insert (λ y. length y ≤ length x) a xs xa h, Falling-insert a xs f)
]

Falling-sort : (xs : List Text) → Falling (sort longer_first xs)
unfolding sort
Falling-sort [] = tt
Falling-sort (x ∷ xs) = Falling-insert x (sort longer_first xs) (Falling-sort xs)

-- A listed zone that covers the hostname, such that no listed zone that covers it is longer.
pub record IsLongest (hostname : Text) (zones : List Text) (z : Text) : Type 0 where
  pub covering : covers hostname z ≡ true
  pub listed : any (text_eq z) zones ≡ true
  pub longest : All (λ y. covers hostname y ≡ true → length y ≤ length z) zones

abbrev pub NotCovered : Text → Text → Type 0
NotCovered hostname y = covers hostname y ≡ false

find-IsLongest :
    (hostname : Text) (zones : List Text)
    → Falling zones
    → ((find (covers hostname) zones ≡ none) × All (NotCovered hostname) zones)
      ⊎ ((z : Text) × (find (covers hostname) zones ≡ some z) × IsLongest hostname zones z)
find-IsLongest hostname [] f = inl (refl, tt)
find-IsLongest hostname (x ∷ xs) (h, f) = elim (Bool-cases (covers hostname x)) [
  | inl covered ↦ inr (
    x,
    rw covered,
    record {
      covering = covered;
      listed = rw (text_eq_refl x);
      longest = (
        λ _. omega arith,
        All-mono (λ y. length y ≤ length x) (λ y. covers hostname y ≡ true → length y ≤ length x)
            (λ y k _. k) xs h,
      );
    },
  )
  | inr uncovered ↦ elim (find-IsLongest hostname xs f) [
    | inl (none_found, others) ↦ inl (rw uncovered none_found, (uncovered, others))
    | inr (z, found, l) ↦ inr (
      z,
      rw uncovered found,
      record {
        covering = l.covering;
        listed = let k = l.listed in ground arith;
        longest = (λ covered. absurd (cc (sym uncovered ∙ covered)), l.longest);
      },
    )
  ]
]

named-cases {ℓ} :
    {A : Type ℓ} (m : Named A) → ((a : A) × (m ≡ named a)) ⊎ ((e : DnsError) × (m ≡ failing e))
named-cases (named a) = inl (a, refl)
named-cases (failing e) = inr (e, refl)

normalized_zones-Falling :
    (names zones : List Text) → normalized_zones names ≡ named zones → Falling zones
unfolding normalized_zones
normalized_zones-Falling names zones e =
    elim (named-cases
      (map_named normalize_dns_hostname (keep (λ n. not (text_eq n [])) (map trim names)))) [
        | inr (r, bad) ↦ absurd (cc (rw bad at e))
        | inl (valid, fine) ↦
            let sorted : sort longer_first (unique_from [] valid) ≡ zones = cc (rw fine at e) in
            rw (← sorted) (Falling-sort (unique_from [] valid))
      ]

-- A hostname and configured zones that are valid names have one of three outcomes. Where no zone is
-- configured, the zone is inferred from the name; where one covers the hostname, the selected zone is
-- a configured one that covers it, and no longer one does; otherwise the selection fails.
pub select_cloudflare_zone_name_outcome :
    (hostname normalized : Text) (names zones : List Text)
    → normalize_dns_record_name hostname ≡ named normalized
    → normalized_zones names ≡ named zones
    → ((zones ≡ [])
        × (select_cloudflare_zone_name hostname names ≡ infer_cloudflare_zone_name normalized))
      ⊎ ((z : Text) × (select_cloudflare_zone_name hostname names ≡ named z)
          × IsLongest normalized zones z)
      ⊎ ((zones ≢ [])
          × All (NotCovered normalized) zones
          × (select_cloudflare_zone_name hostname names ≡ failing (outside_zones hostname)))
unfolding select_cloudflare_zone_name zone_or_infer
select_cloudflare_zone_name_outcome hostname normalized names zones valid configured =
    elim (find-IsLongest normalized zones (normalized_zones-Falling names zones configured)) [
      | inr (z, found, l) ↦ inr (inl (z, rw (valid, configured, found), l))
      | inl (none_found, others) ↦ elim (List-cases zones) [
        | inl nothing ↦ inl (nothing, rw (valid, configured, none_found, nothing))
        | inr (first, rest, e) ↦ inr (
            inr
              (λ empty. absurd (cc (sym e ∙ empty)), others, rw (valid, configured, none_found, e)))
      ]
    ]
