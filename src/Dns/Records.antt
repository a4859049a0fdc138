-- ===== src/Dns/Records.antt =====
-- The records of a zone, as lists.
use proof_cli_baran.Prelude.{
  ◌≡◌, inl, inr, Bool, true, false, not, ◌&&◌, List, [], ◌∷◌, map, arith, Bool-cases, keep, Listed,
  listed_first, listed_later,
}
use proof_cli_baran.Prelude.Text.{Text, text_eq, text_eq_refl, text_eq_iff, mem_text}
use proof_cli_baran.Prelude.Keep.{keep-keep_same, Listed-keep, keep-Listed}
use proof_cli_baran.Dns.Api.{
  RecordType, type_a, type_txt, type_cname, type_aaaa, other_type, CloudflareRecordResponse,
}

abbrev pub same_type : RecordType → RecordType → Bool
same_type type_a type_a = true
same_type type_txt type_txt = true
same_type type_cname type_cname = true
same_type type_aaaa type_aaaa = true
same_type (other_type s) (other_type t) = text_eq s t
same_type _ _ = false

unfoldable pub is_at : RecordType → Text → CloudflareRecordResponse → Bool
is_at t hostname r = same_type r.record_type t && text_eq r.name hostname

unfoldable pub is_elsewhere : Text → CloudflareRecordResponse → Bool
is_elsewhere hostname r = not (text_eq r.name hostname)

abbrev pub ids : List CloudflareRecordResponse → List Text
ids = map (λ (r : CloudflareRecordResponse). r.id)

-- Records with the same id are the same.
abbrev pub IdsUnique : List CloudflareRecordResponse → Type 0
IdsUnique rs = (r s : CloudflareRecordResponse) → Listed r rs → Listed s rs → r.id ≡ s.id → r ≡ s

pub mem-ids :
    (a : Text) (rs : List CloudflareRecordResponse)
    → mem_text a (ids rs) ≡ true
    → (r : CloudflareRecordResponse) × Listed r rs × (a ≡ r.id)
unfolding mem_text
mem-ids a [] h = absurd (cc h)
mem-ids a (r ∷ rs) h = elim (Bool-cases (text_eq a r.id)) [
  | inl same ↦ (r, listed_first, (text_eq_iff a r.id).0 same)
  | inr other ↦ let (s, l, e) = mem-ids a rs (rw other at h) in (s, listed_later l, e)
]

pub ids-mem :
    (rs : List CloudflareRecordResponse) (r : CloudflareRecordResponse)
    → Listed r rs
    → mem_text r.id (ids rs) ≡ true
unfolding mem_text
ids-mem [] r m = elim m [ ]
ids-mem (s ∷ rs) r listed_first = let e = text_eq_refl r.id in ground arith
ids-mem (s ∷ rs) r (listed_later l) = let e = ids-mem rs r l in ground arith

abbrev pub without : List CloudflareRecordResponse → CloudflareRecordResponse → Bool
without gone r = not (mem_text r.id (ids gone))

-- Without the records of one type at a name there is none of them, and those of other names are as
-- before.
pub without-none :
    (t : RecordType) (hostname : Text) (rs : List CloudflareRecordResponse)
    (r : CloudflareRecordResponse)
    → Listed r (keep (without (keep (is_at t hostname) rs)) rs)
    → is_at t hostname r ≡ false
without-none t hostname rs r l = elim (Bool-cases (is_at t hostname r)) [
  | inr fine ↦ fine
  | inl at ↦
      let (l', kept) = Listed-keep (without (keep (is_at t hostname) rs)) rs r l in
      let gone =
        ids-mem (keep (is_at t hostname) rs) r (keep-Listed (is_at t hostname) rs r l' at) in
      absurd (ground arith)
]

pub without-elsewhere :
    (t : RecordType) (hostname : Text) (rs : List CloudflareRecordResponse)
    → IdsUnique rs
    → keep (is_elsewhere hostname) (keep (without (keep (is_at t hostname) rs)) rs)
      ≡ keep (is_elsewhere hostname) rs
unfolding is_at is_elsewhere
without-elsewhere t hostname rs unique =
    keep-keep_same (is_elsewhere hostname) (without (keep (is_at t hostname) rs)) rs (λ r l away.
      elim (Bool-cases (mem_text r.id (ids (keep (is_at t hostname) rs)))) [
        | inr fine ↦ rw fine
        | inl bad ↦
            let (s, ls, e) = mem-ids r.id (keep (is_at t hostname) rs) bad in
            let (ls', at) = Listed-keep (is_at t hostname) rs s ls in
            let same : r ≡ s = unique r s l ls' e in
            let at' = rw (← same) at at in absurd (ground arith)
      ])
