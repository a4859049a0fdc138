-- ===== src/Operator/Addresses.antt =====
-- Which IPv4 address DNS may point at (src/switchboard-core/src/operator-capability.ts). `isIP` of node is
-- a parameter.
use proof_cli_baran.Prelude.{
  ℕ, ◌+◌, ◌-◌, ◌*◌, Bool, true, false, not, ◌&&◌, ◌||◌, Option, none, some, List, [], ◌∷◌, map, leb,
  ◌==◌, if◌then◌else◌, keep,
}
use proof_cli_baran.Prelude.Text.{Text, text_eq, trim, split, unique_from}

pub data DnsTarget : Type 0 where
  target : Text → DnsTarget
  dns_target_unavailable : DnsTarget
  dns_target_ambiguous : List Text → DnsTarget
  dns_target_not_public : Text → DnsTarget

-- `Number` of a text of decimal digits; other texts are no part of an IPv4 address.
decimal_from : ℕ → Text → Option ℕ
decimal_from n [] = some n
decimal_from n (c ∷ s) =
    let rest = decimal_from (n * 10 + (c - b'0')) s in
    if leb b'0' c && leb c b'9' then rest else none

unfoldable pub octet : Text → Option ℕ
unfolding decimal_from
octet s = elim (decimal_from 0 s) [ none ↦ none | some n ↦ (if leb n 255 then some n else none) ]

-- The tests of the four octets, in the order of the source.
unfoldable pub is_public : ℕ → ℕ → ℕ → ℕ → Bool
is_public a b c d =
    if a == 0 || a == 10 || a == 127
    then false
    else if a == 100 && leb 64 b && leb b 127
    then false
    else if a == 169 && b == 254
    then false
    else if a == 172 && leb 16 b && leb b 31
    then false
    else if a == 192 && b == 168
    then false
    else if a == 192 && b == 0 && c == 0
    then false
    else if a == 192 && b == 0 && c == 2
    then false
    else if a == 198 && (b == 18 || b == 19)
    then false
    else if a == 198 && b == 51 && c == 100
    then false
    else if a == 203 && b == 0 && c == 113
    then false
    else if leb 224 a
    then false
    else if a == 255 && b == 255 && c == 255 && d == 255
    then false
    else true

abbrev public_octets : List (Option ℕ) → Bool
public_octets (some a ∷ some b ∷ some c ∷ some d ∷ []) = is_public a b c d
public_octets _ = false

-- `[...new Set(values.filter((value) => value.length > 0))]`
unfoldable pub unique_nonempty : List Text → List Text
unfolding unique_from
unique_nonempty values = unique_from [] (keep (λ v. not (text_eq v [])) values)

module _ (is_ipv4 : Text → Bool) where
  unfoldable pub public_ipv4_address : Text → Bool
  unfolding is_public octet
  public_ipv4_address value = is_ipv4 value && public_octets (map octet (split b'.' value))

  unfoldable pub select_dns_eligible_public_ipv4 : List Text → DnsTarget
  unfolding public_ipv4_address unique_nonempty
  select_dns_eligible_public_ipv4 addresses =
      elim (unique_nonempty (keep is_ipv4 (map trim addresses))) [
        | [] ↦ dns_target_unavailable
        | selected ∷ [] ↦
            (if public_ipv4_address selected
              then target selected
              else dns_target_not_public selected)
        | first ∷ second ∷ more ↦ dns_target_ambiguous (first ∷ second ∷ more)
      ]
