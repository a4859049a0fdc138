-- ===== src/Dns/Names.antt =====
-- Normalisation of DNS names (src/switchboard-core/src/cloudflare-dns.ts).
use proof_cli_baran.Prelude.{
  ℕ, Bool, true, false, ◌&&◌, ◌||◌, List, [], ◌∷◌, ltb, leb, ◌==◌, if◌then◌else◌, length, all,
}
use proof_cli_baran.Prelude.Text.{Text, codes, text_eq, trim, to_lower_case, split, includes}

pub data DnsError : Type 0 where
  invalid_hostname : Text → DnsError
  invalid_label : Text → Text → DnsError
  no_zone_for : Text → DnsError
  outside_zones : Text → DnsError
  unexpected_record_type : Text → DnsError
  empty_pool : DnsError
  same_as_endpoint : DnsError
  apex_not_supported : DnsError
  resolver_failed : Text → DnsError
  invalid_session_id : DnsError

pub data Named {ℓ} (A : Type ℓ) : Type ℓ where
  named : A → Named A
  failing : DnsError → Named A

infixl 5 ◌>>=◌
abbrev pub ◌>>=◌ {ℓ κ} : {A : Type ℓ} {B : Type κ} → Named A → (A → Named B) → Named B
named a >>= f = f a
failing e >>= f = failing e

-- `names.map(f)`, where `f` may throw.
unfoldable pub map_named : (Text → Named Text) → List Text → Named (List Text)
map_named f [] = named []
map_named f (x ∷ xs) = do y ← f x; ys ← map_named f xs; named (y ∷ ys)

-- `.replace(/\.$/, "")`
unfoldable pub drop_last_dot : Text → Text
drop_last_dot [] = []
drop_last_dot (c ∷ []) = if c == b'.' then [] else c ∷ []
drop_last_dot (c ∷ d ∷ s) = c ∷ drop_last_dot (d ∷ s)

-- The first and the last character of a label, and those between.
unfoldable pub is_edge : Bool → ℕ → Bool
is_edge underscore c =
    (leb b'a' c && leb c b'z') || (leb b'0' c && leb c b'9') || (underscore && c == b'_')

unfoldable pub is_inner : Bool → ℕ → Bool
unfolding is_edge
is_inner underscore c = is_edge underscore c || c == b'-'

ends_on_edge : Bool → Text → Bool
ends_on_edge underscore [] = false
ends_on_edge underscore (c ∷ []) = is_edge underscore c
ends_on_edge underscore (c ∷ d ∷ s) = ends_on_edge underscore (d ∷ s)

-- The label patterns: an edge, then perhaps at most 61 inner characters and another edge.
unfoldable pub is_label : Bool → Text → Bool
unfolding is_inner ends_on_edge
is_label underscore [] = false
is_label underscore (c ∷ s) =
    is_edge underscore c
    && all (is_inner underscore) s
    && ends_on_edge underscore (c ∷ s)
    && leb (length s) 62

-- The first label that does not fit is reported.
unfoldable pub check_labels : Bool → Text → Text → List Text → Named Text
unfolding is_label
check_labels underscore value hostname [] = named hostname
check_labels underscore value hostname (l ∷ ls) =
    let rest = check_labels underscore value hostname ls in
    if is_label underscore l then rest else failing (invalid_label l value)

unfoldable pub normalize_dns_name : Text → Bool → Named Text
unfolding drop_last_dot check_labels
normalize_dns_name value underscore =
    let hostname = to_lower_case (drop_last_dot (trim value)) in
    if text_eq hostname [] || includes (codes "://") hostname || ltb 253 (length hostname)
    then failing (invalid_hostname value)
    else check_labels underscore value hostname (split b'.' hostname)

unfoldable pub normalize_dns_hostname : Text → Named Text
unfolding normalize_dns_name
normalize_dns_hostname value = normalize_dns_name value false

unfoldable pub normalize_dns_record_name : Text → Named Text
unfolding normalize_dns_name
normalize_dns_record_name value = normalize_dns_name value true
