-- ===== src/Dns/Pool.antt =====
-- The pool of ingress domains (src/switchboard-core/src/domain-pool.ts). `digest` is the first word of
-- the SHA-256 of a seed.
use proof_cli_baran.Prelude.{
  ℕ, zero, suc, ◌%◌, ◌<◌, ◌≡◌, refl, ap, ◌≢◌, true, Option, none, some, List, [], ◌∷◌, map, arith,
  ltb, if◌then◌else◌, length, get_elem?, any, keep,
}
use proof_cli_baran.Prelude.Text.{Text, text_eq, text_eq_refl, trim, split, unique_from}
use native.Mathlib.Nat.{mod-lt, zero-lt-suc}
use proof_cli_baran.Dns.Names.{
  Named, named, failing, ◌>>=◌, map_named, empty_pool, normalize_dns_hostname,
}

unfoldable pub split_csv : Text → List Text
split_csv value = keep (λ item. ltb 0 (length item)) (map trim (split b',' value))

unfoldable pub parse_domain_pool : Option Text → List Text → Named (List Text)
unfolding split_csv
parse_domain_pool value fallback =
    let configured : List Text = elim value [ none ↦ split_csv [] | some v ↦ split_csv v ] in
    do
      domains ←
          map_named normalize_dns_hostname
            (if ltb 0 (length configured) then configured else fallback)
      named (unique_from [] domains)

-- `domains[index]`, which is in range where the index is a remainder.
domain_at : Option Text → Named Text
domain_at none = failing empty_pool
domain_at (some d) = named d

unfoldable pub select_domain_from_pool : (Text → ℕ) → List Text → Text → Named Text
unfolding domain_at
select_domain_from_pool digest [] seed = failing empty_pool
select_domain_from_pool digest (d ∷ []) seed = named d
select_domain_from_pool digest (d ∷ e ∷ ds) seed =
    domain_at (get_elem? (d ∷ e ∷ ds) (digest seed % length (d ∷ e ∷ ds)))

get_elem?-in_range :
    (xs : List Text) (i : ℕ)
    → i < length xs
    → (d : Text) × (get_elem? xs i ≡ some d) × (any (text_eq d) xs ≡ true)
get_elem?-in_range [] i h = absurd (omega arith)
get_elem?-in_range (x ∷ xs) zero h = (x, refl, rw (text_eq_refl x))
get_elem?-in_range (x ∷ xs) (suc i) h =
    let (d, found, listed) = get_elem?-in_range xs i (omega arith) in
    (d, found, ground (arith, listed))

-- A pool with a domain gives one of its domains for every seed, whatever the digest is.
pub select_domain_from_pool_listed :
    (digest : Text → ℕ) (domains : List Text) (seed : Text)
    → domains ≢ []
    → (d : Text) × (select_domain_from_pool digest domains seed ≡ named d)
      × (any (text_eq d) domains ≡ true)
unfolding select_domain_from_pool domain_at
select_domain_from_pool_listed digest [] seed ne = absurd (ne refl)
select_domain_from_pool_listed digest (d ∷ []) seed ne = (d, refl, rw (text_eq_refl d))
select_domain_from_pool_listed digest (d ∷ e ∷ ds) seed ne =
    let small : digest seed % length (d ∷ e ∷ ds) < length (d ∷ e ∷ ds) =
      mod-lt (digest seed) (zero-lt-suc (suc (length ds))) in
    let (x, found, listed) =
      get_elem?-in_range (d ∷ e ∷ ds) (digest seed % length (d ∷ e ∷ ds)) small in
    (x, ap domain_at found, listed)
