-- ===== src/Hostname/Cname.antt =====
-- The check that a hostname's CNAME records lead to its endpoint
-- (src/switchboard-core/src/customer-hostname.ts). What a resolver answers is a parameter.
use proof_cli_baran.Prelude.{
  ℕ, zero, suc, Bool, true, false, ◌&&◌, Option, none, some, List, [], ◌∷◌, ◌++◌, map, ltb,
  if◌then◌else◌, length, all,
}
use proof_cli_baran.Prelude.Text.{Text, codes, text_eq}
use proof_cli_baran.Dns.Names.{
  Named, named, failing, ◌>>=◌, DnsError, map_named, normalize_dns_hostname,
}

pub data CnameError : Type 0 where
  no_cname_record_for : Text → CnameError
  chain_exceeded : ℕ → CnameError
  thrown : DnsError → CnameError

pub record CnameResolverResult : Type 0 where
  pub resolver : Text
  pub ok : Bool
  pub chain : List Text
  pub error : Option CnameError

pub record CnameValidationResult : Type 0 where
  pub ok : Bool
  pub customer_hostname : Text
  pub expected_target : Text
  pub results : List CnameResolverResult

pub record CnameInput : Type 0 where
  pub customer_hostname : Text
  pub expected_target : Text
  pub resolvers : Option (List Text)
  pub max_depth : Option ℕ

module _ (resolve : Text → Text → Named (List Text)) where
  -- The names that a resolver gives for a name, normalised.
  unfoldable pub cname_records : Text → Text → Named (List Text)
  cname_records resolver current = do
    records ← resolve current resolver
    map_named normalize_dns_hostname records

  at_end : Text → Text → Text → List Text → CnameResolverResult
  at_end resolver expected current chain = record {
    resolver = resolver;
    ok = text_eq current expected;
    chain = chain;
    error = if text_eq current expected then none else some (no_cname_record_for current);
  }

  -- The loop, by the number of rounds left; `limit` is `maxDepth`.
  unfoldable pub follow : Text → Text → ℕ → ℕ → Text → List Text → CnameResolverResult
  unfolding at_end
  follow resolver expected limit zero current chain = record {
    resolver = resolver;
    ok = false;
    chain = chain;
    error = some (chain_exceeded limit);
  }
  follow resolver expected limit (suc left) current chain = elim (cname_records resolver current) [
    | failing e ↦ record { resolver = resolver; ok = false; chain = chain; error = some (thrown e) }
    | named [] ↦ at_end resolver expected current chain
    | named (next ∷ more) ↦
        let rest = follow resolver expected limit left next (chain ++ next ∷ []) in
        if text_eq next expected
        then record { resolver = resolver; ok = true; chain = chain ++ next ∷ []; error = none }
        else rest
  ]

  unfoldable pub validate_cname_with_resolver : Text → Text → ℕ → Text → CnameResolverResult
  unfolding follow
  validate_cname_with_resolver customer expected max_depth resolver =
      follow resolver expected max_depth max_depth customer (customer ∷ [])

  unfoldable pub default_resolvers : List Text
  default_resolvers = codes "system" ∷ codes "1.1.1.1" ∷ codes "8.8.8.8" ∷ []

  unfoldable pub resolvers_of : CnameInput → List Text
  unfolding default_resolvers
  resolvers_of input = elim input.resolvers [
    | none ↦ default_resolvers
    | some [] ↦ default_resolvers
    | some (r ∷ rs) ↦ r ∷ rs
  ]

  abbrev pub max_depth_of : CnameInput → ℕ
  max_depth_of input = elim input.max_depth [ none ↦ 8 | some n ↦ n ]

  unfoldable pub validate_cname_target : CnameInput → Named CnameValidationResult
  unfolding validate_cname_with_resolver resolvers_of
  validate_cname_target input = do
    customer ← normalize_dns_hostname input.customer_hostname
    expected ← normalize_dns_hostname input.expected_target
    let results =
        map (validate_cname_with_resolver customer expected (max_depth_of input))
          (resolvers_of input)
    named (record {
      ok = ltb 0 (length results) && all (λ r. r.ok) results;
      customer_hostname = customer;
      expected_target = expected;
      results = results;
    })
