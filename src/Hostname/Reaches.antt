-- ===== src/Hostname/Reaches.antt =====
-- What a check of CNAME records says of the records.
use proof_cli_baran.Prelude.{
  ℕ, zero, suc, ◌≡◌, refl, ◌↔◌, ◌⊎◌, inl, inr, true, ◌&&◌, List, [], ◌∷◌, ◌++◌, map, arith, ltb,
  Bool-cases, Option-cases, length, all, All, List-cases,
}
use proof_cli_baran.Prelude.Text.{Text, text_eq, text_eq_refl, text_eq_iff}
use proof_cli_baran.Dns.Names.{Named, named, failing, DnsError, normalize_dns_hostname}
use proof_cli_baran.Hostname.Cname.{
  cname_records, resolvers_of, default_resolvers, max_depth_of, follow, CnameResolverResult,
  validate_cname_target, validate_cname_with_resolver, CnameInput, CnameValidationResult,
  max_depth_of,
}

-- The target is reached from a name within a number of lookups: the name is the target and has no
-- CNAME, or its first CNAME is the target, or leads to it with one lookup less.
pub data Reaches (records : Text → Named (List Text)) (target : Text) : ℕ → Text → Type 0 where
  ends : {n : ℕ} {a : Text} → records a ≡ named [] → a ≡ target → Reaches records target (suc n) a
  arrives :
      {n : ℕ} {a : Text} (more : List Text)
      → records a ≡ named (target ∷ more)
      → Reaches records target (suc n) a
  passes :
      {n : ℕ} {a : Text} (b : Text) (more : List Text)
      → records a ≡ named (b ∷ more)
      → Reaches records target n b
      → Reaches records target (suc n) a

pub answers_cases :
    (m : Named (List Text))
    → ((e : DnsError) × (m ≡ failing e))
      ⊎ (m ≡ named [])
      ⊎ ((b : Text) × (more : List Text) × (m ≡ named (b ∷ more)))
answers_cases (failing e) = inl (e, refl)
answers_cases (named []) = inr (inl refl)
answers_cases (named (b ∷ more)) = inr (inr (b, more, refl))

module _ (resolve : Text → Text → Named (List Text)) (resolver target : Text) where
  follow-Reaches :
      (limit n : ℕ) (a : Text) (chain : List Text)
      → (follow resolve resolver target limit n a chain).ok ≡ true
      → Reaches (λ x. cname_records resolve resolver x) target n a
  unfolding follow
  follow-Reaches limit zero a chain h = absurd (cc h)
  follow-Reaches limit (suc n) a chain h = elim (answers_cases (cname_records resolve resolver a)) [
    | inl (e, failed) ↦ absurd (cc (rw (failed, follow) at h))
    | inr (inl none_left) ↦ ends none_left ((text_eq_iff a target).0 (rw (none_left, follow) at h))
    | inr (inr (b, more, found)) ↦ elim (Bool-cases (text_eq b target)) [
      | inl same ↦ arrives more (rw (← ((text_eq_iff b target).0 same)) found)
      | inr other ↦
          passes b more found
            (follow-Reaches limit n b (chain ++ b ∷ []) (rw (found, other, follow) at h))
    ]
  ]

  Reaches-follow :
      (limit n : ℕ) (a : Text) (chain : List Text)
      → Reaches (λ x. cname_records resolve resolver x) target n a
      → (follow resolve resolver target limit n a chain).ok ≡ true
  unfolding follow
  Reaches-follow limit zero a chain r = elim r [ ]
  Reaches-follow limit (suc n) a chain (ends none_left same) =
      rw (none_left, follow) ((text_eq_iff a target).1 same)
  Reaches-follow limit (suc n) a chain (arrives more found) =
      rw (found, text_eq_refl target, follow)
  Reaches-follow limit (suc n) a chain (passes b more found r) =
      elim (Bool-cases (text_eq b target)) [
        | inl same ↦ rw (found, same, follow)
        | inr other ↦ rw (found, other, follow) (Reaches-follow limit n b (chain ++ b ∷ []) r)
      ]

-- All the resolvers say so, as one Boolean and as a predicate.
all_ok_iff {ℓ} :
    {A : Type ℓ} (check : A → CnameResolverResult) (P : A → Type 0)
    → ((a : A) → ((check a).ok ≡ true) ↔ P a)
    → (xs : List A) → (all (λ r. r.ok) (map check xs) ≡ true) ↔ All P xs
all_ok_iff check P iff [] = (λ _. tt, λ _. refl)
all_ok_iff check P iff (x ∷ xs) =
    let later = all_ok_iff check P iff xs in
    (
      λ h. ((iff x).0 (ground arith), later.0 (ground arith)),
      λ (p, ps). let here = (iff x).1 p in let rest = later.1 ps in ground arith,
    )

some_resolver :
    (resolve : Text → Text → Named (List Text)) (input : CnameInput)
    (check : Text → CnameResolverResult)
    → ltb 0 (length (map check (resolvers_of resolve input))) ≡ true
unfolding resolvers_of default_resolvers
some_resolver resolve input check = elim (Option-cases input.resolvers) [
  | inl absent ↦ rw (absent, resolvers_of)
  | inr (rs, given) ↦ elim (List-cases rs) [
    | inl empty ↦ rw (given, empty, resolvers_of)
    | inr (r, more, e) ↦ rw (given, e, resolvers_of) (ground arith)
  ]
]

-- A check of valid names succeeds exactly when, by the answers of every resolver that is asked, the
-- expected target is reached from the customer's hostname within the number of lookups allowed.
pub validate_cname_target_iff :
    (resolve : Text → Text → Named (List Text)) (input : CnameInput) (customer target : Text)
    → normalize_dns_hostname input.customer_hostname ≡ named customer
    → normalize_dns_hostname input.expected_target ≡ named target
    → (v : CnameValidationResult) × (validate_cname_target resolve input ≡ named v)
      × ((v.ok ≡ true)
          ↔ All
              (λ resolver.
                Reaches
                  (λ x. cname_records resolve resolver x)
                  target
                  (max_depth_of resolve input)
                  customer)
              (resolvers_of resolve input))
unfolding validate_cname_target validate_cname_with_resolver
validate_cname_target_iff resolve input customer target c t =
    let depth : ℕ = max_depth_of resolve input in
    let check : Text → CnameResolverResult =
      validate_cname_with_resolver resolve customer target depth in
    let every =
      all_ok_iff check (λ r. Reaches (λ x. cname_records resolve r x) target depth customer)
        (λ r. (
          follow-Reaches resolve r target depth depth customer (customer ∷ []),
          Reaches-follow resolve r target depth depth customer (customer ∷ []),
        ))
        (resolvers_of resolve input) in
    let asked = some_resolver resolve input check in
    let result : CnameValidationResult = record {
      ok =
          ltb 0 (length (map check (resolvers_of resolve input)))
          && all (λ r. r.ok) (map check (resolvers_of resolve input));
      customer_hostname = customer;
      expected_target = target;
      results = map check (resolvers_of resolve input);
    } in
    (result, rw (c, t), (λ h. every.0 (rw asked at h), λ h. rw asked (every.1 h)))
