-- ===== src/Discovery/Trust.antt =====
-- What a discovery that succeeds has checked.
use proof_cli_baran.Discovery.Outside.{Bytes}
use proof_cli_baran.Prelude.{
  ℕ, ◌*◌, ◌≡◌, refl, ◌∙◌, ◌⊎◌, inl, inr, Bool, true, false, not, ◌||◌, Option, none, some, [], ◌++◌,
  arith, leb→le, Bool-cases, Option-cases,
}
use proof_cli_baran.Prelude.Text.{Text, codes, text_eq, text_eq_iff, to_lower_case}
use proof_cli_baran.Prelude.Number.{ℤ, pos, ◌-ℤ◌, ◌≤ℤ◌}
use proof_cli_baran.Discovery.Types.{
  CatalogRef, ServiceCatalog, SignedServiceCatalog, catalog_payload,
}
use proof_cli_baran.Discovery.Outside.{
  Outside, DiscoveryError, Result, ok, err, ◌>>=◌, guard, Answer, answer, no_answer,
}
use proof_cli_baran.Discovery.Signing.{or_else, is_given, same_signer, verify_report_signature}
use proof_cli_baran.Discovery.Manifests.{signer_fits}
use proof_cli_baran.Discovery.Catalogs.{
  service_catalog_domain, service_catalog_expired, parse_signed_service_catalog,
  verify_signed_service_catalog,
}
use proof_cli_baran.Discovery.Discover.{
  ServiceDiscoveryConfig, ResolvedServiceCatalog, check_age, fetch_verified_catalog, digest_fits,
}

-- What `a ← r` and what follows it gave.
pub data Binds {ℓ κ} {A : Type ℓ} {B : Type κ} (r : Result A) (f : A → Result B) (b : B)
    : Type (ℓ ⊔ κ) where
  binds : (a : A) → r ≡ ok a → f a ≡ ok b → Binds r f b

pub bind-ok {ℓ κ} :
    {A : Type ℓ} {B : Type κ} (r : Result A) (f : A → Result B) (b : B)
    → (r >>= f) ≡ ok b
    → Binds r f b
unfolding ◌>>=◌
bind-ok (ok a) f b h = binds a refl h
bind-ok (err e) f b h = absurd (cc h)

pub guard-ok {ℓ} :
    {A : Type ℓ} (test : Bool) (e : DiscoveryError) (f : Unit {0} → Result A) (a : A)
    → (guard test e >>= f) ≡ ok a
    → (test ≡ true) × (f tt ≡ ok a)
unfolding ◌>>=◌
guard-ok true e f a h = (refl, h)
guard-ok false e f a h = absurd (cc h)

pub guard_last-ok :
    (test : Bool) (e : DiscoveryError) (u : Unit {0}) → guard test e ≡ ok u → test ≡ true
guard_last-ok true e u h = refl
guard_last-ok false e u h = absurd (cc h)

pub Result-cases {ℓ} :
    {A : Type ℓ} (r : Result A) → ((a : A) × (r ≡ ok a)) ⊎ ((e : DiscoveryError) × (r ≡ err e))
Result-cases (ok a) = inl (a, refl)
Result-cases (err e) = inr (e, refl)

-- What a test that counts only where something is given shows.
pub given_or : (given test : Bool) → (not given || test) ≡ true → (given ≡ false) ⊎ (test ≡ true)
given_or true test h = inr h
given_or false test h = inl refl

pub answer_cases :
    (a : Answer)
    → ((why : Text) × (a ≡ no_answer why))
      ⊎ ((success : Bool) × (status : ℕ) × (body : Bytes) × (a ≡ answer success status body))
answer_cases (no_answer why) = inl (why, refl)
answer_cases (answer success status body) = inr (success, status, body, refl)

-- A catalog is no older than its reference allows, where it says.
abbrev pub IsRecent : ServiceDiscoveryConfig → CatalogRef → ServiceCatalog → Type 0
IsRecent config ref catalog =
    (ref.max_stale_seconds ≡ none)
    ⊎ ((limit : ℕ) × (issued : ℤ) × (ref.max_stale_seconds ≡ some limit)
        × (catalog.issued_at ≡ some issued)
        × (config.now -ℤ issued ≤ℤ pos (limit * 1000)))

unfoldable pub CatalogTrusted : Outside → ServiceDiscoveryConfig → ResolvedServiceCatalog → Type 0
CatalogTrusted o config r =
    (status : ℕ) × (body : Bytes) × (signed : SignedServiceCatalog) × (o.fetch r.ref.url
      ≡ answer true status body)
    × ((is_given r.ref.signer || is_given r.ref.digest) ≡ true)
    × ((is_given r.ref.digest ≡ false)
        ⊎ (to_lower_case (codes "0x" ++ o.sha256_hex body)
            ≡ to_lower_case (or_else r.ref.digest [])))
    × (parse_signed_service_catalog o (o.utf8_text body) ≡ ok signed)
    × (signed.catalog ≡ r.catalog)
    × (signed.signature.domain ≡ service_catalog_domain)
    × (verify_report_signature o (catalog_payload r.catalog) signed.signature ≡ ok r.signer)
    × ((is_given r.ref.signer ≡ false) ⊎ (same_signer r.signer (or_else r.ref.signer []) ≡ true))
    × ((config.allow_expired_catalogs ≡ true)
        ⊎ ((service_catalog_expired r.catalog config.now ≡ false)
            × IsRecent config r.ref r.catalog))

module _ (o : Outside) (config : ServiceDiscoveryConfig) where
  -- What the verification of a signed catalog shows.
  verify_signed_service_catalog-ok :
      (body : Text) (expected : Option Text) (now : ℤ) (allow : Bool) (catalog : ServiceCatalog)
      (signer : Text)
      → verify_signed_service_catalog o body expected now allow ≡ ok (catalog, signer)
      → (signed : SignedServiceCatalog) × (parse_signed_service_catalog o body ≡ ok signed)
        × (signed.catalog ≡ catalog)
        × (text_eq signed.signature.domain service_catalog_domain ≡ true)
        × (verify_report_signature o (catalog_payload signed.catalog) signed.signature ≡ ok signer)
        × (signer_fits o signer expected ≡ true)
        × ((allow || not (service_catalog_expired signed.catalog now)) ≡ true)
  unfolding verify_signed_service_catalog
  verify_signed_service_catalog-ok body expected now allow catalog signer h =
      elim (bind-ok _ _ _ h) [
        | binds signed parsed h1 ↦
            let (domain, h2) = guard-ok _ _ _ _ h1 in
            let (fresh, h3) = guard-ok _ _ _ _ h2 in
            elim (bind-ok _ _ _ h3) [
              | binds s verified h4 ↦
                  let (fits, h5) = guard-ok _ _ _ _ h4 in
                  let same : signed.catalog ≡ catalog = cc h5 in
                  let same_s : s ≡ signer = cc h5 in
                  (signed, parsed, same, domain, rw same_s at verified, rw same_s at fits, fresh)
            ]
      ]

  check_age-IsRecent :
      (ref : CatalogRef) (catalog : ServiceCatalog) (u : Unit {0})
      → check_age o config ref catalog ≡ ok u
      → config.allow_expired_catalogs ≡ false
      → IsRecent config ref catalog
  unfolding check_age
  check_age-IsRecent ref catalog u h strict = elim (Option-cases ref.max_stale_seconds) [
    | inl unlimited ↦ inl unlimited
    | inr (limit, given) ↦ elim (Option-cases catalog.issued_at) [
      | inl unknown ↦ absurd (cc (rw (given, strict, unknown, check_age) at h))
      | inr (issued, known) ↦
          let young = rw (given, strict, known, check_age) at h in
          inr (limit, issued, given, known, leb→le _ _ (guard_last-ok _ _ _ young))
    ]
  ]

  pub fetch_verified_catalog-CatalogTrusted :
      (key : Text) (ref : CatalogRef) (catalog : ServiceCatalog) (signer : Text)
      → fetch_verified_catalog o config ref ≡ ok (catalog, signer)
      → CatalogTrusted o config
          (record { key = key; ref = ref; catalog = catalog; signer = signer })
  unfolding fetch_verified_catalog digest_fits CatalogTrusted
  fetch_verified_catalog-CatalogTrusted key ref catalog signer h =
      elim (answer_cases (o.fetch ref.url)) [
        | inl (why, none_came) ↦ absurd (cc (rw (none_came, fetch_verified_catalog) at h))
        | inr (success, status, body, came) ↦
            let (good, h1) = guard-ok _ _ _ _ (rw (came, fetch_verified_catalog) at h) in
            let (declared, h2) = guard-ok _ _ _ _ h1 in
            let (digest, h3) = guard-ok _ _ _ _ h2 in
            elim (bind-ok _ _ _ h3) [
              | binds (c, s) verified h4 ↦ elim (bind-ok _ _ _ h4) [
                | binds u aged h5 ↦
                    let (parsed_as, parsed, same, domain, signed, fits, fresh) =
                      verify_signed_service_catalog-ok (o.utf8_text body) ref.signer config.now
                        config.allow_expired_catalogs c s verified in
                    let same_c : c ≡ catalog = cc h5 in
                    let same_s : s ≡ signer = cc h5 in
                    (
                      status,
                      body,
                      parsed_as,
                      rw good at came,
                      declared,
                      elim (given_or _ _ digest) [
                        | inl unset ↦ inl unset
                        | inr fits ↦ inr ((text_eq_iff _ _).0 fits)
                      ],
                      parsed,
                      same ∙ same_c,
                      (text_eq_iff _ _).0 domain,
                      rw (same ∙ same_c, same_s) at signed,
                      given_or _ _ (rw same_s at fits),
                      elim (Bool-cases config.allow_expired_catalogs) [
                        | inl lax ↦ inl lax
                        | inr strict ↦
                            let f = rw (same ∙ same_c, strict) at fresh in
                            inr (
                              ground arith,
                              check_age-IsRecent ref catalog u (rw same_c at aged) strict,
                            )
                      ],
                    )
              ]
            ]
      ]
