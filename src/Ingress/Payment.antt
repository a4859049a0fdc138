-- ===== src/Ingress/Payment.antt =====
-- What the amounts of a quote are (src/switchboard-core/src/ingress-quote.ts).
use proof_cli_baran.Prelude.{
  ℕ, ◌+◌, ◌≡◌, refl, ap, ◌↔◌, inl, inr, true, false, not, ◌||◌, some, arith, ==_iff, Bool-cases,
  Option-cases,
}
use proof_cli_baran.Prelude.Number.{ℤ, pos, negsuc, pos_part, neg_part, ◌+ℤ◌, ◌≤ℤ◌, leb_ℤ, ltb_ℤ}
use proof_cli_baran.Ingress.Quote.{
  IngressQuote, IngressQuoteBuildInput, Payment, quoted, eq_ℤ, or_else, check_payment, payment_for,
  payment_of, service_amount_of, max_ingress_quote_paid_seconds,
}

-- The service amount is positive, no fee is negative, the amount is their sum, and the time is
-- positive and at most 28 days.
pub record IsPayable (p : Payment) (paid_seconds : ℤ) : Type 0 where
  pub service : pos 1 ≤ℤ p.service_amount
  pub setup : pos 0 ≤ℤ p.setup_fee
  pub cap : pos 0 ≤ℤ p.validation_fee_cap
  pub amount : pos 1 ≤ℤ p.amount
  pub balanced : p.amount ≡ p.service_amount +ℤ p.setup_fee +ℤ p.validation_fee_cap
  pub some_time : pos 1 ≤ℤ paid_seconds
  pub not_too_long : paid_seconds ≤ℤ pos max_ingress_quote_paid_seconds

-- The payment that an input asks for, where it names a service amount or an amount.
abbrev pub requested : IngressQuoteBuildInput → ℤ → Payment
requested input service =
    payment_for input service (or_else input.setup_fee (pos 0))
      (or_else input.validation_fee_cap (pos 0))

eq_ℤ_sound : (a b : ℤ) → eq_ℤ a b ≡ true → a ≡ b
eq_ℤ_sound (pos m) (pos n) h = ap (λ (k : ℕ). pos k) (ground arith)
eq_ℤ_sound (pos m) (negsuc n) h = ground arith
eq_ℤ_sound (negsuc m) (pos n) h = ground arith
eq_ℤ_sound (negsuc m) (negsuc n) h = ap (λ (k : ℕ). negsuc k) (ground arith)

eq_ℤ_refl : (a b : ℤ) → a ≡ b → eq_ℤ a b ≡ true
eq_ℤ_refl a b e =
    rw e
      (let same : pos_part b + neg_part b ≡ pos_part b + neg_part b = refl in (==_iff _ _).1 same)

check-IsPayable : (p : Payment) (t : ℤ) → IsPayable p t → check_payment p t ≡ quoted p
unfolding check_payment
check-IsPayable p t h =
    let total : ℤ = p.service_amount +ℤ p.setup_fee +ℤ p.validation_fee_cap in
    let amount : leb_ℤ p.amount (pos 0) ≡ false = let k = h.amount in ground arith in
    let service : leb_ℤ p.service_amount (pos 0) ≡ false = let k = h.service in ground arith in
    let sum : eq_ℤ p.amount total ≡ true = eq_ℤ_refl p.amount total h.balanced in
    let time : leb_ℤ t (pos 0) ≡ false = let k = h.some_time in ground arith in
    let short : ltb_ℤ (pos max_ingress_quote_paid_seconds) t ≡ false =
      let k = h.not_too_long in ground arith in
    rw (amount, service, sum, time, short)

IsPayable-check :
    (p q : Payment) (t : ℤ)
    → pos 0 ≤ℤ p.setup_fee
    → pos 0 ≤ℤ p.validation_fee_cap
    → check_payment p t ≡ quoted q
    → IsPayable p t × (p ≡ q)
unfolding check_payment
IsPayable-check p q t hs hc e =
    let total : ℤ = p.service_amount +ℤ p.setup_fee +ℤ p.validation_fee_cap in
    elim (Bool-cases
      (leb_ℤ p.amount (pos 0) || leb_ℤ p.service_amount (pos 0) || not (eq_ℤ p.amount total))) [
        | inl bad ↦ absurd (cc (rw bad at e))
        | inr fine ↦ elim (Bool-cases (leb_ℤ t (pos 0))) [
          | inl never ↦ absurd (cc (rw (fine, never) at e))
          | inr time ↦ elim (Bool-cases (ltb_ℤ (pos max_ingress_quote_paid_seconds) t)) [
            | inl long ↦ absurd (cc (rw (fine, time, long) at e))
            | inr short ↦ (
              record {
                service = ground arith;
                setup = hs;
                cap = hc;
                amount = ground arith;
                balanced = eq_ℤ_sound p.amount total (ground arith);
                some_time = ground arith;
                not_too_long = ground arith;
              },
              cc (rw (fine, time, short) at e),
            )
          ]
        ]
      ]

-- The amounts and the time of a quote.
abbrev pub payment_in : IngressQuote → Payment
payment_in q = record {
  amount = q.amount;
  service_amount = q.service_amount;
  setup_fee = q.setup_fee;
  validation_fee_cap = q.validation_fee_cap;
}

payment_of-IsPayable :
    (input : IngressQuoteBuildInput) (p : Payment)
    → payment_of input ≡ quoted p
    → IsPayable p input.paid_seconds
unfolding payment_of payment_for
payment_of-IsPayable input p e =
    let setup : ℤ = or_else input.setup_fee (pos 0) in
    let cap : ℤ = or_else input.validation_fee_cap (pos 0) in
    elim (Option-cases (service_amount_of input)) [
      | inl missing ↦ absurd (cc (rw (missing, payment_of) at e))
      | inr (service, found) ↦ elim (Bool-cases (ltb_ℤ setup (pos 0) || ltb_ℤ cap (pos 0))) [
        | inl negative ↦ absurd (cc (rw (found, negative, payment_of) at e))
        | inr fine ↦
            let r = payment_for input service setup cap in
            let (payable, same) =
              IsPayable-check r p input.paid_seconds (ground arith) (ground arith)
                (rw (found, fine, payment_of) at e) in
            rw (← same) payable
      ]
    ]

-- An input that names a service amount is paid for exactly when its payment, with absent fees read
-- as zero and an absent amount as the sum, is payable.
pub payment_of_iff :
    (input : IngressQuoteBuildInput) (service : ℤ)
    → service_amount_of input ≡ some service
    → (payment_of input ≡ quoted (requested input service))
      ↔ IsPayable (requested input service) input.paid_seconds
unfolding payment_of payment_for
payment_of_iff input service named =
    let r = requested input service in
    (
      λ e. payment_of-IsPayable input r e,
      λ h.
          let k = h.setup in
          let l = h.cap in
          let fine : (ltb_ℤ (or_else input.setup_fee (pos 0)) (pos 0)
                || ltb_ℤ (or_else input.validation_fee_cap (pos 0)) (pos 0))
              ≡ false =
            ground arith in
          rw (named, fine, payment_of) (check-IsPayable r input.paid_seconds h),
    )
