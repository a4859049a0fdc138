-- ===== src/Relay/Budget.antt =====
-- src/switchboard-core/cli/src/relay/budget.ts: the recommended cost of an execution. Writing the
-- figures to the console or into a spec file is not modelled.
use proof_cli_baran.Prelude.{
  ℕ, ◌+◌, ◌*◌, ◌/◌, ◌≤◌, ◌<◌, ◌≡◌, refl, ◌⊎◌, inl, inr, Option, none, some, [], ◌∷◌, arith, ltb,
  if◌then◌else◌, Bool-cases,
}
use proof_cli_baran.Prelude.Text.{Text, codes}
use proof_cli_baran.Prelude.Decimal.{read_ℕ}
use proof_cli_baran.Relay.Duration.{DurationError, Parsed, millis, bad, parse_duration}

pub data BudgetError : Type 0 where
  usage : BudgetError
  duration_error : DurationError → BudgetError
  not_an_integer : Text → BudgetError
  margin_out_of_range : BudgetError

pub record RelayBudgetResult : Type 0 where
  pub duration_ms : ℕ
  pub rate_per_ms : ℕ
  pub margin_percent : ℕ
  pub base_cost : ℕ
  pub recommended_max_cost : ℕ

pub data Budget : Type 0 where
  computed : RelayBudgetResult → Budget
  rejected : BudgetError → Budget

abbrev pub default_rate_per_ms : ℕ
default_rate_per_ms = 11_111

-- `numberFlag` and `bigintFlag`: a flag that is absent or empty has the fallback.
unfoldable pub number_flag : Text → Option Text → ℕ → BudgetError ⊎ ℕ
number_flag name none fallback = inr fallback
number_flag name (some []) fallback = inr fallback
number_flag name (some (c ∷ s)) fallback = elim (read_ℕ (c ∷ s)) [
  | none ↦ inl (not_an_integer name)
  | some n ↦ inr n
]

unfoldable pub budget_of : ℕ → ℕ → ℕ → RelayBudgetResult
budget_of duration rate margin = record {
  duration_ms = duration;
  rate_per_ms = rate;
  margin_percent = margin;
  base_cost = rate * duration;
  recommended_max_cost = rate * duration + rate * duration * margin / 100;
}

with_margin : ℕ → ℕ → BudgetError ⊎ ℕ → Budget
unfolding budget_of
with_margin duration rate (inl e) = rejected e
with_margin duration rate (inr margin) =
    if ltb 1000 margin
    then rejected margin_out_of_range
    else computed (budget_of duration rate margin)

with_rate : ℕ → Option Text → BudgetError ⊎ ℕ → Budget
unfolding with_margin
with_rate duration margin_flag (inl e) = rejected e
with_rate duration margin_flag (inr rate) =
    with_margin duration rate (number_flag (codes "margin-percent") margin_flag 0)

with_duration : Option Text → Option Text → Parsed → Budget
unfolding with_rate
with_duration rate_flag margin_flag (bad e) = rejected (duration_error e)
with_duration rate_flag margin_flag (millis duration) =
    with_rate duration margin_flag (number_flag (codes "rate-per-ms") rate_flag default_rate_per_ms)

-- The duration argument and the flags --rate-per-ms and --margin-percent.
unfoldable pub run_relay_budget : Option Text → Option Text → Option Text → Budget
unfolding with_duration
run_relay_budget none rate_flag margin_flag = rejected usage
run_relay_budget (some []) rate_flag margin_flag = rejected usage
run_relay_budget (some (c ∷ s)) rate_flag margin_flag =
    with_duration rate_flag margin_flag (parse_duration (c ∷ s))

-- What every computed budget satisfies.
pub record IsBudget (b : RelayBudgetResult) : Type 0 where
  pub base : b.base_cost ≡ b.rate_per_ms * b.duration_ms
  pub margin : b.margin_percent ≤ 1000
  pub covers_base : b.base_cost ≤ b.recommended_max_cost
  pub lower : 100 * b.recommended_max_cost ≤ b.base_cost * (100 + b.margin_percent)
  pub upper : b.base_cost * (100 + b.margin_percent) < 100 * b.recommended_max_cost + 100

budget_of-IsBudget :
    (duration rate margin : ℕ) → margin ≤ 1000 → IsBudget (budget_of duration rate margin)
unfolding budget_of
budget_of-IsBudget duration rate margin h = record {
  base = refl;
  margin = h;
  covers_base = omega arith;
  lower = omega arith;
  upper = omega arith;
}

with_margin-IsBudget :
    (duration rate : ℕ) (m : BudgetError ⊎ ℕ) (b : RelayBudgetResult)
    → with_margin duration rate m ≡ computed b
    → IsBudget b
unfolding with_margin
with_margin-IsBudget duration rate (inl e) b h = absurd (cc h)
with_margin-IsBudget duration rate (inr margin) b h = elim (Bool-cases (ltb 1000 margin)) [
  | inl beyond ↦ absurd (cc (rw (beyond, with_margin) at h))
  | inr within ↦
      let same : budget_of duration rate margin ≡ b = cc (rw (within, with_margin) at h) in
      rw (← same) (budget_of-IsBudget duration rate margin (ground arith))
]

with_rate-IsBudget :
    (duration : ℕ) (flag : Option Text) (r : BudgetError ⊎ ℕ) (b : RelayBudgetResult)
    → with_rate duration flag r ≡ computed b
    → IsBudget b
unfolding with_rate
with_rate-IsBudget duration flag (inl e) b h = absurd (cc h)
with_rate-IsBudget duration flag (inr rate) b h =
    with_margin-IsBudget duration rate (number_flag (codes "margin-percent") flag 0) b h

with_duration-IsBudget :
    (rate_flag margin_flag : Option Text) (d : Parsed) (b : RelayBudgetResult)
    → with_duration rate_flag margin_flag d ≡ computed b
    → IsBudget b
unfolding with_duration
with_duration-IsBudget rate_flag margin_flag (bad e) b h = absurd (cc h)
with_duration-IsBudget rate_flag margin_flag (millis duration) b h =
    with_rate-IsBudget duration margin_flag
      (number_flag (codes "rate-per-ms") rate_flag default_rate_per_ms) b h

-- A budget that is computed covers its base cost (rate times duration), has a margin of at most
-- 1000 percent, and recommends the base cost with the margin, rounded down to a whole unit.
pub run_relay_budget-IsBudget :
    (duration rate_flag margin_flag : Option Text) (b : RelayBudgetResult)
    → run_relay_budget duration rate_flag margin_flag ≡ computed b
    → IsBudget b
unfolding run_relay_budget
run_relay_budget-IsBudget none rate_flag margin_flag b h = absurd (cc h)
run_relay_budget-IsBudget (some []) rate_flag margin_flag b h = absurd (cc h)
run_relay_budget-IsBudget (some (c ∷ s)) rate_flag margin_flag b h =
    with_duration-IsBudget rate_flag margin_flag (parse_duration (c ∷ s)) b h
