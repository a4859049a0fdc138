-- ===== src/Relay/Tests.antt =====
-- Tests of the relays, and their properties at concrete inputs.
use proof_cli_baran.Prelude.{
  ℕ, ◌+◌, ◌-◌, ◌<◌, ◌≡◌, refl, sym, ap, ◌∙◌, ◌≢◌, ◌↔◌, Bool, true, false, Option, none, some, List,
  [], ◌∷◌, ◌++◌, arith, length, get_elem?, sort,
}
use proof_cli_baran.Prelude.Text.{Text, codes, text_eq, trim, to_lower_case, join}
use proof_cli_baran.Prelude.Number.{nan, whole, positive_integer}
use Prim.Native.Nat.{Ordering, compare, min}
use mathlib.Core.List.Perm
use proof_cli_baran.Relay.Lifecycle.{
  RelayLifecycleConfig, RelayScheduleEndCandidate, classify_relay_lifecycle,
  normalize_schedule_end_ms, valid_ends, select_earliest_relay_schedule_end, authority_eligible,
}
use proof_cli_baran.Relay.Authority.{
  runway, MovesTo, IsFirstEnd, eligible_iff, classify_mono,
  select_earliest_relay_schedule_end-IsFirstEnd,
}
use proof_cli_baran.Relay.Leadership.{
  active_unique_from, before, settlement_leadership_seed, RelayLeadershipMember,
  SettlementLeadershipInput, SettlementLeadership, elected, grace_seconds,
  ordered_settlement_relay_ids, select_settlement_leader,
}
use proof_cli_baran.Relay.Election.{IsLocaleOrder, with_relays, select_settlement_leader-perm}
use proof_cli_baran.Relay.Failover.{IsActive, failover_schedule}
use proof_cli_baran.Relay.Duration.{
  parse_duration, format_duration, millis, parse_duration-format_duration,
}
use proof_cli_baran.Prelude.Decimal.{read_ℕ}
use proof_cli_baran.Relay.Budget.{
  number_flag, run_relay_budget, computed, budget_of, IsBudget, run_relay_budget-IsBudget,
}

abbrev config : RelayLifecycleConfig
config = record {
  schedule_end_ms = some (whole 5_000_000);
  schedule_end_source = none;
  authority_runway_ms = some (whole 1_000);
}

eligible_iff_example :
    (((classify_relay_lifecycle (some config) 100).authority_eligible_flag ≡ true) ↔ (
      (end : ℕ) × (normalize_schedule_end_ms config.schedule_end_ms ≡ some end)
      × (100 + runway config < end)))
    × (((classify_relay_lifecycle (some config) 100).authority_eligible_flag ≡ true)
        ↔ ((classify_relay_lifecycle (some config) 100).state ≡ authority_eligible))
eligible_iff_example = eligible_iff config 100

classify_mono_example :
    MovesTo
      (classify_relay_lifecycle (some config) 100).state
      (classify_relay_lifecycle (some config) 4_999_500).state
classify_mono_example = classify_mono (some config) 100 4_999_500 (omega arith)

abbrev ends : List RelayScheduleEndCandidate
ends =
    record { schedule_end_ms = some (whole 900); source = codes "chain" }
    ∷ record { schedule_end_ms = some nan; source = codes "env" }
    ∷ record { schedule_end_ms = some (whole 700); source = codes "flag" }
    ∷ []

-- Code units in their order, in place of a locale.
compare_next : Ordering → Ordering → Ordering
compare_next Ordering.lt o = Ordering.lt
compare_next Ordering.gt o = Ordering.gt
compare_next Ordering.eq o = o

abbrev compare_codes : Text → Text → Ordering
compare_codes [] [] = Ordering.eq
compare_codes [] (b ∷ t) = Ordering.lt
compare_codes (a ∷ s) [] = Ordering.gt
compare_codes (a ∷ s) (b ∷ t) = compare_next (compare a b) (compare_codes s t)

abbrev le_codes : Text → Text → Bool
le_codes a b = elim (compare_codes a b) [
  | Ordering.lt ↦ true
  | Ordering.eq ↦ true
  | Ordering.gt ↦ false
]

select_earliest_relay_schedule_end-IsFirstEnd_example :
    IsFirstEnd (select_earliest_relay_schedule_end le_codes ends).schedule_end_ms (valid_ends ends)
select_earliest_relay_schedule_end-IsFirstEnd_example =
    select_earliest_relay_schedule_end-IsFirstEnd le_codes ends

lt_flip_codes : (a b : Text) → compare_codes a b ≡ Ordering.lt → compare_codes b a ≡ Ordering.gt
unfolding compare_next
lt_flip_codes [] [] h = ground arith
lt_flip_codes [] (b ∷ t) h = refl
lt_flip_codes (a ∷ s) [] h = ground arith
lt_flip_codes (a ∷ s) (b ∷ t) h = ground (arith, lt_flip_codes s t)

gt_flip_codes : (a b : Text) → compare_codes a b ≡ Ordering.gt → compare_codes b a ≡ Ordering.lt
unfolding compare_next
gt_flip_codes [] [] h = ground arith
gt_flip_codes [] (b ∷ t) h = ground arith
gt_flip_codes (a ∷ s) [] h = refl
gt_flip_codes (a ∷ s) (b ∷ t) h = ground (arith, gt_flip_codes s t)

eq_same_codes : (a b : Text) → compare_codes a b ≡ Ordering.eq → a ≡ b
unfolding compare_next
eq_same_codes [] [] h = refl
eq_same_codes [] (b ∷ t) h = ground arith
eq_same_codes (a ∷ s) [] h = ground arith
eq_same_codes (a ∷ s) (b ∷ t) h = ground (arith, eq_same_codes s t)

lt_trans_codes :
    (a b c : Text)
    → compare_codes a b ≡ Ordering.lt
    → compare_codes b c ≡ Ordering.lt
    → compare_codes a c ≡ Ordering.lt
unfolding compare_next
lt_trans_codes [] [] c h k = ground arith
lt_trans_codes [] (b ∷ t) [] h k = ground arith
lt_trans_codes [] (b ∷ t) (c ∷ u) h k = refl
lt_trans_codes (a ∷ s) [] c h k = ground arith
lt_trans_codes (a ∷ s) (b ∷ t) [] h k = ground arith
lt_trans_codes (a ∷ s) (b ∷ t) (c ∷ u) h k = ground (arith, lt_trans_codes s t u)

codes_order : IsLocaleOrder compare_codes
codes_order = record {
  lt_flip = lt_flip_codes;
  gt_flip = gt_flip_codes;
  eq_left = λ a b c e. ap (λ t. compare_codes t c) (eq_same_codes a b e);
  eq_right = λ a b c e. ap (λ t. compare_codes c t) (eq_same_codes a b e);
  lt_trans = lt_trans_codes;
}

abbrev member : Text → Option Bool → RelayLeadershipMember
member id active = record { relay_id = id; active = active; weight = none }

abbrev members : List RelayLeadershipMember
members =
    member (codes "b") none ∷ member (codes "a") (some true) ∷ member (codes "c") (some false) ∷ []

abbrev swapped : List RelayLeadershipMember
swapped =
    member (codes "a") (some true) ∷ member (codes "b") none ∷ member (codes "c") (some false) ∷ []

-- The text that is hashed, in place of its hash.
abbrev score_text : Text → Text → Text
score_text seed id = seed ++ id

abbrev window_input : SettlementLeadershipInput
window_input = record {
  registry_address = codes "0x1";
  window_start_text = codes "0";
  window_end_text = codes "600";
  window_end = whole 600;
  shard = none;
  relays = members;
  now_unix_seconds = 735;
  failover_grace_seconds = some (whole 120);
}

select_settlement_leader-perm_example :
    select_settlement_leader score_text compare_codes (with_relays window_input members)
    ≡ select_settlement_leader score_text compare_codes (with_relays window_input swapped)
select_settlement_leader-perm_example =
    select_settlement_leader-perm score_text compare_codes codes_order window_input members swapped
      (λ a b la lb e. eq_same_codes a.relay_id b.relay_id e)
      (Perm.swap (member (codes "a") (some true)) (member (codes "b") none)
        (member (codes "c") (some false) ∷ []))

listed_ids :
    ordered_settlement_relay_ids score_text compare_codes window_input ≡ codes "a" ∷ codes "b" ∷ []
unfolding ordered_settlement_relay_ids sort active_unique_from before settlement_leadership_seed
    join to_lower_case compare_next
listed_ids = refl

listed : ordered_settlement_relay_ids score_text compare_codes window_input ≢ []
listed e = absurd (cc (sym listed_ids ∙ e))

grace_120 : grace_seconds (some (whole 120)) ≡ some 120
unfolding grace_seconds positive_integer
grace_120 = refl

failover_schedule_example :
    (l : SettlementLeadership) × (id : Text) × (select_settlement_leader score_text compare_codes
        window_input
      ≡ elected l)
    × (l.leader_index
        ≡ min 1 (length (ordered_settlement_relay_ids score_text compare_codes window_input) - 1))
    × (l.leader_id ≡ some id)
    × (get_elem? (ordered_settlement_relay_ids score_text compare_codes window_input) l.leader_index
        ≡ some id)
    × IsActive window_input.relays id
failover_schedule_example =
    failover_schedule score_text compare_codes window_input 600 120 1 15 listed grace_120 refl
      (omega arith) refl

parse_duration-format_duration_example :
    parse_duration (format_duration 5_400_000) ≡ millis 5_400_000
parse_duration-format_duration_example = parse_duration-format_duration 5_400_000

budget_lem :
    run_relay_budget (some (codes "10m")) (some (codes "3")) (some (codes "25"))
    ≡ computed (budget_of 600_000 3 25)
unfolding run_relay_budget parse_duration read_ℕ trim text_eq number_flag
budget_lem = refl

run_relay_budget-IsBudget_example : IsBudget (budget_of 600_000 3 25)
run_relay_budget-IsBudget_example =
    run_relay_budget-IsBudget (some (codes "10m")) (some (codes "3")) (some (codes "25"))
      (budget_of 600_000 3 25) budget_lem
