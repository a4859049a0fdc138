-- ===== src/Relay/Lifecycle.antt =====
-- src/switchboard-core/src/relay-lifecycle.ts: may a relay hold authority at this time, given the end
-- of its schedule. Times are milliseconds; `now` is a clock's reading, a whole number.
use proof_cli_baran.Prelude.{
  ℕ, ◌+◌, Bool, true, false, not, ◌||◌, Option, none, some, List, [], ◌∷◌, map, ltb, leb, ◌==◌,
  if◌then◌else◌, keep, sort,
}
use proof_cli_baran.Prelude.Text.{Text, codes, join, unique_from}
use proof_cli_baran.Prelude.Number.{
  ℤ, pos, pos_part, neg_part, sub_ℕ, leb_ℤ, Number, is_finite, is_le_zero, is_lt_zero, floor_ℕ,
}

abbrev pub default_relay_authority_runway_ms : ℕ
default_relay_authority_runway_ms = 600_000

pub data RelayAuthorityState : Type 0 where
  authority_eligible draining expired unknown : RelayAuthorityState

pub data Reason : Type 0 where
  lifecycle_not_configured schedule_end_unknown schedule_expired inside_authority_runway
        authority_runway_available :
      Reason

pub record RelayLifecycleConfig : Type 0 where
  pub schedule_end_ms : Option Number
  pub schedule_end_source : Option Text
  pub authority_runway_ms : Option Number

-- An ISO text is kept as the milliseconds that it shows.
pub record RelayLifecycleStatus : Type 0 where
  pub configured : Bool
  pub state : RelayAuthorityState
  pub authority_eligible_flag : Bool
  pub reason : Reason
  pub schedule_end_ms : Option ℕ
  pub schedule_end_iso : Option ℤ
  pub schedule_end_source : Option Text
  pub authority_runway_ms : ℕ
  pub authority_cutoff_ms : Option ℤ
  pub authority_cutoff_iso : Option ℤ
  pub milliseconds_remaining : Option ℤ

unfoldable pub normalize_schedule_end_ms : Option Number → Option ℕ
normalize_schedule_end_ms none = none
normalize_schedule_end_ms (some x) =
    if not (is_finite x) || is_le_zero x then none else some (floor_ℕ x)

unfoldable pub normalize_authority_runway_ms : Option Number → ℕ
normalize_authority_runway_ms none = default_relay_authority_runway_ms
normalize_authority_runway_ms (some x) =
    if not (is_finite x) || is_lt_zero x then default_relay_authority_runway_ms else floor_ℕ x

-- `toISOString` throws outside the range of a `Date`.
unfoldable pub safe_iso : ℤ → Option ℤ
safe_iso ms = if leb (pos_part ms + neg_part ms) 8_640_000_000_000_000 then some ms else none

unfoldable pub source_or_unknown : Option Text → Text
source_or_unknown none = codes "unknown"
source_or_unknown (some s) = s

runway_of : Option RelayLifecycleConfig → Option Number
runway_of none = none
runway_of (some c) = c.authority_runway_ms

-- The tests on the clock, for a known end and runway.
unfoldable pub classify_at : ℕ → ℕ → ℕ → RelayAuthorityState
classify_at end runway now =
    if leb end now
    then expired
    else if leb_ℤ (sub_ℕ end runway) (pos now)
    then draining
    else authority_eligible

unfoldable pub reason_of : RelayAuthorityState → Reason
reason_of expired = schedule_expired
reason_of draining = inside_authority_runway
reason_of authority_eligible = authority_runway_available
reason_of unknown = schedule_end_unknown

unfoldable pub is_eligible : RelayAuthorityState → Bool
is_eligible authority_eligible = true
is_eligible _ = false

unfoldable pub classify_scheduled : ℕ → Option Text → ℕ → ℕ → RelayLifecycleStatus
unfolding classify_at reason_of is_eligible safe_iso source_or_unknown
classify_scheduled end source runway now = record {
  configured = true;
  state = classify_at end runway now;
  authority_eligible_flag = is_eligible (classify_at end runway now);
  reason = reason_of (classify_at end runway now);
  schedule_end_ms = some end;
  schedule_end_iso = safe_iso (pos end);
  schedule_end_source = some (source_or_unknown source);
  authority_runway_ms = runway;
  authority_cutoff_ms = some (sub_ℕ end runway);
  authority_cutoff_iso = safe_iso (sub_ℕ end runway);
  milliseconds_remaining = some (sub_ℕ end now);
}

not_scheduled : Bool → RelayAuthorityState → Bool → Reason → Option Text → ℕ → RelayLifecycleStatus
not_scheduled configured state eligible reason source runway = record {
  configured = configured;
  state = state;
  authority_eligible_flag = eligible;
  reason = reason;
  schedule_end_ms = none;
  schedule_end_iso = none;
  schedule_end_source = source;
  authority_runway_ms = runway;
  authority_cutoff_ms = none;
  authority_cutoff_iso = none;
  milliseconds_remaining = none;
}

unfoldable pub classify_relay_lifecycle : Option RelayLifecycleConfig → ℕ → RelayLifecycleStatus
unfolding classify_scheduled not_scheduled runway_of source_or_unknown
classify_relay_lifecycle none now =
    not_scheduled false authority_eligible true lifecycle_not_configured none
      (normalize_authority_runway_ms (runway_of none))
classify_relay_lifecycle (some c) now = elim (normalize_schedule_end_ms c.schedule_end_ms) [
  | none ↦
      not_scheduled true unknown false schedule_end_unknown
        (some (source_or_unknown c.schedule_end_source))
        (normalize_authority_runway_ms (runway_of (some c)))
  | some end ↦
      classify_scheduled end c.schedule_end_source
        (normalize_authority_runway_ms (runway_of (some c))) now
]

pub record RelayScheduleEndCandidate : Type 0 where
  pub schedule_end_ms : Option Number
  pub source : Text

-- A candidate whose end is a number that counts.
pub record ValidEnd : Type 0 where
  pub schedule_end_ms : ℕ
  pub source : Text

pub record EarliestScheduleEnd : Type 0 where
  pub schedule_end_ms : Option ℕ
  pub schedule_end_source : Text

valid_end : ℕ → Text → ValidEnd
valid_end ms source = record { schedule_end_ms = ms; source = source }

unfoldable pub valid_ends : List RelayScheduleEndCandidate → List ValidEnd
unfolding valid_end
valid_ends [] = []
valid_ends (c ∷ cs) =
    let rest = valid_ends cs in
    elim (normalize_schedule_end_ms c.schedule_end_ms) [
      | none ↦ rest
      | some ms ↦ valid_end ms c.source ∷ rest
    ]

-- `locale_le` is the order of `localeCompare` on the sources.
module _ (locale_le : Text → Text → Bool) where
  abbrev pub by_end : ValidEnd → ValidEnd → Bool
  by_end left right =
      if left.schedule_end_ms == right.schedule_end_ms
      then locale_le left.source right.source
      else ltb left.schedule_end_ms right.schedule_end_ms

  earliest_of : List ValidEnd → EarliestScheduleEnd
  earliest_of [] = record { schedule_end_ms = none; schedule_end_source = codes "unknown" }
  earliest_of (earliest ∷ rest) = record {
    schedule_end_ms = some earliest.schedule_end_ms;
    schedule_end_source = join b'+' (
        unique_from [] (
          map (λ c. c.source)
            (keep (λ c. c.schedule_end_ms == earliest.schedule_end_ms) (earliest ∷ rest))));
  }

  unfoldable pub select_earliest_relay_schedule_end :
      List RelayScheduleEndCandidate → EarliestScheduleEnd
  unfolding earliest_of
  select_earliest_relay_schedule_end candidates = earliest_of (sort by_end (valid_ends candidates))
