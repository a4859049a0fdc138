-- ===== src/Relay/Leadership.antt =====
-- src/switchboard-core/src/relay-leadership.ts: which relay settles a window, and the failover.
-- `score` is the SHA-256 in hexadecimal of `${seed}:${relayId}`, and `locale_compare` is
-- `localeCompare`. `window_end` is `Number(input.windowEnd)`, and `windows` are `String(windowStart)`
-- and `String(windowEnd)`. Division is exact, not rounded to a double.
use Prim.Native.Nat.{Ordering, min}
use proof_cli_baran.Prelude.{
  ℕ, suc, ◌+◌, ◌-◌, ◌*◌, ◌/◌, ◌^◌, Bool, true, false, not, ◌||◌, Option, none, some, List, [], ◌∷◌,
  if◌then◌else◌, length, get_elem?, sort,
}
use proof_cli_baran.Prelude.Text.{Text, codes, text_eq, to_lower_case, join, mem_text}
use proof_cli_baran.Prelude.Number.{ℤ, pos, negsuc, ◌+ℤ◌, Number, finite, positive_integer}

pub record RelayLeadershipMember : Type 0 where
  pub relay_id : Text
  pub active : Option Bool
  pub weight : Option Number

pub record SettlementLeadershipInput : Type 0 where
  pub registry_address : Text
  pub window_start_text : Text
  pub window_end_text : Text
  pub window_end : Number
  pub shard : Option Text
  pub relays : List RelayLeadershipMember
  pub now_unix_seconds : ℕ
  pub failover_grace_seconds : Option Number

pub record SettlementLeadership : Type 0 where
  pub seed : Text
  pub ordered_relay_ids : List Text
  pub leader_id : Option Text
  pub leader_index : ℕ
  pub failover_grace_seconds : ℕ
  pub primary_deadline_unix_seconds : Number

pub data LeadershipError : Type 0 where
  failover_grace_not_positive window_end_not_numeric : LeadershipError

-- `undefined`, a leadership, or what is thrown.
pub data Selection : Type 0 where
  nobody : Selection
  elected : SettlementLeadership → Selection
  failed : LeadershipError → Selection

or_default : Option Text → Text
or_default none = codes "default"
or_default (some s) = s

unfoldable pub settlement_leadership_seed : SettlementLeadershipInput → Text
unfolding or_default
settlement_leadership_seed input = join b':' (
    to_lower_case input.registry_address
    ∷ input.window_start_text
    ∷ input.window_end_text
    ∷ or_default input.shard
    ∷ [])

-- `(relay.active ?? true) === false || !relay.relayId`
unfoldable pub is_skipped : RelayLeadershipMember → Bool
is_skipped r = elim r.active [
  | none ↦ text_eq r.relay_id []
  | some a ↦ not a || text_eq r.relay_id []
]

unfoldable pub active_unique_from : List Text → List RelayLeadershipMember → List Text
unfolding is_skipped mem_text
active_unique_from seen [] = []
active_unique_from seen (r ∷ rs) =
    let kept = r.relay_id ∷ active_unique_from (r.relay_id ∷ seen) rs in
    let skipped = active_unique_from seen rs in
    if is_skipped r || mem_text r.relay_id seen then skipped else kept

-- `input.failoverGraceSeconds ?? 300`, if it is a positive integer.
unfoldable pub grace_seconds : Option Number → Option ℕ
grace_seconds none = some 300
grace_seconds (some x) = positive_integer x

-- `Math.floor(Math.max(0, now - windowEnd) / grace)`
unfoldable pub elapsed_graces : ℕ → ℤ → ℕ → ℕ → ℕ
elapsed_graces now (pos n) k grace = (now * 2 ^ k - n) / (2 ^ k * grace)
elapsed_graces now (negsuc n) k grace = (now * 2 ^ k + suc n) / (2 ^ k * grace)

unfoldable pub elect : SettlementLeadershipInput → List Text → ℕ → ℤ → ℕ → SettlementLeadership
unfolding elapsed_graces
elect input ids grace n k =
    let index = min (elapsed_graces input.now_unix_seconds n k grace) (length ids - 1) in
    record {
      seed = settlement_leadership_seed input;
      ordered_relay_ids = ids;
      leader_id = get_elem? ids index;
      leader_index = index;
      failover_grace_seconds = grace;
      primary_deadline_unix_seconds = finite (n +ℤ pos (grace * 2 ^ k)) k;
    }

elect_if_numeric : SettlementLeadershipInput → List Text → ℕ → Number → Selection
elect_if_numeric input ids grace (finite n k) = elected (elect input ids grace n k)
elect_if_numeric input ids grace _ = failed window_end_not_numeric

elect_among : SettlementLeadershipInput → List Text → Selection
unfolding elect_if_numeric grace_seconds
elect_among input [] = nobody
elect_among input (x ∷ xs) = elim (grace_seconds input.failover_grace_seconds) [
  | none ↦ failed failover_grace_not_positive
  | some grace ↦ elect_if_numeric input (x ∷ xs) grace input.window_end
]

leads : Selection → Text → Option Bool
leads nobody relay_id = some false
leads (elected l) relay_id = elim l.leader_id [
  | none ↦ some false
  | some id ↦ some (text_eq id relay_id)
]
leads (failed e) relay_id = none

module _ (score : Text → Text → Text) (locale_compare : Text → Text → Ordering) where
  -- The comparator `score || relayId` of the sort.
  unfoldable pub before : Text → Text → Text → Bool
  before seed left right = elim (locale_compare (score seed left) (score seed right)) [
    | Ordering.lt ↦ true
    | Ordering.gt ↦ false
    | Ordering.eq ↦ elim (locale_compare left right) [ Ordering.gt ↦ false | _ ↦ true ]
  ]

  unfoldable pub ordered_settlement_relay_ids : SettlementLeadershipInput → List Text
  ordered_settlement_relay_ids input =
      sort (before (settlement_leadership_seed input)) (active_unique_from [] input.relays)

  unfoldable pub select_settlement_leader : SettlementLeadershipInput → Selection
  unfolding elect_among
  select_settlement_leader input = elect_among input (ordered_settlement_relay_ids input)

  -- `none` where the selection throws.
  unfoldable pub is_settlement_leader : SettlementLeadershipInput → Text → Option Bool
  unfolding leads
  is_settlement_leader input relay_id = leads (select_settlement_leader input) relay_id
