-- ===== src/Relay/Failover.antt =====
-- Who leads when: the leader is an active listed relay, and leadership passes down the order of
-- succession by one place for each grace period after the window's end.
use Prim.Native.Nat.{Ordering, min}
use proof_cli_baran.Prelude.{
  ℕ, zero, suc, ◌+◌, ◌-◌, ◌*◌, ◌<◌, ◌≡◌, refl, ap, ◌≢◌, inl, inr, true, false, not, ◌&&◌, ◌||◌,
  some, List, [], ◌∷◌, arith, Bool-cases, length, get_elem?, any, All, All-mono,
}
use proof_cli_baran.Prelude.Text.{Text, text_eq, text_eq_refl, mem_text}
use proof_cli_baran.Prelude.Number.{ℤ, pos, finite, whole}
use proof_cli_baran.Prelude.Sorting.{All-sort}
use proof_cli_baran.Relay.Leadership.{
  RelayLeadershipMember, SettlementLeadershipInput, SettlementLeadership, elected, is_skipped,
  active_unique_from, before, settlement_leadership_seed, ordered_settlement_relay_ids,
  grace_seconds, elapsed_graces, elect, select_settlement_leader,
}

module _ (listed : List RelayLeadershipMember) where
  -- A listed relay with the id that is not skipped.
  abbrev pub IsActive : Text → Type 0
  IsActive id = any (λ r. not (is_skipped r) && text_eq r.relay_id id) listed ≡ true

abbrev Sound : List RelayLeadershipMember → RelayLeadershipMember → Type 0
Sound listed r = (is_skipped r ≡ false) → IsActive listed r.relay_id

All-Sound : (rs : List RelayLeadershipMember) → All (Sound rs) rs
All-Sound [] = tt
All-Sound (r ∷ rs) = (
  λ kept. ground (arith, text_eq_refl r.relay_id),
  All-mono (Sound rs) (Sound (r ∷ rs)) (λ q h kept. ground (arith, h kept)) rs (All-Sound rs),
)

active_unique_from-All :
    (listed : List RelayLeadershipMember) (seen : List Text) (rs : List RelayLeadershipMember)
    → All (Sound listed) rs
    → All (IsActive listed) (active_unique_from seen rs)
unfolding active_unique_from
active_unique_from-All listed seen [] h = tt
active_unique_from-All listed seen (r ∷ rs) (q, h) =
    elim (Bool-cases (is_skipped r || mem_text r.relay_id seen)) [
      | inl out ↦ rw out (active_unique_from-All listed seen rs h)
      | inr kept ↦
          rw kept (q (ground arith), active_unique_from-All listed (r.relay_id ∷ seen) rs h)
    ]

get_elem?-All :
    (P : Text → Type 0) (xs : List Text) (i : ℕ)
    → i < length xs
    → All P xs
    → (x : Text) × (get_elem? xs i ≡ some x) × P x
get_elem?-All P [] i h a = absurd (omega arith)
get_elem?-All P (x ∷ xs) zero h a = (x, refl, a.0)
get_elem?-All P (x ∷ xs) (suc i) h a = get_elem?-All P xs i (omega arith) a.1

module _ (score : Text → Text → Text) (compare : Text → Text → Ordering) where
  -- The leadership that follows from the tests that pass.
  select_settlement_leader_numeric :
      (input : SettlementLeadershipInput) (n : ℤ) (k grace : ℕ)
      → ordered_settlement_relay_ids score compare input ≢ []
      → grace_seconds input.failover_grace_seconds ≡ some grace
      → input.window_end ≡ finite n k
      → select_settlement_leader score compare input
        ≡ elected (elect input (ordered_settlement_relay_ids score compare input) grace n k)
  unfolding select_settlement_leader
  select_settlement_leader_numeric input n k grace ne g w = ground arith

  ordered-IsActive :
      (input : SettlementLeadershipInput)
      → All (IsActive input.relays) (ordered_settlement_relay_ids score compare input)
  unfolding ordered_settlement_relay_ids
  ordered-IsActive input =
      All-sort (before score compare (settlement_leadership_seed input)) (IsActive input.relays)
        (active_unique_from [] input.relays)
        (active_unique_from-All input.relays [] input.relays (All-Sound input.relays))

  graces_elapsed :
      (window grace i r : ℕ)
      → r < grace
      → elapsed_graces (window + i * grace + r) (pos window) 0 grace ≡ i
  unfolding elapsed_graces
  graces_elapsed window grace i r h = grind arith

  elect_index :
      (input : SettlementLeadershipInput) (ids : List Text) (window grace i r : ℕ)
      → r < grace
      → input.now_unix_seconds ≡ window + i * grace + r
      → (elect input ids grace (pos window) 0).leader_index ≡ min i (length ids - 1)
  unfolding elect
  elect_index input ids window grace i r fits now =
      rw now (ap (λ (n : ℕ). min n (length ids - 1)) (graces_elapsed window grace i r fits))

  min_below :
      (ids : List Text) (index i : ℕ)
      → ids ≢ []
      → index ≡ min i (length ids - 1)
      → index < length ids
  min_below [] index i ne e = absurd (ne refl)
  min_below (x ∷ xs) index i ne e = omega arith

  -- There is an active relay, the grace period is valid and the window's end is a whole number of
  -- seconds. When `i` grace periods and less than one more have passed since then, a leader is
  -- elected: an active listed relay, in place `i` of the order of succession, or in the last place
  -- once all others have had their turn.
  pub failover_schedule :
      (input : SettlementLeadershipInput) (window grace i r : ℕ)
      → ordered_settlement_relay_ids score compare input ≢ []
      → grace_seconds input.failover_grace_seconds ≡ some grace
      → input.window_end ≡ whole window
      → r < grace
      → input.now_unix_seconds ≡ window + i * grace + r
      → (l : SettlementLeadership) × (id : Text) × (select_settlement_leader score compare input
          ≡ elected l)
        × (l.leader_index ≡ min i (length (ordered_settlement_relay_ids score compare input) - 1))
        × (l.leader_id ≡ some id)
        × (get_elem? (ordered_settlement_relay_ids score compare input) l.leader_index ≡ some id)
        × IsActive input.relays id
  failover_schedule input window grace i r ne g w fits now =
      let ids = ordered_settlement_relay_ids score compare input in
      let l = elect input ids grace (pos window) 0 in
      let place : l.leader_index ≡ min i (length ids - 1) =
        elect_index input ids window grace i r fits now in
      let (id, found, active) =
        get_elem?-All (IsActive input.relays) ids l.leader_index
          (min_below ids l.leader_index i ne place) (ordered-IsActive input) in
      (
        l,
        id,
        select_settlement_leader_numeric input (pos window) 0 grace ne g w,
        place,
        unfold elect in found,
        found,
        active,
      )
