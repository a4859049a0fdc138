-- ===== src/Relay/Peers.antt =====
-- `checkPeerReachability` of src/switchboard-core/cli/src/relay/readiness.ts. What a health probe of a
-- peer gives, an answer or a failure of the request, is a parameter.
use proof_cli_baran.Prelude.{
  ℕ, ◌≡◌, refl, sym, ap, ◌∙◌, ◌⊎◌, inl, inr, Bool, true, false, not, ◌&&◌, List, [], ◌∷◌, ◌++◌, map,
  arith, ltb, if◌then◌else◌, Bool-cases, length, any, keep,
}
use mathlib.Core.List.{append-nil, append_assoc, map-append}
use Prim.Native.String.{String}

pub record Peer : Type 0 where
  pub relay_id : String
  pub api_base_url : String

-- An answer with its status and whether that is a success, or the message of an error.
pub data Probe : Type 0 where
  answered : Bool → ℕ → Probe
  request_failed : String → Probe

pub data Reason : Type 0 where
  http_status : ℕ → Reason
  message : String → Reason

pub record UnreachablePeer : Type 0 where
  pub peer : Peer
  pub reason : Reason

pub record CheckPeerReachabilityResult : Type 0 where
  pub reachable : List String
  pub unreachable : List UnreachablePeer

-- `required_unreachable` is the error where peers are required.
pub data Reachability : Type 0 where
  checked : CheckPeerReachabilityResult → Reachability
  required_unreachable : List UnreachablePeer → Reachability

pub data Verdict : Type 0 where
  reached : Verdict
  missed : Reason → Verdict

unfoldable pub verdict_of : Probe → Verdict
verdict_of (answered true status) = reached
verdict_of (answered false status) = missed (http_status status)
verdict_of (request_failed m) = missed (message m)

-- An answer with success.
abbrev pub is_success : Probe → Bool
is_success (answered success status) = success
is_success (request_failed m) = false

module _ (probe : Peer → Probe) where
  -- One round of the loop: a peer goes to the end of one of the two lists.
  unfoldable pub record_peer : CheckPeerReachabilityResult → Peer → CheckPeerReachabilityResult
  unfolding verdict_of
  record_peer r p = elim (verdict_of (probe p)) [
    | reached ↦ record r { reachable = r.reachable ++ p.relay_id ∷ [] }
    | missed reason ↦ record r {
      unreachable = r.unreachable ++ record { peer = p; reason = reason } ∷ [];
    }
  ]

  unfoldable pub probe_all : CheckPeerReachabilityResult → List Peer → CheckPeerReachabilityResult
  unfolding record_peer
  probe_all r [] = r
  probe_all r (p ∷ ps) = probe_all (record_peer r p) ps

  unfoldable pub check_peer_reachability : Bool → List Peer → Reachability
  unfolding probe_all
  check_peer_reachability required peers =
      let r = probe_all (record { reachable = []; unreachable = [] }) peers in
      if required && ltb 0 (length r.unreachable)
      then required_unreachable r.unreachable
      else checked r

  abbrev pub is_reached : Peer → Bool
  is_reached p = is_success (probe p)

  probe_cases :
      (a : Probe)
      → ((is_success a ≡ true) × (verdict_of a ≡ reached))
        ⊎ ((is_success a ≡ false) × ((reason : Reason) × (verdict_of a ≡ missed reason)))
  unfolding verdict_of
  probe_cases (answered true status) = inl (refl, refl)
  probe_cases (answered false status) = inr (refl, (http_status status, refl))
  probe_cases (request_failed m) = inr (refl, (message m, refl))

  probe_all_lem :
      (r : CheckPeerReachabilityResult) (peers : List Peer)
      → ((probe_all r peers).reachable
          ≡ r.reachable ++ map (λ p. p.relay_id) (keep is_reached peers))
        × (map (λ u. u.peer) (probe_all r peers).unreachable
            ≡ map (λ u. u.peer) r.unreachable ++ keep (λ p. not (is_reached p)) peers)
  unfolding probe_all
  probe_all_lem r [] =
      (sym (append-nil r.reachable), sym (append-nil (map (λ u. u.peer) r.unreachable)))
  probe_all_lem r (p ∷ ps) = elim (probe_cases (probe p)) [
    | inl (here, up) ↦
        let next : CheckPeerReachabilityResult = record r {
          reachable = r.reachable ++ p.relay_id ∷ [];
        } in
        let step : record_peer r p ≡ next = rw (up, record_peer) in
        let (reachable, unreachable) = probe_all_lem next ps in
        rw (probe_all, step, here)
          (
            reachable
                ∙ append_assoc r.reachable (p.relay_id ∷ [])
                    (map (λ q. q.relay_id) (keep is_reached ps)),
            unreachable,
          )
    | inr (here, (reason, down)) ↦
        let entry : UnreachablePeer = record { peer = p; reason = reason } in
        let next : CheckPeerReachabilityResult = record r {
          unreachable = r.unreachable ++ entry ∷ [];
        } in
        let step : record_peer r p ≡ next = rw (down, record_peer) in
        let (reachable, unreachable) = probe_all_lem next ps in
        rw (probe_all, step, here)
          (
            reachable,
            unreachable
                ∙ ap (λ (l : List Peer). l ++ keep (λ q. not (is_reached q)) ps)
                    (map-append (λ u. u.peer) r.unreachable (entry ∷ []))
                ∙ append_assoc (map (λ u. u.peer) r.unreachable) (p ∷ [])
                    (keep (λ q. not (is_reached q)) ps),
          )
  ]

  nonempty :
      {q : Peer} {qs : List Peer} (us : List UnreachablePeer)
      → map (λ u. u.peer) us ≡ q ∷ qs
      → ltb 0 (length us) ≡ true
  nonempty [] e = absurd (cc e)
  nonempty (u ∷ us) e = ground arith

  some_missed :
      (us : List UnreachablePeer) (peers : List Peer)
      → map (λ u. u.peer) us ≡ keep (λ p. not (is_reached p)) peers
      → ltb 0 (length us) ≡ any (λ p. not (is_reached p)) peers
  some_missed [] [] e = refl
  some_missed (u ∷ us) [] e = absurd (cc e)
  some_missed us (p ∷ ps) e = elim (Bool-cases (is_reached p)) [
    | inl up ↦ rw up (some_missed us ps (rw up at e))
    | inr down ↦ rw down (nonempty us (rw down at e))
  ]

  -- Where reaching the peers is not required, or every one is reached, the check gives the ids of those
  -- that answer with success and the others as unreachable, each in the order of the peers; where it
  -- is required and one is not reached, the check fails with the unreachable ones.
  pub check_peer_reachability_outcome :
      (required : Bool) (peers : List Peer)
      → (((required && any (λ p. not (is_reached p)) peers) ≡ false)
          × ((r : CheckPeerReachabilityResult) × (check_peer_reachability required peers
                ≡ checked r)
              × (r.reachable ≡ map (λ p. p.relay_id) (keep is_reached peers))
              × (map (λ u. u.peer) r.unreachable ≡ keep (λ p. not (is_reached p)) peers)))
        ⊎ (((required && any (λ p. not (is_reached p)) peers) ≡ true)
            × ((us : List UnreachablePeer) × (check_peer_reachability required peers
                  ≡ required_unreachable us)
                × (map (λ u. u.peer) us ≡ keep (λ p. not (is_reached p)) peers)))
  unfolding check_peer_reachability
  check_peer_reachability_outcome required peers =
      let start : CheckPeerReachabilityResult = record { reachable = []; unreachable = [] } in
      let r : CheckPeerReachabilityResult = probe_all start peers in
      let (reachable, unreachable) = probe_all_lem start peers in
      let count : ltb 0 (length r.unreachable) ≡ any (λ p. not (is_reached p)) peers =
        some_missed r.unreachable peers unreachable in
      elim (Bool-cases (required && any (λ p. not (is_reached p)) peers)) [
        | inr fine ↦ inl (fine, (r, rw (count, fine), reachable, unreachable))
        | inl failing ↦ inr (failing, (r.unreachable, rw (count, failing), unreachable))
      ]
