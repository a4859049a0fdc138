-- ===== src/Relay/PeerTests.antt =====
-- The check of peers at a concrete input.
use proof_cli_baran.Prelude.{
  ◌≡◌, ◌⊎◌, true, false, not, ◌&&◌, List, [], ◌∷◌, map, if◌then◌else◌, any, keep,
}
use text.Mathlib.Text.{◌==◌ as str_eq}
use proof_cli_baran.Relay.Peers.{
  Peer, Probe, answered, request_failed, UnreachablePeer, CheckPeerReachabilityResult, checked,
  required_unreachable, is_reached, check_peer_reachability, check_peer_reachability_outcome,
}

abbrev peers : List Peer
peers =
    record { relay_id = "a"; api_base_url = "https://a" }
    ∷ record { relay_id = "b"; api_base_url = "https://b" }
    ∷ []

-- Only the first peer answers.
abbrev probe : Peer → Probe
probe p = if str_eq p.relay_id "a" then answered true 200 else request_failed "timeout"

check_peer_reachability_outcome_example :
    (((true && any (λ p. not (is_reached probe p)) peers) ≡ false)
      × ((r : CheckPeerReachabilityResult) × (check_peer_reachability probe true peers ≡ checked r)
          × (r.reachable ≡ map (λ p. p.relay_id) (keep (is_reached probe) peers))
          × (map (λ u. u.peer) r.unreachable ≡ keep (λ p. not (is_reached probe p)) peers)))
    ⊎ (((true && any (λ p. not (is_reached probe p)) peers) ≡ true)
        × ((us : List UnreachablePeer) × (check_peer_reachability probe true peers
              ≡ required_unreachable us)
            × (map (λ u. u.peer) us ≡ keep (λ p. not (is_reached probe p)) peers)))
check_peer_reachability_outcome_example = check_peer_reachability_outcome probe true peers
