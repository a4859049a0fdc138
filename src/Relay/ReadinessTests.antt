-- ===== src/Relay/ReadinessTests.antt =====
-- Polling at concrete inputs: the outside is a clock.
use proof_cli_baran.Prelude.{ℕ, ◌+◌, ◌≡◌, refl, true, none, some, arith}
use proof_cli_baran.Prelude.Text.{Text, codes}
use proof_cli_baran.Relay.Status.{no_response, Parsed, value, probe_relay}
use proof_cli_baran.Relay.Readiness.{
  World, PollRelayReadinessOptions, Poll, observed, ready, not_ready, poll_relay_readiness,
  await_start, collect, poll_loop, probe_once,
}
use proof_cli_baran.Relay.ReadinessEnds.{Ended, poll_relay_readiness-Ended}

-- No request is answered, and each round of requests takes 7 ms.
abbrev unanswered : World ℕ
unanswered = record {
  now = λ t. t;
  fetch_all = λ _ _ t. ((λ _. no_response 7 (codes "refused")), t + 7);
  sleep = λ n t. t + n;
  collect_signal = λ t. (observed none, t + 1);
}

abbrev parse_any : Text → Parsed Text
parse_any t = value t

abbrev options : PollRelayReadinessOptions
options = record {
  api_base_url = codes "http://a";
  relay_id = codes "a";
  poll_interval_ms = 10;
  poll_timeout_ms = 45;
  start_at_ms = some 100;
  start_at_grace_ms = some 20;
  collects_signal = true;
}

poll_relay_readiness-Ended_example :
    Ended unanswered parse_any options
      (await_start unanswered parse_any options 50 + 45)
      6
      (poll_relay_readiness unanswered parse_any options 6 50)
poll_relay_readiness-Ended_example =
    poll_relay_readiness-Ended unanswered parse_any options (λ _ _ t. omega arith)
      (λ t. omega arith) (λ n t. omega arith) 6 50 (omega arith) (omega arith)

abbrev attempts_of : Poll Text → ℕ
attempts_of (ready r) = r.attempts
attempts_of (not_ready n _ _) = n
attempts_of _ = 0

gives_up :
    (attempts_of (poll_relay_readiness unanswered parse_any options 6 50).0 ≡ 4)
    × ((poll_relay_readiness unanswered parse_any options 6 50).1 ≡ 173)
unfolding poll_relay_readiness collect poll_loop probe_once probe_relay
gives_up = (refl, refl)
