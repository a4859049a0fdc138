-- ===== src/Relay/Readiness.antt =====
-- Polling of a relay until it is ready (`pollRelayReadiness` of
-- src/switchboard-core/cli/src/relay/readiness.ts). The state of the outside is a parameter, with its
-- clock and what requests, sleeping and the supplementary signal do to it.
use proof_cli_baran.Prelude.{
  ℕ, zero, suc, ◌+◌, ◌-◌, Bool, Option, none, some, List, [], ◌∷◌, ltb, leb, if◌then◌else◌,
}
use proof_cli_baran.Prelude.Text.{Text}
use proof_cli_baran.Prelude.Number.{ℤ, pos, ◌-ℤ◌}
use proof_cli_baran.Discovery.Catalogs.{RelayCatalogInputEntry}
use proof_cli_baran.Relay.Status.{Fetched, Parsed, RelayStatusResult, probe_relay, is_ready}

pub record PollRelayReadinessOptions : Type 0 where
  pub api_base_url : Text
  pub relay_id : Text
  pub poll_interval_ms : ℕ
  pub poll_timeout_ms : ℕ
  pub start_at_ms : Option ℕ
  pub start_at_grace_ms : Option ℕ
  pub collects_signal : Bool

-- What a supplementary probe gives, or the message of its error.
pub data Signal : Type 0 where
  observed : Option Text → Signal
  signal_failed : Text → Signal

pub record World (W : Type 0) : Type 0 where
  pub now : W → ℕ
  pub fetch_all : ℕ → List Text → W → (Text → Fetched) × W
  pub sleep : ℕ → W → W
  pub collect_signal : W → Signal × W

pub record PollRelayReadinessResult (Json : Type 0) : Type 0 where
  pub attempts : ℕ
  pub duration_ms : ℤ
  pub final_probe : RelayStatusResult Json
  pub supplementary_signal : Option Text

-- `not_ready` is the error after the deadline; `out_of_fuel` is no result of the code.
pub data Poll (Json : Type 0) : Type 0 where
  ready : PollRelayReadinessResult Json → Poll Json
  not_ready : ℕ → RelayStatusResult Json → Option Text → Poll Json
  out_of_fuel : Poll Json

abbrev pub min : ℕ → ℕ → ℕ
min a b = if leb a b then a else b

abbrev pub max : ℕ → ℕ → ℕ
max a b = if leb a b then b else a

-- The last signal that is not empty.
unfoldable pub latest_signal : Option Text → Signal → Option Text
latest_signal last (observed (some (c ∷ s))) = some (c ∷ s)
latest_signal last (observed (some [])) = last
latest_signal last (observed none) = last
latest_signal last (signal_failed _) = last

module _ {W Json : Type 0} (world : World W) (parse_json : Text → Parsed Json)
    (options : PollRelayReadinessOptions) where
  entry_of : RelayCatalogInputEntry
  entry_of = record {
    relay_id = options.relay_id;
    api_base_url = options.api_base_url;
    validation_report_url = none;
    control_plane_url = none;
    state = none;
    active_flag = none;
    weight = none;
    capabilities = none;
    metadata = none;
  }

  unfoldable pub await_start : W → W
  await_start w = elim options.start_at_ms [
    | none ↦ w
    | some start_at ↦
        let grace : ℕ = elim options.start_at_grace_ms [ none ↦ 30000 | some g ↦ g ] in
        let target : ℕ = start_at + grace in
        if ltb (world.now w) target then world.sleep (target - world.now w) w else w
  ]

  unfoldable pub probe_once : W → RelayStatusResult Json × W
  unfolding entry_of
  probe_once =
      probe_relay parse_json world.fetch_all entry_of (some (max 1000 options.poll_interval_ms))

  unfoldable pub collect : Option Text → W → Option Text × W
  unfolding latest_signal
  collect last w =
      let (signal, after) = world.collect_signal w in
      if options.collects_signal then (latest_signal last signal, after) else (last, w)

  -- The loop, on fuel: `attempts` and `last` are its variables.
  unfoldable pub poll_loop : ℕ → ℕ → ℕ → ℕ → Option Text → W → Poll Json × W
  poll_loop zero start deadline attempts last w = (out_of_fuel, w)
  poll_loop (suc fuel) start deadline attempts last w =
      let (probe, w1) = probe_once w in
      let (signal, w2) = collect last w1 in
      let pause : ℕ = min options.poll_interval_ms (deadline - world.now w1) in
      let rest = poll_loop fuel start deadline (attempts + 1) signal (world.sleep pause w2) in
      if is_ready parse_json probe
      then (
        ready (record {
          attempts = attempts + 1;
          duration_ms = pos (world.now w1) -ℤ pos start;
          final_probe = probe;
          supplementary_signal = last;
        }),
        w1,
      )
      else if leb deadline (world.now w1)
      then (not_ready (attempts + 1) probe last, w1)
      else rest

  unfoldable pub poll_relay_readiness : ℕ → W → Poll Json × W
  unfolding await_start
  poll_relay_readiness fuel w =
      let w1 : W = await_start w in
      let start : ℕ = world.now w1 in
      poll_loop fuel start (start + options.poll_timeout_ms) 0 none w1
