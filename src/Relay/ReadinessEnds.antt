-- ===== src/Relay/ReadinessEnds.antt =====
-- Polling a relay ends.
use proof_cli_baran.Prelude.{
  ℕ, zero, suc, ◌+◌, ◌-◌, ◌*◌, ◌/◌, ◌%◌, ◌≤◌, ◌<◌, ◌≡◌, refl, inl, inr, true, false, Option, none,
  List, arith, leb, leb→le, Bool-cases,
}
use proof_cli_baran.Prelude.Text.{Text}
use native.Mathlib.Nat.{div-add-mod', mod-lt}
use proof_cli_baran.Relay.Status.{Parsed, RelayStatusResult, probe_relay, is_ready}
use proof_cli_baran.Relay.Readiness.{
  World, PollRelayReadinessOptions, PollRelayReadinessResult, Poll, ready, not_ready, probe_once,
  collect, min, poll_loop, poll_relay_readiness, await_start,
}

-- A round before the deadline leaves enough for the rounds after it.
enough_left :
    (g i deadline n n1 n2 n3 : ℕ)
    → deadline ≤ n + g * i
    → n ≤ n1
    → leb deadline n1 ≡ false
    → n1 ≤ n2
    → n2 + min i (deadline - n1) ≤ n3
    → (h : ℕ) × (g ≡ suc h) × (deadline ≤ n3 + h * i)
enough_left zero i deadline n n1 n2 n3 d a early b c = absurd (ground arith)
enough_left (suc h) i deadline n n1 n2 n3 d a early b c = (h, refl, ground arith)

divides_up : (t i : ℕ) → 1 ≤ i → t ≤ (t / i + 1) * i
divides_up t i h =
    let q : t / i * i + t % i ≡ t = div-add-mod' t i in
    let r : t % i < i = mod-lt t h in
    let e : (t / i + 1) * i ≡ t / i * i + i = ground arith in omega arith

module _ {W Json : Type 0} (world : World W) (parse_json : Text → Parsed Json)
    (options : PollRelayReadinessOptions) where
  -- A poll has ended after at most `bound` attempts: with a probe that shows the relay ready, or at
  -- the deadline or later with one that does not.
  pub data Ended (deadline bound : ℕ) : Poll Json × W → Type 0 where
    in_time :
        (r : PollRelayReadinessResult Json) (w : W)
        → is_ready parse_json r.final_probe ≡ true
        → r.attempts ≤ bound
        → Ended deadline bound (ready r, w)
    too_late :
        (attempts : ℕ) (probe : RelayStatusResult Json) (last : Option Text) (w : W)
        → is_ready parse_json probe ≡ false
        → attempts ≤ bound
        → deadline ≤ world.now w
        → Ended deadline bound (not_ready attempts probe last, w)

  module _
      (fetch_later : (t : ℕ) (urls : List Text) (w : W)
        → world.now w ≤ world.now (world.fetch_all t urls w).1)
      (signal_later : (w : W) → world.now w ≤ world.now (world.collect_signal w).1)
      (sleep_later : (n : ℕ) (w : W) → world.now w + n ≤ world.now (world.sleep n w)) where
    probe_later : (w : W) → world.now w ≤ world.now (probe_once world parse_json options w).1
    unfolding probe_once probe_relay
    probe_later w = fetch_later _ _ w

    collect_later :
        (last : Option Text) (w : W)
        → world.now w ≤ world.now (collect world parse_json options last w).1
    unfolding collect
    collect_later last w = elim (Bool-cases options.collects_signal) [
      | inl collecting ↦ rw (collecting, collect) (signal_later w)
      | inr silent ↦ rw (silent, collect) (omega arith)
    ]

    poll_loop-Ended :
        (g fuel start deadline attempts : ℕ) (last : Option Text) (w : W)
        → suc g ≤ fuel
        → deadline ≤ world.now w + g * options.poll_interval_ms
        → Ended deadline
            (attempts + suc g)
            (poll_loop world parse_json options fuel start deadline attempts last w)
    unfolding poll_loop
    poll_loop-Ended g zero start deadline attempts last w f d = absurd (omega arith)
    poll_loop-Ended g (suc fuel) start deadline attempts last w f d =
        let probe : RelayStatusResult Json = (probe_once world parse_json options w).0 in
        let w1 : W = (probe_once world parse_json options w).1 in
        elim (Bool-cases (is_ready parse_json probe)) [
          | inl up ↦ rw (up, poll_loop) (in_time _ w1 up (omega arith))
          | inr down ↦ elim (Bool-cases (leb deadline (world.now w1))) [
            | inl late ↦
                rw (down, late, poll_loop)
                  (too_late _ probe last w1 down (omega arith) (leb→le _ _ late))
            | inr early ↦
                rw (down, early, poll_loop)
                  (let (signal, w2) = collect world parse_json options last w1 in
                    let pause : ℕ = min options.poll_interval_ms (deadline - world.now w1) in
                    let (h, e, d') =
                      enough_left g options.poll_interval_ms deadline (world.now w) (world.now w1)
                        (world.now w2) (world.now (world.sleep pause w2)) d (probe_later w) early
                        (collect_later last w1) (sleep_later pause w2) in
                    let more : suc h ≤ fuel = omega arith in
                    let count : attempts + 1 + suc h ≡ attempts + suc g = omega arith in
                    rw (← count) (
                      poll_loop-Ended h fuel start deadline (attempts + 1) signal
                        (world.sleep pause w2) more d'))
          ]
        ]

    -- Where the poll interval is not zero, no operation sets the clock back and a pause lasts as long
    -- as it is asked to, polling ends within `timeout / interval + 2` attempts: either with a relay
    -- that is ready, or not before the deadline.
    pub poll_relay_readiness-Ended :
        (fuel : ℕ) (w : W)
        → 1 ≤ options.poll_interval_ms
        → options.poll_timeout_ms / options.poll_interval_ms + 2 ≤ fuel
        → Ended
            (world.now (await_start world parse_json options w) + options.poll_timeout_ms)
            (options.poll_timeout_ms / options.poll_interval_ms + 2)
            (poll_relay_readiness world parse_json options fuel w)
    unfolding poll_relay_readiness
    poll_relay_readiness-Ended fuel w some_interval f =
        let i : ℕ = options.poll_interval_ms in
        let t : ℕ = options.poll_timeout_ms in
        let w1 : W = await_start world parse_json options w in
        let covers = divides_up t i some_interval in
        let count : 0 + suc (t / i + 1) ≡ t / i + 2 = omega arith in
        rw (← count) (
          poll_loop-Ended (t / i + 1) fuel (world.now w1) (world.now w1 + t) 0 none w1 (omega arith)
            (omega arith))
