-- ===== src/Breaker/Calls.antt =====
-- The calls of the circuit breaker of common/storage_resilience.cpp, each a step under its mutex.
use Prim.Native.Nat.{min}
use hydra_fs.Prelude.{
  ℕ, ◌+◌, ◌*◌, ◌%◌, ◌^◌, Bool, true, false, not, length, ltb, leb, ◌==◌, if◌then◌else◌,
}
use hydra_fs.Prelude.Int.{ℤ, pos, negsuc}
use hydra_fs.Breaker.Config.{Double, Config}
use hydra_fs.Breaker.State.{Breaker, BreakerDecision, refused, granted, is_tripped, sampled}
use hydra_fs.Breaker.Shared.{
  BreakerSystem, shared_open, shared_marker, try_probe, complete_probe_recovery, publish_open,
}

module _ {D W : Type 0} (doubles : Double D) (config : Config D) (sys : BreakerSystem W) where
  unfoldable pub open_locked : Breaker D → W → Breaker D × W
  open_locked b w =
      let (now, w1) = sys.now w in
      let w2 : W = publish_open config sys b.next_open_ms w1 in
      if ltb now b.local_open_until then (b, w1) else (
        record b {
          local_open_until = now + b.next_open_ms * 1000000;
          next_open_ms = min config.max_open_ms (b.next_open_ms * 2);
          half_open = false;
          probe_in_flight = false;
          half_open_successes = 0;
        },
        w2,
      )

  -- The first probe of a new generation, if the other processes leave it to this one.
  unfoldable pub begin_probe : Breaker D → W → BreakerDecision × Breaker D × W
  begin_probe b w =
      let (acquired, b1, w1) = try_probe config sys b w in
      let generation : ℕ = (b1.next_generation + 1) % 2 ^ 64 in
      if acquired
      then (
        granted generation,
        record b1 {
          half_open = true;
          probe_in_flight = true;
          probe_generation = generation;
          next_generation = generation;
        },
        w1,
      )
      else (refused, b1, w1)

  unfoldable pub allow_half_open : Breaker D → W → BreakerDecision × Breaker D × W
  allow_half_open b w =
      if b.probe_in_flight
      then (refused, b, w)
      else (granted b.probe_generation, record b { probe_in_flight = true }, w)

  unfoldable pub allow_closed : Breaker D → W → BreakerDecision × Breaker D × W
  allow_closed b w =
      let (is_open, w1) = shared_open config sys w in
      let (marked, w2) = shared_marker config sys w1 in
      if is_open
      then (refused, b, w1)
      else (if not (b.local_open_until == 0)
          then begin_probe b w1
          else (if marked then begin_probe b w2 else (granted 0, b, w2)))

  unfoldable pub allow : Breaker D → W → BreakerDecision × Breaker D × W
  allow b w =
      let (now, w1) = sys.now w in
      if ltb now b.local_open_until
      then (refused, b, w1)
      else (if b.half_open then allow_half_open b w1 else allow_closed b w1)

  unfoldable pub record_probe : Bool → Breaker D → W → Breaker D × W
  record_probe success b w =
      if not success
      then open_locked (record b { probe_in_flight = false }) w
      else (if leb 2 (b.half_open_successes + 1)
          then complete_probe_recovery config sys
              (record b {
                probe_in_flight = false;
                local_open_until = 0;
                half_open = false;
                half_open_successes = 0;
                consecutive_failures = 0;
                next_open_ms = config.initial_open_ms;
              })
              w
          else (
            record b { probe_in_flight = false; half_open_successes = b.half_open_successes + 1 },
            w,
          ))

  unfoldable pub record_closed : Bool → Breaker D → W → Breaker D × W
  record_closed success b w =
      let b1 : Breaker D = record b {
        consecutive_failures = if success then 0 else b.consecutive_failures + 1;
      } in
      if ltb (length b1.samples) config.min_samples
      then (b1, w)
      else (if is_tripped doubles config b1 then open_locked b1 w else (b1, w))

  -- `Record`.
  unfoldable pub record_result : (success timed_out : Bool) → ℤ → ℕ → Breaker D → W → Breaker D × W
  record_result success timed_out elapsed_ms probe_generation b w =
      let elapsed : ℕ = elim elapsed_ms [ pos n ↦ n | negsuc n ↦ 0 ] in
      let b1 : Breaker D =
        sampled doubles (record { success = success; timed_out = timed_out; elapsed_ms = elapsed })
          b in
      if b1.half_open
      then (if probe_generation == b1.probe_generation then record_probe success b1 w else (b1, w))
      else record_closed success b1 w
