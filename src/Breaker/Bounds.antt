-- ===== src/Breaker/Bounds.antt =====
-- The bounds of the circuit breaker of common/storage_resilience.cpp: its window, its times, and how
-- long it stays open.
use hydra_fs.Prelude.{
  ℕ, suc, ◌+◌, ◌-◌, ◌*◌, ◌≤◌, ◌<◌, ◌≡◌, ◌⊎◌, inl, inr, refl, Bool, false, not, Option, none, some,
  List, [], ◌∷◌, ◌++◌, length, length-append, length-drop, drop, ltb, leb, ltb→lt, ◌==◌,
  if◌then◌else◌, by_if, arith,
}
use hydra_fs.Prelude.Int.{ℤ, pos, negsuc}
use hydra_fs.Breaker.Config.{Double, Environment, Config, clamped, env_long, config_of}
use hydra_fs.Breaker.State.{
  Sample, Breaker, BreakerDecision, new_breaker, sampled, windowed, warmed, smoothed, is_tripped,
  insert_sorted, sorted,
}
use hydra_fs.Breaker.Shared.{
  BreakerSystem, connect_redis, shared_open, shared_marker, try_probe, complete_probe_recovery,
}
use hydra_fs.Breaker.Calls.{
  open_locked, begin_probe, allow_half_open, allow_closed, allow, record_probe, record_closed,
  record_result,
}
use hydra_fs.Breaker.Probes.{Reachable, at_start, asked, reported}

-- Milliseconds that the breaker may stay open.
abbrev pub InRange : ℕ → Type 0
InRange n = (100 ≤ n) × (n ≤ 300000)

-- Never opened, or closed again; or open for a duration in range from a time that the clock has shown,
-- in nanoseconds.
abbrev pub OpenTime : {W : Type 0} → BreakerSystem W → ℕ → Type 0
OpenTime {W} sys until =
    (until ≡ 0) ⊎ ((w : W) × (ms : ℕ) × InRange ms × (until ≡ (sys.now w).0 + ms * 1000000))

abbrev pub Bounded : {D W : Type 0} → BreakerSystem W → Breaker D → Type 0
Bounded sys b =
    (length b.samples ≤ 16)
    × (length b.warmup ≤ 8)
    × (b.half_open_successes ≤ 1)
    × InRange b.next_open_ms
    × OpenTime sys b.local_open_until

length-insert_sorted : (a : ℕ) (l : List ℕ) → length (insert_sorted a l) ≡ suc (length l)
unfolding insert_sorted
length-insert_sorted a [] = refl
length-insert_sorted a (b ∷ bs) =
    let rest : length (insert_sorted a bs) ≡ suc (length bs) = length-insert_sorted a bs in
    ground arith

length-sorted : (l : List ℕ) → length (sorted l) ≡ length l
unfolding sorted
length-sorted [] = refl
length-sorted (a ∷ l) = omega (arith, length-insert_sorted a (sorted l), length-sorted l)

clamped-InRange :
    (fallback minimum maximum : ℕ) (o : Option ℤ)
    → 100 ≤ minimum
    → minimum ≤ fallback
    → fallback ≤ maximum
    → maximum ≤ 300000
    → InRange (clamped fallback minimum maximum o)
unfolding clamped
clamped-InRange fallback minimum maximum none h k l m = (omega arith, omega arith)
clamped-InRange fallback minimum maximum (some (pos n)) h k l m = (omega arith, omega arith)
clamped-InRange fallback minimum maximum (some (negsuc n)) h k l m = (omega arith, omega arith)

module _ {D : Type 0} (doubles : Double D) (env : Environment D) where
  initial_open_ms-InRange : InRange (config_of doubles env).initial_open_ms
  unfolding config_of env_long
  initial_open_ms-InRange =
      clamped-InRange 3000 100 30000 _ (omega arith) (omega arith) (omega arith) (omega arith)

  max_open_ms-InRange : InRange (config_of doubles env).max_open_ms
  unfolding config_of env_long
  max_open_ms-InRange =
      clamped-InRange 30000 100 300000 _ (omega arith) (omega arith) (omega arith) (omega arith)

-- What a result does to the window and the times.
module _ {D W : Type 0} (doubles : Double D) (sys : BreakerSystem W) where
  warmed-Bounded :
      (elapsed_ms : ℕ) (b : Breaker D) → Bounded sys b → Bounded sys (warmed doubles elapsed_ms b)
  unfolding warmed
  warmed-Bounded elapsed_ms b h =
      by_if (Bounded sys) (ltb (length b.warmup) 8) _ b
        (λ e.
          by_if (Bounded sys) (length (b.warmup ++ elapsed_ms ∷ []) == 8) _ _
            (λ _. room (ltb→lt _ _ e)) (λ _. more (ltb→lt _ _ e)))
        (λ _. h)
    where
      room :
          length b.warmup < 8
          → Bounded sys (record b { warmup = sorted (b.warmup ++ elapsed_ms ∷ []) })
      room l = (
        h.0,
        omega (
          arith,
          length-sorted (b.warmup ++ elapsed_ms ∷ []),
          length-append b.warmup (elapsed_ms ∷ []),
        ),
        h.2,
        h.3,
        h.4,
      )

      more : length b.warmup < 8 → Bounded sys (record b { warmup = b.warmup ++ elapsed_ms ∷ [] })
      more l = (h.0, omega (arith, length-append b.warmup (elapsed_ms ∷ [])), h.2, h.3, h.4)

  windowed-Bounded :
      (sample : Sample) (b : Breaker D) → Bounded sys b → Bounded sys (windowed doubles sample b)
  unfolding windowed
  windowed-Bounded sample b h =
      let one_more : length (b.samples ++ sample ∷ []) ≡ length b.samples + 1 =
        length-append b.samples (sample ∷ []) in
      let one_less : length (drop 1 (b.samples ++ sample ∷ []))
          ≡ length (b.samples ++ sample ∷ []) - 1 =
        length-drop 1 (b.samples ++ sample ∷ []) in
      let full : length b.samples ≤ 16 = h.0 in (ground arith, h.1, h.2, h.3, h.4)

  sampled-Bounded :
      (sample : Sample) (b : Breaker D) → Bounded sys b → Bounded sys (sampled doubles sample b)
  unfolding sampled smoothed
  sampled-Bounded sample b h = windowed-Bounded sample _ (
      by_if (Bounded sys) sample.success _ b
        (λ _. warmed-Bounded sample.elapsed_ms (smoothed doubles sample.elapsed_ms b) h) (λ _. h))

module _ {D W : Type 0} (doubles : Double D) (config : Config D) (sys : BreakerSystem W)
    (initial : InRange config.initial_open_ms) (most : InRange config.max_open_ms) where
  try_probe-Bounded :
      (b : Breaker D) (w : W) → Bounded sys b → Bounded sys (try_probe config sys b w).1
  unfolding try_probe
  try_probe-Bounded b w h =
      by_if (λ (r : Bool × Breaker D × W). Bounded sys r.1) (connect_redis config sys w).0 _ _
        (λ _. h) (λ _. h)

  abbrev AskedBounded : BreakerDecision × Breaker D × W → Type 0
  AskedBounded r = Bounded sys r.1

  begin_probe-Bounded :
      (b : Breaker D) (w : W) → Bounded sys b → AskedBounded (begin_probe doubles config sys b w)
  unfolding begin_probe
  begin_probe-Bounded b w h =
      let kept : Bounded sys (try_probe config sys b w).1 = try_probe-Bounded b w h in
      by_if AskedBounded (try_probe config sys b w).0 _ _ (λ _. kept) (λ _. kept)

  allow-Bounded :
      (b : Breaker D) (w : W) → Bounded sys b → AskedBounded (allow doubles config sys b w)
  unfolding allow allow_half_open allow_closed
  allow-Bounded b w h =
      by_if AskedBounded (ltb (sys.now w).0 b.local_open_until) _ _ (λ _. h)
        (λ _.
          by_if AskedBounded b.half_open _ _
            (λ _. by_if AskedBounded b.probe_in_flight _ _ (λ _. h) (λ _. h))
            (λ _.
              by_if AskedBounded (shared_open config sys w1).0 _ _ (λ _. h)
                (λ _.
                  by_if AskedBounded (not (b.local_open_until == 0)) _ _
                    (λ _. begin_probe-Bounded b w2 h)
                    (λ _.
                      by_if AskedBounded (shared_marker config sys w2).0 _ _
                        (λ _. begin_probe-Bounded b (shared_marker config sys w2).1 h) (λ _. h)))))
    where
      w1 : W
      w1 = (sys.now w).1

      w2 : W
      w2 = (shared_open config sys w1).1

  open_locked-Bounded :
      (b : Breaker D) (w : W) → Bounded sys b → Bounded sys (open_locked doubles config sys b w).0
  unfolding open_locked
  open_locked-Bounded b w h =
      by_if (λ (r : Breaker D × W). Bounded sys r.0) (ltb (sys.now w).0 b.local_open_until) _ _
        (λ _. h)
        (λ _.
          let (low, high) = h.3 in
          let (lowest, highest) = most in
          (h.0, h.1, omega arith, (omega arith, omega arith), inr (w, b.next_open_ms, h.3, refl)))

  record_probe-Bounded :
      (success : Bool) (b : Breaker D) (w : W)
      → Bounded sys b
      → Bounded sys (record_probe doubles config sys success b w).0
  unfolding record_probe complete_probe_recovery
  record_probe-Bounded success b w h =
      by_if (λ (r : Breaker D × W). Bounded sys r.0) (not success) _ _
        (λ _. open_locked-Bounded (record b { probe_in_flight = false }) w h)
        (λ _.
          by_if (λ (r : Breaker D × W). Bounded sys r.0) (leb 2 (b.half_open_successes + 1)) _ _
            (λ _.
              by_if (λ (r : Breaker D × W). Bounded sys r.0) (sys.is_connected w) _ _
                (λ _. (h.0, h.1, omega arith, initial, inl refl))
                (λ _. (h.0, h.1, omega arith, initial, inl refl)))
            (λ e. (h.0, h.1, ground arith, h.3, h.4)))

  record_closed-Bounded :
      (success : Bool) (b : Breaker D) (w : W)
      → Bounded sys b
      → Bounded sys (record_closed doubles config sys success b w).0
  unfolding record_closed
  record_closed-Bounded success b w h =
      by_if (λ (r : Breaker D × W). Bounded sys r.0) (ltb (length b.samples) config.min_samples) _ _
        (λ _. h)
        (λ _.
          by_if (λ (r : Breaker D × W). Bounded sys r.0) (is_tripped doubles config b1) _ _
            (λ _. open_locked-Bounded b1 w h) (λ _. h))
    where
      b1 : Breaker D
      b1 = record b { consecutive_failures = if success then 0 else b.consecutive_failures + 1 }

  record_result-Bounded :
      (success timed_out : Bool) (elapsed_ms : ℤ) (g : ℕ) (b : Breaker D) (w : W)
      → Bounded sys b
      → Bounded sys (record_result doubles config sys success timed_out elapsed_ms g b w).0
  unfolding record_result
  record_result-Bounded success timed_out elapsed_ms g b w h =
      by_if (λ (r : Breaker D × W). Bounded sys r.0) b1.half_open _ _
        (λ _.
          by_if (λ (r : Breaker D × W). Bounded sys r.0) (g == b1.probe_generation) _ _
            (λ _. record_probe-Bounded success b1 w kept) (λ _. kept))
        (λ _. record_closed-Bounded success b1 w kept)
    where
      sample : Sample
      sample = record {
        success = success;
        timed_out = timed_out;
        elapsed_ms = elim elapsed_ms [ pos n ↦ n | negsuc n ↦ 0 ];
      }

      b1 : Breaker D
      b1 = sampled doubles sample b

      kept : Bounded sys b1
      kept = sampled-Bounded doubles sys sample b h

-- However the environment sets the breaker up, and whatever calls come: its window holds at most 16
-- results and 8 first times, no more than one success is counted while it is half open, and the time
-- until which it is open is not set or lies 100 milliseconds at least and five minutes at most behind
-- one that the clock has shown; so will the next.
pub Reachable-Bounded :
    {D W : Type 0} (doubles : Double D) (env : Environment D) (sys : BreakerSystem W) (n : ℕ)
    (b : Breaker D) (out : List ℕ)
    → Reachable doubles (config_of doubles env) sys n b out
    → Bounded sys b
unfolding new_breaker
Reachable-Bounded doubles env sys n b out at_start =
    (omega arith, omega arith, omega arith, initial_open_ms-InRange doubles env, inl refl)
Reachable-Bounded doubles env sys n b out (asked {b = a} w r) =
    allow-Bounded doubles (config_of doubles env) sys (initial_open_ms-InRange doubles env)
      (max_open_ms-InRange doubles env) a w (Reachable-Bounded doubles env sys _ a _ r)
Reachable-Bounded doubles env sys n b out
      (reported {b = a} w success timed_out elapsed_ms g xs ys r e) =
    record_result-Bounded doubles (config_of doubles env) sys (initial_open_ms-InRange doubles env)
      (max_open_ms-InRange doubles env) success timed_out elapsed_ms g a w
      (Reachable-Bounded doubles env sys _ a _ r)
