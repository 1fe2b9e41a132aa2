-- ===== src/Breaker/Steps.antt =====
-- Each call of the circuit breaker of common/storage_resilience.cpp is a step of its abstract machine.
use hydra_fs.Prelude.{
  ℕ, ◌+◌, ◌%◌, ◌^◌, ◌≡◌, refl, sym, ap, subst, ◌⊎◌, inl, inr, Bool, true, false, not, [], ◌∷◌, ◌++◌,
  length, ltb, leb, ◌==◌, if◌then◌else◌, by_if, arith,
}
use hydra_fs.Prelude.Int.{ℤ, pos, negsuc}
use hydra_fs.Breaker.Config.{Double, Config}
use hydra_fs.Breaker.State.{
  Sample, Breaker, BreakerDecision, refused, sampled, windowed, warmed, smoothed, is_tripped,
}
use hydra_fs.Breaker.Shared.{
  BreakerSystem, connect_redis, shared_open, shared_marker, try_probe, complete_probe_recovery,
}
use hydra_fs.Breaker.Calls.{
  open_locked, begin_probe, allow_half_open, allow_closed, allow, record_probe, record_closed,
  record_result,
}
use hydra_fs.Breaker.Phase.{
  Phase, Allows, refuses, passes, reprobes, probes, Records, ignores, lands, stays, opens,
}

abbrev pub phase_of : {D : Type 0} → Breaker D → Phase
phase_of b = record {
  half_open = b.half_open;
  in_flight = b.probe_in_flight;
  generation = b.probe_generation;
  next = b.next_generation;
}

-- Everything but the probes.
module _ {D : Type 0} (doubles : Double D) where
  phase-sampled :
      (sample : Sample) (b : Breaker D) → phase_of (sampled doubles sample b) ≡ phase_of b
  unfolding sampled windowed warmed smoothed
  phase-sampled sample b =
      by_if (λ r. phase_of (windowed doubles sample r) ≡ phase_of b) sample.success _ _
        (λ _.
          by_if (λ r. phase_of (windowed doubles sample r) ≡ phase_of b) (ltb (length b.warmup) 8) _
            _
            (λ _.
              by_if (λ r. phase_of (windowed doubles sample r) ≡ phase_of b)
                (length (b.warmup ++ sample.elapsed_ms ∷ []) == 8) _ _ (λ _. refl) (λ _. refl))
            (λ _. refl))
        (λ _. refl)

module _ {D W : Type 0} (doubles : Double D) (config : Config D) (sys : BreakerSystem W) where
  phase-try_probe : (b : Breaker D) (w : W) → phase_of (try_probe config sys b w).1 ≡ phase_of b
  unfolding try_probe
  phase-try_probe b w =
      by_if (λ (r : Bool × Breaker D × W). phase_of r.1 ≡ phase_of b) (connect_redis config sys w).0
        _ _ (λ _. refl) (λ _. refl)

  phase-complete_probe_recovery :
      (b : Breaker D) (w : W) → phase_of (complete_probe_recovery config sys b w).0 ≡ phase_of b
  unfolding complete_probe_recovery
  phase-complete_probe_recovery b w =
      by_if (λ (r : Breaker D × W). phase_of r.0 ≡ phase_of b) (sys.is_connected w) _ _ (λ _. refl)
        (λ _. refl)

  abbrev Allowed : Breaker D → BreakerDecision × Breaker D × W → Type 0
  Allowed b r = Allows (phase_of b) r.0 (phase_of r.1)

  begin_probe-Allows :
      (b : Breaker D) (w : W) → b.half_open ≡ false → Allowed b (begin_probe doubles config sys b w)
  unfolding begin_probe
  begin_probe-Allows b w h =
      let kept : phase_of (try_probe config sys b w).1 ≡ phase_of b = phase-try_probe b w in
      by_if (Allowed b) (try_probe config sys b w).0 _ _
        (λ _. probes _ h (ap (λ (p : Phase). (p.next + 1) % 2 ^ 64) kept))
        (λ _. subst (Allows (phase_of b) refused) (sym kept) refuses)

  -- Whatever the clock and Redis answer.
  pub allow-Allows : (b : Breaker D) (w : W) → Allowed b (allow doubles config sys b w)
  unfolding allow allow_half_open allow_closed
  allow-Allows b w =
      by_if (Allowed b) (ltb (sys.now w).0 b.local_open_until) _ _ (λ _. refuses)
        (λ _.
          by_if (Allowed b) b.half_open _ _
            (λ h. by_if (Allowed b) b.probe_in_flight _ _ (λ _. refuses) (λ f. reprobes h f))
            (λ h.
              by_if (Allowed b) (shared_open config sys w1).0 _ _ (λ _. refuses)
                (λ _.
                  by_if (Allowed b) (not (b.local_open_until == 0)) _ _
                    (λ _. begin_probe-Allows b w2 h)
                    (λ _.
                      by_if (Allowed b) (shared_marker config sys w2).0 _ _
                        (λ _. begin_probe-Allows b (shared_marker config sys w2).1 h)
                        (λ _. passes h)))))
    where
      w1 : W
      w1 = (sys.now w).1

      w2 : W
      w2 = (shared_open config sys w1).1

  open_locked-Closes :
      (b : Breaker D) (w : W)
      → (phase_of (open_locked doubles config sys b w).0 ≡ phase_of b)
        ⊎ (phase_of (open_locked doubles config sys b w).0
            ≡ record (phase_of b) { half_open = false; in_flight = false })
  unfolding open_locked
  open_locked-Closes b w =
      by_if
        (λ (r : Breaker D × W).
          (phase_of r.0 ≡ phase_of b)
          ⊎ (phase_of r.0 ≡ record (phase_of b) { half_open = false; in_flight = false }))
        (ltb (sys.now w).0 b.local_open_until) _ _ (λ _. inl refl) (λ _. inr refl)

  record_probe-Records :
      (success : Bool) (g : ℕ) (b : Breaker D) (w : W)
      → b.half_open ≡ true
      → g ≡ b.probe_generation
      → Records (phase_of b) g (phase_of (record_probe doubles config sys success b w).0)
  unfolding record_probe
  record_probe-Records success g b w h e =
      by_if (λ (r : Breaker D × W). Records (phase_of b) g (phase_of r.0)) (not success) _ _
        (λ _. elim (open_locked-Closes (record b { probe_in_flight = false }) w) [
          | inl q ↦ subst (Records (phase_of b) g) (sym q) (
              subst
                (λ h.
                  Records (phase_of b) g (record (phase_of b) { half_open = h; in_flight = false }))
                (sym h) (lands true h e))
          | inr q ↦ subst (Records (phase_of b) g) (sym q) (lands false h e)
        ])
        (λ _.
          by_if (λ (r : Breaker D × W). Records (phase_of b) g (phase_of r.0))
            (leb 2 (b.half_open_successes + 1)) _ _
            (λ _.
              subst (Records (phase_of b) g) (sym (phase-complete_probe_recovery _ w))
                (lands false h e))
            (λ _.
              subst
                (λ h.
                  Records (phase_of b) g (record (phase_of b) { half_open = h; in_flight = false }))
                (sym h) (lands true h e)))

  record_closed-Records :
      (success : Bool) (g : ℕ) (b : Breaker D) (w : W)
      → b.half_open ≡ false
      → Records (phase_of b) g (phase_of (record_closed doubles config sys success b w).0)
  unfolding record_closed
  record_closed-Records success g b w h =
      by_if (λ (r : Breaker D × W). Records (phase_of b) g (phase_of r.0))
        (ltb (length b.samples) config.min_samples) _ _ (λ _. stays h)
        (λ _.
          by_if (λ (r : Breaker D × W). Records (phase_of b) g (phase_of r.0))
            (is_tripped doubles config b1) _ _
            (λ _. elim (open_locked-Closes b1 w) [
              | inl q ↦ subst (Records (phase_of b) g) (sym q) (stays h)
              | inr q ↦ subst (Records (phase_of b) g) (sym q) (opens h)
            ])
            (λ _. stays h))
    where
      b1 : Breaker D
      b1 = record b { consecutive_failures = if success then 0 else b.consecutive_failures + 1 }

  pub record_result-Records :
      (success timed_out : Bool) (elapsed_ms : ℤ) (g : ℕ) (b : Breaker D) (w : W)
      → Records
          (phase_of b)
          g
          (phase_of (record_result doubles config sys success timed_out elapsed_ms g b w).0)
  unfolding record_result
  record_result-Records success timed_out elapsed_ms g b w =
      subst
        (λ p.
          Records p g
            (phase_of (record_result doubles config sys success timed_out elapsed_ms g b w).0))
        (phase-sampled doubles sample b)
        (by_if (λ (r : Breaker D × W). Records (phase_of b1) g (phase_of r.0)) b1.half_open _ _
          (λ h.
            by_if (λ (r : Breaker D × W). Records (phase_of b1) g (phase_of r.0))
              (g == b1.probe_generation) _ _
              (λ e. record_probe-Records success g b1 w h (ground arith))
              (λ e. ignores h (ground arith)))
          (λ h. record_closed-Records success g b1 w h))
    where
      sample : Sample
      sample = record {
        success = success;
        timed_out = timed_out;
        elapsed_ms = elim elapsed_ms [ pos n ↦ n | negsuc n ↦ 0 ];
      }

      b1 : Breaker D
      b1 = sampled doubles sample b
