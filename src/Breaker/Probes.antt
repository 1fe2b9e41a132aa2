-- ===== src/Breaker/Probes.antt =====
-- The probes of the circuit breaker of common/storage_resilience.cpp over sequences of calls.
use hydra_fs.Prelude.{
  ℕ, suc, ◌^◌, ◌<◌, ◌≡◌, ◌≢◌, refl, subst, Bool, true, false, List, [], ◌∷◌, ◌++◌, arith,
}
use hydra_fs.Prelude.Int.{ℤ}
use hydra_fs.Breaker.Config.{Double, Config}
use hydra_fs.Breaker.State.{Breaker, BreakerDecision, new_breaker}
use hydra_fs.Breaker.Shared.{BreakerSystem}
use hydra_fs.Breaker.Calls.{allow, record_result}
use hydra_fs.Breaker.Phase.{
  Phase, Allows, refuses, passes, reprobes, probes, Records, ignores, lands, stays, opens,
  occurrences, bit, Invariant, held, Allows-Invariant, Records-Invariant,
}
use hydra_fs.Breaker.Steps.{phase_of, allow-Allows, record_result-Records}

-- A call, in any world: of another thread, or at another time.
pub data Call (W : Type 0) : Type 0 where
  asks : W → Call W
  reports : W → (success timed_out : Bool) → (elapsed_ms : ℤ) → (probe_generation : ℕ) → Call W

abbrev pub AreRefused : List BreakerDecision → Type 0
AreRefused [] = Unit {0}
AreRefused (d ∷ ds) = (d.allowed ≡ false) × AreRefused ds

module _ {D W : Type 0} (doubles : Double D) (config : Config D) (sys : BreakerSystem W) where
  -- What a number of calls leads to, with the generations that are handed out. A result is reported
  -- with a generation that was handed out, once.
  pub data Reachable : ℕ → Breaker D → List ℕ → Type 0 where
    at_start : Reachable 0 (new_breaker doubles config) []
    asked :
        {n : ℕ} {b : Breaker D} {out : List ℕ} (w : W)
        → Reachable n b out
        → Reachable
            (suc n)
            (allow doubles config sys b w).1
            (held (allow doubles config sys b w).0 out)
    reported :
        {n : ℕ} {b : Breaker D} {out : List ℕ} (w : W) (success timed_out : Bool) (elapsed_ms : ℤ)
        (g : ℕ) (xs ys : List ℕ)
        → Reachable n b out
        → out ≡ xs ++ g ∷ ys
        → Reachable
            (suc n)
            (record_result doubles config sys success timed_out elapsed_ms g b w).0
            (xs ++ ys)

  Reachable-Invariant :
      (n : ℕ) (b : Breaker D) (out : List ℕ)
      → Reachable n b out
      → n < 2 ^ 64
      → Invariant n (phase_of b) out
  unfolding new_breaker occurrences
  Reachable-Invariant n b out at_start l = record {
    same = refl;
    few = omega arith;
    known = λ g h. refl;
    begun = λ e. cc;
    idle = λ e. refl;
    flying = λ h. refl;
  }
  Reachable-Invariant n b out (asked {n = m} {b = a} {out = before} w r) l =
      Allows-Invariant m _ _ _ before l (allow-Allows doubles config sys a w)
        (Reachable-Invariant m a before r (omega arith))
  Reachable-Invariant n b out
        (reported {n = m} {b = a} {out = before} w success timed_out elapsed_ms g xs ys r e) l =
      Records-Invariant m g _ _ xs ys
        (record_result-Records doubles config sys success timed_out elapsed_ms g a w)
        (subst (Invariant m (phase_of a)) e (Reachable-Invariant m a before r (omega arith)))

  -- After fewer than 2 ^ 64 calls in whatever order, a breaker that is half open has handed out one
  -- probe of its generation that is not reported yet, or none, as its flag says.
  pub Reachable-single :
      (n : ℕ) (b : Breaker D) (out : List ℕ)
      → Reachable n b out
      → n < 2 ^ 64
      → b.half_open ≡ true
      → occurrences b.probe_generation out ≡ bit b.probe_in_flight
  Reachable-single n b out r l h =
      let i : Invariant n (phase_of b) out = Reachable-Invariant n b out r l in i.flying (i.begun h)

  -- The answers to the calls that ask.
  unfoldable pub answers : List (Call W) → Breaker D → List BreakerDecision
  answers [] b = []
  answers (asks w ∷ calls) b =
      let (decision, b', w') = allow doubles config sys b w in decision ∷ answers calls b'
  answers (reports w success timed_out elapsed_ms g ∷ calls) b =
      answers calls (record_result doubles config sys success timed_out elapsed_ms g b w).0

  -- No result of this generation among them.
  abbrev pub Others : ℕ → List (Call W) → Type 0
  Others g [] = Unit {0}
  Others g (asks w ∷ calls) = Others g calls
  Others g (reports w success timed_out elapsed_ms h ∷ calls) = (h ≢ g) × Others g calls

  -- While a probe is out.
  abbrev Waits : ℕ → Phase → Type 0
  Waits g p = (p.half_open ≡ true) × (p.in_flight ≡ true) × (p.generation ≡ g)

  Allows-Waits :
      (g : ℕ) (p p' : Phase) (d : BreakerDecision)
      → Allows p d p'
      → Waits g p
      → (d.allowed ≡ false) × Waits g p'
  Allows-Waits g p p' d refuses h = (refl, h)
  Allows-Waits g p p' d (passes c) h = cc
  Allows-Waits g p p' d (reprobes c f) h = cc
  Allows-Waits g p p' d (probes k c e) h = cc

  Records-Waits : (g k : ℕ) (p p' : Phase) → Records p k p' → k ≢ g → Waits g p → Waits g p'
  Records-Waits g k p p' (ignores c e) n h = h
  Records-Waits g k p p' (lands still c e) n h = absurd (n cc)
  Records-Waits g k p p' (stays c) n h = h
  Records-Waits g k p p' (opens c) n h = cc

  -- Of a breaker that has handed out a probe, whatever calls come, and whenever they come: as long
  -- as none of them reports a result of that generation, each request is refused.
  pub answers-AreRefused :
      (calls : List (Call W)) (b : Breaker D)
      → b.half_open ≡ true
      → b.probe_in_flight ≡ true
      → Others b.probe_generation calls
      → AreRefused (answers calls b)
  unfolding answers
  answers-AreRefused calls b h f o = waiting calls b (h, f, refl) o
    where
      waiting :
          (calls : List (Call W)) (c : Breaker D)
          → Waits b.probe_generation (phase_of c)
          → Others b.probe_generation calls
          → AreRefused (answers calls c)
      waiting [] c wait o = tt
      waiting (asks w ∷ calls) c wait o =
          let (no_entry, still) =
            Allows-Waits b.probe_generation _ _ _ (allow-Allows doubles config sys c w) wait in
          (no_entry, waiting calls (allow doubles config sys c w).1 still o)
      waiting (reports w success timed_out elapsed_ms g ∷ calls) c wait (n, o) =
          waiting calls (record_result doubles config sys success timed_out elapsed_ms g c w).0
            (Records-Waits b.probe_generation g _ _
              (record_result-Records doubles config sys success timed_out elapsed_ms g c w) n wait)
            o
