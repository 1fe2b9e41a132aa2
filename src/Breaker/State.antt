-- ===== src/Breaker/State.antt =====
-- The state of the circuit breaker of common/storage_resilience.cpp, and what a result does to its
-- window, its times and its baseline.
use hydra_fs.Prelude.{
  ℕ, suc, ◌+◌, Bool, true, false, not, ◌&&◌, ◌||◌, Option, none, some, String, List, [], ◌∷◌, ◌++◌,
  length, get_or, drop, ltb, leb, ◌==◌, if◌then◌else◌,
}
use hydra_fs.Breaker.Config.{Double, Config}

pub record Sample : Type 0 where
  pub success : Bool
  pub timed_out : Bool
  pub elapsed_ms : ℕ

-- `Impl`; `local_open_until` is 0 for a time point that was never set.
pub record Breaker (D : Type 0) : Type 0 where
  pub samples : List Sample
  pub warmup : List ℕ
  pub srtt : D
  pub baseline : D
  pub consecutive_failures : ℕ
  pub half_open_successes : ℕ
  pub half_open : Bool
  pub probe_in_flight : Bool
  pub probe_generation : ℕ
  pub next_generation : ℕ
  pub local_open_until : ℕ
  pub next_open_ms : ℕ
  pub probe_token : String

pub record BreakerDecision : Type 0 where
  pub allowed : Bool
  pub reason : Option String
  pub probe_generation : ℕ

abbrev pub refused : BreakerDecision
refused = record { allowed = false; reason = some "blobstore-circuit-open"; probe_generation = 0 }

abbrev pub granted : ℕ → BreakerDecision
granted generation = record { allowed = true; reason = none; probe_generation = generation }

-- `std::sort`.
unfoldable pub insert_sorted : ℕ → List ℕ → List ℕ
insert_sorted a [] = a ∷ []
insert_sorted a (b ∷ bs) = let rest = insert_sorted a bs in if leb a b then a ∷ b ∷ bs else b ∷ rest

unfoldable pub sorted : List ℕ → List ℕ
sorted [] = []
sorted (a ∷ rest) = insert_sorted a (sorted rest)

unfoldable pub count_where : (Sample → Bool) → List Sample → ℕ
count_where test [] = 0
count_where test (item ∷ items) =
    let rest = count_where test items in if test item then suc rest else rest

module _ {D : Type 0} (doubles : Double D) (config : Config D) where
  unfoldable pub new_breaker : Breaker D
  new_breaker = record {
    samples = [];
    warmup = [];
    srtt = doubles.of_nat 0;
    baseline = doubles.of_nat 0;
    consecutive_failures = 0;
    half_open_successes = 0;
    half_open = false;
    probe_in_flight = false;
    probe_generation = 0;
    next_generation = 0;
    local_open_until = 0;
    next_open_ms = config.initial_open_ms;
    probe_token = "";
  }

  unfoldable pub is_tripped : Breaker D → Bool
  is_tripped b =
      let size : D = doubles.of_nat (length b.samples) in
      let failures : ℕ = count_where (λ item. not item.success) b.samples in
      let timeouts : ℕ = count_where (λ item. item.timed_out) b.samples in
      let fourfold : D = doubles.multiply (doubles.of_nat 4) b.baseline in
      let limit : D =
        if doubles.less fourfold (doubles.of_nat 2000) then doubles.of_nat 2000 else fourfold in
      doubles.at_least (doubles.divide (doubles.of_nat failures) size) config.failure_rate_limit
      || doubles.at_least (doubles.divide (doubles.of_nat timeouts) size) config.timeout_rate_limit
      || (doubles.less (doubles.of_nat 0) b.baseline && doubles.less limit b.srtt)

module _ {D : Type 0} (doubles : Double D) where
  -- The median of the first eight times is the baseline.
  unfoldable pub warmed : ℕ → Breaker D → Breaker D
  warmed elapsed_ms b =
      let times : List ℕ = b.warmup ++ elapsed_ms ∷ [] in
      let ordered : List ℕ = sorted times in
      if ltb (length b.warmup) 8
      then (if length times == 8
          then record b {
            warmup = ordered;
            baseline =
                doubles.divide (doubles.of_nat (get_or ordered 3 0 + get_or ordered 4 0))
                  (doubles.of_nat 2);
          }
          else record b { warmup = times })
      else b

  unfoldable pub smoothed : ℕ → Breaker D → Breaker D
  smoothed elapsed_ms b = record b {
    srtt =
        if doubles.equal b.srtt (doubles.of_nat 0)
        then doubles.of_nat elapsed_ms
        else doubles.add
            (doubles.multiply (doubles.divide (doubles.of_nat 1) (doubles.of_nat 8))
              (doubles.of_nat elapsed_ms))
            (doubles.multiply (doubles.divide (doubles.of_nat 7) (doubles.of_nat 8)) b.srtt);
  }

  -- The window of the last 16.
  unfoldable pub windowed : Sample → Breaker D → Breaker D
  windowed sample b =
      let samples : List Sample = b.samples ++ sample ∷ [] in
      record b { samples = if ltb 16 (length samples) then drop 1 samples else samples }

  unfoldable pub sampled : Sample → Breaker D → Breaker D
  sampled sample b =
      windowed sample
        (if sample.success then warmed sample.elapsed_ms (smoothed sample.elapsed_ms b) else b)
