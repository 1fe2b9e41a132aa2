-- ===== src/Breaker/Config.antt =====
-- The settings of the circuit breaker of common/storage_resilience.cpp, from the environment.
use Prim.Native.Nat.{min, max}
use package.text.Mathlib.Text.{◌==◌ as str_eq}
use hydra_fs.Prelude.{ℕ, Bool, true, false, Option, none, some, String, if◌then◌else◌}
use hydra_fs.Prelude.Int.{ℤ, pos, negsuc}

-- The arithmetic of `double`.
pub record Double (D : Type 0) : Type 0 where
  pub of_nat : ℕ → D
  pub add : D → D → D
  pub multiply : D → D → D
  pub divide : D → D → D
  -- `<`, `>=` and `==`
  pub less : D → D → Bool
  pub at_least : D → D → Bool
  pub equal : D → D → Bool

pub record Environment (D : Type 0) : Type 0 where
  pub getenv : String → Option String
  -- none where `end == value`
  pub strtol : String → Option ℤ
  pub strtod : String → Option D

pub record Config (D : Type 0) : Type 0 where
  pub min_samples : ℕ
  pub failure_rate_limit : D
  pub timeout_rate_limit : D
  pub initial_open_ms : ℕ
  pub max_open_ms : ℕ
  pub probe_ms : ℕ
  pub has_password : Bool

unfoldable pub clamped : ℕ → ℕ → ℕ → Option ℤ → ℕ
clamped fallback minimum maximum none = fallback
clamped fallback minimum maximum (some (pos parsed)) = max minimum (min maximum parsed)
clamped fallback minimum maximum (some (negsuc parsed)) = minimum

-- A variable that is set and not empty.
unfoldable pub value_or_none : Option String → Option String
value_or_none none = none
value_or_none (some value) = if str_eq value "" then none else some value

module _ {D : Type 0} (doubles : Double D) (env : Environment D) where
  unfoldable pub env_long : String → (fallback minimum maximum : ℕ) → ℕ
  env_long name fallback minimum maximum =
      clamped fallback minimum maximum
        (elim (value_or_none (env.getenv name)) [ none ↦ none | some value ↦ env.strtol value ])

  unfoldable pub env_double : String → (fallback minimum maximum : D) → D
  env_double name fallback minimum maximum = elim (value_or_none (env.getenv name)) [
    | none ↦ fallback
    | some value ↦ elim (env.strtod value) [
      | none ↦ fallback
      | some parsed ↦
          let low : D = if doubles.less parsed maximum then parsed else maximum in
          if doubles.less minimum low then low else minimum
    ]
  ]

  unfoldable pub config_of : Config D
  config_of = record {
    min_samples = env_long "HYDRA_BREAKER_MIN_SAMPLES" 12 1 16;
    failure_rate_limit =
        env_double "HYDRA_BREAKER_FAILURE_RATE"
          (doubles.divide (doubles.of_nat 1) (doubles.of_nat 4)) (doubles.of_nat 0)
          (doubles.of_nat 1);
    timeout_rate_limit =
        env_double "HYDRA_BREAKER_TIMEOUT_RATE"
          (doubles.divide (doubles.of_nat 1) (doubles.of_nat 8)) (doubles.of_nat 0)
          (doubles.of_nat 1);
    initial_open_ms = env_long "HYDRA_BREAKER_OPEN_MS" 3000 100 30000;
    max_open_ms = env_long "HYDRA_BREAKER_MAX_OPEN_MS" 30000 100 300000;
    probe_ms = env_long "HYDRA_BREAKER_PROBE_MS" 3000 1000 300000;
    has_password = elim (value_or_none (env.getenv "HYDRA_REDIS_PASSWORD")) [
      | none ↦ false
      | some p ↦ true
    ];
  }
