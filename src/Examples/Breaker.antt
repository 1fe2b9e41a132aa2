-- ===== src/Examples/Breaker.antt =====
-- The theorems on the circuit breaker at concrete calls, with fractions for `double`.
use package.text.Mathlib.Text.{◌==◌ as str_eq}
use hydra_fs.Prelude.{
  ℕ, zero, suc, ◌+◌, ◌*◌, ◌≡◌, refl, ◌∙◌, true, false, none, some, List, [], ◌∷◌, ◌++◌, ltb, leb,
  ◌==◌, if◌then◌else◌, arith,
}
use hydra_fs.Prelude.Int.{pos}
use hydra_fs.Backend.{status, integer, nil}
use hydra_fs.Breaker.Config.{
  Double, Environment, Config, clamped, value_or_none, env_long, env_double, config_of,
}
use hydra_fs.Breaker.State.{
  Breaker, new_breaker, granted, refused, insert_sorted, sorted, count_where, is_tripped, warmed,
  smoothed, windowed, sampled,
}
use hydra_fs.Breaker.Shared.{
  BreakerSystem, connect_redis, is_open_reply, shared_open, is_marked_reply, shared_marker,
  is_acquired_reply, try_probe, complete_probe_recovery, publish_open,
}
use hydra_fs.Breaker.Calls.{
  open_locked, begin_probe, allow_half_open, allow_closed, allow, record_probe, record_closed,
  record_result,
}
use hydra_fs.Breaker.Phase.{occurrences, bit, held}
use hydra_fs.Breaker.Probes.{
  Call, asks, reports, Reachable, at_start, asked, reported, Reachable-single, answers, AreRefused,
  answers-AreRefused,
}
use hydra_fs.Breaker.Bounds.{Bounded, Reachable-Bounded}

abbrev fractions : Double (ℕ × ℕ)
fractions = record {
  of_nat = λ n. (n, 1);
  add = λ a b. (a.0 * b.1 + b.0 * a.1, a.1 * b.1);
  multiply = λ a b. (a.0 * b.0, a.1 * b.1);
  divide = λ a b. (a.0 * b.1, a.1 * b.0);
  less = λ a b. ltb (a.0 * b.1) (b.0 * a.1);
  at_least = λ a b. leb (b.0 * a.1) (a.0 * b.1);
  equal = λ a b. a.0 * b.1 == b.0 * a.1;
}

-- One result is enough to judge.
abbrev eager : Environment (ℕ × ℕ)
eager = record {
  getenv = λ name. if str_eq name "HYDRA_BREAKER_MIN_SAMPLES" then some "1" else none;
  strtol = λ text. some (pos 1);
  strtod = λ text. none;
}

-- The settings without an environment.
abbrev plain : Environment (ℕ × ℕ)
plain = record { getenv = λ name. none; strtol = λ text. none; strtod = λ text. none }

-- The world is the time, in nanoseconds; Redis has no key of the breaker.
abbrev clock : BreakerSystem ℕ
clock = record {
  now = λ w. (w, w);
  is_connected = λ w. true;
  redis_connect = λ w. (true, w);
  redis_set_timeout = λ w. (true, w);
  redis_free = λ w. w;
  auth = λ w. (status "OK", w);
  get_open = λ w. (nil, w);
  exists_marker = λ w. (integer (pos 0), w);
  eval_probe = λ token ms w. (status "OK", w);
  eval_recovery = λ token w. (integer (pos 1), w);
  eval_open = λ duration marker token w. (integer (pos 1), w);
  token_of = λ count. "7";
}

abbrev second : ℕ
second = 1000000000

abbrev quick : Config (ℕ × ℕ)
quick = config_of fractions eager

-- A request fails, and the next one after the break is a probe.
abbrev b1 : Breaker (ℕ × ℕ)
b1 = (allow fractions quick clock (new_breaker fractions quick) second).1

abbrev b2 : Breaker (ℕ × ℕ)
b2 = (record_result fractions quick clock false false (pos 5) 0 b1 second).0

abbrev b3 : Breaker (ℕ × ℕ)
b3 = (allow fractions quick clock b2 (5 * second)).1

abbrev out1 : List ℕ
out1 = held (allow fractions quick clock (new_breaker fractions quick) second).0 []

abbrev out3 : List ℕ
out3 = held (allow fractions quick clock b2 (5 * second)).0 []

first_out : out1 ≡ 0 ∷ []
unfolding allow allow_closed new_breaker shared_open shared_marker connect_redis is_open_reply
    is_marked_reply
first_out = refl

probing : Reachable fractions quick clock 3 b3 out3
probing =
    asked (5 * second)
      (reported second false false (pos 5) 0 [] [] (asked second at_start) first_out)

abbrev Probing : Breaker (ℕ × ℕ) → Type 0
Probing b = (b.half_open ≡ true) × (b.probe_in_flight ≡ true) × (b.probe_generation ≡ 1)

b3-Probing : Probing b3
unfolding allow allow_half_open allow_closed begin_probe new_breaker shared_open shared_marker
    connect_redis is_open_reply is_marked_reply is_acquired_reply try_probe record_result sampled
    windowed record_closed is_tripped count_where open_locked publish_open config_of env_long
    env_double clamped value_or_none
b3-Probing = (refl, refl, refl)

Reachable-single_example : occurrences b3.probe_generation out3 ≡ bit b3.probe_in_flight
Reachable-single_example =
    Reachable-single fractions quick clock 3 b3 out3 probing (omega arith) b3-Probing.0

Reachable-Bounded_example : Bounded clock b3
Reachable-Bounded_example = Reachable-Bounded fractions eager clock 3 b3 out3 probing

-- The probe is never reported: an hour later a request is still refused.
answers-AreRefused_example : AreRefused (
    answers fractions quick clock
      (asks (10 * second) ∷ reports (11 * second) true false (pos 5) 0 ∷ asks (3600 * second) ∷ [])
      b3)
answers-AreRefused_example =
    answers-AreRefused fractions quick clock
      (asks (10 * second) ∷ reports (11 * second) true false (pos 5) 0 ∷ asks (3600 * second) ∷ [])
      b3 b3-Probing.0 b3-Probing.1 (λ e. let same : 0 ≡ 1 = e ∙ b3-Probing.2 in omega arith, tt)

abbrev failures : ℕ → List (Call ℕ)
failures zero = []
failures (suc n) = reports second false false (pos 5) 0 ∷ failures n

-- Twelve failures open it, two probes close it; the success of an ordinary request then opens it
-- again, since the window still has the failures.
reopened :
    answers fractions
      (config_of fractions plain)
      clock
      (failures 12
        ++ asks (5 * second)
          ∷ reports (6 * second) true false (pos 5) 1
          ∷ asks (6 * second)
          ∷ reports (6 * second) true false (pos 5) 1
          ∷ asks (7 * second)
          ∷ reports (7 * second) true false (pos 5) 0
          ∷ asks (8 * second)
          ∷ [])
      (new_breaker fractions (config_of fractions plain))
    ≡ granted 1 ∷ granted 1 ∷ granted 0 ∷ refused ∷ []
unfolding answers allow allow_half_open allow_closed begin_probe new_breaker shared_open
    shared_marker connect_redis is_open_reply is_marked_reply is_acquired_reply try_probe
    complete_probe_recovery record_result record_probe sampled windowed warmed smoothed
    record_closed is_tripped count_where open_locked publish_open config_of env_long env_double
    clamped value_or_none insert_sorted sorted
reopened = refl
