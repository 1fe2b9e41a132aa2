-- ===== src/Breaker/Shared.antt =====
-- What the processes share through Redis in common/storage_resilience.cpp.
use Prim.Native.Nat.{min}
use package.text.Mathlib.Text.{◌==◌ as str_eq}
use hydra_fs.Prelude.{ℕ, zero, ◌+◌, Bool, true, false, not, String, if◌then◌else◌}
use hydra_fs.Prelude.Int.{pos}
use hydra_fs.Backend.{RedisReply, null, integer, string, status, error}
use hydra_fs.Breaker.Config.{Config}
use hydra_fs.Breaker.State.{Breaker}

-- What a call uses outside: the clock, in nanoseconds, and Redis, with the keys of the breaker.
pub record BreakerSystem (W : Type 0) : Type 0 where
  pub now : W → ℕ × W
  -- `redis && redis->err == 0`
  pub is_connected : W → Bool
  -- a context without an error, in place of the old one
  pub redis_connect : W → Bool × W
  pub redis_set_timeout : W → Bool × W
  pub redis_free : W → W
  pub auth : W → RedisReply × W
  pub get_open : W → RedisReply × W
  pub exists_marker : W → RedisReply × W
  pub eval_probe : (probe_token : String) → (probe_ms : ℕ) → W → RedisReply × W
  pub eval_recovery : (probe_token : String) → W → RedisReply × W
  pub eval_open : (duration_ms marker_ms : ℕ) → (marker_token : String) → W → RedisReply × W
  -- the process and a count of the clock
  pub token_of : ℕ → String

unfoldable pub is_ok_status : RedisReply → Bool
is_ok_status (status s) = str_eq s "OK"
is_ok_status _ = false

module _ {D W : Type 0} (config : Config D) (sys : BreakerSystem W) where
  unfoldable pub connect_redis : W → Bool × W
  connect_redis w =
      let (made, w1) = sys.redis_connect w in
      let (timeout, w2) = sys.redis_set_timeout w1 in
      let (reply, w3) = sys.auth w2 in
      if sys.is_connected w
      then (true, w)
      else (if not made
          then (false, w1)
          else (if not timeout
              then (false, sys.redis_free w2)
              else (if not config.has_password
                  then (true, w2)
                  else (if is_ok_status reply then (true, w3) else (false, sys.redis_free w3)))))

  unfoldable pub is_open_reply : RedisReply → Bool
  is_open_reply (string s) = not (str_eq s "")
  is_open_reply _ = false

  unfoldable pub shared_open : W → Bool × W
  shared_open w =
      let (connected, w1) = connect_redis w in
      let (reply, w2) = sys.get_open w1 in
      if connected then (is_open_reply reply, w2) else (false, w1)

  unfoldable pub is_marked_reply : RedisReply → Bool
  is_marked_reply (integer (pos zero)) = false
  is_marked_reply (integer _) = true
  is_marked_reply _ = false

  unfoldable pub shared_marker : W → Bool × W
  shared_marker w =
      let (connected, w1) = connect_redis w in
      let (reply, w2) = sys.exists_marker w1 in
      if connected then (is_marked_reply reply, w2) else (false, w1)

  -- Without an answer of Redis the probe goes ahead.
  unfoldable pub is_acquired_reply : RedisReply → Bool
  is_acquired_reply null = true
  is_acquired_reply (error e) = true
  is_acquired_reply (status s) = str_eq s "OK"
  is_acquired_reply _ = false

  unfoldable pub try_probe : Breaker D → W → Bool × Breaker D × W
  try_probe b w =
      let (connected, w1) = connect_redis w in
      let (count, w2) = sys.now w1 in
      let token : String = sys.token_of count in
      let (reply, w3) = sys.eval_probe token config.probe_ms w2 in
      if connected
      then (is_acquired_reply reply, record b { probe_token = token }, w3)
      else (true, b, w1)

  unfoldable pub complete_probe_recovery : Breaker D → W → Breaker D × W
  complete_probe_recovery b w =
      if sys.is_connected w
      then (record b { probe_token = "" }, (sys.eval_recovery b.probe_token w).1)
      else (b, w)

  unfoldable pub publish_open : ℕ → W → W
  publish_open duration_ms w =
      let (connected, w1) = connect_redis w in
      let (count, w2) = sys.now w1 in
      if connected
      then (sys.eval_open duration_ms (min (config.max_open_ms + config.probe_ms) 600000)
          (sys.token_of count) w2).1
      else w1
