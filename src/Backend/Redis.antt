-- ===== src/Backend/Redis.antt =====
-- The calls of common/redis_op.c that the file services make. A reply that is NULL is read through
-- without a test by most of them, and the process dies: `none`.
use package.text.Mathlib.Text.{◌==◌ as str_eq}
use hydra_fs.Prelude.{Option, none, some, String, List, take, if◌then◌else◌}
use hydra_fs.Prelude.Int.{ℤ, pos, negsuc, eq_ℤ, positive, succ_ℤ, ◌-ℤ◌}
use hydra_fs.Backend.{
  RedisCommand, get, zlexcount, zrem, zincrby_one, zadd, hset, hdel, hget, del, RedisReply, null,
  integer, string, status, error, array, zscore, zcard, zrevrange, chars, atoi, System, Exec, go,
  crash,
}

-- `reply->type != REDIS_REPLY_INTEGER` gives -1, else the integer.
unfoldable pub integer_or_fail : RedisReply → Option ℤ
integer_or_fail null = none
integer_or_fail (integer n) = some n
integer_or_fail _ = some (negsuc 0)

-- `reply->integer != 1` gives -1; the field is 0 in a reply of another type.
unfoldable pub one_or_fail : RedisReply → Option ℤ
one_or_fail null = none
one_or_fail (integer n) = some (if eq_ℤ n (pos 1) then pos 0 else negsuc 0)
one_or_fail _ = some (negsuc 0)

-- `strcmp(reply->str, "OK") != 0` gives -1; the text is NULL in a reply that has none.
unfoldable pub ok_or_fail : RedisReply → Option ℤ
ok_or_fail (string s) = some (if str_eq s "OK" then pos 0 else negsuc 0)
ok_or_fail (status s) = some (if str_eq s "OK" then pos 0 else negsuc 0)
ok_or_fail (error s) = some (if str_eq s "OK" then pos 0 else negsuc 0)
ok_or_fail _ = none

-- `reply == NULL || reply->type != REDIS_REPLY_INTEGER` gives -1.
unfoldable pub set_or_fail : RedisReply → Option ℤ
set_or_fail (integer n) = some (pos 0)
set_or_fail _ = some (negsuc 0)

-- The text of `get`, or -1.
unfoldable pub text_or_fail : RedisReply → Option (Option String)
text_or_fail null = none
text_or_fail (string s) = some (some s)
text_or_fail _ = some none

-- `reply == NULL || reply->type != REDIS_REPLY_STRING` gives -1: `none` inside.
unfoldable pub string_or_fail : RedisReply → Option (Option String)
string_or_fail (string s) = some (some s)
string_or_fail _ = some none

-- `reply->integer > 0` gives 0.
unfoldable pub deleted_or_fail : RedisReply → Option ℤ
deleted_or_fail null = none
deleted_or_fail (integer n) = some (if positive n then pos 0 else negsuc 0)
deleted_or_fail _ = some (negsuc 0)

-- `reply->type != REDIS_REPLY_STRING` gives -1, else `atoi` of the text.
unfoldable pub score_or_fail : RedisReply → Option ℤ
score_or_fail null = none
score_or_fail (string s) = some (atoi (chars s))
score_or_fail _ = some (negsuc 0)

-- The first `count` elements; a negative `count` is a large number in the comparison.
unfoldable pub limited : ℤ → List String → List String
limited (pos n) members = take n members
limited (negsuc n) members = members

-- `reply->type != REDIS_REPLY_ARRAY` gives -1.
unfoldable pub members_or_fail : ℤ → RedisReply → Option (Option (List String))
members_or_fail count null = none
members_or_fail count (array members) = some (some (limited count members))
members_or_fail count _ = some none

module _ {W : Type 0} (sys : System W) where
  unfoldable pub survive : {A : Type 0} → Option A → Exec W A
  survive none w = (crash, w)
  survive (some a) w = (go a, w)

  -- A function whose result is `none` where the process dies in it.
  unfoldable pub returned : {A : Type 0} → (W → Option A × W) → Exec W A
  unfolding survive
  returned f w = let (ret, w') = f w in survive ret w'

  -- A command whose reply is read by `read`.
  unfoldable pub ask : {A : Type 0} → RedisCommand → (RedisReply → Option A) → Exec W A
  unfolding survive
  ask command read w = let (reply, w') = sys.redis_command command w in survive (read reply) w'

  unfoldable pub rop_zset_exit : (key member : String) → Exec W ℤ
  rop_zset_exit key member = ask (zlexcount key member) integer_or_fail

  unfoldable pub rop_zset_add : (key : String) → ℤ → (member : String) → Exec W ℤ
  rop_zset_add key score member = ask (zadd key score member) one_or_fail

  unfoldable pub rop_zset_zrem : (key member : String) → Exec W ℤ
  rop_zset_zrem key member = ask (zrem key member) one_or_fail

  unfoldable pub rop_zset_increment : (key member : String) → Exec W ℤ
  rop_zset_increment key member = ask (zincrby_one key member) ok_or_fail

  unfoldable pub rop_hash_set : (key field value : String) → Exec W ℤ
  rop_hash_set key field value = ask (hset key field value) set_or_fail

  unfoldable pub rop_hash_del : (key field : String) → Exec W ℤ
  rop_hash_del key field = ask (hdel key field) one_or_fail

  unfoldable pub rop_get_string : (key : String) → Exec W (Option String)
  rop_get_string key = ask (get key) text_or_fail

  unfoldable pub rop_hash_get : (key field : String) → Exec W (Option String)
  rop_hash_get key field = ask (hget key field) string_or_fail

  unfoldable pub rop_zset_zcard : (key : String) → Exec W ℤ
  rop_zset_zcard key = ask (zcard key) integer_or_fail

  unfoldable pub rop_zset_get_score : (key member : String) → Exec W ℤ
  rop_zset_get_score key member = ask (zscore key member) score_or_fail

  -- `none` for -1, else the values with their number.
  unfoldable pub rop_zset_zrevrange :
      (key : String) → (from_pos end_pos : ℤ) → Exec W (Option (List String))
  rop_zset_zrevrange key from_pos end_pos =
      ask (zrevrange key from_pos end_pos) (members_or_fail (succ_ℤ (end_pos -ℤ from_pos)))

  unfoldable pub rop_del_key : (key : String) → Exec W ℤ
  rop_del_key key = ask (del key) deleted_or_fail
