-- ===== src/Ranking/Store.antt =====
-- What the theorems on the ranking assume of Redis: its sorted sets and hashes, what the commands of
-- common/redis_op.c do to them, and what is replied, as long as every command is served.
use package.text.Mathlib.Text.{◌==◌ as str_eq}
use package.text.Mathlib.TextEquality.{eq_iff}
use hydra_fs.Prelude.{
  ◌≡◌, refl, sym, subst, ap, ◌∙◌, Bool, true, false, Bool-cases, inl, inr, ℕ, Option, none, some,
  String, List, [], ◌∷◌, if◌then◌else◌, ◌&&◌, length,
}
use hydra_fs.Prelude.Int.{ℤ, pos, succ_ℤ}
use hydra_fs.Backend.{
  RedisCommand, zrem, zincrby_one, zadd, hset, hdel, hget, del, zcard, zrevrange, RedisReply,
  integer, string, nil, array, Sql, System,
}

-- The members of a sorted set once each, in any order, and the fields of a hash.
pub record Ranks : Type 0 where
  pub zsets : String → List (String × ℤ)
  pub hashes : String → String → Option String

abbrev pub score_of : String → List (String × ℤ) → Option ℤ
score_of member [] = none
score_of member ((m, v) ∷ rest) =
    let found = score_of member rest in if str_eq m member then some v else found

abbrev pub put_member : String → ℤ → List (String × ℤ) → List (String × ℤ)
put_member member score [] = (member, score) ∷ []
put_member member score ((m, v) ∷ rest) =
    let put = put_member member score rest in
    if str_eq m member then (m, score) ∷ rest else (m, v) ∷ put

abbrev pub without_member : String → List (String × ℤ) → List (String × ℤ)
without_member member [] = []
without_member member ((m, v) ∷ rest) =
    let left = without_member member rest in if str_eq m member then left else (m, v) ∷ left

abbrev pub one_more : Option ℤ → ℤ
one_more none = pos 1
one_more (some n) = succ_ℤ n

-- Another set in place of that of a key.
abbrev pub change_zset : String → (List (String × ℤ) → List (String × ℤ)) → Ranks → Ranks
change_zset key change s = record s {
  zsets = λ k. if str_eq key k then change (s.zsets k) else s.zsets k;
}

abbrev pub change_field : (key field : String) → Option String → Ranks → Ranks
change_field key field value s = record s {
  hashes = λ k f. if str_eq key k && str_eq field f then value else s.hashes k f;
}

unfoldable pub effect : RedisCommand → Ranks → Ranks
effect (zadd key score member) s = change_zset key (put_member member score) s
effect (zincrby_one key member) s =
    change_zset key (λ l. put_member member (one_more (score_of member l)) l) s
effect (zrem key member) s = change_zset key (without_member member) s
effect (hset key field value) s = change_field key field (some value) s
effect (hdel key field) s = change_field key field none s
effect (del key) s = record {
  zsets = λ k. if str_eq key k then [] else s.zsets k;
  hashes = λ k f. if str_eq key k then none else s.hashes k f;
}
effect _ s = s

abbrev pub field_reply : Option String → RedisReply
field_reply none = nil
field_reply (some t) = string t

abbrev pub AreMembers : List String → List (String × ℤ) → Type 0
AreMembers [] l = Unit {0}
AreMembers (m ∷ ms) l = ((v : ℤ) × (score_of m l ≡ some v)) × AreMembers ms l

-- The replies that the ranking relies on.
abbrev pub Replies : RedisCommand → RedisReply → Ranks → Type 0
Replies (zadd key score member) r s = (n : ℕ) × (r ≡ integer (pos n))
Replies (hset key field value) r s = (n : ℕ) × (r ≡ integer (pos n))
Replies (del key) r s = (n : ℕ) × (r ≡ integer (pos n))
Replies (zcard key) r s = r ≡ integer (pos (length (s.zsets key)))
Replies (hget key field) r s = r ≡ field_reply (s.hashes key field)
Replies (zrevrange key from_pos end_pos) r s =
    (ms : List String) × (r ≡ array ms) × AreMembers ms (s.zsets key)
Replies _ r s = Unit {0}

-- Every command is served, and nothing but the commands changes what Redis holds.
pub record Serves {W : Type 0} (sys : System W) (ranks : W → Ranks) : Type 0 where
  pub command :
      (c : RedisCommand) (w : W)
      → (ranks (sys.redis_command c w).1 ≡ effect c (ranks w))
        × Replies c (sys.redis_command c w).0 (ranks w)
  pub query : (q : Sql) (w : W) → ranks (sys.mysql_query q w).1 ≡ ranks w
  pub init : (w : W) → ranks (sys.mysql_init w).1 ≡ ranks w
  pub connect : (w : W) → ranks (sys.mysql_real_connect w).1 ≡ ranks w
  pub close : (w : W) → ranks (sys.mysql_close w) ≡ ranks w
  pub redis_connect : (w : W) → ranks (sys.redis_connect w).1 ≡ ranks w

overwritten {ℓ} :
    {A : Type ℓ} (b : Bool) (x y r : A)
    → (if b then x else r) ≡ (if b then x else (if b then y else r))
overwritten true x y r = refl
overwritten false x y r = refl

swapped {ℓ} :
    {A : Type ℓ} (a b : Bool) (x y r : A)
    → (a ≡ true → b ≡ true → true ≡ false)
    → (if a then y else (if b then x else r)) ≡ (if b then x else (if a then y else r))
swapped true true x y r apart = cc (apart refl refl)
swapped true false x y r apart = refl
swapped false b x y r apart = refl

pub score_put :
    (m member : String) (v : ℤ) (l : List (String × ℤ))
    → score_of m (put_member member v l) ≡ (if str_eq member m then some v else score_of m l)
score_put m member v [] = refl
score_put m member v ((k, u) ∷ rest) = elim (Bool-cases (str_eq k member)) [
  | inl e ↦ rw e (
      subst
        (λ t.
          (if str_eq k m then some v else score_of m rest)
          ≡ (if str_eq t m then some v else (if str_eq k m then some u else score_of m rest)))
        ((eq_iff k member).0 e) (overwritten (str_eq k m) (some v) (some u) (score_of m rest)))
  | inr e ↦ rw e (
      ap (λ r. if str_eq k m then some u else r) (score_put m member v rest)
      ∙ swapped (str_eq k m) (str_eq member m) (some v) (some u) (score_of m rest) (λ a b.
        let same : k ≡ member = (eq_iff k m).0 a ∙ sym ((eq_iff member m).0 b) in
        sym ((eq_iff k member).1 same) ∙ e))
]
