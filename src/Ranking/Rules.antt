-- ===== src/Ranking/Rules.antt =====
-- Triples over the tables and Redis together, for the requests of src_cgi/sharefiles_cgi.c.
use hydra_fs.Prelude.{◌≡◌, refl, sym, subst, Option, none, some}
use hydra_fs.Backend.{RedisCommand, RedisReply, System, Out, go, stop, crash, Exec, pure, ◌>>=◌}
use hydra_fs.Backend.Redis.{ask, survive}
use hydra_fs.Backend.Contract.{Tables, State, Contract, IsSettled}
use hydra_fs.Backend.Triple.{Leaves, Ends, NotZero}
use hydra_fs.Ranking.Store.{Ranks, effect, Replies, Serves}

module _ {W : Type 0} (sys : System W) (view : W → State) (ranks : W → Ranks)
    (behaves : Contract sys view) (serves : Serves sys ranks) where
  abbrev pub both : W → State × Ranks
  both w = (view w, ranks w)

  -- The state is settled, with these tables.
  abbrev pub At : Tables → State → Type 0
  At t s = IsSettled s × (s.tables ≡ t)

  -- A command and what is replied to it.
  pub Ends-ask :
      {A : Type 0} {P : State × Ranks → Type 0} {Q : A → State × Ranks → Type 0} (c : RedisCommand)
      (read : RedisReply → Option A)
      → ((s : State × Ranks) (r : RedisReply) (a : A)
          → P s
          → Replies c r s.1
          → read r ≡ some a
          → Q a (s.0, effect c s.1))
      → Ends both P (ask sys c read) Q NotZero
  unfolding ask
  Ends-ask {A} {P} {Q} c read leads = record {
    at = λ w p. by_read w p (read (sys.redis_command c w).0) refl;
  }
    where
      by_read :
          (w : W)
          → P (both w)
          → (o : Option A) → read (sys.redis_command c w).0 ≡ o
          → Leaves both Q NotZero
              (survive sys o (sys.redis_command c w).1).0
              (survive sys o (sys.redis_command c w).1).1
      by_read w p none e = λ z. cc
      by_read w p (some a) e =
          let (moved, told) = serves.command c w in
          subst (λ k. Q a (view (sys.redis_command c w).1, k)) (sym moved)
            (subst (λ s. Q a (s, effect c (ranks w))) (sym (behaves.redis c w))
              (leads (both w) _ a p told e))

  -- A step that leaves Redis alone.
  pub Ends-beside :
      {A : Type 0} {P : State × Ranks → Type 0} {Q : A → State × Ranks → Type 0} (m : Exec W A)
      → ((w : W) → ranks (m w).1 ≡ ranks w)
      → ((k : Ranks) → Ends view (λ s. P (s, k)) m (λ a s. Q a (s, k)) NotZero)
      → Ends both P m Q NotZero
  Ends-beside {A} {P} {Q} m kept leads = record {
    at = λ w p. by_out (m w).0 (m w).1 (ranks w) (kept w) ((leads (ranks w)).at w p);
  }
    where
      by_out :
          (o : Out A) (w : W) (k : Ranks)
          → ranks w ≡ k
          → Leaves view (λ a s. Q a (s, k)) NotZero o w
          → Leaves both Q NotZero o w
      by_out (go a) w k e h = subst (λ k. Q a (view w, k)) (sym e) h
      by_out (stop r) w k e h = h
      by_out crash w k e h = h

  pub Ends-given :
      {A B : Type 0} {P : State × Ranks → Type 0} {Q : B → State × Ranks → Type 0} (a : A)
      (f : A → Exec W B)
      → Ends both P (f a) Q NotZero
      → Ends both P (pure a >>= f) Q NotZero
  unfolding ◌>>=◌ pure
  Ends-given a f h = record { at = λ w p. h.at w p }
