-- ===== src/Backend/Triple/Statements.antt =====
-- The rules for MySQL statements, whose effect is in the contract, and for Redis commands, which
-- leave the tables alone.
use hydra_fs.Prelude.{
  ◌≡◌, ◌≢◌, refl, sym, subst, Option, none, some, List, if◌then◌else◌, ◌⊎◌, inl, inr, ◌∙◌,
  Bool-cases,
}
use hydra_fs.Prelude.Int.{ℤ, negsuc}
use hydra_fs.Backend.{
  Sql, RedisCommand, RedisReply, set_names_utf8, Cell, Row, Reply, failed, no_result, rows,
  affected, System, ◌>>=◌, pure, goto_end, call,
}
use hydra_fs.Backend.Mysql.{
  store_one, buffer, is_ok, msql_conn, process_result_one, select_one, select_exists, execute,
}
use hydra_fs.Backend.Redis.{ask, survive}
use hydra_fs.Backend.Contract.{State, apply, apply_tables, answer, Fresh, Explains, Contract}
use hydra_fs.Backend.Triple.{Leaves, Ends}

-- What a query with a buffer, or with none, says of the state that it read.
abbrev pub Selected : Sql → State → Cell → ℤ → Cell → Type 0
Selected q s tmp r c =
    (r ≡ negsuc 0) × (c ≡ tmp)
    ⊎ ((rs : List Row)
        → answer q s ≡ some (rows rs)
        → (r ≡ (store_one (rows rs) (some tmp)).0)
          × (c ≡ buffer (store_one (rows rs) (some tmp)).1))

abbrev pub Counted : Sql → State → ℤ → Type 0
Counted q s r =
    (r ≡ negsuc 0)
    ⊎ ((rs : List Row) → answer q s ≡ some (rows rs) → r ≡ (store_one (rows rs) none).0)

-- What the reply to a statement says, if there is a reply.
abbrev pub Told : Sql → State → Reply → Type 0
Told q s r = (r ≡ no_result) ⊎ ((a : Reply) → answer q s ≡ some a → r ≡ a)

module _ {W : Type 0} (sys : System W) (view : W → State) (behaves : Contract sys view) where
  Explains-still :
      (q : Sql)
      → ((s : State) → apply q s ≡ s)
      → (r : Reply) (s s' : State) → Explains q r s s'
      → s' ≡ s
  Explains-still q still failed s s' e = e
  Explains-still q still no_result s s' e = e.0 ∙ still s
  Explains-still q still (rows r) s s' e = e.0 ∙ still s
  Explains-still q still (affected n) s s' e = e.0 ∙ still s

  -- A statement without an effect of its own leaves the view alone.
  pub query_still :
      (q : Sql) → ((s : State) → apply q s ≡ s) → (w : W) → view (sys.mysql_query q w).1 ≡ view w
  query_still q still w = Explains-still q still _ _ _ (behaves.query q w)

  pub set_names_still : (s : State) → apply set_names_utf8 s ≡ s
  unfolding apply apply_tables
  set_names_still s = refl

  pub msql_conn_still : (w : W) → view (msql_conn sys w).1 ≡ view w
  unfolding msql_conn
  msql_conn_still w = elim (Bool-cases (sys.mysql_init w).0) [
    | inl e ↦ rw (e, msql_conn) (behaves.connect (sys.mysql_init w).1 ∙ behaves.init w)
    | inr e ↦ rw (e, msql_conn) (behaves.init w)
  ]

module _ {W : Type 0} (sys : System W) (view : W → State) (behaves : Contract sys view)
    {E : Option ℤ → State → Type 0} where
  -- A Redis command leaves the tables alone.
  pub Sat-ask :
      {A : Type 0} (P : State → Type 0) (command : RedisCommand) (read : RedisReply → Option A)
      → ((s : State) → P s → E none s)
      → Ends view P (ask sys command read) (λ _. P) E
  unfolding ask
  Sat-ask {A} P command read dying = record {
    at = λ w p.
        outcome (read (sys.redis_command command w).0) _
          (subst P (sym (behaves.redis command w)) p);
  }
    where
      outcome :
          (o : Option A) (w : W)
          → P (view w)
          → Leaves view (λ (_ : A). P) E (survive sys o w).0 (survive sys o w).1
      outcome none w p = dying _ p
      outcome (some a) w p = p

  -- A statement: a failure leaves the state alone and goes to END.
  pub Sat-execute :
      {P : State → Type 0} {Q : Reply → State → Type 0} (q : Sql)
      → ((s : State) → P s → E (some (negsuc 0)) s)
      → ((s : State) (r : Reply) → P s → Fresh q s → Told q s r → Q r (apply q s))
      → Ends view P (execute sys q) Q E
  unfolding execute ◌>>=◌ is_ok goto_end pure call
  Sat-execute {P} {Q} q failing done = record {
    at = λ w p.
        by_reply (sys.mysql_query q w).0 (view w) (sys.mysql_query q w).1 p (behaves.query q w);
  }
    where
      by_reply :
          (r : Reply) (s : State) (w : W)
          → P s
          → Explains q r s (view w)
          → Leaves view Q E
              ((if is_ok r then pure r else goto_end (negsuc 0)) w).0
              ((if is_ok r then pure {W = W} r else goto_end (negsuc 0)) w).1
      by_reply failed s w p e = subst (E (some (negsuc 0))) (sym e) (failing s p)
      by_reply no_result s w p e = subst (Q no_result) (sym e.0) (done s no_result p e.1 (inl refl))
      by_reply (rows r) s w p e = subst (Q (rows r)) (sym e.0) (done s (rows r) p e.1 (inr e.2))
      by_reply (affected n) s w p e =
          subst (Q (affected n)) (sym e.0) (done s (affected n) p e.1 (inr e.2))

  -- A query keeps the state and answers from it.
  pub Sat-select_one :
      {P : State → Type 0} {Q : ℤ × Cell → State → Type 0} (q : Sql) (tmp : Cell)
      → ((s : State) → apply q s ≡ s)
      → ((s : State) (r : ℤ) (c : Cell) → P s → Selected q s tmp r c → Q (r, c) s)
      → Ends view P (select_one sys q tmp) Q E
  unfolding select_one process_result_one call pure ◌>>=◌ store_one
  Sat-select_one {P} {Q} q tmp still done = record {
    at = λ w p.
        by_reply (sys.mysql_query q w).0 (view w) (sys.mysql_query q w).1 p (behaves.query q w);
  }
    where
      by_reply :
          (r : Reply) (s : State) (w : W)
          → P s
          → Explains q r s (view w)
          → Q ((store_one r (some tmp)).0, buffer (store_one r (some tmp)).1) (view w)
      by_reply failed s w p e = subst (Q _) (sym e) (done s _ _ p (inl (refl, refl)))
      by_reply no_result s w p e =
          subst (Q _) (sym (e.0 ∙ still s)) (done s _ _ p (inl (refl, refl)))
      by_reply (affected n) s w p e =
          subst (Q _) (sym (e.0 ∙ still s)) (done s _ _ p (inl (refl, refl)))
      by_reply (rows r) s w p e =
          subst (Q _) (sym (e.0 ∙ still s))
            (done s _ _ p (inr (λ rs a. let same : rows r ≡ rows rs = e.2 (rows rs) a in (cc, cc))))

  -- A query that is answered with rows.
  pub Ends-answered :
      {P : State → Type 0} {Q : ℤ × Cell → State → Type 0} (q : Sql) (tmp : Cell)
      (found : State → List Row)
      → ((w : W) → ((sys.mysql_query q w).0 ≢ failed) × ((sys.mysql_query q w).0 ≢ no_result))
      → ((s : State) → apply q s ≡ s)
      → ((s : State) → answer q s ≡ some (rows (found s)))
      → ((s : State)
          → P s
          → Q
              (
                (store_one (rows (found s)) (some tmp)).0,
                buffer (store_one (rows (found s)) (some tmp)).1,
              )
              s)
      → Ends view P (select_one sys q tmp) Q E
  unfolding select_one process_result_one call pure ◌>>=◌ store_one
  Ends-answered {P} {Q} q tmp found told still answered done = record {
    at = λ w p.
        by_reply (sys.mysql_query q w).0 (view w) (sys.mysql_query q w).1 p (told w).0 (told w).1
          (behaves.query q w);
  }
    where
      by_reply :
          (r : Reply) (s : State) (w : W)
          → P s
          → r ≢ failed
          → r ≢ no_result
          → Explains q r s (view w)
          → Q ((store_one r (some tmp)).0, buffer (store_one r (some tmp)).1) (view w)
      by_reply failed s w p n m e = absurd (n refl)
      by_reply no_result s w p n m e = absurd (m refl)
      by_reply (affected n) s w p k m e =
          let wrong : affected n ≡ rows (found s) = e.2 (rows (found s)) (answered s) in cc
      by_reply (rows r) s w p n m e =
          let same : rows r ≡ rows (found s) = e.2 (rows (found s)) (answered s) in
          subst
            (λ t. Q ((store_one (rows r) (some tmp)).0, buffer (store_one (rows r) (some tmp)).1) t)
            (sym (e.0 ∙ still s))
            (subst (λ a. Q ((store_one a (some tmp)).0, buffer (store_one a (some tmp)).1) s)
              (sym same) (done s p))

  pub Sat-select_exists :
      {P : State → Type 0} {Q : ℤ → State → Type 0} (q : Sql)
      → ((s : State) → apply q s ≡ s)
      → ((s : State) (r : ℤ) → P s → Counted q s r → Q r s)
      → Ends view P (select_exists sys q) Q E
  unfolding select_exists process_result_one call pure ◌>>=◌ store_one
  Sat-select_exists {P} {Q} q still done = record {
    at = λ w p.
        by_reply (sys.mysql_query q w).0 (view w) (sys.mysql_query q w).1 p (behaves.query q w);
  }
    where
      by_reply :
          (r : Reply) (s : State) (w : W)
          → P s
          → Explains q r s (view w)
          → Q (store_one r none).0 (view w)
      by_reply failed s w p e = subst (Q _) (sym e) (done s _ p (inl refl))
      by_reply no_result s w p e = subst (Q _) (sym (e.0 ∙ still s)) (done s _ p (inl refl))
      by_reply (affected n) s w p e = subst (Q _) (sym (e.0 ∙ still s)) (done s _ p (inl refl))
      by_reply (rows r) s w p e =
          subst (Q _) (sym (e.0 ∙ still s))
            (done s _ p (inr (λ rs a. let same : rows r ≡ rows rs = e.2 (rows rs) a in cc)))
