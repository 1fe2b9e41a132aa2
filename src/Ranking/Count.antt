-- ===== src/Ranking/Count.antt =====
-- The number of the shared files, `get_share_files_count` of src_cgi/sharefiles_cgi.c, and what the
-- ranking is measured by.
use hydra_fs.Prelude.{
  some_inj, ◌≡◌, ◌⊎◌, inl, inr, refl, sym, subst, ap, ◌∙◌, Bool, true, false, Bool-cases, Option,
  none, some, String, length, arith,
}
use hydra_fs.Prelude.Int.{ℤ, pos, negsuc, eq_ℤ}
use hydra_fs.Text.{Bytes}
use hydra_fs.Backend.{
  select_user_count, select_share_view, set_names_utf8, Cell, chars, Reply, failed, no_result,
  affected, rows, atoi, RedisReply, integer, System,
}
use hydra_fs.Backend.Mysql.{store_one, buffer, process_result_one, msql_conn}
use hydra_fs.Backend.Redis.{integer_or_fail}
use hydra_fs.Backend.Contract.{
  Tables, State, apply, apply_tables, answer, number_rows, Contract, IsSettled, Explains, or_else,
}
use hydra_fs.Backend.Triple.Statements.{query_still, msql_conn_still, set_names_still, Selected}
use hydra_fs.Files.Share.{public_zset, public_count}
use hydra_fs.Ranking.{public_number, get_share_files_count}
use hydra_fs.Ranking.Store.{Ranks, Serves}
use hydra_fs.Ranking.Mirror.{Mirrors}
use hydra_fs.Ranking.Rebuild.{Among, Lists}

abbrev or_zero : Option ℤ → ℤ
or_zero none = pos 0
or_zero (some n) = n

-- The number of shared files that MySQL has noted.
abbrev pub public_total : Tables → ℤ
public_total t = or_zero (t.user_counts public_count)

-- Redis shows the shared files, or is as it was, with as many members as there are shared files, or
-- none are shared.
abbrev pub AreRanked : Tables → Ranks → Ranks → Type 0
AreRanked t k k' =
    Mirrors (λ f. Among f t.shares) k'
    ⊎ ((k' ≡ k)
        × ((pos (length (k.zsets public_zset)) ≡ public_total t) ⊎ (public_total t ≡ pos 0)))

pub still_count : (u : String) (s : State) → apply (select_user_count u) s ≡ s
unfolding apply apply_tables
still_count u s = refl

number_read :
    (o : Option ℤ)
    → let q = store_one (rows (number_rows o)) (some (chars "")) in
      public_number (q.0, some (buffer q.1)) ≡ (pos 0, or_zero o)
unfolding public_number store_one atoi
number_read none = refl
number_read (some n) = refl

-- What the query of the public count says.
pub number-Selected :
    (s : State) (r : ℤ) (c : Cell)
    → Selected (select_user_count public_count) s (chars "") r c
    → eq_ℤ (public_number (r, some c)).0 (pos 0) ≡ true
    → (public_number (r, some c)).1 ≡ public_total s.tables
unfolding public_number answer
number-Selected s r c (inl (e, f)) z =
    cc (subst (λ r. eq_ℤ (public_number (r, some c)).0 (pos 0) ≡ true) e z)
number-Selected s r c (inr told) z =
    let (e, f) = told (number_rows (s.tables.user_counts public_count)) refl in
    subst (λ r. (public_number (r, some c)).1 ≡ public_total s.tables) (sym e)
      (subst
        (λ c.
          (public_number (
            (store_one (rows (number_rows (s.tables.user_counts public_count)))
                (some (chars ""))).0,
            some c,
          )).1
          ≡ public_total s.tables)
        (sym f) (ap (λ q. q.1) (number_read (s.tables.user_counts public_count))))

number_stored :
    (r : Reply) (s s' : State)
    → Explains (select_user_count public_count) r s s'
    → eq_ℤ (public_number (store_one r (some (chars "")))).0 (pos 0) ≡ true
    → (public_number (store_one r (some (chars "")))).1 ≡ public_total s.tables
unfolding public_number store_one answer atoi
number_stored failed s s' e z = cc
number_stored no_result s s' e z = cc
number_stored (affected n) s s' e z = cc
number_stored (rows rs) s s' e z =
    let same : rows rs ≡ rows (number_rows (s.tables.user_counts public_count)) = e.2 _ refl in
    subst (λ r. (public_number (store_one r (some (chars "")))).1 ≡ public_total s.tables)
      (sym same) (by_count (s.tables.user_counts public_count))
  where
    by_count :
        (o : Option ℤ)
        → (public_number (store_one (rows (number_rows o)) (some (chars "")))).1 ≡ or_zero o
    by_count none = refl
    by_count (some n) = refl

pub cardinal : (r : RedisReply) (n m : ℤ) → r ≡ integer m → integer_or_fail r ≡ some n → n ≡ m
unfolding integer_or_fail
cardinal r n m e z = some_inj (sym z ∙ ap integer_or_fail e)

pub eq_of : (a b : ℤ) → eq_ℤ a b ≡ true → a ≡ b
eq_of (pos a) (pos b) e = ap pos (grind arith)
eq_of (pos a) (negsuc b) e = cc
eq_of (negsuc a) (pos b) e = cc
eq_of (negsuc a) (negsuc b) e = ap negsuc (grind arith)

pub still_view :
    (md5 : Bytes) (name : String) (s : State) → apply (select_share_view md5 name) s ≡ s
unfolding apply apply_tables
still_view md5 name s = refl

module _ {W : Type 0} (sys : System W) (view : W → State) (ranks : W → Ranks)
    (behaves : Contract sys view) (serves : Serves sys ranks) (lists : Lists sys view) where
  -- What every step keeps.
  abbrev pub Still : Tables → Ranks → W → Type 0
  Still t k w = IsSettled (view w) × ((view w).tables ≡ t) × (ranks w ≡ k)

  pub moved :
      (t : Tables) (k : Ranks) (w w' : W)
      → view w' ≡ view w
      → ranks w' ≡ ranks w
      → Still t k w
      → Still t k w'
  moved t k w w' e f (a, b, c) = (ap (λ s. s.saved) e ∙ a, ap (λ s. s.tables) e ∙ b, f ∙ c)

  pub closed : (t : Tables) (k : Ranks) (w : W) → Still t k w → Still t k (sys.mysql_close w)
  closed t k w (a, b, c) = (
    ap (λ s. s.saved) (behaves.close w),
    ap (λ s. s.tables) (behaves.close w) ∙ ap (λ o. or_else o (view w).tables) a ∙ b,
    serves.close w ∙ c,
  )

  pub connected : (t : Tables) (k : Ranks) (w : W) → Still t k w → Still t k (msql_conn sys w).1
  unfolding msql_conn
  connected t k w h =
      moved t k w (msql_conn sys w).1 (msql_conn_still sys view behaves w)
        (by_init (sys.mysql_init w).0 refl) h
    where
      by_init : (b : Bool) → (sys.mysql_init w).0 ≡ b → ranks (msql_conn sys w).1 ≡ ranks w
      by_init true e = rw e (serves.connect _ ∙ serves.init w)
      by_init false e = rw e (serves.init w)

  -- The number of the shared files, which changes nothing.
  pub count-Still :
      (t : Tables) (k : Ranks) (w : W)
      → Still t k w
      → Still t k (get_share_files_count sys w).1
        × (eq_ℤ (get_share_files_count sys w).0.0 (pos 0) ≡ true
            → (get_share_files_count sys w).0.1 ≡ public_total t)
  unfolding get_share_files_count process_result_one
  count-Still t k w h = elim (Bool-cases (msql_conn sys w).0) [
    | inl e ↦ rw e (
      closed t k _ (
          moved t k w2 _
            (query_still sys view behaves (select_user_count public_count) (still_count _) w2)
            (serves.query _ w2) names),
      λ z. number_stored _ (view w2) _ (behaves.query _ w2) z ∙ ap public_total names.1,
    )
    | inr e ↦ rw e (connected t k w h, λ z. cc)
  ]
    where
      w2 : W
      w2 = (sys.mysql_query set_names_utf8 (msql_conn sys w).1).1

      names : Still t k w2
      names =
          moved t k _ w2
            (query_still sys view behaves set_names_utf8 (set_names_still sys view behaves) _)
            (serves.query _ _) (connected t k w h)
