-- ===== src/Ranking/Rebuild.antt =====
-- The request for the ranking of src_cgi/sharefiles_cgi.c: Redis shows the shared files behind it, or
-- is as it was.
use hydra_fs.Prelude.{
  ◌≡◌, ◌⊎◌, inl, inr, refl, sym, subst, true, false, some, List, [], ◌∷◌, if◌then◌else◌,
}
use hydra_fs.Prelude.Int.{negsuc}
use hydra_fs.Backend.{
  select_all_shares, chars, number, Row, Reply, failed, no_result, rows, affected, zadd, hset, del,
  System, pure, ◌>>=◌, atoi, goto_end, call,
}
use hydra_fs.Backend.Mysql.{is_ok, execute}
use hydra_fs.Backend.Redis.{
  rop_del_key, rop_zset_add, rop_hash_set, deleted_or_fail, one_or_fail, set_or_fail,
}
use hydra_fs.Backend.Contract.{Share, Tables, State, apply, apply_tables, Contract}
use hydra_fs.Backend.Triple.{Leaves, Ends, NotZero, Sat-step, Sat-pure, Sat-stop, Sat-after}
use hydra_fs.Backend.Triple.Statements.{query_still}
use hydra_fs.Files.Share.{public_zset, name_hash}
use hydra_fs.Ranking.{share_of_row, or_end, import_share, import_rows, import_result, rebuild}
use hydra_fs.Ranking.Store.{Ranks, effect, Serves}
use hydra_fs.Ranking.Mirror.{Mirrors, Mirrors-same, Mirrors-nothing, Mirrors-imported, file_key}
use hydra_fs.Ranking.Rules.{both, At, Ends-ask, Ends-given}

abbrev pub Among : Share → List Share → Type 0
Among f [] = true ≡ false
Among f (g ∷ gs) = (f ≡ g) ⊎ Among f gs

abbrev pub share_rows : List Share → List Row
share_rows [] = []
share_rows (f ∷ fs) =
    (some (chars f.md5) ∷ some (chars f.file_name) ∷ some (number f.pv) ∷ []) ∷ share_rows fs

-- The query of the whole list answers with the shared files, in any order.
pub record Lists {W : Type 0} (sys : System W) (view : W → State) : Type 0 where
  pub all_shares :
      (w : W) (rs : List Row)
      → (sys.mysql_query select_all_shares w).0 ≡ rows rs
      → (fs : List Share) × (rs ≡ share_rows fs)
        × ((f : Share) → Among f fs → Among f (view w).tables.shares)
        × ((f : Share) → Among f (view w).tables.shares → Among f fs)

only_right {ℓ} : {A : Type ℓ} → (true ≡ false) ⊎ A → A
only_right (inl e) = cc
only_right (inr a) = a

still_list : (s : State) → apply select_all_shares s ≡ s
unfolding apply apply_tables
still_list s = refl

-- Rows of these files, in any order.
abbrev AreRowsOf : List Share → List Row → Type 0
AreRowsOf shares rs =
    (fs : List Share) × (rs ≡ share_rows fs)
    × ((f : Share) → Among f fs → Among f shares)
    × ((f : Share) → Among f shares → Among f fs)

module _ {W : Type 0} (sys : System W) (view : W → State) (ranks : W → Ranks)
    (behaves : Contract sys view) (serves : Serves sys ranks) (lists : Lists sys view) where
  abbrev view2 : W → State × Ranks
  view2 = both sys view ranks behaves serves

  abbrev Shows : Tables → (Share → Type 0) → State × Ranks → Type 0
  Shows t P s = At sys view ranks behaves serves t s.0 × Mirrors P s.1

  import_share-Mirrors :
      (t : Tables) (P : Share → Type 0) (f : Share)
      → Ends view2
          (Shows t P)
          (import_share sys (f.md5, f.file_name, f.pv))
          (λ _. Shows t (λ g. P g ⊎ (g ≡ f)))
          NotZero
  unfolding import_share rop_zset_add rop_hash_set
  import_share-Mirrors t P f =
      Sat-step view2
        (λ _ s.
          (k : Ranks) × Shows t P (s.0, k) × (s.1 ≡ effect (zadd public_zset f.pv (file_key f)) k))
        (Ends-ask sys view ranks behaves serves (zadd public_zset f.pv (file_key f)) one_or_fail
          (λ s r a p told e. (s.1, p, refl)))
        (λ _.
          Sat-step view2 (λ _. Shows t (λ g. P g ⊎ (g ≡ f)))
            (Ends-ask sys view ranks behaves serves (hset name_hash (file_key f) f.file_name)
              set_or_fail
              (λ s r a (k, p, at) told e. (
                p.0,
                subst
                    (λ k.
                      Mirrors (λ g. P g ⊎ (g ≡ f))
                        (effect (hset name_hash (file_key f) f.file_name) k))
                    (sym at) (Mirrors-imported f k P p.1),
              )))
            (λ _. Sat-pure view2 tt (λ s h. h)))

  import_rows-Mirrors :
      (t : Tables) (P : Share → Type 0) (fs : List Share)
      → Ends view2
          (Shows t P)
          (import_rows sys (share_rows fs))
          (λ _. Shows t (λ g. P g ⊎ Among g fs))
          NotZero
  unfolding import_rows or_end share_of_row atoi
  import_rows-Mirrors t P [] = Sat-pure view2 tt (λ s h.
      (h.0, Mirrors-same P (λ g. P g ⊎ Among g []) s.1 (λ g p. inl p) (λ g o. kept g o) h.1))
    where
      kept : (g : Share) → P g ⊎ Among g [] → P g
      kept g (inl p) = p
      kept g (inr n) = cc
  import_rows-Mirrors t P (f ∷ fs) = Ends-given sys view ranks behaves serves _ _ (
      Sat-step view2 (λ _. Shows t (λ g. P g ⊎ (g ≡ f))) (import_share-Mirrors t P f)
        (λ _. regrouped (import_rows-Mirrors t (λ g. P g ⊎ (g ≡ f)) fs)))
    where
      there : (g : Share) → (P g ⊎ (g ≡ f)) ⊎ Among g fs → P g ⊎ Among g (f ∷ fs)
      there g (inl (inl p)) = inl p
      there g (inl (inr e)) = inr (inl e)
      there g (inr a) = inr (inr a)

      back : (g : Share) → P g ⊎ Among g (f ∷ fs) → (P g ⊎ (g ≡ f)) ⊎ Among g fs
      back g (inl p) = inl (inl p)
      back g (inr (inl e)) = inl (inr e)
      back g (inr (inr a)) = inr a

      regrouped :
          Ends view2
            (Shows t (λ g. P g ⊎ (g ≡ f)))
            (import_rows sys (share_rows fs))
            (λ _. Shows t (λ g. (P g ⊎ (g ≡ f)) ⊎ Among g fs))
            NotZero
          → Ends view2
              (Shows t (λ g. P g ⊎ (g ≡ f)))
              (import_rows sys (share_rows fs))
              (λ _. Shows t (λ g. P g ⊎ Among g (f ∷ fs)))
              NotZero
      regrouped h = Sat-after view2 _ (λ _ s q. (q.0, Mirrors-same _ _ s.1 there back q.1)) h

  import_result-Mirrors :
      (t : Tables) (reply : Reply)
      → ((rs : List Row)
          → reply ≡ rows rs
          → (fs : List Share) × (rs ≡ share_rows fs)
            × ((f : Share) → Among f fs → Among f t.shares)
            × ((f : Share) → Among f t.shares → Among f fs))
      → Ends view2
          (Shows t (λ f. true ≡ false))
          (import_result sys reply)
          (λ _. Shows t (λ f. Among f t.shares))
          NotZero
  unfolding import_result
  import_result-Mirrors t failed told = Sat-stop view2 (negsuc 0) (λ s h e. cc)
  import_result-Mirrors t no_result told = Sat-stop view2 (negsuc 0) (λ s h e. cc)
  import_result-Mirrors t (affected n) told = Sat-stop view2 (negsuc 0) (λ s h e. cc)
  import_result-Mirrors t (rows []) told = Sat-stop view2 (negsuc 0) (λ s h e. cc)
  import_result-Mirrors t (rows (row ∷ rest)) told =
      let (fs, e, there, back) = told (row ∷ rest) refl in
      subst
        (λ rs.
          Ends view2 (Shows t (λ f. true ≡ false)) (import_rows sys rs)
            (λ _. Shows t (λ f. Among f t.shares)) NotZero)
        (sym e)
        (Sat-after view2 _
          (λ _ s q.
            (q.0, Mirrors-same _ _ s.1 (λ f o. there f (only_right o)) (λ f a. inr (back f a)) q.1))
          (import_rows-Mirrors t (λ f. true ≡ false) fs))

  -- The files are ranked, and the result of the query is still to be read.
  list_told :
      (t : Tables) (P : Ranks → Type 0)
      → Ends view2
          (λ s. At sys view ranks behaves serves t s.0 × P s.1)
          (execute sys select_all_shares)
          (λ reply s.
            (At sys view ranks behaves serves t s.0 × P s.1)
            × ((rs : List Row) → reply ≡ rows rs → AreRowsOf t.shares rs))
          NotZero
  unfolding execute ◌>>=◌ is_ok goto_end pure call
  list_told t P = record {
    at = λ w p.
        by_reply (sys.mysql_query select_all_shares w).0 (sys.mysql_query select_all_shares w).1
          (
            subst (At sys view ranks behaves serves t)
                (sym (query_still sys view behaves select_all_shares still_list w)) p.0,
            subst P (sym (serves.query select_all_shares w)) p.1,
          )
          (λ rs e. subst (λ t. AreRowsOf t.shares rs) p.0.1 (lists.all_shares w rs e));
  }
    where
      by_reply :
          (r : Reply) (w : W)
          → At sys view ranks behaves serves t (view w) × P (ranks w)
          → ((rs : List Row) → r ≡ rows rs → AreRowsOf t.shares rs)
          → Leaves view2
              (λ reply s.
                (At sys view ranks behaves serves t s.0 × P s.1)
                × ((rs : List Row) → reply ≡ rows rs → AreRowsOf t.shares rs))
              NotZero
              ((if is_ok r then pure r else goto_end (negsuc 0)) w).0
              ((if is_ok r then pure {W = W} r else goto_end (negsuc 0)) w).1
      by_reply failed w p told = λ e. cc
      by_reply no_result w p told = (p, told)
      by_reply (rows rs) w p told = (p, told)
      by_reply (affected n) w p told = (p, told)

  -- Behind a rebuild that goes on Redis shows the shared files.
  pub rebuild-Mirrors :
      (t : Tables)
      → Ends view2
          (λ s. At sys view ranks behaves serves t s.0)
          (rebuild sys)
          (λ _ s. At sys view ranks behaves serves t s.0 × Mirrors (λ f. Among f t.shares) s.1)
          NotZero
  unfolding rebuild rop_del_key
  rebuild-Mirrors t =
      Sat-step view2
        (λ _ s.
          (k : Ranks) × At sys view ranks behaves serves t s.0 × (s.1 ≡ effect (del public_zset) k))
        (Ends-ask sys view ranks behaves serves (del public_zset) deleted_or_fail
          (λ s r a p told e. (s.1, p, refl)))
        (λ _.
          Sat-step view2 (λ _. Shows t (λ f. true ≡ false))
            (Ends-ask sys view ranks behaves serves (del name_hash) deleted_or_fail
              (λ s r a (k, p, e) told _. (
                p,
                subst (λ k. Mirrors (λ f. true ≡ false) (effect (del name_hash) k)) (sym e)
                    (Mirrors-nothing k),
              )))
            (λ _.
              Sat-step view2
                (λ reply s.
                  Shows t (λ f. true ≡ false) s
                  × ((rs : List Row) → reply ≡ rows rs → AreRowsOf t.shares rs))
                (list_told t (Mirrors (λ f. true ≡ false)))
                (λ reply. record { at = λ w p. (import_result-Mirrors t reply p.1).at w p.0 })))
