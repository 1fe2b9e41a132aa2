-- ===== src/Ranking/Request.antt =====
-- The request for the ranking of src_cgi/sharefiles_cgi.c: Redis shows the shared files behind it, or
-- is as it was.
use hydra_fs.Prelude.{
  ◌≡◌, inl, inr, refl, sym, subst, ap, ◌∙◌, true, Bool-cases, Option, none, some, String, List, [],
  ◌∷◌, length,
}
use hydra_fs.Prelude.Int.{ℤ, pos, negsuc, eq_ℤ}
use hydra_fs.Backend.{
  select_user_count, set_names_utf8, Sql, Cell, chars, zcard, System, pure, ◌>>=◌, call,
}
use hydra_fs.Backend.Mysql.{select_one, process_result_one, return_value, with_database}
use hydra_fs.Backend.Redis.{
  integer_or_fail, rop_zset_zcard, rop_zset_get_score, rop_zset_zrevrange, rop_hash_get,
}
use hydra_fs.Backend.Contract.{Tables, State, apply, Contract, IsSettled}
use hydra_fs.Backend.Triple.{
  Leaves, Ends, NotZero, zero_went_on, Sat-step, Sat-pure, Sat-stop, Sat-if, Sat-run, Sat-pre,
  Sat-after,
}
use hydra_fs.Backend.Triple.Statements.{query_still, set_names_still, Sat-select_one}
use hydra_fs.Backend.Triple.Session.{session_ends}
use hydra_fs.Files.Share.{public_zset, public_count}
use hydra_fs.Ranking.{
  public_number, or_end, read_item, read_items, renewed, rebuild, ranking_steps, ranked,
  get_share_files_count, get_ranking_filelist,
}
use hydra_fs.Ranking.Store.{Ranks, effect, Serves}
use hydra_fs.Ranking.Rules.{both, At, Ends-ask, Ends-beside}
use hydra_fs.Ranking.Rebuild.{Lists, rebuild-Mirrors}
use hydra_fs.Ranking.Count.{
  public_total, AreRanked, still_count, number-Selected, cardinal, eq_of, still_view, Still, moved,
  closed, connected, count-Still,
}

module _ {W : Type 0} (sys : System W) (view : W → State) (ranks : W → Ranks)
    (behaves : Contract sys view) (serves : Serves sys ranks) (lists : Lists sys view) where
  abbrev view2 : W → State × Ranks
  view2 = both sys view ranks behaves serves

  abbrev Settled : Tables → State → Type 0
  Settled = At sys view ranks behaves serves

  select_kept : (q : Sql) (tmp : Cell) (w : W) → ranks (select_one sys q tmp w).1 ≡ ranks w
  unfolding select_one process_result_one call pure ◌>>=◌
  select_kept q tmp w = serves.query q w

  -- What the ranking is behind the comparison.
  abbrev Ranked : Tables → Ranks → State × Ranks → Type 0
  Ranked t k s = Settled t s.0 × AreRanked t k s.1

  found_or_end :
      {A : Type 0} (P : State × Ranks → Type 0) (o : Option A)
      → Ends view2 P (or_end sys o) (λ _. P) NotZero
  unfolding or_end
  found_or_end P none = Sat-stop view2 (negsuc 0) (λ s h e. cc)
  found_or_end P (some a) = Sat-pure view2 a (λ s h. h)

  query_beside :
      (P : State × Ranks → Type 0) (q : Sql)
      → ((s : State) → apply q s ≡ s)
      → (w : W) → P (view2 w)
      → P (view2 (sys.mysql_query q w).1)
  query_beside P q still w h =
      subst (λ k. P (view (sys.mysql_query q w).1, k)) (sym (serves.query q w))
        (subst (λ s. P (s, ranks w)) (sym (query_still sys view behaves q still w)) h)

  item_kept :
      (P : State × Ranks → Type 0) (member : String)
      → Ends view2 P (read_item sys member) (λ _. P) NotZero
  unfolding read_item rop_hash_get rop_zset_get_score effect
  item_kept P member =
      Sat-step view2 (λ _. P) (Ends-ask sys view ranks behaves serves _ _ (λ s r a h told e. h))
        (λ name.
          Sat-step view2 (λ _. P) (found_or_end P name)
            (λ file_name.
              Sat-step view2 (λ _. P)
                (Ends-ask sys view ranks behaves serves _ _ (λ s r a h told e. h))
                (λ score.
                  Sat-step view2 (λ _. P)
                    (Sat-if view2 _ _ _ (λ _. Sat-stop view2 (negsuc 0) (λ s h e. cc))
                      (λ _. Sat-pure view2 tt (λ s h. h)))
                    (λ _.
                      Sat-step view2 (λ _. P)
                        (Sat-run view2 _ (λ w h. query_beside P _ (still_view _ _) w h))
                        (λ reply. Sat-pure view2 _ (λ s h. h))))))

  items_still :
      (P : State × Ranks → Type 0) (members : List String)
      → Ends view2 P (read_items sys members) (λ _. P) NotZero
  unfolding read_items
  items_still P [] = Sat-pure view2 [] (λ s h. h)
  items_still P (member ∷ rest) =
      Sat-step view2 (λ _. P) item_still
        (λ item.
          Sat-step view2 (λ _. P) (items_still P rest) (λ items. Sat-pure view2 _ (λ s h. h)))
    where
      item_still : Ends view2 P (read_item sys member) (λ _. P) NotZero
      item_still = item_kept P member

  renewed-Ranked :
      (t : Tables) (k : Ranks) (sql_num redis_num : ℤ)
      → Ends view2
          (λ s.
            (Settled t s.0 × (s.1 ≡ k))
            × (sql_num ≡ public_total t)
            × (redis_num ≡ pos (length (k.zsets public_zset))))
          (renewed sys sql_num redis_num)
          (λ _. Ranked t k)
          NotZero
  unfolding renewed
  renewed-Ranked t k sql_num redis_num =
      Sat-if view2 (eq_ℤ redis_num sql_num) _ _
        (λ same.
          Sat-pure view2 tt
            (λ s h. (h.0.0, inr (h.0.1, inl (sym h.2 ∙ eq_of redis_num sql_num same ∙ h.1)))))
        (λ _.
          Sat-pre view2 (rebuild sys) (λ s h. h.0.0)
            (Sat-after view2 (rebuild sys) (λ _ s h. (h.0, inl h.1))
              (rebuild-Mirrors sys view ranks behaves serves lists t)))

  steps-Ranked :
      (t : Tables) (k : Ranks) (start count : ℤ)
      → Ends view2
          (λ s. Settled t s.0 × (s.1 ≡ k))
          (ranking_steps sys start count)
          (λ _. Ranked t k)
          NotZero
  unfolding ranking_steps rop_zset_zcard rop_zset_zrevrange renewed or_end effect
  steps-Ranked t k start count =
      Sat-step view2
        (λ found s.
          (Settled t s.0 × (s.1 ≡ k))
          × (eq_ℤ (public_number (found.0, some found.1)).0 (pos 0) ≡ true
              → (public_number (found.0, some found.1)).1 ≡ public_total t))
        (Ends-beside sys view ranks behaves serves _ (λ w. select_kept _ _ w)
          (λ k'.
            Sat-select_one sys view behaves (select_user_count public_count) (chars "")
              (still_count public_count)
              (λ s r c h told. (h, λ z. number-Selected s r c told z ∙ ap public_total h.0.1))))
        (λ found.
          Sat-step view2 (λ sql_num s. (Settled t s.0 × (s.1 ≡ k)) × (sql_num ≡ public_total t))
            (Sat-if view2 _ _ _ (λ z. Sat-pure view2 _ (λ s h. (h.0, h.1 z)))
              (λ _. Sat-stop view2 (negsuc 0) (λ s h e. cc)))
            (λ sql_num.
              Sat-step view2
                (λ redis_num s.
                  (Settled t s.0 × (s.1 ≡ k))
                  × (sql_num ≡ public_total t)
                  × (redis_num ≡ pos (length (k.zsets public_zset))))
                (Ends-ask sys view ranks behaves serves (zcard public_zset) integer_or_fail
                  (λ s r n h told e. (
                    h.0,
                    h.1,
                    cardinal r n _ told e ∙ ap (λ k. pos (length (k.zsets public_zset))) h.0.1,
                  )))
                (λ redis_num.
                  Sat-step view2
                    (λ _ s.
                      (Settled t s.0 × (s.1 ≡ k))
                      × (sql_num ≡ public_total t)
                      × (redis_num ≡ pos (length (k.zsets public_zset))))
                    (Sat-if view2 _ _ _ (λ _. Sat-stop view2 (negsuc 0) (λ s h e. cc))
                      (λ _. Sat-pure view2 tt (λ s h. h)))
                    (λ _.
                      Sat-step view2 (λ _. Ranked t k) (renewed-Ranked t k sql_num redis_num)
                        (λ _.
                          Sat-step view2 (λ _. Ranked t k)
                            (Sat-if view2 _ _ _ (λ _. Sat-stop view2 (negsuc 0) (λ s h e. cc))
                              (λ _. Sat-pure view2 tt (λ s h. h)))
                            (λ _.
                              Sat-step view2 (λ _. Ranked t k)
                                (Ends-ask sys view ranks behaves serves _ _ (λ s r a h told e. h))
                                (λ value.
                                  Sat-step view2 (λ _. Ranked t k) (found_or_end (Ranked t k) value)
                                    (λ members. items_still (Ranked t k) members))))))))

  ranked_lem :
      (t : Tables) (k : Ranks) (start count : ℤ) (w : W)
      → Still sys view ranks behaves serves lists t k w
      → return_value (ranked sys start count w).0 ≡ some (pos 0)
      → AreRanked t k (ranks (ranked sys start count w).1)
  unfolding ranked
  ranked_lem t k start count w h = elim (Bool-cases (sys.redis_connect w).0) [
    | inl e ↦ rw e (λ z. (zero_went_on view2 (Ranked t k) _ _ session z).1)
    | inr e ↦ rw e (λ z. cc)
  ]
    where
      w1 : W
      w1 = (sys.redis_connect w).1

      opened : Still sys view ranks behaves serves lists t k w1
      opened =
          moved sys view ranks behaves serves lists t k w w1 (behaves.redis_connect w)
            (serves.redis_connect w) h

      session :
          Leaves view2
            (λ _. Ranked t k)
            NotZero
            (with_database sys (ranking_steps sys start count) w1).0
            (with_database sys (ranking_steps sys start count) w1).1
      session =
          session_ends sys view2 (λ s. Settled t s.0 × (s.1 ≡ k)) (λ _. Ranked t k) NotZero
            (ranking_steps sys start count)
            (λ w p.
              let (a, b, c) =
                connected sys view ranks behaves serves lists t k w (p.0.0, p.0.1, p.1) in
              ((a, b), c))
            (λ w p.
              query_beside (λ s. Settled t s.0 × (s.1 ≡ k)) set_names_utf8
                (set_names_still sys view behaves) w p)
            (λ _ w q.
              let (a, b, c) =
                closed sys view ranks behaves serves lists t (ranks w) w (q.0.0, q.0.1, refl) in
              ((a, b), subst (AreRanked t k) (sym c) q.1))
            (λ r w e. e) (λ w e s p z. cc) (steps-Ranked t k start count) w1
            ((opened.0, opened.1), opened.2)

  -- Where the ranking is answered outside a transaction, the query of the whole list gives the
  -- shared files in any order and Redis serves every command, Redis shows behind it exactly the files
  -- of share_file_list; or it is as it was, with as many members as the count of the shared files in
  -- MySQL says, or that count is 0.
  pub get_ranking_filelist-AreRanked :
      (start count : ℤ) (w : W)
      → IsSettled (view w)
      → return_value (get_ranking_filelist sys start count w).0 ≡ some (pos 0)
      → AreRanked (view w).tables (ranks w) (ranks (get_ranking_filelist sys start count w).1)
  unfolding get_ranking_filelist
  get_ranking_filelist-AreRanked start count w h =
      elim (Bool-cases (eq_ℤ (get_share_files_count sys w).0.0 (pos 0))) [
        | inl e ↦ rw e (elim (Bool-cases (eq_ℤ (get_share_files_count sys w).0.1 (pos 0))) [
          | inl f ↦ rw f (λ z. inr (counted.0.2, inr (sym (counted.1 e) ∙ eq_of _ _ f)))
          | inr f ↦ rw f (ranked_lem _ _ start count _ counted.0)
        ])
        | inr e ↦ rw e (λ z. cc)
      ]
    where
      counted :
          Still sys view ranks behaves serves lists
            (view w).tables
            (ranks w)
            (get_share_files_count sys w).1
          × (eq_ℤ (get_share_files_count sys w).0.0 (pos 0) ≡ true
              → (get_share_files_count sys w).0.1 ≡ public_total (view w).tables)
      counted =
          count-Still sys view ranks behaves serves lists (view w).tables (ranks w) w
            (h, refl, refl)
