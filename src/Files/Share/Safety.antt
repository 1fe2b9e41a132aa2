-- ===== src/Files/Share/Safety.antt =====
-- Sharing keeps the counts above the references.
use hydra_fs.Prelude.{
  ◌≡◌, refl, sym, subst, Bool, Bool-cases, inl, inr, none, String, List, [], ◌∷◌, if◌then◌else◌,
  Option,
}
use hydra_fs.Prelude.Int.{ℤ, pos, negsuc, eq_ℤ}
use hydra_fs.Backend.{
  select_share, update_shared_status, insert_share, delete_user_count, select_share_pv,
  update_share_pv, chars, System, Exec, pure, goto_end, RedisCommand, RedisReply, atoi,
}
use hydra_fs.Backend.Redis.{
  ask, rop_zset_exit, rop_zset_add, rop_zset_zrem, rop_zset_increment, rop_hash_set, rop_hash_del,
  integer_or_fail, one_or_fail, ok_or_fail, set_or_fail,
}
use hydra_fs.Backend.Contract.{UserFile, State, Contract, apply, apply_tables, with_status, is_row}
use hydra_fs.Backend.Triple.{Sat, Sat-step, Sat-pure, Sat-stop, Sat-if, Sat-quiet}
use hydra_fs.Backend.Triple.Statements.{Sat-ask, Sat-execute, Sat-select_one, Sat-select_exists}
use hydra_fs.Backend.Triple.Session.{with_database_keeps}
use hydra_fs.Files.Invariant.{refs, Covers, IsSafe}
use hydra_fs.Files.Invariant.Steps.{Safe-update_user_count, IsSafe-rolled_back, still_user_count}
use hydra_fs.Files.Count.Safety.{raise_user_count_keeps}
use hydra_fs.Files.Delete.{is_one_row}
use hydra_fs.Files.Delete.Row.{Safe-delete_share}
use hydra_fs.Files.Share.{
  public_count, with_both, refuse_shared, record_share, share_file_steps, share_file,
  public_count_statement, cancel_share_steps, cancel_share_file, rank_download, pv_file_steps,
  pv_file,
}

refs-with_status :
    (k : String) (n : ℤ) (user md5 name : String) (rs : List UserFile)
    → refs k (with_status n user md5 name rs) ≡ refs k rs
unfolding refs with_status
refs-with_status k n user md5 name [] = refl
refs-with_status k n user md5 name (r ∷ rs) = elim (Bool-cases (is_row user md5 name r)) [
  | inl e ↦ rw (e, refs-with_status k n user md5 name rs) refl
  | inr e ↦ rw (e, refs-with_status k n user md5 name rs) refl
]

module _ (s : State) (h : IsSafe s) where
  Safe-update_shared_status :
      (n : ℤ) (user md5 name : String) → IsSafe (apply (update_shared_status n user md5 name) s)
  unfolding apply apply_tables
  Safe-update_shared_status n user md5 name = record {
    now = record {
      counted = λ k.
          subst (λ c. Covers c (s.tables.file_info k))
            (sym (refs-with_status k n user md5 name s.tables.user_files)) (h.now.counted k);
      kept = h.now.kept;
      distinct = h.now.distinct;
    };
    before = h.before;
  }

  Safe-insert_share :
      (user md5 time name : String) (pv : ℤ) (token : String)
      → IsSafe (apply (insert_share user md5 time name pv token) s)
  unfolding apply apply_tables
  Safe-insert_share user md5 time name pv token = record {
    now = record { counted = h.now.counted; kept = h.now.kept; distinct = h.now.distinct };
    before = h.before;
  }

  Safe-update_share_pv :
      (pv : ℤ) (md5 name : String) → IsSafe (apply (update_share_pv pv md5 name) s)
  unfolding apply apply_tables
  Safe-update_share_pv pv md5 name = record {
    now = record { counted = h.now.counted; kept = h.now.kept; distinct = h.now.distinct };
    before = h.before;
  }

  Safe-delete_user_count : (user : String) → IsSafe (apply (delete_user_count user) s)
  unfolding apply apply_tables
  Safe-delete_user_count user = record {
    now = record { counted = h.now.counted; kept = h.now.kept; distinct = h.now.distinct };
    before = h.before;
  }

  Safe-public_count_statement : (count : ℤ) → IsSafe (apply (public_count_statement count) s)
  unfolding public_count_statement
  Safe-public_count_statement count = elim (Bool-cases (eq_ℤ count (pos 1))) [
    | inl e ↦ rw e (Safe-delete_user_count public_count)
    | inr e ↦ rw e (Safe-update_user_count none s h _ public_count)
  ]

still_share : (md5 name : String) (s : State) → apply (select_share md5 name) s ≡ s
unfolding apply apply_tables
still_share md5 name s = refl

still_share_pv : (md5 name : String) (s : State) → apply (select_share_pv md5 name) s ≡ s
unfolding apply apply_tables
still_share_pv md5 name s = refl

module _ {W : Type 0} (sys : System W) (view : W → State) (behaves : Contract sys view) where
  -- A step that keeps the counts above the references, wherever it stops.
  abbrev Keeps : {A : Type 0} → Exec W A → Type 0
  Keeps m = Sat view IsSafe m (λ _. IsSafe) IsSafe

  done : {A : Type 0} (a : A) → Keeps (pure a)
  done a = Sat-pure view a (λ s h. h)

  left : {A : Type 0} (r : ℤ) → Keeps (goto_end {A = A} r)
  left r = Sat-stop view r (λ s h. h)

  guarded : (b : Bool) (r : ℤ) → Keeps (if b then pure tt else goto_end r)
  guarded b r = Sat-if view b _ _ (λ _. done tt) (λ _. left r)

  asked :
      {A : Type 0} (command : RedisCommand) (read : RedisReply → Option A)
      → Keeps (ask sys command read)
  asked command read = Sat-ask sys view behaves IsSafe command read (λ s h. h)

  refuse_shared-Keeps : (md5 filename : String) → Keeps (refuse_shared sys md5 filename)
  unfolding refuse_shared rop_zset_add
  refuse_shared-Keeps md5 filename =
      Sat-step view (λ _. IsSafe)
        (Sat-select_exists sys view behaves _ (still_share md5 filename) (λ s r h _. h))
        (λ ret2.
          Sat-if view (eq_ℤ ret2 (pos 2)) _ _
            (λ _. Sat-step view (λ _. IsSafe) (asked _ one_or_fail) (λ _. left (negsuc 1)))
            (λ _. done tt))

  record_share-Keeps : (user md5 filename : String) → Keeps (record_share sys user md5 filename)
  unfolding record_share rop_zset_add rop_hash_set
  record_share-Keeps user md5 filename =
      Sat-step view (λ _. IsSafe)
        (Sat-execute sys view behaves _ (λ s h. h)
          (λ s r h _ _. Safe-update_shared_status s h (pos 1) user md5 filename))
        (λ updated.
          Sat-step view (λ _. IsSafe) (guarded (is_one_row updated) (negsuc 0))
            (λ _.
              Sat-step view (λ _. IsSafe) (Sat-quiet view _ _ behaves.local_time)
                (λ time.
                  Sat-step view (λ _. IsSafe) (Sat-quiet view _ _ (behaves.token user md5 filename))
                    (λ token.
                      Sat-step view (λ _. IsSafe)
                        (Sat-execute sys view behaves _ (λ s h. h)
                          (λ s r h _ _. Safe-insert_share s h user md5 time filename (pos 0) token))
                        (λ _.
                          Sat-step view (λ _. IsSafe)
                            (raise_user_count_keeps sys view behaves public_count (chars ""))
                            (λ _.
                              Sat-step view (λ _. IsSafe) (asked _ one_or_fail)
                                (λ _.
                                  Sat-step view (λ _. IsSafe) (asked _ set_or_fail)
                                    (λ _. done tt))))))))

  share_file_steps-Keeps :
      (user md5 filename : String) → Keeps (share_file_steps sys user md5 filename)
  unfolding share_file_steps rop_zset_exit
  share_file_steps-Keeps user md5 filename =
      Sat-step view (λ _. IsSafe) (asked _ integer_or_fail)
        (λ ret2.
          Sat-step view (λ _. IsSafe)
            (Sat-if view (eq_ℤ ret2 (pos 1)) _ _ (λ _. left (negsuc 1)) (λ _. done tt))
            (λ _.
              Sat-step view (λ _. IsSafe)
                (Sat-if view (eq_ℤ ret2 (pos 0)) _ _ (λ _. refuse_shared-Keeps md5 filename)
                  (λ _. left (negsuc 0)))
                (λ _. record_share-Keeps user md5 filename)))

  cancel_share_steps-Keeps :
      (user md5 filename : String) → Keeps (cancel_share_steps sys user md5 filename)
  unfolding cancel_share_steps rop_zset_zrem rop_hash_del
  cancel_share_steps-Keeps user md5 filename =
      Sat-step view (λ _. IsSafe)
        (Sat-execute sys view behaves _ (λ s h. h)
          (λ s r h _ _. Safe-update_shared_status s h (pos 0) user md5 filename))
        (λ _.
          Sat-step view (λ _. IsSafe)
            (Sat-select_one sys view behaves _ (chars "") (still_user_count public_count)
              (λ s r c h _. h))
            (λ found.
              Sat-step view (λ _. IsSafe) (guarded (eq_ℤ found.0 (pos 0)) (negsuc 0))
                (λ _.
                  Sat-step view (λ _. IsSafe)
                    (Sat-execute sys view behaves _ (λ s h. h)
                      (λ s r h _ _. Safe-public_count_statement s h (atoi found.1)))
                    (λ _.
                      Sat-step view (λ _. IsSafe)
                        (Sat-execute sys view behaves _ (λ s h. h)
                          (λ s r h _ _. Safe-delete_share user md5 filename s h))
                        (λ _.
                          Sat-step view (λ _. IsSafe) (asked _ one_or_fail)
                            (λ ret.
                              Sat-step view (λ _. IsSafe) (guarded (eq_ℤ ret (pos 0)) ret)
                                (λ _.
                                  Sat-step view (λ _. IsSafe) (asked _ one_or_fail)
                                    (λ ret'. guarded (eq_ℤ ret' (pos 0)) ret'))))))))

  rank_download-Keeps : (md5 filename : String) (pv : ℤ) → Keeps (rank_download sys md5 filename pv)
  unfolding rank_download rop_zset_exit rop_zset_increment rop_zset_add rop_hash_set
  rank_download-Keeps md5 filename pv =
      Sat-step view (λ _. IsSafe) (asked _ integer_or_fail)
        (λ ret2.
          Sat-if view (eq_ℤ ret2 (pos 1)) _ _
            (λ _. Sat-step view (λ _. IsSafe) (asked _ ok_or_fail) (λ ret. left ret))
            (λ _.
              Sat-if view (eq_ℤ ret2 (pos 0)) _ _
                (λ _.
                  Sat-step view (λ _. IsSafe) (asked _ one_or_fail)
                    (λ _. Sat-step view (λ _. IsSafe) (asked _ set_or_fail) (λ _. done tt)))
                (λ _. left (negsuc 0))))

  pv_file_steps-Keeps : (md5 filename : String) → Keeps (pv_file_steps sys md5 filename)
  unfolding pv_file_steps
  pv_file_steps-Keeps md5 filename =
      Sat-step view (λ _. IsSafe)
        (Sat-select_one sys view behaves _ (chars "") (still_share_pv md5 filename)
          (λ s r c h _. h))
        (λ found.
          Sat-step view (λ _. IsSafe) (guarded (eq_ℤ found.0 (pos 0)) (negsuc 0))
            (λ _.
              Sat-step view (λ _. IsSafe)
                (Sat-execute sys view behaves _ (λ s h. h)
                  (λ s r h _ _. Safe-update_share_pv s h _ md5 filename))
                (λ _. rank_download-Keeps md5 filename (atoi found.1))))

  both_keep :
      (steps : Exec W (Unit {0}))
      → Keeps steps
      → (w : W) → IsSafe (view w)
      → IsSafe (view (with_both sys steps w).1)
  unfolding with_both
  both_keep steps keeps w h = elim (Bool-cases (sys.redis_connect w).0) [
    | inl e ↦
        rw (e, with_both)
          (with_database_keeps sys view behaves IsSafe steps IsSafe-rolled_back keeps _ opened)
    | inr e ↦ rw (e, with_both) opened
  ]
    where
      opened : IsSafe (view (sys.redis_connect w).1)
      opened = subst IsSafe (sym (behaves.redis_connect w)) h

  -- However its statements and commands succeed or fail, sharing a file keeps the count of every
  -- stored file at least the number of user files that name it.
  pub share_file-IsSafe :
      (user md5 filename : String) (w : W)
      → IsSafe (view w)
      → IsSafe (view (share_file sys user md5 filename w).1)
  unfolding share_file
  share_file-IsSafe user md5 filename = both_keep _ (share_file_steps-Keeps user md5 filename)

  -- However its statements and commands succeed or fail, taking back a share keeps the count of
  -- every stored file at least the number of user files that name it.
  pub cancel_share_file-IsSafe :
      (user md5 filename : String) (w : W)
      → IsSafe (view w)
      → IsSafe (view (cancel_share_file sys user md5 filename w).1)
  unfolding cancel_share_file
  cancel_share_file-IsSafe user md5 filename =
      both_keep _ (cancel_share_steps-Keeps user md5 filename)

  pub pv_file-IsSafe :
      (md5 filename : String) (w : W)
      → IsSafe (view w)
      → IsSafe (view (pv_file sys md5 filename w).1)
  unfolding pv_file
  pv_file-IsSafe md5 filename = both_keep _ (pv_file_steps-Keeps md5 filename)
