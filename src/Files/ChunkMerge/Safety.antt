-- ===== src/Files/ChunkMerge/Safety.antt =====
-- Binding and recording an upload in src_cgi/chunk_merge_cgi.c keep the reference counts above the
-- references.
use hydra_fs.Prelude.{
  ◌≡◌, ◌≢◌, refl, sym, subst, Bool, true, false, Option, none, some, String, arith, inl, inr, ◌⊎◌,
  Bool-cases, if◌then◌else◌, ◌∙◌,
}
use hydra_fs.Prelude.Int.{ℤ, pos, negsuc, eq_ℤ, succ_ℤ}
use hydra_fs.Backend.{
  select_file_count, select_user_count, insert_file_info, update_file_count, chars, System, atoi,
}
use hydra_fs.Backend.Contract.{State, FileInfo, Contract, apply, apply_tables, Fresh}
use hydra_fs.Backend.Triple.{Sat, Sat-step, Sat-pure, Sat-stop, Sat-if, Sat-quiet}
use hydra_fs.Backend.Triple.Statements.{Sat-execute, Sat-select_one}
use hydra_fs.Backend.Triple.Session.{with_database_keeps, with_database_sat}
use hydra_fs.Files.Invariant.{Safe, IsSafe, refs, extra, Covers}
use hydra_fs.Files.Invariant.Steps.{
  Safe-spend, Safe-raise_file_count, Safe-insert_user_file, Safe-count_statement,
  IsSafe-rolled_back, still_file_count, still_user_file, still_user_count,
}
use hydra_fs.Files.Count.Safety.{CountIs, count_read, raise_user_count_keeps, Sat-bind_reference}
use package.text.Mathlib.Text.{◌==◌ as str_eq}
use package.text.Mathlib.TextEquality.{eq_iff}
use hydra_fs.Text.{Bytes}
use hydra_fs.Files.ChunkMerge.{
  raise_user_count_or_fail, bind_existing_steps, bind_existing_file_to_user, file_statement,
  store_fileinfo_steps, store_fileinfo_to_mysql,
}

-- A file that is in storage and that no row of file_info names yet.
abbrev pub IsNew : String → State → Type 0
IsNew fileid s =
    (s.stored fileid ≡ true)
    × ((md5 : String) (i : FileInfo) → s.tables.file_info md5 ≡ some i → i.file_id ≢ fileid)

added : String → FileInfo
added fileid = record { file_id = fileid; count = pos 1 }

-- A row of the table with one row more.
entry :
    (b : Bool) (fileid : String) (o : Option FileInfo) (i : FileInfo)
    → (if b then some (added fileid) else o) ≡ some i
    → (b ≡ true) × (i.file_id ≡ fileid) ⊎ (b ≡ false) × (o ≡ some i)
unfolding added
entry true fileid o i e = inl (refl, ground arith)
entry false fileid o i e = inr (refl, e)

module _ (md5 fileid url : String) (size : ℤ) (type : Bytes) (s : State)
    (absent : s.tables.file_info md5 ≡ none) (new : IsNew fileid s) (h : IsSafe s) where
  row : String → Option FileInfo
  row k = if str_eq md5 k then some (added fileid) else s.tables.file_info k

  counted : (k : String) → Covers (extra (some md5) k (refs k s.tables.user_files)) (row k)
  unfolding row added
  counted k = elim (Bool-cases (str_eq md5 k)) [
    | inl t ↦
        let gone : s.tables.file_info k ≡ none =
          subst (λ k. s.tables.file_info k ≡ none) ((eq_iff md5 k).0 t) absent in
        let none_left : refs k s.tables.user_files ≡ 0 =
          subst (Covers (refs k s.tables.user_files)) gone (h.now.counted k) in
        rw t (omega arith)
    | inr f ↦ rw f (h.now.counted k)
  ]

  kept : (k : String) (i : FileInfo) → row k ≡ some i → s.stored i.file_id ≡ true
  unfolding row
  kept k i e = elim (entry (str_eq md5 k) fileid (s.tables.file_info k) i e) [
    | inl (t, same) ↦ subst (λ id. s.stored id ≡ true) (sym same) new.0
    | inr (f, old) ↦ h.now.kept k i old
  ]

  distinct :
      (k k' : String) (i j : FileInfo)
      → row k ≡ some i
      → row k' ≡ some j
      → i.file_id ≡ j.file_id
      → k ≡ k'
  unfolding row
  distinct k k' i j e e' q = elim (entry (str_eq md5 k) fileid (s.tables.file_info k) i e) [
    | inl (t, same) ↦ elim (entry (str_eq md5 k') fileid (s.tables.file_info k') j e') [
      | inl (t', same') ↦ sym ((eq_iff md5 k).0 t) ∙ (eq_iff md5 k').0 t'
      | inr (f', old') ↦ absurd (new.1 k' j old' (sym q ∙ same))
    ]
    | inr (f, old) ↦ elim (entry (str_eq md5 k') fileid (s.tables.file_info k') j e') [
      | inl (t', same') ↦ absurd (new.1 k i old (q ∙ same'))
      | inr (f', old') ↦ h.now.distinct k k' i j old old' q
    ]
  ]

  -- A new row counts one reference, which is to spare.
  Safe-insert_file_info :
      Safe (some md5) (apply (insert_file_info md5 fileid url size type (pos 1)) s)
  unfolding apply apply_tables row added
  Safe-insert_file_info = record {
    now = record { counted = counted; kept = kept; distinct = distinct };
    before = h.before;
  }

-- The statement on file_info, by the answer that chose it.
recorded :
    (b : Bool) (md5 fileid url : String) (size count : ℤ) (type : Bytes) (s : State)
    → let q =
        if b
        then update_file_count (succ_ℤ count) md5
        else insert_file_info md5 fileid url size type (pos 1) in
      (b ≡ true → CountIs md5 count s) × IsNew fileid s × IsSafe s
      → Fresh q s
      → Safe (some md5) (apply q s)
recorded true md5 fileid url size count type s h f =
    let (i, e, n) = h.0 refl in
    subst (λ c. Safe (some md5) (apply (update_file_count (succ_ℤ c) md5) s)) n
      (Safe-raise_file_count md5 i s e h.2)
recorded false md5 fileid url size count type s h f =
    Safe-insert_file_info md5 fileid url size type s f h.1 h.2

module _ {W : Type 0} (sys : System W) (view : W → State) (behaves : Contract sys view) where
  raise_or_fail_keeps :
      (user : String) → Sat view IsSafe (raise_user_count_or_fail sys user) (λ _. IsSafe) IsSafe
  unfolding raise_user_count_or_fail
  raise_or_fail_keeps user =
      Sat-step view (λ _. IsSafe)
        (Sat-select_one sys view behaves (select_user_count user) (chars "") (still_user_count user)
          (λ s r c h _. h))
        (λ found.
          Sat-step view (λ _. IsSafe)
            (Sat-if view (eq_ℤ found.0 (pos 1)) _ _ (λ _. Sat-pure view tt (λ s h. h))
              (λ _.
                Sat-if view (eq_ℤ found.0 (pos 0)) _ _ (λ _. Sat-pure view tt (λ s h. h))
                  (λ _. Sat-stop view (negsuc 0) (λ s h. h))))
            (λ _.
              Sat-step view (λ _. IsSafe)
                (Sat-execute sys view behaves _ (λ s h. h)
                  (λ s r h _ _. Safe-count_statement none s h user found.0 found.1))
                (λ _. Sat-pure view tt (λ s h. h))))

  bind_existing_steps_keep :
      (user filename md5 : String)
      → Sat view IsSafe (bind_existing_steps sys user filename md5) (λ _. IsSafe) IsSafe
  unfolding bind_existing_steps
  bind_existing_steps_keep user filename md5 =
      Sat-step view
        (λ found s. (eq_ℤ found.0 (pos 0) ≡ true → CountIs md5 (atoi found.1) s) × IsSafe s)
        (Sat-select_one sys view behaves (select_file_count md5) (chars "") (still_file_count md5)
          (λ s r c h read. (count_read md5 s (chars "") r c read, h)))
        (λ found.
          Sat-step view
            (λ _ s. (eq_ℤ found.0 (pos 0) ≡ true → CountIs md5 (atoi found.1) s) × IsSafe s)
            (Sat-if view _ _ _ (λ _. Sat-stop view (pos 1) (λ s h. h.1))
              (λ _. Sat-pure view tt (λ s h. h)))
            (λ _.
              Sat-step view (λ _ s. CountIs md5 (atoi found.1) s × IsSafe s)
                (Sat-if view _ _ _ (λ hit. Sat-pure view tt (λ s h. (h.0 hit, h.1)))
                  (λ _. Sat-stop view (negsuc 0) (λ s h. h.1)))
                (λ _.
                  Sat-step view (λ _ s. CountIs md5 (atoi found.1) s × IsSafe s)
                    (Sat-select_one sys view behaves _ (chars "")
                      (still_user_file user md5 filename) (λ s r c h _. h))
                    (λ owned.
                      Sat-step view (λ _ s. CountIs md5 (atoi found.1) s × IsSafe s)
                        (Sat-if view _ _ _ (λ _. Sat-stop view (pos 2) (λ s h. h.1))
                          (λ _. Sat-pure view tt (λ s h. h)))
                        (λ _.
                          Sat-step view (λ _ s. CountIs md5 (atoi found.1) s × IsSafe s)
                            (Sat-if view _ _ _ (λ _. Sat-pure view tt (λ s h. h))
                              (λ _. Sat-stop view (negsuc 0) (λ s h. h.1)))
                            (λ _.
                              Sat-bind_reference sys view behaves user md5 filename (atoi found.1) _
                                (raise_or_fail_keeps user)))))))

  -- However its statements succeed or fail, binding a file that the server has keeps the count of
  -- every stored file at least the number of user files that name it.
  pub bind_existing_file_to_user-IsSafe :
      (user filename md5 : String) (w : W)
      → IsSafe (view w)
      → IsSafe (view (bind_existing_file_to_user sys user filename md5 w).1)
  unfolding bind_existing_file_to_user
  bind_existing_file_to_user-IsSafe user filename md5 =
      with_database_keeps sys view behaves IsSafe (bind_existing_steps sys user filename md5)
        IsSafe-rolled_back (bind_existing_steps_keep user filename md5)

  module _ (user filename md5 : String) (size : ℤ) (fileid url : String) where
    store_fileinfo_steps_keep :
        Sat view
          (λ s. IsNew fileid s × IsSafe s)
          (store_fileinfo_steps sys user filename md5 size fileid url)
          (λ _. IsSafe)
          IsSafe
    unfolding store_fileinfo_steps file_statement
    store_fileinfo_steps_keep =
        Sat-step view (λ _. Given)
          (Sat-select_one sys view behaves _ (chars "") (still_user_file user md5 filename)
            (λ s r c h _. h))
          (λ owned.
            Sat-step view (λ _. Given)
              (Sat-if view _ _ _ (λ _. Sat-stop view (pos 0) (λ s h. h.1))
                (λ _. Sat-pure view tt (λ s h. h)))
              (λ _.
                Sat-step view
                  (λ found s.
                    (eq_ℤ found.0 (pos 0) ≡ true → CountIs md5 (atoi found.1) s)
                    × IsNew fileid s
                    × IsSafe s)
                  (Sat-select_one sys view behaves (select_file_count md5) owned.1
                    (still_file_count md5)
                    (λ s r c h read. (count_read md5 s owned.1 r c read, h.0, h.1)))
                  (λ found.
                    Sat-step view (λ _. Safe (some md5))
                      (Sat-execute sys view behaves _ (λ s h. h.2)
                        (λ s r h fresh _.
                          recorded (eq_ℤ found.0 (pos 0)) md5 fileid url size (atoi found.1) _ s h
                            fresh))
                      (λ _.
                        Sat-step view (λ _. Safe (some md5))
                          (Sat-quiet view _ sys.local_time behaves.local_time)
                          (λ time.
                            Sat-step view (λ _. IsSafe)
                              (Sat-execute sys view behaves _ Safe-spend (λ s r h _ _.
                                Safe-insert_user_file user md5 time filename (pos 0) (pos 0) s h))
                              (λ _.
                                Sat-step view (λ _. IsSafe)
                                  (raise_user_count_keeps sys view behaves user (chars ""))
                                  (λ _. Sat-pure view tt (λ s h. h))))))))
      where
        Given : State → Type 0
        Given s = IsNew fileid s × IsSafe s

  -- Recording an uploaded file that is in storage, and that file_info does not name yet, keeps the
  -- count of every stored file at least the number of user files that name it, however the
  -- statements succeed or fail.
  pub store_fileinfo_to_mysql-IsSafe :
      (user filename md5 : String) (size : ℤ) (fileid url : String) (w : W)
      → IsNew fileid (view w)
      → IsSafe (view w)
      → IsSafe (view (store_fileinfo_to_mysql sys user filename md5 size fileid url w).1)
  unfolding store_fileinfo_to_mysql
  store_fileinfo_to_mysql-IsSafe user filename md5 size fileid url w new h =
      with_database_sat sys view behaves (λ s. IsNew fileid s × IsSafe s) IsSafe
        (store_fileinfo_steps sys user filename md5 size fileid url) (λ s h. h.1) IsSafe-rolled_back
        (store_fileinfo_steps_keep user filename md5 size fileid url) w (new, h)
