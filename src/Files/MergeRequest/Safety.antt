-- ===== src/Files/MergeRequest/Safety.antt =====
-- A merge request of src_cgi/chunk_merge_cgi.c keeps the reference counts above the references.
use hydra_fs.Prelude.{
  ℕ, ◌≡◌, refl, Bool, true, false, ◌||◌, Option, none, some, String, if◌then◌else◌,
}
use hydra_fs.Prelude.Int.{ℤ, pos, eq_ℤ, negative}
use hydra_fs.Base64.{codes}
use hydra_fs.Backend.{System, Exec, ◌>>◌, pure, atoi_bytes}
use hydra_fs.Backend.Contract.{State, Contract}
use hydra_fs.Backend.Triple.{
  Sat, Post-same, Sat-step, Sat-pure, Sat-stop, Sat-if, Sat-quiet, Sat-run, Sat-returned,
}
use hydra_fs.Backend.Triple.Statements.{Sat-ask}
use hydra_fs.Backend.Redis.{rop_hash_get, rop_del_key}
use hydra_fs.Merge.{ChunkStore, acquire_merge_lock, release_merge_lock, verify_all_chunks}
use hydra_fs.Files.Invariant.{IsSafe}
use hydra_fs.Files.ChunkMerge.Safety.{
  bind_existing_file_to_user-IsSafe, store_fileinfo_to_mysql-IsSafe,
}
use hydra_fs.Files.MergeRequest.{
  MergeNames, rounds, WebServer, ChunkDirectory, remove_chunks, leave, cleanup_chunk_upload_state,
  read_field, merge_and_store, under_merge_lock, merge_request,
}
use hydra_fs.Files.MergeRequest.Merged.{
  MergeContract, verify_still, remove_chunks_still, Merged, merge-Merged,
}

module _ {W : Type 0} (sys : System W) (store : ChunkStore W) (directory : ChunkDirectory W)
    (web : WebServer) (names : MergeNames) (view : W → State) (behaves : Contract sys view)
    (keeps : MergeContract store directory view) where
  -- It does not go on, so that anything holds where it does.
  leave_keeps :
      {P : State → Type 0} {Q : Unit {0} → State → Type 0} (code : ℤ)
      → ((s : State) → P s → IsSafe s)
      → Sat view P (leave sys store directory web names code) Q IsSafe
  unfolding leave release_merge_lock
  leave_keeps {P} code weaker =
      Sat-step view (λ _. P) (Sat-quiet view P _ (λ w. behaves.redis _ w))
        (λ r. Sat-stop view code weaker)

  -- `if (!test) { leave }`
  unless :
      {P : State → Type 0} (b : Bool) (code : ℤ)
      → ((s : State) → P s → IsSafe s)
      → Sat view P
          (if b then pure tt else leave sys store directory web names code)
          (λ _ s. (b ≡ true) × P s)
          IsSafe
  unless true code weaker = Sat-pure view tt (λ s h. (refl, h))
  unless false code weaker = leave_keeps code weaker

  cleanup_keeps :
      Sat view IsSafe
        (cleanup_chunk_upload_state sys store directory web names)
        (λ _. IsSafe)
        IsSafe
  unfolding cleanup_chunk_upload_state rop_del_key
  cleanup_keeps =
      Sat-step view (λ _. IsSafe) (Sat-ask sys view behaves IsSafe _ _ (λ s h. h))
        (λ _.
          Sat-quiet view IsSafe (remove_chunks directory names.file_md5)
            (remove_chunks_still store directory view keeps names.file_md5))

  read_keeps :
      (field : String)
      → Sat view IsSafe (read_field sys store directory web names field) (λ _. IsSafe) IsSafe
  unfolding read_field rop_hash_get
  read_keeps field =
      Sat-step view (λ _. IsSafe) (Sat-ask sys view behaves IsSafe _ _ (λ s h. h)) by_value
    where
      by_value :
          (o : Option String)
          → Sat {A = String} view IsSafe
              (elim o as (λ _. Exec W String) [
                | none ↦ (leave sys store directory web names (pos 1) >> pure "")
                | some text ↦ pure text
              ])
              (λ _. IsSafe)
              IsSafe
      by_value none =
          Sat-step view (λ _. IsSafe) (leave_keeps (pos 1) (λ s h. h))
            (λ _. Sat-pure view "" (λ s h. h))
      by_value (some text) = Sat-pure view text (λ s h. h)

  store_merged_keeps :
      (count : ℕ) (filesize : ℤ)
      → Sat view IsSafe
          (merge_and_store sys store directory web names count filesize)
          (λ _. IsSafe)
          IsSafe
  unfolding merge_and_store verify_all_chunks rop_del_key
  store_merged_keeps count filesize =
      Sat-step view (λ _. IsSafe)
        (Sat-quiet view IsSafe _ (verify_still store directory view keeps count 0 names.file_md5))
        (λ complete.
          Sat-step view (λ _ s. (eq_ℤ complete (pos 0) ≡ true) × IsSafe s)
            (unless (eq_ℤ complete (pos 0)) (pos 1) (λ s h. h))
            (λ _.
              Sat-step view Left
                (Sat-run view _ (λ w h.
                  merge-Merged store directory view keeps names.file_md5 count
                    (codes names.filename) w h.1))
                (λ merged.
                  Sat-step view (λ _ s. (eq_ℤ merged.0 (pos 0) ≡ true) × Left merged s)
                    (unless (eq_ℤ merged.0 (pos 0)) (pos 1) (λ s h. h.1))
                    (λ _.
                      Sat-step view (λ _. IsSafe)
                        (Sat-returned sys view _ (λ s h. h)
                          (λ w h.
                            store_fileinfo_to_mysql-IsSafe sys view behaves names.user
                              names.filename names.file_md5 filesize merged.1 _ w (h.1.0 h.0)
                              h.1.1))
                        (λ stored.
                          Sat-step view (λ _ s. (eq_ℤ stored (pos 0) ≡ true) × IsSafe s)
                            (unless (eq_ℤ stored (pos 0)) (pos 1) (λ s h. h))
                            (λ _.
                              Sat-step view (λ _ s. (eq_ℤ stored (pos 0) ≡ true) × IsSafe s)
                                (Sat-ask sys view behaves _ _ _ (λ s h. h.1))
                                (λ _. leave_keeps (pos 0) (λ s h. h.1))))))))
    where
      Left : ℤ × String → State → Type 0
      Left r s = Merged store directory view keeps r s

  under_lock_keeps :
      Sat view IsSafe (under_merge_lock sys store directory web names) (λ _. IsSafe) IsSafe
  unfolding under_merge_lock
  under_lock_keeps =
      Sat-step view (λ _. IsSafe)
        (Sat-returned sys view _ (λ s h. h)
          (bind_existing_file_to_user-IsSafe sys view behaves names.user names.filename
            names.file_md5))
        (λ ret.
          Sat-step view (λ _. IsSafe)
            (Sat-if view (eq_ℤ ret (pos 0) || eq_ℤ ret (pos 2)) _ _
              (λ _. Sat-step view (λ _. IsSafe) cleanup_keeps (λ _. leave_keeps (pos 0) (λ s h. h)))
              (λ _.
                Sat-if view (negative ret) _ _ (λ _. leave_keeps (pos 1) (λ s h. h))
                  (λ _. Sat-pure view tt (λ s h. h))))
            (λ _.
              Sat-step view (λ _. IsSafe) (read_keeps "chunk_count")
                (λ count_str.
                  Sat-step view (λ _. IsSafe) (read_keeps "filesize")
                    (λ size_str.
                      store_merged_keeps (rounds (atoi_bytes (codes count_str)))
                        (atoi_bytes (codes size_str))))))

  request_keeps : Sat view IsSafe (merge_request sys store directory web names) (λ _. IsSafe) IsSafe
  unfolding merge_request acquire_merge_lock
  request_keeps =
      Sat-step view (λ _. IsSafe) (Sat-quiet view IsSafe sys.redis_connect behaves.redis_connect)
        (λ connected.
          Sat-step view (λ _. IsSafe)
            (Sat-if view connected _ _ (λ _. Sat-pure view tt (λ s h. h))
              (λ _. Sat-stop view (pos 1) (λ s h. h)))
            (λ _.
              Sat-step view (λ _. IsSafe) (Sat-quiet view IsSafe _ (λ w. behaves.redis _ w))
                (λ locked.
                  Sat-step view (λ _. IsSafe)
                    (Sat-if view (eq_ℤ locked (pos 0)) _ _ (λ _. Sat-pure view tt (λ s h. h))
                      (λ _. Sat-stop view (pos 1) (λ s h. h)))
                    (λ _. under_lock_keeps))))

  -- Whatever part of a merge request fails, and wherever the process dies, the count of every
  -- stored file stays at least the number of user files that name it; FastDFS has to give each file
  -- that it takes an id that it does not use yet.
  pub merge_request-IsSafe :
      (w : W) → IsSafe (view w) → IsSafe (view (merge_request sys store directory web names w).1)
  merge_request-IsSafe w h = Post-same view IsSafe _ _ (request_keeps.at w h)
