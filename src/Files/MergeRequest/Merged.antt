-- ===== src/Files/MergeRequest/Merged.antt =====
-- What merging the chunks in src_cgi/chunk_merge_cgi.c leaves in storage.
use hydra_fs.Prelude.{
  ℕ, zero, suc, ◌+◌, ◌-◌, ◌≡◌, refl, sym, subst, ◌∙◌, Bool, true, false, Bool-cases, Option, none,
  some, String, List, [], ◌∷◌, inl, inr, if◌then◌else◌,
}
use hydra_fs.Prelude.Int.{ℤ, pos, negsuc, eq_ℤ}
use hydra_fs.Text.{Bytes, get_file_suffix}
use hydra_fs.Backend.Contract.{State}
use hydra_fs.Merge.{ChunkStore, verify_from, append_from, after_first, merge_chunks_to_fastdfs}
use hydra_fs.Files.Invariant.{IsSafe}
use hydra_fs.Files.ChunkMerge.Safety.{IsNew}
use hydra_fs.Files.Upload.Safety.{with_file, IsSafe-with_file, with_file-IsNew}
use hydra_fs.Files.MergeRequest.{ChunkDirectory, remove_entries, remove_listed, remove_chunks}

-- FastDFS gives a new appender file an id that it does not use yet.
abbrev pub Creates : Option String → State → State → Type 0
Creates none s s' = s' ≡ s
Creates (some id) s s' = (s.stored id ≡ false) × (s' ≡ with_file id s)

-- The other calls leave the tables and the set of stored files alone.
pub record MergeContract {W : Type 0} (store : ChunkStore W) (directory : ChunkDirectory W)
    (view : W → State) : Type 0 where
  pub stat : (md5 : String) (i : ℕ) (w : W) → view (store.stat md5 i w).1 ≡ view w
  pub unlink : (md5 : String) (i : ℕ) (w : W) → view (store.unlink md5 i w) ≡ view w
  pub rmdir : (md5 : String) (w : W) → view (store.rmdir md5 w) ≡ view w
  pub connection : (w : W) → view (store.tracker_get_connection w).1 ≡ view w
  pub close : (w : W) → view (store.tracker_close_connection w) ≡ view w
  pub query : (w : W) → view (store.tracker_query_storage_store w).1 ≡ view w
  pub append :
      (md5 : String) (i : ℕ) (id : String) (w : W) → view (store.append md5 i id w).1 ≡ view w
  pub create :
      (md5 : String) (i : ℕ) (suffix : Bytes) (w : W)
      → Creates
          (store.upload_appender md5 i suffix w).0
          (view w)
          (view (store.upload_appender md5 i suffix w).1)
  pub entries : (md5 : String) (w : W) → view (directory.entries md5 w).1 ≡ view w
  pub remove : (md5 d_name : String) (w : W) → view (directory.unlink md5 d_name w) ≡ view w
  pub remove_directory : (md5 : String) (w : W) → view (directory.rmdir md5 w) ≡ view w

module _ {W : Type 0} (store : ChunkStore W) (directory : ChunkDirectory W) (view : W → State)
    (keeps : MergeContract store directory view) where
  chosen :
      (b : Bool) {s : State} (v w : W) → view v ≡ s → view w ≡ s → view (if b then v else w) ≡ s
  chosen true v w e f = e
  chosen false v w e f = f

  pub verify_still :
      (n i : ℕ) (md5 : String) (w : W) → view (verify_from store n i md5 w).1 ≡ view w
  unfolding verify_from
  verify_still zero i md5 w = refl
  verify_still (suc n) i md5 w = elim (Bool-cases (store.stat md5 i w).0) [
    | inl e ↦ rw e (verify_still n (i + 1) md5 (store.stat md5 i w).1 ∙ keeps.stat md5 i w)
    | inr e ↦ rw e (keeps.stat md5 i w)
  ]

  append_still :
      (n i : ℕ) (md5 id : String) (w : W) → view (append_from store n i md5 id w).1 ≡ view w
  unfolding append_from
  append_still zero i md5 id w = refl
  append_still (suc n) i md5 id w = elim (Bool-cases (eq_ℤ (store.append md5 i id w).0 (pos 0))) [
    | inl e ↦ rw e (
        append_still n (i + 1) md5 id _
        ∙ keeps.unlink md5 i (store.append md5 i id w).1
        ∙ keeps.append md5 i id w)
    | inr e ↦ rw e (keeps.append md5 i id w)
  ]

  remove_still :
      (md5 : String) (names : List String) (w : W)
      → view (remove_entries directory md5 names w) ≡ view w
  unfolding remove_entries
  remove_still md5 [] w = refl
  remove_still md5 (d_name ∷ names) w =
      chosen _ _ _ (remove_still md5 names w)
        (remove_still md5 names (directory.unlink md5 d_name w) ∙ keeps.remove md5 d_name w)

  pub remove_chunks_still : (md5 : String) (w : W) → view (remove_chunks directory md5 w).1 ≡ view w
  unfolding remove_chunks remove_listed
  remove_chunks_still md5 w = by_list (directory.entries md5 w).0
    where
      by_list :
          (o : Option (List String))
          → view (remove_listed directory md5 o (directory.entries md5 w).1).1 ≡ view w
      by_list none = keeps.entries md5 w
      by_list (some names) =
          keeps.remove_directory md5 _ ∙ remove_still md5 names _ ∙ keeps.entries md5 w

  -- What the merge leaves: a safe state, and where it answers 0 a new file.
  abbrev pub Merged : ℤ × String → State → Type 0
  Merged r s = (eq_ℤ r.0 (pos 0) ≡ true → IsNew r.1 s) × IsSafe s

  after_first-Merged :
      (o : Option String) (md5 : String) (count : ℕ) (s : State) (w : W)
      → IsSafe s
      → Creates o s (view w)
      → Merged (after_first store o md5 count w).0 (view (after_first store o md5 count w).1)
  unfolding after_first
  after_first-Merged none md5 count s w h e = ((λ z. cc), subst IsSafe (sym (keeps.close w ∙ e)) h)
  after_first-Merged (some id) md5 count s w h (fresh, e) =
      let still : view (
            store.rmdir md5 (
              store.tracker_close_connection
                (append_from store (count - 1) 1 md5 id (store.unlink md5 0 w)).1))
          ≡ with_file id s =
        keeps.rmdir md5 _
        ∙ keeps.close _
        ∙ append_still (count - 1) 1 md5 id (store.unlink md5 0 w)
        ∙ keeps.unlink md5 0 w
        ∙ e in
      (
        (λ z. subst (IsNew id) (sym still) (with_file-IsNew id s h fresh)),
        subst IsSafe (sym still) (IsSafe-with_file id s h),
      )

  either-Merged :
      (b c : Bool) (r : (ℤ × String) × W) (w2 w1 : W)
      → Merged r.0 (view r.1)
      → IsSafe (view w2)
      → IsSafe (view w1)
      → let q = if b then (if c then r else ((negsuc 0, ""), w2)) else ((negsuc 0, ""), w1) in
        Merged q.0 (view q.1)
  either-Merged true true r w2 w1 h h2 h1 = h
  either-Merged true false r w2 w1 h h2 h1 = ((λ z. cc), h2)
  either-Merged false c r w2 w1 h h2 h1 = ((λ z. cc), h1)

  pub merge-Merged :
      (md5 : String) (count : ℕ) (filename : Bytes) (w : W)
      → IsSafe (view w)
      → Merged
          (merge_chunks_to_fastdfs store md5 count filename w).0
          (view (merge_chunks_to_fastdfs store md5 count filename w).1)
  unfolding merge_chunks_to_fastdfs
  merge-Merged md5 count filename w h =
      let w1 = (store.tracker_get_connection w).1 in
      let w2 = (store.tracker_query_storage_store w1).1 in
      let h1 : IsSafe (view w1) = subst IsSafe (sym (keeps.connection w)) h in
      let h2 : IsSafe (view w2) = subst IsSafe (sym (keeps.query w1)) h1 in
      let suffix = get_file_suffix filename in
      either-Merged (store.tracker_get_connection w).0
        (eq_ℤ (store.tracker_query_storage_store w1).0 (pos 0))
        (after_first store (store.upload_appender md5 0 suffix w2).0 md5 count
          (store.upload_appender md5 0 suffix w2).1)
        w2 w1
        (after_first-Merged (store.upload_appender md5 0 suffix w2).0 md5 count (view w2)
          (store.upload_appender md5 0 suffix w2).1 h2 (keeps.create md5 0 suffix w2))
        h2 h1
