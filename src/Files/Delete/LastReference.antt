-- ===== src/Files/Delete/LastReference.antt =====
-- `del_file` behind its transaction: the reference is given back, and the last one removes the
-- file.
use hydra_fs.Prelude.{
  ◌≡◌, refl, sym, ap, subst, ◌∙◌, Bool, true, inl, inr, Option, none, some, String, [], arith,
}
use hydra_fs.Prelude.Int.{ℤ, pos, negsuc, eq_ℤ}
use hydra_fs.Backend.{
  delete_file_info, select_file_count, select_file_id, delete_wiki_page, delete_wiki_link,
  update_file_count, Cell, chars, rows, System, atoi,
}
use hydra_fs.Backend.Mysql.{store_one}
use hydra_fs.Backend.Contract.{FileInfo, State, Contract, apply, apply_tables, answer, id_rows}
use hydra_fs.Backend.Triple.{
  Sat, Sat-step, Sat-pre, Sat-pure, Sat-stop, Sat-if, Sat-quiet, Sat-call,
}
use hydra_fs.Backend.Triple.Statements.{Sat-execute, Sat-select_one, Selected, query_still}
use hydra_fs.Files.Invariant.{IsSafe}
use hydra_fs.Files.Invariant.Steps.{Safe-spend, still_file_count}
use hydra_fs.Files.Count.Safety.{CountIs, count_read}
use hydra_fs.Files.Delete.{lowered, remove_file, release_reference, mark_user_index_dirty, clean_up}
use hydra_fs.Files.Delete.Row.{Freed}
use hydra_fs.Files.Delete.Release.{
  Safe-lower_file_count, Unreferenced, refs-lowered, Safe-delete_file_info, IsUnused,
  IsUnused-delete_file_info, saved-delete_file_info, Safe-delete_stored,
}

still_id : (md5 : String) (s : State) → apply (select_file_id md5) s ≡ s
unfolding apply apply_tables
still_id md5 s = refl

still_wiki_page : (user md5 : String) (s : State) → apply (delete_wiki_page user md5) s ≡ s
unfolding apply apply_tables
still_wiki_page user md5 s = refl

still_wiki_link : (user md5 : String) (s : State) → apply (delete_wiki_link user md5) s ≡ s
unfolding apply apply_tables
still_wiki_link user md5 s = refl

-- The id that was read is that of the row.
abbrev IdIs : String → Cell → State → Type 0
IdIs md5 c s = (i : FileInfo) × (s.tables.file_info md5 ≡ some i) × (c ≡ chars i.file_id)

id_read :
    (md5 : String) (s : State) (tmp : Cell) (r : ℤ) (c : Cell)
    → Selected (select_file_id md5) s tmp r c
    → eq_ℤ r (pos 0) ≡ true
    → IdIs md5 c s
unfolding answer store_one
id_read md5 s tmp r c (inl e) h = ground (arith)
id_read md5 s tmp r c (inr told) h = by_row (s.tables.file_info md5) refl
  where
    by_row : (o : Option FileInfo) → s.tables.file_info md5 ≡ o → IdIs md5 c s
    by_row none e =
        let (one, _) = told [] (ap (λ o. some (rows (id_rows o))) e) in
        let clash : eq_ℤ (pos 1) (pos 0) ≡ true = subst (λ r. eq_ℤ r (pos 0) ≡ true) one h in cc
    by_row (some i) e =
        let (_, read) = told (id_rows (some i)) (ap (λ o. some (rows (id_rows o))) e) in
        (i, e, read)

abbrev Lowered : String → ℤ → State → Type 0
Lowered md5 count s = IsSafe s × (eq_ℤ (lowered count) (pos 0) ≡ true → Unreferenced md5 s)

lowered_one :
    (md5 : String) (count : ℤ) (s : State)
    → CountIs md5 count s × Freed md5 s
    → Lowered md5 count (apply (update_file_count (lowered count) md5) s)
unfolding apply apply_tables
lowered_one md5 count s ((i, e, n), (h, closed)) =
    let safe : IsSafe (apply (update_file_count (lowered count) md5) s) =
      subst (λ c. IsSafe (apply (update_file_count (lowered c) md5) s)) n
        (Safe-lower_file_count md5 i s e h) in
    (
      safe,
      λ zeroed. record {
        safe = safe;
        settled = closed;
        unnamed =
            refs-lowered md5 i s e h (subst (λ c. eq_ℤ (lowered c) (pos 0) ≡ true) (sym n) zeroed);
      },
    )

module _ {W : Type 0} (sys : System W) (view : W → State) (behaves : Contract sys view) where
  remove_file_keeps :
      (md5 : String) (tmp : Cell)
      → Sat view (Unreferenced md5) (remove_file sys md5 tmp) (λ _. IsSafe) IsSafe
  unfolding remove_file
  remove_file_keeps md5 tmp =
      Sat-step view
        (λ found s. (eq_ℤ found.0 (pos 0) ≡ true → IdIs md5 found.1 s) × Unreferenced md5 s)
        (Sat-select_one sys view behaves (select_file_id md5) tmp (still_id md5)
          (λ s r c h read. (id_read md5 s tmp r c read, h)))
        (λ found.
          Sat-step view (λ _ s. IdIs md5 found.1 s × Unreferenced md5 s)
            (Sat-if view (eq_ℤ found.0 (pos 0)) _ _
              (λ hit. Sat-pure view tt (λ s h. (h.0 hit, h.1)))
              (λ _. Sat-stop view (negsuc 0) (λ s h. h.1.safe)))
            (λ _.
              Sat-step view (λ _. Removable found.1)
                (Sat-execute sys view behaves _ (λ s h. h.1.safe)
                  (λ s r h _ _. removable found.1 s h))
                (λ _.
                  Sat-step view (λ _. IsSafe) (Sat-call view _ (deleted found.1))
                    (λ ret2.
                      Sat-if view _ _ _ (λ _. Sat-pure view tt (λ s h. h))
                        (λ _. Sat-stop view (negsuc 0) (λ s h. h))))))
    where
      Removable : Cell → State → Type 0
      Removable c s = (id : String) × (c ≡ chars id) × IsSafe s × (s.saved ≡ none) × IsUnused id s

      removable :
          (c : Cell) (s : State)
          → IdIs md5 c s × Unreferenced md5 s
          → Removable c (apply (delete_file_info md5) s)
      removable c s ((i, e, read), h) = (
        i.file_id,
        read,
        Safe-delete_file_info md5 s h,
        saved-delete_file_info md5 s ∙ h.settled,
        IsUnused-delete_file_info md5 i s e h.safe,
      )

      deleted :
          (c : Cell) (w : W) → Removable c (view w) → IsSafe (view (sys.fdfs_delete_file c w).1)
      deleted c w (id, e, h, closed, unused) =
          let (b, same) = behaves.delete_file id w in
          subst (λ c. IsSafe (view (sys.fdfs_delete_file c w).1)) (sym e)
            (subst IsSafe (sym same) (Safe-delete_stored id b (view w) h closed unused))

  release_reference_keeps :
      (md5 : String) (tmp : Cell)
      → Sat view (Freed md5) (release_reference sys md5 tmp) (λ _. IsSafe) IsSafe
  unfolding release_reference
  release_reference_keeps md5 tmp =
      Sat-step view
        (λ found s. (eq_ℤ found.0 (pos 0) ≡ true → CountIs md5 (atoi found.1) s) × Freed md5 s)
        (Sat-select_one sys view behaves (select_file_count md5) tmp (still_file_count md5)
          (λ s r c h read. (count_read md5 s tmp r c read, h)))
        (λ found.
          Sat-step view (λ _ s. CountIs md5 (atoi found.1) s × Freed md5 s)
            (Sat-if view (eq_ℤ found.0 (pos 0)) _ _
              (λ hit. Sat-pure view tt (λ s h. (h.0 hit, h.1)))
              (λ _. Sat-stop view (negsuc 0) (λ s h. Safe-spend s h.1.0)))
            (λ _.
              Sat-step view (λ _. Lowered md5 (atoi found.1))
                (Sat-execute sys view behaves _ (λ s h. Safe-spend s h.1.0)
                  (λ s r h _ _. lowered_one md5 (atoi found.1) s h))
                (λ _.
                  Sat-if view (eq_ℤ (lowered (atoi found.1)) (pos 0)) _ _
                    (λ zeroed. Sat-pre view _ (λ s h. h.1 zeroed) (remove_file_keeps md5 found.1))
                    (λ _. Sat-pure view tt (λ s h. h.0)))))

  pub clean_up_keeps :
      (user md5 : String) (dirty : Bool) (tmp : Cell)
      → Sat view (Freed md5) (clean_up sys user md5 dirty tmp) (λ _. IsSafe) IsSafe
  unfolding clean_up mark_user_index_dirty
  clean_up_keeps user md5 dirty tmp =
      Sat-step view (λ _. Freed md5)
        (Sat-if view dirty _ _ (λ _. Sat-quiet view _ _ (behaves.touch user))
          (λ _. Sat-pure view tt (λ s h. h)))
        (λ _.
          Sat-step view (λ _. Freed md5)
            (Sat-quiet view _ _
              (query_still sys view behaves (delete_wiki_page user md5) (still_wiki_page user md5)))
            (λ _.
              Sat-step view (λ _. Freed md5)
                (Sat-quiet view _ _ (
                  query_still sys view behaves (delete_wiki_link user md5)
                    (still_wiki_link user md5)))
                (λ _. release_reference_keeps md5 tmp)))
