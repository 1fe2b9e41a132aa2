-- ===== src/Pictures/Cancel.antt =====
-- What `cancel_share_picture` of src_cgi/sharepicture_cgi.c keeps, whichever of its statements fail.
use package.text.Mathlib.Text.{◌==◌ as str_eq}
use hydra_fs.Prelude.{
  ◌≤◌, ◌≡◌, refl, sym, subst, ◌∙◌, inl, inr, not, ◌&&◌, Option, none, some, String, List, [], ◌∷◌,
}
use hydra_fs.Prelude.Int.{ℤ, pos, negsuc, eq_ℤ, pred_ℤ, positive}
use hydra_fs.Backend.{
  select_picture, delete_picture, select_user_count, update_user_count, select_file_reference,
  update_file_count, delete_file_info, chars, Row, Reply, failed, no_result, rows, affected, System,
  ◌>>=◌, ◌>>◌, atoi,
}
use hydra_fs.Backend.Mysql.{execute, text_of, first_column}
use hydra_fs.Backend.Redis.{survive}
use hydra_fs.Backend.Contract.{
  State, Contract, IsSettled, apply, apply_tables, answer, picture_rows,
}
use hydra_fs.Backend.Triple.{Sat, Sat-step, Sat-pure, Sat-stop, Sat-if, Sat-run}
use hydra_fs.Backend.Triple.Statements.{Sat-execute, Sat-select_one, Told}
use hydra_fs.Backend.Triple.Session.{with_database_sat}
use hydra_fs.Files.Invariant.{IsSafe}
use hydra_fs.Files.Invariant.Steps.{still_user_count}
use hydra_fs.Files.Delete.{lowered}
use hydra_fs.Pictures.{
  picture_count, file_reference, first_picture, lower_picture_count, lower_reference, drop_file,
  try_statement, cancel_picture_steps, cancel_share_picture,
}
use hydra_fs.Pictures.Invariant.{shown, IsShared, IsListed, IsListed-safe, rolled_settled}
use hydra_fs.Pictures.Statements.{Shared-beside, picture_rows-shown, Sat-try}
use hydra_fs.Pictures.Released.{
  Claims, Refers, Spared, Gone, still_reference, reference_read, Spared-not_done, Spared-done,
  Spared-delete_picture, Gone-Spared, Gone-delete_file_info, IsListed-Gone,
}

-- What every exit keeps.
abbrev Done : State → Type 0
Done s = IsListed s × IsSettled s

Done-safe : (s : State) → IsSafe s → IsSettled s → Done s
Done-safe s h c = (IsListed-safe s h, c)

Done-Shared : (s : State) → IsShared s → Done s
Done-Shared s h = Done-safe s h.safe h.settled

rows-Told :
    (user url_md5 : String) (s : State) (r : Reply) (row : Row) (rest : List Row)
    → Told (select_picture user url_md5) s r
    → r ≡ rows (row ∷ rest)
    → picture_rows user url_md5 s.tables.pictures ≡ row ∷ rest
unfolding answer
rows-Told user url_md5 s r row rest (inl e) f =
    let wrong : no_result ≡ rows (row ∷ rest) = sym e ∙ f in cc
rows-Told user url_md5 s r row rest (inr told) f =
    let same : rows (picture_rows user url_md5 s.tables.pictures) ≡ rows (row ∷ rest) =
      sym (told _ refl) ∙ f in
    cc

module _ {W : Type 0} (sys : System W) (view : W → State) (behaves : Contract sys view) where
  picture_found :
      (user url_md5 : String)
      → Sat view IsShared
          (execute sys (select_picture user url_md5))
          (λ r s.
            IsShared s
            × ((row : Row) (rest : List Row)
                → r ≡ rows (row ∷ rest)
                → 1 ≤ shown (text_of (first_column row (chars ""))) s.tables.pictures))
          Done
  unfolding apply apply_tables
  picture_found user url_md5 =
      Sat-execute sys view behaves (select_picture user url_md5) Done-Shared (λ s r h _ told. (
        h,
        λ row rest e.
            picture_rows-shown user url_md5 _ row rest (rows-Told user url_md5 s r row rest told e),
      ))

  steps_drop :
      (md5 : String) (ref : ℤ × String)
      → Sat view (Spared md5 ref) (drop_file sys md5 ref) (λ _. Done) Done
  unfolding drop_file
  steps_drop md5 (count, id) =
      Sat-if view (eq_ℤ count (pos 0) && not (str_eq id "")) _ _
        (λ hit.
          Sat-step view (λ _. Gone md5 id)
            (Sat-try sys view behaves (delete_file_info md5)
              (λ s h. Gone-Spared md5 (count, id) s hit h)
              (λ s h. Gone-delete_file_info md5 id s (Gone-Spared md5 (count, id) s hit h)))
            (λ _.
              Sat-step view (λ _. Done)
                (Sat-run view (sys.fdfs_delete_file (chars id)) (λ w h. left w h))
                (λ _. Sat-pure view tt (λ s h. h))))
        (λ _. Sat-pure view tt (λ s h. Done-safe s h.0 h.1))
    where
      left : (w : W) → Gone md5 id (view w) → Done (view (sys.fdfs_delete_file (chars id) w).1)
      left w h =
          let (b, e) = behaves.delete_file id w in
          subst Done (sym e) (IsListed-Gone md5 id b (view w) h, h.1)

  steps_lower :
      (md5 : String) (ref : ℤ × String)
      → Sat view
          (λ s. Claims md5 s × Refers md5 (some ref) s)
          (lower_reference sys md5 ref.0)
          (λ _. Spared md5 (lowered ref.0, ref.1))
          Done
  unfolding lower_reference
  steps_lower md5 ref =
      Sat-if view (positive ref.0) _ _
        (λ more.
          Sat-step view (λ _. Spared md5 (lowered ref.0, ref.1))
            (Sat-try sys view behaves (update_file_count (pred_ℤ ref.0) md5)
              (λ s h. Spared-not_done md5 ref s h.0 h.1)
              (λ s h. Spared-done md5 ref s h.0 h.1 more))
            (λ _. Sat-pure view tt (λ s h. h)))
        (λ _. Sat-pure view tt (λ s h. Spared-not_done md5 ref s h.0 h.1))

  steps_picture_count :
      (md5 user : String) (count : ℤ)
      → Sat view (Claims md5) (lower_picture_count sys user count) (λ _. Claims md5) Done
  unfolding lower_picture_count apply apply_tables
  steps_picture_count md5 user count =
      Sat-if view (positive count) _ _
        (λ _.
          Sat-step view (λ _. Claims md5)
            (Sat-try sys view behaves (update_user_count (pred_ℤ count) (picture_count user))
              (λ s h. h) (λ s h. (Shared-beside none s _ h.0, h.1)))
            (λ _. Sat-pure view tt (λ s h. h)))
        (λ _. Sat-pure view tt (λ s h. h))

  survived :
      (md5 : String) (o : Option (ℤ × String))
      → Sat view
          (λ s. Claims md5 s × Refers md5 o s)
          (survive sys o)
          (λ ref s. Claims md5 s × Refers md5 (some ref) s)
          Done
  unfolding survive
  survived md5 none = record { at = λ w h. Done-Shared _ h.0.0 }
  survived md5 (some ref) = record { at = λ w h. h }

  steps_release :
      (user url_md5 md5 : String)
      → Sat view
          (Claims md5)
          (execute sys (select_file_reference md5) >>= (λ found.
            survive sys (file_reference found) >>= (λ reference.
              lower_reference sys md5 reference.0
              >> (try_statement sys (delete_picture user url_md5)
                  >> drop_file sys md5 (lowered reference.0, reference.1)))))
          (λ _. Done)
          Done
  steps_release user url_md5 md5 =
      Sat-step view (λ r s. Claims md5 s × Refers md5 (file_reference r) s)
        (Sat-execute sys view behaves (select_file_reference md5) (λ s h. Done-Shared s h.0)
          (λ s r h _ told.
            subst (λ s. Claims md5 s × Refers md5 (file_reference r) s)
              (sym (still_reference md5 s)) (h, reference_read md5 s r h told)))
        (λ r.
          Sat-step view (λ ref s. Claims md5 s × Refers md5 (some ref) s)
            (survived md5 (file_reference r))
            (λ ref.
              Sat-step view (λ _. Spared md5 (lowered ref.0, ref.1)) (steps_lower md5 ref)
                (λ _.
                  Sat-step view (λ _. Spared md5 (lowered ref.0, ref.1))
                    (Sat-try sys view behaves (delete_picture user url_md5) (λ s h. h)
                      (λ s h. Spared-delete_picture user url_md5 md5 (lowered ref.0, ref.1) s h))
                    (λ _. steps_drop md5 (lowered ref.0, ref.1)))))

  -- The picture, its row in user_file_list or nothing: with none the handler leaves.
  picture_read :
      (r : Reply)
      → Sat view
          (λ s.
            IsShared s
            × ((row : Row) (rest : List Row)
                → r ≡ rows (row ∷ rest)
                → 1 ≤ shown (text_of (first_column row (chars ""))) s.tables.pictures))
          (first_picture sys r)
          Claims
          Done
  unfolding first_picture
  picture_read failed = Sat-stop view (negsuc 0) (λ s h. Done-Shared s h.0)
  picture_read no_result = Sat-stop view (negsuc 0) (λ s h. Done-Shared s h.0)
  picture_read (affected n) = Sat-stop view (negsuc 0) (λ s h. Done-Shared s h.0)
  picture_read (rows []) = Sat-stop view (pos 0) (λ s h. Done-Shared s h.0)
  picture_read (rows (row ∷ rest)) = Sat-pure view _ (λ s h. (h.0, h.1 row rest refl))

  steps_cancel :
      (user url_md5 : String)
      → Sat view IsShared (cancel_picture_steps sys user url_md5) (λ _. Done) Done
  unfolding cancel_picture_steps
  steps_cancel user url_md5 = Sat-step view _ (picture_found user url_md5) (λ reply.
      Sat-step view Claims (picture_read reply) (λ md5.
        Sat-step view (λ _. Claims md5)
          (Sat-select_one sys view behaves (select_user_count (picture_count user)) (chars "")
            (still_user_count (picture_count user)) (λ s r c h _. h))
          (λ found.
            Sat-step view (λ _. Claims md5)
              (Sat-if view (eq_ℤ found.0 (pos 0)) _ _ (λ _. Sat-pure view tt (λ s h. h))
                (λ _. Sat-stop view (negsuc 0) (λ s h. Done-Shared s h.0)))
              (λ _.
                Sat-step view (λ _. Claims md5) (steps_picture_count md5 user (atoi found.1))
                  (λ _. steps_release user url_md5 md5)))))

  -- Whichever of the statements fail, cancelling a shared picture keeps the count of each file at
  -- least the number of its rows in user_file_list, and keeps in storage each file that a user lists,
  -- where before it the counts covered the rows and the shared pictures, outside a transaction.
  pub cancel_share_picture-IsListed :
      (user url_md5 : String) (w : W)
      → IsShared (view w)
      → IsListed (view (cancel_share_picture sys user url_md5 w).1)
  unfolding cancel_share_picture
  cancel_share_picture-IsListed user url_md5 w h =
      (with_database_sat sys view behaves IsShared Done (cancel_picture_steps sys user url_md5)
        Done-Shared (λ s d. subst Done (sym (rolled_settled s d.1)) d) (steps_cancel user url_md5) w
        h).0
