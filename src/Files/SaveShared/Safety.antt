-- ===== src/Files/SaveShared/Safety.antt =====
-- `save_file` of src_cgi/dealsharefile_cgi.c keeps the reference counts above the references.
use hydra_fs.Prelude.{◌≡◌, true, String}
use hydra_fs.Prelude.Int.{pos, negsuc, eq_ℤ}
use hydra_fs.Backend.{select_file_count, chars, System, atoi}
use hydra_fs.Backend.Contract.{State, Contract}
use hydra_fs.Backend.Triple.{Sat, Sat-step, Sat-pure, Sat-stop, Sat-if}
use hydra_fs.Backend.Triple.Statements.{Sat-select_one, Sat-select_exists}
use hydra_fs.Backend.Triple.Session.{with_database_keeps}
use hydra_fs.Files.Invariant.{IsSafe}
use hydra_fs.Files.Invariant.Steps.{IsSafe-rolled_back, still_file_count, still_user_file}
use hydra_fs.Files.Count.Safety.{CountIs, count_read, raise_user_count_keeps, Sat-bind_reference}
use hydra_fs.Files.SaveShared.{save_file_steps, save_file}

module _ {W : Type 0} (sys : System W) (view : W → State) (behaves : Contract sys view) where
  save_file_steps_keep :
      (user md5 filename : String)
      → Sat view IsSafe (save_file_steps sys user md5 filename) (λ _. IsSafe) IsSafe
  unfolding save_file_steps
  save_file_steps_keep user md5 filename =
      Sat-step view (λ _. IsSafe)
        (Sat-select_exists sys view behaves _ (still_user_file user md5 filename) (λ s r h _. h))
        (λ owned.
          Sat-step view (λ _. IsSafe)
            (Sat-if view _ _ _ (λ _. Sat-stop view (negsuc 1) (λ s h. h))
              (λ _. Sat-pure view tt (λ s h. h)))
            (λ _.
              Sat-step view
                (λ found s. (eq_ℤ found.0 (pos 0) ≡ true → CountIs md5 (atoi found.1) s) × IsSafe s)
                (Sat-select_one sys view behaves (select_file_count md5) (chars "")
                  (still_file_count md5)
                  (λ s r c h read. (count_read md5 s (chars "") r c read, h)))
                (λ found.
                  Sat-step view (λ _ s. CountIs md5 (atoi found.1) s × IsSafe s)
                    (Sat-if view _ _ _ (λ hit. Sat-pure view tt (λ s h. (h.0 hit, h.1)))
                      (λ _. Sat-stop view (negsuc 0) (λ s h. h.1)))
                    (λ _. Sat-bind_reference sys view behaves user md5 filename (atoi found.1) _ (
                      Sat-step view (λ _. IsSafe)
                        (raise_user_count_keeps sys view behaves user found.1)
                        (λ _. Sat-pure view tt (λ s h. h)))))))

  -- However its statements succeed or fail, taking over a shared file keeps the count of every
  -- stored file at least the number of user files that name it.
  pub save_file-IsSafe :
      (user md5 filename : String) (w : W)
      → IsSafe (view w)
      → IsSafe (view (save_file sys user md5 filename w).1)
  unfolding save_file
  save_file-IsSafe user md5 filename =
      with_database_keeps sys view behaves IsSafe (save_file_steps sys user md5 filename)
        IsSafe-rolled_back (save_file_steps_keep user md5 filename)
