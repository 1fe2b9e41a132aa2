-- ===== src/Files/InstantUpload/Safety.antt =====
-- src_cgi/md5_cgi.c keeps the reference counts above the references, wherever it stops.
use hydra_fs.Prelude.{◌≡◌, true, String}
use hydra_fs.Prelude.Int.{ℤ, pos, negsuc, eq_ℤ}
use hydra_fs.Backend.{select_file_count, Cell, chars, System, atoi}
use hydra_fs.Backend.Contract.{State, Contract}
use hydra_fs.Backend.Triple.{Sat, Sat-step, Sat-pre, Sat-pure, Sat-stop, Sat-if, Sat-call}
use hydra_fs.Backend.Triple.Statements.{Sat-select_one, Sat-select_exists}
use hydra_fs.Backend.Triple.Session.{with_database_keeps}
use hydra_fs.Knowledge.{enqueue_parse_task}
use hydra_fs.Files.Invariant.{IsSafe}
use hydra_fs.Files.Invariant.Steps.{IsSafe-rolled_back, still_file_count, still_user_file}
use hydra_fs.Files.Count.Safety.{
  CountIs, count_read, raise_user_count_keeps, enqueue_keeps, Sat-bind_reference,
}
use hydra_fs.Files.InstantUpload.{add_reference, deal_md5_steps, deal_md5}

module _ {W : Type 0} (sys : System W) (view : W → State) (behaves : Contract sys view) where
  -- From the update of the count on, with the file's row read.
  add_reference_keeps :
      (user md5 filename : String) (count : ℤ) (tmp : Cell)
      → Sat view
          (λ s. CountIs md5 count s × IsSafe s)
          (add_reference sys user md5 filename count tmp)
          (λ _. IsSafe)
          IsSafe
  unfolding add_reference enqueue_parse_task
  add_reference_keeps user md5 filename count tmp =
      Sat-step view (λ _. Known)
        (Sat-select_exists sys view behaves _ (still_user_file user md5 filename) (λ s r h _. h))
        (λ ret2.
          Sat-step view (λ _. Known)
            (Sat-if view _ _ _ (λ _. Sat-stop view (negsuc 1) (λ s h. h.1))
              (λ _. Sat-pure view tt (λ s h. h)))
            (λ _. Sat-bind_reference sys view behaves user md5 filename count _ (
              Sat-step view (λ _. IsSafe) (raise_user_count_keeps sys view behaves user tmp)
                (λ _.
                  Sat-step view (λ _. IsSafe)
                    (Sat-call view _
                      (enqueue_keeps sys view behaves user md5 "parse_source" "md5_hit"))
                    (λ _. Sat-pure view tt (λ s h. h))))))
    where
      Known : State → Type 0
      Known s = CountIs md5 count s × IsSafe s

  deal_md5_steps_keep :
      (user md5 filename : String)
      → Sat view IsSafe (deal_md5_steps sys user md5 filename) (λ _. IsSafe) IsSafe
  unfolding deal_md5_steps
  deal_md5_steps_keep user md5 filename =
      Sat-step view
        (λ found s. (eq_ℤ found.0 (pos 0) ≡ true → CountIs md5 (atoi found.1) s) × IsSafe s)
        (Sat-select_one sys view behaves (select_file_count md5) (chars "") (still_file_count md5)
          (λ s r c h read. (count_read md5 s (chars "") r c read, h)))
        (λ found.
          Sat-if view _ _ _
            (λ hit.
              Sat-pre view _ (λ s h. (h.0 hit, h.1))
                (add_reference_keeps user md5 filename (atoi found.1) found.1))
            (λ _.
              Sat-if view _ _ _ (λ _. Sat-stop view (negsuc 2) (λ s h. h.1))
                (λ _. Sat-pure view tt (λ s h. h.1))))

  -- However the statements of an instant upload succeed or fail, the count of every stored file
  -- stays at least the number of user files that name it, and no file of file_info leaves storage.
  pub deal_md5-IsSafe :
      (user md5 filename : String) (w : W)
      → IsSafe (view w)
      → IsSafe (view (deal_md5 sys user md5 filename w).1)
  unfolding deal_md5
  deal_md5-IsSafe user md5 filename =
      with_database_keeps sys view behaves IsSafe (deal_md5_steps sys user md5 filename)
        IsSafe-rolled_back (deal_md5_steps_keep user md5 filename)
