-- ===== src/Files/Delete/Safety.antt =====
-- `del_file` keeps the counts above the references, and in storage what file_info names.
use hydra_fs.Prelude.{sym, subst, Bool-cases, inl, inr, String}
use hydra_fs.Prelude.Int.{pos, eq_ℤ}
use hydra_fs.Backend.{System}
use hydra_fs.Backend.Contract.{State, Contract}
use hydra_fs.Backend.Triple.{Sat, Sat-step, Sat-pure, Sat-if}
use hydra_fs.Backend.Triple.Session.{with_database_keeps}
use hydra_fs.Files.Invariant.{IsSafe}
use hydra_fs.Files.Invariant.Steps.{IsSafe-rolled_back}
use hydra_fs.Files.Delete.{del_file_steps, del_file}
use hydra_fs.Files.Delete.Row.{Freed}
use hydra_fs.Files.Delete.Unshare.{share_state_keeps, unshare_keeps}
use hydra_fs.Files.Delete.Transaction.{remove_row_keeps, in_transaction_keeps}
use hydra_fs.Files.Delete.LastReference.{clean_up_keeps}

module _ {W : Type 0} (sys : System W) (view : W → State) (behaves : Contract sys view) where
  del_file_steps_keep :
      (user md5 filename : String)
      → Sat view IsSafe (del_file_steps sys user md5 filename) (λ _. IsSafe) IsSafe
  unfolding del_file_steps
  del_file_steps_keep user md5 filename =
      Sat-step view (λ _. IsSafe) (share_state_keeps sys view behaves user md5 filename)
        (λ shared.
          Sat-step view (λ _. IsSafe)
            (Sat-if view (eq_ℤ shared.0 (pos 1)) _ _
              (λ _. unshare_keeps sys view behaves user md5 filename shared.1.0 shared.1.1)
              (λ _. Sat-pure view shared.1.1 (λ s h. h)))
            (λ tmp.
              Sat-step view (λ _. Freed md5)
                (in_transaction_keeps sys view behaves _
                  (remove_row_keeps sys view behaves user md5 filename tmp))
                (λ removed. clean_up_keeps sys view behaves user md5 removed.0 removed.1)))

  -- However its statements, Redis and the storage tool succeed or fail, and wherever it stops,
  -- deleting a user's file keeps the count of every stored file at least the number of user files
  -- that name it, and deletes from storage no file that file_info still names.
  pub del_file-IsSafe :
      (user md5 filename : String) (w : W)
      → IsSafe (view w)
      → IsSafe (view (del_file sys user md5 filename w).1)
  unfolding del_file
  del_file-IsSafe user md5 filename w h = elim (Bool-cases (sys.redis_connect w).0) [
    | inl e ↦
        rw (e, del_file)
          (with_database_keeps sys view behaves IsSafe (del_file_steps sys user md5 filename)
            IsSafe-rolled_back (del_file_steps_keep user md5 filename) _ opened)
    | inr e ↦ rw (e, del_file) opened
  ]
    where
      opened : IsSafe (view (sys.redis_connect w).1)
      opened = subst IsSafe (sym (behaves.redis_connect w)) h
