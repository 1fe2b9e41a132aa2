-- ===== src/Files/Delete/Unshare.antt =====
-- `del_file` before its transaction: the share is taken back.
use hydra_fs.Prelude.{◌≡◌, refl, Bool, true, false, none, String}
use hydra_fs.Prelude.Int.{pos, negsuc, eq_ℤ}
use hydra_fs.Backend.{select_shared_status, Cell, chars, System, atoi}
use hydra_fs.Backend.Redis.{
  rop_zset_exit, rop_zset_zrem, rop_hash_del, integer_or_fail, one_or_fail,
}
use hydra_fs.Backend.Contract.{State, Contract, apply, apply_tables}
use hydra_fs.Backend.Triple.{Sat, Sat-step, Sat-pure, Sat-stop, Sat-if}
use hydra_fs.Backend.Triple.Statements.{Sat-ask, Sat-execute, Sat-select_one}
use hydra_fs.Files.Invariant.{IsSafe}
use hydra_fs.Files.Invariant.Steps.{Safe-update_user_count, still_user_count}
use hydra_fs.Files.Delete.{shared_by_row, share_state, forget_share, unshare}
use hydra_fs.Files.Delete.Row.{Safe-delete_share}

still_status :
    (user md5 name : String) (s : State) → apply (select_shared_status user md5 name) s ≡ s
unfolding apply apply_tables
still_status user md5 name s = refl

module _ {W : Type 0} (sys : System W) (view : W → State) (behaves : Contract sys view) where
  pub share_state_keeps :
      (user md5 filename : String)
      → Sat view IsSafe (share_state sys user md5 filename) (λ _. IsSafe) IsSafe
  unfolding share_state rop_zset_exit shared_by_row
  share_state_keeps user md5 filename =
      Sat-step view (λ _. IsSafe) (Sat-ask sys view behaves IsSafe _ integer_or_fail (λ s h. h))
        (λ ret2.
          Sat-if view (eq_ℤ ret2 (pos 1)) _ _
            (λ _. Sat-pure view (pos 1, (true, chars "")) (λ s h. h))
            (λ _.
              Sat-if view (eq_ℤ ret2 (pos 0)) _ _ (λ _. by_row)
                (λ _. Sat-stop view (negsuc 0) (λ s h. h))))
    where
      by_row : Sat view IsSafe (shared_by_row sys user md5 filename) (λ _. IsSafe) IsSafe
      by_row =
          Sat-step view (λ _. IsSafe)
            (Sat-select_one sys view behaves (select_shared_status user md5 filename) (chars "")
              (still_status user md5 filename) (λ s r c h _. h))
            (λ found.
              Sat-if view (eq_ℤ found.0 (pos 0)) _ _
                (λ _. Sat-pure view (atoi found.1, (false, found.1)) (λ s h. h))
                (λ _.
                  Sat-if view (eq_ℤ found.0 (negsuc 0)) _ _
                    (λ _. Sat-stop view (negsuc 0) (λ s h. h))
                    (λ _. Sat-pure view (pos 0, (false, found.1)) (λ s h. h))))

  forget_share_keeps :
      (md5 filename : String) → Sat view IsSafe (forget_share sys md5 filename) (λ _. IsSafe) IsSafe
  unfolding forget_share rop_zset_zrem rop_hash_del
  forget_share_keeps md5 filename =
      Sat-step view (λ _. IsSafe) (Sat-ask sys view behaves IsSafe _ one_or_fail (λ s h. h))
        (λ _.
          Sat-step view (λ _. IsSafe) (Sat-ask sys view behaves IsSafe _ one_or_fail (λ s h. h))
            (λ _. Sat-pure view tt (λ s h. h)))

  pub unshare_keeps :
      (user md5 filename : String) (flag : Bool) (tmp : Cell)
      → Sat view IsSafe (unshare sys user md5 filename flag tmp) (λ _. IsSafe) IsSafe
  unfolding unshare
  unshare_keeps user md5 filename flag tmp =
      Sat-step view (λ _. IsSafe)
        (Sat-execute sys view behaves _ (λ s h. h)
          (λ s r h _ _. Safe-delete_share user md5 filename s h))
        (λ _.
          Sat-step view (λ _. IsSafe)
            (Sat-select_one sys view behaves _ tmp (still_user_count _) (λ s r c h _. h))
            (λ found.
              Sat-step view (λ _. IsSafe)
                (Sat-if view (eq_ℤ found.0 (pos 0)) _ _ (λ _. Sat-pure view tt (λ s h. h))
                  (λ _. Sat-stop view (negsuc 0) (λ s h. h)))
                (λ _.
                  Sat-step view (λ _. IsSafe)
                    (Sat-execute sys view behaves _ (λ s h. h)
                      (λ s r h _ _. Safe-update_user_count none s h _ _))
                    (λ _.
                      Sat-step view (λ _. IsSafe)
                        (Sat-if view flag _ _ (λ _. forget_share_keeps md5 filename)
                          (λ _. Sat-pure view tt (λ s h. h)))
                        (λ _. Sat-pure view _ (λ s h. h))))))
