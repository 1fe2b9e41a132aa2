-- ===== src/Files/Delete/Transaction.antt =====
-- The transaction of `del_file`: it ends with a reference to spare, or is undone.
use hydra_fs.Prelude.{◌≡◌, refl, sym, subst, true, inl, inr, none, some, String, arith}
use hydra_fs.Prelude.Int.{ℤ, pos, negsuc, eq_ℤ, positive}
use hydra_fs.Backend.{
  start_transaction, commit, ◌>>=◌, pure, rollback, select_user_count, delete_ai_desc,
  delete_user_file, Cell, Reply, failed, no_result, rows, affected, System, Out, go, stop, crash,
  Exec, atoi,
}
use hydra_fs.Backend.Mysql.{execute}
use hydra_fs.Backend.Contract.{State, Contract, apply, apply_tables, answer, matches, Explains}
use hydra_fs.Backend.Triple.{Post, Sat, Sat-step, Sat-pure, Sat-stop, Sat-if, Sat-call}
use hydra_fs.Backend.Triple.Statements.{Sat-execute, Sat-select_one, Told}
use hydra_fs.Files.Invariant.{Safe, IsSafe}
use hydra_fs.Files.Invariant.Steps.{
  Safe-spend, Safe-update_user_count, IsSafe-rolled_back, still_user_count,
}
use hydra_fs.Files.Count.Safety.{enqueue_keeps}
use hydra_fs.Files.Delete.{
  unlink_row, is_one_row, is_some_row, lower_user_count, remove_row, end_transaction,
  in_transaction,
}
use hydra_fs.Files.Delete.Row.{
  Safe-start, Safe-commit, saved-commit, IsSafe-delete_user_file, Safe-delete_user_file, Freed,
}

still_ai_desc : (user md5 : String) (s : State) → apply (delete_ai_desc user md5) s ≡ s
unfolding apply apply_tables
still_ai_desc user md5 s = refl

-- One affected row is one row that matched.
one_matched :
    (user md5 name : String) (s : State) (r : Reply)
    → Told (delete_user_file user md5 name) s r
    → is_one_row r ≡ true
    → matches user md5 name s.tables.user_files ≡ 1
unfolding answer is_one_row
one_matched user md5 name s r (inl e) h = ground arith
one_matched user md5 name s r (inr told) h =
    let same : r ≡ affected (matches user md5 name s.tables.user_files) = told _ refl in
    ground arith

module _ {W : Type 0} (sys : System W) (view : W → State) (behaves : Contract sys view) where
  lower_user_count_keeps :
      (user : String) (count : ℤ)
      → Sat view IsSafe (lower_user_count sys user count) (λ _. IsSafe) IsSafe
  unfolding lower_user_count
  lower_user_count_keeps user count =
      Sat-step view (λ _. IsSafe)
        (Sat-execute sys view behaves _ (λ s h. h)
          (λ s r h _ _. Safe-update_user_count none s h _ _))
        (λ _. Sat-pure view tt (λ s h. h))

  unlink_row_keeps :
      (user md5 filename : String)
      → Sat view IsSafe (unlink_row sys user md5 filename) (λ _. Freed md5) IsSafe
  unfolding unlink_row
  unlink_row_keeps user md5 filename =
      Sat-step view (λ gone s. IsSafe s × (is_one_row gone ≡ true → Safe (some md5) s))
        (Sat-execute sys view behaves (delete_user_file user md5 filename) (λ s h. h)
          (λ s r h _ told. (
            IsSafe-delete_user_file user md5 filename s h,
            λ one.
                Safe-delete_user_file user md5 filename s h
                  (one_matched user md5 filename s r told one),
          )))
        (λ gone.
          Sat-step view (λ _. Safe (some md5))
            (Sat-if view (is_one_row gone) _ _ (λ one. Sat-pure view tt (λ s h. h.1 one))
              (λ _. Sat-stop view (negsuc 0) (λ s h. h.0)))
            (λ _.
              Sat-step view (λ _. Safe (some md5))
                (Sat-call view _ (enqueue_keeps sys view behaves user md5 "delete_source" "delete"))
                (λ queued.
                  Sat-step view (λ _. Safe (some md5))
                    (Sat-if view (eq_ℤ queued (pos 0)) _ _ (λ _. Sat-pure view tt (λ s h. h))
                      (λ _. Sat-stop view (negsuc 0) Safe-spend))
                    (λ _. committed))))
    where
      committed :
          Sat view
            (Safe (some md5))
            (execute sys (delete_ai_desc user md5) >>= λ cleared.
              (execute sys commit >>= λ _. pure cleared))
            (λ _. Freed md5)
            IsSafe
      committed =
          Sat-step view (λ _. Safe (some md5))
            (Sat-execute sys view behaves (delete_ai_desc user md5) Safe-spend
              (λ s r h _ _. subst (Safe (some md5)) (sym (still_ai_desc user md5 s)) h))
            (λ cleared.
              Sat-step view (λ _. Freed md5)
                (Sat-execute sys view behaves commit Safe-spend
                  (λ s r h _ _. (Safe-commit s h, saved-commit s)))
                (λ _. Sat-pure view cleared (λ s h. h)))

  pub remove_row_keeps :
      (user md5 filename : String) (tmp : Cell)
      → Sat view IsSafe (remove_row sys user md5 filename tmp) (λ _. Freed md5) IsSafe
  unfolding remove_row
  remove_row_keeps user md5 filename tmp =
      Sat-step view (λ _. IsSafe)
        (Sat-select_one sys view behaves (select_user_count user) tmp (still_user_count user)
          (λ s r c h _. h))
        (λ found.
          Sat-step view (λ _. IsSafe)
            (Sat-if view (eq_ℤ found.0 (pos 0)) _ _ (λ _. Sat-pure view tt (λ s h. h))
              (λ _. Sat-stop view (negsuc 0) (λ s h. h)))
            (λ _.
              Sat-step view (λ _. IsSafe)
                (Sat-if view (positive (atoi found.1)) _ _
                  (λ _. lower_user_count_keeps user (atoi found.1))
                  (λ _. Sat-pure view tt (λ s h. h)))
                (λ _.
                  Sat-step view (λ _. Freed md5) (unlink_row_keeps user md5 filename)
                    (λ cleared. Sat-pure view (is_some_row cleared, found.1) (λ s h. h)))))

  -- Where steps leave for END, the transaction is undone.
  pub in_transaction_keeps :
      {A : Type 0} {Q : A → State → Type 0} (steps : Exec W A)
      → Sat view IsSafe steps Q IsSafe
      → Sat view IsSafe (in_transaction sys steps) Q IsSafe
  unfolding in_transaction end_transaction apply
  in_transaction_keeps {A} {Q} steps keeps =
      Sat-step view (λ _. IsSafe)
        (Sat-execute sys view behaves start_transaction (λ s h. h) (λ s r h _ _. Safe-start s h))
        (λ _. record { at = λ w p. ended (steps w).0 (steps w).1 (keeps.at w p) })
    where
      undone : (r : Reply) (s s' : State) → Explains rollback r s s' → IsSafe s → IsSafe s'
      undone failed s s' e h = subst IsSafe (sym e) h
      undone no_result s s' e h = subst IsSafe (sym e.0) (IsSafe-rolled_back s h)
      undone (rows r) s s' e h = subst IsSafe (sym e.0) (IsSafe-rolled_back s h)
      undone (affected n) s s' e h = subst IsSafe (sym e.0) (IsSafe-rolled_back s h)

      ended :
          (r : Out A) (w : W)
          → Post view Q IsSafe r w
          → Post view Q IsSafe (end_transaction sys r w).0 (end_transaction sys r w).1
      ended (go a) w p = p
      ended (stop r) w p = undone _ _ _ (behaves.query rollback w) p
      ended crash w p = p
