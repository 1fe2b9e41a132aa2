-- ===== src/Files/Count/Safety.antt =====
-- Steps that several services share keep the state safe: reading the count of a file, raising the
-- count of a user, and enqueueing a task.
use hydra_fs.Prelude.{
  ◌≡◌, refl, sym, ap, subst, true, Option, none, some, String, [], arith, inl, inr,
}
use hydra_fs.Prelude.Int.{ℤ, pos, eq_ℤ, succ_ℤ}
use hydra_fs.Backend.{
  select_file_count, select_user_count, update_file_count, insert_user_file, Exec, ◌>>=◌, call,
  Cell, rows, System, atoi,
}
use hydra_fs.Backend.Mysql.{store_one, execute}
use hydra_fs.Backend.Contract.{FileInfo, State, Contract, apply, answer, count_rows}
use hydra_fs.Backend.Triple.{Sat, Sat-step, Sat-pure, Sat-quiet}
use hydra_fs.Backend.Triple.Statements.{Sat-execute, Sat-select_one, Selected}
use hydra_fs.Knowledge.{enqueue_knowledge_task}
use hydra_fs.Knowledge.Tasks.{Enqueues, present, inserted, refused, enqueue_knowledge_task-Enqueues}
use hydra_fs.Files.Invariant.{Safe, IsSafe}
use hydra_fs.Files.Invariant.Steps.{
  Safe-spend, Safe-raise_file_count, Safe-insert_user_file, Safe-count_statement, Safe-insert_task,
  still_user_count,
}
use hydra_fs.Files.Count.{raise_user_count}

-- The count that was read is the count of the row.
abbrev pub CountIs : String → ℤ → State → Type 0
CountIs md5 n s = (i : FileInfo) × (s.tables.file_info md5 ≡ some i) × (i.count ≡ n)

pub count_read :
    (md5 : String) (s : State) (tmp : Cell) (r : ℤ) (c : Cell)
    → Selected (select_file_count md5) s tmp r c
    → eq_ℤ r (pos 0) ≡ true
    → CountIs md5 (atoi c) s
unfolding answer store_one atoi
count_read md5 s tmp r c (inl e) h = ground (arith)
count_read md5 s tmp r c (inr told) h = by_row (s.tables.file_info md5) refl
  where
    by_row : (o : Option FileInfo) → s.tables.file_info md5 ≡ o → CountIs md5 (atoi c) s
    by_row none e =
        let (one, _) = told [] (ap (λ o. some (rows (count_rows o))) e) in
        let clash : eq_ℤ (pos 1) (pos 0) ≡ true = subst (λ r. eq_ℤ r (pos 0) ≡ true) one h in cc
    by_row (some i) e =
        let (_, read) = told (count_rows (some i)) (ap (λ o. some (rows (count_rows o))) e) in
        (i, e, sym (ap atoi read))

module _ {W : Type 0} (sys : System W) (view : W → State) (behaves : Contract sys view) where
  pub raise_user_count_keeps :
      (user : String) (tmp : Cell)
      → Sat view IsSafe (raise_user_count sys user tmp) (λ _. IsSafe) IsSafe
  unfolding raise_user_count
  raise_user_count_keeps user tmp =
      Sat-step view (λ _. IsSafe)
        (Sat-select_one sys view behaves (select_user_count user) tmp (still_user_count user)
          (λ s r c h _. h))
        (λ found.
          Sat-step view (λ _. IsSafe)
            (Sat-execute sys view behaves _ (λ s h. h)
              (λ s r h _ _. Safe-count_statement none s h user found.0 found.1))
            (λ _. Sat-pure view tt (λ s h. h)))

  pub enqueue_keeps :
      {spare : Option String} (user md5 task_type source : String) (w : W)
      → Safe spare (view w)
      → Safe spare (view (enqueue_knowledge_task sys user md5 task_type source w).1)
  enqueue_keeps {spare} user md5 task_type source w h =
      by_case (enqueue_knowledge_task-Enqueues sys view behaves user md5 task_type source w) h
    where
      by_case :
          {kind : String} {R : Type 0} {s s' : State} {r : ℤ}
          → Enqueues user md5 kind source R s r s'
          → Safe spare s
          → Safe spare s'
      by_case (present p) h = h
      by_case (inserted {s' = s'} z e) h = subst (Safe spare) (sym e) (Safe-insert_task _ _ _ _ _ h)
      by_case (refused e) h = h

  -- The update of the count, the time, and the insertion of the row, as each service does them.
  pub Sat-bind_reference :
      (user md5 filename : String) (count : ℤ) {Q : Unit {0} → State → Type 0}
      (rest : Exec W (Unit {0}))
      → Sat view IsSafe rest Q IsSafe
      → Sat view
          (λ s. CountIs md5 count s × IsSafe s)
          (execute sys (update_file_count (succ_ℤ count) md5) >>= λ _.
            (call sys.local_time >>= λ time.
            (execute sys (insert_user_file user md5 time filename (pos 0) (pos 0)) >>= λ _. rest)))
          Q
          IsSafe
  Sat-bind_reference user md5 filename count rest after =
      Sat-step view (λ _. Safe (some md5))
        (Sat-execute sys view behaves _ (λ s h. h.1) (λ s r h _ _. raised s h))
        (λ _.
          Sat-step view (λ _. Safe (some md5)) (Sat-quiet view _ sys.local_time behaves.local_time)
            (λ time.
              Sat-step view (λ _. IsSafe)
                (Sat-execute sys view behaves _ Safe-spend
                  (λ s r h _ _. Safe-insert_user_file user md5 time filename (pos 0) (pos 0) s h))
                (λ _. after)))
    where
      raised :
          (s : State)
          → CountIs md5 count s × IsSafe s
          → Safe (some md5) (apply (update_file_count (succ_ℤ count) md5) s)
      raised s ((i, e, n), h) =
          subst (λ c. Safe (some md5) (apply (update_file_count (succ_ℤ c) md5) s)) n
            (Safe-raise_file_count md5 i s e h)
