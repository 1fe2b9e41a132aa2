-- ===== src/Knowledge/Tasks.antt =====
-- What common/knowledge_task.c does to the tasks of the knowledge layer.
use package.text.Mathlib.Text.{◌==◌ as str_eq}
use hydra_fs.Prelude.{
  ℕ, zero, suc, Bool, true, false, ◌⊎◌, List, ap, ◌<◌, lt→ltb, ◌≡◌, refl, sym, subst, some, String,
  [], ◌∷◌, arith, inl, inr, if◌then◌else◌, by_if, ◌∙◌,
}
use hydra_fs.Prelude.Int.{ℤ, pos, negsuc}
use hydra_fs.Backend.{
  get_lock, release_lock, count_active_tasks, insert_task, number, Row, Reply, failed, no_result,
  rows, affected, System, atoi,
}
use hydra_fs.Backend.Mysql.{is_ok}
use hydra_fs.Backend.Contract.{State, apply, apply_tables, answer, Explains, Contract}
use hydra_fs.Backend.Triple.Statements.{query_still}
use hydra_fs.Knowledge.{
  normalized_type, is_locked, is_duplicate, insert_unless_duplicate, under_lock,
  enqueue_knowledge_task,
}

rows_inj : {r r' : List Row} → rows r ≡ rows r' → r ≡ r'
rows_inj e = cc

still_lock : (user md5 kind : String) (s : State) → apply (get_lock user md5 kind) s ≡ s
unfolding apply apply_tables
still_lock user md5 kind s = refl

still_release : (user md5 kind : String) (s : State) → apply (release_lock user md5 kind) s ≡ s
unfolding apply apply_tables
still_release user md5 kind s = refl

still_count : (user md5 kind : String) (s : State) → apply (count_active_tasks user md5 kind) s ≡ s
unfolding apply apply_tables
still_count user md5 kind s = refl

-- What enqueueing a task does: with 0, nothing where a task is active, and one insertion where none
-- is; else, where it is `Refused`, nothing.
pub data Enqueues (user md5 kind source : String) (Refused : Type 0) (s : State)
    : ℤ → State → Type 0 where
  present :
      0 < s.tables.active_tasks user md5 kind → Enqueues user md5 kind source Refused s (pos 0) s
  inserted :
      {s' : State}
      → s.tables.active_tasks user md5 kind ≡ 0
      → s' ≡ apply (insert_task user md5 kind source) s
      → Enqueues user md5 kind source Refused s (pos 0) s'
  refused : Refused → Enqueues user md5 kind source Refused s (negsuc 0) s

abbrev has_rows : Reply → Bool
has_rows (rows r) = true
has_rows _ = false

-- The type is empty, the lock is not granted, the count is not answered with rows, or there is no
-- active task and the insertion fails.
abbrev pub Refusal :
    {W : Type 0} → System W → (W → State) → (user md5 task_type source : String) → W → Type 0
Refusal sys view user md5 task_type source w =
    let kind = normalized_type task_type in
    let (lock, w1) = sys.mysql_query (get_lock user md5 kind) w in
    let (count, w2) = sys.mysql_query (count_active_tasks user md5 kind) w1 in
    let (insert, w3) = sys.mysql_query (insert_task user md5 kind source) w2 in
    (str_eq task_type "" ≡ true)
    ⊎ (is_locked lock ≡ false)
    ⊎ (has_rows count ≡ false)
    ⊎ ((view w).tables.active_tasks user md5 kind ≡ 0) × (is_ok insert ≡ false)

moved :
    {user md5 kind source : String} {R : Type 0} {s s' t t' : State} {r : ℤ}
    → s ≡ s'
    → t ≡ t'
    → Enqueues user md5 kind source R s r t
    → Enqueues user md5 kind source R s' r t'
moved {user} {md5} {kind} {source} {R} {s} {s'} {t} {t'} {r} p q e =
    subst (λ a. Enqueues user md5 kind source R a r t') p
      (subst (Enqueues user md5 kind source R s r) q e)

module _ {W : Type 0} (sys : System W) (view : W → State) (behaves : Contract sys view)
    (user md5 kind source : String) (R : Type 0) where
  insert_by :
      (r : Reply) (s s' : State)
      → s.tables.active_tasks user md5 kind ≡ 0
      → Explains (insert_task user md5 kind source) r s s'
      → (is_ok r ≡ false → R)
      → Enqueues user md5 kind source R s (if is_ok r then pos 0 else negsuc 0) s'
  unfolding is_ok
  insert_by failed s s' z e stop =
      subst (Enqueues user md5 kind source R s (negsuc 0)) (sym e) (refused (stop refl))
  insert_by no_result s s' z e stop = inserted z e.0
  insert_by (rows r) s s' z e stop = inserted z e.0
  insert_by (affected n) s s' z e stop = inserted z e.0

  -- The answer of the count, where there is a result.
  counted :
      (n : ℕ) (r : List Row) (w : W)
      → rows r ≡ rows ((some (number (pos n)) ∷ []) ∷ [])
      → (view w).tables.active_tasks user md5 kind ≡ n
      → ((view w).tables.active_tasks user md5 kind ≡ 0
          → is_ok (sys.mysql_query (insert_task user md5 kind source) w).0 ≡ false
          → R)
      → Enqueues user md5 kind source R
          (view w)
          (insert_unless_duplicate sys user md5 kind source (rows r) w).0
          (view (insert_unless_duplicate sys user md5 kind source (rows r) w).1)
  unfolding insert_unless_duplicate is_duplicate atoi
  counted zero r w e z stop = rw (rows_inj e) (
      insert_by (sys.mysql_query (insert_task user md5 kind source) w).0 (view w) _ z
        (behaves.query (insert_task user md5 kind source) w) (stop z))
  counted (suc n) r w e z stop =
      rw (rows_inj e, lt→ltb 0 (suc n) (omega arith)) (present (omega arith))

  by_found :
      (r : Reply) (s : State) (w : W)
      → Explains (count_active_tasks user md5 kind) r s (view w)
      → (has_rows r ≡ false → R)
      → ((view w).tables.active_tasks user md5 kind ≡ 0
          → is_ok (sys.mysql_query (insert_task user md5 kind source) w).0 ≡ false
          → R)
      → Enqueues user md5 kind source R
          (view w)
          (insert_unless_duplicate sys user md5 kind source r w).0
          (view (insert_unless_duplicate sys user md5 kind source r w).1)
  unfolding insert_unless_duplicate answer
  by_found failed s w e missed stop = refused (missed refl)
  by_found no_result s w e missed stop = refused (missed refl)
  by_found (affected n) s w e missed stop = refused (missed refl)
  by_found (rows r) s w e missed stop =
      counted (s.tables.active_tasks user md5 kind) r w (e.2 _ refl)
        (ap (λ t. t.tables.active_tasks user md5 kind) (e.0 ∙ still_count user md5 kind s)) stop

  under_lock-Enqueues :
      (w : W)
      → (has_rows (sys.mysql_query (count_active_tasks user md5 kind) w).0 ≡ false → R)
      → ((view w).tables.active_tasks user md5 kind ≡ 0
          → is_ok
              (sys.mysql_query
                (insert_task user md5 kind source)
                (sys.mysql_query (count_active_tasks user md5 kind) w).1).0
            ≡ false
          → R)
      → Enqueues user md5 kind source R
          (view w)
          (under_lock sys user md5 kind source w).0
          (view (under_lock sys user md5 kind source w).1)
  unfolding under_lock
  under_lock-Enqueues w missed stop = moved same (sym released) (
      by_found _ (view w) w1 (behaves.query (count_active_tasks user md5 kind) w) missed
        (λ z. stop (sym (ap (λ t. t.tables.active_tasks user md5 kind) same) ∙ z)))
    where
      w1 : W
      w1 = (sys.mysql_query (count_active_tasks user md5 kind) w).1

      same : view w1 ≡ view w
      same =
          query_still sys view behaves (count_active_tasks user md5 kind)
            (still_count user md5 kind) w

      w2 : W
      w2 =
          (insert_unless_duplicate sys user md5 kind source
            (sys.mysql_query (count_active_tasks user md5 kind) w).0 w1).1

      released : view (sys.mysql_query (release_lock user md5 kind) w2).1 ≡ view w2
      released =
          query_still sys view behaves (release_lock user md5 kind) (still_release user md5 kind) w2

module _ {W : Type 0} (sys : System W) (view : W → State) (behaves : Contract sys view) where
  locked-Enqueues :
      (user md5 task_type source : String) (w : W)
      → let kind = normalized_type task_type in
        let (reply, w1) = sys.mysql_query (get_lock user md5 kind) w in
        let (ret, w') =
          if is_locked reply then under_lock sys user md5 kind source w1 else (negsuc 0, w1) in
        Enqueues user md5 kind source
          (Refusal sys view user md5 task_type source w)
          (view w)
          ret
          (view w')
  locked-Enqueues user md5 task_type source w =
      by_if (λ (p : ℤ × W). Enqueues user md5 kind source R (view w) p.0 (view p.1))
        (is_locked reply) _ _
        (λ e. moved same refl (
          under_lock-Enqueues sys view behaves user md5 kind source R w1 (λ m. inr (inr (inl m)))
            (λ z m.
              inr (inr (inr (sym (ap (λ t. t.tables.active_tasks user md5 kind) same) ∙ z, m))))))
        (λ e.
          subst (Enqueues user md5 kind source R (view w) (negsuc 0)) (sym same)
            (refused (inr (inl e))))
    where
      kind : String
      kind = normalized_type task_type

      R : Type 0
      R = Refusal sys view user md5 task_type source w

      reply : Reply
      reply = (sys.mysql_query (get_lock user md5 kind) w).0

      w1 : W
      w1 = (sys.mysql_query (get_lock user md5 kind) w).1

      same : view w1 ≡ view w
      same = query_still sys view behaves (get_lock user md5 kind) (still_lock user md5 kind) w

  pub enqueue_knowledge_task-Enqueues :
      (user md5 task_type source : String) (w : W)
      → Enqueues user md5
          (normalized_type task_type)
          source
          (Refusal sys view user md5 task_type source w)
          (view w)
          (enqueue_knowledge_task sys user md5 task_type source w).0
          (view (enqueue_knowledge_task sys user md5 task_type source w).1)
  unfolding enqueue_knowledge_task
  enqueue_knowledge_task-Enqueues user md5 task_type source w =
      by_if
        (λ (p : ℤ × W).
          Enqueues user md5 (normalized_type task_type) source
            (Refusal sys view user md5 task_type source w) (view w) p.0 (view p.1))
        (str_eq task_type "") _ _ (λ e. refused (inl e))
        (λ _. locked-Enqueues user md5 task_type source w)
