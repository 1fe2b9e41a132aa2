-- ===== src/Parts/Rules.antt =====
-- The rules for the steps of a transaction of common/storage_metadata_store.cpp, and for a whole one.
use hydra_fs.Prelude.{
  ℕ, ◌≡◌, ◌≢◌, refl, sym, ap, subst, ◌∙◌, ◌⊎◌, inl, inr, Bool, true, false, Bool-cases, Option,
  none, some, List, ◌==◌, if◌then◌else◌, arith,
}
use hydra_fs.Prelude.Int.{ℤ, negsuc}
use hydra_fs.Backend.{Out, go, stop, crash, Exec}
use hydra_fs.Backend.Triple.{Ends, Leaves, Sat-step, Sat-pure, Sat-stop, Sat-run, Sat-if}
use hydra_fs.Parts.{
  or_fail, start_transaction, commit, rollback, Statement, PartSystem, connect, txn, exec, query,
  only, exec_one, exec_any, select_one, txn_commit, finished, in_transaction,
}
use hydra_fs.Parts.Contract.{
  PartTables, PartState, or_else, Matches, effect, Lost, TxnExplains, Executed, Selects, Told,
  PartContract,
}
use hydra_fs.Parts.Wire.{
  Open, Undoes, Settled, Undoes-Open, Lost-Undoes, After, connect_open, exec-After, query-After,
}

-- The reply to a COMMIT that took effect was lost; `L` is known of the tables.
abbrev pub Committed : (PartTables → Type 0) → PartState → Type 0
Committed L s = (s.saved ≡ none) × (s.connected ≡ true) × L s.tables

-- A step broke off, and the process lives.
abbrev pub Broken : PartTables → (PartTables → Type 0) → Option ℤ → PartState → Type 0
Broken t L r s = (r ≢ none) × (Undoes t s ⊎ Committed L s)

module _ {W : Type 0} (sys : PartSystem W) (view : W → PartState) (behaves : PartContract sys view)
    (t : PartTables) (L : PartTables → Type 0) (R : PartState → Type 0)
    (open_r : (s : PartState) → R s → Open t s) where
  result_ends :
      {A : Type 0} (says : A → PartState → PartState → Type 0) (o : Option A)
      → Ends view
          (After t R says o)
          (or_fail sys o)
          (λ a s'. After t R says (some a) s')
          (Broken t L)
  result_ends says none = Sat-stop view (negsuc 0) (λ s h. (λ e. cc, inl h))
  result_ends says (some a) = Sat-pure view a (λ s h. h)

  pub Ends-select_one :
      {A : Type 0} (select : W → Option (List A) × W) (found : PartTables → List A)
      → ((w : W) → Told (Selects found) (select w).0 (view w) (view (select w).1))
      → Ends view R
          (select_one sys select)
          (λ a s. R s × (only (found s.tables) ≡ some a))
          (Broken t L)
  unfolding select_one
  Ends-select_one {A} select found told =
      Sat-step view (After t R (Selects found))
        (Sat-run view (query sys select)
          (λ w h. query-After sys view behaves t R open_r select found told w h))
        (λ o.
          Sat-step view (λ rows s. After t R (Selects found) (some rows) s)
            (result_ends (Selects found) o) (λ rows. picked rows (only rows) refl))
    where
      picked :
          (rows : List A) (o : Option A)
          → only rows ≡ o
          → Ends view
              (λ s'. After t R (Selects found) (some rows) s')
              (or_fail sys o)
              (λ a s. R s × (only (found s.tables) ≡ some a))
              (Broken t L)
      picked rows none e = Sat-stop view (negsuc 0) (λ s (before, h, (same, known)).
          (λ e. cc, inl (Undoes-Open t s (open_r s (subst R (sym same) h)))))
      picked rows (some a) e = Sat-pure view a (λ s (before, h, (same, known)). (
        subst R (sym same) h,
        ap (only) (subst (λ u. found u.tables ≡ rows) (sym same) (sym known)) ∙ e,
      ))

  pub Ends-exec_one :
      (q : Statement)
      → Ends view R
          (exec_one sys q)
          (λ _ s'.
            (s : PartState) × R s
            × ((now : ℕ) × Matches q now s.tables
                × (s' ≡ record s { tables = effect q now s.tables })))
          (Broken t L)
  unfolding exec_one
  Ends-exec_one q =
      Sat-step view (After t R (Executed q))
        (Sat-run view (exec sys q) (λ w h. exec-After sys view behaves t R open_r q w h))
        (λ o.
          Sat-step view (λ n s. After t R (Executed q) (some n) s) (result_ends (Executed q) o)
            (λ n.
              Sat-if view (n == 1) _ _ (λ e. Sat-pure view tt (λ s' h. changed_row n s' e h))
                (λ _. Sat-stop view (negsuc 0) (λ s' h. (λ e. cc, inl (changed_undoes n s' h))))))
    where
      changed_undoes : (n : ℕ) (s' : PartState) → After t R (Executed q) (some n) s' → Undoes t s'
      changed_undoes n s' (s, h, inl (same, z, m)) =
          Undoes-Open t s' (open_r s' (subst R (sym same) h))
      changed_undoes n s' (s, h, inr (now, m, e)) =
          Undoes-Open t s' (subst (Open t) (sym e) (open_r s h))

      changed_row :
          (n : ℕ) (s' : PartState)
          → (n == 1) ≡ true
          → After t R (Executed q) (some n) s'
          → (s : PartState) × R s
            × ((now : ℕ) × Matches q now s.tables
                × (s' ≡ record s { tables = effect q now s.tables }))
      changed_row n s' e (s, h, inl (same, z, m)) = absurd (ground arith)
      changed_row n s' e (s, h, inr done) = (s, h, done)

  pub Ends-exec_any :
      (q : Statement)
      → Ends view R
          (exec_any sys q)
          (λ _ s'. (s : PartState) × R s × ((n : ℕ) × Executed q n s s'))
          (Broken t L)
  unfolding exec_any
  Ends-exec_any q =
      Sat-step view (After t R (Executed q))
        (Sat-run view (exec sys q) (λ w h. exec-After sys view behaves t R open_r q w h))
        (λ o.
          Sat-step view (λ n s. After t R (Executed q) (some n) s) (result_ends (Executed q) o)
            (λ n. Sat-pure view tt (λ s' (s, h, e). (s, h, (n, e)))))

  pub Ends-commit :
      ((s : PartState) → R s → L s.tables)
      → Ends view R
          (txn_commit sys)
          (λ _ s'. (s : PartState) × R s × (s' ≡ record s { saved = none }))
          (Broken t L)
  unfolding txn_commit txn
  Ends-commit known =
      Sat-step view
        (λ done s'.
          ((done ≡ true) × ((s : PartState) × R s × (s' ≡ record s { saved = none })))
          ⊎ ((done ≡ false) × (Undoes t s' ⊎ Committed L s')))
        (Sat-run view (txn sys commit) (λ w h.
          rw (connect_open sys view behaves w (open_r _ h).1, txn)
            (answered (sys.mysql_query commit w).0 (view w) _ h (behaves.query commit w))))
        (λ done.
          Sat-if view done _ _
            (λ e. Sat-pure view tt (λ s' h. elim h [ inl (_, k) ↦ k | inr (f, _) ↦ cc ]))
            (λ e.
              Sat-stop view (negsuc 0)
                (λ s' h. (λ e. cc, elim h [ inl (f, _) ↦ cc | inr (_, k) ↦ k ]))))
    where
      answered :
          (b : Bool) (s s' : PartState)
          → R s
          → TxnExplains commit b s s'
          → ((b ≡ true) × ((s : PartState) × R s × (s' ≡ record s { saved = none })))
            ⊎ ((b ≡ false) × (Undoes t s' ⊎ Committed L s'))
      answered true s s' h e = inl (refl, (s, h, e))
      answered false s s' h (inl l) = inr (refl, inl (Lost-Undoes t s s' l (open_r s h)))
      answered false s s' h (inr e) =
          inr (refl, inr (subst (Committed L) (sym e) (refl, (open_r s h).1, known s h)))

-- The start of it.
abbrev pub Begun : PartTables → PartState → Type 0
Begun t s = (s.tables ≡ t) × Open t s

abbrev pub Outcome :
    {A : Type 0}
    → PartTables
    → (PartTables → Type 0)
    → (A → PartState → Type 0)
    → Option A
    → PartState
    → Type 0
Outcome t L Q none s = Settled t s ⊎ ((s.saved ≡ none) × L s.tables)
Outcome t L Q (some a) s = Q a s

-- A transaction from where none is open: its steps succeed, or its tables are as they were, or `L` is
-- known of them.
module _ {W : Type 0} (sys : PartSystem W) (view : W → PartState)
    (behaves : PartContract sys view) where
  -- Connected, or as before.
  abbrev Joined : PartTables → Bool × W → Type 0
  Joined t r = Settled t (view r.1) × ((r.0 ≡ true) → (view r.1).connected ≡ true)

  handle-Joined :
      (t : PartTables) (w : W)
      → Settled t (view w)
      → sys.has_connection w ≡ true
      → Joined t (if sys.is_unconnected w then sys.mysql_real_connect w else (true, w))
  handle-Joined t w h there = elim (Bool-cases (sys.is_unconnected w)) [
    | inl e ↦ rw e (
      subst (Settled t) (sym (behaves.real_connect w)) h,
      λ c. ap (λ (s : PartState). s.connected) (behaves.real_connect w) ∙ c,
    )
    | inr e ↦ rw e (h, λ _. sym (behaves.linked w) ∙ rw (there, e) refl)
  ]

  connect-Joined : (t : PartTables) (w : W) → Settled t (view w) → Joined t (connect sys w)
  unfolding connect
  connect-Joined t w h = elim (Bool-cases (sys.has_connection w)) [
    | inl e ↦ rw (e, connect) (handle-Joined t w h e)
    | inr e ↦ elim (Bool-cases (sys.mysql_init w).0) [
      | inl f ↦
          rw (e, f, connect)
            (handle-Joined t (sys.mysql_init w).1 (subst (Settled t) (sym (behaves.init w)) h)
              (behaves.made w f))
      | inr f ↦ rw (e, f, connect) (subst (Settled t) (sym (behaves.init w)) h, λ c. cc)
    ]
  ]

  Lost-Settled : (t : PartTables) (s s' : PartState) → Lost s s' → Settled t s → Settled t s'
  Lost-Settled t s s' (inl e) h = subst (Settled t) (sym e) h
  Lost-Settled t s s' (inr e) (h, n) =
      subst (Settled t) (sym e) (subst (λ o. or_else o s.tables ≡ t) (sym n) h, refl)

  started :
      (w : W)
      → (view w).saved ≡ none
      → let r = txn sys start_transaction w in
        ((r.0 ≡ true) × Begun (view w).tables (view r.1))
        ⊎ ((r.0 ≡ false) × Settled (view w).tables (view r.1))
  unfolding txn
  started w h = elim (Bool-cases (connect sys w).0) [
    | inl e ↦
        rw (e, txn)
          (answered (sys.mysql_query start_transaction w1).0 (view w1) _ joined.0 (joined.1 e)
            (behaves.query start_transaction w1))
    | inr e ↦ rw (e, txn) (inr (refl, joined.0))
  ]
    where
      w1 : W
      w1 = (connect sys w).1

      joined : Joined (view w).tables (connect sys w)
      joined = connect-Joined (view w).tables w (refl, h)

      answered :
          (b : Bool) (s s' : PartState)
          → Settled (view w).tables s
          → s.connected ≡ true
          → TxnExplains start_transaction b s s'
          → ((b ≡ true) × Begun (view w).tables s') ⊎ ((b ≡ false) × Settled (view w).tables s')
      answered true s s' (k, n) c e =
          inl (refl, subst (Begun (view w).tables) (sym e) (k, (ap some k, c)))
      answered false s s' k c l = inr (refl, Lost-Settled (view w).tables s s' l k)

  rollback-Committed :
      (L : PartTables → Type 0) (w : W)
      → Committed L (view w)
      → let s = view (txn sys rollback w).1 in (s.saved ≡ none) × L s.tables
  unfolding txn
  rollback-Committed L w (n, c, k) =
      rw (connect_open sys view behaves w c, txn)
        (subst (λ s. (s.saved ≡ none) × L s.tables) (sym (behaves.query rollback w))
          (refl, subst (λ o. L (or_else o (view w).tables)) (sym n) k))

  rollback-Undoes :
      (t : PartTables) (w : W) → Undoes t (view w) → Settled t (view (txn sys rollback w).1)
  unfolding txn
  rollback-Undoes t w u =
      rw (connect_open sys view behaves w u.linked, txn)
        (subst (Settled t) (sym (behaves.query rollback w)) (u.back, refl))

  pub in_transaction_ends :
      {A : Type 0} (L : PartTables → Type 0) (Q : A → PartState → Type 0) (steps : Exec W A) (w : W)
      → (view w).saved ≡ none
      → Ends view (Begun (view w).tables) steps Q (Broken (view w).tables L)
      → Outcome
          (view w).tables
          L
          Q
          (in_transaction sys steps w).0
          (view (in_transaction sys steps w).1)
  unfolding in_transaction finished
  in_transaction_ends {A} L Q steps w h ends = elim (started w h) [
    | inl (e, begun) ↦ rw (e, in_transaction) (closed _ _ (ends.at _ begun))
    | inr (e, same) ↦ rw (e, in_transaction) (inl same)
  ]
    where
      closed :
          (r : Out A) (v : W)
          → Leaves view Q (Broken (view w).tables L) r v
          → Outcome (view w).tables L Q (finished sys r v).0 (view (finished sys r v).1)
      closed (go a) v q = q
      closed (stop r) v (n, inl u) = inl (rollback-Undoes (view w).tables v u)
      closed (stop r) v (n, inr c) = inr (rollback-Committed L v c)
      closed crash v (n, u) = absurd (n refl)
