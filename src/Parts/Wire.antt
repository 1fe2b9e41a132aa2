-- ===== src/Parts/Wire.antt =====
-- What is known behind a statement or a query of common/storage_metadata_store.cpp in a transaction.
use hydra_fs.Prelude.{
  ℕ, ◌≡◌, refl, sym, subst, ◌∙◌, inl, inr, true, false, not, ◌&&◌, Bool-cases, Option, none, some,
  List, arith,
}
use hydra_fs.Parts.{Statement, set_names, PartSystem, connect, prepared, exec, query}
use hydra_fs.Parts.Contract.{
  PartTables, PartState, rolled_back, or_else, Lost, Executed, Selects, Told, PartContract,
}

-- In a transaction from these tables.
abbrev pub Open : PartTables → PartState → Type 0
Open t s = (s.saved ≡ some t) × (s.connected ≡ true)

-- In it, or after it was undone: a ROLLBACK goes back to its tables.
pub record Undoes (t : PartTables) (s : PartState) : Type 0 where
  pub back : (rolled_back s).tables ≡ t
  pub linked : s.connected ≡ true

-- No transaction is open, and these are the tables.
abbrev pub Settled : PartTables → PartState → Type 0
Settled t s = (s.tables ≡ t) × (s.saved ≡ none)

pub Undoes-Open : (t : PartTables) (s : PartState) → Open t s → Undoes t s
Undoes-Open t s (h, c) = record {
  back = subst (λ o. or_else o s.tables ≡ t) (sym h) refl;
  linked = c;
}

pub Lost-Undoes : (t : PartTables) (s s' : PartState) → Lost s s' → Open t s → Undoes t s'
Lost-Undoes t s s' (inl e) h = subst (Undoes t) (sym e) (Undoes-Open t s h)
Lost-Undoes t s s' (inr e) h =
    subst (Undoes t) (sym e)
      (record { back = (Undoes-Open t s h).back; linked = (Undoes-Open t s h).linked })

-- What is known of the state behind a result, `R` of the one before it.
abbrev pub After :
    {A : Type 0}
    → PartTables
    → (PartState → Type 0)
    → (A → PartState → PartState → Type 0)
    → Option A
    → PartState
    → Type 0
After t R says none s' = Undoes t s'
After t R says (some a) s' = (s : PartState) × R s × says a s s'

module _ {W : Type 0} (sys : PartSystem W) (view : W → PartState)
    (behaves : PartContract sys view) where
  pub connect_open : (w : W) → (view w).connected ≡ true → connect sys w ≡ (true, w)
  unfolding connect
  connect_open w c =
      let both : (sys.has_connection w && not (sys.is_unconnected w)) ≡ true =
        behaves.linked w ∙ c in
      let there : sys.has_connection w ≡ true = ground arith in
      let made : sys.is_unconnected w ≡ false = ground arith in rw (there, made) refl

  module _ {A : Type 0} (t : PartTables) (R : PartState → Type 0)
      (open_r : (s : PartState) → R s → Open t s) (run : W → Option A × W)
      (says : A → PartState → PartState → Type 0)
      (told : (w : W) → Told says (run w).0 (view w) (view (run w).1)) where
    prepared-After :
        (w : W) → R (view w) → After t R says (prepared sys run w).0 (view (prepared sys run w).1)
    unfolding prepared
    prepared-After w h = elim (Bool-cases (sys.stmt_prepare w).0) [
      | inl e ↦ rw (e, prepared) (run_after _ (subst R (sym (behaves.prepared w e)) h))
      | inr e ↦ rw (e, prepared) (Lost-Undoes t _ _ (behaves.prepare w) (open_r _ h))
    ]
      where
        by_result : (o : Option A) (s s' : PartState) → R s → Told says o s s' → After t R says o s'
        by_result none s s' h l = Lost-Undoes t s s' l (open_r s h)
        by_result (some a) s s' h l = (s, h, l)

        run_after : (w : W) → R (view w) → After t R says (run w).0 (view (run w).1)
        run_after w h = by_result (run w).0 (view w) (view (run w).1) h (told w)

  pub exec-After :
      (t : PartTables) (R : PartState → Type 0) (open_r : (s : PartState) → R s → Open t s)
      (q : Statement) (w : W)
      → R (view w)
      → After t R (Executed q) (exec sys q w).0 (view (exec sys q w).1)
  unfolding exec
  exec-After t R open_r q w h =
      rw (connect_open w (open_r _ h).1, exec)
        (prepared-After t R open_r (sys.stmt_execute q) (Executed q) (behaves.execute q) w h)

  pub query-After :
      {A : Type 0} (t : PartTables) (R : PartState → Type 0)
      (open_r : (s : PartState) → R s → Open t s) (select : W → Option (List A) × W)
      (found : PartTables → List A)
      (told : (w : W) → Told (Selects found) (select w).0 (view w) (view (select w).1)) (w : W)
      → R (view w)
      → After t R (Selects found) (query sys select w).0 (view (query sys select w).1)
  unfolding query
  query-After {A} t R open_r select found told w h =
      named (exec sys set_names w).0 (exec sys set_names w).1 (exec-After t R open_r set_names w h)
    where
      same : (n : ℕ) (s s' : PartState) → R s → Executed set_names n s s' → R s'
      same n s s' h (inl (e, z, m)) = subst R (sym e) h
      same n s s' h (inr (now, m, e)) = subst R (sym e) h

      after_names : Option ℕ → W → Option (List A) × W
      after_names o v = elim o [ none ↦ (none, v) | some n ↦ prepared sys select v ]

      named :
          (o : Option ℕ) (v : W)
          → After t R (Executed set_names) o (view v)
          → After t R (Selects found) (after_names o v).0 (view (after_names o v).1)
      named none v h = h
      named (some n) v (s, h, e) =
          prepared-After t R open_r select (Selects found) told v (same n s (view v) h e)
