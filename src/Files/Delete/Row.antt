-- ===== src/Files/Delete/Row.antt =====
-- How the transaction of a deletion leaves a reference to spare.
use package.text.Mathlib.Text.{◌==◌ as str_eq}
use package.text.Mathlib.TextEquality.{eq_iff}
use hydra_fs.Prelude.{
  suc, ◌+◌, ◌≤◌, ◌≡◌, refl, subst, true, false, Option, none, some, String, List, [], ◌∷◌, arith,
  inl, inr, Bool-cases, ◌⊎◌,
}
use hydra_fs.Backend.{start_transaction, commit, delete_user_file, delete_share}
use hydra_fs.Backend.Contract.{UserFile, State, apply, apply_tables, matches, without_rows, is_row}
use hydra_fs.Files.Invariant.{refs, extra, Sound, Safe, IsSafe}
use hydra_fs.Files.Invariant.Steps.{Covers-less}

pub Safe-start : (s : State) → IsSafe s → IsSafe (apply start_transaction s)
unfolding apply
Safe-start s h = record {
  now = h.now;
  before = λ t e. subst (λ t. Sound none t s.stored) (ground arith) h.now;
}

pub Safe-commit : {spare : Option String} (s : State) → Safe spare s → Safe spare (apply commit s)
unfolding apply
Safe-commit s h = record { now = h.now; before = λ t e. cc }

pub saved-commit : (s : State) → (apply commit s).saved ≡ none
unfolding apply
saved-commit s = refl

pub Safe-delete_share :
    (user md5 name : String) (s : State) → IsSafe s → IsSafe (apply (delete_share user md5 name) s)
unfolding apply apply_tables
Safe-delete_share user md5 name s h = record {
  now = record { counted = h.now.counted; kept = h.now.kept; distinct = h.now.distinct };
  before = h.before;
}

-- A deletion leaves fewer references.
refs-without_rows :
    (k user md5 name : String) (rs : List UserFile)
    → refs k (without_rows user md5 name rs) ≤ refs k rs
unfolding refs without_rows
refs-without_rows k user md5 name [] = omega arith
refs-without_rows k user md5 name (r ∷ rs) = ground (arith, refs-without_rows k user md5 name rs)

-- The md5 of a row that is matched.
matched_md5 :
    (user md5 name : String) (r : UserFile)
    → is_row user md5 name r ≡ true
    → str_eq r.md5 md5 ≡ true
matched_md5 user md5 name r h = ground arith

refs-matches :
    (user md5 name : String) (rs : List UserFile)
    → refs md5 (without_rows user md5 name rs) + matches user md5 name rs ≡ refs md5 rs
unfolding refs without_rows matches
refs-matches user md5 name [] = refl
refs-matches user md5 name (r ∷ rs) = elim (Bool-cases (is_row user md5 name r)) [
  | inl e ↦
      let same = matched_md5 user md5 name r e in
      rw (e, same) (omega (arith, refs-matches user md5 name rs))
  | inr e ↦ rw e (ground (arith, refs-matches user md5 name rs))
]

module _ (user md5 name : String) (s : State) (h : IsSafe s) where
  -- The rows that are left, with `spare` references to spare.
  fewer :
      (spare : Option String)
      → ((k : String)
          → extra spare k (refs k (without_rows user md5 name s.tables.user_files))
            ≤ refs k s.tables.user_files)
      → Safe spare (apply (delete_user_file user md5 name) s)
  unfolding apply apply_tables
  fewer spare less = record {
    now = record {
      counted = λ k. Covers-less _ _ _ (less k) (h.now.counted k);
      kept = h.now.kept;
      distinct = h.now.distinct;
    };
    before = h.before;
  }

  pub IsSafe-delete_user_file : IsSafe (apply (delete_user_file user md5 name) s)
  IsSafe-delete_user_file = fewer none (λ k. refs-without_rows k user md5 name s.tables.user_files)

  -- A row that is deleted leaves a reference to spare.
  pub Safe-delete_user_file :
      matches user md5 name s.tables.user_files ≡ 1
      → Safe (some md5) (apply (delete_user_file user md5 name) s)
  Safe-delete_user_file one = fewer (some md5) (λ k. by_md5 k (Bool-cases (str_eq md5 k)))
    where
      by_md5 :
          (k : String)
          → (str_eq md5 k ≡ true) ⊎ (str_eq md5 k ≡ false)
          → extra (some md5) k (refs k (without_rows user md5 name s.tables.user_files))
            ≤ refs k s.tables.user_files
      by_md5 k (inl t) =
          let same : md5 ≡ k = (eq_iff md5 k).0 t in
          rw t (
            subst
              (λ k.
                suc (refs k (without_rows user md5 name s.tables.user_files))
                ≤ refs k s.tables.user_files)
              same (omega (arith, refs-matches user md5 name s.tables.user_files)))
      by_md5 k (inr f) = rw f (refs-without_rows k user md5 name s.tables.user_files)

-- A reference to spare, and no transaction that could be rolled back.
abbrev pub Freed : String → State → Type 0
Freed md5 s = Safe (some md5) s × (s.saved ≡ none)
