-- ===== src/Files/Delete/Release.antt =====
-- How giving back a reference, and removing a file without any, keep the invariant.
use package.text.Mathlib.Text.{◌==◌ as str_eq}
use package.text.Mathlib.TextEquality.{eq_iff}
use hydra_fs.Prelude.{
  ℕ, suc, ◌≡◌, ◌≢◌, refl, sym, subst, Bool, true, false, Option, none, some, String, if◌then◌else◌,
  arith, inl, inr, Bool-cases, ◌⊎◌,
}
use hydra_fs.Prelude.Int.{ℤ, pos, negsuc, AtLeast, eq_ℤ}
use hydra_fs.Backend.{delete_file_info, update_file_count}
use hydra_fs.Backend.Contract.{FileInfo, State, apply, apply_tables, with_count}
use hydra_fs.Files.Invariant.{refs, Covers, Safe, IsSafe}
use hydra_fs.Files.Invariant.Steps.{Safe-update_count}
use hydra_fs.Files.Delete.{lowered}

lowered_cover : (n : ℕ) (c : ℤ) → AtLeast (suc n) c → AtLeast n (lowered c)
unfolding lowered
lowered_cover n (pos c) h = ground arith
lowered_cover n (negsuc c) h = absurd (omega arith)

-- The reference to spare is given back.
pub Safe-lower_file_count :
    (md5 : String) (i : FileInfo) (s : State)
    → s.tables.file_info md5 ≡ some i
    → Safe (some md5) s
    → IsSafe (apply (update_file_count (lowered i.count) md5) s)
Safe-lower_file_count md5 i s e h =
    Safe-update_count md5 (lowered i.count) s (some md5) none h
      (λ k. counted k (Bool-cases (str_eq md5 k)))
  where
    counted :
        (k : String)
        → (str_eq md5 k ≡ true) ⊎ (str_eq md5 k ≡ false)
        → Covers (refs k s.tables.user_files) (
            if str_eq md5 k
            then with_count (lowered i.count) (s.tables.file_info k)
            else s.tables.file_info k)
    counted k (inl t) =
        let same : md5 ≡ k = (eq_iff md5 k).0 t in
        let found : s.tables.file_info k ≡ some i =
          subst (λ k. s.tables.file_info k ≡ some i) same e in
        let covered : Covers (suc (refs k s.tables.user_files)) (some i) =
          subst (Covers (suc (refs k s.tables.user_files))) found (rw t at (h.now.counted k)) in
        rw (t, found) (lowered_cover _ _ covered)
    counted k (inr f) = rw f (rw f at (h.now.counted k))

-- No user file names `md5`, and the tables to go back to, if any, are those.
pub record Unreferenced (md5 : String) (s : State) : Type 0 where
  pub safe : IsSafe s
  pub settled : s.saved ≡ none
  pub unnamed : refs md5 s.tables.user_files ≡ 0

cover_zero : (n : ℕ) (c : ℤ) → AtLeast n c → eq_ℤ c (pos 0) ≡ true → n ≡ 0
cover_zero n (pos c) h z = ground arith
cover_zero n (negsuc c) h z = cc

-- A count that falls to 0 had one reference, the one to spare.
pub refs-lowered :
    (md5 : String) (i : FileInfo) (s : State)
    → s.tables.file_info md5 ≡ some i
    → Safe (some md5) s
    → eq_ℤ (lowered i.count) (pos 0) ≡ true
    → refs md5 s.tables.user_files ≡ 0
refs-lowered md5 i s e h zeroed =
    let itself : str_eq md5 md5 ≡ true = (eq_iff md5 md5).1 refl in
    let covered : Covers (suc (refs md5 s.tables.user_files)) (some i) =
      subst (Covers (suc (refs md5 s.tables.user_files))) e (rw itself at (h.now.counted md5)) in
    cover_zero _ _ (lowered_cover _ _ covered) zeroed

-- A row that is still there is not the one deleted.
left_over :
    (b : Bool) (o : Option FileInfo) (j : FileInfo)
    → (if b then none else o) ≡ some j
    → (b ≡ false) × (o ≡ some j)
left_over true o j e = cc
left_over false o j e = (refl, e)

-- The row of a file without references may go.
pub Safe-delete_file_info :
    (md5 : String) (s : State) → Unreferenced md5 s → IsSafe (apply (delete_file_info md5) s)
unfolding apply apply_tables
Safe-delete_file_info md5 s h = record {
  now = record {
    counted = λ k. counted k (Bool-cases (str_eq md5 k));
    kept = λ k j f. h.safe.now.kept k j (left_over _ _ j f).1;
    distinct = λ k k' j j' f f' q.
        h.safe.now.distinct k k' j j' (left_over _ _ j f).1 (left_over _ _ j' f').1 q;
  };
  before = h.safe.before;
}
  where
    counted :
        (k : String)
        → (str_eq md5 k ≡ true) ⊎ (str_eq md5 k ≡ false)
        → Covers (refs k s.tables.user_files) (if str_eq md5 k then none else s.tables.file_info k)
    counted k (inl t) =
        rw t (subst (λ k. refs k s.tables.user_files ≡ 0) ((eq_iff md5 k).0 t) h.unnamed)
    counted k (inr f) = rw f (h.safe.now.counted k)

-- No row of file_info names the file.
abbrev pub IsUnused : String → State → Type 0
IsUnused id s = (k : String) (i : FileInfo) → s.tables.file_info k ≡ some i → i.file_id ≢ id

pub IsUnused-delete_file_info :
    (md5 : String) (i : FileInfo) (s : State)
    → s.tables.file_info md5 ≡ some i
    → IsSafe s
    → IsUnused i.file_id (apply (delete_file_info md5) s)
unfolding apply apply_tables
IsUnused-delete_file_info md5 i s e h k j f same =
    let (other, there) = left_over (str_eq md5 k) _ j f in
    let equal : str_eq md5 k ≡ true =
      (eq_iff md5 k).1 (sym (h.now.distinct k md5 j i there e same)) in
    cc

pub saved-delete_file_info :
    (md5 : String) (s : State) → (apply (delete_file_info md5) s).saved ≡ s.saved
unfolding apply
saved-delete_file_info md5 s = refl

-- A file that no row names may leave storage.
pub Safe-delete_stored :
    (id : String) (b : Bool) (s : State)
    → IsSafe s
    → s.saved ≡ none
    → IsUnused id s
    → IsSafe (record s { stored = λ k. if str_eq id k then b else s.stored k })
Safe-delete_stored id b s h closed unused = record {
  now = record {
    counted = h.now.counted;
    kept = λ k i e. kept k i e (Bool-cases (str_eq id i.file_id));
    distinct = h.now.distinct;
  };
  before = λ t e. cc;
}
  where
    kept :
        (k : String) (i : FileInfo)
        → s.tables.file_info k ≡ some i
        → (str_eq id i.file_id ≡ true) ⊎ (str_eq id i.file_id ≡ false)
        → (if str_eq id i.file_id then b else s.stored i.file_id) ≡ true
    kept k i e (inl t) = absurd (unused k i e (sym ((eq_iff id i.file_id).0 t)))
    kept k i e (inr f) = rw f (h.now.kept k i e)
