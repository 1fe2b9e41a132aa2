-- ===== src/Files/Invariant.antt =====
-- What the file services rely on and keep: the reference count of a stored file is never below the
-- number of user files that name it, and what file_info names is in storage.
pub mod Steps
use package.text.Mathlib.Text.{◌==◌ as str_eq}
use hydra_fs.Prelude.{
  ℕ, suc, ◌≡◌, refl, subst, ◌⊎◌, inl, inr, Bool, true, Option, none, some, String, List, [], ◌∷◌,
  if◌then◌else◌,
}
use hydra_fs.Prelude.Int.{AtLeast}
use hydra_fs.Backend.Contract.{FileInfo, UserFile, Tables, State}

-- The rows of user_file_list with this md5.
unfoldable pub refs : String → List UserFile → ℕ
refs md5 [] = 0
refs md5 (r ∷ rs) = if str_eq r.md5 md5 then suc (refs md5 rs) else refs md5 rs

-- `n` references are covered by the row of file_info.
abbrev pub Covers : ℕ → Option FileInfo → Type 0
Covers n none = n ≡ 0
Covers n (some i) = AtLeast n i.count

-- The counts cover the references, with one reference to spare for `spare`.
abbrev pub extra : Option String → String → ℕ → ℕ
extra none md5 n = n
extra (some spare) md5 n = if str_eq spare md5 then suc n else n

pub record Sound (spare : Option String) (t : Tables) (stored : String → Bool) : Type 0 where
  pub counted : (md5 : String) → Covers (extra spare md5 (refs md5 t.user_files)) (t.file_info md5)
  pub kept : (md5 : String) (i : FileInfo) → t.file_info md5 ≡ some i → stored i.file_id ≡ true
  pub distinct :
      (md5 md5' : String) (i j : FileInfo)
      → t.file_info md5 ≡ some i
      → t.file_info md5' ≡ some j
      → i.file_id ≡ j.file_id
      → md5 ≡ md5'

-- The state is sound, and so is the one that a rollback would go back to.
pub record Safe (spare : Option String) (s : State) : Type 0 where
  pub now : Sound spare s.tables s.stored
  pub before : (t : Tables) → s.saved ≡ some t → Sound none t s.stored

abbrev pub IsSafe : State → Type 0
IsSafe = Safe none

-- The file with this md5 has a row, and what the row names is in storage.
abbrev pub IsKept : String → State → Type 0
IsKept md5 s = (i : FileInfo) × (s.tables.file_info md5 ≡ some i) × (s.stored i.file_id ≡ true)

pub IsKept-listed :
    (md5 : String) (s : State) → IsSafe s → (refs md5 s.tables.user_files ≡ 0) ⊎ IsKept md5 s
IsKept-listed md5 s h = by_row (s.tables.file_info md5) refl
  where
    by_row :
        (o : Option FileInfo)
        → s.tables.file_info md5 ≡ o
        → (refs md5 s.tables.user_files ≡ 0) ⊎ IsKept md5 s
    by_row none e = inl (subst (Covers (refs md5 s.tables.user_files)) e (h.now.counted md5))
    by_row (some i) e = inr (i, e, h.now.kept md5 i e)
