-- ===== src/Pictures/Invariant.antt =====
-- What the sharing of pictures relies on: the count of a file covers its rows in user_file_list and
-- its shared pictures together.
use package.text.Mathlib.Text.{◌==◌ as str_eq}
use hydra_fs.Prelude.{
  ℕ, suc, ◌+◌, ◌-◌, ◌≡◌, refl, sym, subst, ◌⊎◌, Option, none, some, String, List, [], ◌∷◌,
  if◌then◌else◌,
}
use hydra_fs.Backend.Contract.{Picture, Tables, State, IsSettled, rolled_back, or_else}
use hydra_fs.Files.Invariant.{refs, Covers, IsSafe, IsKept, IsKept-listed}

-- The shared pictures with this md5.
unfoldable pub shown : String → List Picture → ℕ
shown md5 [] = 0
shown md5 (r ∷ rs) = if str_eq r.md5 md5 then suc (shown md5 rs) else shown md5 rs

-- One picture of `owed` has no reference yet.
abbrev pub less : Option String → String → ℕ → ℕ
less none md5 n = n
less (some owed) md5 n = if str_eq owed md5 then n - 1 else n

pub record Shared (owed : Option String) (s : State) : Type 0 where
  pub safe : IsSafe s
  pub settled : IsSettled s
  pub covered :
      (k : String)
      → Covers
          (refs k s.tables.user_files + less owed k (shown k s.tables.pictures))
          (s.tables.file_info k)

abbrev pub IsShared : State → Type 0
IsShared = Shared none

-- The count of each file covers the rows of the users, and a file that a user lists is kept. Less
-- than `IsSafe`: a row of file_info that nobody lists may have lost its file.
abbrev pub IsListed : State → Type 0
IsListed s =
    (k : String)
    → Covers (refs k s.tables.user_files) (s.tables.file_info k)
      × ((refs k s.tables.user_files ≡ 0) ⊎ IsKept k s)

pub IsListed-safe : (s : State) → IsSafe s → IsListed s
IsListed-safe s h k = (h.now.counted k, IsKept-listed k s h)

-- Nothing is to be rolled back.
pub rolled_settled : (s : State) → IsSettled s → rolled_back s ≡ s
rolled_settled s e = subst (λ o. rolled (or_else o s.tables) ≡ record s { saved = o }) (sym e) refl
  where
    rolled : Tables → State
    rolled t = record s { tables = t; saved = none }
