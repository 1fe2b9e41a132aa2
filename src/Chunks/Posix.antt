-- ===== src/Chunks/Posix.antt =====
-- What POSIX says of the calls that writing a chunk makes, over the files by their paths.
use package.text.Mathlib.Text.{◌==◌ as str_eq}
use package.text.Mathlib.TextEquality.{eq_iff}
use hydra_fs.Prelude.{
  ℕ, ◌≤◌, ◌≡◌, ◌≢◌, refl, true, Bool-cases, ◌⊎◌, inl, inr, Option, none, some, String, [], ◌++◌,
  take, length, if◌then◌else◌,
}
use hydra_fs.Prelude.Int.{ℤ, pos, negsuc}
use hydra_fs.Text.{Bytes}
use hydra_fs.Chunks.{Linked, linked, exists, refused, FileSystem}

-- The regular files by their paths.
abbrev pub Disk : Type 0
Disk = String → Option Bytes

unfoldable pub put : String → Option Bytes → Disk → Disk
put path c v q = if str_eq path q then c else v q

abbrev pub Made : Option String → Disk → Disk → Type 0
Made none v v' = v' ≡ v
Made (some path) v v' = v' ≡ put path (some []) v

abbrev pub Wrote : ℤ → String → Bytes → Disk → Disk → Type 0
Wrote (pos n) path buf v v' =
    (n ≤ length buf) × ((c : Bytes) → v path ≡ some c → v' ≡ put path (some (c ++ take n buf)) v)
Wrote (negsuc n) path buf v v' = v' ≡ v

abbrev pub Links : Linked → String → String → Disk → Disk → Type 0
Links linked old new v v' = (v new ≡ none) × (v' ≡ put new (v old) v)
Links exists old new v v' = v' ≡ v
Links refused old new v v' = v' ≡ v

abbrev pub Holds : Disk → String → ℕ → Type 0
Holds v path n = (c : Bytes) × (v path ≡ some c) × (length c ≡ n)

-- What POSIX says of the calls.
pub record Posix {W : Type 0} (fs : FileSystem W) (view : W → Disk) : Type 0 where
  pub mkstemp :
      (dir : String) (w : W) → Made (fs.mkstemp dir w).0 (view w) (view (fs.mkstemp dir w).1)
  pub write :
      (path : String) (buf : Bytes) (w : W)
      → Wrote (fs.write path buf w).0 path buf (view w) (view (fs.write path buf w).1)
  pub fsync : (path : String) (w : W) → view (fs.fsync path w).1 ≡ view w
  pub close : (path : String) (w : W) → view (fs.close path w).1 ≡ view w
  pub link :
      (old new : String) (w : W)
      → Links (fs.link old new w).0 old new (view w) (view (fs.link old new w).1)
  pub unlink :
      (path : String) (w : W)
      → (view (fs.unlink path w) ≡ put path none (view w)) ⊎ (view (fs.unlink path w) ≡ view w)
  pub stat : (path : String) (w : W) → view (fs.stat path w).1 ≡ view w
  pub size : (path : String) (w : W) (n : ℕ) → (fs.stat path w).0 ≡ some n → Holds (view w) path n

pub put_other : (p q : String) (c : Option Bytes) (v : Disk) → p ≢ q → put p c v q ≡ v q
unfolding put
put_other p q c v other = elim (Bool-cases (str_eq p q)) [
  | inl t ↦ absurd (other ((eq_iff p q).0 t))
  | inr f ↦ rw f refl
]

pub put_same : (p : String) (c : Option Bytes) (v : Disk) → put p c v p ≡ c
unfolding put
put_same p c v = let itself : str_eq p p ≡ true = (eq_iff p p).1 refl in rw itself refl
