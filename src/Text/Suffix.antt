-- ===== src/Text/Suffix.antt =====
-- `get_file_suffix` of common/util_cgi.c returns what stands behind the last dot.
use hydra_fs.Prelude.{
  ℕ, zero, suc, ◌+◌, ◌-◌, ◌≤◌, ◌<◌, ◌≡◌, ◌≢◌, refl, [], ap, ◌∷◌, ◌++◌, arith, length, length-append,
  get_or, take, drop,
}
use hydra_fs.Text.{Bytes, find_dot, get_file_suffix, null_suffix, suffix_behind}

abbrev pub NoDot : Bytes → Type 0
NoDot [] = Unit {0}
NoDot (c ∷ s) = (c ≢ b'.') × NoDot s

at-NoDot : (s : Bytes) (k : ℕ) → NoDot s → get_or s k 0 ≢ b'.'
at-NoDot [] k h = λ e. absurd (omega arith)
at-NoDot (c ∷ s) zero h = h.0
at-NoDot (c ∷ s) (suc k) h = at-NoDot s k h.1

find_dot_none : (s : Bytes) (k : ℕ) → NoDot s → get_or s (find_dot s k) 0 ≢ b'.'
find_dot_none s k h = at-NoDot s (find_dot s k) h

at_middle : (stem : Bytes) (c : ℕ) (ext : Bytes) → get_or (stem ++ c ∷ ext) (length stem) 0 ≡ c
at_middle [] c ext = refl
at_middle (d ∷ stem) c ext = at_middle stem c ext

at_behind :
    (stem ext : Bytes) (k : ℕ)
    → NoDot ext
    → length stem < k
    → get_or (stem ++ b'.' ∷ ext) k 0 ≢ b'.'
at_behind [] ext zero h l = absurd (omega arith)
at_behind [] ext (suc k) h l = at-NoDot ext k h
at_behind (d ∷ stem) ext zero h l = absurd (omega arith)
at_behind (d ∷ stem) ext (suc k) h l = at_behind stem ext k h (omega arith)

find_dot_last :
    (stem ext : Bytes) (k : ℕ)
    → NoDot ext
    → length stem ≤ k
    → find_dot (stem ++ b'.' ∷ ext) k ≡ length stem
unfolding find_dot
find_dot_last stem ext zero h l = omega arith
find_dot_last stem ext (suc k) h l = ground (
  arith,
  find_dot_last stem ext k h,
  at_behind stem ext (suc k) h,
  at_middle stem b'.' ext,
  ap (λ i. get_or (stem ++ b'.' ∷ ext) i 0),
)

drop_behind : (stem : Bytes) (c : ℕ) (ext : Bytes) → drop (length stem + 1) (stem ++ c ∷ ext) ≡ ext
drop_behind stem c ext = let e : length stem + 1 ≡ suc (length stem) = omega arith in rw e (go stem)
  where
    go : (stem : Bytes) → drop (suc (length stem)) (stem ++ c ∷ ext) ≡ ext
    go [] = refl
    go (d ∷ stem) = go stem

take_all : (n : ℕ) (s : Bytes) → n ≡ length s → take n s ≡ s
take_all zero [] h = refl
take_all zero (c ∷ s) h = absurd (omega arith)
take_all (suc n) [] h = absurd (omega arith)
take_all (suc n) (c ∷ s) h = ap (λ t. c ∷ t) (take_all n s (omega arith))

-- The name behind the last dot, or `null` where that is empty.
abbrev pub or_null : Bytes → Bytes
or_null [] = null_suffix
or_null (c ∷ s) = c ∷ s

suffix_behind-append :
    (stem : Bytes) (c : ℕ) (ext : Bytes)
    → suffix_behind (stem ++ c ∷ ext) (length stem) ≡ or_null ext
unfolding suffix_behind
suffix_behind-append stem c [] = ground (arith, length-append stem (c ∷ []))
suffix_behind-append stem c (d ∷ ext) = rw (drop_behind stem c (d ∷ ext)) (
    ground (
      arith,
      length-append stem (c ∷ d ∷ ext),
      take_all (length (stem ++ c ∷ d ∷ ext) - (length stem + 1)) (d ∷ ext),
    ))

-- Of `stem.ext` with no dot in `ext` the suffix is `ext`, or `null` if `ext` is empty; of a name
-- with no dot it is `null`.
pub get_file_suffix_lem :
    (stem ext : Bytes)
    → NoDot ext
    → (get_file_suffix (stem ++ b'.' ∷ ext) ≡ or_null ext) × (get_file_suffix ext ≡ null_suffix)
unfolding get_file_suffix
get_file_suffix_lem stem ext h = (
  rw (
    find_dot_last stem ext (length (stem ++ b'.' ∷ ext)) h
        (omega (arith, length-append {0} stem (b'.' ∷ ext))),
    get_file_suffix,
    at_middle stem b'.' ext,
    suffix_behind-append stem b'.' ext,
  ),
  ground (arith, find_dot_none ext (length ext) h),
)
