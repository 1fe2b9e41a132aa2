-- ===== src/Text/Trim.antt =====
-- `trim_space` of common/util_cgi.c cuts exactly the white space at both ends.
use hydra_fs.Prelude.{
  ℕ, zero, suc, ◌+◌, ◌-◌, ◌≤◌, ◌<◌, ◌≡◌, refl, true, false, [], ◌∷◌, arith, length, get_or, take,
  drop,
}
use native.Mathlib.Decide.{dec_lt}
use hydra_fs.Text.{Bytes, isspace, skip_front, skip_back, trim_space}

abbrev pub at : Bytes → ℕ → ℕ
at s k = get_or s k 0

skip_front_bounds : (s : Bytes) (i : ℕ) → (i ≤ skip_front s i) × (skip_front s i ≤ i + length s)
unfolding skip_front
skip_front_bounds [] i = omega arith
skip_front_bounds (c ∷ s) i = ground (arith, skip_front_bounds s (i + 1))

skip_front_space : (s : Bytes) (i k : ℕ) → k + i < skip_front s i → isspace (at s k) ≡ true
unfolding skip_front
skip_front_space [] i k h = absurd (omega arith)
skip_front_space (c ∷ s) i zero h = ground arith
skip_front_space (c ∷ s) i (suc k) h = ground (arith, skip_front_space s (i + 1) k)

skip_front_stop :
    (s : Bytes) (i k : ℕ) → k + i ≡ skip_front s i → k < length s → isspace (at s k) ≡ false
unfolding skip_front
skip_front_stop [] i k e h = absurd (omega arith)
skip_front_stop (c ∷ s) i zero e h = ground (arith, skip_front_bounds s (i + 1))
skip_front_stop (c ∷ s) i (suc k) e h = ground (arith, skip_front_stop s (i + 1) k)

skip_back-le : (s : Bytes) (i j : ℕ) → skip_back s i j ≤ j
unfolding skip_back
skip_back-le s i zero = omega arith
skip_back-le s i (suc j) = ground (arith, skip_back-le s i j)

le-skip_back : (s : Bytes) (i j : ℕ) → i ≤ j → i ≤ skip_back s i j
unfolding skip_back
le-skip_back s i zero h = h
le-skip_back s i (suc j) h = ground (arith, le-skip_back s i j)

skip_back_space : (s : Bytes) (i j k : ℕ) → skip_back s i j < k → k ≤ j → isspace (at s k) ≡ true
unfolding skip_back
skip_back_space s i zero k l h = absurd (omega arith)
skip_back_space s i (suc j) k l h = ground (arith, skip_back_space s i j k)

skip_back_stop :
    (s : Bytes) (i j : ℕ) → i < skip_back s i j → isspace (at s (skip_back s i j)) ≡ false
unfolding skip_back
skip_back_stop s i zero h = absurd (omega arith)
skip_back_stop s i (suc j) h = ground (arith, skip_back_stop s i j)

-- `r` is `s` without the white space at its ends: what is left out is white space, and what is kept
-- neither begins nor ends with it.
pub record IsTrimOf (s r : Bytes) : Type 0 where
  pub start : ℕ
  pub count : ℕ
  pub inside : start + count ≤ length s
  pub kept : r ≡ take count (drop start s)
  pub front : (k : ℕ) → k < start → isspace (at s k) ≡ true
  pub back : (k : ℕ) → start + count ≤ k → k < length s → isspace (at s k) ≡ true
  pub first : 0 < count → isspace (at s start) ≡ false
  pub last : 0 < count → isspace (at s (start + count - 1)) ≡ false

last_kept :
    (s : Bytes) (i j : ℕ)
    → i ≤ j
    → (i < j → isspace (at s j) ≡ false)
    → isspace (at s i) ≡ false
    → isspace (at s (i + (j + 1 - i) - 1)) ≡ false
last_kept s i j h after here =
    let e : i + (j + 1 - i) - 1 ≡ j = omega arith in rw e (pick j h after)
  where
    pick : (j : ℕ) → i ≤ j → (i < j → isspace (at s j) ≡ false) → isspace (at s j) ≡ false
    pick j h after = elim (dec_lt i j) [
      | yes l ↦ after l
      | no g ↦ let e : j ≡ i = omega arith in rw e here
    ]

-- `trim_space` cuts the white space at both ends and nothing else.
pub trim_space-IsTrimOf : (s : Bytes) → IsTrimOf s (trim_space s)
unfolding trim_space
trim_space-IsTrimOf [] = record {
  start = 0;
  count = 0;
  inside = omega arith;
  kept = refl;
  front = λ k h. absurd (omega arith);
  back = λ k l h. absurd (omega arith);
  first = λ h. absurd (omega arith);
  last = λ h. absurd (omega arith);
}
trim_space-IsTrimOf (c ∷ s) =
    let t : Bytes = c ∷ s in
    let i : ℕ = skip_front (c ∷ s) 0 in
    let j : ℕ = skip_back (c ∷ s) i (length s) in
    let bounds : (0 ≤ i) × (i ≤ 0 + length t) = skip_front_bounds t 0 in
    let top : j ≤ length s = skip_back-le t i (length s) in
    let low : i ≤ length s → i ≤ j = le-skip_back t i (length s) in
    let stop : i ≤ length s → isspace (at t i) ≡ false =
      λ h. skip_front_stop t 0 i (omega arith) (omega arith) in
    record {
      start = i;
      count = j + 1 - i;
      inside = omega arith;
      kept = refl;
      front = λ k h. skip_front_space t 0 k (omega arith);
      back = λ k l h. skip_back_space t i (length s) k (omega arith) (omega arith);
      first = λ h. stop (omega arith);
      last =
          λ h. last_kept t i j (omega arith) (skip_back_stop t i (length s)) (stop (omega arith));
    }
