-- ===== src/Text/Search.antt =====
-- `memstr` and `strstr` of common/util_cgi.c find the first occurrence.
use hydra_fs.Prelude.{
  ℕ, zero, suc, ◌+◌, ◌-◌, ◌≤◌, ◌<◌, ◌≡◌, ◌≢◌, refl, true, false, ap, Option, none, some, [], ◌∷◌,
  ◌++◌, arith, length, length-append, length-drop, drop,
}
use hydra_fs.Text.{Bytes, same_first, starts_with, memstr_loop, memstr}

-- `sub` stands in `s` at offset `k`.
abbrev pub Occurs : Bytes → Bytes → ℕ → Type 0
Occurs sub s k = (rest : Bytes) × (drop k s ≡ sub ++ rest)

pub starts_with-append : (sub rest : Bytes) → starts_with sub (sub ++ rest) ≡ true
unfolding starts_with
starts_with-append [] rest = refl
starts_with-append (c ∷ sub) rest = ground (arith, starts_with-append sub rest)

pub append_of_starts_with :
    (sub s : Bytes) → starts_with sub s ≡ true → (rest : Bytes) × (s ≡ sub ++ rest)
unfolding starts_with
append_of_starts_with [] s h = (s, refl)
append_of_starts_with (c ∷ sub) [] h = cc
append_of_starts_with (c ∷ sub) (d ∷ s) h =
    let t = append_of_starts_with sub s (ground arith) in (t.0, ground (arith, t.1))

pub starts_with-length : (sub s : Bytes) → starts_with sub s ≡ true → length sub ≤ length s
unfolding starts_with
starts_with-length [] s h = omega arith
starts_with-length (c ∷ sub) [] h = cc
starts_with-length (c ∷ sub) (d ∷ s) h = ground (arith, starts_with-length sub s)

loop_from : (n i m : ℕ) (cur sub : Bytes) → memstr_loop n i cur sub ≡ some m → i ≤ m
unfolding memstr_loop
loop_from zero i m cur sub h = cc
loop_from (suc n) i m [] sub h = cc
loop_from (suc n) i m (c ∷ cur) sub h = ground (arith, loop_from n (i + 1) m cur sub)

loop_hit :
    (n i k m : ℕ) (cur : Bytes) (d : ℕ) (sub : Bytes)
    → memstr_loop n i cur (d ∷ sub) ≡ some m
    → k + i ≡ m
    → starts_with (d ∷ sub) (drop k cur) ≡ true
unfolding memstr_loop same_first
loop_hit zero i k m cur d sub h e = cc
loop_hit (suc n) i k m [] d sub h e = cc
loop_hit (suc n) i zero m (c ∷ cur) d sub h e = ground (arith, loop_from n (i + 1) m cur (d ∷ sub))
loop_hit (suc n) i (suc k) m (c ∷ cur) d sub h e = ground (arith, loop_hit n (i + 1) k m cur d sub)

loop_before :
    (n i j m : ℕ) (cur : Bytes) (d : ℕ) (sub : Bytes)
    → memstr_loop n i cur (d ∷ sub) ≡ some m
    → j + i < m
    → starts_with (d ∷ sub) (drop j cur) ≡ false
unfolding memstr_loop same_first starts_with
loop_before zero i j m cur d sub h e = cc
loop_before (suc n) i j m [] d sub h e = cc
loop_before (suc n) i zero m (c ∷ cur) d sub h e = ground arith
loop_before (suc n) i (suc j) m (c ∷ cur) d sub h e =
    ground (arith, loop_before n (i + 1) j m cur d sub)

loop_miss :
    (n i j : ℕ) (cur : Bytes) (d : ℕ) (sub : Bytes)
    → memstr_loop n i cur (d ∷ sub) ≡ none
    → j < n
    → starts_with (d ∷ sub) (drop j cur) ≡ false
unfolding memstr_loop same_first starts_with
loop_miss zero i j cur d sub h l = absurd (omega arith)
loop_miss (suc n) i zero [] d sub h l = refl
loop_miss (suc n) i (suc j) [] d sub h l = refl
loop_miss (suc n) i zero (c ∷ cur) d sub h l = ground arith
loop_miss (suc n) i (suc j) (c ∷ cur) d sub h l = ground (arith, loop_miss n (i + 1) j cur d sub)

-- What a search for `sub` in `s` has to answer.
abbrev pub Finds : Bytes → Bytes → Option ℕ → Type 0
Finds sub s none = (k : ℕ) → ¬ Occurs sub s k
Finds sub s (some k) = Occurs sub s k × ((j : ℕ) → j < k → ¬ Occurs sub s j)

not-Occurs : (sub s : Bytes) (k : ℕ) → starts_with sub (drop k s) ≡ false → ¬ Occurs sub s k
not-Occurs sub s k h (rest, e) =
    let t : starts_with sub (drop k s) ≡ true = rw e (starts_with-append sub rest) in cc

Occurs-length :
    (d : ℕ) (sub s : Bytes) (k : ℕ) → Occurs (d ∷ sub) s k → k + length (d ∷ sub) ≤ length s
Occurs-length d sub s k (rest, e) =
    omega (arith, ap length e, length-append {0} (d ∷ sub) rest, length-drop {0} k s)

module _ (full : Bytes) (d : ℕ) (sub : Bytes) where
  Finds-of :
      (o : Option ℕ)
      → memstr_loop (length full + 1 - length (d ∷ sub)) 0 full (d ∷ sub) ≡ o
      → Finds (d ∷ sub) full o
  Finds-of none e = λ k found.
      not-Occurs (d ∷ sub) full k
        (loop_miss (length full + 1 - length (d ∷ sub)) 0 k full d sub e
          (omega (arith, Occurs-length d sub full k found)))
        found
  Finds-of (some m) e = (
    append_of_starts_with (d ∷ sub) (drop m full)
        (loop_hit (length full + 1 - length (d ∷ sub)) 0 m m full d sub e (omega arith)),
    λ j l.
        not-Occurs (d ∷ sub) full j
          (loop_before (length full + 1 - length (d ∷ sub)) 0 j m full d sub e (omega arith)),
  )

-- `memstr` returns the first place where a non-empty `sub` stands, and NULL only where there is
-- none.
pub memstr-Finds : (full sub : Bytes) → sub ≢ [] → Finds sub full (memstr full sub)
unfolding memstr
memstr-Finds full [] h = absurd (h refl)
memstr-Finds [] (d ∷ sub) h = λ k found. absurd (omega (arith, Occurs-length d sub [] k found))
memstr-Finds (c ∷ full) (d ∷ sub) h = Finds-of (c ∷ full) d sub _ refl
