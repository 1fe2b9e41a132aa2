-- ===== src/Text/Replace.antt =====
-- `string_replace` of common/util_cgi.c replaces every occurrence from the left.
use hydra_fs.Prelude.{
  ℕ, zero, suc, ◌≤◌, ◌≡◌, ◌≢◌, refl, true, false, [], ap, ◌∷◌, ◌++◌, arith, inl, inr, length,
  length-drop, drop, Bool-cases,
}
use hydra_fs.Text.{Bytes, same_first, starts_with, replace_loop, string_replace}

-- Reading from the left, an occurrence of `find` is replaced and passed over, and any other byte
-- is kept.
pub data Replaced (find repl : Bytes) : Bytes → Bytes → Type 0 where
  done : Replaced find repl [] []
  hit : {s t o : Bytes} → s ≡ find ++ t → Replaced find repl t o → Replaced find repl s (repl ++ o)
  keep :
      {c : ℕ} {s o : Bytes}
      → starts_with find (c ∷ s) ≡ false
      → Replaced find repl s o
      → Replaced find repl (c ∷ s) (c ∷ o)

append-drop_of_starts_with :
    (sub s : Bytes) → starts_with sub s ≡ true → s ≡ sub ++ drop (length sub) s
unfolding starts_with
append-drop_of_starts_with [] s h = refl
append-drop_of_starts_with (c ∷ sub) [] h = cc
append-drop_of_starts_with (c ∷ sub) (d ∷ s) h = ground (arith, append-drop_of_starts_with sub s)

module _ (n c : ℕ) (src : Bytes) (d : ℕ) (find repl : Bytes) where
  loop_hit :
      starts_with (d ∷ find) (c ∷ src) ≡ true
      → replace_loop (suc n) (c ∷ src) (d ∷ find) repl
        ≡ repl ++ replace_loop n (drop (length find) src) (d ∷ find) repl
  unfolding replace_loop same_first starts_with
  loop_hit e = ground arith

  loop_keep :
      starts_with (d ∷ find) (c ∷ src) ≡ false
      → replace_loop (suc n) (c ∷ src) (d ∷ find) repl ≡ c ∷ replace_loop n src (d ∷ find) repl
  unfolding replace_loop same_first starts_with
  loop_keep e = ground arith

loop_replaces :
    (n : ℕ) (src : Bytes) (d : ℕ) (find repl : Bytes)
    → length src ≤ n
    → Replaced (d ∷ find) repl src (replace_loop n src (d ∷ find) repl)
unfolding replace_loop
loop_replaces zero [] d find repl h = done
loop_replaces zero (c ∷ src) d find repl h = absurd (omega arith)
loop_replaces (suc n) [] d find repl h = done
loop_replaces (suc n) (c ∷ src) d find repl h =
    elim (Bool-cases (starts_with (d ∷ find) (c ∷ src))) [
      | inl e ↦ rw (loop_hit n c src d find repl e) (
          hit (append-drop_of_starts_with (d ∷ find) (c ∷ src) e) (
            loop_replaces n (drop (length find) src) d find repl
              (omega (arith, length-drop {0} (length find) src))))
      | inr e ↦
          rw (loop_keep n c src d find repl e)
            (keep e (loop_replaces n src d find repl (omega arith)))
    ]

loop_empty : (n : ℕ) (src repl : Bytes) → replace_loop n src [] repl ≡ src
unfolding replace_loop same_first
loop_empty zero src repl = refl
loop_empty (suc n) [] repl = refl
loop_empty (suc n) (c ∷ src) repl = ap (λ s. c ∷ s) (loop_empty n src repl)

-- A non-empty `find` is replaced everywhere, from the left and without overlap, and the fuel of the
-- model is enough; an empty `find` changes nothing.
pub string_replace-Replaced :
    (src find repl : Bytes)
    → (find ≢ [] → Replaced find repl src (string_replace src find repl))
      × (string_replace src [] repl ≡ src)
unfolding string_replace
string_replace-Replaced src [] repl = (λ h. absurd (h refl), loop_empty (length src) src repl)
string_replace-Replaced src (d ∷ find) repl = (
  λ h. loop_replaces (length src) src d find repl (omega arith),
  loop_empty (length src) src repl,
)
