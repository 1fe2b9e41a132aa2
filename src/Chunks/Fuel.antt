-- ===== src/Chunks/Fuel.antt =====
-- The loop of `write` needs no more rounds than there are bytes.
use hydra_fs.Prelude.{
  ℕ, zero, suc, ◌≤◌, ◌≡◌, refl, true, Bool-cases, inl, inr, String, [], ◌∷◌, drop, length,
  length-drop, arith,
}
use hydra_fs.Prelude.Int.{ℤ, pos, negsuc, positive}
use hydra_fs.Text.{Bytes}
use hydra_fs.Chunks.{FileSystem, amount, write_all}

positive-amount : (n : ℤ) → positive n ≡ true → 1 ≤ amount n
positive-amount (pos n) h = ground arith
positive-amount (negsuc n) h = cc

module _ {W : Type 0} (fs : FileSystem W) where
  -- With fuel for each byte, the loop ends as with any other such fuel: it is left only because all
  -- bytes are written or a call of `write` wrote none.
  pub write_all-enough :
      (fuel fuel' : ℕ) (path : String) (buf : Bytes) (w : W)
      → length buf ≤ fuel
      → length buf ≤ fuel'
      → write_all fs fuel path buf w ≡ write_all fs fuel' path buf w
  unfolding write_all
  write_all-enough fuel fuel' path [] w p q = refl
  write_all-enough zero fuel' path (c ∷ rest) w p q = absurd (omega arith)
  write_all-enough (suc fuel) zero path (c ∷ rest) w p q = absurd (omega arith)
  write_all-enough (suc fuel) (suc fuel') path (c ∷ rest) w p q =
      elim (Bool-cases (positive (fs.write path (c ∷ rest) w).0)) [
        | inl e ↦
            let some_bytes = positive-amount (fs.write path (c ∷ rest) w).0 e in
            let fewer = length-drop (amount (fs.write path (c ∷ rest) w).0) (c ∷ rest) in
            rw e (
              write_all-enough fuel fuel' path
                (drop (amount (fs.write path (c ∷ rest) w).0) (c ∷ rest))
                (fs.write path (c ∷ rest) w).1 (omega (arith, some_bytes, fewer))
                (omega (arith, some_bytes, fewer)))
        | inr e ↦ rw e refl
      ]
