-- ===== src/Prelude/Int.antt =====
-- Signed integers over the native numbers, for C's `int`; a value's range is a hypothesis or a
-- remark where it matters, and nothing wraps.
use Prim.Native.Nat.{ℕ, suc, ◌+◌, ◌-◌, ◌≤◌}
use mathlib.Core.Bool.{Bool, true, false}
use hydra_fs.Prelude.Tests.{ltb, ◌==◌, if◌then◌else◌}

-- `negsuc n` is -(n + 1).
pub data ℤ : Type 0 where
  pos : ℕ → ℤ
  negsuc : ℕ → ℤ

abbrev pub eq_ℤ : ℤ → ℤ → Bool
eq_ℤ (pos a) (pos b) = a == b
eq_ℤ (pos a) (negsuc b) = false
eq_ℤ (negsuc a) (pos b) = false
eq_ℤ (negsuc a) (negsuc b) = a == b

abbrev pub succ_ℤ : ℤ → ℤ
succ_ℤ (pos n) = pos (n + 1)
succ_ℤ (negsuc n) = if n == 0 then pos 0 else negsuc (n - 1)

abbrev pub pred_ℤ : ℤ → ℤ
pred_ℤ (pos n) = if n == 0 then negsuc 0 else pos (n - 1)
pred_ℤ (negsuc n) = negsuc (n + 1)

-- a - b for natural numbers.
unfoldable pub sub_ℕ : ℕ → ℕ → ℤ
sub_ℕ a b = if ltb a b then negsuc (b - a - 1) else pos (a - b)

infixl 6 ◌+ℤ◌ ◌-ℤ◌
unfoldable pub ◌+ℤ◌ : ℤ → ℤ → ℤ
unfolding sub_ℕ
pos a +ℤ pos b = pos (a + b)
pos a +ℤ negsuc b = sub_ℕ a (b + 1)
negsuc a +ℤ pos b = sub_ℕ b (a + 1)
negsuc a +ℤ negsuc b = negsuc (a + b + 1)

unfoldable pub neg_ℤ : ℤ → ℤ
neg_ℤ (pos n) = if n == 0 then pos 0 else negsuc (n - 1)
neg_ℤ (negsuc n) = pos (n + 1)

unfoldable pub ◌-ℤ◌ : ℤ → ℤ → ℤ
unfolding ◌+ℤ◌ neg_ℤ
a -ℤ b = a +ℤ neg_ℤ b

abbrev pub positive : ℤ → Bool
positive (pos n) = ltb 0 n
positive (negsuc n) = false

abbrev pub negative : ℤ → Bool
negative (pos n) = false
negative (negsuc n) = true

-- The order of an integer with a number from below.
abbrev pub AtLeast : ℕ → ℤ → Type 0
AtLeast n (pos m) = n ≤ m
AtLeast n (negsuc m) = suc n ≤ 0
