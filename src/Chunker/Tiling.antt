-- ===== src/Chunker/Tiling.antt =====
-- The decoded code points of common/knowledge_chunker.cpp lie one behind the other over the whole
-- text, each of one to four bytes.
use Prim.Native.Nat.{min}
use hydra_fs.Prelude.{
  ℕ, zero, suc, ◌+◌, ◌-◌, ◌*◌, ◌≤◌, ◌<◌, ◌≡◌, refl, subst, List, [], ◌∷◌, length, drop, length-drop,
  arith,
}
use native.Mathlib.Decide.{dec_lt}
use hydra_fs.Text.{Bytes}
use hydra_fs.Chunker.{Codepoint, width, decode_from, decode, at}

-- The code points reach from byte `i` to byte `n`.
abbrev pub Tiled : ℕ → List Codepoint → ℕ → Type 0
Tiled i [] n = i ≡ n
Tiled i (c ∷ cp) n = (c.byte ≡ i) × (i < c.next) × (c.next ≤ i + 4) × Tiled c.next cp n

width_bounds : (c : ℕ) (rest : Bytes) → (1 ≤ width c rest) × (width c rest ≤ 4)
unfolding width
width_bounds c rest = ground arith

decode_from-Tiled :
    (fuel i : ℕ) (rest : Bytes)
    → length rest ≤ fuel
    → Tiled i (decode_from fuel i rest) (i + length rest)
unfolding decode_from
decode_from-Tiled zero i [] h = omega arith
decode_from-Tiled zero i (c ∷ rest) h = absurd (omega arith)
decode_from-Tiled (suc fuel) i [] h = omega arith
decode_from-Tiled (suc fuel) i (c ∷ rest) h =
    let (positive, small) = width_bounds c rest in
    let step : ℕ = min (suc (length rest)) (width c rest) in
    let left : length (drop step (c ∷ rest)) ≡ suc (length rest) - step =
      length-drop step (c ∷ rest) in
    (
      refl,
      omega arith,
      omega arith,
      subst (Tiled (i + step) (decode_from fuel (i + step) (drop step (c ∷ rest)))) (omega arith)
          (decode_from-Tiled fuel (i + step) (drop step (c ∷ rest)) (omega arith)),
    )

pub decode-Tiled : (text : Bytes) → Tiled 0 (decode text) (length text)
unfolding decode
decode-Tiled text =
    subst (Tiled 0 (decode_from (length text) 0 text)) (omega arith)
      (decode_from-Tiled (length text) 0 text (omega arith))

-- What holds of the code point with number `k`.
pub place :
    (i n k : ℕ) (cp : List Codepoint)
    → Tiled i cp n
    → k < length cp
    → (i ≤ (at cp k).byte)
      × ((at cp k).byte < (at cp k).next)
      × ((at cp k).next ≤ n)
      × ((at cp k).next ≤ i + 4 * suc k)
place i n k [] h l = absurd (omega arith)
place i n zero (c ∷ cp) (e, f, g, h) l =
    (omega arith, omega arith, reach c.next n cp h, omega arith)
  where
    reach : (i n : ℕ) (cp : List Codepoint) → Tiled i cp n → i ≤ n
    reach i n [] h = omega arith
    reach i n (c ∷ cp) (e, f, g, h) = let later : c.next ≤ n = reach c.next n cp h in omega arith
place i n (suc k) (c ∷ cp) (e, f, g, h) l =
    let (a, b, d, m) = place c.next n k cp h (omega arith) in (omega arith, b, d, omega arith)

pub byte_order :
    (i n s k : ℕ) (cp : List Codepoint)
    → Tiled i cp n
    → s ≤ k
    → k < length cp
    → ((at cp s).byte ≤ (at cp k).byte)
      × ((at cp s).next ≤ (at cp k).next)
      × ((at cp k).next ≤ (at cp s).byte + 4 * (suc k - s))
byte_order i n s k [] h o l = absurd (omega arith)
byte_order i n zero zero (c ∷ cp) (e, f, g, h) o l = (omega arith, omega arith, omega arith)
byte_order i n zero (suc k) (c ∷ cp) (e, f, g, h) o l =
    let (a, b, d, m) = place c.next n k cp h (omega arith) in
    (omega arith, omega arith, omega arith)
byte_order i n (suc s) zero (c ∷ cp) (e, f, g, h) o l = absurd (omega arith)
byte_order i n (suc s) (suc k) (c ∷ cp) (e, f, g, h) o l =
    let (a, b, d) = byte_order c.next n s k cp h (omega arith) (omega arith) in (a, b, omega arith)

-- Each byte stands in a code point.
pub owner :
    (i n b : ℕ) (cp : List Codepoint)
    → Tiled i cp n
    → i ≤ b
    → b < n
    → (k : ℕ) × (k < length cp) × ((at cp k).byte ≤ b) × (b < (at cp k).next)
owner i n b [] h l u = absurd (omega arith)
owner i n b (c ∷ cp) (e, f, g, h) l u = elim (dec_lt b c.next) [
  | yes p ↦ (0, omega arith, omega arith, p)
  | no p ↦ let (k, m, x, y) = owner c.next n b cp h (omega arith) u in (suc k, omega arith, x, y)
]
