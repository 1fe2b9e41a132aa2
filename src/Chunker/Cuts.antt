-- ===== src/Chunker/Cuts.antt =====
-- Where common/knowledge_chunker.cpp cuts: behind the start, and not behind the hard limit.
use Prim.Native.Nat.{min, max}
use hydra_fs.Prelude.{
  ℕ, zero, suc, ◌+◌, ◌-◌, ◌≤◌, ◌<◌, ◌≡◌, refl, true, Bool-cases, ◌⊎◌, inl, inr, List, ltb, length,
  if◌then◌else◌, arith,
}
use hydra_fs.Text.{Bytes}
use hydra_fs.Chunker.{
  Codepoint, ChunkOptions, is_preferred_boundary, last_preferred, choose_cut, are_valid, next_start,
}

last_preferred_range :
    (text : Bytes) (cp : List Codepoint) (rounds cut preferred : ℕ)
    → (last_preferred text cp rounds cut preferred ≡ preferred)
      ⊎ ((cut ≤ last_preferred text cp rounds cut preferred)
          × (last_preferred text cp rounds cut preferred < cut + rounds))
unfolding last_preferred
last_preferred_range text cp zero cut preferred = inl refl
last_preferred_range text cp (suc rounds) cut preferred =
    elim (Bool-cases (is_preferred_boundary text cp cut)) [
      | inl b ↦ rw b (elim (last_preferred_range text cp rounds (cut + 1) cut) [
        | inl e ↦ inr (omega arith, omega arith)
        | inr h ↦ inr (omega arith, omega arith)
      ])
      | inr b ↦ rw b (elim (last_preferred_range text cp rounds (cut + 1) preferred) [
        | inl e ↦ inl e
        | inr h ↦ inr (omega arith, omega arith)
      ])
    ]

-- A cut lies behind the start, in the text, and not behind the hard limit.
pub choose_cut_range :
    (text : Bytes) (cp : List Codepoint) (start target hard : ℕ)
    → start < length cp
    → 0 < target
    → target ≤ hard
    → (start < choose_cut text cp start target hard)
      × (choose_cut text cp start target hard ≤ length cp)
      × (choose_cut text cp start target hard ≤ start + hard)
unfolding choose_cut
choose_cut_range text cp start target hard h t u =
    by_preferred _
      (last_preferred_range text cp (min (length cp) (start + target) - start) (start + 1) 0)
  where
    by_preferred :
        (p : ℕ)
        → (p ≡ 0) ⊎ ((start + 1 ≤ p) × (p < start + 1 + (min (length cp) (start + target) - start)))
        → let cut : ℕ =
            if ltb start p then p else max (start + 1) (min (length cp) (start + hard)) in
          (start < cut) × (cut ≤ length cp) × (cut ≤ start + hard)
    by_preferred p r = ground arith

pub are_valid-bounds :
    (o : ChunkOptions)
    → are_valid o ≡ true
    → (0 < o.target_codepoints) × (o.target_codepoints ≤ o.hard_max_codepoints) × (0 < o.max_chunks)
unfolding are_valid
are_valid-bounds o h = ground arith

-- The next start is not behind the cut.
pub next_start_le : (o : ChunkOptions) (cut : ℕ) → next_start o cut ≤ cut
unfolding next_start
next_start_le o cut = ground arith
