-- ===== src/Chunker/Stuck.antt =====
-- Where common/knowledge_chunker.cpp does not get on: the overlap takes the cut back to the start.
use Prim.Native.Nat.{min}
use native.Mathlib.Decide.{dec_lt}
use hydra_fs.Prelude.{
  ℕ, zero, suc, ◌+◌, ◌-◌, ◌≤◌, ◌<◌, ◌≡◌, refl, sym, subst, ◌∙◌, true, false, List, [], ◌∷◌, length,
  ltb, lt→ltb, ◌==◌, arith,
}
use hydra_fs.Text.{Bytes}
use hydra_fs.Chunker.{
  Codepoint, at, ChunkOptions, EvidenceChunk, is_preferred_boundary, last_preferred, choose_cut,
  next_start, chunk_of, chunks_from,
}

-- All of them begin and end at these places.
abbrev pub AreFrom : (begin end : ℕ) → List EvidenceChunk → Type 0
AreFrom begin end [] = Unit {0}
AreFrom begin end (c ∷ cs) = (c.start_offset ≡ begin) × (c.end_offset ≡ end) × AreFrom begin end cs

-- No boundary among `rounds` cuts from this one on.
last_preferred_none :
    (text : Bytes) (cp : List Codepoint) (rounds cut preferred : ℕ)
    → ((d : ℕ) → cut ≤ d → d < cut + rounds → is_preferred_boundary text cp d ≡ false)
    → last_preferred text cp rounds cut preferred ≡ preferred
unfolding last_preferred
last_preferred_none text cp zero cut preferred h = refl
last_preferred_none text cp (suc rounds) cut preferred h = rw (h cut (omega arith) (omega arith)) (
    last_preferred_none text cp rounds (cut + 1) preferred
      (λ d l u. h d (omega arith) (omega arith)))

-- The last boundary among them.
last_preferred_last :
    (text : Bytes) (cp : List Codepoint) (c rounds cut preferred : ℕ)
    → cut ≤ c
    → c < cut + rounds
    → is_preferred_boundary text cp c ≡ true
    → ((d : ℕ) → c < d → d < cut + rounds → is_preferred_boundary text cp d ≡ false)
    → last_preferred text cp rounds cut preferred ≡ c
unfolding last_preferred
last_preferred_last text cp c zero cut preferred l u b none_behind = absurd (omega arith)
last_preferred_last text cp c (suc rounds) cut preferred l u b none_behind = elim (dec_lt cut c) [
  | yes before ↦
      last_preferred_last text cp c rounds (cut + 1) _ (omega arith) (omega arith) b
        (λ d m v. none_behind d m (omega arith))
  | no here ↦
      let same : c ≡ cut = omega arith in
      rw (subst (λ k. is_preferred_boundary text cp k ≡ true) same b) (
        last_preferred_none text cp rounds (cut + 1) cut
          (λ d m v. none_behind d (omega arith) (omega arith))
        ∙ sym same)
]

module _ (text : Bytes) (cp : List Codepoint) (start c target : ℕ) (behind : start < c)
    (before : c ≤ start + target) (inside : start + target < length cp)
    (boundary : is_preferred_boundary text cp c ≡ true)
    (last : (d : ℕ) → c < d → d ≤ start + target → is_preferred_boundary text cp d ≡ false) where
  -- The last boundary before the target is where the chunk is cut.
  choose_cut_boundary : (hard : ℕ) → choose_cut text cp start target hard ≡ c
  unfolding choose_cut
  choose_cut_boundary hard =
      let rounds : min (length cp) (start + target) - start ≡ target = omega arith in
      let found : last_preferred text cp target (start + 1) 0 ≡ c =
        last_preferred_last text cp c target (start + 1) 0 (omega arith) (omega arith) boundary
          (λ d l u. last d l (omega arith)) in
      rw (rounds, found, lt→ltb start c behind) refl

-- Where the overlap is as long as it is from the start of a chunk, not at the text's begin, to the
-- last boundary before the target, and the target lies within the text, the loop uses up all its
-- chunks: each begins at that start and ends at that boundary, and the rest is cut off as truncated.
pub chunks_from-AreFrom :
    (sha256_hex : Bytes → Bytes) (text : Bytes) (cp : List Codepoint) (o : ChunkOptions)
    (left number start c : ℕ)
    → 0 < start
    → start < c
    → c ≤ start + o.target_codepoints
    → start + o.target_codepoints < length cp
    → is_preferred_boundary text cp c ≡ true
    → ((d : ℕ) → c < d → d ≤ start + o.target_codepoints → is_preferred_boundary text cp d ≡ false)
    → start + o.overlap_codepoints ≡ c
    → let r = chunks_from sha256_hex text cp o left number start in
      (length r.0 ≡ left) × AreFrom (at cp start).byte (at cp (c - 1)).next r.0 × (r.1 ≡ true)
unfolding chunks_from chunk_of next_start
chunks_from-AreFrom sha256_hex text cp o zero number start c z b t inside preferred last e =
    (refl, tt, lt→ltb _ _ (omega arith))
chunks_from-AreFrom sha256_hex text cp o (suc left) number start c z b t inside preferred last e =
    let begun : ltb start (length cp) ≡ true = lt→ltb _ _ (omega arith) in
    let cut : choose_cut text cp start o.target_codepoints o.hard_max_codepoints ≡ c =
      choose_cut_boundary text cp start c o.target_codepoints b t inside preferred last
        o.hard_max_codepoints in
    let ended : (c == length cp) ≡ false = ground arith in
    let overlaps : ltb o.overlap_codepoints c ≡ true = lt→ltb _ _ (omega arith) in
    let back : c - o.overlap_codepoints ≡ start = omega arith in
    let (counted, same, cut_off) =
      chunks_from-AreFrom sha256_hex text cp o left (number + 1) start c z b t inside preferred last
        e in
    rw (cut, begun, ended, overlaps, back) (omega arith, (refl, refl, same), cut_off)
