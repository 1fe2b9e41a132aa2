-- ===== src/Chunker/Covers.antt =====
-- What the chunks of common/knowledge_chunker.cpp have of the text: all of it where nothing is
-- truncated, and never more than the limits.
use Prim.Native.Nat.{min}
use native.Mathlib.Decide.{dec_lt}
use hydra_fs.Prelude.{
  some_inj, ℕ, zero, suc, ◌+◌, ◌-◌, ◌*◌, ◌≤◌, ◌<◌, ◌≡◌, refl, ap, subst, ◌∙◌, Bool, true, false,
  Bool-cases, ◌⊎◌, inl, inr, some, List, [], ◌∷◌, length, length-take, get_elem?, get_elem?-drop,
  get_elem?-take, take, drop, ltb, lt→ltb, ◌==◌, arith, tests,
}
use hydra_fs.Text.{Bytes}
use hydra_fs.Chunker.{
  Codepoint, decode, at, ChunkOptions, EvidenceChunk, are_valid, choose_cut, next_start, chunk_of,
  chunks_from, chunk_document,
}
use hydra_fs.Chunker.Tiling.{Tiled, decode-Tiled, byte_order, owner}
use hydra_fs.Chunker.Cuts.{choose_cut_range, are_valid-bounds, next_start_le}

-- The chunk has byte `b` of the text at its place.
abbrev pub Holds : Bytes → ℕ → EvidenceChunk → Type 0
Holds text b c =
    (c.start_offset ≤ b)
    × (b < c.end_offset)
    × (get_elem? c.content (b - c.start_offset) ≡ get_elem? text b)

-- Some chunk has it.
abbrev pub Held : Bytes → ℕ → List EvidenceChunk → Type 0
Held text b [] = true ≡ false
Held text b (c ∷ cs) = Holds text b c ⊎ Held text b cs

-- The chunk is the text from one code point up to another that lies at most `n` behind it, and
-- so has at most four bytes for each.
abbrev pub IsSmall : Bytes → List Codepoint → ℕ → EvidenceChunk → Type 0
IsSmall text cp n c =
    (length c.content ≤ 4 * n)
    × ((i : ℕ) × (j : ℕ) × (i < j)
        × (j ≤ i + n)
        × (j ≤ length cp)
        × (c.content ≡ take ((at cp (j - 1)).next - (at cp i).byte) (drop (at cp i).byte text)))

abbrev pub AreSmall : Bytes → List Codepoint → ℕ → List EvidenceChunk → Type 0
AreSmall text cp n [] = Unit {0}
AreSmall text cp n (c ∷ cs) = IsSmall text cp n c × AreSmall text cp n cs

module _ (sha256_hex : Bytes → Bytes) (text : Bytes) (cp : List Codepoint) (o : ChunkOptions)
    (tiled : Tiled 0 cp (length text)) (positive : 0 < o.target_codepoints)
    (ordered : o.target_codepoints ≤ o.hard_max_codepoints) where
  abbrev cut_at : ℕ → ℕ
  cut_at start = choose_cut text cp start o.target_codepoints o.hard_max_codepoints

  chunk_of-Holds :
      (number start cut j b : ℕ)
      → start ≤ j
      → j < cut
      → cut ≤ length cp
      → (at cp j).byte ≤ b
      → b < (at cp j).next
      → Holds text b (chunk_of sha256_hex text cp o number start cut)
  unfolding chunk_of
  chunk_of-Holds number start cut j b l u m x y =
      let (p, _, _) = byte_order 0 (length text) start j cp tiled l (omega arith) in
      let (_, q, _) = byte_order 0 (length text) j (cut - 1) cp tiled (omega arith) (omega arith) in
      let begin : ℕ = (at cp start).byte in
      let end : ℕ = (at cp (cut - 1)).next in
      (
        omega arith,
        omega arith,
        get_elem?-take (end - begin) (drop begin text) (b - begin) (omega arith)
            ∙ get_elem?-drop begin text (b - begin)
            ∙ subst (λ k. get_elem? text (begin + (b - begin)) ≡ get_elem? text k) (omega arith)
                refl,
      )

  -- The rounds of the loop.
  round :
      (M : List EvidenceChunk × Bool → Type 0) (left number start : ℕ)
      → (start < length cp
          → cut_at start ≡ length cp
          → M (chunk_of sha256_hex text cp o number start (cut_at start) ∷ [], false))
      → (start < length cp
          → M (
            chunk_of sha256_hex text cp o number start (cut_at start)
                ∷ (chunks_from sha256_hex text cp o left
                    (number + 1)
                    (next_start o (cut_at start))).0,
            (chunks_from sha256_hex text cp o left (number + 1) (next_start o (cut_at start))).1,
          ))
      → (length cp ≤ start → M ([], false))
      → M (chunks_from sha256_hex text cp o (suc left) number start)
  unfolding chunks_from
  round M left number start last more out = elim (Bool-cases (ltb start (length cp))) [
    | inl e ↦ rw e (elim (Bool-cases (cut_at start == length cp)) [
      | inl f ↦ rw f (last (omega tests) (ground arith))
      | inr f ↦ rw f (more (omega tests))
    ])
    | inr e ↦ rw e (out (ground arith))
  ]

  chunks_from-Held :
      (left number start j b : ℕ)
      → (chunks_from sha256_hex text cp o left number start).1 ≡ false
      → start ≤ j
      → j < length cp
      → (at cp j).byte ≤ b
      → b < (at cp j).next
      → Held text b (chunks_from sha256_hex text cp o left number start).0
  unfolding chunks_from
  chunks_from-Held zero number start j b t l u x y =
      let clash : ltb start (length cp) ≡ true = lt→ltb start (length cp) (omega arith) in cc
  chunks_from-Held (suc left) number start j b t l u x y =
      let (p, q, r) =
        choose_cut_range text cp start o.target_codepoints o.hard_max_codepoints (omega arith)
          positive ordered in
      let le : next_start o (cut_at start) ≤ cut_at start = next_start_le o (cut_at start) in
      round (λ r. r.1 ≡ false → Held text b r.0) left number start
        (λ _ e _. inl (chunk_of-Holds number start (cut_at start) j b l (omega arith) q x y))
        (λ _ t. elim (dec_lt j (cut_at start)) [
          | yes m ↦ inl (chunk_of-Holds number start (cut_at start) j b l m q x y)
          | no m ↦ inr (
              chunks_from-Held left (number + 1) (next_start o (cut_at start)) j b t (omega arith) u
                x y)
        ])
        (λ e. absurd (omega arith)) t

  chunk_of-IsSmall :
      (number start : ℕ)
      → start < length cp
      → IsSmall text cp o.hard_max_codepoints
          (chunk_of sha256_hex text cp o number start (cut_at start))
  unfolding chunk_of
  chunk_of-IsSmall number start l =
      let (p, q, r) =
        choose_cut_range text cp start o.target_codepoints o.hard_max_codepoints l positive
          ordered in
      let cut : ℕ = cut_at start in
      let (_, _, wide) =
        byte_order 0 (length text) start (cut - 1) cp tiled (omega arith) (omega arith) in
      let begin : ℕ = (at cp start).byte in
      let end : ℕ = (at cp (cut - 1)).next in
      let short : length (take (end - begin) (drop begin text))
          ≡ min (end - begin) (length (drop begin text)) =
        length-take (end - begin) (drop begin text) in
      (omega arith, (start, cut, p, r, q, refl))

  chunks_from-AreSmall :
      (left number start : ℕ)
      → (length (chunks_from sha256_hex text cp o left number start).0 ≤ left)
        × AreSmall text cp o.hard_max_codepoints
            (chunks_from sha256_hex text cp o left number start).0
  unfolding chunks_from
  chunks_from-AreSmall zero number start = (omega arith, tt)
  chunks_from-AreSmall (suc left) number start =
      let (counted, small) = chunks_from-AreSmall left (number + 1) (next_start o (cut_at start)) in
      round (λ r. (length r.0 ≤ suc left) × AreSmall text cp o.hard_max_codepoints r.0) left number
        start (λ l _. (omega arith, (chunk_of-IsSmall number start l, tt)))
        (λ l. (omega arith, (chunk_of-IsSmall number start l, small))) (λ _. (omega arith, tt))

-- What is answered is that of the loop, with options that are valid.
accepted :
    (sha256_hex : Bytes → Bytes) (text : Bytes) (o : ChunkOptions)
    (result : List EvidenceChunk × Bool)
    → chunk_document sha256_hex text o ≡ some result
    → (are_valid o ≡ true) × (chunks_from sha256_hex text (decode text) o o.max_chunks 0 0 ≡ result)
unfolding chunk_document
accepted sha256_hex text o result e = elim (Bool-cases (are_valid o)) [
  | inl v ↦ (v, some_inj (rw v at e))
  | inr v ↦ cc (rw v at e)
]

-- Where nothing is truncated every byte of the text stands in a chunk, at the place that the offset
-- of the chunk says.
pub chunk_document-Held :
    (sha256_hex : Bytes → Bytes) (text : Bytes) (o : ChunkOptions) (chunks : List EvidenceChunk)
    → chunk_document sha256_hex text o ≡ some (chunks, false)
    → (b : ℕ) → b < length text
    → Held text b chunks
chunk_document-Held sha256_hex text o chunks e b u =
    let (v, same) = accepted sha256_hex text o (chunks, false) e in
    let (positive, ordered, _) = are_valid-bounds o v in
    let (j, l, x, y) = owner 0 (length text) b (decode text) (decode-Tiled text) (omega arith) u in
    subst (λ r. Held text b r.0) same
      (chunks_from-Held sha256_hex text (decode text) o (decode-Tiled text) positive ordered
        o.max_chunks 0 0 j b (ap (λ r. r.1) same) (omega arith) l x y)

-- There are at most `max_chunks` chunks, each of them the text of at most `hard_max_codepoints`
-- consecutive code points, of four bytes at most for each.
pub chunk_document-AreSmall :
    (sha256_hex : Bytes → Bytes) (text : Bytes) (o : ChunkOptions)
    (result : List EvidenceChunk × Bool)
    → chunk_document sha256_hex text o ≡ some result
    → (length result.0 ≤ o.max_chunks) × AreSmall text (decode text) o.hard_max_codepoints result.0
chunk_document-AreSmall sha256_hex text o result e =
    let (v, same) = accepted sha256_hex text o result e in
    let (positive, ordered, _) = are_valid-bounds o v in
    subst (λ r. (length r.0 ≤ o.max_chunks) × AreSmall text (decode text) o.hard_max_codepoints r.0)
      same
      (chunks_from-AreSmall sha256_hex text (decode text) o (decode-Tiled text) positive ordered
        o.max_chunks 0 0)
