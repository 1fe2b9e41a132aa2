-- ===== src/Examples/Chunker.antt =====
-- The chunker on short texts.
use hydra_fs.Prelude.{
  ℕ, ◌+◌, ◌≤◌, ◌≡◌, ◌<◌, ◌⊎◌, inl, inr, refl, sym, subst, true, false, some, List, [], ◌∷◌, ◌++◌,
  length, arith,
}
use hydra_fs.Text.{Bytes, isspace}
use hydra_fs.Base64.{codes}
use hydra_fs.Chunker.{
  Codepoint, ChunkOptions, EvidenceChunk, at, chunk_document, are_valid, chunks_from, chunk_of,
  next_start, choose_cut, last_preferred, is_preferred_boundary, is_end_mark, decode, decode_from,
  width, continues, heading_before, line_start_of, strip_end, hash_line,
}
use hydra_fs.Chunker.Covers.{Held, AreSmall, chunk_document-Held, chunk_document-AreSmall}
use hydra_fs.Chunker.Stuck.{AreFrom, chunks_from-AreFrom}

-- A digest that is not one.
first_bytes : Bytes → Bytes
first_bytes text = text

abbrev options : ChunkOptions
options = record {
  target_codepoints = 5;
  hard_max_codepoints = 6;
  overlap_codepoints = 1;
  max_chunks = 8;
}

abbrev note : Bytes
note = codes "#ab.cd." ++ 0xC3 ∷ 0xA9 ∷ codes "f.gh."

abbrev chunks : List EvidenceChunk
chunks = (chunks_from first_bytes note (decode note) options 8 0 0).0

note_cut : chunk_document first_bytes note options ≡ some (chunks, false)
unfolding chunk_document are_valid chunks_from chunk_of next_start choose_cut last_preferred
    is_preferred_boundary is_end_mark decode decode_from width continues heading_before
    line_start_of strip_end hash_line isspace
note_cut = refl

-- The offsets: no sequence of UTF-8 is split.
abbrev offsets : List EvidenceChunk → List (ℕ × ℕ)
offsets [] = []
offsets (c ∷ cs) = (c.start_offset, c.end_offset) ∷ offsets cs

note_offsets : offsets chunks ≡ (0, 4) ∷ (3, 7) ∷ (6, 11) ∷ (10, 14) ∷ []
unfolding chunk_document are_valid chunks_from chunk_of next_start choose_cut last_preferred
    is_preferred_boundary is_end_mark decode decode_from width continues heading_before
    line_start_of strip_end hash_line isspace
note_offsets = refl

chunk_document-Held_example : Held note 8 chunks
chunk_document-Held_example =
    chunk_document-Held first_bytes note options chunks note_cut 8 (omega arith)

chunk_document-AreSmall_example : (length chunks ≤ 8) × AreSmall note (decode note) 6 chunks
chunk_document-AreSmall_example =
    chunk_document-AreSmall first_bytes note options (chunks, false) note_cut

abbrev stuck_options : ChunkOptions
stuck_options = record {
  target_codepoints = 4;
  hard_max_codepoints = 5;
  overlap_codepoints = 2;
  max_chunks = 4;
}

abbrev line : Bytes
line = codes "xxxx.yyyyyyyy"

abbrev points : List Codepoint
points = decode line

short : (3 < length points) × (3 + 4 < length points)
unfolding decode decode_from width continues
short = (omega arith, omega arith)

at_dot : is_preferred_boundary line points 5 ≡ true
unfolding is_preferred_boundary is_end_mark decode decode_from width continues
at_dot = refl

two_behind : (d : ℕ) → 5 < d → d ≤ 7 → (d ≡ 6) ⊎ (d ≡ 7)
two_behind d l u = ground arith

behind_dot : (d : ℕ) → 5 < d → d ≤ 7 → is_preferred_boundary line points d ≡ false
unfolding is_preferred_boundary is_end_mark decode decode_from width continues
behind_dot d l u = elim (two_behind d l u) [
  | inl e ↦ subst (λ d. is_preferred_boundary line points d ≡ false) (sym e) refl
  | inr e ↦ subst (λ d. is_preferred_boundary line points d ≡ false) (sym e) refl
]

chunks_from-AreFrom_example :
    let r = chunks_from first_bytes line points stuck_options 3 1 3 in
    (length r.0 ≡ 3) × AreFrom (at points 3).byte (at points 4).next r.0 × (r.1 ≡ true)
chunks_from-AreFrom_example =
    chunks_from-AreFrom first_bytes line points stuck_options 3 1 3 5 (omega arith) (omega arith)
      (omega arith) short.1 at_dot behind_dot refl

-- The document from its beginning: four chunks, the last three the same, and the rest is lost.
stuck_document :
    (offsets (chunks_from first_bytes line (decode line) stuck_options 4 0 0).0
      ≡ (0, 5) ∷ (3, 5) ∷ (3, 5) ∷ (3, 5) ∷ [])
    × ((chunks_from first_bytes line (decode line) stuck_options 4 0 0).1 ≡ true)
unfolding chunk_document are_valid chunks_from chunk_of next_start choose_cut last_preferred
    is_preferred_boundary is_end_mark decode decode_from width continues heading_before
    line_start_of strip_end hash_line isspace
stuck_document = (refl, refl)
