-- ===== src/Chunker.antt =====
-- common/knowledge_chunker.cpp: the text of a document, cut into overlapping chunks at the ends of
-- lines and sentences. Offsets and counts are numbers; their sums stay below 2^64.
pub mod Tiling
pub mod Cuts
pub mod Covers
pub mod Stuck
use Prim.Native.Nat.{bit_and, min, max}
use hydra_fs.Prelude.{
  ℕ, zero, suc, ◌+◌, ◌-◌, Bool, true, false, ◌&&◌, ◌||◌, Option, none, some, List, [], ◌∷◌, ltb,
  leb, ◌==◌, if◌then◌else◌, length, get_or, take, drop,
}
use hydra_fs.Text.{Bytes, isspace}

pub record Codepoint : Type 0 where
  pub byte : ℕ
  pub next : ℕ

-- The bytes behind the first are there and continue a sequence of UTF-8.
unfoldable pub continues : ℕ → Bytes → Bool
continues zero rest = true
continues (suc n) [] = false
continues (suc n) (c ∷ rest) = let more = continues n rest in bit_and c 0xC0 == 0x80 && more

-- `width`, of the first byte and the rest.
unfoldable pub width : ℕ → Bytes → ℕ
width c rest =
    if leb 0xF0 c && leb c 0xF4 && continues 3 rest
    then 4
    else if leb 0xE0 c && leb c 0xEF && continues 2 rest
    then 3
    else if leb 0xC2 c && leb c 0xDF && continues 1 rest
    then 2
    else 1

-- From byte `i` on, with the bytes that are left and fuel for each of them.
unfoldable pub decode_from : ℕ → ℕ → Bytes → List Codepoint
decode_from zero i rest = []
decode_from (suc fuel) i [] = []
decode_from (suc fuel) i (c ∷ rest) =
    let step : ℕ = min (suc (length rest)) (width c rest) in
    record { byte = i; next = i + step } ∷ decode_from fuel (i + step) (drop step (c ∷ rest))

unfoldable pub decode : Bytes → List Codepoint
decode text = decode_from (length text) 0 text

abbrev pub at : List Codepoint → ℕ → Codepoint
at cp i = get_or cp i (record { byte = 0; next = 0 })

unfoldable pub is_end_mark : ℕ → Bool
is_end_mark c = c == 10 || c == 13 || c == b'.' || c == b'!' || c == b'?'

unfoldable pub is_preferred_boundary : Bytes → List Codepoint → ℕ → Bool
is_preferred_boundary text cp cut =
    if cut == 0 || leb (length cp) cut
    then true
    else is_end_mark (get_or text ((at cp (cut - 1)).next - 1) 0)

-- The loop over `cut` with the rounds that are left.
unfoldable pub last_preferred : Bytes → List Codepoint → (rounds cut preferred : ℕ) → ℕ
last_preferred text cp zero cut preferred = preferred
last_preferred text cp (suc rounds) cut preferred =
    last_preferred text cp rounds (cut + 1)
      (if is_preferred_boundary text cp cut then cut else preferred)

unfoldable pub choose_cut : Bytes → List Codepoint → (start target hard : ℕ) → ℕ
choose_cut text cp start target hard =
    let preferred : ℕ =
      last_preferred text cp (min (length cp) (start + target) - start) (start + 1) 0 in
    if ltb start preferred then preferred else max (start + 1) (min (length cp) (start + hard))

-- `while (line_start > 0 && text[line_start - 1] != '\n') --line_start;`
unfoldable pub line_start_of : Bytes → ℕ → ℕ
line_start_of text zero = zero
line_start_of text (suc n) =
    let before = line_start_of text n in if get_or text n 0 == 10 then suc n else before

-- `while (!line.empty() && isspace(line.back())) line.pop_back();`
unfoldable pub strip_end : Bytes → Bytes
strip_end [] = []
strip_end (c ∷ s) = kept c (strip_end s)
  where
    kept : ℕ → Bytes → Bytes
    kept c [] = if isspace c then [] else c ∷ []
    kept c (d ∷ s) = c ∷ d ∷ s

unfoldable pub hash_line : Bytes → Bytes
hash_line [] = []
hash_line (c ∷ line) = if c == b'#' then c ∷ line else []

unfoldable pub heading_before : Bytes → List Codepoint → ℕ → Bytes
heading_before text cp begin =
    let line_start : ℕ = line_start_of text (at cp (begin - 1)).byte in
    if begin == 0
    then []
    else hash_line (strip_end (take ((at cp (begin - 1)).next - line_start) (drop line_start text)))

pub record ChunkOptions : Type 0 where
  pub target_codepoints : ℕ
  pub hard_max_codepoints : ℕ
  pub overlap_codepoints : ℕ
  pub max_chunks : ℕ

pub record EvidenceChunk : Type 0 where
  pub chunk_no : ℕ
  pub heading : Bytes
  pub content : Bytes
  pub content_sha256 : Bytes
  pub start_offset : ℕ
  pub end_offset : ℕ

unfoldable pub are_valid : ChunkOptions → Bool
are_valid o =
    ltb 0 o.target_codepoints
    && leb o.target_codepoints o.hard_max_codepoints
    && ltb o.overlap_codepoints o.hard_max_codepoints
    && ltb 0 o.max_chunks

-- `start` of the next round.
unfoldable pub next_start : ChunkOptions → ℕ → ℕ
next_start o cut = if ltb o.overlap_codepoints cut then cut - o.overlap_codepoints else cut

-- `sha256_hex` is the digest of OpenSSL in hexadecimal digits.
module _ (sha256_hex : Bytes → Bytes) (text : Bytes) (cp : List Codepoint) (o : ChunkOptions) where
  unfoldable pub chunk_of : (number start cut : ℕ) → EvidenceChunk
  chunk_of number start cut =
      let begin : ℕ = (at cp start).byte in
      let end : ℕ = (at cp (cut - 1)).next in
      record {
        chunk_no = number;
        heading = heading_before text cp start;
        content = take (end - begin) (drop begin text);
        content_sha256 = sha256_hex (take (end - begin) (drop begin text));
        start_offset = begin;
        end_offset = end;
      }

  -- The loop with the number of chunks that may still come, and `truncated`.
  unfoldable pub chunks_from : (left number start : ℕ) → List EvidenceChunk × Bool
  chunks_from zero number start = ([], ltb start (length cp))
  chunks_from (suc left) number start =
      let cut : ℕ = choose_cut text cp start o.target_codepoints o.hard_max_codepoints in
      let (rest, truncated) = chunks_from left (number + 1) (next_start o cut) in
      if ltb start (length cp)
      then (if cut == length cp
          then (chunk_of number start cut ∷ [], false)
          else (chunk_of number start cut ∷ rest, truncated))
      else ([], false)

-- `none` where the options are refused, else the chunks and `truncated`.
unfoldable pub chunk_document :
    (Bytes → Bytes) → Bytes → ChunkOptions → Option (List EvidenceChunk × Bool)
chunk_document sha256_hex text o =
    if are_valid o
    then some (chunks_from sha256_hex text (decode text) o o.max_chunks 0 0)
    else none
