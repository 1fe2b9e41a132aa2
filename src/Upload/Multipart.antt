-- ===== src/Upload/Multipart.antt =====
-- `recv_save_file` of src_cgi/upload_cgi.c with its helpers: what is read out of the body that a
-- browser posts. A pointer into the buffer is the list of the bytes from there to the buffer's end.
use hydra_fs.Prelude.{
  ℕ, zero, suc, ◌+◌, ◌-◌, Bool, not, ◌&&◌, Option, none, some, [], ◌∷◌, ◌==◌, ltb, if◌then◌else◌,
  length, take, drop,
}
use hydra_fs.Prelude.Int.{ℤ, pos, negsuc, eq_ℤ}
use hydra_fs.Text.{Bytes, isspace, starts_with}
use hydra_fs.Base64.{codes}
use hydra_fs.Backend.{atoi_bytes}

-- A step goes on, makes the function return -1, or reads or writes outside its memory, from where on
-- what the program does is not defined.
pub data Parse (A : Type 0) : Type 0 where
  ok : A → Parse A
  failed : Parse A
  fault : Parse A

-- The answer of a search: a place, NULL, or a read behind the end of the buffer.
pub data Pointer : Type 0 where
  place : Bytes → Pointer
  null : Pointer
  overrun : Pointer

infixl 1 ◌>>=◌
abbrev pub ◌>>=◌ : {A B : Type 0} → Parse A → (A → Parse B) → Parse B
ok a >>= f = f a
failed >>= f = failed
fault >>= f = fault

-- `if (!p) { ret = -1; goto END; }`
abbrev pub or_fail : Pointer → Parse Bytes
or_fail (place s) = ok s
or_fail null = failed
or_fail overrun = fault

-- A use of the pointer with no such test.
abbrev pub deref : Pointer → Parse Bytes
deref (place s) = ok s
deref null = fault
deref overrun = fault

-- `strstr` on the buffer, which no NUL has to end.
unfoldable pub strstr_in : Bytes → Bytes → Pointer
strstr_in [] sub = if starts_with sub [] then place [] else overrun
strstr_in (c ∷ s) sub =
    let rest = strstr_in s sub in
    if starts_with sub (c ∷ s) then place (c ∷ s) else if c == 0 then null else rest

unfoldable pub is_blank : ℕ → Bool
is_blank c = not (not (isspace c) && not (c == 13) && not (c == 10))

-- `end` is the end of the buffer.
unfoldable pub trim_space_and_around : Bytes → Pointer
trim_space_and_around [] = overrun
trim_space_and_around (c ∷ []) = if is_blank c then null else place (c ∷ [])
trim_space_and_around (c ∷ d ∷ s) =
    let rest = trim_space_and_around (d ∷ s) in if is_blank c then rest else place (c ∷ d ∷ s)

-- The loop of `buffer_search`, with the rounds that are left.
unfoldable pub search_loop : ℕ → ℕ → Bytes → Bytes → Option ℕ
search_loop zero i cur sep = none
search_loop (suc n) i cur sep =
    let rest = search_loop n (i + 1) (drop 1 cur) sep in
    if starts_with sep cur then some i else rest

-- The offset of the pointer that `buffer_search` returns.
unfoldable pub buffer_search : Bytes → Bytes → Option ℕ
buffer_search [] sep = none
buffer_search buf [] = none
buffer_search buf sep = search_loop (length buf + 1 - length sep) 0 buf sep

abbrev pub or_fault : Option ℕ → Parse ℕ
or_fault none = fault
or_fault (some k) = ok k

-- `strncpy(dst, p, end - p); dst[end - p] = '\0';`, which no test of the length comes before.
unfoldable pub copied : (p end : Bytes) → Bytes
copied p end = take (length p - length end) p

-- What is in a buffer of this size once such a text is written to it: a longer one overruns it.
abbrev pub in_buffer : (size : ℕ) → Bytes → Parse Bytes
in_buffer size s = if ltb (length s) size then ok s else fault

-- `file_end - file_start`, where the boundary stands `k` bytes behind `file_start`.
unfoldable pub content_length : ℕ → ℤ
content_length zero = negsuc 1
content_length (suc zero) = negsuc 0
content_length (suc (suc n)) = pos n

-- What the function leaves to its caller, with the bytes that it writes to the local file, where it
-- can open that.
pub record Received : Type 0 where
  pub user : Bytes
  pub filename : Bytes
  pub md5 : Bytes
  pub content : Bytes

-- `write` with a negative length reads far outside the buffer.
unfoldable pub written : ℤ → (file_start user filename md5 : Bytes) → Parse Received
written (pos n) file_start user filename md5 =
    ok (record { user = user; filename = filename; md5 = md5; content = take n file_start })
written (negsuc n) file_start user filename md5 = fault

abbrev pub crlf : Bytes
crlf = 13 ∷ 10 ∷ []

abbrev pub content_type : Bytes
content_type = codes "Content-Type:"

abbrev pub filename_key : Bytes
filename_key = codes "filename="

abbrev pub user_key : Bytes
user_key = codes "name=\"user\""

abbrev pub md5_key : Bytes
md5_key = codes "name=\"md5\""

abbrev pub size_key : Bytes
size_key = codes "name=\"size\""

-- What the file part of the body gives: the boundary, where the content begins, how far behind it
-- the boundary stands, and the file's name.
pub record FilePart : Type 0 where
  pub boundary : Bytes
  pub file_start : Bytes
  pub offset : ℕ
  pub filename : Bytes

unfoldable pub file_part : Bytes → Parse FilePart
file_part begin = do
  p1 ← or_fail (strstr_in begin crlf)
  boundary ← in_buffer 512 (copied begin p1)
  header ← or_fail (strstr_in begin content_type)
  line_end ← deref (strstr_in header crlf)
  k ← or_fault (buffer_search (drop 4 line_end) boundary)
  p2 ← deref (strstr_in p1 filename_key)
  end ← deref (strstr_in (drop 10 p2) (b'"' ∷ []))
  filename ← in_buffer 256 (copied (drop 10 p2) end)
  ok (record { boundary = boundary; file_start = drop 4 line_end; offset = k; filename = filename })

-- `file_end + strlen(boundary)`, where the search for the other fields begins.
abbrev pub behind_file : Bytes → FilePart → Bytes
behind_file begin f =
    drop (length begin - length f.file_start + f.offset - 2 + length f.boundary) begin

-- The value of a field that is copied up to the end of its line, and the place of that end.
unfoldable pub field_value : (size : ℕ) → (start : Bytes) → Parse (Bytes × Bytes)
field_value size start = do
  end ← deref (strstr_in start crlf)
  value ← in_buffer size (copied start end)
  ok (value, end)

-- The whole body after `fread`. `strtol` to base 10 reads what `atoi` reads. What is behind the last field is only skipped, `p6`.
unfoldable pub parse_body : Bytes → Parse Received
parse_body begin = do
  f ← file_part begin
  p3 ← deref (strstr_in (behind_file begin f) user_key)
  user_start ← or_fail (trim_space_and_around (drop 11 p3))
  user ← field_value 128 user_start
  p4 ← deref (strstr_in user.1 md5_key)
  md5_start ← deref (trim_space_and_around (drop 10 p4))
  md5 ← field_value 256 md5_start
  p5 ← or_fail (strstr_in md5.1 size_key)
  size_start ← or_fail (trim_space_and_around (drop 11 p5))
  size_text ← field_value 65 size_start
  p6 ← deref (strstr_in size_text.1 f.boundary)
  if eq_ℤ (content_length f.offset) (atoi_bytes size_text.0)
      then written (content_length f.offset) f.file_start user.0 f.filename md5.0
      else failed

-- `fread` reads nothing from an empty body.
unfoldable pub recv_save_file : Bytes → Parse Received
recv_save_file [] = failed
recv_save_file (c ∷ body) = parse_body (c ∷ body)
