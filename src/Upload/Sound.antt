-- ===== src/Upload/Sound.antt =====
-- Whatever body `recv_save_file` of src_cgi/upload_cgi.c accepts, the content is framed by the
-- boundary.
use hydra_fs.Prelude.{
  ℕ, zero, suc, ◌<◌, ◌≡◌, refl, sym, ◌∙◌, ap, Bool, true, false, [], ◌∷◌, ◌++◌, append_assoc, arith,
  if◌then◌else◌, length, length-take, length-drop, take, drop, take-append-drop,
}
use hydra_fs.Prelude.Int.{ℤ, pos, negsuc, eq_ℤ}
use hydra_fs.Backend.{atoi_bytes}
use hydra_fs.Text.{Bytes}
use hydra_fs.Text.Search.{append_of_starts_with}
use hydra_fs.Upload.Multipart.{
  ok, failed, or_fail, deref, or_fault, strstr_in, buffer_search, copied, in_buffer, content_length,
  Received, written, crlf, FilePart, content_type, filename_key, user_key, md5_key, size_key,
  behind_file, trim_space_and_around, file_part, field_value, parse_body, recv_save_file,
}
use hydra_fs.Upload.Gives.{
  Gives, step, Gives-ok, some_of, fail_place, deref-place, strstr_in-place, copied-prefix,
  buffer_search-some,
}

-- The content stands behind some text and two bytes before the boundary, which is the body's first
-- line.
pub record IsFramed (body : Bytes) (r : Received) : Type 0 where
  pub boundary : Bytes
  pub lines : Bytes
  pub first_line : body ≡ boundary ++ (crlf ++ lines)
  pub before : Bytes
  pub gap : Bytes
  pub rest : Bytes
  pub framed : body ≡ before ++ (r.content ++ (gap ++ (boundary ++ rest)))
  pub two : length gap ≡ 2

-- What `file_part` has found out about the body.
record IsPart (begin : Bytes) (f : FilePart) : Type 0 where
  lines : Bytes
  first_line : begin ≡ f.boundary ++ (crlf ++ lines)
  before : Bytes
  start : begin ≡ before ++ f.file_start
  rest : Bytes
  ends : drop f.offset f.file_start ≡ f.boundary ++ rest
  inside : f.offset < length f.file_start

pieces : (a b c d : Bytes) → a ++ (b ++ (c ++ d)) ≡ (a ++ (b ++ c)) ++ d
pieces a b c d = simp (append_assoc)

module _ (begin p1 boundary header line_end filename : Bytes) (k : ℕ) where
  Part-of :
      or_fail (strstr_in begin crlf) ≡ ok p1
      → in_buffer 512 (copied begin p1) ≡ ok boundary
      → or_fail (strstr_in begin content_type) ≡ ok header
      → deref (strstr_in header crlf) ≡ ok line_end
      → or_fault (buffer_search (drop 4 line_end) boundary) ≡ ok k
      → IsPart begin (record {
        boundary = boundary;
        file_start = drop 4 line_end;
        offset = k;
        filename = filename;
      })
  Part-of a1 a2 a3 a4 a5 =
      let (pre, begins, crlf_at) = strstr_in-place begin crlf (fail_place _ a1) in
      let (lines, after_crlf) = append_of_starts_with crlf p1 crlf_at in
      let (before, header_at, _) = strstr_in-place begin content_type (fail_place _ a3) in
      let (type_line, line_at, _) = strstr_in-place header crlf (deref-place _ a4) in
      let (rest, ends, inside) = buffer_search-some (drop 4 line_end) boundary k (some_of _ a5) in
      let line : boundary ≡ pre = copied-prefix 512 pre p1 boundary (rw (sym begins) a2) in
      record {
        lines = lines;
        first_line = rw (line, sym after_crlf) begins;
        before = before ++ (type_line ++ take 4 line_end);
        start =
            header_at
            ∙ ap (λ x. before ++ x)
                (line_at ∙ ap (λ x. type_line ++ x) (sym (take-append-drop 4 line_end)))
            ∙ pieces before type_line (take 4 line_end) (drop 4 line_end);
        rest = rest;
        ends = ends;
        inside = inside;
      }

file_part-IsPart : (begin : Bytes) → Gives (IsPart begin) (file_part begin)
unfolding file_part
file_part-IsPart begin = step (IsPart begin) (or_fail (strstr_in begin crlf)) _ (λ p1 a1.
    step (IsPart begin) (in_buffer 512 (copied begin p1)) _ (λ boundary a2.
      step (IsPart begin) (or_fail (strstr_in begin content_type)) _ (λ header a3.
        step (IsPart begin) (deref (strstr_in header crlf)) _ (λ line_end a4.
          step (IsPart begin) (or_fault (buffer_search (drop 4 line_end) boundary)) _ (λ k a5.
            step (IsPart begin) (deref (strstr_in p1 filename_key)) _ (λ p2 _.
              step (IsPart begin) (deref (strstr_in (drop 10 p2) (b'"' ∷ []))) _ (λ end _.
                step (IsPart begin) (in_buffer 256 (copied (drop 10 p2) end)) _ (λ filename _.
                  Part-of begin p1 boundary header line_end filename k a1 a2 a3 a4 a5))))))))

drop_two : (k : ℕ) (s : Bytes) → drop 2 (drop k s) ≡ drop (suc (suc k)) s
drop_two zero s = refl
drop_two (suc k) [] = refl
drop_two (suc k) (c ∷ s) = drop_two k s

-- The content is what stands between the two bytes before the boundary and `file_start`.
content_framed :
    (k n : ℕ) (s t : Bytes)
    → content_length k ≡ pos n
    → k < length s
    → drop k s ≡ t
    → (gap : Bytes) × (s ≡ take n s ++ (gap ++ t)) × (length gap ≡ 2)
unfolding content_length
content_framed zero n s t e l d = cc
content_framed (suc zero) n s t e l d = cc
content_framed (suc (suc k)) n s t e l d =
    let same : n ≡ k = ground arith in
    rw same (
      take 2 (drop k s),
      sym (take-append-drop k s)
          ∙ ap (λ x. take k s ++ x)
              (sym (take-append-drop 2 (drop k s))
                ∙ ap (λ x. take 2 (drop k s) ++ x) (drop_two k s ∙ d)),
      omega (arith, length-take {0} 2 (drop k s), length-drop {0} k s),
    )

module _ (body : Bytes) (f : FilePart) (part : IsPart body f) (user md5 : Bytes) where
  written-IsFramed :
      (z : ℤ)
      → content_length f.offset ≡ z
      → Gives (IsFramed body) (written z f.file_start user f.filename md5)
  unfolding written
  written-IsFramed (negsuc n) e = tt
  written-IsFramed (pos n) e =
      let (gap, framed, two) =
        content_framed f.offset n f.file_start (f.boundary ++ part.rest) e part.inside part.ends in
      record {
        boundary = f.boundary;
        lines = part.lines;
        first_line = part.first_line;
        before = part.before;
        gap = gap;
        rest = part.rest;
        framed = part.start ∙ ap (λ x. part.before ++ x) framed;
        two = two;
      }

  checked-IsFramed :
      (b : Bool)
      → Gives
          (IsFramed body)
          (if b then written (content_length f.offset) f.file_start user f.filename md5 else failed)
  checked-IsFramed true = written-IsFramed (content_length f.offset) refl
  checked-IsFramed false = tt

parse_body-IsFramed : (body : Bytes) → Gives (IsFramed body) (parse_body body)
unfolding parse_body
parse_body-IsFramed body = step (IsFramed body) (file_part body) _ (λ f a0.
    let part : IsPart body f = Gives-ok (IsPart body) (file_part body) (file_part-IsPart body) a0 in
    step (IsFramed body) (deref (strstr_in (behind_file body f) user_key)) _ (λ p3 _.
      step (IsFramed body) (or_fail (trim_space_and_around (drop 11 p3))) _ (λ user_start _.
        step (IsFramed body) (field_value 128 user_start) _ (λ user _.
          step (IsFramed body) (deref (strstr_in user.1 md5_key)) _ (λ p4 _.
            step (IsFramed body) (deref (trim_space_and_around (drop 10 p4))) _ (λ md5_start _.
              step (IsFramed body) (field_value 256 md5_start) _ (λ md5 _.
                step (IsFramed body) (or_fail (strstr_in md5.1 size_key)) _ (λ p5 _.
                  step (IsFramed body) (or_fail (trim_space_and_around (drop 11 p5))) _
                    (λ size_start _.
                      step (IsFramed body) (field_value 65 size_start) _ (λ size_text _.
                        step (IsFramed body) (deref (strstr_in size_text.1 f.boundary)) _ (λ p6 _.
                          checked-IsFramed body f part user.0 md5.0
                            (eq_ℤ (content_length f.offset) (atoi_bytes size_text.0)))))))))))))

-- Whatever is posted: where `recv_save_file` gets as far as to write a file, with all its accesses
-- inside its memory up to there, the content stands in the body two bytes before a further copy of
-- its first line.
pub recv_save_file-IsFramed : (body : Bytes) → Gives (IsFramed body) (recv_save_file body)
unfolding recv_save_file
recv_save_file-IsFramed [] = tt
recv_save_file-IsFramed (c ∷ body) = parse_body-IsFramed (c ∷ body)
