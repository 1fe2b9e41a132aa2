-- ===== src/Upload/Form/RoundTrip.antt =====
-- `recv_save_file` reads back what a browser posts.
use hydra_fs.Prelude.{
  ℕ, suc, ◌+◌, ◌-◌, ◌<◌, ◌≡◌, refl, ◌∙◌, true, false, [], ◌∷◌, ◌++◌, append_assoc, arith, length,
  length-append, length-drop, drop,
}
use hydra_fs.Prelude.Int.{pos, eq_ℤ}
use hydra_fs.Text.{Bytes, starts_with, isspace}
use hydra_fs.Base64.{codes}
use hydra_fs.Upload.Multipart.{
  ok, place, strstr_in, is_blank, trim_space_and_around, content_length, Received, written, crlf,
  content_type, user_key, md5_key, size_key, behind_file, field_value, parse_body, recv_save_file,
}
use hydra_fs.Upload.Find.{
  absent, absent-crlf_before, lacks, no_nul, strstr_in-skip, strstr_in-append, absent-separator,
  absent-short, no_nul-drop, take-append, drop-behind, trim-stop, field_value-append,
}
use hydra_fs.Upload.Form.{
  Form, disposition, file_header, text_field, fields, from_content, from_filename, form_body,
  IsValue, IsForm,
}
use hydra_fs.Upload.Form.FilePartRead.{part, file_part-form, some_boundary}

blank_of_space : (c : ℕ) → isspace c ≡ false → is_blank c ≡ false
unfolding is_blank isspace
blank_of_space c h = ground arith

-- The blanks behind a key lead to the value.
value_found :
    (size : ℕ) (value t : Bytes)
    → IsValue size value
    → trim_space_and_around (crlf ++ (crlf ++ (value ++ t))) ≡ place (value ++ t)
unfolding trim_space_and_around is_blank isspace
value_found size value t v =
    rw (v.begins, trim-stop v.first (v.rest ++ t) (blank_of_space v.first v.visible))

nonempty : (s : Bytes) → 0 < length s → recv_save_file s ≡ parse_body s
unfolding recv_save_file
nonempty [] l = absurd (omega arith)
nonempty (c ∷ s) l = refl

module _ (f : Form) (h : IsForm f) where
  abbrev tail : Bytes
  tail = drop (length f.boundary - 2) f.boundary

  abbrev prefix : Bytes
  prefix =
      f.boundary
      ++ (crlf
          ++ (file_header
              ++ (f.filename
                  ++ b'"' ∷ (crlf ++ (content_type ++ (b' ' ∷ (f.type ++ (crlf ++ crlf))))))))

  form_body-split : form_body f ≡ prefix ++ from_content f
  form_body-split = simp (append_assoc)

  behind : behind_file (form_body f) (part f h) ≡ tail ++ fields f
  behind = rw form_body-split (drop-behind prefix f.content f.boundary (fields f) h.boundary_long)

  tail_plain : no_nul tail ≡ true
  tail_plain = no_nul-drop (length f.boundary - 2) f.boundary h.boundary_plain

  abbrev md5_on : Bytes
  md5_on = text_field f md5_key f.md5 (text_field f size_key f.size (codes "--\r\n"))

  user_found :
      strstr_in (tail ++ fields f) user_key
      ≡ place (user_key ++ (crlf ++ (crlf ++ (f.user ++ (crlf ++ (f.boundary ++ md5_on))))))
  unfolding starts_with
  user_found =
      strstr_in-skip tail (fields f) user_key tail_plain (
        absent-separator 13 user_key tail _ refl (
          absent-short user_key tail (13 ∷ [])
            (omega (arith, length-drop {0} (length f.boundary - 2) f.boundary, h.boundary_long))))
      ∙ strstr_in-append (crlf ++ disposition) user_key
          (crlf ++ (crlf ++ (f.user ++ (crlf ++ (f.boundary ++ md5_on))))) refl refl

  -- The key of the next field is found from the end of a value on.
  next_found :
      (key value t : Bytes)
      → 0 < length key
      → lacks 13 key ≡ true
      → lacks 10 key ≡ true
      → absent key f.boundary (13 ∷ []) ≡ true
      → absent key (crlf ++ disposition) (key ++ (crlf ++ (crlf ++ (value ++ t)))) ≡ true
      → strstr_in
          (crlf
            ++ (f.boundary ++ (crlf ++ (disposition ++ (key ++ (crlf ++ (crlf ++ (value ++ t))))))))
          key
        ≡ place (key ++ (crlf ++ (crlf ++ (value ++ t))))
  next_found key value t p l n b d =
      strstr_in-skip crlf _ key refl (absent-crlf_before key _ p l n)
      ∙ strstr_in-skip f.boundary _ key h.boundary_plain (absent-separator 13 key f.boundary _ l b)
      ∙ strstr_in-append (crlf ++ disposition) key (crlf ++ (crlf ++ (value ++ t))) refl d

  abbrev size_on : Bytes
  size_on = text_field f size_key f.size (codes "--\r\n")

  md5_found :
      strstr_in (crlf ++ (f.boundary ++ md5_on)) md5_key
      ≡ place (md5_key ++ (crlf ++ (crlf ++ (f.md5 ++ (crlf ++ (f.boundary ++ size_on))))))
  unfolding starts_with
  md5_found =
      next_found md5_key f.md5 (crlf ++ (f.boundary ++ size_on)) (omega arith) refl refl
        h.boundary_no_md5 refl

  abbrev closing : Bytes
  closing = f.boundary ++ codes "--\r\n"

  size_found :
      strstr_in (crlf ++ (f.boundary ++ size_on)) size_key
      ≡ place (size_key ++ (crlf ++ (crlf ++ (f.size ++ (crlf ++ closing)))))
  unfolding starts_with
  size_found =
      next_found size_key f.size (crlf ++ closing) (omega arith) refl refl h.boundary_no_size refl

  closing_found : strstr_in (crlf ++ closing) f.boundary ≡ place closing
  closing_found =
      strstr_in-append crlf f.boundary (codes "--\r\n") refl (
        absent-crlf_before f.boundary closing (some_boundary f h) h.boundary_no_cr h.boundary_no_lf)

  abbrev received : Received
  received = record { user = f.user; filename = f.filename; md5 = f.md5; content = f.content }

  value_read :
      (size : ℕ) (value t : Bytes)
      → IsValue size value
      → field_value size (value ++ (crlf ++ t)) ≡ ok (value, crlf ++ t)
  value_read size value t v = field_value-append size value t v.plain v.one_line v.fits

  length_read : content_length (length f.content + 2) ≡ pos (length f.content)
  unfolding content_length
  length_read = let e : length f.content + 2 ≡ suc (suc (length f.content)) = omega arith in rw e

  equal_lengths : eq_ℤ (pos (length f.content)) (pos (length f.content)) ≡ true
  equal_lengths = ground arith

  content_read :
      written (pos (length f.content)) (from_content f) f.user f.filename f.md5 ≡ ok received
  unfolding written
  content_read = rw (take-append f.content (crlf ++ (f.boundary ++ fields f)))

  parse_body-form : parse_body (form_body f) ≡ ok received
  unfolding parse_body
  parse_body-form = rw (
    file_part-form f h,
    behind,
    user_found,
    value_found 128 f.user (crlf ++ (f.boundary ++ md5_on)) h.user_value,
    value_read 128 f.user (f.boundary ++ md5_on) h.user_value,
    md5_found,
    value_found 256 f.md5 (crlf ++ (f.boundary ++ size_on)) h.md5_value,
    value_read 256 f.md5 (f.boundary ++ size_on) h.md5_value,
    size_found,
    value_found 65 f.size (crlf ++ closing) h.size_value,
    value_read 65 f.size closing h.size_value,
    closing_found,
    length_read,
    h.size_right,
    equal_lengths,
    content_read,
  )

  -- Of a body in the form that browsers post, the fields, the file's name and its content are read
  -- back exactly, whatever bytes the content has: provided the boundary does not stand in it and
  -- has no NUL, CR or LF, the texts fit the buffers, no searched key stands before its place, no
  -- value begins with white space, and the size field is the content's length.
  pub recv_save_file-form : recv_save_file (form_body f) ≡ ok received
  recv_save_file-form =
      nonempty (form_body f) (
        omega (
          arith,
          some_boundary f h,
          length-append {0} f.boundary (crlf ++ (file_header ++ from_filename f (from_content f))),
        ))
      ∙ parse_body-form
