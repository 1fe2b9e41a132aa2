-- ===== src/Upload/Form/FilePartRead.antt =====
-- The file part of a posted form is read back.
use hydra_fs.Prelude.{
  ◌+◌, ◌<◌, ◌≡◌, refl, sym, ◌∙◌, some, [], ◌∷◌, ◌++◌, append_assoc, arith, length, length-append,
}
use hydra_fs.Text.{Bytes, starts_with}
use hydra_fs.Base64.{codes}
use hydra_fs.Upload.Multipart.{
  ok, place, strstr_in, buffer_search, crlf, content_type, filename_key, FilePart, file_part,
}
use hydra_fs.Upload.Find.{
  absent-append, absent-crlf_before, strstr_in-skip, strstr_in-append, absent-separator,
  absent-crlf, absent-one, absent-first, copied-append, buffer_search-append,
}
use hydra_fs.Upload.Form.{Form, file_header, fields, from_content, from_filename, form_body, IsForm}

module _ (f : Form) (h : IsForm f) where
  abbrev after_type : Bytes
  after_type = b' ' ∷ (f.type ++ (crlf ++ (crlf ++ from_content f)))

  abbrev lines : Bytes
  lines = file_header ++ from_filename f (from_content f)

  pub some_boundary : 0 < length f.boundary
  some_boundary = omega (arith, h.boundary_long)

  boundary_end : strstr_in (form_body f) crlf ≡ place (crlf ++ lines)
  boundary_end =
      strstr_in-append f.boundary crlf lines h.boundary_plain
        (absent-first 13 (10 ∷ []) f.boundary (crlf ++ lines) h.boundary_no_cr)

  type_found : strstr_in (form_body f) content_type ≡ place (content_type ++ after_type)
  unfolding starts_with
  type_found =
      strstr_in-skip f.boundary (crlf ++ lines) content_type h.boundary_plain
        (absent-separator 13 content_type f.boundary (10 ∷ lines) refl h.boundary_no_type)
      ∙ strstr_in-skip (crlf ++ file_header) (from_filename f (from_content f)) content_type refl
          refl
      ∙ strstr_in-skip f.filename (b'"' ∷ crlf ++ (content_type ++ after_type)) content_type
          h.filename_plain
          (absent-separator b'"' content_type f.filename (crlf ++ (content_type ++ after_type)) refl
            h.filename_no_type)
      ∙ strstr_in-append (b'"' ∷ crlf) content_type after_type refl refl

  line_end : strstr_in (content_type ++ after_type) crlf ≡ place (crlf ++ (crlf ++ from_content f))
  unfolding starts_with
  line_end =
      strstr_in-skip (content_type ++ b' ' ∷ []) (f.type ++ (crlf ++ (crlf ++ from_content f))) crlf
        refl refl
      ∙ strstr_in-append f.type crlf (crlf ++ from_content f) h.type_plain
          (absent-crlf f.type (10 ∷ crlf ++ from_content f) h.type_one_line)

  content_end : buffer_search (from_content f) f.boundary ≡ some (length f.content + 2)
  content_end =
      let e : from_content f ≡ (f.content ++ crlf) ++ (f.boundary ++ fields f) =
        sym (append_assoc f.content crlf (f.boundary ++ fields f)) in
      let n : length (f.content ++ crlf) ≡ length f.content + 2 = length-append f.content crlf in
      rw (
        e,
        buffer_search-append (f.content ++ crlf) f.boundary (fields f) some_boundary (
            absent-append f.boundary f.content crlf (f.boundary ++ fields f)
              (absent-separator 13 f.boundary f.content (10 ∷ f.boundary ++ fields f)
                h.boundary_no_cr h.content_no_boundary)
              (absent-crlf_before f.boundary (f.boundary ++ fields f) some_boundary h.boundary_no_cr
                h.boundary_no_lf)),
        n,
      )

  name_found :
      strstr_in (crlf ++ lines) filename_key
      ≡ place (filename_key ++ b'"' ∷ from_filename f (from_content f))
  unfolding starts_with
  name_found =
      strstr_in-append (crlf ++ codes "Content-Disposition: form-data; name=\"file\"; ")
        filename_key (b'"' ∷ from_filename f (from_content f)) refl refl

  name_end :
      strstr_in (from_filename f (from_content f)) (b'"' ∷ [])
      ≡ place (b'"' ∷ (crlf ++ (content_type ++ after_type)))
  name_end =
      strstr_in-append f.filename (b'"' ∷ []) (crlf ++ (content_type ++ after_type))
        h.filename_plain (absent-one b'"' f.filename _ h.filename_no_quote)

  abbrev pub part : FilePart
  part = record {
    boundary = f.boundary;
    file_start = from_content f;
    offset = length f.content + 2;
    filename = f.filename;
  }

  pub file_part-form : file_part (form_body f) ≡ ok part
  unfolding file_part
  file_part-form = rw (
    boundary_end,
    copied-append 512 f.boundary (crlf ++ lines) h.boundary_fits,
    type_found,
    line_end,
    content_end,
    name_found,
    name_end,
    copied-append 256 f.filename (b'"' ∷ (crlf ++ (content_type ++ after_type))) h.filename_fits,
  )
