-- ===== src/Upload/Form.antt =====
-- The form that the pages of the front end post to src_cgi/upload_cgi.c.
pub mod FilePartRead
pub mod RoundTrip
use hydra_fs.Prelude.{
  ℕ, zero, suc, ◌+◌, ◌-◌, ◌≤◌, ◌<◌, ◌≡◌, refl, sym, ◌∙◌, some, ap, Bool, true, false, not, [], ◌∷◌,
  ◌++◌, append-nil, append_assoc, arith, length, length-append, length-drop, drop,
}
use hydra_fs.Prelude.Int.{pos, eq_ℤ}
use hydra_fs.Backend.{atoi_bytes}
use hydra_fs.Text.{Bytes, starts_with, isspace}
use hydra_fs.Base64.{codes}
use hydra_fs.Upload.Multipart.{
  Parse, ok, ◌>>=◌, or_fail, deref, or_fault, place, strstr_in, is_blank, trim_space_and_around,
  buffer_search, copied, content_length, Received, written, crlf, content_type, filename_key,
  user_key, md5_key, size_key, FilePart, file_part, behind_file, field_value, parse_body,
  recv_save_file,
}
use hydra_fs.Upload.Find.{
  absent, absent-append, absent-crlf_before, lacks, no_nul, strstr_in-skip, strstr_in-here,
  strstr_in-append, absent-separator, absent-crlf, absent-one, absent-first, absent-short,
  no_nul-drop, take-append, drop-behind, trim-stop, copied-append, field_value-append,
  buffer_search-append,
}

pub record Form : Type 0 where
  pub boundary : Bytes
  pub filename : Bytes
  pub type : Bytes
  pub content : Bytes
  pub user : Bytes
  pub md5 : Bytes
  pub size : Bytes

abbrev pub disposition : Bytes
disposition = codes "Content-Disposition: form-data; "

abbrev pub file_header : Bytes
file_header = codes "Content-Disposition: form-data; name=\"file\"; filename=\""

-- A field with its key, up to the line's end, and the boundary.
abbrev pub text_field : Form → (key value tail : Bytes) → Bytes
text_field f key value tail =
    crlf ++ (disposition ++ (key ++ (crlf ++ (crlf ++ (value ++ (crlf ++ (f.boundary ++ tail)))))))

-- Behind the boundary that ends the content.
abbrev pub fields : Form → Bytes
fields f =
    text_field f user_key f.user
      (text_field f md5_key f.md5 (text_field f size_key f.size (codes "--\r\n")))

abbrev pub from_content : Form → Bytes
from_content f = f.content ++ (crlf ++ (f.boundary ++ fields f))

abbrev pub from_filename : Form → Bytes → Bytes
from_filename f tail =
    f.filename ++ b'"' ∷ (crlf ++ (content_type ++ (b' ' ∷ (f.type ++ (crlf ++ (crlf ++ tail))))))

-- What a browser posts.
abbrev pub form_body : Form → Bytes
form_body f = f.boundary ++ (crlf ++ (file_header ++ from_filename f (from_content f)))

-- A field's value has no NUL and no line end, white space does not begin it, and it fits.
pub record IsValue (size : ℕ) (value : Bytes) : Type 0 where
  pub plain : no_nul value ≡ true
  pub one_line : absent crlf value (13 ∷ []) ≡ true
  pub first : ℕ
  pub rest : Bytes
  pub begins : value ≡ first ∷ rest
  pub visible : isspace first ≡ false
  pub fits : length value < size

-- The boundary is as browsers make it, no searched text stands in front of the place that is meant,
-- the texts fit the buffers, and the size is the content's.
pub record IsForm (f : Form) : Type 0 where
  pub boundary_plain : no_nul f.boundary ≡ true
  pub boundary_no_cr : lacks 13 f.boundary ≡ true
  pub boundary_no_lf : lacks 10 f.boundary ≡ true
  pub boundary_long : 2 ≤ length f.boundary
  pub boundary_fits : length f.boundary < 512
  pub boundary_no_type : absent content_type f.boundary (13 ∷ []) ≡ true
  pub boundary_no_md5 : absent md5_key f.boundary (13 ∷ []) ≡ true
  pub boundary_no_size : absent size_key f.boundary (13 ∷ []) ≡ true
  pub filename_plain : no_nul f.filename ≡ true
  pub filename_no_type : absent content_type f.filename (b'"' ∷ []) ≡ true
  pub filename_no_quote : lacks b'"' f.filename ≡ true
  pub filename_fits : length f.filename < 256
  pub type_plain : no_nul f.type ≡ true
  pub type_one_line : absent crlf f.type (13 ∷ []) ≡ true
  pub content_no_boundary : absent f.boundary f.content (13 ∷ []) ≡ true
  pub user_value : IsValue 128 f.user
  pub md5_value : IsValue 256 f.md5
  pub size_value : IsValue 65 f.size
  pub size_right : atoi_bytes f.size ≡ pos (length f.content)
