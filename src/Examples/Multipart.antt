-- ===== src/Examples/Multipart.antt =====
-- The theorems on the posted form at a concrete body.
use hydra_fs.Prelude.{◌≡◌, refl, [], ◌∷◌, arith}
use hydra_fs.Text.{isspace, starts_with}
use hydra_fs.Base64.{codes}
use hydra_fs.Backend.{atoi_bytes}
use hydra_fs.Upload.Multipart.{ok, recv_save_file}
use hydra_fs.Upload.Form.{Form, form_body, IsForm}
use hydra_fs.Upload.Form.RoundTrip.{recv_save_file-form}
use hydra_fs.Upload.Gives.{Gives}
use hydra_fs.Upload.Sound.{IsFramed, recv_save_file-IsFramed}

abbrev form : Form
form = record {
  boundary = codes "------WebKitFormBoundary88a";
  filename = codes "cat.jpg";
  type = codes "image/jpeg";
  content = 255 ∷ 216 ∷ 0 ∷ 13 ∷ 10 ∷ 45 ∷ [];
  user = codes "ann";
  md5 = codes "00ff";
  size = codes "6";
}

form-IsForm : IsForm form
unfolding starts_with isspace atoi_bytes
form-IsForm = record {
  boundary_plain = refl;
  boundary_no_cr = refl;
  boundary_no_lf = refl;
  boundary_long = omega arith;
  boundary_fits = omega arith;
  boundary_no_type = refl;
  boundary_no_md5 = refl;
  boundary_no_size = refl;
  filename_plain = refl;
  filename_no_type = refl;
  filename_no_quote = refl;
  filename_fits = omega arith;
  type_plain = refl;
  type_one_line = refl;
  content_no_boundary = refl;
  user_value = record {
    plain = refl;
    one_line = refl;
    first = b'a';
    rest = codes "nn";
    begins = refl;
    visible = refl;
    fits = omega arith;
  };
  md5_value = record {
    plain = refl;
    one_line = refl;
    first = b'0';
    rest = codes "0ff";
    begins = refl;
    visible = refl;
    fits = omega arith;
  };
  size_value = record {
    plain = refl;
    one_line = refl;
    first = b'6';
    rest = [];
    begins = refl;
    visible = refl;
    fits = omega arith;
  };
  size_right = refl;
}

form_example :
    recv_save_file (form_body form)
    ≡ ok (record {
      user = form.user;
      filename = form.filename;
      md5 = form.md5;
      content = form.content;
    })
form_example = recv_save_file-form form form-IsForm

framed_example : Gives (IsFramed (form_body form)) (recv_save_file (form_body form))
framed_example = recv_save_file-IsFramed (form_body form)
