-- ===== src/Accounts.antt =====
-- src_cgi/reg_cgi.c and src_cgi/login_cgi.c: registration with a salted hash, and the check of a
-- password against it; the front end sends the password's MD5 in place of the password. The programs
-- print a user name unescaped into the statements, so that these stand for one with no quote and no
-- backslash; names are compared as texts.
pub mod Login
pub mod Check
pub mod Admission
use Prim.Native.String.{◌++◌ as append}
use package.text.Mathlib.Text.{◌==◌ as str_eq}
use hydra_fs.Prelude.{Bool, Option, String, if◌then◌else◌}
use hydra_fs.Prelude.Int.{ℤ, pos, negsuc, eq_ℤ}
use hydra_fs.Backend.{
  select_user_name, select_nick_name, select_password, select_salt, insert_user_info, Cell, number,
  chars, System, Exec, ◌>>=◌, ◌>>◌, pure, goto_end, call,
}
use hydra_fs.Backend.Mysql.{
  text_of, with_database, return_value, select_one, select_exists, execute,
}

-- The random salt as text, from /dev/urandom or `rand()`, and the hash as text, `compute_md5_hex`.
pub record Hashing (W : Type 0) : Type 0 where
  pub generate_salt : W → String × W
  pub md5_hex : String → String

module _ {W : Type 0} (sys : System W) (hashing : Hashing W) where
  unfoldable pub salted_hash : (salt pwd : String) → String
  salted_hash salt pwd = hashing.md5_hex (append salt pwd)

  unfoldable pub register_steps : (user_name nick_name pwd tel email : String) → Exec W (Unit {0})
  register_steps user_name nick_name pwd tel email = do
    ret2 ← select_exists sys (select_user_name user_name)
    if eq_ℤ ret2 (pos 2) then goto_end (negsuc 1) else pure tt
    ret3 ← select_exists sys (select_nick_name nick_name)
    if eq_ℤ ret3 (pos 2) then goto_end (negsuc 2) else pure tt
    time_str ← call sys.local_time
    salt ← call hashing.generate_salt
    execute sys
        (insert_user_info user_name nick_name (salted_hash salt pwd) salt tel email time_str)
    pure tt

  -- 0, -1 an error, -2 the user name or -3 the nick name is taken; from the read request on.
  unfoldable pub user_register : (user_name nick_name pwd tel email : String) → W → Option ℤ × W
  user_register user_name nick_name pwd tel email w =
      let (out, w') = with_database sys (register_steps user_name nick_name pwd tel email) w in
      (return_value out, w')

  -- The result of the query of the salt is not read.
  unfoldable pub check_steps : (username pwd : String) → Exec W (Unit {0})
  check_steps username pwd = do
    stored_hash ← select_one sys (select_password username) (chars "")
    if eq_ℤ stored_hash.0 (pos 0) then pure tt else goto_end (negsuc 0)
    salt ← select_one sys (select_salt username) (chars "")
    if str_eq (text_of stored_hash.1) (salted_hash (text_of salt.1) pwd)
        then pure tt
        else goto_end (negsuc 0)

  unfoldable pub check_user_pwd : (username pwd : String) → W → Option ℤ × W
  check_user_pwd username pwd w =
      let (out, w') = with_database sys (check_steps username pwd) w in (return_value out, w')
