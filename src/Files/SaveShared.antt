-- ===== src/Files/SaveShared.antt =====
-- `save_file` of src_cgi/dealsharefile_cgi.c: a user takes over a shared file.
pub mod Safety
use hydra_fs.Prelude.{Bool, not, ℕ, Option, String, if◌then◌else◌}
use hydra_fs.Prelude.Int.{ℤ, pos, negsuc, eq_ℤ, succ_ℤ}
use hydra_fs.Backend.{
  select_file_count, update_file_count, select_user_file, insert_user_file, chars, System, Exec,
  ◌>>=◌, ◌>>◌, pure, goto_end, call, atoi,
}
use hydra_fs.Backend.Mysql.{with_database, return_value, select_one, select_exists, execute}
use hydra_fs.Files.Count.{raise_user_count}

module _ {W : Type 0} (sys : System W) where
  unfoldable pub save_file_steps : (user md5 filename : String) → Exec W (Unit {0})
  save_file_steps user md5 filename = do
    owned ← select_exists sys (select_user_file user md5 filename)
    if eq_ℤ owned (pos 2) then goto_end (negsuc 1) else pure tt
    found ← select_one sys (select_file_count md5) (chars "")
    if eq_ℤ found.0 (pos 0) then pure tt else goto_end (negsuc 0)
    execute sys (update_file_count (succ_ℤ (atoi found.1)) md5)
    time_str ← call sys.local_time
    execute sys (insert_user_file user md5 time_str filename (pos 0) (pos 0))
    raise_user_count sys user found.1
    pure tt

  unfoldable pub save_file : (user md5 filename : String) → W → Option ℤ × W
  save_file user md5 filename w =
      let (out, w') = with_database sys (save_file_steps user md5 filename) w in
      (return_value out, w')
