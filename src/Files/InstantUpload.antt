-- ===== src/Files/InstantUpload.antt =====
-- src_cgi/md5_cgi.c: the upload of a file whose md5 the server has.
pub mod Safety
use hydra_fs.Prelude.{ℕ, Option, String, if◌then◌else◌}
use hydra_fs.Prelude.Int.{ℤ, pos, negsuc, eq_ℤ, succ_ℤ}
use hydra_fs.Backend.{
  select_file_count, update_file_count, select_user_file, insert_user_file, Cell, chars, System,
  Out, go, stop, crash, Exec, ◌>>=◌, ◌>>◌, pure, goto_end, call, atoi,
}
use hydra_fs.Backend.Mysql.{with_database, return_value, select_one, select_exists, execute}
use hydra_fs.Knowledge.{enqueue_parse_task}
use hydra_fs.Files.Count.{raise_user_count}

module _ {W : Type 0} (sys : System W) where
  -- The server has the file, with `count` references.
  unfoldable pub add_reference : (user md5 filename : String) → ℤ → Cell → Exec W (Unit {0})
  add_reference user md5 filename count tmp = do
    ret2 ← select_exists sys (select_user_file user md5 filename)
    if eq_ℤ ret2 (pos 2) then goto_end (negsuc 1) else pure tt
    execute sys (update_file_count (succ_ℤ count) md5)
    time_str ← call sys.local_time
    execute sys (insert_user_file user md5 time_str filename (pos 0) (pos 0))
    raise_user_count sys user tmp
    call (enqueue_parse_task sys user md5 "md5_hit")
    pure tt

  unfoldable pub deal_md5_steps : (user md5 filename : String) → Exec W (Unit {0})
  deal_md5_steps user md5 filename = do
    found ← select_one sys (select_file_count md5) (chars "")
    if eq_ℤ found.0 (pos 0)
        then add_reference user md5 filename (atoi found.1) found.1
        else if eq_ℤ found.0 (pos 1)
        then goto_end (negsuc 2)
        else pure tt

  -- The return value and the status code that the client gets.
  unfoldable pub deal_md5 : (user md5 filename : String) → W → Option ℤ × W
  deal_md5 user md5 filename w =
      let (out, w') = with_database sys (deal_md5_steps user md5 filename) w in
      (return_value out, w')

-- 0 for an instant upload, 5 for a file that the user has, 1 else.
pub md5_status : ℤ → ℕ
md5_status ret = if eq_ℤ ret (pos 0) then 0 else if eq_ℤ ret (negsuc 1) then 5 else 1
