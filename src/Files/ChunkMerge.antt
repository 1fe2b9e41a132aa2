-- ===== src/Files/ChunkMerge.antt =====
-- The database side of src_cgi/chunk_merge_cgi.c: a merged upload is bound to a file that the server
-- has, or its file is recorded.
pub mod Safety
use hydra_fs.Prelude.{ℕ, Option, String, if◌then◌else◌}
use hydra_fs.Prelude.Int.{ℤ, pos, negsuc, eq_ℤ, succ_ℤ}
use hydra_fs.Text.{get_file_suffix}
use hydra_fs.Base64.{codes}
use hydra_fs.Backend.{
  Sql, select_file_count, update_file_count, insert_file_info, select_user_file, insert_user_file,
  select_user_count, Cell, chars, System, Exec, ◌>>=◌, ◌>>◌, pure, goto_end, call, atoi,
}
use hydra_fs.Backend.Mysql.{with_database, return_value, select_one, execute}
use hydra_fs.Files.Count.{count_statement, raise_user_count}

module _ {W : Type 0} (sys : System W) where
  -- A count that cannot be read goes to END here.
  unfoldable pub raise_user_count_or_fail : String → Exec W (Unit {0})
  raise_user_count_or_fail user = do
    found ← select_one sys (select_user_count user) (chars "")
    if eq_ℤ found.0 (pos 1)
        then pure tt
        else if eq_ℤ found.0 (pos 0)
        then pure tt
        else goto_end (negsuc 0)
    execute sys (count_statement user found.0 found.1)
    pure tt

  unfoldable pub bind_existing_steps : (user filename md5 : String) → Exec W (Unit {0})
  bind_existing_steps user filename md5 = do
    found ← select_one sys (select_file_count md5) (chars "")
    if eq_ℤ found.0 (pos 1) then goto_end (pos 1) else pure tt
    if eq_ℤ found.0 (pos 0) then pure tt else goto_end (negsuc 0)
    owned ← select_one sys (select_user_file user md5 filename) (chars "")
    if eq_ℤ owned.0 (pos 0) then goto_end (pos 2) else pure tt
    if eq_ℤ owned.0 (pos 1) then pure tt else goto_end (negsuc 0)
    execute sys (update_file_count (succ_ℤ (atoi found.1)) md5)
    create_time ← call sys.local_time
    execute sys (insert_user_file user md5 create_time filename (pos 0) (pos 0))
    raise_user_count_or_fail user

  -- 0 bound, 1 no such file, 2 the user has it, -1 an error.
  unfoldable pub bind_existing_file_to_user : (user filename md5 : String) → W → Option ℤ × W
  bind_existing_file_to_user user filename md5 w =
      let (out, w') = with_database sys (bind_existing_steps user filename md5) w in
      (return_value out, w')

  -- The row of file_info: one more reference, or a new row where the query of the count gave none.
  unfoldable pub file_statement :
      (filename md5 : String) → (size : ℤ) → (fileid url : String) → ℤ → Cell → Sql
  file_statement filename md5 size fileid url ret2 tmp =
      if eq_ℤ ret2 (pos 0)
      then update_file_count (succ_ℤ (atoi tmp)) md5
      else insert_file_info md5 fileid url size (get_file_suffix (codes filename)) (pos 1)

  unfoldable pub store_fileinfo_steps :
      (user filename md5 : String) → (size : ℤ) → (fileid url : String) → Exec W (Unit {0})
  store_fileinfo_steps user filename md5 size fileid url = do
    owned ← select_one sys (select_user_file user md5 filename) (chars "")
    if eq_ℤ owned.0 (pos 0) then goto_end (pos 0) else pure tt
    found ← select_one sys (select_file_count md5) owned.1
    execute sys (file_statement filename md5 size fileid url found.0 found.1)
    create_time ← call sys.local_time
    execute sys (insert_user_file user md5 create_time filename (pos 0) (pos 0))
    raise_user_count sys user (chars "")
    pure tt

  unfoldable pub store_fileinfo_to_mysql :
      (user filename md5 : String) → (size : ℤ) → (fileid url : String) → W → Option ℤ × W
  store_fileinfo_to_mysql user filename md5 size fileid url w =
      let (out, w') =
        with_database sys (store_fileinfo_steps user filename md5 size fileid url) w in
      (return_value out, w')
