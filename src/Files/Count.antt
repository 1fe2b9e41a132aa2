-- ===== src/Files/Count.antt =====
-- The user's file count, as md5_cgi.c, dealsharefile_cgi.c and chunk_merge_cgi.c raise it.
pub mod Safety
use hydra_fs.Prelude.{String, if◌then◌else◌}
use hydra_fs.Prelude.Int.{ℤ, pos, eq_ℤ, succ_ℤ}
use hydra_fs.Backend.{
  Sql, select_user_count, insert_user_count, update_user_count, Cell, System, Exec, ◌>>=◌, ◌>>◌,
  pure, atoi,
}
use hydra_fs.Backend.Mysql.{select_one, execute}

-- The statement that `sql_cmd` holds after the query of the count: where that failed, still the
-- query.
unfoldable pub count_statement : String → ℤ → Cell → Sql
count_statement user ret2 tmp =
    if eq_ℤ ret2 (pos 1)
    then insert_user_count user (pos 1)
    else if eq_ℤ ret2 (pos 0)
    then update_user_count (succ_ℤ (atoi tmp)) user
    else select_user_count user

module _ {W : Type 0} (sys : System W) where
  unfoldable pub raise_user_count : String → Cell → Exec W (Unit {0})
  raise_user_count user tmp = do
    found ← select_one sys (select_user_count user) tmp
    execute sys (count_statement user found.0 found.1)
    pure tt
