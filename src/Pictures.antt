-- ===== src/Pictures.antt =====
-- src_cgi/sharepicture_cgi.c: a picture that a user shares holds a reference to its file, under a link
-- that is an MD5.
pub mod Invariant
pub mod Statements
pub mod Request
pub mod Released
pub mod Cancel
use Prim.Native.String.{◌++◌ as append}
use package.text.Mathlib.Text.{◌==◌ as str_eq}
use hydra_fs.Prelude.{Option, none, some, String, [], ◌∷◌, if◌then◌else◌, ◌&&◌, not}
use hydra_fs.Prelude.Int.{ℤ, pos, negsuc, eq_ℤ, succ_ℤ, pred_ℤ, positive}
use hydra_fs.Backend.{
  Sql, select_picture, insert_picture, delete_picture, select_picture_view, update_picture_pv,
  select_file_url, select_file_reference, select_file_count, update_file_count, delete_file_info,
  select_user_count, update_user_count, Cell, chars, Reply, rows, System, Exec, ◌>>=◌, ◌>>◌, pure,
  goto_end, call, atoi, Out,
}
use hydra_fs.Backend.Mysql.{with_database, return_value, select_one, execute, first_column, text_of}
use hydra_fs.Backend.Redis.{survive}
use hydra_fs.Files.Count.{raise_user_count}
use hydra_fs.Files.Delete.{lowered}

-- MD5 in hexadecimal digits, and four random numbers below 16, in decimal and in hexadecimal.
pub record PictureNames (W : Type 0) : Type 0 where
  pub md5_hex : String → String
  pub decimals : W → String × W
  pub key : W → String × W

-- `user`, `filemd5`, `pv` and `create_time` of the row behind a link.
pub record PictureRow : Type 0 where
  pub user : String
  pub filemd5 : String
  pub pv : ℤ
  pub create_time : String

-- The JSON object that answers for a link.
pub record PictureLink : Type 0 where
  pub pv : ℤ
  pub url : String
  pub user : String
  pub time : String

-- The row of user_file_count for the pictures of a user.
unfoldable pub picture_count : String → String
picture_count user = append user "_share_picture_list_count"

-- `file_ref_count` and `file_id`; none where `atoi` reads NULL.
unfoldable pub file_reference : Reply → Option (ℤ × String)
file_reference (rows ((some count ∷ some id ∷ rest) ∷ more)) = some (atoi count, text_of id)
file_reference (rows ((some count ∷ rest) ∷ more)) = some (atoi count, "")
file_reference (rows (row ∷ more)) = none
file_reference _ = some (pos 0, "")

module _ {W : Type 0} (sys : System W) where
  -- The result is only logged.
  unfoldable pub try_statement : Sql → Exec W Reply
  try_statement sql_cmd = call (sys.mysql_query sql_cmd)

  -- The first column of the first row. Without a row there is nothing to cancel.
  unfoldable pub first_picture : Reply → Exec W String
  first_picture (rows []) = goto_end (pos 0)
  first_picture (rows (row ∷ rest)) = pure (text_of (first_column row (chars "")))
  first_picture _ = goto_end (negsuc 0)

  unfoldable pub lower_picture_count : String → ℤ → Exec W (Unit {0})
  lower_picture_count user count =
      if positive count
      then (try_statement (update_user_count (pred_ℤ count) (picture_count user)) >> pure tt)
      else pure tt

  unfoldable pub lower_reference : String → ℤ → Exec W (Unit {0})
  lower_reference filemd5 file_ref_count =
      if positive file_ref_count
      then (try_statement (update_file_count (pred_ℤ file_ref_count) filemd5) >> pure tt)
      else pure tt

  -- With the count behind `-= 1`.
  unfoldable pub drop_file : String → ℤ × String → Exec W (Unit {0})
  drop_file filemd5 (file_ref_count, file_id) =
      if eq_ℤ file_ref_count (pos 0) && not (str_eq file_id "")
      then (try_statement (delete_file_info filemd5)
          >> (call (sys.fdfs_delete_file (chars file_id)) >> pure tt))
      else pure tt

  unfoldable pub cancel_picture_steps : (user urlmd5 : String) → Exec W (Unit {0})
  cancel_picture_steps user urlmd5 = do
    reply ← execute sys (select_picture user urlmd5)
    filemd5 ← first_picture reply
    found ← select_one sys (select_user_count (picture_count user)) (chars "")
    if eq_ℤ found.0 (pos 0) then pure tt else goto_end (negsuc 0)
    lower_picture_count user (atoi found.1)
    found2 ← execute sys (select_file_reference filemd5)
    reference ← survive sys (file_reference found2)
    lower_reference filemd5 reference.0
    try_statement (delete_picture user urlmd5)
    drop_file filemd5 (lowered reference.0, reference.1)

  unfoldable pub cancel_share_picture : (user urlmd5 : String) → W → Option ℤ × W
  cancel_share_picture user urlmd5 w =
      let (out, w') = with_database sys (cancel_picture_steps user urlmd5) w in
      (return_value out, w')

  unfoldable pub request_picture_steps :
      (user filemd5 file_name urlmd5 key create_time tmp : String) → Exec W (Unit {0})
  request_picture_steps user filemd5 file_name urlmd5 key create_time tmp = do
    execute sys (insert_picture user filemd5 file_name urlmd5 key (pos 0) create_time)
    found ← select_one sys (select_file_count filemd5) (chars tmp)
    if eq_ℤ found.0 (pos 0) then pure tt else goto_end (negsuc 0)
    execute sys (update_file_count (succ_ℤ (atoi found.1)) filemd5)
    raise_user_count sys (picture_count user) found.1

  -- The time, the link and the key are made before the connection.
  unfoldable pub request_share_picture :
      PictureNames W → (user filemd5 file_name : String) → W → Option ℤ × W
  request_share_picture names user filemd5 file_name w =
      let (create_time, w1) = sys.local_time w in
      let (rand_num, w2) = names.decimals w1 in
      let tmp = append filemd5 (append create_time rand_num) in
      let (key, w3) = names.key w2 in
      let (out, w4) =
        with_database sys
          (request_picture_steps user filemd5 file_name (names.md5_hex tmp) key create_time tmp)
          w3 in
      (return_value out, w4)

  -- `strcpy` from a column that is NULL is a read of NULL.
  unfoldable pub picture_row : Reply → Exec W PictureRow
  picture_row (rows ((some user ∷ some filemd5 ∷ some name ∷ some pv ∷ some time ∷ rest) ∷ more)) =
      pure (record {
        user = text_of user;
        filemd5 = text_of filemd5;
        pv = atoi pv;
        create_time = text_of time;
      })
  picture_row (rows (row ∷ more)) = survive sys none
  picture_row _ = goto_end (negsuc 0)

  unfoldable pub picture_url : Reply → Exec W String
  picture_url (rows ((some url ∷ rest) ∷ more)) = pure (text_of url)
  picture_url (rows (row ∷ more)) = survive sys none
  picture_url _ = goto_end (negsuc 0)

  unfoldable pub picture_url_steps : (urlmd5 : String) → Exec W PictureLink
  picture_url_steps urlmd5 = do
    reply ← execute sys (select_picture_view urlmd5)
    row ← picture_row reply
    found ← execute sys (select_file_url row.filemd5)
    url ← picture_url found
    execute sys (update_picture_pv (succ_ℤ row.pv) urlmd5)
    pure (record { pv = row.pv; url = url; user = row.user; time = row.create_time })

  -- The answer and the return value.
  unfoldable pub request_share_picture_url : (urlmd5 : String) → W → Out PictureLink × W
  request_share_picture_url urlmd5 w = with_database sys (picture_url_steps urlmd5) w
