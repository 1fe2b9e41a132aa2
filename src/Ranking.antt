-- ===== src/Ranking.antt =====
-- src_cgi/sharefiles_cgi.c: the number of the shared files, and the public ranking, which Redis holds
-- and which is read again from MySQL where the two do not count the same.
pub mod Store
pub mod Mirror
pub mod Rules
pub mod Rebuild
pub mod Count
pub mod Request
use Prim.Native.String.{◌++◌ as ◌<>◌}
use hydra_fs.Prelude.{Option, none, some, String, List, [], ◌∷◌, if◌then◌else◌, take}
use hydra_fs.Prelude.Int.{ℤ, pos, negsuc, eq_ℤ, pred_ℤ, ◌+ℤ◌, negative}
use hydra_fs.Text.{Bytes}
use hydra_fs.Base64.{codes}
use hydra_fs.Backend.{
  select_user_count, select_all_shares, select_share_view, set_names_utf8, Cell, chars, Row, Reply,
  rows, System, Out, go, stop, Exec, ◌>>=◌, ◌>>◌, pure, goto_end, call, atoi,
}
use hydra_fs.Backend.Mysql.{
  msql_conn, process_result_one, with_database, select_one, execute, text_of, buffer,
}
use hydra_fs.Backend.Redis.{
  rop_del_key, rop_zset_add, rop_hash_set, rop_zset_zcard, rop_zset_zrevrange, rop_hash_get,
  rop_zset_get_score,
}
use hydra_fs.Files.Share.{public_zset, public_count, name_hash}

-- One object of the array `files`: the columns of `sql_cmd2` where there are, and the rest.
pub record Item : Type 0 where
  pub columns : Option Row
  pub md5 : Bytes
  pub file_name : String
  pub pv : ℤ

-- The return value and `*pcout`.
unfoldable pub public_number : ℤ × Option Cell → ℤ × ℤ
public_number (ret, tmp) =
    if eq_ℤ ret (pos 1)
    then (pos 0, pos 0)
    else if eq_ℤ ret (pos 0)
    then (pos 0, atoi (buffer tmp))
    else (ret, pos 0)

-- `row[0]`, `row[1]` and `atoi(row[2])`, if none is NULL.
unfoldable pub share_of_row : Row → Option (String × String × ℤ)
share_of_row (some md5 ∷ some file_name ∷ some pv ∷ row) =
    some (text_of md5, text_of file_name, atoi pv)
share_of_row _ = none

unfoldable pub first_row : Reply → Option Row
first_row (rows (row ∷ rest)) = some row
first_row _ = none

module _ {W : Type 0} (sys : System W) where
  -- 1 where there is no connection.
  unfoldable pub get_share_files_count : W → (ℤ × ℤ) × W
  get_share_files_count w =
      let (connected, w1) = msql_conn sys w in
      let (names, w2) = sys.mysql_query set_names_utf8 w1 in
      let (found, w3) =
        process_result_one sys (select_user_count public_count) (some (chars "")) w2 in
      if connected then (public_number found, sys.mysql_close w3) else ((pos 1, pos 0), w1)

  unfoldable pub or_end : {A : Type 0} → Option A → Exec W A
  or_end none = goto_end (negsuc 0)
  or_end (some a) = pure a

  -- The results of the two commands are not read.
  unfoldable pub import_share : String × String × ℤ → Exec W (Unit {0})
  import_share (md5, file_name, pv) = do
    rop_zset_add sys public_zset pv (md5 <> file_name)
    rop_hash_set sys name_hash (md5 <> file_name) file_name
    pure tt

  unfoldable pub import_rows : List Row → Exec W (Unit {0})
  import_rows [] = pure tt
  import_rows (row ∷ rest) = do
    share ← or_end (share_of_row row)
    import_share share
    import_rows rest

  -- A result with no row is an error.
  unfoldable pub import_result : Reply → Exec W (Unit {0})
  import_result (rows (row ∷ rest)) = import_rows (row ∷ rest)
  import_result _ = goto_end (negsuc 0)

  unfoldable pub rebuild : Exec W (Unit {0})
  rebuild = do
    rop_del_key sys public_zset
    rop_del_key sys name_hash
    reply ← execute sys select_all_shares
    import_result reply

  unfoldable pub read_item : String → Exec W Item
  read_item member = do
    name ← rop_hash_get sys name_hash member
    file_name ← or_end name
    score ← rop_zset_get_score sys public_zset member
    if eq_ℤ score (negsuc 0) then goto_end (negsuc 0) else pure tt
    reply ← call (sys.mysql_query (select_share_view (take 32 (codes member)) file_name))
    pure (record {
      columns = first_row reply;
      md5 = take 32 (codes member);
      file_name = file_name;
      pv = score;
    })

  unfoldable pub read_items : List String → Exec W (List Item)
  read_items [] = pure []
  read_items (member ∷ rest) = do
    item ← read_item member
    items ← read_items rest
    pure (item ∷ items)

  unfoldable pub renewed : (sql_num redis_num : ℤ) → Exec W (Unit {0})
  renewed sql_num redis_num = if eq_ℤ redis_num sql_num then pure tt else rebuild

  -- `calloc` of a negative count gives NULL.
  unfoldable pub ranking_steps : (start count : ℤ) → Exec W (List Item)
  ranking_steps start count = do
    found ← select_one sys (select_user_count public_count) (chars "")
    sql_num ←
        (let (ret, n) = public_number (found.0, some found.1) in
          if eq_ℤ ret (pos 0) then pure n else goto_end (negsuc 0))
    redis_num ← rop_zset_zcard sys public_zset
    if eq_ℤ redis_num (negsuc 0) then goto_end (negsuc 0) else pure tt
    renewed sql_num redis_num
    if negative count then goto_end (negsuc 0) else pure tt
    value ← rop_zset_zrevrange sys public_zset start (pred_ℤ (start +ℤ count))
    members ← or_end value
    read_items members

  unfoldable pub ranked : (start count : ℤ) → W → Out (List Item) × W
  ranked start count w =
      let (opened, w1) = sys.redis_connect w in
      let (out, w2) = with_database sys (ranking_steps start count) w1 in
      if opened then (out, w2) else (stop (negsuc 0), w1)

  -- With no shared file nothing is listed.
  unfoldable pub get_ranking_filelist : (start count : ℤ) → W → Out (List Item) × W
  get_ranking_filelist start count w =
      let ((ret, total), w1) = get_share_files_count w in
      if eq_ℤ ret (pos 0)
      then (if eq_ℤ total (pos 0) then (go [], w1) else ranked start count w1)
      else (stop (negsuc 0), w1)
