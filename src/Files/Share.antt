-- ===== src/Files/Share.antt =====
-- Sharing: `share_file` of src_cgi/dealfile_cgi.c, and `cancel_share_file` and `pv_file` of
-- src_cgi/dealsharefile_cgi.c.
pub mod Safety
use Prim.Native.String.{◌++◌ as ◌<>◌}
use hydra_fs.Prelude.{Option, some, String, if◌then◌else◌}
use hydra_fs.Prelude.Int.{ℤ, pos, negsuc, eq_ℤ, succ_ℤ, pred_ℤ}
use hydra_fs.Backend.{
  Sql, select_share, update_shared_status, insert_share, select_user_count, insert_user_count,
  update_user_count, delete_user_count, delete_share, select_share_pv, update_share_pv, Cell, chars,
  System, Exec, ◌>>=◌, ◌>>◌, pure, goto_end, call, atoi,
}
use hydra_fs.Backend.Mysql.{with_database, return_value, select_one, select_exists, execute}
use hydra_fs.Backend.Redis.{
  rop_zset_exit, rop_zset_add, rop_zset_zrem, rop_zset_increment, rop_hash_set, rop_hash_del,
}
use hydra_fs.Files.Count.{raise_user_count}
use hydra_fs.Files.Delete.{is_one_row}

abbrev pub public_zset : String
public_zset = "FILE_PUBLIC_ZSET"

abbrev pub public_count : String
public_count = "FILE_PUBLIC_COUNT"

abbrev pub name_hash : String
name_hash = "FILE_NAME_HASH"

-- The statement on the number of shared files.
unfoldable pub public_count_statement : ℤ → Sql
public_count_statement count =
    if eq_ℤ count (pos 1)
    then delete_user_count public_count
    else update_user_count (pred_ℤ count) public_count

module _ {W : Type 0} (sys : System W) where
  -- A request that needs Redis and MySQL, in this order.
  unfoldable pub with_both : Exec W (Unit {0}) → W → Option ℤ × W
  with_both steps w =
      let (opened, w1) = sys.redis_connect w in
      let (out, w2) = with_database sys steps w1 in
      if opened then (return_value out, w2) else (some (negsuc 0), w1)

  -- Redis does not know the file: a share that MySQL has is told to Redis.
  unfoldable pub refuse_shared : (md5 filename : String) → Exec W (Unit {0})
  refuse_shared md5 filename = do
    ret2 ← select_exists sys (select_share md5 filename)
    if eq_ℤ ret2 (pos 2)
        then (rop_zset_add sys public_zset (pos 0) (md5 <> filename) >> goto_end (negsuc 1))
        else pure tt

  unfoldable pub record_share : (user md5 filename : String) → Exec W (Unit {0})
  record_share user md5 filename = do
    updated ← execute sys (update_shared_status (pos 1) user md5 filename)
    if is_one_row updated then pure tt else goto_end (negsuc 0)
    create_time ← call sys.local_time
    token ← call (sys.share_token user md5 filename)
    execute sys (insert_share user md5 create_time filename (pos 0) token)
    raise_user_count sys public_count (chars "")
    rop_zset_add sys public_zset (pos 0) (md5 <> filename)
    rop_hash_set sys name_hash (md5 <> filename) filename
    pure tt

  unfoldable pub share_file_steps : (user md5 filename : String) → Exec W (Unit {0})
  share_file_steps user md5 filename = do
    ret2 ← rop_zset_exit sys public_zset (md5 <> filename)
    if eq_ℤ ret2 (pos 1) then goto_end (negsuc 1) else pure tt
    if eq_ℤ ret2 (pos 0) then refuse_shared md5 filename else goto_end (negsuc 0)
    record_share user md5 filename

  -- 0 shared, -2 shared before, -1 an error.
  unfoldable pub share_file : (user md5 filename : String) → W → Option ℤ × W
  share_file user md5 filename = with_both (share_file_steps user md5 filename)

  unfoldable pub cancel_share_steps : (user md5 filename : String) → Exec W (Unit {0})
  cancel_share_steps user md5 filename = do
    execute sys (update_shared_status (pos 0) user md5 filename)
    found ← select_one sys (select_user_count public_count) (chars "")
    if eq_ℤ found.0 (pos 0) then pure tt else goto_end (negsuc 0)
    execute sys (public_count_statement (atoi found.1))
    execute sys (delete_share user md5 filename)
    ret ← rop_zset_zrem sys public_zset (md5 <> filename)
    if eq_ℤ ret (pos 0) then pure tt else goto_end ret
    ret' ← rop_hash_del sys name_hash (md5 <> filename)
    if eq_ℤ ret' (pos 0) then pure tt else goto_end ret'

  unfoldable pub cancel_share_file : (user md5 filename : String) → W → Option ℤ × W
  cancel_share_file user md5 filename = with_both (cancel_share_steps user md5 filename)

  -- The last assignment to `ret` is what END returns.
  unfoldable pub rank_download : (md5 filename : String) → (pv : ℤ) → Exec W (Unit {0})
  rank_download md5 filename pv = do
    ret2 ← rop_zset_exit sys public_zset (md5 <> filename)
    if eq_ℤ ret2 (pos 1)
        then (rop_zset_increment sys public_zset (md5 <> filename) >>= goto_end)
        else if eq_ℤ ret2 (pos 0)
        then (rop_zset_add sys public_zset (succ_ℤ pv) (md5 <> filename)
            >> (rop_hash_set sys name_hash (md5 <> filename) filename >> pure tt))
        else goto_end (negsuc 0)

  unfoldable pub pv_file_steps : (md5 filename : String) → Exec W (Unit {0})
  pv_file_steps md5 filename = do
    found ← select_one sys (select_share_pv md5 filename) (chars "")
    if eq_ℤ found.0 (pos 0) then pure tt else goto_end (negsuc 0)
    execute sys (update_share_pv (succ_ℤ (atoi found.1)) md5 filename)
    rank_download md5 filename (atoi found.1)

  unfoldable pub pv_file : (md5 filename : String) → W → Option ℤ × W
  pv_file md5 filename = with_both (pv_file_steps md5 filename)
