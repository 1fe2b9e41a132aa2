-- ===== src/Files/Delete.antt =====
-- `del_file` of src_cgi/dealfile_cgi.c: a user's file is taken back from the public ones, its row is
-- deleted in a transaction, and the last reference removes the file from storage.
pub mod Row
pub mod Release
pub mod Unshare
pub mod Transaction
pub mod LastReference
pub mod Safety
use Prim.Native.String.{◌++◌ as ◌<>◌}
use hydra_fs.Prelude.{ltb, ◌==◌, Bool, true, false, Option, some, String, if◌then◌else◌}
use hydra_fs.Prelude.Int.{ℤ, pos, negsuc, eq_ℤ, pred_ℤ, positive}
use hydra_fs.Backend.{
  start_transaction, commit, rollback, select_file_count, select_file_id, delete_file_info,
  update_file_count, select_shared_status, delete_user_file, select_user_count, update_user_count,
  delete_share, delete_ai_desc, delete_wiki_page, delete_wiki_link, Cell, chars, Reply, affected,
  System, Out, go, stop, crash, Exec, ◌>>=◌, ◌>>◌, pure, goto_end, call, atoi,
}
use hydra_fs.Backend.Mysql.{with_database, return_value, select_one, execute}
use hydra_fs.Backend.Redis.{rop_zset_exit, rop_zset_zrem, rop_hash_del}
use hydra_fs.Knowledge.{enqueue_knowledge_task}

-- `mysql_affected_rows(conn) == 1`, and `(int)mysql_affected_rows(conn) > 0`: -1 behind a query.
unfoldable pub is_one_row : Reply → Bool
is_one_row (affected n) = n == 1
is_one_row _ = false

unfoldable pub is_some_row : Reply → Bool
is_some_row (affected n) = ltb 0 n
is_some_row _ = false

-- `if (count > 0) count -= 1;`
unfoldable pub lowered : ℤ → ℤ
lowered count = if positive count then pred_ℤ count else count

module _ {W : Type 0} (sys : System W) where
  unfoldable pub shared_by_row : (user md5 filename : String) → Exec W (ℤ × (Bool × Cell))
  shared_by_row user md5 filename = do
    found ← select_one sys (select_shared_status user md5 filename) (chars "")
    if eq_ℤ found.0 (pos 0)
        then pure (atoi found.1, (false, found.1))
        else if eq_ℤ found.0 (negsuc 0)
        then goto_end (negsuc 0)
        else pure (pos 0, (false, found.1))

  -- `share`, `flag` and the buffer after them.
  unfoldable pub share_state : (user md5 filename : String) → Exec W (ℤ × (Bool × Cell))
  share_state user md5 filename = do
    ret2 ← rop_zset_exit sys "FILE_PUBLIC_ZSET" (md5 <> filename)
    if eq_ℤ ret2 (pos 1)
        then pure (pos 1, (true, chars ""))
        else if eq_ℤ ret2 (pos 0)
        then shared_by_row user md5 filename
        else goto_end (negsuc 0)

  unfoldable pub forget_share : (md5 filename : String) → Exec W (Unit {0})
  forget_share md5 filename = do
    rop_zset_zrem sys "FILE_PUBLIC_ZSET" (md5 <> filename)
    rop_hash_del sys "FILE_NAME_HASH" (md5 <> filename)
    pure tt

  unfoldable pub unshare : (user md5 filename : String) → (flag : Bool) → Cell → Exec W Cell
  unshare user md5 filename flag tmp = do
    execute sys (delete_share user md5 filename)
    found ← select_one sys (select_user_count "FILE_PUBLIC_COUNT") tmp
    if eq_ℤ found.0 (pos 0) then pure tt else goto_end (negsuc 0)
    execute sys (update_user_count (pred_ℤ (atoi found.1)) "FILE_PUBLIC_COUNT")
    if flag then forget_share md5 filename else pure tt
    pure found.1

  unfoldable pub lower_user_count : String → ℤ → Exec W (Unit {0})
  lower_user_count user count = do execute sys (update_user_count (pred_ℤ count) user); pure tt

  -- From the deletion of the row to COMMIT; what the deletion from user_file_ai_desc said.
  unfoldable pub unlink_row : (user md5 filename : String) → Exec W Reply
  unlink_row user md5 filename = do
    gone ← execute sys (delete_user_file user md5 filename)
    if is_one_row gone then pure tt else goto_end (negsuc 0)
    queued ← call (enqueue_knowledge_task sys user md5 "delete_source" "delete")
    if eq_ℤ queued (pos 0) then pure tt else goto_end (negsuc 0)
    cleared ← execute sys (delete_ai_desc user md5)
    execute sys commit
    pure cleared

  -- Behind START TRANSACTION; `ai_index_dirty` and the buffer.
  unfoldable pub remove_row : (user md5 filename : String) → Cell → Exec W (Bool × Cell)
  remove_row user md5 filename tmp = do
    found ← select_one sys (select_user_count user) tmp
    if eq_ℤ found.0 (pos 0) then pure tt else goto_end (negsuc 0)
    if positive (atoi found.1) then lower_user_count user (atoi found.1) else pure tt
    cleared ← unlink_row user md5 filename
    pure (is_some_row cleared, found.1)

  unfoldable pub end_transaction : {A : Type 0} → Out A → Exec W A
  end_transaction (go a) w = (go a, w)
  end_transaction (stop ret) w = let (reply, w') = sys.mysql_query rollback w in (stop ret, w')
  end_transaction crash w = (crash, w)

  -- The steps while `ai_transaction_active`: END rolls back.
  unfoldable pub in_transaction : {A : Type 0} → Exec W A → Exec W A
  in_transaction steps = do
    execute sys start_transaction
    λ w. let (out, w') = steps w in end_transaction out w'

  unfoldable pub remove_file : (md5 : String) → Cell → Exec W (Unit {0})
  remove_file md5 tmp = do
    found ← select_one sys (select_file_id md5) tmp
    if eq_ℤ found.0 (pos 0) then pure tt else goto_end (negsuc 0)
    execute sys (delete_file_info md5)
    ret2 ← call (sys.fdfs_delete_file found.1)
    if eq_ℤ ret2 (pos 0) then pure tt else goto_end (negsuc 0)

  unfoldable pub release_reference : (md5 : String) → Cell → Exec W (Unit {0})
  release_reference md5 tmp = do
    found ← select_one sys (select_file_count md5) tmp
    if eq_ℤ found.0 (pos 0) then pure tt else goto_end (negsuc 0)
    execute sys (update_file_count (lowered (atoi found.1)) md5)
    if eq_ℤ (lowered (atoi found.1)) (pos 0) then remove_file md5 found.1 else pure tt

  unfoldable pub mark_user_index_dirty : String → Exec W (Unit {0})
  mark_user_index_dirty user = call (λ w. (tt, sys.touch_dirty_mark user w))

  -- Behind COMMIT.
  unfoldable pub clean_up : (user md5 : String) → (dirty : Bool) → Cell → Exec W (Unit {0})
  clean_up user md5 dirty tmp = do
    if dirty then mark_user_index_dirty user else pure tt
    call (sys.mysql_query (delete_wiki_page user md5))
    call (sys.mysql_query (delete_wiki_link user md5))
    release_reference md5 tmp

  unfoldable pub del_file_steps : (user md5 filename : String) → Exec W (Unit {0})
  del_file_steps user md5 filename = do
    shared ← share_state user md5 filename
    tmp ←
        (if eq_ℤ shared.0 (pos 1)
          then unshare user md5 filename shared.1.0 shared.1.1
          else pure shared.1.1)
    removed ← in_transaction (remove_row user md5 filename tmp)
    clean_up user md5 removed.0 removed.1

  unfoldable pub del_file : (user md5 filename : String) → W → Option ℤ × W
  del_file user md5 filename w =
      let (opened, w1) = sys.redis_connect w in
      let (out, w2) = with_database sys (del_file_steps user md5 filename) w1 in
      if opened then (return_value out, w2) else (some (negsuc 0), w1)
