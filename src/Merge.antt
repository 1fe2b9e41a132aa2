-- ===== src/Merge.antt =====
-- The chunks of an upload become one file: the lock and the copying of src_cgi/chunk_merge_cgi.c. A
-- chunk is known by the md5 and the number that are printed into its path.
pub mod Lock
pub mod Joined
use package.text.Mathlib.Text.{◌==◌ as str_eq}
use hydra_fs.Prelude.{ℕ, zero, suc, ◌+◌, ◌-◌, Bool, Option, none, some, String, if◌then◌else◌}
use hydra_fs.Prelude.Int.{ℤ, pos, negsuc, eq_ℤ}
use hydra_fs.Text.{Bytes, get_file_suffix}
use hydra_fs.Backend.{
  ScriptEnd, call_del, return_zero, set_nx, eval, RedisReply, null, integer, string, status, error,
  nil, System,
}

unfoldable pub acquired : RedisReply → ℤ
acquired null = negsuc 0
acquired (status s) = if str_eq s "OK" then pos 0 else pos 1
acquired _ = pos 1

unfoldable pub released : RedisReply → ℤ
released null = negsuc 0
released (error s) = negsuc 0
released _ = pos 0

-- `if redis.call('GET', KEYS[1]) == ARGV[1]`; the GET of an absent key equals no text.
unfoldable pub release_script : (value : Option String) → (argv : String) → ScriptEnd
release_script none argv = return_zero
release_script (some value) argv = if str_eq value argv then call_del else return_zero

module _ {W : Type 0} (sys : System W) where
  unfoldable pub acquire_merge_lock : (lock_key lock_token : String) → W → ℤ × W
  acquire_merge_lock lock_key lock_token w =
      let (reply, w') = sys.redis_command (set_nx lock_key lock_token) w in (acquired reply, w')

  unfoldable pub release_merge_lock : (lock_key lock_token : String) → W → ℤ × W
  release_merge_lock lock_key lock_token w =
      let (reply, w') = sys.redis_command (eval release_script lock_key lock_token) w in
      (released reply, w')

-- The files in the directory of the chunks, and the appender interface of FastDFS; 0 is `true`.
pub record ChunkStore (W : Type 0) : Type 0 where
  pub stat : (file_md5 : String) → (i : ℕ) → W → Bool × W
  pub unlink : (file_md5 : String) → (i : ℕ) → W → W
  pub rmdir : (file_md5 : String) → W → W
  pub tracker_get_connection : W → Bool × W
  pub tracker_close_connection : W → W
  pub tracker_query_storage_store : W → ℤ × W
  -- the result, and the file id where that is 0
  pub upload_appender : (file_md5 : String) → (i : ℕ) → (suffix : Bytes) → W → Option String × W
  pub append : (file_md5 : String) → (i : ℕ) → (fileid : String) → W → ℤ × W

module _ {W : Type 0} (store : ChunkStore W) where
  -- The loop with the rounds that are left.
  unfoldable pub verify_from : (rounds i : ℕ) → (file_md5 : String) → W → ℤ × W
  verify_from zero i file_md5 w = (pos 0, w)
  verify_from (suc rounds) i file_md5 w =
      let (there, w') = store.stat file_md5 i w in
      let rest = verify_from rounds (i + 1) file_md5 w' in if there then rest else (negsuc 0, w')

  unfoldable pub verify_all_chunks : (file_md5 : String) → (chunk_count : ℕ) → W → ℤ × W
  verify_all_chunks file_md5 chunk_count = verify_from chunk_count 0 file_md5

  -- The loop of the appends with the rounds that are left; `result` is 0 before each.
  unfoldable pub append_from : (rounds i : ℕ) → (file_md5 fileid : String) → W → ℤ × W
  append_from zero i file_md5 fileid w = (pos 0, w)
  append_from (suc rounds) i file_md5 fileid w =
      let (result, w1) = store.append file_md5 i fileid w in
      let rest = append_from rounds (i + 1) file_md5 fileid (store.unlink file_md5 i w1) in
      if eq_ℤ result (pos 0) then rest else (result, w1)

  -- From the upload of the first chunk on.
  unfoldable pub after_first :
      Option String → (file_md5 : String) → (chunk_count : ℕ) → W → (ℤ × String) × W
  after_first none file_md5 chunk_count w = ((negsuc 0, ""), store.tracker_close_connection w)
  after_first (some fileid) file_md5 chunk_count w =
      let (result, w') =
        append_from (chunk_count - 1) 1 file_md5 fileid (store.unlink file_md5 0 w) in
      ((result, fileid), store.rmdir file_md5 (store.tracker_close_connection w'))

  -- The result and the file id.
  unfoldable pub merge_chunks_to_fastdfs :
      (file_md5 : String) → (chunk_count : ℕ) → (filename : Bytes) → W → (ℤ × String) × W
  merge_chunks_to_fastdfs file_md5 chunk_count filename w =
      let (connected, w1) = store.tracker_get_connection w in
      let (found, w2) = store.tracker_query_storage_store w1 in
      let (fileid, w3) = store.upload_appender file_md5 0 (get_file_suffix filename) w2 in
      if connected
      then (if eq_ℤ found (pos 0)
          then after_first fileid file_md5 chunk_count w3
          else ((negsuc 0, ""), w2))
      else ((negsuc 0, ""), w1)
