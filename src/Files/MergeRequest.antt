-- ===== src/Files/MergeRequest.antt =====
-- `main` of src_cgi/chunk_merge_cgi.c from the valid token on: under the lock the file is bound to
-- the user, or its chunks are merged and the result is recorded.
pub mod Merged
pub mod Safety
use Prim.Native.String.{◌++◌ as append}
use package.text.Mathlib.Text.{◌==◌ as str_eq}
use hydra_fs.Prelude.{ℕ, Bool, ◌||◌, Option, none, some, String, [], ◌∷◌, ◌++◌, if◌then◌else◌, List}
use hydra_fs.Prelude.Int.{ℤ, pos, negsuc, eq_ℤ, negative}
use hydra_fs.Text.{Bytes}
use hydra_fs.Base64.{codes}
use hydra_fs.Backend.{System, Exec, ◌>>=◌, ◌>>◌, pure, goto_end, call, atoi_bytes}
use hydra_fs.Backend.Redis.{returned, rop_hash_get, rop_del_key}
use hydra_fs.Merge.{
  ChunkStore, acquire_merge_lock, release_merge_lock, verify_all_chunks, merge_chunks_to_fastdfs,
}
use hydra_fs.Files.ChunkMerge.{bind_existing_file_to_user, store_fileinfo_to_mysql}

-- What the request is about, with the names that are printed for it.
pub record MergeNames : Type 0 where
  pub user : String
  pub file_md5 : String
  pub filename : String
  pub redis_key : String
  pub lock_key : String
  pub lock_token : String

-- `atoi` of a count; a negative one runs no round.
abbrev pub rounds : ℤ → ℕ
rounds (pos n) = n
rounds (negsuc n) = 0

-- What `get_cfg_value` leaves in the two buffers.
pub record WebServer : Type 0 where
  pub ip : String
  pub port : String

unfoldable pub make_file_url : WebServer → (fileid : String) → String
make_file_url web fileid =
    append "http://" (append web.ip (append ":" (append web.port (append "/" fileid))))

-- The directory of the chunks of an upload: what `readdir` gives, or NULL from `opendir`.
pub record ChunkDirectory (W : Type 0) : Type 0 where
  pub entries : (file_md5 : String) → W → Option (List String) × W
  pub unlink : (file_md5 d_name : String) → W → W
  pub rmdir : (file_md5 : String) → W → W

module _ {W : Type 0} (directory : ChunkDirectory W) where
  unfoldable pub remove_entries : (file_md5 : String) → List String → W → W
  remove_entries file_md5 [] w = w
  remove_entries file_md5 (d_name ∷ names) w =
      let kept = remove_entries file_md5 names w in
      let removed = remove_entries file_md5 names (directory.unlink file_md5 d_name w) in
      if str_eq d_name "." || str_eq d_name ".." then kept else removed

  unfoldable pub remove_listed : (file_md5 : String) → Option (List String) → W → Unit {0} × W
  remove_listed file_md5 none w = (tt, w)
  remove_listed file_md5 (some names) w =
      (tt, directory.rmdir file_md5 (remove_entries file_md5 names w))

  unfoldable pub remove_chunks : (file_md5 : String) → W → Unit {0} × W
  remove_chunks file_md5 w =
      let (names, w') = directory.entries file_md5 w in remove_listed file_md5 names w'

module _ {W : Type 0} (sys : System W) (store : ChunkStore W) (directory : ChunkDirectory W)
    (web : WebServer) (names : MergeNames) where
  -- Every way out behind the lock: it is released, and the code is answered.
  unfoldable pub leave : ℤ → Exec W (Unit {0})
  leave code = do call (release_merge_lock sys names.lock_key names.lock_token); goto_end code

  unfoldable pub cleanup_chunk_upload_state : Exec W (Unit {0})
  cleanup_chunk_upload_state = do
    rop_del_key sys names.redis_key
    call (remove_chunks directory names.file_md5)

  unfoldable pub read_field : (field : String) → Exec W String
  read_field field = do
    value ← rop_hash_get sys names.redis_key field
    elim value [ none ↦ (leave (pos 1) >> pure "") | some text ↦ pure text ]

  unfoldable pub merge_and_store : (chunk_count : ℕ) → (filesize : ℤ) → Exec W (Unit {0})
  merge_and_store chunk_count filesize = do
    complete ← call (verify_all_chunks store names.file_md5 chunk_count)
    if eq_ℤ complete (pos 0) then pure tt else leave (pos 1)
    merged ← call (merge_chunks_to_fastdfs store names.file_md5 chunk_count (codes names.filename))
    if eq_ℤ merged.0 (pos 0) then pure tt else leave (pos 1)
    stored ← returned sys (
        store_fileinfo_to_mysql sys names.user names.filename names.file_md5 filesize merged.1
          (make_file_url web merged.1))
    if eq_ℤ stored (pos 0) then pure tt else leave (pos 1)
    rop_del_key sys names.redis_key
    leave (pos 0)

  unfoldable pub under_merge_lock : Exec W (Unit {0})
  under_merge_lock = do
    dedupe_ret ←
        returned sys (bind_existing_file_to_user sys names.user names.filename names.file_md5)
    if eq_ℤ dedupe_ret (pos 0) || eq_ℤ dedupe_ret (pos 2)
        then cleanup_chunk_upload_state >> leave (pos 0)
        else if negative dedupe_ret
        then leave (pos 1)
        else pure tt
    count_str ← read_field "chunk_count"
    size_str ← read_field "filesize"
    merge_and_store (rounds (atoi_bytes (codes count_str))) (atoi_bytes (codes size_str))

  -- The code of the answer.
  unfoldable pub merge_request : Exec W (Unit {0})
  merge_request = do
    connected ← call sys.redis_connect
    if connected then pure tt else goto_end (pos 1)
    locked ← call (acquire_merge_lock sys names.lock_key names.lock_token)
    if eq_ℤ locked (pos 0) then pure tt else goto_end (pos 1)
    under_merge_lock
