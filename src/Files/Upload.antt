-- ===== src/Files/Upload.antt =====
-- The handling of one request by src_cgi/upload_cgi.c, from the parsed form on: the database, the
-- FastDFS programs that it starts, and the task for the knowledge layer.
pub mod Safety
pub mod Memory
use hydra_fs.Prelude.{
  Bool, ◌||◌, Option, none, some, String, [], ◌∷◌, ◌++◌, if◌then◌else◌, ◌-◌, length, take, drop,
}
use hydra_fs.Prelude.Int.{ℤ, pos, eq_ℤ, negative}
use hydra_fs.Text.{Bytes, trim_space, strstr}
use hydra_fs.Base64.{codes}
use hydra_fs.Backend.{set_names_utf8, System, Exec, ◌>>=◌, ◌>>◌, pure, goto_end, call}
use hydra_fs.Backend.Mysql.{msql_conn}
use hydra_fs.Backend.Redis.{survive, returned}
use hydra_fs.Knowledge.{enqueue_parse_task}
use hydra_fs.Files.ChunkMerge as ChunkMerge

-- What becomes of a program that is started behind a pipe: `pipe` or `fork` fails; the parent has read
-- what the program prints; or `execlp` has returned, and this process is the child that goes on.
pub data Started : Type 0 where
  not_started in_child : Started
  printed : Bytes → Started

-- The programs of FastDFS, the configuration, and the local file.
pub record Programs (W : Type 0) : Type 0 where
  pub fdfs_upload_file : (filename : String) → W → Started × W
  pub fdfs_file_info : (fileid : Bytes) → W → Started × W
  pub unlink : (filename : String) → W → Unit {0} × W
  -- `get_cfg_value` of the section storage_web_server
  pub web_server_port : Option Bytes
  pub web_server_ip : Option Bytes
  -- The bytes as a text of the tables
  pub text : Bytes → String

abbrev pub configured : Option Bytes → Bytes → Bytes
configured none old = old
configured (some value) old = value

-- The id in what the program printed; -1 where that is blank, or where there was no process. The child
-- goes on with 0 and an empty id.
unfoldable pub printed_id : Started → Option Bytes
printed_id not_started = none
printed_id in_child = some []
printed_id (printed out) = elim (trim_space out) [ [] ↦ none | c ∷ s ↦ some (c ∷ s) ]

abbrev pub source_key : Bytes
source_key = codes "source ip address: "

-- The line's rest behind the key. Where key or line end is missing, NULL is read through.
unfoldable pub host_of : Bytes → Option Bytes
host_of buf = elim (strstr buf source_key) [
  | none ↦ none
  | some p ↦ elim (strstr (drop (length source_key) p) (10 ∷ [])) [
    | none ↦ none
    | some k ↦ let q = drop (length source_key) p in some (take (length q - length k) q)
  ]
]

module _ {W : Type 0} (sys : System W) (programs : Programs W) where
  -- -1 is answered as HTTP_RESP_FAIL, which is 1.
  unfoldable pub upload_to_dstorage : (filename : String) → Exec W Bytes
  upload_to_dstorage filename = do
    out ← call (programs.fdfs_upload_file filename)
    elim (printed_id out) [ none ↦ goto_end (pos 1) | some fileid ↦ pure fileid ]

  url_of : Bytes → Bytes → Bytes
  url_of host fileid =
      codes "http://"
      ++ (configured programs.web_server_ip host
          ++ b':' ∷ (configured programs.web_server_port [] ++ b'/' ∷ fileid))

  -- The child goes on with 0 and an empty URL.
  unfoldable pub url_behind : (fileid : Bytes) → Started → Exec W Bytes
  unfolding url_of
  url_behind fileid not_started = goto_end (pos 1)
  url_behind fileid in_child = pure []
  url_behind fileid (printed buf) = do host ← survive sys (host_of buf); pure (url_of host fileid)

  unfoldable pub make_file_url : (fileid : Bytes) → Exec W Bytes
  make_file_url fileid = do out ← call (programs.fdfs_file_info fileid); url_behind fileid out

  -- The task in a session of its own; what it returns is not read.
  unfoldable pub create_task : (user md5 source : String) → W → Unit {0} × W
  create_task user md5 source w =
      let (connected, w1) = msql_conn sys w in
      let (names, w2) = sys.mysql_query set_names_utf8 w1 in
      let (ret, w3) = enqueue_parse_task sys user md5 source w2 in
      if connected then (tt, sys.mysql_close w3) else (tt, w1)

  -- The two functions on the database, which chunk_merge_cgi.c has statement for statement.
  unfoldable pub bind_existing_file_to_user : (user filename md5 : String) → W → Option ℤ × W
  bind_existing_file_to_user = ChunkMerge.bind_existing_file_to_user sys

  unfoldable pub store_fileinfo_to_mysql :
      (user filename md5 : String) → (size : ℤ) → (fileid url : String) → W → Option ℤ × W
  store_fileinfo_to_mysql = ChunkMerge.store_fileinfo_to_mysql sys

  -- The server has the file: the local copy goes.
  unfoldable pub reuse_existing : (user filename md5 : String) → ℤ → Exec W (Unit {0})
  reuse_existing user filename md5 dedupe_ret = do
    call (programs.unlink filename)
    if eq_ℤ dedupe_ret (pos 0) then call (create_task user md5 "md5_hit") else pure tt
    goto_end (pos 0)

  unfoldable pub refuse : (filename : String) → Exec W (Unit {0})
  refuse filename = do call (programs.unlink filename); goto_end (pos 1)

  -- The new file goes to FastDFS and into the tables.
  unfoldable pub store_new : (user filename md5 : String) → (size : ℤ) → Exec W (Unit {0})
  store_new user filename md5 size = do
    fileid ← upload_to_dstorage filename
    call (programs.unlink filename)
    url ← make_file_url fileid
    ret ←
        returned sys (
          store_fileinfo_to_mysql user filename md5 size (programs.text fileid) (programs.text url))
    if negative ret then goto_end (pos 1) else pure tt
    call (create_task user md5 "upload")
    pure tt

  unfoldable pub after_receipt : (user filename md5 : String) → (size : ℤ) → Exec W (Unit {0})
  after_receipt user filename md5 size = do
    dedupe_ret ← returned sys (bind_existing_file_to_user user filename md5)
    if eq_ℤ dedupe_ret (pos 0) || eq_ℤ dedupe_ret (pos 2)
        then reuse_existing user filename md5 dedupe_ret
        else if negative dedupe_ret
        then refuse filename
        else pure tt
    store_new user filename md5 size
