-- ===== src/Backend.antt =====
-- What the FastCGI programs of src_cgi/ use and do not implement: the MySQL server behind its client
-- library, the Redis server behind hiredis, the `fdfs_delete_file` tool and the clock. All of it is
-- a parameter, `System`, over an arbitrary type of worlds. A statement is a constructor with the
-- values that the source prints into its text; a text whose values hold quotes is another statement
-- than the source means, and is not modelled.
pub mod Mysql
pub mod Redis
pub mod Contract
pub mod Memory
pub mod Triple
use hydra_fs.Prelude.{
  ℕ, zero, suc, ◌+◌, ◌-◌, ◌*◌, Bool, true, false, Option, String, List, [], ◌∷◌, ◌&&◌, leb,
  if◌then◌else◌, ◌==◌,
}
use hydra_fs.Prelude.Int.{ℤ, pos, negsuc}
use hydra_fs.Text.{Bytes, isspace}
use hydra_fs.Base64.{codes}

-- The statements of the file services, in the order of the tables.
pub data Sql : Type 0 where
  set_names_utf8 start_transaction commit rollback : Sql
  -- file_info
  select_file_count select_file_id delete_file_info : (md5 : String) → Sql
  update_file_count : (count : ℤ) → (md5 : String) → Sql
  insert_file_info : (md5 file_id url : String) → (size : ℤ) → (type : Bytes) → (count : ℤ) → Sql
  -- user_file_list
  select_user_file select_shared_status delete_user_file : (user md5 file_name : String) → Sql
  insert_user_file : (user md5 create_time file_name : String) → (shared_status pv : ℤ) → Sql
  update_shared_status : (status : ℤ) → (user md5 file_name : String) → Sql
  -- user_file_count
  select_user_count : (user : String) → Sql
  insert_user_count : (user : String) → (count : ℤ) → Sql
  update_user_count : (count : ℤ) → (user : String) → Sql
  delete_user_count : (user : String) → Sql
  -- share_file_list
  select_share select_share_pv : (md5 file_name : String) → Sql
  insert_share : (user md5 create_time file_name : String) → (pv : ℤ) → (token : String) → Sql
  update_share_pv : (pv : ℤ) → (md5 file_name : String) → Sql
  delete_share : (user md5 file_name : String) → Sql
  -- `select md5, file_name, pv ... order by pv desc`, and the columns of one file for the list
  select_all_shares : Sql
  select_share_view : (md5 : Bytes) → (file_name : String) → Sql
  -- share_picture_list, and the columns count and file_id of file_info
  select_picture delete_picture : (user urlmd5 : String) → Sql
  insert_picture :
      (user filemd5 file_name urlmd5 key : String) → (pv : ℤ) → (create_time : String) → Sql
  select_picture_view : (urlmd5 : String) → Sql
  update_picture_pv : (pv : ℤ) → (urlmd5 : String) → Sql
  select_file_url select_file_reference : (md5 : String) → Sql
  -- user_info
  select_user_name select_password select_salt : (user_name : String) → Sql
  select_nick_name : (nick_name : String) → Sql
  insert_user_info : (user_name nick_name password salt phone email create_time : String) → Sql
  -- the knowledge layer: its named lock, its tasks, and what a deletion clears
  get_lock release_lock count_active_tasks : (user md5 task_type : String) → Sql
  insert_task : (user md5 task_type source : String) → Sql
  delete_ai_desc delete_wiki_page delete_wiki_link : (user md5 : String) → Sql

-- A column as `mysql_fetch_row` hands it over. An integer column arrives as its decimal text; the
-- model keeps the number, which is what `atoi` reads back.
pub data Cell : Type 0 where
  number : ℤ → Cell
  chars : String → Cell

abbrev pub Row : Type 0
Row = List (Option Cell)

-- `mysql_query` that returns non-zero; a query whose result cannot be stored; a stored result; the
-- `mysql_affected_rows` of a statement with no result.
pub data Reply : Type 0 where
  failed no_result : Reply
  rows : List Row → Reply
  affected : ℕ → Reply

-- What a script in Lua does with its key at the end.
pub data ScriptEnd : Type 0 where
  call_del return_zero : ScriptEnd

pub data RedisCommand : Type 0 where
  get : (key : String) → RedisCommand
  zlexcount zrem zincrby_one zscore : (key member : String) → RedisCommand
  zadd : (key : String) → (score : ℤ) → (member : String) → RedisCommand
  hset : (key field value : String) → RedisCommand
  hdel hget : (key field : String) → RedisCommand
  del zcard : (key : String) → RedisCommand
  zrevrange : (key : String) → (from_pos end_pos : ℤ) → RedisCommand
  -- `SET key token NX EX 600`
  set_nx : (key token : String) → RedisCommand
  -- `EVAL script 1 key argv`, with the script by what `GET` of the key gives it and its argument
  eval :
      (script : (value : Option String) → (argv : String) → ScriptEnd)
      → (key argv : String) → RedisCommand

-- The reply types of hiredis; `null` is the NULL pointer of a broken connection.
pub data RedisReply : Type 0 where
  null : RedisReply
  integer : ℤ → RedisReply
  string status error : String → RedisReply
  array : List String → RedisReply
  nil : RedisReply

pub record System (W : Type 0) : Type 0 where
  -- `mysql_init` and `mysql_real_connect` succeed
  pub mysql_init : W → Bool × W
  pub mysql_real_connect : W → Bool × W
  pub mysql_query : Sql → W → Reply × W
  pub mysql_close : W → W
  -- a connection to Redis is opened
  pub redis_connect : W → Bool × W
  pub redis_command : RedisCommand → W → RedisReply × W
  -- the exit status of `fdfs_delete_file` for a file id
  pub fdfs_delete_file : Cell → W → ℤ × W
  -- the local time in `%Y-%m-%d %H:%M:%S`
  pub local_time : W → String × W
  -- the text of `md5_hex_string` for a seed of these, the time and `rand()`
  pub share_token : (user md5 filename : String) → W → String × W
  -- the empty file that `mark_user_index_dirty` leaves for the index worker
  pub touch_dirty_mark : (user : String) → W → W

-- How a step of a request goes on: with a value, to the label END with a return value, or not at
-- all, since the process reads through a NULL pointer.
pub data Out (A : Type 0) : Type 0 where
  go : A → Out A
  stop : ℤ → Out A
  crash : Out A

abbrev pub Exec : Type 0 → Type 0 → Type 0
Exec W A = W → Out A × W

module _ {W A B : Type 0} where
  abbrev pub continue : Out A → (A → Exec W B) → Exec W B
  continue (go a) f w = f a w
  continue (stop r) f w = (stop r, w)
  continue crash f w = (crash, w)

  infixl 5 ◌>>=◌ ◌>>◌
  unfoldable pub ◌>>=◌ : Exec W A → (A → Exec W B) → Exec W B
  ◌>>=◌ m f w = let (r, w') = m w in continue r f w'

  abbrev pub ◌>>◌ : Exec W A → Exec W B → Exec W B
  m >> n = m >>= λ _. n

module _ {W A : Type 0} where
  unfoldable pub pure : A → Exec W A
  pure a w = (go a, w)

  unfoldable pub goto_end : ℤ → Exec W A
  goto_end r w = (stop r, w)

  -- A call that always comes back.
  unfoldable pub call : (W → A × W) → Exec W A
  call f w = let (a, w') = f w in (go a, w')

-- `atoi`; its result is exact where it fits an `int`.
digits : Bytes → ℕ → ℕ
digits [] n = n
digits (c ∷ s) n =
    let rest = digits s (n * 10 + (c - 48)) in if leb 48 c && leb c 57 then rest else n

negated : ℕ → ℤ
negated zero = pos 0
negated (suc n) = negsuc n

signed : Bytes → ℤ
unfolding digits negated
signed [] = pos 0
signed (c ∷ s) =
    if c == b'-'
    then negated (digits s 0)
    else if c == b'+'
    then pos (digits s 0)
    else pos (digits (c ∷ s) 0)

skip_space : Bytes → Bytes
skip_space [] = []
skip_space (c ∷ s) = let rest = skip_space s in if isspace c then rest else c ∷ s

unfoldable pub atoi_bytes : Bytes → ℤ
unfolding signed skip_space
atoi_bytes s = signed (skip_space s)

unfoldable pub atoi : Cell → ℤ
atoi (number n) = n
atoi (chars s) = atoi_bytes (codes s)
