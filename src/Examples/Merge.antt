-- ===== src/Examples/Merge.antt =====
-- The theorems on merging chunks at concrete worlds.
use package.text.Mathlib.Text.{◌==◌ as str_eq}
use package.text.Mathlib.TextEquality.{eq_iff}
use package.text.Mathlib.TextPositions.{eq_refl}
use hydra_fs.Prelude.{
  ℕ, zero, suc, ◌≡◌, ◌≢◌, refl, Bool, true, false, Option, none, some, String, [], ◌∷◌, ◌++◌, arith,
  ◌==◌, if◌then◌else◌,
}
use hydra_fs.Prelude.Int.{ℤ, pos, negsuc}
use hydra_fs.Text.{Bytes}
use hydra_fs.Base64.{codes}
use hydra_fs.Backend.{
  set_nx, eval, RedisCommand, RedisReply, integer, status, nil, no_result, System,
}
use hydra_fs.Merge.{
  ChunkStore, acquire_merge_lock, release_merge_lock, acquired, merge_chunks_to_fastdfs,
  after_first, append_from,
}
use hydra_fs.Merge.Lock.{
  Locks, put_lock, ended, Sets, LockContract, idle, acquires, Single, Holding-Single,
  release_merge_lock-other,
}
use hydra_fs.Merge.Joined.{
  Contents, joined, Created, Appended, StoreContract, merge_chunks_to_fastdfs-joined,
}

-- Redis with the lock keys only.
set_reply : Option String → String → String → Locks → RedisReply × Locks
set_reply none key token l = (status "OK", put_lock key (some token) l)
set_reply (some holder) key token l = (nil, l)

command : RedisCommand → Locks → RedisReply × Locks
unfolding set_reply
command (set_nx key token) l = set_reply (l key) key token l
command (eval script key argv) l = (integer (pos 1), ended (script (l key) argv) key l)
command _ l = (nil, l)

lock_system : System Locks
unfolding command
lock_system = record {
  mysql_init = λ l. (false, l);
  mysql_real_connect = λ l. (false, l);
  mysql_query = λ q l. (no_result, l);
  mysql_close = λ l. l;
  redis_connect = λ l. (true, l);
  redis_command = command;
  fdfs_delete_file = λ id l. (pos 0, l);
  local_time = λ l. ("", l);
  share_token = λ user md5 filename l. ("", l);
  touch_dirty_mark = λ user l. l;
}

set_reply-Sets :
    (o : Option String) (key token : String) (l : Locks)
    → l key ≡ o
    → Sets (set_reply o key token l).0 key token l (set_reply o key token l).1
unfolding set_reply
set_reply-Sets none key token l e = (e, refl)
set_reply-Sets (some holder) key token l e = refl

lock_system-Contract : LockContract lock_system (λ l. l)
unfolding lock_system
lock_system-Contract = record {
  sets = λ key token l. set_reply-Sets (l key) key token l refl;
  scripts = λ script key argv l. refl;
}

abbrev no_locks : Locks
no_locks = λ key. none

-- Two programs ask for the lock; the second is not answered 0.
lock_example :
    Single lock_system
      (λ l. l)
      "k"
      ("a" ∷ [])
      (acquire_merge_lock lock_system "k" "b" (acquire_merge_lock lock_system "k" "a" no_locks).1).1
unfolding acquire_merge_lock lock_system set_reply acquired put_lock
lock_example =
    Holding-Single lock_system (λ l. l) lock_system-Contract "k" ("a" ∷ []) _
      (acquires "b" (acquires {w = no_locks} "a" (idle refl)))

not_held : (λ (l : Locks). l) (put_lock "k" (some "a") no_locks) "k" ≢ some "b"
unfolding put_lock
not_held = ground (arith, eq_iff "a" "b")

release_example :
    (release_merge_lock lock_system "k" "b" (put_lock "k" (some "a") no_locks)).1
    ≡ put_lock "k" (some "a") no_locks
release_example =
    release_merge_lock-other lock_system (λ l. l) lock_system-Contract "k" "b"
      (put_lock "k" (some "a") no_locks) not_held

-- Chunks and files in memory.
create_from : Option Bytes → Contents → Option String × Contents
create_from none s = (none, s)
create_from (some b) s =
    (some "f", record s { files = λ id. if str_eq id "f" then some b else s.files id })

append_to : Option Bytes → Option Bytes → String → Contents → ℤ × Contents
append_to (some a) (some b) id s =
    (pos 0, record s { files = λ k. if str_eq k id then some (a ++ b) else s.files k })
append_to _ _ id s = (negsuc 0, s)

is_there : Option Bytes → Bool
is_there none = false
is_there (some b) = true

chunk_store : ChunkStore Contents
unfolding create_from append_to is_there
chunk_store = record {
  stat = λ md5 i s. (is_there (s.chunks md5 i), s);
  unlink = λ md5 i s. record s {
    chunks = λ m j. if j == i then (if str_eq m md5 then none else s.chunks m j) else s.chunks m j;
  };
  rmdir = λ md5 s. s;
  tracker_get_connection = λ s. (true, s);
  tracker_close_connection = λ s. s;
  tracker_query_storage_store = λ s. (pos 0, s);
  upload_appender = λ md5 i suffix s. create_from (s.chunks md5 i) s;
  append = λ md5 i id s. append_to (s.files id) (s.chunks md5 i) id s;
}

create_from-Created :
    (o : Option Bytes) (md5 : String) (i : ℕ) (s : Contents)
    → s.chunks md5 i ≡ o
    → Created (create_from o s).0 md5 i s (create_from o s).1
unfolding create_from
create_from-Created none md5 i s e = refl
create_from-Created (some b) md5 i s e = (refl, b, e, refl)

append_to-Appended :
    (o p : Option Bytes) (md5 : String) (i : ℕ) (id : String) (s : Contents)
    → s.files id ≡ o
    → s.chunks md5 i ≡ p
    → Appended (append_to o p id s).0 md5 i id s (append_to o p id s).1
unfolding append_to
append_to-Appended (some a) (some b) md5 i id s e f =
    (refl, λ z a' e'. (b, f, let same : a ≡ a' = cc in ground (arith, eq_refl id, same)))
append_to-Appended (some a) none md5 i id s e f = (refl, λ z. cc)
append_to-Appended none p md5 i id s e f = (refl, λ z. cc)

there_of : (o : Option Bytes) → is_there o ≡ true → (b : Bytes) × (o ≡ some b)
unfolding is_there
there_of none e = cc
there_of (some b) e = (b, refl)

chunk_store-Contract : StoreContract chunk_store (λ s. s)
unfolding chunk_store
chunk_store-Contract = record {
  stat = λ md5 i s. refl;
  there = λ md5 i s e. there_of (s.chunks md5 i) e;
  unlink = λ md5 i s. (refl, λ j n. ground arith);
  rmdir = λ md5 s. refl;
  connection = λ s. refl;
  close = λ s. refl;
  query = λ s. refl;
  create = λ md5 i suffix s. create_from-Created (s.chunks md5 i) md5 i s refl;
  append = λ md5 i id s. append_to-Appended (s.files id) (s.chunks md5 i) md5 i id s refl refl;
}

two_chunks : ℕ → Option Bytes
two_chunks zero = some (codes "ab")
two_chunks (suc zero) = some (codes "c")
two_chunks (suc (suc i)) = none

abbrev uploaded : Contents
uploaded = record {
  chunks = λ md5 i. if str_eq md5 "m" then two_chunks i else none;
  files = λ id. none;
}

merge_example :
    (merge_chunks_to_fastdfs chunk_store "m" 2 (codes "x.png") uploaded).1.files "f"
    ≡ joined (uploaded.chunks "m") 2 0
unfolding merge_chunks_to_fastdfs chunk_store after_first append_from two_chunks
merge_example =
    merge_chunks_to_fastdfs-joined chunk_store (λ s. s) chunk_store-Contract "m" 2 (codes "x.png")
      uploaded (omega arith) refl
