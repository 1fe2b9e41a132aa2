-- ===== src/Backend/Contract.antt =====
-- What the services rely on in MySQL and FastDFS, as a hypothesis about a `System`: a statement that
-- succeeds has its documented effect on the tables, one that fails has none, a query answers from
-- the tables, ROLLBACK and the end of a session undo an open transaction, and `fdfs_delete_file`
-- touches one file. The tables are those of docker/mysql/init.sql, with its unique keys; names are
-- taken to be equal for the server's collation only if they are the same text.
use text.Mathlib.Text.{◌==◌ as str_eq}
use hydra_fs.Prelude.{
  ℕ, suc, ◌≡◌, Bool, ◌&&◌, Option, none, some, String, List, [], ◌∷◌, if◌then◌else◌,
}
use hydra_fs.Prelude.Int.{ℤ, pos}
use hydra_fs.Backend.{
  select_picture, insert_picture, delete_picture, select_file_reference, Sql, start_transaction,
  commit, rollback, select_file_count, select_file_id, delete_file_info, update_file_count,
  insert_file_info, select_user_file, select_shared_status, delete_user_file, insert_user_file,
  update_shared_status, select_user_count, insert_user_count, update_user_count, delete_user_count,
  select_user_name, select_password, select_salt, select_nick_name, insert_user_info, select_share,
  select_share_pv, insert_share, update_share_pv, delete_share, count_active_tasks, insert_task,
  number, chars, Row, Reply, failed, no_result, rows, affected, RedisCommand, System,
}

pub record FileInfo : Type 0 where
  pub file_id : String
  pub count : ℤ

pub record UserFile : Type 0 where
  pub user : String
  pub md5 : String
  pub file_name : String
  pub shared_status : ℤ

pub record Share : Type 0 where
  pub user : String
  pub md5 : String
  pub file_name : String
  pub pv : ℤ

pub record Picture : Type 0 where
  pub user : String
  pub md5 : String
  pub url_md5 : String

pub record UserInfo : Type 0 where
  pub user_name : String
  pub nick_name : String
  pub password : String
  pub salt : String

pub record Tables : Type 0 where
  pub users : List UserInfo
  -- by its unique key md5
  pub file_info : String → Option FileInfo
  pub user_files : List UserFile
  -- by its unique key user
  pub user_counts : String → Option ℤ
  pub shares : List Share
  pub pictures : List Picture
  -- the tasks of a user, md5 and type that are pending, or running under a lease
  pub active_tasks : String → String → String → ℕ

-- `saved` is what ROLLBACK goes back to while a transaction is open; `stored` are the files that
-- FastDFS holds.
pub record State : Type 0 where
  pub tables : Tables
  pub saved : Option Tables
  pub stored : String → Bool

abbrev pub is_row : String → String → String → UserFile → Bool
is_row user md5 name r = str_eq r.user user && (str_eq r.md5 md5 && str_eq r.file_name name)

unfoldable pub matches : String → String → String → List UserFile → ℕ
matches user md5 name [] = 0
matches user md5 name (r ∷ rs) =
    if is_row user md5 name r then suc (matches user md5 name rs) else matches user md5 name rs

unfoldable pub without_rows : String → String → String → List UserFile → List UserFile
without_rows user md5 name [] = []
without_rows user md5 name (r ∷ rs) =
    let rest = without_rows user md5 name rs in if is_row user md5 name r then rest else r ∷ rest

unfoldable pub with_status : ℤ → String → String → String → List UserFile → List UserFile
with_status n user md5 name [] = []
with_status n user md5 name (r ∷ rs) =
    let rest = with_status n user md5 name rs in
    if is_row user md5 name r then record r { shared_status = n } ∷ rest else r ∷ rest

-- One column of the rows with this user name.
unfoldable pub user_rows : (UserInfo → String) → String → List UserInfo → List Row
user_rows column user_name [] = []
user_rows column user_name (r ∷ rs) =
    let rest = user_rows column user_name rs in
    if str_eq r.user_name user_name then (some (chars (column r)) ∷ []) ∷ rest else rest

unfoldable pub nick_rows : String → List UserInfo → List Row
nick_rows nick_name [] = []
nick_rows nick_name (r ∷ rs) =
    let rest = nick_rows nick_name rs in
    if str_eq r.nick_name nick_name then (some (chars r.user_name) ∷ []) ∷ rest else rest

abbrev pub is_share : String → String → Share → Bool
is_share md5 name r = str_eq r.md5 md5 && str_eq r.file_name name

unfoldable pub shared_rows : String → String → List Share → List Row
shared_rows md5 name [] = []
shared_rows md5 name (r ∷ rs) =
    let rest = shared_rows md5 name rs in
    if is_share md5 name r then (some (number r.pv) ∷ []) ∷ rest else rest

unfoldable pub without_share : String → String → String → List Share → List Share
without_share user md5 name [] = []
without_share user md5 name (r ∷ rs) =
    let rest = without_share user md5 name rs in
    if str_eq r.user user && is_share md5 name r then rest else r ∷ rest

unfoldable pub with_share_pv : ℤ → String → String → List Share → List Share
with_share_pv n md5 name [] = []
with_share_pv n md5 name (r ∷ rs) =
    let rest = with_share_pv n md5 name rs in
    if is_share md5 name r then record r { pv = n } ∷ rest else r ∷ rest

abbrev pub with_count : ℤ → Option FileInfo → Option FileInfo
with_count n none = none
with_count n (some i) = some (record i { count = n })

abbrev pub replaced : ℤ → Option ℤ → Option ℤ
replaced n none = none
replaced n (some m) = some n

abbrev same_task : String → String → String → String → String → String → Bool
same_task u m t user md5 task_type = str_eq u user && (str_eq m md5 && str_eq t task_type)

abbrev pub is_picture : String → String → Picture → Bool
is_picture user url_md5 r = str_eq r.user user && str_eq r.url_md5 url_md5

unfoldable pub picture_rows : String → String → List Picture → List Row
picture_rows user url_md5 [] = []
picture_rows user url_md5 (r ∷ rs) =
    let rest = picture_rows user url_md5 rs in
    if is_picture user url_md5 r then (some (chars r.md5) ∷ []) ∷ rest else rest

unfoldable pub without_picture : String → String → List Picture → List Picture
without_picture user url_md5 [] = []
without_picture user url_md5 (r ∷ rs) =
    let rest = without_picture user url_md5 rs in
    if is_picture user url_md5 r then rest else r ∷ rest

-- The effect on the tables of a statement that succeeds.
unfoldable pub apply_tables : Sql → Tables → Tables
apply_tables (update_file_count n md5) t = record t {
  file_info = λ k. if str_eq md5 k then with_count n (t.file_info k) else t.file_info k;
}
apply_tables (insert_file_info md5 file_id url size type n) t = record t {
  file_info =
      λ k. if str_eq md5 k then some (record { file_id = file_id; count = n }) else t.file_info k;
}
apply_tables (delete_file_info md5) t = record t {
  file_info = λ k. if str_eq md5 k then none else t.file_info k;
}
apply_tables (insert_user_file user md5 time name status pv) t = record t {
  user_files =
      record { user = user; md5 = md5; file_name = name; shared_status = status } ∷ t.user_files;
}
apply_tables (delete_user_file user md5 name) t = record t {
  user_files = without_rows user md5 name t.user_files;
}
apply_tables (update_shared_status n user md5 name) t = record t {
  user_files = with_status n user md5 name t.user_files;
}
apply_tables (insert_user_count user n) t = record t {
  user_counts = λ k. if str_eq user k then some n else t.user_counts k;
}
apply_tables (update_user_count n user) t = record t {
  user_counts = λ k. if str_eq user k then replaced n (t.user_counts k) else t.user_counts k;
}
apply_tables (delete_user_count user) t = record t {
  user_counts = λ k. if str_eq user k then none else t.user_counts k;
}
apply_tables (insert_share user md5 time name pv token) t = record t {
  shares = record { user = user; md5 = md5; file_name = name; pv = pv } ∷ t.shares;
}
apply_tables (update_share_pv n md5 name) t = record t {
  shares = with_share_pv n md5 name t.shares;
}
apply_tables (delete_share user md5 name) t = record t {
  shares = without_share user md5 name t.shares;
}
apply_tables (insert_picture user md5 name url_md5 key pv time) t = record t {
  pictures = record { user = user; md5 = md5; url_md5 = url_md5 } ∷ t.pictures;
}
apply_tables (delete_picture user url_md5) t = record t {
  pictures = without_picture user url_md5 t.pictures;
}
apply_tables (insert_task user md5 task_type source) t = record t {
  active_tasks = λ u m k.
      if same_task u m k user md5 task_type
      then suc (t.active_tasks u m k)
      else t.active_tasks u m k;
}
apply_tables (insert_user_info user_name nick_name password salt phone email time) t = record t {
  users =
      record { user_name = user_name; nick_name = nick_name; password = password; salt = salt }
      ∷ t.users;
}
apply_tables _ t = t

abbrev pub or_else : Option Tables → Tables → Tables
or_else none t = t
or_else (some saved) t = saved

abbrev pub rolled_back : State → State
rolled_back s = record s { tables = or_else s.saved s.tables; saved = none }

-- No transaction is open, as between two requests.
abbrev pub IsSettled : State → Type 0
IsSettled s = s.saved ≡ none

-- The effect of a statement that succeeds.
unfoldable pub apply : Sql → State → State
apply start_transaction s = record s { saved = some s.tables }
apply commit s = record s { saved = none }
apply rollback s = rolled_back s
apply q s = record s { tables = apply_tables q s.tables }

abbrev pub count_rows : Option FileInfo → List Row
count_rows none = []
count_rows (some i) = (some (number i.count) ∷ []) ∷ []

abbrev pub id_rows : Option FileInfo → List Row
id_rows none = []
id_rows (some i) = (some (chars i.file_id) ∷ []) ∷ []

abbrev pub reference_rows : Option FileInfo → List Row
reference_rows none = []
reference_rows (some i) = (some (number i.count) ∷ some (chars i.file_id) ∷ []) ∷ []

abbrev pub number_rows : Option ℤ → List Row
number_rows none = []
number_rows (some n) = (some (number n) ∷ []) ∷ []

unfoldable pub status_rows : String → String → String → List UserFile → List Row
status_rows user md5 name [] = []
status_rows user md5 name (r ∷ rs) =
    let rest = status_rows user md5 name rs in
    if is_row user md5 name r then (some (number r.shared_status) ∷ []) ∷ rest else rest

-- What a statement that succeeds answers, where the services read it.
unfoldable pub answer : Sql → State → Option Reply
answer (select_file_count md5) s = some (rows (count_rows (s.tables.file_info md5)))
answer (select_file_id md5) s = some (rows (id_rows (s.tables.file_info md5)))
answer (select_user_file user md5 name) s =
    some (rows (status_rows user md5 name s.tables.user_files))
answer (select_shared_status user md5 name) s =
    some (rows (status_rows user md5 name s.tables.user_files))
answer (delete_user_file user md5 name) s =
    some (affected (matches user md5 name s.tables.user_files))
answer (select_user_count user) s = some (rows (number_rows (s.tables.user_counts user)))
answer (select_share md5 name) s = some (rows (shared_rows md5 name s.tables.shares))
answer (select_share_pv md5 name) s = some (rows (shared_rows md5 name s.tables.shares))
answer (count_active_tasks user md5 task_type) s =
    some (rows ((some (number (pos (s.tables.active_tasks user md5 task_type))) ∷ []) ∷ []))
answer (select_picture user url_md5) s = some (rows (picture_rows user url_md5 s.tables.pictures))
answer (select_file_reference md5) s = some (rows (reference_rows (s.tables.file_info md5)))
answer (select_user_name user_name) s =
    some (rows (user_rows (λ r. r.user_name) user_name s.tables.users))
answer (select_password user_name) s =
    some (rows (user_rows (λ r. r.password) user_name s.tables.users))
answer (select_salt user_name) s = some (rows (user_rows (λ r. r.salt) user_name s.tables.users))
answer (select_nick_name nick_name) s = some (rows (nick_rows nick_name s.tables.users))
answer _ s = none

-- The unique keys: an insertion of a key that is there fails.
abbrev pub Fresh : Sql → State → Type 0
Fresh (insert_file_info md5 file_id url size type n) s = s.tables.file_info md5 ≡ none
Fresh (insert_user_file user md5 time name status pv) s =
    matches user md5 name s.tables.user_files ≡ 0
Fresh (insert_user_count user n) s = s.tables.user_counts user ≡ none
Fresh (insert_user_info user_name nick_name password salt phone email time) s =
    (user_rows (λ r. r.user_name) user_name s.tables.users ≡ [])
    × (nick_rows nick_name s.tables.users ≡ [])
Fresh _ s = Unit {0}

-- What the reply to a statement says of the states before and after it.
abbrev pub Explains : Sql → Reply → State → State → Type 0
Explains q failed s s' = s' ≡ s
Explains q no_result s s' = (s' ≡ apply q s) × Fresh q s
Explains q (rows r) s s' =
    (s' ≡ apply q s) × Fresh q s × ((a : Reply) → answer q s ≡ some a → rows r ≡ a)
Explains q (affected n) s s' =
    (s' ≡ apply q s) × Fresh q s × ((a : Reply) → answer q s ≡ some a → affected n ≡ a)

pub record Contract {W : Type 0} (sys : System W) (view : W → State) : Type 0 where
  pub query :
      (q : Sql) (w : W) → Explains q (sys.mysql_query q w).0 (view w) (view (sys.mysql_query q w).1)
  pub init : (w : W) → view (sys.mysql_init w).1 ≡ view w
  pub connect : (w : W) → view (sys.mysql_real_connect w).1 ≡ view w
  pub close : (w : W) → view (sys.mysql_close w) ≡ rolled_back (view w)
  pub redis_connect : (w : W) → view (sys.redis_connect w).1 ≡ view w
  pub redis : (c : RedisCommand) (w : W) → view (sys.redis_command c w).1 ≡ view w
  pub delete_file :
      (file_id : String) (w : W)
      → (b : Bool) × (view (sys.fdfs_delete_file (chars file_id) w).1
          ≡ record (view w) { stored = λ k. if str_eq file_id k then b else (view w).stored k })
  pub local_time : (w : W) → view (sys.local_time w).1 ≡ view w
  pub token :
      (user md5 filename : String) (w : W) → view (sys.share_token user md5 filename w).1 ≡ view w
  pub touch : (user : String) (w : W) → view (sys.touch_dirty_mark user w) ≡ view w
