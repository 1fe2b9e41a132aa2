-- ===== src/Examples/Upload.antt =====
-- The theorems on the file services at concrete worlds.
use hydra_fs.Prelude.{
  ◌≡◌, ◌≢◌, refl, sym, ap, ◌∙◌, suc, Bool, Bool-cases, inl, inr, if◌then◌else◌, true, false, Option,
  none, some, String, [], ◌∷◌, arith,
}
use hydra_fs.Prelude.Int.{pos}
use package.text.Mathlib.Text.{◌==◌ as str_eq}
use package.text.Mathlib.TextEquality.{eq_iff}
use hydra_fs.Backend.{Sql, get_lock, number, Reply, rows, nil, integer, System, atoi}
use hydra_fs.Backend.Contract.{FileInfo, Tables, State, Contract, answer, apply, apply_tables}
use hydra_fs.Backend.Memory.{Memory, memory, view, memory-Contract}
use hydra_fs.Files.Invariant.{refs, Covers, IsSafe}
use hydra_fs.Files.InstantUpload.{deal_md5}
use hydra_fs.Files.InstantUpload.Safety.{deal_md5-IsSafe}
use hydra_fs.Files.SaveShared.{save_file}
use hydra_fs.Files.SaveShared.Safety.{save_file-IsSafe}
use hydra_fs.Files.ChunkMerge.{bind_existing_file_to_user, store_fileinfo_to_mysql}
use hydra_fs.Files.ChunkMerge.Safety.{
  IsNew, bind_existing_file_to_user-IsSafe, store_fileinfo_to_mysql-IsSafe,
}
use hydra_fs.Files.Delete.{del_file}
use hydra_fs.Files.Delete.Safety.{del_file-IsSafe}
use hydra_fs.Backend.Mysql.{is_ok}
use hydra_fs.Files.Upload.Memory.{programs, programs-Runs}
use hydra_fs.Files.Upload.{after_receipt}
use hydra_fs.Files.Upload.Safety.{after_receipt-IsSafe}
use hydra_fs.Knowledge.{
  normalized_type, is_locked, is_duplicate, insert_unless_duplicate, under_lock,
  enqueue_knowledge_task,
}

-- One file of one user, in storage, and a deletion's status to come.
abbrev info : FileInfo
info = record { file_id = "group1/M00/a"; count = pos 1 }

abbrev file_table : String → Option FileInfo
file_table k = if str_eq "aa" k then some info else none

abbrev one_file : Tables
one_file = record {
  users = [];
  file_info = file_table;
  user_files = record { user = "ann"; md5 = "aa"; file_name = "a.png"; shared_status = pos 0 } ∷ [];
  user_counts = λ k. if str_eq "ann" k then some (pos 1) else none;
  shares = [];
  pictures = [];
  active_tasks = λ u m k. 0;
}

abbrev start : State
start = record { tables = one_file; saved = none; stored = λ k. true }

abbrev world : Memory
world = record {
  state = start;
  faults = false ∷ false ∷ false ∷ false ∷ true ∷ [];
  replies = λ c. nil;
}

covers : (b : Bool) → Covers (if b then suc 0 else 0) (if b then some info else none)
covers true = omega arith
covers false = refl

named : (k : String) (i : FileInfo) → file_table k ≡ some i → "aa" ≡ k
named k i e = elim (Bool-cases (str_eq "aa" k)) [
  | inl t ↦ (eq_iff "aa" k).0 t
  | inr f ↦ cc (rw f at e)
]

pub start-Safe : IsSafe start
unfolding refs
start-Safe = record {
  now = record {
    counted = λ k. covers (str_eq "aa" k);
    kept = λ k i e. refl;
    distinct = λ k k' i j e e' q. sym (named k i e) ∙ named k' j e';
  };
  before = λ t e. cc;
}

-- The statement that inserts the row fails.
deal_md5-IsSafe_example : IsSafe (view (deal_md5 memory "bob" "aa" "b.png" world).1)
deal_md5-IsSafe_example =
    deal_md5-IsSafe memory view memory-Contract "bob" "aa" "b.png" world start-Safe

-- The query of the user's count fails.
save_file-IsSafe_example : IsSafe (view (save_file memory "bob" "aa" "b.png" world).1)
save_file-IsSafe_example =
    save_file-IsSafe memory view memory-Contract "bob" "aa" "b.png" world start-Safe

bind_existing_example : IsSafe (view (bind_existing_file_to_user memory "bob" "b.png" "aa" world).1)
bind_existing_example =
    bind_existing_file_to_user-IsSafe memory view memory-Contract "bob" "b.png" "aa" world
      start-Safe

unnamed : (k : String) (i : FileInfo) → file_table k ≡ some i → i.file_id ≢ "group1/M00/b"
unnamed k i e same = elim (Bool-cases (str_eq "aa" k)) [
  | inl t ↦
      let known : some info ≡ some i = rw t at e in
      let other : info.file_id ≡ "group1/M00/b" = cc in cc (ap (λ s. str_eq s "group1/M00/a") other)
  | inr f ↦ cc (rw f at e)
]

start-IsNew : IsNew "group1/M00/b" start
start-IsNew = (refl, unnamed)

store_fileinfo_example : IsSafe (
    view
      (store_fileinfo_to_mysql memory "bob" "c.png" "cc"
        (pos 9)
        "group1/M00/b"
        "http://h/b"
        world).1)
store_fileinfo_example =
    store_fileinfo_to_mysql-IsSafe memory view memory-Contract "bob" "c.png" "cc" (pos 9)
      "group1/M00/b" "http://h/b" world start-IsNew start-Safe

-- The memory with the named lock free, where no statement is made to fail.
grant : Sql → Memory → Reply × Memory
grant (get_lock user md5 kind) m = (rows ((some (number (pos 1)) ∷ []) ∷ []), m)
grant q m = memory.mysql_query q (record m { faults = [] })

granting : System Memory
unfolding grant
granting = record memory { mysql_query = grant }

-- A task is inserted.
enqueue_zero : (enqueue_knowledge_task granting "ann" "aa" "parse_file" "upload" world).0 ≡ pos 0
unfolding granting grant memory answer enqueue_knowledge_task under_lock insert_unless_duplicate
    is_duplicate is_locked is_ok atoi normalized_type apply apply_tables
enqueue_zero = refl

-- Redis answers that the file is not shared, and every statement succeeds: the only reference goes.
abbrev quiet_world : Memory
quiet_world = record { state = start; faults = []; replies = λ c. integer (pos 0) }

del_file-IsSafe_example : IsSafe (view (del_file memory "ann" "aa" "a.png" quiet_world).1)
del_file-IsSafe_example =
    del_file-IsSafe memory view memory-Contract "ann" "aa" "a.png" quiet_world start-Safe

-- Storage has one file.
abbrev pub roomy : State
roomy = record start { stored = λ k. str_eq "group1/M00/a" k }

roomy-kept : (k : String) (i : FileInfo) → file_table k ≡ some i → roomy.stored i.file_id ≡ true
roomy-kept k i e = elim (Bool-cases (str_eq "aa" k)) [
  | inl t ↦
      let known : some info ≡ some i = rw t at e in
      let same : info.file_id ≡ i.file_id = cc in rw (sym same) refl
  | inr f ↦ cc (rw f at e)
]

pub roomy-Safe : IsSafe roomy
unfolding refs
roomy-Safe = record {
  now = record {
    counted = λ k. covers (str_eq "aa" k);
    kept = roomy-kept;
    distinct = λ k k' i j e e' q. sym (named k i e) ∙ named k' j e';
  };
  before = λ t e. cc;
}

abbrev pub roomy_world : Memory
roomy_world = record { state = roomy; faults = []; replies = λ c. nil }

-- A new file is put in storage and recorded.
after_receipt_example :
    IsSafe (view (after_receipt memory programs "bob" "n.png" "nn" (pos 9) roomy_world).1)
after_receipt_example =
    after_receipt-IsSafe memory programs view memory-Contract programs-Runs "bob" "n.png" "nn"
      (pos 9) roomy_world roomy-Safe
