-- ===== src/Examples/Accounts.antt =====
-- The theorems on accounts at a concrete world.
use Prim.Native.String.{◌++◌ as append}
use hydra_fs.Prelude.{◌≡◌, refl, true, false, none, some, String, [], arith}
use hydra_fs.Prelude.Int.{pos, negsuc}
use hydra_fs.Backend.{select_password, select_salt, nil, System, ◌>>=◌, pure, goto_end, call}
use hydra_fs.Backend.Mysql.{
  msql_conn, with_database, select_exists, execute, process_result_one, store_one, is_ok,
  select_one,
}
use hydra_fs.Backend.Contract.{
  IsSettled, State, Contract, answer, apply, apply_tables, user_rows, nick_rows,
}
use hydra_fs.Backend.Memory.{Memory, memory, view, memory-Contract}
use hydra_fs.Accounts.{
  Hashing, register_steps, check_steps, salted_hash, user_register, check_user_pwd,
}
use hydra_fs.Accounts.Login.{IsAccount, registered, user_register-IsAccount}
use hydra_fs.Accounts.Check.{AreRows, IsPlain, IsAdmitted, check_user_pwd-IsAdmitted}
use hydra_fs.Accounts.Admission.{check_user_pwd-register}

-- A hash that is not one, and a salt that is not random.
hashing : Hashing Memory
hashing = record { generate_salt = λ m. ("7f", m); md5_hex = λ text. append "h" text }

-- The memory where no statement is made to fail.
calm : Memory → Memory
calm m = record m { faults = [] }

reliable : System Memory
unfolding calm
reliable = record memory { mysql_query = λ q m. memory.mysql_query q (calm m) }

reliable-Contract : Contract reliable view
unfolding reliable calm
reliable-Contract = record {
  query = λ q m. memory-Contract.query q (calm m);
  init = memory-Contract.init;
  connect = memory-Contract.connect;
  close = memory-Contract.close;
  redis_connect = memory-Contract.redis_connect;
  redis = memory-Contract.redis;
  delete_file = memory-Contract.delete_file;
  local_time = memory-Contract.local_time;
  token = memory-Contract.token;
  touch = memory-Contract.touch;
}

abbrev empty : State
empty = record {
  tables = record {
    users = [];
    file_info = λ k. none;
    user_files = [];
    user_counts = λ k. none;
    shares = [];
    pictures = [];
    active_tasks = λ u m k. 0;
  };
  saved = none;
  stored = λ k. false;
}

abbrev world : Memory
world = record { state = empty; faults = []; replies = λ c. nil }

registered_zero : (user_register reliable hashing "ann" "Ann" "pw" "1" "a@b" world).0 ≡ some (pos 0)
unfolding reliable calm memory user_register register_steps with_database msql_conn salted_hash
    select_exists execute process_result_one store_one is_ok answer apply apply_tables user_rows
    nick_rows check_steps check_user_pwd select_one ◌>>=◌ pure goto_end call hashing
registered_zero = refl

salting : (w : Memory) → view (hashing.generate_salt w).1 ≡ view w
unfolding hashing
salting w = refl

user_register-IsAccount_example :
    IsAccount reliable hashing view reliable-Contract salting "ann" "Ann" "pw"
      (view (user_register reliable hashing "ann" "Ann" "pw" "1" "a@b" world).1).tables
user_register-IsAccount_example =
    user_register-IsAccount reliable hashing view reliable-Contract salting "ann" "Ann" "pw" "1"
      "a@b" world refl registered_zero

abbrev after : Memory
after = (user_register reliable hashing "ann" "Ann" "pw" "1" "a@b" world).1

up : (w : Memory) → (msql_conn reliable w).0 ≡ true
unfolding reliable memory msql_conn
up w = refl

told :
    (user : String) (w : Memory)
    → AreRows (reliable.mysql_query (select_password user) w).0
      × AreRows (reliable.mysql_query (select_salt user) w).0
unfolding reliable memory calm answer
told user w = ((λ e. cc, λ e. cc), (λ e. cc, λ e. cc))

admitted_zero : (check_user_pwd reliable hashing "ann" "pw" after).0 ≡ some (pos 0)
admitted_zero =
    check_user_pwd-register reliable hashing view reliable-Contract up told salting "ann" "Ann" "pw"
      "1" "a@b" world refl registered_zero

check_user_pwd-register_example :
    (check_user_pwd reliable hashing "ann" "pw" after).0 ≡ some (pos 0)
check_user_pwd-register_example =
    check_user_pwd-register reliable hashing view reliable-Contract up told salting "ann" "Ann" "pw"
      "1" "a@b" world refl registered_zero

IsSettled-after : IsSettled (view after)
IsSettled-after =
    (registered reliable hashing view reliable-Contract salting "ann" "Ann" "pw" "1" "a@b" world
      refl registered_zero).0

plain : IsPlain "ann"
plain = (omega arith, omega arith)

check_user_pwd-IsAdmitted_example :
    IsAdmitted reliable hashing view reliable-Contract "ann" "pw" (view after).tables
check_user_pwd-IsAdmitted_example =
    check_user_pwd-IsAdmitted reliable hashing view reliable-Contract "ann" "pw" after plain
      (λ w. (told "ann" w).1) IsSettled-after admitted_zero

-- Another password is refused, and so is the name a second time.
other_password : (check_user_pwd reliable hashing "ann" "wp" after).0 ≡ some (negsuc 0)
unfolding reliable calm memory user_register register_steps with_database msql_conn salted_hash
    select_exists execute process_result_one store_one is_ok answer apply apply_tables user_rows
    nick_rows check_steps check_user_pwd select_one ◌>>=◌ pure goto_end call hashing
other_password = refl

taken_name : (user_register reliable hashing "ann" "Eve" "pw" "1" "a@b" after).0 ≡ some (negsuc 1)
unfolding reliable calm memory user_register register_steps with_database msql_conn salted_hash
    select_exists execute process_result_one store_one is_ok answer apply apply_tables user_rows
    nick_rows check_steps check_user_pwd select_one ◌>>=◌ pure goto_end call hashing
taken_name = refl
