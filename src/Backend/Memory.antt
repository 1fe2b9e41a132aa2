-- ===== src/Backend/Memory.antt =====
-- A `System` that runs: the tables in memory, a list that says which of the next statements fail,
-- and fixed replies of Redis. It meets the contract, so the contract can be met.
use package.text.Mathlib.Text.{◌==◌ as str_eq}
use hydra_fs.Prelude.{
  some_inj, ◌≡◌, refl, sym, ◌∙◌, Bool, true, false, ◌&&◌, Option, none, some, String, List, [], ◌∷◌,
  if◌then◌else◌, arith, inl, inr, Bool-cases, ◌==◌,
}
use hydra_fs.Prelude.Int.{pos}
use hydra_fs.Backend.{
  Sql, insert_file_info, insert_user_file, insert_user_count, insert_user_info, Cell, number, chars,
  Reply, failed, no_result, rows, affected, RedisCommand, RedisReply, System,
}
use hydra_fs.Backend.Contract.{
  State, apply, answer, matches, user_rows, nick_rows, Fresh, Explains, Contract, rolled_back,
}

pub record Memory : Type 0 where
  pub state : State
  pub faults : List Bool
  pub replies : RedisCommand → RedisReply

is_none {ℓ} : {A : Type ℓ} → Option A → Bool
is_none none = true
is_none (some a) = false

is_empty {ℓ} : {A : Type ℓ} → List A → Bool
is_empty [] = true
is_empty (a ∷ rest) = false

empty_of {ℓ} : {A : Type ℓ} (l : List A) → is_empty l ≡ true → l ≡ []
unfolding is_empty
empty_of [] h = refl
empty_of (a ∷ rest) h = cc

both_of : (a b : Bool) → (a && b) ≡ true → (a ≡ true) × (b ≡ true)
both_of true b h = (refl, h)
both_of false b h = cc

fresh : Sql → State → Bool
unfolding is_none is_empty
fresh (insert_file_info md5 file_id url size type n) s = is_none (s.tables.file_info md5)
fresh (insert_user_file user md5 time name status pv) s =
    matches user md5 name s.tables.user_files == 0
fresh (insert_user_count user n) s = is_none (s.tables.user_counts user)
fresh (insert_user_info user_name nick_name password salt phone email time) s =
    is_empty (user_rows (λ r. r.user_name) user_name s.tables.users)
    && is_empty (nick_rows nick_name s.tables.users)
fresh _ s = true

none_of {ℓ} : {A : Type ℓ} (o : Option A) → is_none o ≡ true → o ≡ none
unfolding is_none
none_of none h = refl
none_of (some a) h = cc

fresh-Fresh : (q : Sql) (s : State) → fresh q s ≡ true → Fresh q s
unfolding fresh
fresh-Fresh (insert_file_info md5 file_id url size type n) s h = none_of _ h
fresh-Fresh (insert_user_file user md5 time name status pv) s h = ground arith
fresh-Fresh (insert_user_count user n) s h = none_of _ h
fresh-Fresh (insert_user_info user_name nick_name password salt phone email time) s h =
    let (a, b) =
      both_of (is_empty (user_rows (λ r. r.user_name) user_name s.tables.users))
        (is_empty (nick_rows nick_name s.tables.users)) h in
    (empty_of _ a, empty_of _ b)
fresh-Fresh _ s h = tt

answered : Option Reply → Sql → Memory → Reply × Memory
answered (some (rows r)) q m = (rows r, record m { state = apply q m.state })
answered (some (affected n)) q m = (affected n, record m { state = apply q m.state })
answered (some other) q m = (failed, m)
answered none q m = (affected 0, record m { state = apply q m.state })

perform : Sql → Memory → Reply × Memory
unfolding fresh answered
perform q m = if fresh q m.state then answered (answer q m.state) q m else (failed, m)

next : List Bool → Sql → Memory → Reply × Memory
unfolding perform
next [] q m = perform q m
next (false ∷ faults) q m = perform q (record m { faults = faults })
next (true ∷ faults) q m = (failed, record m { faults = faults })

file_name : Cell → String
file_name (number n) = ""
file_name (chars s) = s

unfoldable pub memory : System Memory
unfolding next file_name
memory = record {
  mysql_init = λ m. (true, m);
  mysql_real_connect = λ m. (true, m);
  mysql_query = λ q m. next m.faults q m;
  mysql_close = λ m. record m { state = rolled_back m.state };
  redis_connect = λ m. (true, m);
  redis_command = λ c m. (m.replies c, m);
  fdfs_delete_file = λ file m. (
    pos 0,
    record m {
      state = record m.state {
        stored = λ k. if str_eq (file_name file) k then false else m.state.stored k;
      };
    },
  );
  local_time = λ m. ("2026-01-01 00:00:00", m);
  share_token = λ user md5 filename m. ("0123", m);
  touch_dirty_mark = λ user m. m;
}

abbrev pub view : Memory → State
view m = m.state

answered-Explains :
    (o : Option Reply) (q : Sql) (m : Memory)
    → answer q m.state ≡ o
    → Fresh q m.state
    → Explains q (answered o q m).0 m.state (answered o q m).1.state
unfolding answered
answered-Explains (some (rows r)) q m e f = (refl, f, λ a h. some_inj (sym e ∙ h))
answered-Explains (some (affected n)) q m e f = (refl, f, λ a h. some_inj (sym e ∙ h))
answered-Explains (some failed) q m e f = refl
answered-Explains (some no_result) q m e f = refl
answered-Explains none q m e f = (refl, f, λ a h. cc)

perform-Explains : (q : Sql) (m : Memory) → Explains q (perform q m).0 m.state (perform q m).1.state
unfolding perform
perform-Explains q m = elim (Bool-cases (fresh q m.state)) [
  | inl e ↦
      rw (e, perform) (answered-Explains (answer q m.state) q m refl (fresh-Fresh q m.state e))
  | inr e ↦ rw (e, perform) refl
]

next-Explains :
    (faults : List Bool) (q : Sql) (m : Memory)
    → Explains q (next faults q m).0 m.state (next faults q m).1.state
unfolding next
next-Explains [] q m = perform-Explains q m
next-Explains (false ∷ faults) q m = perform-Explains q (record m { faults = faults })
next-Explains (true ∷ faults) q m = refl

pub memory-Contract : Contract memory view
unfolding memory
memory-Contract = record {
  query = λ q m. next-Explains m.faults q m;
  init = λ m. refl;
  connect = λ m. refl;
  close = λ m. refl;
  redis_connect = λ m. refl;
  redis = λ c m. refl;
  delete_file = λ file m. (false, refl);
  local_time = λ m. refl;
  token = λ user md5 filename m. refl;
  touch = λ user m. refl;
}
