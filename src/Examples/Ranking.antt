-- ===== src/Examples/Ranking.antt =====
-- The ranking at a concrete world: one shared file, which Redis does not know.
use package.text.Mathlib.Text.{◌==◌ as str_eq}
use package.text.Mathlib.TextPositions.{eq_refl}
use hydra_fs.Prelude.{
  ◌≡◌, refl, Bool, true, false, none, some, String, List, [], ◌∷◌, length, if◌then◌else◌,
}
use hydra_fs.Prelude.Int.{ℤ, pos, ◌+ℤ◌, ◌-ℤ◌, neg_ℤ, sub_ℕ}
use hydra_fs.Text.{isspace}
use hydra_fs.Backend.{
  Sql, select_all_shares, Reply, Row, rows, RedisCommand, zadd, hset, hget, del, zcard, zscore,
  zrevrange, RedisReply, integer, string, array, nil, System, ◌>>=◌, pure, goto_end, call, atoi,
  atoi_bytes,
}
use hydra_fs.Backend.Mysql.{
  msql_conn, with_database, execute, process_result_one, store_one, is_ok, select_one, return_value,
}
use hydra_fs.Backend.Redis.{
  ask, survive, rop_del_key, rop_zset_add, rop_hash_set, rop_zset_zcard, rop_zset_zrevrange,
  rop_hash_get, rop_zset_get_score, integer_or_fail, one_or_fail, set_or_fail, string_or_fail,
  deleted_or_fail, score_or_fail, members_or_fail, limited,
}
use hydra_fs.Backend.Contract.{State, Contract, apply, apply_tables, answer, Explains}
use hydra_fs.Backend.Memory.{Memory, memory, memory-Contract}
use hydra_fs.Files.Share.{public_count}
use hydra_fs.Ranking.{
  public_number, share_of_row, first_row, get_share_files_count, or_end, import_share, import_rows,
  import_result, rebuild, read_item, read_items, renewed, ranking_steps, ranked,
  get_ranking_filelist,
}
use hydra_fs.Ranking.Store.{Ranks, Serves, Replies, AreMembers, score_of, field_reply, effect}
use hydra_fs.Ranking.Rebuild.{Lists, share_rows}
use hydra_fs.Ranking.Count.{AreRanked}
use hydra_fs.Ranking.Request.{get_ranking_filelist-AreRanked}

record Site : Type 0 where
  base : Memory
  ranks : Ranks

abbrev members : List (String × ℤ) → List String
members [] = []
members ((m, v) ∷ rest) = m ∷ members rest

-- The score of the one file.
reply : RedisCommand → Ranks → RedisReply
reply (zadd key score member) k = integer (pos 1)
reply (hset key field value) k = integer (pos 1)
reply (del key) k = integer (pos 1)
reply (zcard key) k = integer (pos (length (k.zsets key)))
reply (hget key field) k = field_reply (k.hashes key field)
reply (zrevrange key from_pos end_pos) k = array (members (k.zsets key))
reply (zscore key member) k = string "7"
reply _ k = nil

query : Sql → Site → Reply × Site
query select_all_shares w = (rows (share_rows w.base.state.tables.shares), w)
query q w = let (r, m) = memory.mysql_query q w.base in (r, record w { base = m })

with_base : {A : Type 0} → (Memory → A × Memory) → Site → A × Site
with_base f w = let (a, m) = f w.base in (a, record w { base = m })

site : System Site
unfolding query reply with_base
site = record {
  mysql_init = with_base memory.mysql_init;
  mysql_real_connect = with_base memory.mysql_real_connect;
  mysql_query = query;
  mysql_close = λ w. record w { base = memory.mysql_close w.base };
  redis_connect = λ w. (true, w);
  redis_command = λ c w. (reply c w.ranks, record w { ranks = effect c w.ranks });
  fdfs_delete_file = λ file. with_base (memory.fdfs_delete_file file);
  local_time = with_base memory.local_time;
  share_token = λ user md5 name. with_base (memory.share_token user md5 name);
  touch_dirty_mark = λ user w. record w { base = memory.touch_dirty_mark user w.base };
}

abbrev view : Site → State
view w = w.base.state

abbrev ranks : Site → Ranks
ranks w = w.ranks

query-Explains : (q : Sql) (w : Site) → Explains q (query q w).0 (view w) (view (query q w).1)
unfolding query answer apply apply_tables
query-Explains select_all_shares w = (refl, tt, λ a e. cc)
query-Explains q w = memory-Contract.query q w.base

site-Contract : Contract site view
unfolding site with_base
site-Contract = record {
  query = query-Explains;
  init = λ w. memory-Contract.init w.base;
  connect = λ w. memory-Contract.connect w.base;
  close = λ w. memory-Contract.close w.base;
  redis_connect = λ w. refl;
  redis = λ c w. refl;
  delete_file = λ file w. memory-Contract.delete_file file w.base;
  local_time = λ w. memory-Contract.local_time w.base;
  token = λ user md5 name w. memory-Contract.token user md5 name w.base;
  touch = λ user w. memory-Contract.touch user w.base;
}

behind :
    (m : String) (v : ℤ) (l : List (String × ℤ)) (ms : List String)
    → AreMembers ms l
    → AreMembers ms ((m, v) ∷ l)
behind m v l [] h = tt
behind m v l (n ∷ ms) ((u, e), h) = (by_name (str_eq m n), behind m v l ms h)
  where
    by_name : (b : Bool) → (u' : ℤ) × ((if b then some v else score_of n l) ≡ some u')
    by_name true = (v, refl)
    by_name false = (u, e)

members-AreMembers : (l : List (String × ℤ)) → AreMembers (members l) l
members-AreMembers [] = tt
members-AreMembers ((m, v) ∷ rest) =
    (found, behind m v rest (members rest) (members-AreMembers rest))
  where
    found : (u : ℤ) × (score_of m ((m, v) ∷ rest) ≡ some u)
    found = (v, rw (eq_refl m) refl)

query_ranks : (q : Sql) (w : Site) → ranks (query q w).1 ≡ ranks w
unfolding query
query_ranks select_all_shares w = refl
query_ranks q w = refl

reply-Replies : (c : RedisCommand) (k : Ranks) → Replies c (reply c k) k
unfolding reply
reply-Replies (zadd key score member) k = (1, refl)
reply-Replies (hset key field value) k = (1, refl)
reply-Replies (del key) k = (1, refl)
reply-Replies (zcard key) k = refl
reply-Replies (hget key field) k = refl
reply-Replies (zrevrange key from_pos end_pos) k = (_, refl, members-AreMembers (k.zsets key))
reply-Replies _ k = tt

site-Serves : Serves site ranks
unfolding site with_base
site-Serves = record {
  command = λ c w. (refl, reply-Replies c w.ranks);
  query = query_ranks;
  init = λ w. refl;
  connect = λ w. refl;
  close = λ w. refl;
  redis_connect = λ w. refl;
}

same_rows : (a b : List Row) → rows a ≡ rows b → b ≡ a
same_rows a b e = cc

site-Lists : Lists site view
unfolding site query
site-Lists = record {
  all_shares = λ w rs e. (w.base.state.tables.shares, same_rows _ rs e, (λ f a. a), (λ f a. a));
}

abbrev world : Site
world = record {
  base = record {
    state = record {
      tables = record {
        users = [];
        file_info = λ k. none;
        user_files = [];
        user_counts = λ k. if str_eq k public_count then some (pos 1) else none;
        shares = record { user = "ann"; md5 = "0f"; file_name = "a.txt"; pv = pos 7 } ∷ [];
        pictures = [];
        active_tasks = λ u m k. 0;
      };
      saved = none;
      stored = λ k. true;
    };
    faults = [];
    replies = λ c. nil;
  };
  ranks = record { zsets = λ k. []; hashes = λ k f. none };
}

ranking_zero : return_value (get_ranking_filelist site (pos 0) (pos 10) world).0 ≡ some (pos 0)
unfolding get_ranking_filelist get_share_files_count ranked ranking_steps renewed rebuild
    import_result import_rows import_share read_items read_item or_end public_number share_of_row
    first_row with_database msql_conn execute process_result_one store_one is_ok select_one ask
    survive rop_del_key rop_zset_add rop_hash_set rop_zset_zcard rop_zset_zrevrange rop_hash_get
    rop_zset_get_score integer_or_fail one_or_fail set_or_fail string_or_fail deleted_or_fail
    score_or_fail members_or_fail limited ◌+ℤ◌ ◌-ℤ◌ neg_ℤ sub_ℕ atoi atoi_bytes ◌>>=◌ pure goto_end
    call memory answer apply apply_tables effect site query reply with_base isspace
ranking_zero = refl

ranking_example :
    AreRanked
      (view world).tables
      (ranks world)
      (ranks (get_ranking_filelist site (pos 0) (pos 10) world).1)
ranking_example =
    get_ranking_filelist-AreRanked site view ranks site-Contract site-Serves site-Lists (pos 0)
      (pos 10) world refl ranking_zero
