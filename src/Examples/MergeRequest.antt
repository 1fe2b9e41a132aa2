-- ===== src/Examples/MergeRequest.antt =====
-- The theorem on merge requests at a concrete world.
use hydra_fs.Prelude.{◌≡◌, refl, Bool, true, false, Option, none, some, String, [], ◌∷◌}
use hydra_fs.Prelude.Int.{pos}
use hydra_fs.Backend.{
  RedisCommand, set_nx, hget, del, eval, RedisReply, integer, string, status, nil,
}
use hydra_fs.Backend.Memory.{Memory, memory, view, memory-Contract}
use hydra_fs.Merge.{ChunkStore}
use hydra_fs.Files.Invariant.{IsSafe}
use hydra_fs.Files.Upload.Safety.{with_file}
use hydra_fs.Files.MergeRequest.{MergeNames, ChunkDirectory, WebServer, merge_request}
use hydra_fs.Files.MergeRequest.Merged.{Creates, MergeContract}
use hydra_fs.Files.MergeRequest.Safety.{merge_request-IsSafe}
use hydra_fs.Examples.Upload.{roomy_world, roomy-Safe}

-- FastDFS has room for one file, and the files of the chunks are not followed.
unfoldable pub created : Bool → Memory → Option String × Memory
created true m = (none, m)
created false m = (some "group1/M00/n", record m { state = with_file "group1/M00/n" m.state })

unfoldable pub store : ChunkStore Memory
unfolding created
store = record {
  stat = λ md5 i m. (true, m);
  unlink = λ md5 i m. m;
  rmdir = λ md5 m. m;
  tracker_get_connection = λ m. (true, m);
  tracker_close_connection = λ m. m;
  tracker_query_storage_store = λ m. (pos 0, m);
  upload_appender = λ md5 i suffix m. created (m.state.stored "group1/M00/n") m;
  append = λ md5 i id m. (pos 0, m);
}

unfoldable pub directory : ChunkDirectory Memory
directory = record {
  entries = λ md5 m. (some ("." ∷ "0" ∷ []), m);
  unlink = λ md5 name m. m;
  rmdir = λ md5 m. m;
}

created-Creates :
    (b : Bool) (m : Memory)
    → m.state.stored "group1/M00/n" ≡ b
    → Creates (created b m).0 (view m) (view (created b m).1)
unfolding created
created-Creates true m e = refl
created-Creates false m e = (e, refl)

pub store-Contract : MergeContract store directory view
unfolding store directory
store-Contract = record {
  stat = λ md5 i m. refl;
  unlink = λ md5 i m. refl;
  rmdir = λ md5 m. refl;
  connection = λ m. refl;
  close = λ m. refl;
  query = λ m. refl;
  append = λ md5 i id m. refl;
  create = λ md5 i suffix m. created-Creates (m.state.stored "group1/M00/n") m refl;
  entries = λ md5 m. refl;
  remove = λ md5 name m. refl;
  remove_directory = λ md5 m. refl;
}

abbrev pub reply : RedisCommand → RedisReply
reply (set_nx key token) = status "OK"
reply (hget key field) = string "2"
reply (del key) = integer (pos 1)
reply (eval script key argv) = integer (pos 1)
reply _ = nil

abbrev pub names : MergeNames
names = record {
  user = "bob";
  file_md5 = "nn";
  filename = "n.png";
  redis_key = "chunk:nn";
  lock_key = "chunk_merge_lock:nn";
  lock_token = "nn:1:2:3";
}

abbrev pub web : WebServer
web = record { ip = "10.0.0.1"; port = "80" }

abbrev pub merge_world : Memory
merge_world = record roomy_world { replies = reply }

-- Two chunks are merged and recorded.
merge_request_example : IsSafe (view (merge_request memory store directory web names merge_world).1)
merge_request_example =
    merge_request-IsSafe memory store directory web names view memory-Contract store-Contract
      merge_world roomy-Safe
