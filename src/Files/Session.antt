-- ===== src/Files/Session.antt =====
-- The file services together: the requests that a server has answered, one behind the other.
use hydra_fs.Prelude.{◌≡◌, ◌⊎◌, String}
use hydra_fs.Prelude.Int.{ℤ}
use hydra_fs.Backend.{System}
use hydra_fs.Backend.Contract.{State, Contract}
use hydra_fs.Merge.{ChunkStore}
use hydra_fs.Files.Invariant.{refs, IsSafe, IsKept, IsKept-listed}
use hydra_fs.Files.InstantUpload.{deal_md5}
use hydra_fs.Files.InstantUpload.Safety.{deal_md5-IsSafe}
use hydra_fs.Files.SaveShared.{save_file}
use hydra_fs.Files.SaveShared.Safety.{save_file-IsSafe}
use hydra_fs.Files.Delete.{del_file}
use hydra_fs.Files.Delete.Safety.{del_file-IsSafe}
use hydra_fs.Files.Upload.{Programs, after_receipt}
use hydra_fs.Files.Upload.Safety.{ProgramsContract, after_receipt-IsSafe}
use hydra_fs.Files.MergeRequest.{MergeNames, ChunkDirectory, WebServer, merge_request}
use hydra_fs.Files.MergeRequest.Merged.{MergeContract}
use hydra_fs.Files.MergeRequest.Safety.{merge_request-IsSafe}
use hydra_fs.Files.Share.{share_file, cancel_share_file, pv_file}
use hydra_fs.Files.Share.Safety.{share_file-IsSafe, cancel_share_file-IsSafe, pv_file-IsSafe}

-- What a client may ask for, but for the shared pictures of src_cgi/sharepicture_cgi.c.
pub data Request : Type 0 where
  instant save unlist share cancel : (user md5 filename : String) → Request
  download : (md5 filename : String) → Request
  -- what upload_cgi does with a form that it has received
  upload : (user filename md5 : String) → (size : ℤ) → Request
  merge : MergeNames → Request

module _ {W : Type 0} (sys : System W) (programs : Programs W) (store : ChunkStore W)
    (directory : ChunkDirectory W) (web : WebServer) where
  unfoldable pub serve : Request → W → W
  serve (instant user md5 filename) w = (deal_md5 sys user md5 filename w).1
  serve (save user md5 filename) w = (save_file sys user md5 filename w).1
  serve (unlist user md5 filename) w = (del_file sys user md5 filename w).1
  serve (share user md5 filename) w = (share_file sys user md5 filename w).1
  serve (cancel user md5 filename) w = (cancel_share_file sys user md5 filename w).1
  serve (download md5 filename) w = (pv_file sys md5 filename w).1
  serve (upload user filename md5 size) w = (after_receipt sys programs user filename md5 size w).1
  serve (merge names) w = (merge_request sys store directory web names w).1

  -- The worlds that requests lead to.
  pub data Reachable (start : W) : W → Type 0 where
    at_start : Reachable start start
    served : {w : W} (q : Request) → Reachable start w → Reachable start (serve q w)

module _ {W : Type 0} (sys : System W) (programs : Programs W) (store : ChunkStore W)
    (directory : ChunkDirectory W) (web : WebServer) (view : W → State)
    (behaves : Contract sys view) (runs : ProgramsContract programs view)
    (keeps : MergeContract store directory view) where
  serve-IsSafe :
      (q : Request) (w : W)
      → IsSafe (view w)
      → IsSafe (view (serve sys programs store directory web q w))
  unfolding serve
  serve-IsSafe (instant user md5 filename) w h =
      deal_md5-IsSafe sys view behaves user md5 filename w h
  serve-IsSafe (save user md5 filename) w h =
      save_file-IsSafe sys view behaves user md5 filename w h
  serve-IsSafe (unlist user md5 filename) w h =
      del_file-IsSafe sys view behaves user md5 filename w h
  serve-IsSafe (share user md5 filename) w h =
      share_file-IsSafe sys view behaves user md5 filename w h
  serve-IsSafe (cancel user md5 filename) w h =
      cancel_share_file-IsSafe sys view behaves user md5 filename w h
  serve-IsSafe (download md5 filename) w h = pv_file-IsSafe sys view behaves md5 filename w h
  serve-IsSafe (upload user filename md5 size) w h =
      after_receipt-IsSafe sys programs view behaves runs user filename md5 size w h
  serve-IsSafe (merge names) w h =
      merge_request-IsSafe sys store directory web names view behaves keeps w h

  pub Reachable-IsSafe :
      (start w : W)
      → Reachable sys programs store directory web start w
      → IsSafe (view start)
      → IsSafe (view w)
  Reachable-IsSafe start w at_start h = h
  Reachable-IsSafe start w (served {w = v} q r) h = serve-IsSafe q v (Reachable-IsSafe start v r h)

  -- From a state whose counts cover its references, whatever requests of `Request` are served one
  -- behind the other, and wherever they fail, each md5 is one that no user lists, or it has a row in
  -- file_info whose file is in storage. These are instant uploads, uploads, merges of chunks,
  -- deletions, sharings and their cancellings, takings of shared files and downloads, and not the
  -- requests on shared pictures of sharepicture_cgi.c; the programs of FastDFS can be executed.
  pub Reachable-IsKept :
      (start w : W) (md5 : String)
      → Reachable sys programs store directory web start w
      → IsSafe (view start)
      → (refs md5 (view w).tables.user_files ≡ 0) ⊎ IsKept md5 (view w)
  Reachable-IsKept start w md5 r h = IsKept-listed md5 (view w) (Reachable-IsSafe start w r h)
