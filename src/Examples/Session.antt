-- ===== src/Examples/Session.antt =====
-- The theorem on sequences of requests at a concrete one.
use hydra_fs.Prelude.{◌≡◌, ◌⊎◌}
use hydra_fs.Prelude.Int.{pos}
use hydra_fs.Backend.Memory.{memory, view, memory-Contract}
use hydra_fs.Files.Invariant.{refs, IsKept}
use hydra_fs.Files.Upload.Memory.{programs, programs-Runs}
use hydra_fs.Files.Session.{
  instant, unlist, share, upload, merge, serve, at_start, served, Reachable-IsKept,
}
use hydra_fs.Examples.Upload.{roomy-Safe}
use hydra_fs.Examples.MergeRequest.{store, directory, store-Contract, names, web, merge_world}

-- Bob's chunks are merged, Ann shares her file, Bob takes it, and Ann deletes hers.
session_example :
    let serve' = serve memory programs store directory web in
    let s = view (
      serve' (unlist "ann" "aa" "a.png") (
        serve' (instant "bob" "aa" "b.png") (
          serve'
            (share "ann" "aa" "a.png")
            (serve' (upload "bob" "n.png" "nn" (pos 9)) (serve' (merge names) merge_world))))) in
    (refs "aa" s.tables.user_files ≡ 0) ⊎ IsKept "aa" s
session_example =
    Reachable-IsKept memory programs store directory web view memory-Contract programs-Runs
      store-Contract merge_world _ "aa"
      (served (unlist "ann" "aa" "a.png") (
        served (instant "bob" "aa" "b.png") (
          served (share "ann" "aa" "a.png")
            (served (upload "bob" "n.png" "nn" (pos 9)) (served (merge names) at_start)))))
      roomy-Safe
