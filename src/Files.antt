-- ===== src/Files.antt =====
-- The legacy file services over MySQL, FastDFS and Redis, and what each keeps.
pub mod Invariant
pub mod Count
pub mod InstantUpload
pub mod SaveShared
pub mod ChunkMerge
pub mod Upload
pub mod MergeRequest
pub mod Delete
pub mod Share
pub mod Session
