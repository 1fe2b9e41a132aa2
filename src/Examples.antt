-- ===== src/Examples.antt =====
-- The theorems at concrete inputs, and tests of the definitions.
mod Upload
mod Text
mod Chunks
mod Multipart
mod Merge
mod MergeRequest
mod Session
mod Des
mod Accounts
mod Ranking
mod Chunker
mod Pictures
mod Breaker
mod Parts
