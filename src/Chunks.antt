-- ===== src/Chunks.antt =====
-- `write_chunk_atomic` and `is_complete_chunk` of src_cgi/chunk_upload_cgi.c: a chunk of an upload is
-- written to a file of its own and linked to its name when it is complete. The file system is a
-- parameter; a file is known by its path also while it is open.
pub mod Posix
pub mod Atomic
pub mod Fuel
use hydra_fs.Prelude.{
  ℕ, zero, suc, Bool, true, false, ◌&&◌, Option, none, some, String, [], ◌∷◌, ◌==◌, if◌then◌else◌,
  drop, length,
}
use hydra_fs.Prelude.Int.{ℤ, pos, negsuc, positive}
use hydra_fs.Text.{Bytes}

-- What `link` does: 0, or -1 with EEXIST or another `errno`.
pub data Linked : Type 0 where
  linked exists refused : Linked

pub record FileSystem (W : Type 0) : Type 0 where
  -- `mkstemp` with a template in this directory: the path of the file, or -1
  pub mkstemp : (dir : String) → W → Option String × W
  pub write : (path : String) → Bytes → W → ℤ × W
  -- 0 is `true`
  pub fsync : (path : String) → W → Bool × W
  pub close : (path : String) → W → Bool × W
  pub link : (old new : String) → W → Linked × W
  pub unlink : (path : String) → W → W
  -- `stat`: the size of a regular file
  pub stat : (path : String) → W → Option ℕ × W

-- The bytes that `write` says it wrote.
abbrev pub amount : ℤ → ℕ
amount (pos n) = n
amount (negsuc n) = 0

abbrev pub is_size : Option ℕ → ℕ → Bool
is_size none len = false
is_size (some n) len = n == len

module _ {W : Type 0} (fs : FileSystem W) where
  unfoldable pub is_complete_chunk : (chunk_path : String) → (len : ℕ) → W → Bool × W
  is_complete_chunk chunk_path len w =
      let (size, w') = fs.stat chunk_path w in (is_size size len, w')

  -- The loop of `write`, with fuel for its rounds; whether all bytes are written.
  unfoldable pub write_all : ℕ → (path : String) → Bytes → W → Bool × W
  write_all fuel path [] w = (true, w)
  write_all zero path (c ∷ rest) w = (false, w)
  write_all (suc fuel) path (c ∷ rest) w =
      let (n, w') = fs.write path (c ∷ rest) w in
      let further = write_all fuel path (drop (amount n) (c ∷ rest)) w' in
      if positive n then further else (false, w')

  unfoldable pub give_up : (tmp_path : String) → W → ℤ × W
  give_up tmp_path w = (negsuc 0, fs.unlink tmp_path w)

  unfoldable pub settle : (tmp_path : String) → W → ℤ × W
  settle tmp_path w = (pos 0, fs.unlink tmp_path w)

  -- What follows `link`.
  unfoldable pub after_link : Linked → (tmp_path chunk_path : String) → (len : ℕ) → W → ℤ × W
  after_link linked tmp_path chunk_path len w = settle tmp_path w
  after_link refused tmp_path chunk_path len w = give_up tmp_path w
  after_link exists tmp_path chunk_path len w =
      let (complete, w') = is_complete_chunk chunk_path len w in
      if complete then settle tmp_path w' else give_up tmp_path w'

  -- Behind the second `close`.
  unfoldable pub publish : (tmp_path chunk_path : String) → (len : ℕ) → W → ℤ × W
  publish tmp_path chunk_path len w =
      let (complete, w1) = is_complete_chunk chunk_path len w in
      let (reply, w2) = fs.link tmp_path chunk_path w1 in
      if complete then settle tmp_path w1 else after_link reply tmp_path chunk_path len w2

  -- All bytes are written.
  unfoldable pub finish : (tmp_path chunk_path : String) → (len : ℕ) → W → ℤ × W
  finish tmp_path chunk_path len w =
      let (synced, w1) = fs.fsync tmp_path w in
      let (closed, w2) = fs.close tmp_path w1 in
      if synced && closed then publish tmp_path chunk_path len w2 else give_up tmp_path w2

  unfoldable pub fill : Option String → (chunk_path : String) → (chunk_buf : Bytes) → W → ℤ × W
  fill none chunk_path chunk_buf w = (negsuc 0, w)
  fill (some tmp_path) chunk_path chunk_buf w =
      let (done, w') = write_all (length chunk_buf) tmp_path chunk_buf w in
      if done
      then finish tmp_path chunk_path (length chunk_buf) w'
      else give_up tmp_path (fs.close tmp_path w').1

  -- `len` is the length of the buffer.
  unfoldable pub write_chunk_atomic :
      (chunk_dir chunk_path : String) → (chunk_buf : Bytes) → W → ℤ × W
  write_chunk_atomic chunk_dir chunk_path chunk_buf w =
      let (tmp_path, w') = fs.mkstemp chunk_dir w in fill tmp_path chunk_path chunk_buf w'
