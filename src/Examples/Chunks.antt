-- ===== src/Examples/Chunks.antt =====
-- A chunk written byte by byte to files in memory.
use hydra_fs.Prelude.{
  ◌≡◌, refl, ap, Option, none, some, true, String, [], ◌∷◌, ◌++◌, ℕ, length, arith, inl,
}
use hydra_fs.Prelude.Int.{ℤ, pos, negsuc}
use hydra_fs.Text.{Bytes}
use hydra_fs.Base64.{codes}
use hydra_fs.Chunks.{FileSystem, write_all, Linked, linked, exists, write_chunk_atomic}
use hydra_fs.Chunks.Posix.{Disk, put, Wrote, Links, Holds, Posix}
use hydra_fs.Chunks.Atomic.{IsAtomic, write_chunk_atomic-IsAtomic}
use hydra_fs.Chunks.Fuel.{write_all-enough}

abbrev or_empty : Option Bytes → Bytes
or_empty none = []
or_empty (some c) = c

abbrev write_byte : String → Bytes → Disk → ℤ × Disk
write_byte path [] v = (negsuc 0, v)
write_byte path (c ∷ rest) v = (pos 1, put path (some (or_empty (v path) ++ (c ∷ []))) v)

abbrev link_by : Option Bytes → String → String → Disk → Linked × Disk
link_by none old new v = (linked, put new (v old) v)
link_by (some c) old new v = (exists, v)

abbrev size_by : Option Bytes → Option ℕ
size_by none = none
size_by (some c) = some (length c)

abbrev files : FileSystem Disk
files = record {
  mkstemp = λ dir v. (some "/tmp/chunks/m/.chunk", put "/tmp/chunks/m/.chunk" (some []) v);
  write = write_byte;
  fsync = λ path v. (true, v);
  close = λ path v. (true, v);
  link = λ old new v. link_by (v new) old new v;
  unlink = λ path v. put path none v;
  stat = λ path v. (size_by (v path), v);
}

wrote :
    (path : String) (buf : Bytes) (v : Disk)
    → Wrote (write_byte path buf v).0 path buf v (write_byte path buf v).1
wrote path [] v = refl
wrote path (c ∷ rest) v =
    (omega arith, λ held e. ap (λ o. put path (some (or_empty o ++ (c ∷ []))) v) e)

links :
    (o : Option Bytes) (old new : String) (v : Disk)
    → v new ≡ o
    → Links (link_by o old new v).0 old new v (link_by o old new v).1
links none old new v e = (e, refl)
links (some c) old new v e = refl

holds :
    (o : Option Bytes) (path : String) (v : Disk) (n : ℕ)
    → v path ≡ o
    → size_by o ≡ some n
    → Holds v path n
holds none path v n e h = cc
holds (some c) path v n e h = (c, e, ground arith)

files-Posix : Posix files (λ v. v)
files-Posix = record {
  mkstemp = λ dir v. refl;
  write = wrote;
  fsync = λ path v. refl;
  close = λ path v. refl;
  link = λ old new v. links (v new) old new v refl;
  unlink = λ path v. inl refl;
  stat = λ path v. refl;
  size = λ path v n h. holds (v path) path v n refl h;
}

abbrev no_files : Disk
no_files path = none

write_chunk_atomic-IsAtomic_example :
    IsAtomic "/tmp/chunks/m/0"
      (codes "abc")
      no_files
      (write_chunk_atomic files "/tmp/chunks/m" "/tmp/chunks/m/0" (codes "abc") no_files).0
      (write_chunk_atomic files "/tmp/chunks/m" "/tmp/chunks/m/0" (codes "abc") no_files).1
write_chunk_atomic-IsAtomic_example =
    write_chunk_atomic-IsAtomic files (λ v. v) files-Posix "/tmp/chunks/m" "/tmp/chunks/m/0"
      (codes "abc") no_files (λ tmp e same. cc)

write_all-enough_example :
    write_all files 7 "/tmp/chunks/m/.chunk" (codes "abc") no_files
    ≡ write_all files 3 "/tmp/chunks/m/.chunk" (codes "abc") no_files
write_all-enough_example =
    write_all-enough files 7 3 "/tmp/chunks/m/.chunk" (codes "abc") no_files (omega arith)
      (omega arith)
