-- ===== src/Examples/Des.antt =====
-- The theorem on the DES wrappers with a cipher that moves the bytes of a block on by the key.
use hydra_fs.Prelude.{ℕ, ◌+◌, ◌-◌, ◌%◌, List, [], ◌∷◌, ◌++◌, replicate}
use hydra_fs.Text.{Bytes}
use hydra_fs.Des.{Mode, en0, de1, Cipher}

-- Each byte of the block is moved on by its byte of the key.
shifted : List ℕ → Bytes → Bytes
shifted [] block = block
shifted (k ∷ ks) [] = []
shifted (k ∷ ks) (c ∷ block) = ((c + k) % 256) ∷ shifted ks block

opposite : List ℕ → List ℕ
opposite [] = []
opposite (k ∷ ks) = (256 - k % 256) ∷ opposite ks

key_longs : Mode → Bytes → List ℕ
unfolding opposite
key_longs en0 key = key ++ replicate 24 0
key_longs de1 key = opposite (key ++ replicate 24 0)

shifting : Cipher
unfolding shifted key_longs
shifting = record { schedule = key_longs; crypt = shifted; long_size = 4; unset = 7 ∷ [] }
