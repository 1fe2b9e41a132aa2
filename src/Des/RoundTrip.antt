-- ===== src/Des/RoundTrip.antt =====
-- `des_dec` gives back what `des_enc` of common/des.c was given.
use hydra_fs.Prelude.{ℕ, ◌+◌, ◌/◌, ◌≡◌, length}
use hydra_fs.Text.{Bytes}
use hydra_fs.Des.{Cipher, done, myic_des_encrypt, myic_des_decrypt, user_password_key}
use hydra_fs.Des.Blocks.{IsCipher}

-- The number of blocks.
abbrev pub blocks : ℕ → ℕ
blocks n = n / 8 + 1

module _ (cipher : Cipher) (h : IsCipher cipher) (four : cipher.long_size ≡ 4) where
  abbrev key : Bytes
  key = user_password_key

  -- What `myic_des_encrypt` gives and `myic_des_decrypt` makes of it.
  record Coded (text : Bytes) : Type 0 where
    out : Bytes
    encrypted : myic_des_encrypt cipher key text ≡ done out
    same_length : length out ≡ length text
    decrypted : myic_des_decrypt cipher key out ≡ done text
