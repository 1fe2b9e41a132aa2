-- ===== src/Des.antt =====
-- The wrappers of common/des.c around the DES of its first part, which is a public implementation:
-- whole texts in blocks of eight bytes, and the padding.
pub mod Blocks
pub mod RoundTrip
use hydra_fs.Prelude.{
  ℕ, zero, suc, ◌+◌, ◌-◌, ◌*◌, ◌/◌, ◌%◌, ◌||◌, List, [], ◌∷◌, ◌++◌, ◌==◌, ltb, if◌then◌else◌,
  length, get_or, take, drop, replicate,
}
use hydra_fs.Text.{Bytes}
use hydra_fs.Base64.{codes}

-- `EN0` and `DE1`.
pub data Mode : Type 0 where
  en0 de1 : Mode

-- `deskey` with `cookey`, which makes 32 longs, and `scrunch`, `desfunc` and `unscrun`, with the size of
-- a long, and what the array `ek` of 32 longs holds where nothing was copied to it.
pub record Cipher : Type 0 where
  pub schedule : Mode → (key : Bytes) → List ℕ
  pub crypt : (ek : List ℕ) → (block : Bytes) → Bytes
  pub long_size : ℕ
  pub unset : List ℕ

-- The output behind the return value 0, another return value, or a read outside the memory.
pub data Result : Type 0 where
  done : Bytes → Result
  failed : ℕ → Result
  fault : Result

abbrev pub then_on : Result → (Bytes → Result) → Result
then_on (done out) f = f out
then_on (failed code) f = failed code
then_on fault f = fault

abbrev pub bad_length : ℕ
bad_length = 0xEE20

abbrev pub bad_content : ℕ
bad_content = 20

module _ (cipher : Cipher) where
  -- `OPENCOMM_DesExpandEncKey` and `OPENCOMM_DesExpandDecKey`: the longs in the first 128 bytes.
  unfoldable pub expand_key : Mode → (key : Bytes) → Result
  expand_key mode key =
      if length key == 8
      then done (take (128 / cipher.long_size) (cipher.schedule mode key))
      else failed bad_length

  -- `OPENCOMM_DesEncRaw` and `OPENCOMM_DesDecRaw`, with the key as its longs.
  unfoldable pub crypt_raw : (schedule : List ℕ) → (block : Bytes) → Result
  crypt_raw schedule block =
      if length block == 8
      then (if length schedule * cipher.long_size == 128
          then done (cipher.crypt (schedule ++ take (32 - length schedule) cipher.unset) block)
          else failed bad_length)
      else failed bad_length

  -- The loop with the rounds that are left.
  unfoldable pub crypt_blocks : (loops : ℕ) → (schedule : List ℕ) → (plain : Bytes) → Result
  crypt_blocks zero schedule plain = done []
  crypt_blocks (suc loops) schedule plain =
      let rest = crypt_blocks loops schedule (drop 8 plain) in
      then_on (crypt_raw schedule (take 8 plain)) λ out. then_on rest λ outs. done (out ++ outs)

  unfoldable pub myic_des : Mode → (key plain : Bytes) → Result
  myic_des mode key plain =
      if length plain % 8 == 0
      then then_on (expand_key mode key)
          (λ schedule. crypt_blocks (length plain / 8) schedule plain)
      else failed bad_length

  unfoldable pub myic_des_encrypt : (key plain : Bytes) → Result
  myic_des_encrypt = myic_des en0

  unfoldable pub myic_des_decrypt : (key plain : Bytes) → Result
  myic_des_decrypt = myic_des de1

-- The number of the bytes that are added; `tag` 0 is for DES.
unfoldable pub pad_length : (tag length : ℕ) → ℕ
pad_length tag length = if tag == 0 then 8 - length % 8 else 16 - length % 16

unfoldable pub cw_data_pad_add : (tag : ℕ) → Bytes → Bytes
cw_data_pad_add tag plain = let pad = pad_length tag (length plain) in plain ++ replicate pad pad

abbrev pub user_password_key : Bytes
user_password_key = codes "abcd1234"

-- `padChar` is -128 to 127 as a `char`, so that a byte from 128 on is refused too.
unfoldable pub remove_padding : Bytes → Result
remove_padding [] = fault
remove_padding (c ∷ text) =
    let pad = get_or (c ∷ text) (length text) 0 in
    if pad == 0 || ltb 8 pad
    then failed bad_content
    else done (take (length (c ∷ text) - pad) (c ∷ text))

module _ (cipher : Cipher) where
  unfoldable pub des_enc : Bytes → Result
  des_enc plain = myic_des_encrypt cipher user_password_key (cw_data_pad_add 0 plain)

  unfoldable pub des_enc_raw : Bytes → Result
  des_enc_raw plain = myic_des_encrypt cipher user_password_key plain

  unfoldable pub des_dec : Bytes → Result
  des_dec plain = then_on (myic_des_decrypt cipher user_password_key plain) remove_padding

  unfoldable pub des_dec_raw : Bytes → Result
  des_dec_raw plain = myic_des_decrypt cipher user_password_key plain
