-- ===== src/Des/Blocks.antt =====
-- Decrypting the blocks of a text gives back what was encrypted.
use hydra_fs.Prelude.{
  ℕ, zero, suc, ◌*◌, ◌/◌, ◌≡◌, ◌==◌, true, refl, ap, List, [], ◌∷◌, ◌++◌, arith, length,
  length-append, length-take, length-drop, take, drop, take-append-drop,
}
use hydra_fs.Text.{Bytes}
use hydra_fs.Base64.RoundTrip.{AreBytes}
use hydra_fs.Des.{Mode, en0, de1, Cipher, done, expand_key, crypt_raw, crypt_blocks}

-- What DES promises for keys and blocks of eight bytes, with the whole schedule.
pub record IsCipher (cipher : Cipher) : Type 0 where
  pub schedule_length :
      (mode : Mode) (key : Bytes) → length key ≡ 8 → length (cipher.schedule mode key) ≡ 32
  pub block_length :
      (ek : List ℕ) (block : Bytes) → length block ≡ 8 → length (cipher.crypt ek block) ≡ 8
  pub inverse :
      (key block : Bytes)
      → length key ≡ 8
      → length block ≡ 8
      → AreBytes block
      → cipher.crypt (cipher.schedule de1 key) (cipher.crypt (cipher.schedule en0 key) block)
        ≡ block

take_whole : (n : ℕ) (l : List ℕ) → length l ≡ n → take n l ≡ l
take_whole zero [] e = refl
take_whole zero (a ∷ l) e = absurd (omega arith)
take_whole (suc n) [] e = refl
take_whole (suc n) (a ∷ l) e = ap (λ s. a ∷ s) (take_whole n l (omega arith))

append_nil : (l : List ℕ) → l ++ [] ≡ l
append_nil [] = refl
append_nil (a ∷ l) = ap (λ s. a ∷ s) (append_nil l)

AreBytes-take : (n : ℕ) (s : Bytes) → AreBytes s → AreBytes (take n s)
AreBytes-take zero s h = tt
AreBytes-take (suc n) [] h = tt
AreBytes-take (suc n) (c ∷ s) h = (h.0, AreBytes-take n s h.1)

AreBytes-drop : (n : ℕ) (s : Bytes) → AreBytes s → AreBytes (drop n s)
AreBytes-drop zero s h = h
AreBytes-drop (suc n) [] h = tt
AreBytes-drop (suc n) (c ∷ s) h = AreBytes-drop n s h.1

take-append_exact : (a t : Bytes) (n : ℕ) → length a ≡ n → take n (a ++ t) ≡ a
take-append_exact [] t zero e = refl
take-append_exact [] t (suc n) e = absurd (omega arith)
take-append_exact (c ∷ a) t zero e = absurd (omega arith)
take-append_exact (c ∷ a) t (suc n) e = ap (λ s. c ∷ s) (take-append_exact a t n (omega arith))

drop-append_exact : (a t : Bytes) (n : ℕ) → length a ≡ n → drop n (a ++ t) ≡ t
drop-append_exact [] t zero e = refl
drop-append_exact [] t (suc n) e = absurd (omega arith)
drop-append_exact (c ∷ a) t zero e = absurd (omega arith)
drop-append_exact (c ∷ a) t (suc n) e = drop-append_exact a t n (omega arith)

module _ (cipher : Cipher) (h : IsCipher cipher) (four : cipher.long_size ≡ 4) (key : Bytes)
    (eight : length key ≡ 8) where
  pub expanded : (mode : Mode) → expand_key cipher mode key ≡ done (cipher.schedule mode key)
  unfolding expand_key
  expanded mode =
      let longs : length (cipher.schedule mode key) ≡ 32 = h.schedule_length mode key eight in
      let whole : 128 / cipher.long_size ≡ 32 = rw four refl in
      let all : take 32 (cipher.schedule mode key) ≡ cipher.schedule mode key =
        take_whole 32 _ longs in
      let right : (length key == 8) ≡ true = ground arith in rw (right, whole, all) refl

  raw :
      (mode : Mode) (block : Bytes)
      → length block ≡ 8
      → crypt_raw cipher (cipher.schedule mode key) block
        ≡ done (cipher.crypt (cipher.schedule mode key) block)
  unfolding crypt_raw
  raw mode block e =
      let longs : length (cipher.schedule mode key) ≡ 32 = h.schedule_length mode key eight in
      let full : (length block == 8) ≡ true = ground arith in
      rw (full, longs, four, append_nil (cipher.schedule mode key)) refl

  -- What encrypting a number of blocks gives, with its way back.
  pub record Encrypted (loops : ℕ) (plain : Bytes) : Type 0 where
    pub out : Bytes
    pub encrypted : crypt_blocks cipher loops (cipher.schedule en0 key) plain ≡ done out
    pub same_length : length out ≡ loops * 8
    pub decrypted : crypt_blocks cipher loops (cipher.schedule de1 key) out ≡ done plain

  pub blocks-Encrypted :
      (loops : ℕ) (plain : Bytes)
      → length plain ≡ loops * 8
      → AreBytes plain
      → Encrypted loops plain
  unfolding crypt_blocks
  blocks-Encrypted zero [] e b = record {
    out = [];
    encrypted = refl;
    same_length = omega arith;
    decrypted = refl;
  }
  blocks-Encrypted zero (c ∷ plain) e b = absurd (omega arith)
  blocks-Encrypted (suc loops) plain e b =
      let block : Bytes = take 8 plain in
      let rest : Encrypted loops (drop 8 plain) =
        blocks-Encrypted loops (drop 8 plain) (omega (arith, length-drop {0} 8 plain))
          (AreBytes-drop 8 plain b) in
      let full : length block ≡ 8 = omega (arith, length-take {0} 8 plain) in
      let c : Bytes = cipher.crypt (cipher.schedule en0 key) block in
      let c_full : length c ≡ 8 = h.block_length (cipher.schedule en0 key) block full in
      record {
        out = c ++ rest.out;
        encrypted = rw (raw en0 block full, rest.encrypted);
        same_length = omega (arith, length-append {0} c rest.out, rest.same_length);
        decrypted = rw (
          take-append_exact c rest.out 8 c_full,
          drop-append_exact c rest.out 8 c_full,
          raw de1 c c_full,
          h.inverse key block eight full (AreBytes-take 8 plain b),
          rest.decrypted,
          take-append-drop 8 plain,
        );
      }
