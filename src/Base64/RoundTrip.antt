-- ===== src/Base64/RoundTrip.antt =====
-- Decoding what common/base64.c encoded gives the data back.
use hydra_fs.Prelude.{
  ℕ, ◌+◌, ◌*◌, ◌/◌, ◌%◌, ◌<◌, ◌≡◌, ◌≢◌, refl, Option, some, [], ◌∷◌, arith, length,
}
use hydra_fs.Text.{Bytes}
use hydra_fs.Base64.{char_of, base64_encode, base64_decode, decode_group, prepend}
use hydra_fs.Base64.Bits.{
  first_digit_lem, second_high_lem, third_high_lem, fourth_digit_lem, second_digit_lem,
  third_digit_lem, first_byte_lem, second_byte_lem, third_byte_lem, value-char_of, char_of-in_text,
}

abbrev pub AreBytes : Bytes → Type 0
AreBytes [] = Unit {0}
AreBytes (c ∷ s) = (c < 256) × AreBytes s

module _ (t0 t1 : ℕ) (p0 : t0 < 64) (p1 : t1 < 64) where
  group_one :
      (rest : Option Bytes)
      → decode_group (char_of t0) (char_of t1) b'=' b'=' rest ≡ some ((t0 * 4 + t1 / 16) ∷ [])
  unfolding decode_group
  group_one rest = simp (value-char_of t0 p0, value-char_of t1 p1, first_byte_lem t0 t1 p0 p1)

  group_two :
      (t2 : ℕ) (p2 : t2 < 64) (rest : Option Bytes)
      → decode_group (char_of t0) (char_of t1) (char_of t2) b'=' rest
        ≡ some ((t0 * 4 + t1 / 16) ∷ (t1 % 16 * 16 + t2 / 4) ∷ [])
  unfolding decode_group
  group_two t2 p2 rest =
      simp
        (
          value-char_of t0 p0,
          value-char_of t1 p1,
          value-char_of t2 p2,
          first_byte_lem t0 t1 p0 p1,
          second_byte_lem t1 t2 p1 p2,
        )
        (ground (arith, char_of-in_text t2 p2))

  group_three :
      (t2 t3 : ℕ) (p2 : t2 < 64) (p3 : t3 < 64) (rest : Option Bytes)
      → decode_group (char_of t0) (char_of t1) (char_of t2) (char_of t3) rest
        ≡ prepend ((t0 * 4 + t1 / 16) ∷ (t1 % 16 * 16 + t2 / 4) ∷ (t2 % 4 * 64 + t3) ∷ []) rest
  unfolding decode_group
  group_three t2 t3 p2 p3 rest =
      simp
        (
          value-char_of t0 p0,
          value-char_of t1 p1,
          value-char_of t2 p2,
          value-char_of t3 p3,
          first_byte_lem t0 t1 p0 p1,
          second_byte_lem t1 t2 p1 p2,
          third_byte_lem t2 t3 p2 p3,
        )
        (ground (arith, char_of-in_text t2 p2, char_of-in_text t3 p3))

one_back : (a : ℕ) → a < 256 → a / 4 * 4 + a % 4 * 16 / 16 ≡ a
one_back a h = omega arith

two_back : (a b : ℕ) → a < 256 → b < 256 → a / 4 * 4 + (a % 4 * 16 + b / 16) / 16 ≡ a
two_back a b p q = omega arith

second_back :
    (a b c : ℕ) → b < 256 → c < 4 → (a % 4 * 16 + b / 16) % 16 * 16 + (b % 16 * 4 + c) / 4 ≡ b
second_back a b c p q = omega arith

third_back : (b c : ℕ) → c < 256 → (b % 16 * 4 + c / 64) % 4 * 64 + c % 64 ≡ c
third_back b c h = omega arith

second_back_pad : (a b : ℕ) → b < 256 → (a % 4 * 16 + b / 16) % 16 * 16 + b % 16 * 4 / 4 ≡ b
second_back_pad a b p = omega arith

-- Decoding an encoding never reads out of bounds and gives the data back, whatever its length.
pub base64_decode-encode :
    (bindata : Bytes) → AreBytes bindata → base64_decode (base64_encode bindata) ≡ some bindata
unfolding base64_encode base64_decode
base64_decode-encode [] h = refl
base64_decode-encode (a ∷ []) h = rw (
  first_digit_lem a h.0,
  second_high_lem a h.0,
  group_one (a / 4) (a % 4 * 16) (omega arith) (omega arith) (some []),
  one_back a h.0,
)
base64_decode-encode (a ∷ b ∷ []) h = rw (
  first_digit_lem a h.0,
  second_digit_lem a b h.0 h.1.0,
  third_high_lem b h.1.0,
  group_two (a / 4) (a % 4 * 16 + b / 16) (omega arith) (omega arith) (b % 16 * 4) (omega arith)
      (some []),
  two_back a b h.0 h.1.0,
  second_back_pad a b h.1.0,
)
base64_decode-encode (a ∷ b ∷ c ∷ rest) h = rw (
  first_digit_lem a h.0,
  second_digit_lem a b h.0 h.1.0,
  third_digit_lem b c h.1.0 h.1.1.0,
  fourth_digit_lem c h.1.1.0,
  base64_decode-encode rest h.1.1.1,
  group_three (a / 4) (a % 4 * 16 + b / 16) (omega arith) (omega arith) (b % 16 * 4 + c / 64)
      (c % 64) (omega arith) (omega arith) (some rest),
  two_back a b h.0 h.1.0,
  second_back a b (c / 64) h.1.0 (omega arith),
  third_back b c h.1.1.0,
)

abbrev pub HasNoNul : Bytes → Type 0
HasNoNul [] = Unit {0}
HasNoNul (c ∷ s) = (c ≢ 0) × HasNoNul s

digit_no_nul : (k : ℕ) → k < 64 → char_of k ≢ 0
digit_no_nul k h = (char_of-in_text k h).1

encode-length : (bindata : Bytes) → length (base64_encode bindata) ≡ (length bindata + 2) / 3 * 4
unfolding base64_encode
encode-length [] = omega arith
encode-length (a ∷ []) = omega arith
encode-length (a ∷ b ∷ []) = omega arith
encode-length (a ∷ b ∷ c ∷ rest) = omega (arith, encode-length rest)

encode-HasNoNul : (bindata : Bytes) → AreBytes bindata → HasNoNul (base64_encode bindata)
unfolding base64_encode
encode-HasNoNul [] h = tt
encode-HasNoNul (a ∷ []) h =
    rw (first_digit_lem a h.0, second_high_lem a h.0)
      (digit_no_nul _ (omega arith), (digit_no_nul _ (omega arith), omega arith))
encode-HasNoNul (a ∷ b ∷ []) h =
    rw (first_digit_lem a h.0, second_digit_lem a b h.0 h.1.0, third_high_lem b h.1.0)
      (
        digit_no_nul _ (omega arith),
        (digit_no_nul _ (omega arith), (digit_no_nul _ (omega arith), omega arith)),
      )
encode-HasNoNul (a ∷ b ∷ c ∷ rest) h =
    rw
      (
        first_digit_lem a h.0,
        second_digit_lem a b h.0 h.1.0,
        third_digit_lem b c h.1.0 h.1.1.0,
        fourth_digit_lem c h.1.1.0,
      )
      (
        digit_no_nul _ (omega arith),
        (
          digit_no_nul _ (omega arith),
          (
            digit_no_nul _ (omega arith),
            (digit_no_nul _ (omega arith), encode-HasNoNul rest h.1.1.1),
          ),
        ),
      )

-- The encoding of bytes has four characters for each three bytes begun, and holds no NUL.
pub base64_encode-text :
    (bindata : Bytes)
    → AreBytes bindata
    → (length (base64_encode bindata) ≡ (length bindata + 2) / 3 * 4)
      × HasNoNul (base64_encode bindata)
base64_encode-text bindata h = (encode-length bindata, encode-HasNoNul bindata h)
