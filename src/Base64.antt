-- ===== src/Base64.antt =====
-- common/base64.c. A text is the list of its bytes before the NUL, data is a list of bytes; the
-- casts to `unsigned char` are written out as `% 256`.
pub mod Bits
pub mod RoundTrip
use Prim.Native.Nat.{bit_and, bit_or}
use hydra_fs.Prelude.{
  ℕ, zero, suc, ◌+◌, ◌*◌, ◌/◌, ◌%◌, String, Option, none, some, [], ◌∷◌, ◌++◌, ◌==◌, if◌then◌else◌,
  get_or,
}
use hydra_fs.Text.{Bytes}
use Prim.Native.Char.{code}

abbrev pub codes : String → Bytes
codes String.[] = []
codes (String.◌∷◌ c s) = code c ∷ codes s

abbrev pub base64char : Bytes
base64char = codes "ABCDEFGHIJKLMNOPQRSTUVWXYZabcdefghijklmnopqrstuvwxyz0123456789+/"

pub char_of : ℕ → ℕ
char_of current = get_or base64char current 0

-- The values of `current` before each store.
pub first_digit : ℕ → ℕ
first_digit a = bit_and (a / 4) 0x3F

pub second_high : ℕ → ℕ
second_high a = bit_and (a * 16 % 256) 0x30

pub second_digit : ℕ → ℕ → ℕ
second_digit a b = bit_or (second_high a) (bit_and (b / 16) 0x0F)

pub third_high : ℕ → ℕ
third_high b = bit_and (b * 4 % 256) 0x3C

pub third_digit : ℕ → ℕ → ℕ
third_digit b c = bit_or (third_high b) (bit_and (c / 64) 0x03)

pub fourth_digit : ℕ → ℕ
fourth_digit c = bit_and c 0x3F

pub base64_encode : Bytes → Bytes
base64_encode [] = []
base64_encode (a ∷ []) = char_of (first_digit a) ∷ char_of (second_high a) ∷ b'=' ∷ b'=' ∷ []
base64_encode (a ∷ b ∷ []) =
    char_of (first_digit a) ∷ char_of (second_digit a b) ∷ char_of (third_high b) ∷ b'=' ∷ []
base64_encode (a ∷ b ∷ c ∷ rest) =
    char_of (first_digit a)
    ∷ char_of (second_digit a b)
    ∷ char_of (third_digit b c)
    ∷ char_of (fourth_digit c)
    ∷ base64_encode rest

-- `for (k = 0; k < 64; k++) if (base64char[k] == c) temp = k;` over a temp of 0xFF: the last match.
pub scan : Bytes → ℕ → ℕ → ℕ → ℕ
scan [] k c temp = temp
scan (d ∷ ds) k c temp = scan ds (k + 1) c (if d == c then k else temp)

pub value_of_char : ℕ → ℕ
value_of_char c = scan base64char 0 c 0xFF

pub first_byte : ℕ → ℕ → ℕ
first_byte t0 t1 = bit_or (bit_and (t0 * 4 % 256) 0xFC) (bit_and (t1 / 16) 0x03)

pub second_byte : ℕ → ℕ → ℕ
second_byte t1 t2 = bit_or (bit_and (t1 * 16 % 256) 0xF0) (bit_and (t2 / 4) 0x0F)

pub third_byte : ℕ → ℕ → ℕ
third_byte t2 t3 = bit_or (bit_and (t2 * 64 % 256) 0xF0) (bit_and t3 0x3F)

abbrev prepend : Bytes → Option Bytes → Option Bytes
prepend bytes none = none
prepend bytes (some rest) = some (bytes ++ rest)

-- One group of four, and what the groups behind it decode to.
pub decode_group : ℕ → ℕ → ℕ → ℕ → Option Bytes → Option Bytes
decode_group c0 c1 c2 c3 rest =
    let t1 = value_of_char c1 in
    let t2 = value_of_char c2 in
    let b0 = first_byte (value_of_char c0) t1 in
    let b1 = second_byte t1 t2 in
    let b2 = third_byte t2 (value_of_char c3) in
    if c2 == b'='
    then some (b0 ∷ [])
    else if c3 == b'='
    then some (b0 ∷ b1 ∷ [])
    else prepend (b0 ∷ b1 ∷ b2 ∷ []) rest

-- The decoded bytes, or `none` where the loop reads behind the terminating NUL. A last group of
-- three bytes has the NUL for its fourth, and ends in bounds only by its `=`.
pub base64_decode : Bytes → Option Bytes
base64_decode [] = some []
base64_decode (c0 ∷ []) = none
base64_decode (c0 ∷ c1 ∷ []) = none
base64_decode (c0 ∷ c1 ∷ c2 ∷ []) = decode_group c0 c1 c2 0 none
base64_decode (c0 ∷ c1 ∷ c2 ∷ c3 ∷ rest) = decode_group c0 c1 c2 c3 (base64_decode rest)
