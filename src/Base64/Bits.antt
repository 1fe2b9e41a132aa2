-- ===== src/Base64/Bits.antt =====
-- The masks and shifts of common/base64.c as arithmetic, each checked on every value in range.
use Prim.Native.Nat.{bit_and, bit_or}
use hydra_fs.Prelude.{
  ℕ, zero, suc, ◌+◌, ◌*◌, ◌/◌, ◌%◌, ◌<◌, ◌≡◌, refl, Bool, true, ◌&&◌, arith, ◌==◌, ==_iff, ltb, not,
  Bool-cases, inl, inr, subst, sym, if◌then◌else◌, ◌≢◌,
}
use hydra_fs.Base64.{
  first_digit, second_high, second_digit, third_high, third_digit, fourth_digit, first_byte,
  second_byte, third_byte, char_of, scan, value_of_char,
}

-- Two functions agree on every argument below `n`.
same_upto : (f g : ℕ → ℕ) → ℕ → Bool
same_upto f g zero = true
same_upto f g (suc k) = f k == g k && same_upto f g k

module _ (f g : ℕ → ℕ) where
  from_table : (n : ℕ) → same_upto f g n ≡ true → (x : ℕ) → x < n → f x ≡ g x
  unfolding same_upto
  from_table zero agree x below = absurd (omega arith)
  from_table (suc k) agree x below = elim (Bool-cases (x == k)) [
    | inl e ↦
        let same : x ≡ k = (==_iff x k).0 e in subst (λ y. f y ≡ g y) (sym same) (ground arith)
    | inr e ↦ from_table k (ground arith) x (ground arith)
  ]

module _ (n : ℕ) (f g : ℕ → ℕ) (table : same_upto f g n ≡ true) where
  by_table : (x : ℕ) → x < n → f x ≡ g x
  by_table = from_table f g n table

-- A disjunction of disjoint fields is their sum, tabled over both fields packed in one number.
or_table_16 : same_upto (λ x. bit_or (x / 16 * 16) (x % 16)) (λ x. x) 256 ≡ true
unfolding same_upto
or_table_16 = refl

or_table_4 : same_upto (λ x. bit_or (x / 4 * 4) (x % 4)) (λ x. x) 256 ≡ true
unfolding same_upto
or_table_4 = refl

or_table_64 : same_upto (λ x. bit_or (x / 64 * 64) (x % 64)) (λ x. x) 256 ≡ true
unfolding same_upto
or_table_64 = refl

pub or_16 : (h l : ℕ) → h < 16 → l < 16 → bit_or (h * 16) l ≡ h * 16 + l
or_16 h l p q =
    let x : ℕ = h * 16 + l in
    let a : x / 16 ≡ h = omega arith in
    let b : x % 16 ≡ l = omega arith in
    let t : bit_or (x / 16 * 16) (x % 16) ≡ x =
      by_table 256 (λ x. bit_or (x / 16 * 16) (x % 16)) (λ x. x) or_table_16 x (omega arith) in
    rw (a, b) at t

pub or_4 : (h l : ℕ) → h < 64 → l < 4 → bit_or (h * 4) l ≡ h * 4 + l
or_4 h l p q =
    let x : ℕ = h * 4 + l in
    let a : x / 4 ≡ h = omega arith in
    let b : x % 4 ≡ l = omega arith in
    let t : bit_or (x / 4 * 4) (x % 4) ≡ x =
      by_table 256 (λ x. bit_or (x / 4 * 4) (x % 4)) (λ x. x) or_table_4 x (omega arith) in
    rw (a, b) at t

pub or_64 : (h l : ℕ) → h < 4 → l < 64 → bit_or (h * 64) l ≡ h * 64 + l
or_64 h l p q =
    let x : ℕ = h * 64 + l in
    let a : x / 64 ≡ h = omega arith in
    let b : x % 64 ≡ l = omega arith in
    let t : bit_or (x / 64 * 64) (x % 64) ≡ x =
      by_table 256 (λ x. bit_or (x / 64 * 64) (x % 64)) (λ x. x) or_table_64 x (omega arith) in
    rw (a, b) at t

-- The digits that the encoder stores.
pub first_digit_lem : (a : ℕ) → a < 256 → first_digit a ≡ a / 4
unfolding first_digit same_upto
first_digit_lem = by_table 256 first_digit (λ a. a / 4) refl

pub second_high_lem : (a : ℕ) → a < 256 → second_high a ≡ a % 4 * 16
unfolding second_high same_upto
second_high_lem = by_table 256 second_high (λ a. a % 4 * 16) refl

pub third_high_lem : (b : ℕ) → b < 256 → third_high b ≡ b % 16 * 4
unfolding third_high same_upto
third_high_lem = by_table 256 third_high (λ b. b % 16 * 4) refl

pub fourth_digit_lem : (c : ℕ) → c < 256 → fourth_digit c ≡ c % 64
unfolding fourth_digit same_upto
fourth_digit_lem = by_table 256 fourth_digit (λ c. c % 64) refl

low_second : (b : ℕ) → b < 256 → bit_and (b / 16) 0x0F ≡ b / 16
unfolding same_upto
low_second = by_table 256 (λ b. bit_and (b / 16) 0x0F) (λ b. b / 16) refl

low_third : (c : ℕ) → c < 256 → bit_and (c / 64) 0x03 ≡ c / 64
unfolding same_upto
low_third = by_table 256 (λ c. bit_and (c / 64) 0x03) (λ c. c / 64) refl

pub second_digit_lem : (a b : ℕ) → a < 256 → b < 256 → second_digit a b ≡ a % 4 * 16 + b / 16
unfolding second_digit
second_digit_lem a b p q =
    rw (second_high_lem a p, low_second b q) (or_16 (a % 4) (b / 16) (omega arith) (omega arith))

pub third_digit_lem : (b c : ℕ) → b < 256 → c < 256 → third_digit b c ≡ b % 16 * 4 + c / 64
unfolding third_digit
third_digit_lem b c p q =
    rw (third_high_lem b p, low_third c q) (or_4 (b % 16) (c / 64) (omega arith) (omega arith))

-- The bytes that the decoder stores.
high_first : (t : ℕ) → t < 64 → bit_and (t * 4 % 256) 0xFC ≡ t * 4
unfolding same_upto
high_first = by_table 64 (λ t. bit_and (t * 4 % 256) 0xFC) (λ t. t * 4) refl

low_first : (t : ℕ) → t < 64 → bit_and (t / 16) 0x03 ≡ t / 16
unfolding same_upto
low_first = by_table 64 (λ t. bit_and (t / 16) 0x03) (λ t. t / 16) refl

high_second : (t : ℕ) → t < 64 → bit_and (t * 16 % 256) 0xF0 ≡ t % 16 * 16
unfolding same_upto
high_second = by_table 64 (λ t. bit_and (t * 16 % 256) 0xF0) (λ t. t % 16 * 16) refl

low_second_byte : (t : ℕ) → t < 64 → bit_and (t / 4) 0x0F ≡ t / 4
unfolding same_upto
low_second_byte = by_table 64 (λ t. bit_and (t / 4) 0x0F) (λ t. t / 4) refl

high_third : (t : ℕ) → t < 64 → bit_and (t * 64 % 256) 0xF0 ≡ t % 4 * 64
unfolding same_upto
high_third = by_table 64 (λ t. bit_and (t * 64 % 256) 0xF0) (λ t. t % 4 * 64) refl

low_third_byte : (t : ℕ) → t < 64 → bit_and t 0x3F ≡ t
unfolding same_upto
low_third_byte = by_table 64 (λ t. bit_and t 0x3F) (λ t. t) refl

pub first_byte_lem : (t u : ℕ) → t < 64 → u < 64 → first_byte t u ≡ t * 4 + u / 16
unfolding first_byte
first_byte_lem t u p q = rw (high_first t p, low_first u q) (or_4 t (u / 16) p (omega arith))

pub second_byte_lem : (t u : ℕ) → t < 64 → u < 64 → second_byte t u ≡ t % 16 * 16 + u / 4
unfolding second_byte
second_byte_lem t u p q =
    rw (high_second t p, low_second_byte u q) (or_16 (t % 16) (u / 4) (omega arith) (omega arith))

pub third_byte_lem : (t u : ℕ) → t < 64 → u < 64 → third_byte t u ≡ t % 4 * 64 + u
unfolding third_byte
third_byte_lem t u p q = rw (high_third t p, low_third_byte u q) (or_64 (t % 4) u (omega arith) q)

-- The alphabet: a digit's character is found again, and is neither `=` nor the NUL.
pub value-char_of : (k : ℕ) → k < 64 → value_of_char (char_of k) ≡ k
unfolding value_of_char scan char_of same_upto
value-char_of = by_table 64 (λ k. value_of_char (char_of k)) (λ k. k) refl

pub char_of-in_text : (k : ℕ) → k < 64 → (char_of k ≢ b'=') × (char_of k ≢ 0)
unfolding char_of same_upto
char_of-in_text k h =
    let allowed =
      by_table 64 (λ x. if ltb 42 (char_of x) && not (char_of x == b'=') then 1 else 0) (λ x. 1)
        refl k h in
    ground arith
