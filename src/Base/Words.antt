-- ===== src/Base/Words.antt =====
-- Bit operations on machine words as native numbers.
use Prim.Native.Nat.{ℕ, zero, suc, ◌+◌, ◌-◌, ◌*◌, ◌/◌, ◌%◌, ◌^◌, ◌≤◌, ◌<◌}
use mathlib.Core.Path.{◌≡◌, ap, ◌∙◌}
use native.Mathlib.Omega.{arith}
use native.Mathlib.Nat.{pow-succ'}
use gopherjs.Base.Tests.{nat_eq, if◌then◌else◌}

-- An operation on digits, on each of the lowest bits of two words.
unfoldable pub zip_bits : (ℕ → ℕ → ℕ) → ℕ → ℕ → ℕ → ℕ
zip_bits f zero a b = 0
zip_bits f (suc bits) a b = f (a % 2) (b % 2) + 2 * zip_bits f bits (a / 2) (b / 2)

-- `&`, `|`, `^` and `&^` on a bit
abbrev pub and_bit : ℕ → ℕ → ℕ
and_bit a b = if nat_eq a 0 then 0 else b

abbrev pub or_bit : ℕ → ℕ → ℕ
or_bit a b = if nat_eq a 0 then b else 1

abbrev pub xor_bit : ℕ → ℕ → ℕ
xor_bit a b = if nat_eq a b then 0 else 1

abbrev pub and_not_bit : ℕ → ℕ → ℕ
and_not_bit a b = if nat_eq b 0 then a else 0

-- on uint32
abbrev pub and32 : ℕ → ℕ → ℕ
and32 = zip_bits and_bit 32

abbrev pub or32 : ℕ → ℕ → ℕ
or32 = zip_bits or_bit 32

abbrev pub xor32 : ℕ → ℕ → ℕ
xor32 = zip_bits xor_bit 32

abbrev pub and_not32 : ℕ → ℕ → ℕ
and_not32 = zip_bits and_not_bit 32

abbrev pub sub32 : ℕ → ℕ → ℕ
sub32 a b = (a % 2 ^ 32 + (2 ^ 32 - b % 2 ^ 32)) % 2 ^ 32

-- The n-th bit, by halving.
unfoldable pub bit : ℕ → ℕ → ℕ
bit zero a = a % 2
bit (suc n) a = bit n (a / 2)

module _ (f : ℕ → ℕ → ℕ) where
  -- A function on digits gives a digit.
  abbrev pub OnDigits : Type 0
  OnDigits = (a b : ℕ) → a < 2 → b < 2 → f a b < 2

  pub zip_bits-lt : (n a b : ℕ) → OnDigits → zip_bits f n a b < 2 ^ n
  unfolding zip_bits
  zip_bits-lt zero a b digit = omega arith
  zip_bits-lt (suc n) a b digit =
      let here = digit (a % 2) (b % 2) (omega arith) (omega arith) in
      let there = zip_bits-lt n (a / 2) (b / 2) digit in omega arith

  pub bit-zip_bits :
      (n i a b : ℕ) → i < n → OnDigits → bit i (zip_bits f n a b) ≡ f (bit i a) (bit i b)
  unfolding zip_bits bit
  bit-zip_bits zero i a b h digit = absurd (omega arith)
  bit-zip_bits (suc n) zero a b h digit =
      let here = digit (a % 2) (b % 2) (omega arith) (omega arith) in omega arith
  bit-zip_bits (suc n) (suc i) a b h digit =
      let here = digit (a % 2) (b % 2) (omega arith) (omega arith) in
      ap (bit i) {x = (f (a % 2) (b % 2) + 2 * zip_bits f n (a / 2) (b / 2)) / 2}
        {y = zip_bits f n (a / 2) (b / 2)} (omega arith)
      ∙ bit-zip_bits n i (a / 2) (b / 2) (omega arith) digit

-- The highest bit of a word.
pub bit31 : (a : ℕ) → a < 2 ^ 32 → bit 31 a ≡ a / 2 ^ 31
unfolding bit
bit31 a h = omega arith

zip_bits-or_zero : (n a : ℕ) → a < 2 ^ n → zip_bits or_bit n a 0 ≡ a
unfolding zip_bits
zip_bits-or_zero zero a h = omega arith
zip_bits-or_zero (suc n) a h = let rest = zip_bits-or_zero n (a / 2) (omega arith) in ground arith

double_comm : (k p : ℕ) → k * (2 * p) ≡ k * p * 2
double_comm k p = grind arith

pow-double : (k s : ℕ) → k * 2 ^ suc s ≡ k * 2 ^ s * 2
pow-double k s = ap (λ p. k * p) (pow-succ' 2 s) ∙ double_comm k (2 ^ s)

-- `|` of words with no bit in common is their sum.
zip_bits-or_apart :
    (n s k b : ℕ)
    → s ≤ n
    → k * 2 ^ s < 2 ^ n
    → b < 2 ^ s
    → zip_bits or_bit n (k * 2 ^ s) b ≡ k * 2 ^ s + b
unfolding zip_bits
zip_bits-or_apart n zero k b h ka hb =
    let none_set : b ≡ 0 = omega arith in
    rw none_set (zip_bits-or_zero n (k * 2 ^ 0) ka ∙ omega arith)
zip_bits-or_apart zero (suc s) k b h ka hb = absurd (omega arith)
zip_bits-or_apart (suc n) (suc s) k b h ka hb =
    let double = pow-double k s in
    let even : k * 2 ^ s * 2 % 2 ≡ 0 = omega arith in
    let half : k * 2 ^ s * 2 / 2 ≡ k * 2 ^ s = omega arith in
    let rest = zip_bits-or_apart n s k (b / 2) (omega arith) (omega arith) (omega arith) in
    rw (double, even, half, rest) (omega arith)

pub or32_apart :
    (s k b : ℕ) → s ≤ 32 → k * 2 ^ s < 2 ^ 32 → b < 2 ^ s → or32 (k * 2 ^ s) b ≡ k * 2 ^ s + b
or32_apart s k b h ka hb = zip_bits-or_apart 32 s k b h ka hb
