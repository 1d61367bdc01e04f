-- ===== src/Natives/Words.antt =====
-- Words of 32 bits in two halves: the laws of `Mul32` and `Add32`.
use gopherjs.Base.{ℕ, ◌+◌, ◌*◌, ◌/◌, ◌%◌, ◌^◌, ◌<◌, ◌≤◌, ◌≡◌, refl, sym, ap, ◌∙◌, arith}
use gopherjs.Base.Words.{
  and32, or32, and_not32, and_bit, or_bit, and_not_bit, bit31, zip_bits-lt, bit-zip_bits,
}
use gopherjs.Natives.Bits.{mul32, add32, two32, two16}

halves-mul-lt : (a b : ℕ) → a < 65536 → b < 65536 → a * b ≤ 4294836225
halves-mul-lt a b ha hb = grind arith

halves-mul :
    (x0 x1 y0 y1 : ℕ)
    → (x1 * 65536 + x0) * (y1 * 65536 + y0)
      ≡ x1 * y1 * 4294967296 + (x1 * y0 + x0 * y1) * 65536 + x0 * y0
halves-mul x0 x1 y0 y1 = grind arith

split16 : (x : ℕ) → x / two16 * two16 + x % two16 ≡ x
split16 x = omega arith

words_sum :
    (p00 p10 p01 p11 p : ℕ)
    → p00 ≤ 4294836225
    → p10 ≤ 4294836225
    → p01 ≤ 4294836225
    → p11 ≤ 4294836225
    → p ≡ p11 * 4294967296 + (p10 + p01) * 65536 + p00
    → (p11 % two32
            + (p10 % two32 + p00 % two32 / two16) % two32 / two16
            + ((p10 % two32 + p00 % two32 / two16) % two32 % two16 + p01 % two32) % two32 / two16)
          % two32
          * two32
        + p % two32
      ≡ p
words_sum p00 p10 p01 p11 p h00 h10 h01 h11 e = omega arith

-- The whole product, in two words.
mul32-product :
    (x y : ℕ)
    → x < two32
    → y < two32
    → ((mul32 x y).0 * two32 + (mul32 x y).1 ≡ x * y)
      × ((mul32 x y).0 < two32)
      × ((mul32 x y).1 < two32)
unfolding mul32
mul32-product x y hx hy =
    let p00 = halves-mul-lt (x % two16) (y % two16) (omega arith) (omega arith) in
    let p10 = halves-mul-lt (x / two16) (y % two16) (omega arith) (omega arith) in
    let p01 = halves-mul-lt (x % two16) (y / two16) (omega arith) (omega arith) in
    let p11 = halves-mul-lt (x / two16) (y / two16) (omega arith) (omega arith) in
    let whole : x * y ≡ _ =
      ap (λ a. a * y) (sym (split16 x))
      ∙ ap (λ b. (x / two16 * two16 + x % two16) * b) (sym (split16 y))
      ∙ halves-mul (x % two16) (x / two16) (y % two16) (y / two16) in
    (
      words_sum (x % two16 * (y % two16)) (x / two16 * (y % two16)) (x % two16 * (y / two16))
          (x / two16 * (y / two16)) (x * y) p00 p10 p01 p11 whole,
      omega arith,
      omega arith,
    )

or_digit : (a b : ℕ) → a < 2 → b < 2 → or_bit a b < 2
or_digit a b ha hb = ground arith

and_digit : (a b : ℕ) → a < 2 → b < 2 → and_bit a b < 2
and_digit a b ha hb = ground arith

and_not_digit : (a b : ℕ) → a < 2 → b < 2 → and_not_bit a b < 2
and_not_digit a b ha hb = ground arith

top_or : (a b : ℕ) → a < two32 → b < two32 → or32 a b / 2 ^ 31 ≡ or_bit (a / 2 ^ 31) (b / 2 ^ 31)
top_or a b ha hb =
    sym (bit31 (or32 a b) (zip_bits-lt or_bit 32 a b or_digit))
    ∙ bit-zip_bits or_bit 32 31 a b (omega arith) or_digit
    ∙ rw (bit31 a ha, bit31 b hb) refl

top_and : (a b : ℕ) → a < two32 → b < two32 → and32 a b / 2 ^ 31 ≡ and_bit (a / 2 ^ 31) (b / 2 ^ 31)
top_and a b ha hb =
    sym (bit31 (and32 a b) (zip_bits-lt and_bit 32 a b and_digit))
    ∙ bit-zip_bits and_bit 32 31 a b (omega arith) and_digit
    ∙ rw (bit31 a ha, bit31 b hb) refl

top_and_not :
    (a b : ℕ)
    → a < two32
    → b < two32
    → and_not32 a b / 2 ^ 31 ≡ and_not_bit (a / 2 ^ 31) (b / 2 ^ 31)
top_and_not a b ha hb =
    sym (bit31 (and_not32 a b) (zip_bits-lt and_not_bit 32 a b and_not_digit))
    ∙ bit-zip_bits and_not_bit 32 31 a b (omega arith) and_not_digit
    ∙ rw (bit31 a ha, bit31 b hb) refl

-- The carry as the highest bits of the words have it.
carry_bits :
    (x y sum : ℕ)
    → x < two32
    → y < two32
    → sum < two32
    → or32 (and32 x y) (and_not32 (or32 x y) sum) / 2 ^ 31
      ≡ or_bit
          (and_bit (x / 2 ^ 31) (y / 2 ^ 31))
          (and_not_bit (or_bit (x / 2 ^ 31) (y / 2 ^ 31)) (sum / 2 ^ 31))
carry_bits x y sum hx hy hs =
    top_or (and32 x y) (and_not32 (or32 x y) sum) (zip_bits-lt and_bit 32 x y and_digit)
      (zip_bits-lt and_not_bit 32 (or32 x y) sum and_not_digit)
    ∙ rw
        (
          top_and x y hx hy,
          top_and_not (or32 x y) sum (zip_bits-lt or_bit 32 x y or_digit) hs,
          top_or x y hx hy,
        )
        refl

-- The whole sum.
add32-sum :
    (x y carry : ℕ)
    → x < two32
    → y < two32
    → carry < 2
    → (add32 x y carry).1 * two32 + (add32 x y carry).0 ≡ x + y + carry
unfolding add32
add32-sum x y carry hx hy hc =
    rw (carry_bits x y ((x + y + carry) % two32) hx hy (omega arith)) (ground arith)

-- `Mul32` gives the whole product in two words, and `Add32` gives the whole sum of two words and a
-- carry bit, with the carry out as a digit above it.
pub mul32-add32 :
    (x y carry : ℕ)
    → x < two32
    → y < two32
    → carry < 2
    → ((mul32 x y).0 * two32 + (mul32 x y).1 ≡ x * y)
      × ((mul32 x y).0 < two32)
      × ((mul32 x y).1 < two32)
      × ((add32 x y carry).1 * two32 + (add32 x y carry).0 ≡ x + y + carry)
      × ((add32 x y carry).0 < two32)
unfolding add32
mul32-add32 x y carry hx hy hc =
    let (product, high, low) = mul32-product x y hx hy in
    (product, high, low, add32-sum x y carry hx hy hc, omega arith)
