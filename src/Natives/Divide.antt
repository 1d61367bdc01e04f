-- ===== src/Natives/Divide.antt =====
-- `Div32` and `Rem32`: the quotient and the remainder of two words by one.
use gopherjs.Base.{
  ℕ, zero, suc, ◌+◌, ◌-◌, ◌*◌, ◌/◌, ◌%◌, ◌^◌, ◌<◌, ◌≤◌, ◌≡◌, ok, err, some, refl, sym, ap, ◌∙◌,
  arith,
}
use native.Mathlib.Nat.{pow-succ', div-add-mod'}
use gopherjs.Base.Words.{or32, or32_apart}
use gopherjs.Natives.Bits.{
  digit, divide, div32, rem32, two32, two16, divide_error, runtime_divide_error, overflow_error,
}
use gopherjs.Natives.Division.{digit_lem}
use gopherjs.Natives.Shifting.{
  mul_below, high_part, shifted_words, digit_small, unshifted, pos_left,
}

-- What `LeadingZeros32` promises: the shift that brings the highest bit to the top.
abbrev pub IsLeadingZeros : ℕ → ℕ → Type 0
IsLeadingZeros s y = (s < 32) × (2 ^ 31 ≤ y * 2 ^ s) × (y * 2 ^ s < two32)

one_mul : (a : ℕ) → 1 * a ≡ a
one_mul a = omega arith

mul_assoc_two : (a b : ℕ) → 2 * a * b ≡ 2 * (a * b)
mul_assoc_two a b = grind arith

pow_parts : (s t : ℕ) → 2 ^ s * 2 ^ t ≡ 2 ^ (s + t)
pow_parts zero t = one_mul (2 ^ t) ∙ ap (λ n. 2 ^ n) {x = t} {y = 0 + t} (omega arith)
pow_parts (suc s) t =
    ap (λ p. p * 2 ^ t) (pow-succ' 2 s)
    ∙ mul_assoc_two (2 ^ s) (2 ^ t)
    ∙ ap (λ p. 2 * p) (pow_parts s t)
    ∙ sym (pow-succ' 2 (s + t))
    ∙ ap (λ n. 2 ^ n) {x = suc (s + t)} {y = suc s + t} (omega arith)

two_digits_any : (a b y : ℕ) → (a * two32 + b) * y ≡ a * y * two32 + b * y
two_digits_any a b y = grind arith

two_digits : (q1 q0 y : ℕ) → (q1 * two16 + q0) * y ≡ q1 * y * two16 + q0 * y
two_digits q1 q0 y = grind arith

mod_below : (a b : ℕ) → 0 < b → a % b < b
mod_below a b h = grind arith

mod_unique : (a y rem : ℕ) → rem < y → (a * y + rem) % y ≡ rem
mod_unique a y rem h = grind arith

remainder_lem :
    (hi lo y quo rem : ℕ)
    → rem < y
    → quo * y + rem ≡ hi % y * two32 + lo
    → (hi * two32 + lo) % y ≡ rem
remainder_lem hi lo y quo rem h e =
    ap (λ n. n % y) {x = hi * two32 + lo} {y = (hi / y * two32 + quo) * y + rem}
      (omega (arith, div-add-mod' hi y, two_digits_any (hi / y) quo y))
    ∙ mod_unique (hi / y * two32 + quo) y rem h

module _ (leading_zeros32 : ℕ → ℕ) where
  divide_digits :
      (hi lo y s un16 q1 left1 q0 left0 : ℕ)
      → leading_zeros32 y ≡ s
      → y * 2 ^ s < two32
      → or32 (hi * 2 ^ s % two32) (lo / 2 ^ (32 - s)) ≡ un16
      → digit (y * 2 ^ s) un16 (lo * 2 ^ s % two32 / two16) ≡ some (q1, left1)
      → digit (y * 2 ^ s) left1 (lo * 2 ^ s % two32 % two16) ≡ some (q0, left0)
      → q1 < two16
      → q0 < two16
      → divide leading_zeros32 hi lo y ≡ ok (q1 * two16 + q0, left0 / 2 ^ s)
  unfolding divide
  divide_digits hi lo y s un16 q1 left1 q0 left0 lz small e16 e1 e0 h1 h0 =
      let plain : y * 2 ^ s % two32 ≡ y * 2 ^ s = omega arith in
      let quo : (q1 * two16 % two32 + q0) % two32 ≡ q1 * two16 + q0 = omega arith in
      rw (lz, plain, e16, e1, e0, quo) refl

  -- With the whole of `LeadingZeros32`, the digits and the remainder are right.
  divide-exact :
      (hi lo y : ℕ)
      → hi < y
      → lo < two32
      → IsLeadingZeros (leading_zeros32 y) y
      → (quo rem : ℕ) × (divide leading_zeros32 hi lo y ≡ ok (quo, rem))
        × (quo * y + rem ≡ hi * two32 + lo)
        × (rem < y)
  divide-exact hi lo y less fits (short, top, small) =
      let s = leading_zeros32 y in
      let k = 2 ^ s in
      let j = 2 ^ (32 - s) in
      let powers : k * j ≡ two32 =
        pow_parts s (32 - s) ∙ ap (λ n. 2 ^ n) {x = s + (32 - s)} {y = 32} (omega arith) in
      let shifted = mul_below hi y k less in
      let low = high_part k j hi lo powers fits in
      let whole = shifted_words k j hi lo powers fits in
      let plain : hi * k % two32 ≡ hi * k = omega arith in
      let un16 =
        ap (λ a. or32 a (lo / j)) plain
        ∙ or32_apart s hi (lo / j) (omega arith) (omega arith) low in
      let (q1, left1, e1, sum1, lt1) =
        digit_lem (y * k) (hi * k + lo / j) (lo * k % two32 / two16) top small (omega arith)
          (omega arith) in
      let (q0, left0, e0, sum0, lt0) =
        digit_lem (y * k) left1 (lo * k % two32 % two16) top small lt1 (omega arith) in
      let h1 =
        digit_small q1 (y * k) left1 (hi * k + lo / j) (lo * k % two32 / two16) sum1 (omega arith)
          (omega arith) in
      let h0 = digit_small q0 (y * k) left0 left1 (lo * k % two32 % two16) sum0 lt1 (omega arith) in
      let sum : (q1 * two16 + q0) * (y * k) + left0 ≡ (hi * two32 + lo) * k =
        omega (arith, two_digits q1 q0 (y * k), sum1, sum0, whole) in
      let (exact, lt) =
        unshifted (q1 * two16 + q0) y k left0 (hi * two32 + lo) sum lt0 (pos_left k j powers) in
      (
        q1 * two16 + q0,
        left0 / k,
        divide_digits hi lo y s (hi * k + lo / j) q1 left1 q0 left0 refl small un16 e1 e0 h1 h0,
        exact,
        lt,
      )

  div32-divide :
      (hi lo y : ℕ) (r : ℕ × ℕ)
      → hi < y
      → divide leading_zeros32 hi lo y ≡ ok r
      → div32 leading_zeros32 hi lo y ≡ ok r
  unfolding div32
  div32-divide hi lo y r h e = rw e (ground arith)

  -- The three cases of `Div32`.
  div32-exact :
      (hi lo y : ℕ)
      → lo < two32
      → (0 < y → IsLeadingZeros (leading_zeros32 y) y)
      → (y ≡ 0 → div32 leading_zeros32 hi lo y ≡ err divide_error)
        × (0 < y → y ≤ hi → div32 leading_zeros32 hi lo y ≡ err overflow_error)
        × (hi < y
            → (quo rem : ℕ) × (div32 leading_zeros32 hi lo y ≡ ok (quo, rem))
              × (quo * y + rem ≡ hi * two32 + lo)
              × (rem < y))
  unfolding div32
  div32-exact hi lo y fits lz = (
    λ e. ground arith,
    λ p h. ground arith,
    λ h.
        let (quo, rem, e, exact, lt) = divide-exact hi lo y h fits (lz (omega arith)) in
        (quo, rem, div32-divide hi lo y (quo, rem) h e, exact, lt),
  )

  rem32-div32 :
      (hi lo y quo rem : ℕ)
      → 0 < y
      → div32 leading_zeros32 (hi % y) lo y ≡ ok (quo, rem)
      → rem32 leading_zeros32 hi lo y ≡ ok rem
  unfolding rem32
  rem32-div32 hi lo y quo rem h e = rw e (ground arith)

  rem32-zero : (hi lo y : ℕ) → y ≡ 0 → rem32 leading_zeros32 hi lo y ≡ err runtime_divide_error
  unfolding rem32
  rem32-zero hi lo y e = ground arith

  -- The two cases of `Rem32`.
  rem32-exact :
      (hi lo y : ℕ)
      → lo < two32
      → (0 < y → IsLeadingZeros (leading_zeros32 y) y)
      → (y ≡ 0 → rem32 leading_zeros32 hi lo y ≡ err runtime_divide_error)
        × (0 < y → rem32 leading_zeros32 hi lo y ≡ ok ((hi * two32 + lo) % y))
  rem32-exact hi lo y fits lz = (
    rem32-zero hi lo y,
    λ p.
        let (quo, rem, e, exact, lt) = (div32-exact (hi % y) lo y fits lz).2 (mod_below hi y p) in
        rem32-div32 hi lo y quo rem p e ∙ ap ok (sym (remainder_lem hi lo y quo rem lt exact)),
  )

  -- With a `LeadingZeros32` that keeps its promise for the divisor: `Div32` panics with its own error
  -- on the divisor 0 and with the overflow error when the quotient is more than a word, and otherwise
  -- returns the quotient and the remainder. `Rem32` panics only on the divisor 0, with the error of
  -- `%`, and otherwise returns the remainder.
  pub div32-rem32 :
      (hi lo y : ℕ)
      → lo < two32
      → (0 < y → IsLeadingZeros (leading_zeros32 y) y)
      → (y ≡ 0 → div32 leading_zeros32 hi lo y ≡ err divide_error)
        × (0 < y → y ≤ hi → div32 leading_zeros32 hi lo y ≡ err overflow_error)
        × (hi < y
            → (quo rem : ℕ) × (div32 leading_zeros32 hi lo y ≡ ok (quo, rem))
              × (quo * y + rem ≡ hi * two32 + lo)
              × (rem < y))
        × (y ≡ 0 → rem32 leading_zeros32 hi lo y ≡ err runtime_divide_error)
        × (0 < y → rem32 leading_zeros32 hi lo y ≡ ok ((hi * two32 + lo) % y))
  div32-rem32 hi lo y fits lz =
      let (zero_divisor, overflow, exact) = div32-exact hi lo y fits lz in
      let (zero_modulus, remainder) = rem32-exact hi lo y fits lz in
      (zero_divisor, overflow, exact, zero_modulus, remainder)
