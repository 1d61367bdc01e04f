-- ===== src/Natives/Bits.antt =====
-- compiler/natives/src/math/bits/bits.go. A uint32 is a number below 2 ^ 32, and its arithmetic wraps
-- around. `LeadingZeros32`, which is not replaced, is a parameter.
use gopherjs.Base.{
  ℕ, zero, suc, ◌+◌, ◌-◌, ◌*◌, ◌/◌, ◌%◌, ◌^◌, ◌||◌, nat_eq, leb, ltb, if◌then◌else◌, Option, none,
  some, Result, ok, err, ◌>>=◌,
}
use mathlib.Core.Option
use gopherjs.Base.Words.{and32, or32, and_not32, sub32}

abbrev pub two32 : ℕ
two32 = 2 ^ 32

abbrev pub two16 : ℕ
two16 = 2 ^ 16

-- (hi, lo)
unfoldable pub mul32 : ℕ → ℕ → ℕ × ℕ
mul32 x y =
    let x0 = x % two16 in
    let x1 = x / two16 in
    let y0 = y % two16 in
    let y1 = y / two16 in
    let w0 = x0 * y0 % two32 in
    let t = (x1 * y0 % two32 + w0 / two16) % two32 in
    let w1 = (t % two16 + x0 * y1 % two32) % two32 in
    let w2 = t / two16 in ((x1 * y1 % two32 + w2 + w1 / two16) % two32, x * y % two32)

-- (sum, carryOut)
unfoldable pub add32 : ℕ → ℕ → ℕ → ℕ × ℕ
add32 x y carry =
    let sum = (x + y + carry) % two32 in (sum, or32 (and32 x y) (and_not32 (or32 x y) sum) / 2 ^ 31)

pub data Div32Error : Type 0 where
  divide_error : Div32Error
  runtime_divide_error : Div32Error
  overflow_error : Div32Error
  out_of_fuel : Div32Error

-- A loop of `Div32` that makes a digit of the quotient smaller, with the remainder `rhat` of the
-- estimate; `none` is that the fuel ran out.
module _ (yn1 yn0 un : ℕ) where
  unfoldable pub adjust : ℕ → ℕ → ℕ → Option ℕ
  adjust zero q rhat = none
  adjust (suc fuel) q rhat =
      let q' = sub32 q 1 in
      let rhat' = (rhat + yn1) % two32 in
      let again = adjust fuel q' rhat' in
      if leb two16 q || ltb ((two16 * rhat % two32 + un) % two32) (q * yn0 % two32)
      then if leb two16 rhat' then some q' else again
      else some q

-- a digit, and what is left of `un` with the next digit `un0` behind it
unfoldable pub digit : ℕ → ℕ → ℕ → Option (ℕ × ℕ)
digit y un un0 =
    let yn1 = y / two16 in
    let yn0 = y % two16 in
    let q = un / yn1 in
    let rhat = sub32 un (q * yn1) in
    Option.map (λ q'. (q', sub32 ((un * two16 % two32 + un0) % two32) (q' * y)))
      (adjust yn1 yn0 un0 3 q rhat)

abbrev pub then_digit :
    {A : Type 0} → Option (ℕ × ℕ) → (ℕ → ℕ → Result Div32Error A) → Result Div32Error A
then_digit none f = err out_of_fuel
then_digit (some (q, left)) f = f q left

module _ (leading_zeros32 : ℕ → ℕ) where
  -- (quo, rem), when neither guard panics
  unfoldable pub divide : ℕ → ℕ → ℕ → Result Div32Error (ℕ × ℕ)
  divide hi lo y =
      let s = leading_zeros32 y in
      let y' = y * 2 ^ s % two32 in
      let un16 = or32 (hi * 2 ^ s % two32) (lo / 2 ^ (32 - s)) in
      let un10 = lo * 2 ^ s % two32 in
      then_digit (digit y' un16 (un10 / two16)) (λ q1 un21.
        then_digit (digit y' un21 (un10 % two16))
          (λ q0 left. ok ((q1 * two16 % two32 + q0) % two32, left / 2 ^ s)))

  unfoldable pub div32 : ℕ → ℕ → ℕ → Result Div32Error (ℕ × ℕ)
  div32 hi lo y =
      if nat_eq y 0
      then err divide_error
      else (if leb y hi then err overflow_error else divide hi lo y)

  -- On 0 it is `hi%y` that panics, with the error of the runtime.
  unfoldable pub rem32 : ℕ → ℕ → ℕ → Result Div32Error ℕ
  rem32 hi lo y =
      if nat_eq y 0 then err runtime_divide_error else (div32 (hi % y) lo y >>= λ r. ok r.1)
