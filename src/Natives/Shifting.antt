-- ===== src/Natives/Shifting.antt =====
-- Arithmetic that `Div32` rests on: a shift of the dividend and the divisor leaves the quotient.
use gopherjs.Base.{
  ℕ, zero, suc, ◌+◌, ◌*◌, ◌/◌, ◌%◌, ◌<◌, ◌≤◌, ◌≡◌, inl, inr, Bool-cases, leb, ltb, sym, ap, ◌∙◌,
  arith,
}
use native.Mathlib.Nat.{div-add-mod', div-lt_iff_lt-mul}
use gopherjs.Natives.Bits.{two32, two16}
use gopherjs.Natives.Division.{large_le}

pub mul_mono : (a b k : ℕ) → a ≤ b → a * k ≤ b * k
mul_mono a b k h = grind arith

pub mul_comm : (a b : ℕ) → a * b ≡ b * a
mul_comm a b = grind arith

pub add_mul : (a b k : ℕ) → (a + b) * k ≡ a * k + b * k
add_mul a b k = grind arith

mul_swap : (a j k : ℕ) → a * j * k ≡ a * (k * j)
mul_swap a j k = grind arith

pub mul_below : (a b k : ℕ) → a < b → a * k + k ≤ b * k
mul_below a b k h = omega (arith, mul_mono (suc a) b k h, add_mul a 1 k)

pub cancel : (a n m k : ℕ) → a * k + m ≡ n * k → m < k → a ≡ n
cancel a n m k e h = elim (Bool-cases (ltb a n)) [
  | inl less ↦ absurd (omega (arith, mul_below a n k (ground arith)))
  | inr not_less ↦ elim (Bool-cases (ltb n a)) [
    | inl more ↦ absurd (omega (arith, mul_below n a k (ground arith)))
    | inr not_more ↦ ground arith
  ]
]

pub digit_small :
    (q y left un un0 : ℕ) → q * y + left ≡ un * two16 + un0 → un < y → un0 < two16 → q < two16
digit_small q y left un un0 e h k = elim (Bool-cases (leb 65536 q)) [
  | inl wide ↦ absurd (omega (arith, large_le q y (ground arith)))
  | inr narrow ↦ ground arith
]

pos_right : (k j : ℕ) → k * j ≡ two32 → 0 < j
pos_right k zero e = absurd (grind arith)
pos_right k (suc j) e = omega arith

pub pos_left : (k j : ℕ) → k * j ≡ two32 → 0 < k
pos_left zero j e = absurd (grind arith)
pos_left (suc k) j e = omega arith

mod_lt : (a b : ℕ) → 0 < b → a % b < b
mod_lt a b h = grind arith

swap_literal : (a k : ℕ) → a * two32 * k ≡ a * k * two32
swap_literal a k = grind arith

-- The words of a dividend that is shifted by s bits, with k for 2^s and j for 2^(32-s).
module _ (k j hi lo : ℕ) (powers : k * j ≡ two32) (fits : lo < two32) where
  pub high_part : lo / j < k
  high_part = (div-lt_iff_lt-mul (pos_right k j powers)).1 (omega (arith, powers))

  parts : lo * k ≡ lo / j * two32 + lo % j * k
  parts =
      ap (λ a. a * k) (sym (div-add-mod' lo j))
      ∙ add_mul (lo / j * j) (lo % j) k
      ∙ ap (λ a. a + lo % j * k) (mul_swap (lo / j) j k ∙ ap (λ p. lo / j * p) powers)

  low_part : lo * k % two32 ≡ lo % j * k
  low_part =
      let below = mul_below (lo % j) j k (mod_lt lo j (pos_right k j powers)) in
      let full : j * k ≡ two32 = mul_comm j k ∙ powers in omega (arith, parts, pos_left k j powers)

  pub shifted_words : (hi * k + lo / j) * two32 + lo * k % two32 ≡ (hi * two32 + lo) * k
  shifted_words = omega (arith, parts, low_part, add_mul (hi * two32) lo k, swap_literal hi k)

-- The quotient of shifted numbers, and the remainder shifted back.
pub unshifted :
    (quo y k left n : ℕ)
    → quo * (y * k) + left ≡ n * k
    → left < y * k
    → 0 < k
    → (quo * y + left / k ≡ n) × (left / k < y)
unshifted quo y k left n e h pos_k =
    let lt = mod_lt left k pos_k in
    let parts = div-add-mod' left k in
    let same : (quo * y + left / k) * k ≡ quo * (y * k) + left / k * k =
      add_mul (quo * y) (left / k) k
      ∙ ap (λ a. a + left / k * k) (mul_swap quo y k ∙ ap (λ p. quo * p) (mul_comm k y)) in
    (cancel (quo * y + left / k) n (left % k) k (omega arith) lt, (div-lt_iff_lt-mul pos_k).1 h)
