-- ===== src/Natives/Division.antt =====
-- The loop of `Div32` on one digit of the quotient, and the digit.
use native.Mathlib.Nat.{div-add-mod'}
use gopherjs.Base.{
  ℕ, Bool, zero, suc, ◌+◌, ◌*◌, ◌/◌, ◌%◌, ◌^◌, ◌<◌, ◌≤◌, ◌≡◌, inl, inr, Bool-cases, leb, ltb, ◌||◌,
  true, false, some, refl, sym, ap, ◌∙◌, arith,
}
use gopherjs.Base.Words.{sub32}
use gopherjs.Natives.Bits.{adjust, digit, two32, two16}

pub large_le : (q y : ℕ) → 65536 ≤ q → 65536 * y ≤ q * y
large_le q y h = grind arith

module _ (yn1 yn0 un un0 : ℕ) where
  -- The divisor is normalized, and the quotient of what is divided is one digit.
  abbrev pub Normal : Type 0
  Normal = (32768 ≤ yn1) × (yn1 < 65536) × (yn0 < 65536) × (un0 < 65536) × (un < yn1 * 65536 + yn0)

  -- `q` times the divisor does not go beyond what is divided, and `q` is the last such number.
  abbrev pub IsDigit : ℕ → Type 0
  IsDigit q =
      (q * (yn1 * 65536 + yn0) ≤ un * 65536 + un0)
      × (un * 65536 + un0 < q * (yn1 * 65536 + yn0) + (yn1 * 65536 + yn0))

  split_product : (q : ℕ) → q * (yn1 * 65536 + yn0) ≡ q * yn1 * 65536 + q * yn0
  split_product q = grind arith

  too_large : (q : ℕ) → Normal → 65536 ≤ q → un * 65536 + un0 < q * (yn1 * 65536 + yn0)
  too_large q (h1, h2, h3, h4, h5) large = omega (arith, large_le q (yn1 * 65536 + yn0) large)

  halves_le : (q : ℕ) → q < 65536 → yn0 < 65536 → q * yn0 ≤ 4294836225
  halves_le q h k = grind arith

  le_product : (q : ℕ) → 32768 ≤ yn1 → 32768 * q ≤ q * yn1
  le_product q h = grind arith

  pred-product : (q m : ℕ) → q * m + m ≡ suc q * m
  pred-product q m = grind arith

  -- What the loop knows of its variables.
  abbrev pub Estimate : ℕ → ℕ → Type 0
  Estimate q rhat =
      (un ≡ q * yn1 + rhat)
      × (rhat < 65536)
      × (un * 65536 + un0 < q * (yn1 * 65536 + yn0) + (yn1 * 65536 + yn0))

  -- When the remainder of the estimate is two digits, the estimate is right.
  last_down :
      (q rhat : ℕ)
      → Normal
      → un ≡ q * yn1 + rhat
      → 65536 ≤ rhat
      → q * (yn1 * 65536 + yn0) ≤ un * 65536 + un0
  last_down q rhat (h1, h2, h3, h4, h5) e large = elim (Bool-cases (leb 65536 q)) [
    | inl wide ↦ absurd (omega (arith, large_le q yn1 (ground arith), split_product q))
    | inr narrow ↦ omega (arith, halves_le q (ground arith) h3, split_product q)
  ]

  abbrev test : ℕ → ℕ → Bool
  test q rhat = leb two16 q || ltb ((two16 * rhat % two32 + un0) % two32) (q * yn0 % two32)

  test-right :
      (q rhat : ℕ)
      → Normal
      → un ≡ q * yn1 + rhat
      → rhat < 65536
      → (test q rhat ≡ true → un * 65536 + un0 < q * (yn1 * 65536 + yn0))
        × (test q rhat ≡ false → q * (yn1 * 65536 + yn0) ≤ un * 65536 + un0)
  test-right q rhat normal e small = elim (Bool-cases (leb 65536 q)) [
    | inl wide ↦ (λ t. too_large q normal (ground arith), λ t. absurd (ground arith))
    | inr narrow ↦
        let (h1, h2, h3, h4, h5) = normal in
        let bound = halves_le q (ground arith) h3 in
        let whole = split_product q in (λ t. ground arith, λ t. ground arith)
  ]

  -- one less than a number that is too high
  next_lower :
      (q rhat : ℕ)
      → Normal
      → un ≡ q * yn1 + rhat
      → un * 65536 + un0 < q * (yn1 * 65536 + yn0)
      → (p : ℕ) × (q ≡ suc p)
        × (sub32 q 1 ≡ p)
        × (un ≡ p * yn1 + (rhat + yn1))
        × (un * 65536 + un0 < p * (yn1 * 65536 + yn0) + (yn1 * 65536 + yn0))
  next_lower zero rhat normal e h = absurd (omega arith)
  next_lower (suc p) rhat (h1, h2, h3, h4, h5) e h = (
    p,
    refl,
    omega (arith, le_product (suc p) h1),
    omega (arith, pred-product p yn1),
    omega (arith, pred-product p (yn1 * 65536 + yn0)),
  )

  adjust-keep :
      (fuel q rhat : ℕ) → test q rhat ≡ false → adjust yn1 yn0 un0 (suc fuel) q rhat ≡ some q
  unfolding adjust
  adjust-keep fuel q rhat fits = rw fits refl

  adjust-stop :
      (fuel q rhat p : ℕ)
      → test q rhat ≡ true
      → sub32 q 1 ≡ p
      → (rhat + yn1) % two32 ≡ rhat + yn1
      → leb two16 (rhat + yn1) ≡ true
      → adjust yn1 yn0 un0 (suc fuel) q rhat ≡ some p
  unfolding adjust
  adjust-stop fuel q rhat p above sub plain wide = rw (above, plain, wide, sub) refl

  adjust-again :
      (fuel q rhat p : ℕ)
      → test q rhat ≡ true
      → sub32 q 1 ≡ p
      → (rhat + yn1) % two32 ≡ rhat + yn1
      → leb two16 (rhat + yn1) ≡ false
      → adjust yn1 yn0 un0 (suc fuel) q rhat ≡ adjust yn1 yn0 un0 fuel p (rhat + yn1)
  unfolding adjust
  adjust-again fuel q rhat p above sub plain narrow = rw (above, plain, narrow, sub) refl

  -- With fuel for the rounds in which `rhat` is below two digits, the loop ends with the digit.
  pub adjust_lem :
      (fuel q rhat : ℕ)
      → Normal
      → Estimate q rhat
      → 65536 ≤ rhat + fuel * 32768
      → (q' : ℕ) × (adjust yn1 yn0 un0 fuel q rhat ≡ some q') × IsDigit q'
  adjust_lem zero q rhat normal (e, small, high) enough = absurd (omega arith)
  adjust_lem (suc fuel) q rhat normal (e, small, high) enough =
      let (over, under) = test-right q rhat normal e small in
      elim (Bool-cases (test q rhat)) [
        | inr fits ↦ (q, adjust-keep fuel q rhat fits, (under fits, high))
        | inl above ↦
            let (p, _, sub, e', high') = next_lower q rhat normal e (over above) in
            let (h1, h2, h3, h4, h5) = normal in
            let plain : (rhat + yn1) % two32 ≡ rhat + yn1 = omega arith in
            elim (Bool-cases (leb two16 (rhat + yn1))) [
              | inl wide ↦ (
                p,
                adjust-stop fuel q rhat p above sub plain wide,
                (last_down p (rhat + yn1) normal e' (ground arith), high'),
              )
              | inr narrow ↦
                  let (q', r, is_digit) =
                    adjust_lem fuel p (rhat + yn1) normal (e', ground arith, high') (omega arith) in
                  (q', adjust-again fuel q rhat p above sub plain narrow ∙ r, is_digit)
            ]
      ]

left_lem :
    (un un0 p y : ℕ)
    → p ≤ un * two16 + un0
    → un * two16 + un0 < p + y
    → y < two32
    → (p + sub32 ((un * two16 % two32 + un0) % two32) p ≡ un * two16 + un0)
      × (sub32 ((un * two16 % two32 + un0) % two32) p < y)
left_lem un un0 p y h k hy = (omega arith, omega arith)

digit-adjust :
    (y un un0 rhat q : ℕ)
    → sub32 un (un / (y / two16) * (y / two16)) ≡ rhat
    → adjust (y / two16) (y % two16) un0 3 (un / (y / two16)) rhat ≡ some q
    → digit y un un0 ≡ some (q, sub32 ((un * two16 % two32 + un0) % two32) (q * y))
unfolding digit
digit-adjust y un un0 rhat q e r = rw (e, r) refl

quotient_lem : (a b : ℕ) → 0 < b → (r : ℕ) × (a ≡ a / b * b + r) × (r < b)
quotient_lem a b h = (a % b, sym (div-add-mod' a b), grind arith)

-- A digit of the quotient by a normalized divisor, and the remainder.
pub digit_lem :
    (y un un0 : ℕ)
    → 2 ^ 31 ≤ y
    → y < two32
    → un < y
    → un0 < two16
    → (q left : ℕ) × (digit y un un0 ≡ some (q, left))
      × (q * y + left ≡ un * two16 + un0)
      × (left < y)
digit_lem y un un0 hy ky hu h0 =
    let yn1 = y / two16 in
    let yn0 = y % two16 in
    let halves : yn1 * 65536 + yn0 ≡ y = omega arith in
    let (rhat, e, lt) = quotient_lem un yn1 (omega arith) in
    let q0 = un / yn1 in
    let sub : sub32 un (q0 * yn1) ≡ rhat = omega arith in
    let high : un * 65536 + un0 < q0 * (yn1 * 65536 + yn0) + (yn1 * 65536 + yn0) =
      omega (arith, split_product yn1 yn0 un un0 q0) in
    let (q, r, (low, above)) =
      adjust_lem yn1 yn0 un un0 3 q0 rhat
        (omega arith, omega arith, omega arith, omega arith, omega arith) (e, omega arith, high)
        (omega arith) in
    let whole = ap (λ k. q * k) halves in
    let (sum, small) = left_lem un un0 (q * y) y (omega arith) (omega arith) ky in
    (
      q,
      sub32 ((un * two16 % two32 + un0) % two32) (q * y),
      digit-adjust y un un0 rhat q sub r,
      sum,
      small,
    )
