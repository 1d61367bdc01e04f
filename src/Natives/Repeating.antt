-- ===== src/Natives/Repeating.antt =====
-- `Repeat` of package strings: its guard is exact, and its loop makes the copies.
use mathlib.Core.List.{append_assoc}
use gopherjs.Base.{
  ℕ, zero, suc, ◌+◌, ◌-◌, ◌*◌, ◌/◌, ◌%◌, ◌^◌, ◌<◌, ◌≤◌, true, false, ◌≡◌, nat_eq, leb, ltb, some,
  ok, err, [], ◌∷◌, ◌++◌, length, take, inl, inr, Bool-cases, refl, sym, ap, ◌∙◌, arith,
  length-append, take-append,
}
use native.Mathlib.Nat.{div-lt_iff_lt-mul, div-mul-le_self}
use gopherjs.Base.Bytes.{Bytes}
use gopherjs.Natives.Shifting.{add_mul, mul_comm, mul_mono, mul_below, cancel}
use gopherjs.Natives.Strings.{repeat, fill, int_div, negative_count, count_overflow}

-- `n` copies
unfoldable pub times : ℕ → Bytes → Bytes
times zero s = []
times (suc n) s = s ++ times n s

length-times : (n : ℕ) (s : Bytes) → length (times n s) ≡ n * length s
unfolding times
length-times zero s = omega arith
length-times (suc n) s =
    length-append s (times n s) ∙ ap (λ k. length s + k) (length-times n s) ∙ grind arith

times-add : (m n : ℕ) (s : Bytes) → times (m + n) s ≡ times m s ++ times n s
unfolding times
times-add zero n s = ap (λ k. times k s) {x = 0 + n} {y = n} (omega arith)
times-add (suc m) n s =
    ap (λ k. times k s) {x = suc m + n} {y = suc (m + n)} (omega arith)
    ∙ ap (λ r. s ++ r) (times-add m n s)
    ∙ sym (append_assoc s (times m s) (times n s))

take-times : (m k : ℕ) (s : Bytes) → k ≤ m → take (k * length s) (times m s) ≡ times k s
take-times m k s h =
    ap (λ n. take (k * length s) (times n s)) {x = m} {y = k + (m - k)} (omega arith)
    ∙ ap (take (k * length s)) (times-add k (m - k) s)
    ∙ ap (λ n. take n (times k s ++ times (m - k) s)) (sym (length-times k s))
    ∙ take-append (times k s) (times (m - k) s)

done_le : {a b : ℕ} → ltb a b ≡ false → b ≤ a
done_le h = ground arith

le_cancel : (a b k : ℕ) → a * k ≤ b * k → 0 < k → a ≤ b
le_cancel a b k h pos_k = elim (Bool-cases (leb a b)) [
  | inl le ↦ ground arith
  | inr more ↦ absurd (omega (arith, mul_below b a k (ground arith)))
]

module _ (s : Bytes) (count : ℕ) (nonempty : 0 < length s) where
  -- The next rounds, on `m` copies: it is done, the copies are doubled, or some of them are added.
  fill-done :
      (fuel m : ℕ)
      → m ≤ count
      → ltb (m * length s) (count * length s) ≡ false
      → fill (suc fuel) (count * length s) (times m s) ≡ some (times count s)
  unfolding fill
  fill-done fuel m h done =
      rw (length-times m s, done)
        (ap (λ n. some (times n s))
          (cancel m count 0 (length s) (omega (arith, mul_mono m count (length s) h, done_le done))
            nonempty))

  fill-double :
      (fuel m : ℕ)
      → ltb (m * length s) (count * length s) ≡ true
      → leb (m * length s) (count * length s / 2) ≡ true
      → fill (suc fuel) (count * length s) (times m s)
        ≡ fill fuel (count * length s) (times (m + m) s)
  unfolding fill
  fill-double fuel m more half =
      rw (length-times m s, more, half) (ap (fill fuel (count * length s)) (sym (times-add m m s)))

  fill-rest :
      (fuel m : ℕ)
      → m ≤ count
      → ltb (m * length s) (count * length s) ≡ true
      → leb (m * length s) (count * length s / 2) ≡ false
      → fill (suc fuel) (count * length s) (times m s) ≡ some (times count s)
  unfolding fill
  fill-rest fuel m h more over_half =
      let parts = add_mul m (count - m) (length s) in
      let whole : (m + (count - m)) * length s ≡ count * length s =
        ap (λ k. k * length s) {x = m + (count - m)} {y = count} (omega arith) in
      let rest : count * length s - m * length s ≡ (count - m) * length s = omega arith in
      let few : count - m ≤ m = le_cancel (count - m) m (length s) (ground arith) nonempty in
      rw (length-times m s, more, over_half, rest)
        (ap (λ r. some (times m s ++ r)) (take-times m (count - m) s few)
          ∙ ap some (sym (times-add m (count - m) s))
          ∙ ap (λ n. some (times n s)) {x = m + (count - m)} {y = count} (omega arith))

  fill-times :
      (fuel m : ℕ)
      → 0 < m
      → m ≤ count
      → count * length s < fuel + m * length s
      → fill fuel (count * length s) (times m s) ≡ some (times count s)
  fill-times zero m pos_m h enough = absurd (omega (arith, mul_mono m count (length s) h))
  fill-times (suc fuel) m pos_m h enough =
      elim (Bool-cases (ltb (m * length s) (count * length s))) [
        | inr done ↦ fill-done fuel m h done
        | inl more ↦ elim (Bool-cases (leb (m * length s) (count * length s / 2))) [
          | inr over_half ↦ fill-rest fuel m h more over_half
          | inl half ↦
              let twice = add_mul m m (length s) in
              let one = mul_mono 1 m (length s) pos_m in
              let double : m + m ≤ count =
                le_cancel (m + m) count (length s) (ground arith) nonempty in
              fill-double fuel m more half
              ∙ fill-times fuel (m + m) (omega arith) double (omega arith)
        ]
      ]

quotient_fits : (l c : ℕ) → 0 < c → l * c / c ≡ l
quotient_fits l c h = grind arith

pos_factor : (l c : ℕ) → 0 < l * c → 0 < l
pos_factor zero c h = absurd (grind arith)
pos_factor (suc l) c h = omega arith

div_le : (a c : ℕ) → 0 < c → a / c ≤ a
div_le a c h = omega (arith, mul_mono 1 c (a / c) h, div-mul-le_self a c, mul_comm (a / c) c)

negative_lem :
    (l q : ℕ) → 0 < l → l < 2 ^ 31 → q ≤ 2 ^ 31 → nat_eq ((2 ^ 32 - q) % 2 ^ 32) l ≡ false
negative_lem l q pos_l hl hq = ground arith

over_lem :
    (l c p v : ℕ)
    → l < 2 ^ 31
    → l * c ≡ p
    → 0 < c
    → 2 ^ 31 ≤ p
    → (v ≡ p % 2 ^ 32)
    → nat_eq (int_div v c) l ≡ false
over_lem l c p v hl e pos_c h ev = elim (Bool-cases (ltb v (2 ^ 31))) [
  | inl up ↦
      let small : v < 2 ^ 31 = ground arith in
      let less : v / c < l = (div-lt_iff_lt-mul pos_c).1 (omega (arith, e)) in rw up (ground arith)
  | inr down ↦
      let some_length = pos_factor l c (omega arith) in
      let small = div_le (2 ^ 32 - v) c pos_c in
      let top : 2 ^ 31 ≤ v = ground arith in
      rw down (negative_lem l ((2 ^ 32 - v) / c) some_length hl (omega arith))
]

int_div-exact :
    (l c : ℕ)
    → l < 2 ^ 31
    → 0 < c
    → c < 2 ^ 31
    → (l * c < 2 ^ 31 → int_div (l * c % 2 ^ 32) c ≡ l)
      × (2 ^ 31 ≤ l * c → nat_eq (int_div (l * c % 2 ^ 32) c) l ≡ false)
int_div-exact l c hl pos_c hc = (
  λ h.
      let plain : l * c % 2 ^ 32 ≡ l * c = omega arith in
      rw plain (ground (arith, quotient_fits l c pos_c)),
  λ h. over_lem l c (l * c) (l * c % 2 ^ 32) hl refl pos_c h (omega arith),
)

times-nil : (n : ℕ) → ◌≡◌ {A = Bytes} (times n []) []
unfolding times
times-nil zero = refl
times-nil (suc n) = times-nil n

times-one : (s : Bytes) → times 1 s ≡ s
unfolding times
times-one [] = refl
times-one (x ∷ s) = ap (λ r. x ∷ r) (times-one s)

fill-nil : (fuel n : ℕ) → n ≡ 0 → fill (suc fuel) n [] ≡ some []
unfolding fill
fill-nil fuel n e = ground arith

-- The loop of `Repeat` makes the copies.
loop_lem :
    (s : Bytes) (count n : ℕ)
    → 0 < count
    → count * length s ≡ n
    → fill (suc n) n s ≡ some (times count s)
loop_lem [] count n h e =
    fill-nil n n (sym e ∙ mul_comm count 0 ∙ omega arith) ∙ ap some (sym (times-nil count))
loop_lem (x ∷ s) count n h e =
    ap (fill (suc n) n) (sym (times-one (x ∷ s)))
    ∙ ap (λ k. fill (suc n) k (times 1 (x ∷ s))) (sym e)
    ∙ fill-times (x ∷ s) count (omega arith) (suc n) 1 (omega arith) (omega arith) (omega arith)

repeat-loop :
    (s : Bytes) (count : ℕ)
    → 0 < count
    → count < 2 ^ 31
    → length s * count < 2 ^ 31
    → int_div (length s * count % 2 ^ 32) count ≡ length s
    → fill (suc (length s * count)) (length s * count) s ≡ some (times count s)
    → repeat s count ≡ ok (times count s)
unfolding repeat
repeat-loop s count h hc small exact loop =
    let plain : length s * count % 2 ^ 32 ≡ length s * count = omega arith in
    rw (exact, plain, loop) (ground arith)

repeat-zero : (s : Bytes) (count : ℕ) → count ≡ 0 → repeat s count ≡ ok (times count s)
unfolding repeat times
repeat-zero s count e = rw e refl

-- `Repeat` panics for a negative count and when the length of the result is not an int; otherwise
-- it returns the copies.
pub repeat-exact :
    (s : Bytes) (count : ℕ)
    → length s < 2 ^ 31
    → (2 ^ 31 ≤ count → repeat s count ≡ err negative_count)
      × (count < 2 ^ 31 → 2 ^ 31 ≤ length s * count → repeat s count ≡ err count_overflow)
      × (count < 2 ^ 31 → length s * count < 2 ^ 31 → repeat s count ≡ ok (times count s))
unfolding repeat
repeat-exact s count hs = (
  λ h. ground arith,
  λ hc h.
      let some_copies = pos_factor count (length s) (omega (arith, mul_comm (length s) count)) in
      let wrong = (int_div-exact (length s) count hs some_copies hc).1 h in rw wrong (ground arith),
  λ hc h. elim (Bool-cases (nat_eq count 0)) [
    | inl none_at_all ↦ repeat-zero s count (ground arith)
    | inr some_copies ↦
        let pos_count : 0 < count = ground arith in
        repeat-loop s count pos_count hc h ((int_div-exact (length s) count hs pos_count hc).0 h)
          (loop_lem s count (length s * count) pos_count (mul_comm count (length s)))
  ],
)
