-- ===== src/Natives/Slices.antt =====
-- compiler/natives/src/bytes/bytes.go and internal/bytealg/bytealg.go. A slice is a list of bytes, and
-- a loop over the index of one slice with a test of the other's length takes both apart. IndexByte is
-- `index_byte` of Base/Bytes.
use gopherjs.Base.{
  ℕ, ◌<◌, Bool, true, false, ◌≡◌, ◌↔◌, nat_eq, nat_eq_iff, ltb, [], ◌∷◌, if◌then◌else◌, arith, refl,
  sym, ap, ◌∙◌, length, Bool-cases, inl, inr, subst,
}
use gopherjs.Base.Bytes.{Bytes}

-- the loop of `Equal`, on slices of one length
unfoldable pub equal_from : Bytes → Bytes → Bool
equal_from (c ∷ a) (d ∷ b) = if nat_eq c d then equal_from a b else false
equal_from _ _ = true

unfoldable pub equal : Bytes → Bytes → Bool
equal a b = if nat_eq (length a) (length b) then equal_from a b else false

-- -1, 0 and 1
pub data Order : Type 0 where
  below same above : Order

unfoldable pub compare : Bytes → Bytes → Order
compare [] [] = same
compare [] (cb ∷ b) = below
compare (ca ∷ a) [] = above
compare (ca ∷ a) (cb ∷ b) =
    let rest = compare a b in if ltb ca cb then below else (if ltb cb ca then above else rest)

-- The lexicographic order: a proper prefix, or a smaller byte at the first difference.
pub data Less : Bytes → Bytes → Type 0 where
  prefix : (cb : ℕ) (b : Bytes) → Less [] (cb ∷ b)
  smaller : (ca cb : ℕ) (a b : Bytes) → ca < cb → Less (ca ∷ a) (cb ∷ b)
  behind : (c : ℕ) (a b : Bytes) → Less a b → Less (c ∷ a) (c ∷ b)

equal_from_iff : (a b : Bytes) → length a ≡ length b → (equal_from a b ≡ true) ↔ (a ≡ b)
unfolding equal_from
equal_from_iff [] [] h = (λ e. refl, λ e. refl)
equal_from_iff [] (d ∷ b) h = absurd (ground arith)
equal_from_iff (c ∷ a) [] h = absurd (ground arith)
equal_from_iff (c ∷ a) (d ∷ b) h = ground (arith, equal_from_iff a b)

equal_iff : (a b : Bytes) → (equal a b ≡ true) ↔ (a ≡ b)
unfolding equal
equal_iff a b = elim (Bool-cases (nat_eq (length a) (length b))) [
  | inl same_length ↦
      let (to_path, from_path) =
        equal_from_iff a b ((nat_eq_iff (length a) (length b)).0 same_length) in
      rw same_length (to_path, from_path)
  | inr other ↦ (
    λ e. absurd (ground arith),
    λ e. absurd (cc (sym other ∙ (nat_eq_iff (length a) (length b)).1 (ap length e))),
  )
]

below-Less : (a b : Bytes) → compare a b ≡ below → Less a b
unfolding compare
below-Less [] [] e = absurd (cc e)
below-Less [] (cb ∷ b) e = prefix cb b
below-Less (ca ∷ a) [] e = absurd (cc e)
below-Less (ca ∷ a) (cb ∷ b) e = elim (Bool-cases (ltb ca cb)) [
  | inl less ↦ smaller ca cb a b (ground arith)
  | inr not_less ↦
      let (here, rest) : (ca ≡ cb) × (compare a b ≡ below) = ground arith in
      subst (λ c. Less (ca ∷ a) (c ∷ b)) here (behind ca a b (below-Less a b rest))
]

Less-below : (a b : Bytes) → Less a b → (compare a b ≡ below) × (compare b a ≡ above)
unfolding compare
Less-below _ _ (prefix cb b) = (refl, refl)
Less-below _ _ (smaller ca cb a b h) = (ground arith, ground arith)
Less-below _ _ (behind c a b l) =
    let (one, other) = Less-below a b l in (ground arith, ground arith)

compare-flip : (a b : Bytes) → compare a b ≡ above → compare b a ≡ below
unfolding compare
compare-flip [] [] e = absurd (cc e)
compare-flip [] (cb ∷ b) e = absurd (cc e)
compare-flip (ca ∷ a) [] e = refl
compare-flip (ca ∷ a) (cb ∷ b) e = ground (arith, compare-flip a b)

compare-same : (a b : Bytes) → (compare a b ≡ same) ↔ (a ≡ b)
unfolding compare
compare-same [] [] = (λ e. refl, λ e. refl)
compare-same [] (cb ∷ b) = (λ e. absurd (cc e), λ e. absurd (cc e))
compare-same (ca ∷ a) [] = (λ e. absurd (cc e), λ e. absurd (cc e))
compare-same (ca ∷ a) (cb ∷ b) = ground (arith, compare-same a b)

-- `Compare` tells the lexicographic order, and `Equal` is equality.
pub compare-exact :
    (a b : Bytes)
    → ((compare a b ≡ below) ↔ Less a b)
      × ((compare a b ≡ above) ↔ Less b a)
      × ((compare a b ≡ same) ↔ (a ≡ b))
      × ((equal a b ≡ true) ↔ (a ≡ b))
compare-exact a b = (
  (below-Less a b, λ l. (Less-below a b l).0),
  (λ e. below-Less b a (compare-flip a b e), λ l. (Less-below b a l).1),
  compare-same a b,
  equal_iff a b,
)
