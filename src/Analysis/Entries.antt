-- ===== src/Analysis/Entries.antt =====
-- What holds of every entry of an association list.
use gopherjs.Base.{
  ℕ, some, [], ◌∷◌, ◌≡◌, ◌≤◌, ◌<◌, ℕ_eq, nat_eq, nat_eq_iff, inl, inr, Bool-cases, refl, arith,
  length, subst, some_inj,
}
use gopherjs.Base.Assoc.{Assoc, lookup, remove}

module _ {S : Type 0} where
  abbrev pub AllEntries : (ℕ → S → Type 0) → Assoc ℕ S → Type 0
  AllEntries P [] = Unit
  AllEntries P ((c, s) ∷ m) = P c s × AllEntries P m

  pub AllEntries-map :
      (P Q : ℕ → S → Type 0) (m : Assoc ℕ S)
      → ((c : ℕ) (s : S) → P c s → Q c s)
      → AllEntries P m
      → AllEntries Q m
  AllEntries-map P Q [] f all = tt
  AllEntries-map P Q ((c, s) ∷ m) f (head, tail) = (f c s head, AllEntries-map P Q m f tail)

  pub AllEntries-and :
      (P Q : ℕ → S → Type 0) (m : Assoc ℕ S)
      → AllEntries P m
      → AllEntries Q m
      → AllEntries (λ c s. P c s × Q c s) m
  AllEntries-and P Q [] ps qs = tt
  AllEntries-and P Q ((c, s) ∷ m) (p, ps) (q, qs) = ((p, q), AllEntries-and P Q m ps qs)

  pub AllEntries-remove :
      (P : ℕ → S → Type 0) (k : ℕ) (m : Assoc ℕ S) → AllEntries P m → AllEntries P (remove k m)
  unfolding remove
  AllEntries-remove P k [] all = tt
  AllEntries-remove P k ((c, s) ∷ m) (head, tail) = elim (Bool-cases (nat_eq c k)) [
    | inl eq ↦ rw (eq, remove) (AllEntries-remove P k m tail)
    | inr differs ↦ rw (differs, remove) (head, AllEntries-remove P k m tail)
  ]

  pub AllEntries-lookup :
      (P : ℕ → S → Type 0) (k : ℕ) (s : S) (m : Assoc ℕ S)
      → AllEntries P m
      → lookup k m ≡ some s
      → P k s
  unfolding lookup
  AllEntries-lookup P k s [] all h = absurd (cc h)
  AllEntries-lookup P k s ((c, t) ∷ m) (head, tail) h = elim (Bool-cases (nat_eq c k)) [
    | inl eq ↦ rw (← (nat_eq_iff c k).0 eq) (subst (P c) (some_inj (rw eq at h)) head)
    | inr differs ↦ AllEntries-lookup P k s m tail (rw differs at h)
  ]

  -- Every key of a list is found in it.
  abbrev pub Found : Assoc ℕ S → ℕ → S → Type 0
  Found m c s = (t : S) × (lookup c m ≡ some t)

  found_later : (c d : ℕ) (s t : S) (m : Assoc ℕ S) → Found m d t → Found ((c, s) ∷ m) d t
  unfolding lookup
  found_later c d s t m (u, at) = elim (Bool-cases (nat_eq c d)) [
    | inl eq ↦ (s, rw eq refl)
    | inr differs ↦ (u, rw differs at)
  ]

  found_here : (c : ℕ) (s : S) (m : Assoc ℕ S) → Found ((c, s) ∷ m) c s
  unfolding lookup
  found_here c s m = (s, rw ((nat_eq_iff c c).1 refl) refl)

  pub all_Found : (m : Assoc ℕ S) → AllEntries (Found m) m
  all_Found [] = tt
  all_Found ((c, s) ∷ m) = (
    found_here c s m,
    AllEntries-map (Found m) (Found ((c, s) ∷ m)) m (λ d t f. found_later c d s t m f)
        (all_Found m),
  )

  pub length-remove_le : (k : ℕ) (m : Assoc ℕ S) → length (remove k m) ≤ length m
  unfolding remove
  length-remove_le k [] = omega arith
  length-remove_le k ((c, s) ∷ m) = ground (arith, length-remove_le k m)

  -- To delete a key that is there makes the list shorter.
  pub length-remove_lt :
      (k : ℕ) (s : S) (m : Assoc ℕ S) → lookup k m ≡ some s → length (remove k m) < length m
  unfolding lookup remove
  length-remove_lt k s [] h = absurd (cc h)
  length-remove_lt k s ((c, t) ∷ m) h = ground (arith, length-remove_lt k s m, length-remove_le k m)
