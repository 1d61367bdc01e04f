-- ===== src/Natives/Counting.antt =====
-- `Count` of package strings counts the occurrences that do not overlap, from the left.
use gopherjs.Base.{
  ℕ, zero, suc, ◌+◌, ◌-◌, ◌<◌, ◌≤◌, Bool, true, false, ◌&&◌, ◌≡◌, nat_eq, nat_eq_iff, ltb, Option,
  none, some, [], ◌∷◌, length, drop, if◌then◌else◌, inl, inr, Bool-cases, Option-cases, refl, sym,
  ap, ◌∙◌, arith, length-drop,
}
use gopherjs.Base.Bytes.{Bytes}
use gopherjs.Base.BytesEq.{bytes_equal}
use gopherjs.Natives.Strings.{count, count_from}

unfoldable pub starts : Bytes → Bytes → Bool
starts [] s = true
starts (c ∷ sep) [] = false
starts (c ∷ sep) (x ∷ s) = nat_eq c x && starts sep s

-- The number of occurrences behind the first `skip` bytes.
unfoldable pub occurrences : Bytes → ℕ → Bytes → ℕ
occurrences sep skip [] = 0
occurrences sep (suc skip) (x ∷ s) = occurrences sep skip s
occurrences sep zero (x ∷ s) =
    if starts sep (x ∷ s) then suc (occurrences sep (length sep - 1) s) else occurrences sep 0 s

-- What `indexOf` does for a text that is not empty: it finds the first place where it starts.
pub record IsIndex (index : Bytes → Bytes → Option ℕ) (sep : Bytes) : Type 0 where
  pub at_found : (s : Bytes) (pos : ℕ) → index s sep ≡ some pos → starts sep (drop pos s) ≡ true
  pub before :
      (s : Bytes) (pos : ℕ)
      → index s sep ≡ some pos
      → (i : ℕ) → i < pos
      → starts sep (drop i s) ≡ false
  pub missing : (s : Bytes) → index s sep ≡ none → (i : ℕ) → starts sep (drop i s) ≡ false

starts-length : (sep s : Bytes) → starts sep s ≡ true → length sep ≤ length s
unfolding starts
starts-length [] s h = omega arith
starts-length (c ∷ sep) [] h = absurd (cc h)
starts-length (c ∷ sep) (x ∷ s) h = ground (arith, starts-length sep s)

starts-equal : (sep s : Bytes) → length sep ≡ length s → starts sep s ≡ bytes_equal sep s
unfolding starts bytes_equal
starts-equal [] [] h = refl
starts-equal [] (x ∷ s) h = absurd (ground arith)
starts-equal (c ∷ sep) [] h = absurd (ground arith)
starts-equal (c ∷ sep) (x ∷ s) h = ground (arith, starts-equal sep s)

module _ (sep : Bytes) (nonempty : 0 < length sep) where
  occurrences-drop : (k : ℕ) (s : Bytes) → occurrences sep k s ≡ occurrences sep 0 (drop k s)
  unfolding occurrences
  occurrences-drop zero s = refl
  occurrences-drop (suc k) [] = refl
  occurrences-drop (suc k) (x ∷ s) = occurrences-drop k s

  starts-nil : starts sep [] ≡ false
  starts-nil = elim (Bool-cases (starts sep [])) [
    | inl h ↦ absurd (omega (arith, starts-length sep [] h))
    | inr h ↦ h
  ]

  occurrences-absent :
      (s : Bytes) → ((i : ℕ) → starts sep (drop i s) ≡ false) → occurrences sep 0 s ≡ 0
  unfolding occurrences
  occurrences-absent [] h = refl
  occurrences-absent (x ∷ s) h = rw (h 0) (occurrences-absent s (λ i. h (suc i)))

  not_starts : (s : Bytes) → length s < length sep → starts sep s ≡ false
  not_starts s h = elim (Bool-cases (starts sep s)) [
    | inl e ↦ absurd (omega (arith, starts-length sep s e))
    | inr e ↦ e
  ]

  drop-nil : (i : ℕ) → ◌≡◌ {A = Bytes} (drop i []) []
  drop-nil zero = refl
  drop-nil (suc i) = refl

  occurrences-here :
      (x : ℕ) (s : Bytes)
      → starts sep (x ∷ s) ≡ true
      → occurrences sep 0 (x ∷ s) ≡ suc (occurrences sep 0 (drop (length sep) (x ∷ s)))
  unfolding occurrences
  occurrences-here x s h =
      let next : length sep ≡ suc (length sep - 1) = omega arith in
      rw h (ap suc (occurrences-drop (length sep - 1) s))
      ∙ ap (λ k. suc (occurrences sep 0 (drop k (x ∷ s)))) {x = suc (length sep - 1)}
          {y = length sep} (sym next)

  occurrences-past :
      (x : ℕ) (s : Bytes)
      → starts sep (x ∷ s) ≡ false
      → occurrences sep 0 (x ∷ s) ≡ occurrences sep 0 s
  unfolding occurrences
  occurrences-past x s h = rw h refl

  occurrences-first :
      (pos : ℕ) (s : Bytes)
      → starts sep (drop pos s) ≡ true
      → ((i : ℕ) → i < pos → starts sep (drop i s) ≡ false)
      → occurrences sep 0 s ≡ suc (occurrences sep 0 (drop (pos + length sep) s))
  occurrences-first pos [] h before =
      absurd (cc (sym starts-nil ∙ ap (starts sep) (sym (drop-nil pos)) ∙ h))
  occurrences-first zero (x ∷ s) h before =
      occurrences-here x s h
      ∙ ap (λ k. suc (occurrences sep 0 (drop k (x ∷ s)))) {x = length sep} {y = 0 + length sep}
          (omega arith)
  occurrences-first (suc pos) (x ∷ s) h before =
      occurrences-past x s (before 0 (omega arith))
      ∙ occurrences-first pos s h (λ i less. before (suc i) (omega arith))
      ∙ ap (λ k. suc (occurrences sep 0 (drop k (x ∷ s)))) {x = suc (pos + length sep)}
          {y = suc pos + length sep} (omega arith)

  occurrences-short : (s : Bytes) → length s < length sep → occurrences sep 0 s ≡ 0
  occurrences-short s h =
      occurrences-absent s (λ i. not_starts (drop i s) (omega (arith, length-drop i s)))

  occurrences-other :
      (s : Bytes) → length sep ≡ length s → starts sep s ≡ false → occurrences sep 0 s ≡ 0
  occurrences-other [] h e = absurd (omega arith)
  occurrences-other (x ∷ s) h e = occurrences-past x s e ∙ occurrences-short s (omega arith)

  occurrences-one :
      (s : Bytes)
      → length sep ≡ length s
      → occurrences sep 0 s ≡ (if bytes_equal sep s then 1 else 0)
  occurrences-one s h = elim (Bool-cases (bytes_equal sep s)) [
    | inl e ↦
        occurrences-first 0 s (starts-equal sep s h ∙ e) (λ i less. absurd (omega arith))
        ∙ ap suc (
            occurrences-short (drop (0 + length sep) s)
              (omega (arith, length-drop (0 + length sep) s)))
        ∙ rw e refl
    | inr e ↦ occurrences-other s h (starts-equal sep s h ∙ e) ∙ rw e refl
  ]

  found_inside :
      (pos : ℕ) (s : Bytes) → starts sep (drop pos s) ≡ true → pos + length sep ≤ length s
  found_inside pos s h = omega (arith, starts-length sep (drop pos s) h, length-drop pos s)

  module _ (index : Bytes → Bytes → Option ℕ) (rune_count : Bytes → ℕ)
      (law : IsIndex index sep) where
    count_from-occurrences :
        (fuel : ℕ) (s : Bytes) (n : ℕ)
        → length s < fuel
        → count_from index rune_count fuel s sep n ≡ some (n + occurrences sep 0 s)
    unfolding count_from
    count_from-occurrences zero s n h = absurd (omega arith)
    count_from-occurrences (suc fuel) s n h = elim (Option-cases (index s sep)) [
      | inl absent ↦
          rw (absent, count_from)
            (ap some (omega (arith, occurrences-absent s (law.missing s absent))))
      | inr (pos, found) ↦
          let at_pos = law.at_found s pos found in
          let inside = found_inside pos s at_pos in
          let rest = drop (pos + length sep) s in
          rw (found, count_from)
            (count_from-occurrences fuel rest (n + 1)
                (omega (arith, length-drop (pos + length sep) s))
              ∙ ap some (omega (arith, occurrences-first pos s at_pos (law.before s pos found))))
    ]

    -- With an `indexOf` that finds the first place of a text that is not empty, `Count` ends and gives
    -- the number of its occurrences from the left that do not overlap.
    pub count-occurrences : (s : Bytes) → count index rune_count s sep ≡ some (occurrences sep 0 s)
    unfolding count
    count-occurrences s = elim (Bool-cases (ltb (length s) (length sep))) [
      | inl short ↦ rw short (ground (arith, occurrences-short s))
      | inr long ↦ elim (Bool-cases (nat_eq (length sep) (length s))) [
        | inl whole ↦
            let one = occurrences-one s ((nat_eq_iff (length sep) (length s)).0 whole) in
            ground arith
        | inr more ↦
            let all = count_from-occurrences (suc (length s)) s 0 (omega arith) in ground arith
      ]
    ]
