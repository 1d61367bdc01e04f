-- ===== src/TypeParams/Draining.antt =====
-- Processing a set: `next` until it has no instance left.
use gopherjs.Base.{
  ℕ, zero, suc, ◌+◌, true, false, Option, none, some, List, [], ◌∷◌, ◌≡◌, leb, length, drop,
  get_elem?, arith, refl, ap, sym, ◌∙◌,
}
use gopherjs.TypeParams.Instance.{Instance}
use gopherjs.TypeParams.InstanceSet.{InstanceSet, next, exhausted, taken}

module _ {T O : Type 0} where
  abbrev pub before :
      Instance T O
      → Option (List (Instance T O) × InstanceSet T O)
      → Option (List (Instance T O) × InstanceSet T O)
  before inst none = none
  before inst (some (rest, s)) = some (inst ∷ rest, s)

  -- The instances that `n` calls of `next` return, in their order; `none` when one of them returns
  -- false or reads behind the slice.
  unfoldable pub take_next : ℕ → InstanceSet T O → Option (List (Instance T O) × InstanceSet T O)
  take_next zero s = some ([], s)
  take_next (suc n) s = elim (next s) [
    | some (some inst, s') ↦ before inst (take_next n s')
    | some (none, s') ↦ none
    | none ↦ none
  ]

  drop-get_elem? :
      (xs : List (Instance T O)) (i n : ℕ)
      → suc n + i ≡ length xs
      → (x : Instance T O) × (get_elem? xs i ≡ some x) × (drop i xs ≡ x ∷ drop (suc i) xs)
  drop-get_elem? [] i n h = absurd (omega arith)
  drop-get_elem? (x ∷ xs) zero n h = (x, refl, refl)
  drop-get_elem? (x ∷ xs) (suc i) n h = drop-get_elem? xs i n (omega arith)

  next-step :
      (s : InstanceSet T O) (n : ℕ) (x : Instance T O)
      → suc n + s.unprocessed ≡ length s.values
      → get_elem? s.values s.unprocessed ≡ some x
      → next s ≡ some (some x, record s { unprocessed = s.unprocessed + 1 })
  unfolding next exhausted
  next-step s n x h at =
      let open_ : leb (length s.values) s.unprocessed ≡ false = ground arith in
      rw open_ (ap (taken s) at)

  drop-all : (xs : List (Instance T O)) (i : ℕ) → i ≡ length xs → drop i xs ≡ []
  drop-all [] zero h = refl
  drop-all [] (suc i) h = refl
  drop-all (x ∷ xs) zero h = absurd (omega arith)
  drop-all (x ∷ xs) (suc i) h = drop-all xs i (omega arith)

  next-end :
      (s : InstanceSet T O)
      → next (record s { unprocessed = length s.values })
        ≡ some (none, record s { unprocessed = length s.values })
  unfolding next exhausted
  next-end s =
      let closed : leb (length s.values) (length s.values) ≡ true = ground arith in rw closed refl

  take_next-suc :
      (n : ℕ) (s s' : InstanceSet T O) (x : Instance T O)
      → next s ≡ some (some x, s')
      → take_next (suc n) s ≡ before x (take_next n s')
  unfolding take_next
  take_next-suc n s s' x h = rw (take_next, h) refl

  take_next-rest :
      (n : ℕ) (s : InstanceSet T O)
      → n + s.unprocessed ≡ length s.values
      → take_next n s
        ≡ some (drop s.unprocessed s.values, record s { unprocessed = length s.values })
  unfolding take_next
  take_next-rest zero s h =
      let at : s.unprocessed ≡ length s.values = omega arith in
      rw (drop-all s.values s.unprocessed at) (ap (λ u. some ([], record s { unprocessed = u })) at)
  take_next-rest (suc n) s h =
      let (x, at, rest) = drop-get_elem? s.values s.unprocessed n h in
      let s' = record s { unprocessed = s.unprocessed + 1 } in
      take_next-suc n s s' x (next-step s n x h at)
      ∙ ap (before x) (take_next-rest n s' (omega arith))
      ∙ ap (λ l. some (l, record s { unprocessed = length s.values }))
          (ap (λ k. x ∷ drop k s.values) {x = s.unprocessed + 1} {y = suc s.unprocessed}
              (omega arith)
            ∙ sym rest)

  -- When n values are unprocessed, n calls of `next` return exactly these, each once and in the
  -- order of `values`, and the next call returns false.
  pub take_next-drop :
      (n : ℕ) (s : InstanceSet T O)
      → n + s.unprocessed ≡ length s.values
      → (take_next n s
          ≡ some (drop s.unprocessed s.values, record s { unprocessed = length s.values }))
        × (next (record s { unprocessed = length s.values })
            ≡ some (none, record s { unprocessed = length s.values }))
  take_next-drop n s h = (take_next-rest n s h, next-end s)
