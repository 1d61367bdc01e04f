-- ===== src/Build/Squeeze.antt =====
-- compiler/astutil/astutil.go: `Squeeze`, which moves the entries of a slice that are not nil to
-- its front, in place.
use mathlib.Core.List.{append_assoc, append-nil}
use gopherjs.Base.{
  ℕ, zero, suc, ap, ◌∙◌, Option, none, some, List, [], ◌∷◌, ◌++◌, map, ◌≡◌, refl, length, get_elem?,
  set, take,
}
use gopherjs.Base.Options.{present}

module _ {ℓ} {A : Type ℓ} where
  -- s[dest], s[src] = s[src], s[dest] where s[src] holds x
  abbrev pub swap_in : List (Option A) → ℕ → ℕ → A → Option (Option A) → List (Option A)
  swap_in s dest src x none = s
  swap_in s dest src x (some old) = set (set s dest (some x)) src old

  -- The loop with the number of rounds that are left.
  unfoldable pub squeeze_from : ℕ → ℕ → ℕ → List (Option A) → List (Option A)
  squeeze_from zero src dest s = take dest s
  squeeze_from (suc rounds) src dest s = elim (get_elem? s src) [
    | some (some x) ↦
        squeeze_from rounds (suc src) (suc dest) (swap_in s dest src x (get_elem? s dest))
    | some none ↦ squeeze_from rounds (suc src) dest s
    | none ↦ squeeze_from rounds (suc src) dest s
  ]

  unfoldable pub squeeze : List (Option A) → List (Option A)
  unfolding squeeze_from
  squeeze s = squeeze_from (length s) 0 0 s

  -- What the loop has behind it: the entries that it has kept, then k times nil.
  abbrev nils : ℕ → List (Option A) → List (Option A)
  nils zero rest = rest
  nils (suc k) rest = none ∷ nils k rest

  nils-none : (k : ℕ) (rest : List (Option A)) → nils k (none ∷ rest) ≡ nils (suc k) rest
  nils-none zero rest = refl
  nils-none (suc k) rest = rw (nils-none k rest)

  abbrev state : List A → ℕ → List (Option A) → List (Option A)
  state [] k rest = nils k rest
  state (x ∷ kept) k rest = some x ∷ state kept k rest

  abbrev offset : List A → ℕ → ℕ
  offset [] k = k
  offset (x ∷ kept) k = suc (offset kept k)

  offset-suc : (kept : List A) (k : ℕ) → offset kept (suc k) ≡ suc (offset kept k)
  offset-suc [] k = refl
  offset-suc (x ∷ kept) k = rw (offset-suc kept k)

  offset-append : (kept : List A) (k : ℕ) (x : A) → offset (kept ++ x ∷ []) k ≡ suc (offset kept k)
  offset-append [] k x = refl
  offset-append (y ∷ kept) k x = rw (offset-append kept k x)

  offset-zero : (kept : List A) → offset kept 0 ≡ length kept
  offset-zero [] = refl
  offset-zero (x ∷ kept) = rw (offset-zero kept)

  get_elem?-nils :
      (k : ℕ) (x : Option A) (rest : List (Option A)) → get_elem? (nils k (x ∷ rest)) k ≡ some x
  get_elem?-nils zero x rest = refl
  get_elem?-nils (suc k) x rest = get_elem?-nils k x rest

  get_elem?-state :
      (kept : List A) (k : ℕ) (x : Option A) (rest : List (Option A))
      → get_elem? (state kept k (x ∷ rest)) (offset kept k) ≡ some x
  get_elem?-state [] k x rest = get_elem?-nils k x rest
  get_elem?-state (y ∷ kept) k x rest = get_elem?-state kept k x rest

  state-none :
      (kept : List A) (k : ℕ) (rest : List (Option A))
      → state kept k (none ∷ rest) ≡ state kept (suc k) rest
  state-none [] k rest = nils-none k rest
  state-none (x ∷ kept) k rest = rw (state-none kept k rest)

  -- What stands at `dest` when the loop meets x.
  abbrev displaced : ℕ → A → Option A
  displaced zero x = some x
  displaced (suc k) x = none

  get_elem?-dest :
      (kept : List A) (k : ℕ) (x : A) (rest : List (Option A))
      → get_elem? (state kept k (some x ∷ rest)) (offset kept 0) ≡ some (displaced k x)
  get_elem?-dest [] zero x rest = refl
  get_elem?-dest [] (suc k) x rest = refl
  get_elem?-dest (y ∷ kept) k x rest = get_elem?-dest kept k x rest

  set-nils :
      (k : ℕ) (x : A) (rest : List (Option A))
      → set (nils k (some x ∷ rest)) k none ≡ nils (suc k) rest
  set-nils zero x rest = refl
  set-nils (suc k) x rest = rw (set-nils k x rest)

  set-set-state :
      (kept : List A) (k : ℕ) (x : A) (rest : List (Option A))
      → set
          (set (state kept k (some x ∷ rest)) (offset kept 0) (some x))
          (offset kept k)
          (displaced k x)
        ≡ state (kept ++ x ∷ []) k rest
  set-set-state [] zero x rest = refl
  set-set-state [] (suc k) x rest = rw (set-nils k x rest)
  set-set-state (y ∷ kept) k x rest = rw (set-set-state kept k x rest)

  swap_in-state :
      (kept : List A) (k : ℕ) (x : A) (rest : List (Option A))
      → swap_in
          (state kept k (some x ∷ rest))
          (offset kept 0)
          (offset kept k)
          x
          (get_elem? (state kept k (some x ∷ rest)) (offset kept 0))
        ≡ state (kept ++ x ∷ []) k rest
  swap_in-state kept k x rest = rw (get_elem?-dest kept k x rest) (set-set-state kept k x rest)

  take-state : (kept : List A) (k : ℕ) → take (length kept) (state kept k []) ≡ map some kept
  take-state [] k = refl
  take-state (x ∷ kept) k = rw (take-state kept k)

  squeeze_from-some :
      (rounds src dest : ℕ) (s : List (Option A)) (x : A)
      → get_elem? s src ≡ some (some x)
      → squeeze_from (suc rounds) src dest s
        ≡ squeeze_from rounds (suc src) (suc dest) (swap_in s dest src x (get_elem? s dest))
  unfolding squeeze_from
  squeeze_from-some rounds src dest s x h = rw (h, squeeze_from) refl

  squeeze_from-none :
      (rounds src dest : ℕ) (s : List (Option A))
      → get_elem? s src ≡ some none
      → squeeze_from (suc rounds) src dest s ≡ squeeze_from rounds (suc src) dest s
  unfolding squeeze_from
  squeeze_from-none rounds src dest s h = rw (h, squeeze_from) refl

  squeeze_from-state :
      (rest : List (Option A)) (kept : List A) (k : ℕ)
      → squeeze_from (length rest) (offset kept k) (offset kept 0) (state kept k rest)
        ≡ map some (kept ++ present rest)
  unfolding squeeze_from present
  squeeze_from-state [] kept k = rw (offset-zero kept) (rw (append-nil kept) (take-state kept k))
  squeeze_from-state (none ∷ rest) kept k =
      squeeze_from-none (length rest) (offset kept k) (offset kept 0) _
        (get_elem?-state kept k none rest)
      ∙ rw (← offset-suc kept k)
          (rw (state-none kept k rest) (squeeze_from-state rest kept (suc k)))
  squeeze_from-state (some x ∷ rest) kept k =
      squeeze_from-some (length rest) (offset kept k) (offset kept 0) _ x
        (get_elem?-state kept k (some x) rest)
      ∙ rw (swap_in-state kept k x rest) (
          rw (← offset-append kept k x) (
            rw (← offset-append kept 0 x) (
              squeeze_from-state rest (kept ++ x ∷ []) k
              ∙ ap (map some) (append_assoc kept (x ∷ []) (present rest)))))

  -- Squeeze keeps exactly the entries that are not nil, in their order.
  pub squeeze-present : (s : List (Option A)) → squeeze s ≡ map some (present s)
  unfolding squeeze
  squeeze-present s = squeeze_from-state s [] 0
