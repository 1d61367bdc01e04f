-- ===== src/Nosync/Pool.antt =====
-- nosync/pool.go. The slice `store` is kept with its last element first, and `nil` is `none`.
use mathlib.Core.List.{reverse, reverse-append, append_assoc}
use gopherjs.Base.{
  sym, map, length-reverse, ℕ, zero, suc, Option, none, some, List, [], ◌∷◌, ◌++◌, ◌≡◌, refl, ap,
  ◌∙◌, length,
}

pub record Pool (A : Type 0) : Type 0 where
  pub store : List A
  -- the function `New`, if any; it may return nil
  pub new : Option (Unit {0} → Option A)

module _ {A : Type 0} where
  abbrev made : Option (Unit {0} → Option A) → Option A
  made none = none
  made (some new) = new tt

  unfoldable pub get : Pool A → Option A × Pool A
  get p = elim p.store [ [] ↦ (made p.new, p) | x ∷ rest ↦ (some x, record p { store = rest }) ]

  unfoldable pub put : Option A → Pool A → Pool A
  put none p = p
  put (some x) p = record p { store = x ∷ p.store }

  unfoldable pub put_all : List A → Pool A → Pool A
  unfolding put
  put_all [] p = p
  put_all (x ∷ xs) p = put_all xs (put (some x) p)

  -- `n` calls of `Get`, and what they returned
  unfoldable pub get_times : ℕ → Pool A → List (Option A) × Pool A
  unfolding get
  get_times zero p = ([], p)
  get_times (suc n) p = let (x, p') = get p in let (xs, p'') = get_times n p' in (x ∷ xs, p'')

  put_all-store :
      (xs : List A) (p : Pool A) → put_all xs p ≡ record p { store = reverse xs ++ p.store }
  unfolding put_all
  put_all-store [] p = refl
  put_all-store (x ∷ xs) p =
      put_all-store xs (record p { store = x ∷ p.store })
      ∙ ap (λ l. record p { store = l })
          (sym (append_assoc (reverse xs) (x ∷ []) p.store)
            ∙ ap (λ l. l ++ p.store) (sym (reverse-append (x ∷ []) xs)))

  get_times-store :
      (xs rest : List A) (new : Option (Unit {0} → Option A))
      → get_times (length xs) (record { store = xs ++ rest; new = new })
        ≡ (map some xs, record { store = rest; new = new })
  unfolding get_times
  get_times-store [] rest new = refl
  get_times-store (x ∷ xs) rest new = ap (λ r. (some x ∷ r.0, r.1)) (get_times-store xs rest new)

  -- Items that were put into the pool come back once each, the last first, before anything that was
  -- in it; they leave the pool as it was.
  pub get_times-put_all :
      (xs : List A) (p : Pool A) → get_times (length xs) (put_all xs p) ≡ (map some (reverse xs), p)
  get_times-put_all xs p =
      ap (get_times (length xs)) (put_all-store xs p)
      ∙ ap (λ n. get_times n (record p { store = reverse xs ++ p.store })) (sym (length-reverse xs))
      ∙ get_times-store (reverse xs) p.store p.new
