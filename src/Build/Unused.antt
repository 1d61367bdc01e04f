-- ===== src/Build/Unused.antt =====
-- `pruneImports` over the imports of a file: what its loops compute, as selections of the list of
-- imports.
use mathlib.Core.List.{append_assoc, append-nil}
use gopherjs.Base.{
  ℕ, suc, Bool, true, false, not, ◌||◌, ◌&&◌, some, List, [], ◌∷◌, ◌++◌, map, ◌≡◌, refl, ◌∙◌, ap,
  arith, Bool-cases, inl, inr, contains, sym, ◌==◌, if◌then◌else◌, ℕ_eq,
}
use gopherjs.Base.Assoc.{Assoc, put, remove}
use gopherjs.Base.Bytes.{Bytes}
use gopherjs.Base.BytesEq.{Bytes_eq, bytes_equal_iff}
use gopherjs.Build.Syntax.{SelectorExpr, ImportSpec}
use gopherjs.Build.Finalize.{is_empty}
use gopherjs.Build.Imports.{import_name, collect_unused, delete_used}

abbrev pub keep_if {ℓ} : {A : Type ℓ} → (A → Bool) → List A → List A
keep_if p [] = []
keep_if p (x ∷ xs) = if p x then x ∷ keep_if p xs else keep_if p xs

-- A selector expression without an object in the file that begins with the name.
abbrev pub uses : List SelectorExpr → Bytes → Bool
uses [] name = false
uses (s ∷ selectors) name = not s.bound && s.base == name || uses selectors name

module _ (cell : ℕ → ImportSpec) where
  abbrev pub name_of : ℕ → Bytes
  name_of i = import_name (cell i)

  -- The entries of `unused` for the imports of a kind, from the index n on.
  abbrev pub entries : (ℕ → Bool) → ℕ → List ℕ → Assoc Bytes ℕ
  entries P n [] = []
  entries P n (i ∷ ids) =
      if P i then (name_of i, n) ∷ entries P (suc n) ids else entries P (suc n) ids

  abbrev pub is_named : ℕ → Bool
  is_named i = not (is_empty (name_of i))

  -- No two imports have the same name, and none has one of the names seen before.
  abbrev pub distinct_names : List Bytes → List ℕ → Bool
  distinct_names seen [] = true
  distinct_names seen (i ∷ ids) =
      if is_empty (name_of i)
      then distinct_names seen ids
      else not (contains seen (name_of i)) && distinct_names (seen ++ name_of i ∷ []) ids

  abbrev keys : Assoc Bytes ℕ → List Bytes
  keys = map (λ e. e.0)

  put-absent :
      (name : Bytes) (n : ℕ) (m : Assoc Bytes ℕ)
      → contains (keys m) name ≡ false
      → put name n m ≡ m ++ (name, n) ∷ []
  unfolding put
  put-absent name n [] h = refl
  put-absent name n ((other, k) ∷ m) h =
      ground (arith, put-absent name n m, bytes_equal_iff other name, bytes_equal_iff name other)

  keys-append :
      (m : Assoc Bytes ℕ) (name : Bytes) (n : ℕ) → keys (m ++ (name, n) ∷ []) ≡ keys m ++ name ∷ []
  keys-append [] name n = refl
  keys-append (e ∷ m) name n = rw (keys-append m name n)

  collect_unused-nil :
      (n : ℕ) (unused : Assoc Bytes ℕ) → collect_unused cell n [] unused ≡ some unused
  unfolding collect_unused
  collect_unused-nil n unused = refl

  collect_unused-cons :
      (n i : ℕ) (ids : List ℕ) (unused : Assoc Bytes ℕ)
      → collect_unused cell n (map some (i ∷ ids)) unused
        ≡ collect_unused cell
            (suc n)
            (map some ids)
            (if is_empty (name_of i) then unused else put (name_of i) n unused)
  unfolding collect_unused
  collect_unused-cons n i ids unused = refl

  pub collect_unused-entries :
      (n : ℕ) (ids : List ℕ) (unused : Assoc Bytes ℕ)
      → distinct_names (keys unused) ids ≡ true
      → collect_unused cell n (map some ids) unused ≡ some (unused ++ entries is_named n ids)
  collect_unused-entries n [] unused h =
      collect_unused-nil n unused ∙ ap some (sym (append-nil unused))
  collect_unused-entries n (i ∷ ids) unused h = elim (Bool-cases (is_empty (name_of i))) [
    | inl e ↦
        collect_unused-cons n i ids unused
        ∙ rw e (collect_unused-entries (suc n) ids unused (rw e at h))
    | inr e ↦
        let (fresh, later) = and_true (contains (keys unused) (name_of i)) _ (rw e at h) in
        collect_unused-cons n i ids unused
        ∙ rw e (
            rw (put-absent (name_of i) n unused fresh) (
              collect_unused-entries (suc n) ids (unused ++ (name_of i, n) ∷ [])
                (rw (keys-append unused (name_of i) n) later)
              ∙ ap some (append_assoc unused ((name_of i, n) ∷ []) (entries is_named (suc n) ids))))
  ]
    where
      and_true : (a b : Bool) → (not a && b) ≡ true → (a ≡ false) × (b ≡ true)
      and_true false b e = (refl, e)
      and_true true b e = cc

  abbrev pub without : SelectorExpr → (ℕ → Bool) → ℕ → Bool
  without s P i = P i && not (not s.bound && s.base == name_of i)

  remove-entries :
      (P : ℕ → Bool) (name : Bytes) (n : ℕ) (ids : List ℕ)
      → remove name (entries P n ids) ≡ entries (λ i. P i && not (name == name_of i)) n ids
  unfolding remove
  remove-entries P name n [] = refl
  remove-entries P name n (i ∷ ids) = ground (
    arith,
    remove-entries P name (suc n) ids,
    Bool-cases (P i),
    bytes_equal_iff name (name_of i),
    bytes_equal_iff (name_of i) name,
  )

  entries-congr :
      (P Q : ℕ → Bool) (same : (i : ℕ) → P i ≡ Q i) (n : ℕ) (ids : List ℕ)
      → entries P n ids ≡ entries Q n ids
  entries-congr P Q same n [] = refl
  entries-congr P Q same n (i ∷ ids) = ground (arith, same i, entries-congr P Q same (suc n) ids)

  abbrev pub unless_used : List SelectorExpr → (ℕ → Bool) → ℕ → Bool
  unless_used selectors P i = P i && not (uses selectors (name_of i))

  pub delete_used-entries :
      (selectors : List SelectorExpr) (P : ℕ → Bool) (n : ℕ) (ids : List ℕ)
      → delete_used selectors (entries P n ids) ≡ entries (unless_used selectors P) n ids
  unfolding delete_used
  delete_used-entries [] P n ids =
      entries-congr P (unless_used [] P) (λ i. ground (arith, Bool-cases (P i))) n ids
  delete_used-entries (s ∷ selectors) P n ids = elim (Bool-cases s.bound) [
    | inl e ↦
        ap (delete_used selectors) (bound_step e)
        ∙ delete_used-entries selectors P n ids
        ∙ entries-congr (unless_used selectors P) (unless_used (s ∷ selectors) P)
            (λ i. ground (arith, e)) n ids
    | inr e ↦
        ap (delete_used selectors) (free_step e)
        ∙ delete_used-entries selectors (λ i. P i && not (s.base == name_of i)) n ids
        ∙ entries-congr (unless_used selectors (λ i. P i && not (s.base == name_of i)))
            (unless_used (s ∷ selectors) P) (λ i. ground (arith, e, Bool-cases (P i))) n ids
  ]
    where
      bound_step :
          s.bound ≡ true
          → (if s.bound then entries P n ids else remove s.base (entries P n ids)) ≡ entries P n ids
      bound_step e = rw e refl

      free_step :
          s.bound ≡ false
          → (if s.bound then entries P n ids else remove s.base (entries P n ids))
            ≡ entries (λ i. P i && not (s.base == name_of i)) n ids
      free_step e = rw e (remove-entries P s.base n ids)
