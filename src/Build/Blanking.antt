-- ===== src/Build/Blanking.antt =====
-- The loops of `pruneImports` that read the imports by their index.
use mathlib.Core.List.{append_assoc}
use gopherjs.Base.{
  ℕ, suc, Bool, true, false, not, ◌&&◌, Option, none, some, List, [], ◌∷◌, ◌++◌, map, ◌≡◌, refl,
  ◌∙◌, ap, arith, Bool-cases, inl, inr, sym, if◌then◌else◌, set, length, ℕ_eq, length-append,
}
use gopherjs.Base.Assoc.{Assoc}
use gopherjs.Base.Bytes.{Bytes}
use gopherjs.Base.Options.{present, ◌>>=◌}
use gopherjs.Build.Syntax.{CommentGroup, ImportSpec}
use gopherjs.Build.Imports.{
  directive_import, is_directive_import, at_address, blanked, import_at, blank_directives,
  unused_specs, clear_imports,
}
use gopherjs.Build.Unused.{keep_if, entries, name_of}

-- The list from the index n on.
pub record From (all : List ℕ) (n : ℕ) (ids : List ℕ) : Type 0 where
  pub pre : List ℕ
  pub splits : all ≡ pre ++ ids
  pub counted : n ≡ length pre

pub From-zero : (ids : List ℕ) → From ids 0 ids
From-zero ids = record { pre = []; splits = refl; counted = refl }

From-next :
    {all : List ℕ} {n : ℕ} (i : ℕ) (ids : List ℕ) → From all n (i ∷ ids) → From all (suc n) ids
From-next i ids f = record {
  pre = f.pre ++ i ∷ [];
  splits = f.splits ∙ sym (append_assoc f.pre (i ∷ []) ids);
  counted = omega (arith, length-append f.pre (i ∷ []), f.counted);
}

import_at-append :
    (pre : List ℕ) (i : ℕ) (ids : List ℕ)
    → import_at (map some (pre ++ i ∷ ids)) (length pre) ≡ some i
import_at-append [] i ids = refl
import_at-append (j ∷ pre) i ids = import_at-append pre i ids

import_at-From :
    {all : List ℕ} {n : ℕ} (i : ℕ) (ids : List ℕ)
    → From all n (i ∷ ids)
    → import_at (map some all) n ≡ some i
import_at-From {n = n} i ids f =
    ap (λ l. import_at (map some l) n) f.splits
    ∙ ap (import_at (map some (f.pre ++ i ∷ ids))) f.counted
    ∙ import_at-append f.pre i ids

module _ (comments : List CommentGroup) (cell : ℕ → ImportSpec) where
  -- An import that serves a directive of the file.
  abbrev pub is_directive : ℕ → Bool
  is_directive i = is_directive_import comments (directive_import (cell i).path)

  -- The cells with the names of the directive imports of a kind blanked.
  abbrev pub blank_cells : (ℕ → Bool) → List ℕ → (ℕ → ImportSpec) → ℕ → ImportSpec
  blank_cells P [] c = c
  blank_cells P (i ∷ ids) c =
      blank_cells P ids (if P i && is_directive i then at_address c i (blanked (c i)) else c)

  abbrev SamePaths : (ℕ → ImportSpec) → Type 0
  SamePaths c = (j : ℕ) → (c j).path ≡ (cell j).path

  at_address-SamePaths :
      (c : ℕ → ImportSpec) (i : ℕ) → SamePaths c → SamePaths (at_address c i (blanked (c i)))
  at_address-SamePaths c i same j = ground (arith, same i, same j)

  blank_directives-true :
      (imports : List (Option ℕ)) (name : Bytes) (n i : ℕ) (unused : Assoc Bytes ℕ)
      (c : ℕ → ImportSpec)
      → import_at imports n ≡ some i
      → is_directive_import comments (directive_import (c i).path) ≡ true
      → blank_directives comments imports ((name, n) ∷ unused) c
        ≡ blank_directives comments imports unused (at_address c i (blanked (c i)))
  unfolding blank_directives
  blank_directives-true imports name n i unused c h d =
      rw (h, blank_directives) (rw (d, ◌>>=◌) refl)

  blank_directives-false :
      (imports : List (Option ℕ)) (name : Bytes) (n i : ℕ) (unused : Assoc Bytes ℕ)
      (c d : ℕ → ImportSpec) (rest : Assoc Bytes ℕ)
      → import_at imports n ≡ some i
      → is_directive_import comments (directive_import (c i).path) ≡ false
      → blank_directives comments imports unused c ≡ some (d, rest)
      → blank_directives comments imports ((name, n) ∷ unused) c ≡ some (d, (name, n) ∷ rest)
  unfolding blank_directives
  blank_directives-false imports name n i unused c d rest h other later =
      rw (h, blank_directives) (rw (other, ◌>>=◌) (rw later refl))

  abbrev pub unless_directive : (ℕ → Bool) → ℕ → Bool
  unless_directive P i = P i && not (is_directive i)

  pub blank_directives-entries :
      (P : ℕ → Bool) (all : List ℕ) (n : ℕ) (ids : List ℕ) (c : ℕ → ImportSpec)
      → From all n ids
      → SamePaths c
      → blank_directives comments (map some all) (entries cell P n ids) c
        ≡ some (blank_cells P ids c, entries cell (unless_directive P) n ids)
  unfolding blank_directives
  blank_directives-entries P all n [] c f same = refl
  blank_directives-entries P all n (i ∷ ids) c f same =
      let found = import_at-From i ids f in
      let path : is_directive_import comments (directive_import (c i).path) ≡ is_directive i =
        ap (λ p. is_directive_import comments (directive_import p)) (same i) in
      elim (Bool-cases (P i)) [
        | inr e ↦ rw e (blank_directives-entries P all (suc n) ids c (From-next i ids f) same)
        | inl e ↦ elim (Bool-cases (is_directive i)) [
          | inl d ↦
              rw (e, d)
                (blank_directives-true (map some all) (name_of cell i) n i
                    (entries cell P (suc n) ids) c found (path ∙ d)
                  ∙ blank_directives-entries P all (suc n) ids (at_address c i (blanked (c i)))
                      (From-next i ids f) (at_address-SamePaths c i same))
          | inr d ↦
              rw (e, d)
                (blank_directives-false (map some all) (name_of cell i) n i
                  (entries cell P (suc n) ids) c (blank_cells P ids c)
                  (entries cell (unless_directive P) (suc n) ids) found (path ∙ d)
                  (blank_directives-entries P all (suc n) ids c (From-next i ids f) same))
        ]
      ]

  unused_specs-cons :
      (imports : List (Option ℕ)) (name : Bytes) (n i : ℕ) (unused : Assoc Bytes ℕ) (rest : List ℕ)
      → import_at imports n ≡ some i
      → unused_specs imports unused ≡ some rest
      → unused_specs imports ((name, n) ∷ unused) ≡ some (i ∷ rest)
  unfolding unused_specs
  unused_specs-cons imports name n i unused rest h later = rw (h, unused_specs) (rw later refl)

  pub unused_specs-keep_if :
      (P : ℕ → Bool) (all : List ℕ) (n : ℕ) (ids : List ℕ)
      → From all n ids
      → unused_specs (map some all) (entries cell P n ids) ≡ some (keep_if P ids)
  unfolding unused_specs
  unused_specs-keep_if P all n [] f = refl
  unused_specs-keep_if P all n (i ∷ ids) f =
      let later = unused_specs-keep_if P all (suc n) ids (From-next i ids f) in
      elim (Bool-cases (P i)) [
        | inl e ↦ rw e (
            unused_specs-cons (map some all) (name_of cell i) n i (entries cell P (suc n) ids)
              (keep_if P ids) (import_at-From i ids f) later)
        | inr e ↦ rw e later
      ]

  -- The slots of the imports once those of a kind are nil.
  abbrev pub slots : (ℕ → Bool) → List ℕ → List (Option ℕ)
  slots P [] = []
  slots P (i ∷ ids) = (if P i then none else some i) ∷ slots P ids

  set-append :
      (pre rest : List (Option ℕ)) (x y : Option ℕ)
      → set (pre ++ x ∷ rest) (length pre) y ≡ pre ++ y ∷ rest
  set-append [] rest x y = refl
  set-append (z ∷ pre) rest x y = rw (set-append pre rest x y)

  clear_imports-slots :
      (P : ℕ → Bool) (pre : List (Option ℕ)) (n : ℕ) (ids : List ℕ)
      → n ≡ length pre
      → clear_imports (entries cell P n ids) (pre ++ map some ids) ≡ pre ++ slots P ids
  unfolding clear_imports
  clear_imports-slots P pre n [] at = refl
  clear_imports-slots P pre n (i ∷ ids) at =
      let next = λ (x : Option ℕ).
        ap (clear_imports (entries cell P (suc n) ids))
          (sym (append_assoc pre (x ∷ []) (map some ids)))
        ∙ clear_imports-slots P (pre ++ x ∷ []) (suc n) ids
            (omega (arith, length-append pre (x ∷ []), at))
        ∙ append_assoc pre (x ∷ []) (slots P ids) in
      elim (Bool-cases (P i)) [
        | inl e ↦ rw e (
            ap
              (λ k.
                clear_imports (entries cell P (suc n) ids) (set (pre ++ map some (i ∷ ids)) k none))
              at
            ∙ ap (clear_imports (entries cell P (suc n) ids))
                (set-append pre (map some ids) (some i) none)
            ∙ next none)
        | inr e ↦ rw e (next (some i))
      ]

  present-slots :
      (P : ℕ → Bool) (ids : List ℕ) → present (slots P ids) ≡ keep_if (λ i. not (P i)) ids
  unfolding present
  present-slots P [] = refl
  present-slots P (i ∷ ids) = elim (Bool-cases (P i)) [
    | inl e ↦ rw e (present-slots P ids)
    | inr e ↦ rw e (rw (present-slots P ids) refl)
  ]

  -- Clearing the unused imports and squeezing leaves the others, in their order.
  pub present-clear_imports :
      (P : ℕ → Bool) (ids : List ℕ)
      → present (clear_imports (entries cell P 0 ids) (map some ids)) ≡ keep_if (λ i. not (P i)) ids
  present-clear_imports P ids =
      ap present (clear_imports-slots P [] 0 ids refl) ∙ present-slots P ids
