-- ===== src/Build/Pruning.antt =====
-- `pruneImports` as a whole, on the imports of a file.
use gopherjs.Base.{
  ℕ, suc, Bool, true, false, not, ◌&&◌, some, List, [], ◌∷◌, map, ◌≡◌, refl, ◌∙◌, ap, Bool-cases,
  inl, inr, contains, sym, ℕ_eq,
}
use gopherjs.Base.Bytes.{codes}
use gopherjs.Base.Options.{present}
use gopherjs.Build.Syntax.{ImportSpec, File}
use gopherjs.Build.Directives.{has_directive_prefix}
use gopherjs.Build.Squeeze.{squeeze-present}
use gopherjs.Build.Finalize.{finalize_removals, is_empty}
use gopherjs.Build.Imports.{
  is_only_imports, collect_unused, decls_selectors, blank_directives, unused_specs, remove_imports,
  clear_imports, drop_unused, prune_used, prune_imports,
}
use gopherjs.Build.Unused.{
  keep_if, entries, is_named, distinct_names, unless_used, collect_unused-entries,
  delete_used-entries,
}
use gopherjs.Build.Blanking.{
  From-zero, is_directive, blank_cells, unless_directive, blank_directives-entries,
  unused_specs-keep_if, present-clear_imports,
}
use gopherjs.Build.Imported.{
  imported, finalize_removals-imported, finalize_removals-imports, finalize_removals-cell,
  remove_imports-imported,
}

-- The file without the imports of a kind.
pub record Without (P : ℕ → Bool) (ids : List ℕ) (file done : File) : Type 0 where
  pub left : done.imports ≡ map some (keep_if (λ i. not (P i)) ids)
  pub declared :
      (i : ℕ)
      → contains (imported done.decls) i
        ≡ (contains (imported file.decls) i && not (contains (keep_if P ids) i))

module _ (cell : ℕ → ImportSpec) where
  entries-none :
      (P : ℕ → Bool) (n : ℕ) (ids : List ℕ)
      → is_empty (entries cell P n ids) ≡ true
      → (keep_if P ids ≡ []) × (keep_if (λ i. not (P i)) ids ≡ ids)
  entries-none P n [] h = (refl, refl)
  entries-none P n (i ∷ ids) h = elim (Bool-cases (P i)) [
    | inl e ↦ cc
    | inr e ↦
        let (gone, left) = entries-none P (suc n) ids (rw e at h) in
        (rw e gone, rw e (rw left refl))
  ]

  entries-unless :
      (P Q : ℕ → Bool) (n : ℕ) (ids : List ℕ)
      → is_empty (entries cell P n ids) ≡ true
      → is_empty (entries cell (λ i. P i && Q i) n ids) ≡ true
  entries-unless P Q n [] h = refl
  entries-unless P Q n (i ∷ ids) h = elim (Bool-cases (P i)) [
    | inl e ↦ cc
    | inr e ↦ rw e (entries-unless P Q (suc n) ids (rw e at h))
  ]

  nothing-Without :
      (P : ℕ → Bool) (ids : List ℕ) (file done : File)
      → is_empty (entries cell P 0 ids) ≡ true
      → file.imports ≡ map some ids
      → done.imports ≡ file.imports
      → done.decls ≡ file.decls
      → Without P ids file done
  nothing-Without P ids file done h all imports decls =
      let (gone, left) = entries-none P 0 ids h in
      record {
        left = imports ∙ all ∙ ap (map some) (sym left);
        declared = λ i. ap (λ d. contains (imported d) i) decls ∙ rw gone (and_true _);
      }
    where
      and_true : (b : Bool) → b ≡ (b && true)
      and_true true = refl
      and_true false = refl

  drop_unused-Without :
      (P : ℕ → Bool) (ids : List ℕ) (file : File)
      → file.imports ≡ map some ids
      → (done : File) × (drop_unused file (entries cell P 0 ids) ≡ some done)
        × Without P ids file done
        × (done.cell ≡ file.cell)
  unfolding drop_unused
  drop_unused-Without P ids file all = elim (Bool-cases (is_empty (entries cell P 0 ids))) [
    | inl e ↦ (file, rw e refl, nothing-Without P ids file file e all refl refl, refl)
    | inr e ↦
        let cleared : File = record file {
          decls = remove_imports (keep_if P ids) file.decls;
          imports = clear_imports (entries cell P 0 ids) file.imports;
        } in
        let found : unused_specs file.imports (entries cell P 0 ids) ≡ some (keep_if P ids) =
          ap (λ l. unused_specs l (entries cell P 0 ids)) all
          ∙ unused_specs-keep_if [] cell P ids 0 ids (From-zero ids) in
        (
          finalize_removals cleared,
          rw e (rw found refl),
          record {
            left =
                finalize_removals-imports cleared
                ∙ squeeze-present cleared.imports
                ∙ ap (λ l. map some (present (clear_imports (entries cell P 0 ids) l))) all
                ∙ ap (map some) (present-clear_imports [] cell P ids);
            declared = λ i.
                ap (λ l. contains l i) (finalize_removals-imported cleared)
                ∙ remove_imports-imported (keep_if P ids) i file.decls;
          },
          finalize_removals-cell cleared,
        )
  ]

  blank_cells-none :
      (file : File) (P : ℕ → Bool) (n : ℕ) (ids : List ℕ) (c : ℕ → ImportSpec)
      → is_empty (entries cell P n ids) ≡ true
      → blank_cells file.comments cell P ids c ≡ c
  blank_cells-none file P n [] c h = refl
  blank_cells-none file P n (i ∷ ids) c h = elim (Bool-cases (P i)) [
    | inl e ↦ cc
    | inr e ↦ rw e (blank_cells-none file P (suc n) ids c (rw e at h))
  ]

-- An import that no selector expression needs: it has a name, which no expression begins with.
abbrev pub is_unused : File → ℕ → Bool
is_unused file = unless_used file.cell (decls_selectors file.decls) (is_named file.cell)

-- An import that goes: it is unused, and serves no directive.
abbrev pub is_needless : File → ℕ → Bool
is_needless file = unless_directive file.comments file.cell (is_unused file)

prune_used-Without :
    (ids : List ℕ) (file : File)
    → file.imports ≡ map some ids
    → (done : File) × (prune_used file (entries file.cell (is_unused file) 0 ids) ≡ some done)
      × Without (is_needless file) ids file done
      × (done.cell ≡ blank_cells file.comments file.cell (is_unused file) ids file.cell)
unfolding prune_used
prune_used-Without ids file all =
    elim (Bool-cases (is_empty (entries file.cell (is_unused file) 0 ids))) [
      | inl e ↦
          let none_left =
            entries-unless file.cell (is_unused file)
              (λ i. not (is_directive file.comments file.cell i)) 0 ids e in
          (
            file,
            rw e refl,
            nothing-Without file.cell (is_needless file) ids file file none_left all refl refl,
            sym (blank_cells-none file.cell file (is_unused file) 0 ids file.cell e),
          )
      | inr e ↦
          let cells = blank_cells file.comments file.cell (is_unused file) ids file.cell in
          let blanked : File = record file { cell = cells } in
          let found : blank_directives file.comments file.imports
                (entries file.cell (is_unused file) 0 ids) file.cell
              ≡ some (cells, entries file.cell (is_needless file) 0 ids) =
            ap
              (λ l.
                blank_directives file.comments l (entries file.cell (is_unused file) 0 ids)
                  file.cell)
              all
            ∙ blank_directives-entries file.comments file.cell (is_unused file) ids 0 ids file.cell
                (From-zero ids) (λ j. refl) in
          let (done, ends, without, same) =
            drop_unused-Without file.cell (is_needless file) ids blanked all in
          (
            done,
            rw e (rw found ends),
            record { left = without.left; declared = without.declared },
            same,
          )
    ]

-- In a file whose slice of imports has no nil and no two imports of the same name, and that is not
-- cleared for having nothing but imports: pruneImports does not panic, and takes out exactly the
-- imports, both of the slice (in order) and of the declarations, that have a name, begin no selector
-- expression without an object in the file, and serve no directive; of the unused imports, those
-- that serve a directive get the blank name, and no other import changes.
pub prune_imports-Without :
    (ids : List ℕ) (file : File)
    → file.imports ≡ map some ids
    → distinct_names file.cell [] ids ≡ true
    → (is_only_imports file && not (has_directive_prefix (codes "//go:linkname ") file.comments))
      ≡ false
    → (done : File) × (prune_imports file ≡ some done)
      × Without (is_needless file) ids file done
      × (done.cell ≡ blank_cells file.comments file.cell (is_unused file) ids file.cell)
unfolding prune_imports
prune_imports-Without ids file all distinct walked =
    let (done, ends, without, cells) = prune_used-Without ids file all in
    let found : collect_unused file.cell 0 file.imports []
        ≡ some (entries file.cell (is_named file.cell) 0 ids) =
      ap (λ l. collect_unused file.cell 0 l []) all
      ∙ collect_unused-entries file.cell 0 ids [] distinct in
    let used =
      delete_used-entries file.cell (decls_selectors file.decls) (is_named file.cell) 0 ids in
    (done, rw walked (rw found (rw used ends)), without, cells)
