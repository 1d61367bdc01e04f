-- ===== src/Build/Imported.antt =====
-- The import specifications in the declarations of a file, through the loops of `pruneImports`.
use gopherjs.Base.{
  ℕ, not, ◌&&◌, Option, none, some, List, [], ◌∷◌, ◌≡◌, refl, arith, Bool-cases, contains, ℕ_eq,
  nat_eq_iff, contains-append,
}
use gopherjs.Build.Syntax.{
  ValueSpec, Spec, import_spec, type_spec, value_spec, Decl, func_decl, gen_decl, File,
}
use gopherjs.Build.Squeeze.{squeeze}
use gopherjs.Build.Finalize.{finalize_value, finalize_spec, finalize_removals}
use gopherjs.Build.Imports.{remove_specs, remove_imports}
use gopherjs.Build.Gathering.{gather}
use gopherjs.Build.Declared.{in_gen, finalize_decl-held, gather-finalize_removals}

abbrev pub spec_imports : Option Spec → List ℕ
spec_imports (some (import_spec i)) = i ∷ []
spec_imports _ = []

finalize_value-imports : (s : ValueSpec) → spec_imports (finalize_value s).1 ≡ []
unfolding finalize_value
finalize_value-imports s = ground arith

pub finalize_spec-imports : (s : Option Spec) → spec_imports (finalize_spec s).1 ≡ spec_imports s
unfolding finalize_spec
finalize_spec-imports none = refl
finalize_spec-imports (some (import_spec i)) = refl
finalize_spec-imports (some (type_spec s)) = refl
finalize_spec-imports (some (value_spec s)) = finalize_value-imports s

-- The import specifications in the declarations.
abbrev pub imported : List (Option Decl) → List ℕ
imported = gather (in_gen spec_imports refl finalize_spec-imports)

pub finalize_removals-imported :
    (file : File) → imported (finalize_removals file).decls ≡ imported file.decls
finalize_removals-imported file =
    gather-finalize_removals (in_gen spec_imports refl finalize_spec-imports) refl
      (finalize_decl-held spec_imports refl finalize_spec-imports) file

pub finalize_removals-imports :
    (file : File) → (finalize_removals file).imports ≡ squeeze file.imports
unfolding finalize_removals
finalize_removals-imports file = refl

pub finalize_removals-cell : (file : File) → (finalize_removals file).cell ≡ file.cell
unfolding finalize_removals
finalize_removals-cell file = refl

module _ (unused : List ℕ) (i : ℕ) where
  remove_specs-imported :
      (specs : List (Option Spec))
      → contains (gather spec_imports (remove_specs unused specs)) i
        ≡ (contains (gather spec_imports specs) i && not (contains unused i))
  unfolding remove_specs
  remove_specs-imported [] = refl
  remove_specs-imported (none ∷ specs) = remove_specs-imported specs
  remove_specs-imported (some (type_spec s) ∷ specs) = remove_specs-imported specs
  remove_specs-imported (some (value_spec s) ∷ specs) = remove_specs-imported specs
  remove_specs-imported (some (import_spec j) ∷ specs) = ground (
    arith,
    remove_specs-imported specs,
    Bool-cases (contains unused j),
    Bool-cases (contains unused i),
    nat_eq_iff i j,
  )

  pub remove_imports-imported :
      (decls : List (Option Decl))
      → contains (imported (remove_imports unused decls)) i
        ≡ (contains (imported decls) i && not (contains unused i))
  unfolding remove_imports
  remove_imports-imported [] = refl
  remove_imports-imported (none ∷ decls) = remove_imports-imported decls
  remove_imports-imported (some (func_decl d) ∷ decls) = remove_imports-imported decls
  remove_imports-imported (some (gen_decl d) ∷ decls) = ground (
    arith,
    remove_imports-imported decls,
    remove_specs-imported d.specs,
    contains-append (gather spec_imports (remove_specs unused d.specs))
        (imported (remove_imports unused decls)) i,
    contains-append (gather spec_imports d.specs) (imported decls) i,
    Bool-cases (contains unused i),
  )
