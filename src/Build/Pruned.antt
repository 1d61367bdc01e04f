-- ===== src/Build/Pruned.antt =====
-- `pruneImports` on what the declarations of a file declare.
use gopherjs.Base.{
  ℕ, true, Option, none, some, List, [], ◌∷◌, ◌≡◌, refl, ◌∙◌, Bool-cases, inl, inr, contains, sym,
  ℕ_eq, some_inj, subst, and_true,
}
use gopherjs.Base.Assoc.{Assoc}
use gopherjs.Base.Bytes.{Bytes, codes}
use gopherjs.Base.Options.{◌>>=◌, >>=-eq-some}
use gopherjs.Build.Syntax.{
  Spec, import_spec, type_spec, value_spec, Decl, func_decl, gen_decl, File,
}
use gopherjs.Build.Directives.{has_directive_prefix}
use gopherjs.Build.Finalize.{finalize_removals}
use gopherjs.Build.Imports.{
  is_import_decl, all_imports, is_only_imports, collect_unused, delete_used, decls_selectors,
  prune_used, blank_directives, drop_unused, unused_specs, remove_specs, remove_imports,
  clear_imports, prune_imports,
}
use gopherjs.Build.Gathering.{gather}
use gopherjs.Build.Declared.{
  spec_names, decl_names, names_of, functions_of, finalize_removals-names,
  finalize_removals-functions,
}

remove_specs-names :
    (unused : List ℕ) (specs : List (Option Spec))
    → gather spec_names (remove_specs unused specs) ≡ gather spec_names specs
unfolding remove_specs
remove_specs-names unused [] = refl
remove_specs-names unused (none ∷ specs) = remove_specs-names unused specs
remove_specs-names unused (some (import_spec i) ∷ specs) = elim (Bool-cases (contains unused i)) [
  | inl e ↦ rw e (remove_specs-names unused specs)
  | inr e ↦ rw e (remove_specs-names unused specs)
]
remove_specs-names unused (some (type_spec s) ∷ specs) = rw (remove_specs-names unused specs)
remove_specs-names unused (some (value_spec s) ∷ specs) = rw (remove_specs-names unused specs)

remove_imports-names :
    (unused : List ℕ) (decls : List (Option Decl))
    → names_of (remove_imports unused decls) ≡ names_of decls
unfolding remove_imports
remove_imports-names unused [] = refl
remove_imports-names unused (none ∷ decls) = remove_imports-names unused decls
remove_imports-names unused (some (func_decl d) ∷ decls) = remove_imports-names unused decls
remove_imports-names unused (some (gen_decl d) ∷ decls) =
    rw (remove_specs-names unused d.specs) (rw (remove_imports-names unused decls) refl)

remove_imports-functions :
    (unused : List ℕ) (decls : List (Option Decl))
    → functions_of (remove_imports unused decls) ≡ functions_of decls
unfolding remove_imports
remove_imports-functions unused [] = refl
remove_imports-functions unused (none ∷ decls) = remove_imports-functions unused decls
remove_imports-functions unused (some (func_decl d) ∷ decls) =
    rw (remove_imports-functions unused decls)
remove_imports-functions unused (some (gen_decl d) ∷ decls) = remove_imports-functions unused decls

-- The declarations of one file are those of another.
pub record Keeps (file done : File) : Type 0 where
  pub names : names_of done.decls ≡ names_of file.decls
  pub functions : functions_of done.decls ≡ functions_of file.decls

pub Keeps-trans : {f g h : File} → Keeps f g → Keeps g h → Keeps f h
Keeps-trans a b = record { names = b.names ∙ a.names; functions = b.functions ∙ a.functions }

pub finalize_removals-Keeps : (file : File) → Keeps file (finalize_removals file)
finalize_removals-Keeps file = record {
  names = finalize_removals-names file;
  functions = finalize_removals-functions file;
}

drop_unused-Keeps :
    (file done : File) (unused : Assoc Bytes ℕ)
    → drop_unused file unused ≡ some done
    → Keeps file done
unfolding drop_unused
drop_unused-Keeps file done [] h =
    subst (Keeps file) (some_inj h) (record { names = refl; functions = refl })
drop_unused-Keeps file done (u ∷ unused) h =
    let (specs, found, e) = >>=-eq-some (unused_specs file.imports (u ∷ unused)) _ h in
    let cleared : File = record file {
      decls = remove_imports specs file.decls;
      imports = clear_imports (u ∷ unused) file.imports;
    } in
    subst (Keeps file) (some_inj e) (
      Keeps-trans {g = cleared}
        (record {
          names = remove_imports-names specs file.decls;
          functions = remove_imports-functions specs file.decls;
        })
        (finalize_removals-Keeps cleared))

prune_used-Keeps :
    (file done : File) (unused : Assoc Bytes ℕ)
    → prune_used file unused ≡ some done
    → Keeps file done
unfolding prune_used
prune_used-Keeps file done [] h =
    subst (Keeps file) (some_inj h) (record { names = refl; functions = refl })
prune_used-Keeps file done (u ∷ unused) h =
    let (r, found, e) =
      >>=-eq-some (blank_directives file.comments file.imports (u ∷ unused) file.cell) _ h in
    let kept = drop_unused-Keeps (record file { cell = r.0 }) done r.1 e in
    record { names = kept.names; functions = kept.functions }

-- A declaration of imports declares nothing else.
abbrev pub Hollow : Option Decl → Type 0
Hollow d = is_import_decl d ≡ true → decl_names d ≡ []

abbrev pub AllHollow : List (Option Decl) → Type 0
AllHollow [] = Unit {0}
AllHollow (d ∷ decls) = Hollow d × AllHollow decls

all_imports-nothing :
    (decls : List (Option Decl))
    → AllHollow decls
    → all_imports decls ≡ true
    → (names_of decls ≡ []) × (functions_of decls ≡ [])
unfolding all_imports
all_imports-nothing [] hollow h = (refl, refl)
all_imports-nothing (none ∷ decls) hollow h = cc
all_imports-nothing (some (func_decl d) ∷ decls) hollow h = cc
all_imports-nothing (some (gen_decl d) ∷ decls) hollow h =
    let (first, rest) = and_true (is_import_decl (some (gen_decl d))) (all_imports decls) h in
    let (names, functions) = all_imports-nothing decls hollow.1 rest in
    (rw (hollow.0 first) names, functions)

-- Nothing is lost by the pruning of imports.
pub prune_imports-Keeps :
    (file done : File) → AllHollow file.decls → prune_imports file ≡ some done → Keeps file done
unfolding prune_imports is_only_imports
prune_imports-Keeps file done hollow h = elim (Bool-cases (all_imports file.decls)) [
  | inl only ↦ elim (Bool-cases (has_directive_prefix (codes "//go:linkname ") file.comments)) [
    | inl linked ↦ walked (rw (only, linked) at h)
    | inr free ↦
        let (names, functions) = all_imports-nothing file.decls hollow only in
        subst (Keeps file) (some_inj (rw (only, free) at h))
          (record { names = sym names; functions = sym functions })
  ]
  | inr other ↦ walked (rw other at h)
]
  where
    walked :
        (collect_unused file.cell 0 file.imports []
            >>= (λ unused. prune_used file (delete_used (decls_selectors file.decls) unused)))
          ≡ some done
        → Keeps file done
    walked e =
        let (unused, found, rest) = >>=-eq-some (collect_unused file.cell 0 file.imports []) _ e in
        prune_used-Keeps file done _ rest
