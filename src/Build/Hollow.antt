-- ===== src/Build/Hollow.antt =====
-- Declarations of imports, and the end of both augmentations, on what a file declares.
use gopherjs.Base.{
  Bool, true, false, Option, none, some, List, [], ◌∷◌, map, ◌≡◌, refl, ◌∙◌, arith, Bool-cases, inl,
  inr, some_inj, subst, sym,
}
use gopherjs.Base.Options.{present}
use gopherjs.Build.Syntax.{Decl, func_decl, gen_decl, File}
use gopherjs.Build.Squeeze.{squeeze, squeeze-present}
use gopherjs.Build.Finalize.{visit_slots, finalize_gen, finalize_decl, finalize_removals}
use gopherjs.Build.Imports.{is_import_decl}
use gopherjs.Build.Overlay.{finalize_changed}
use gopherjs.Build.Declared.{finalize_decl-names}
use gopherjs.Build.Pruned.{
  Keeps, Keeps-trans, AllHollow, finalize_removals-Keeps, prune_imports-Keeps,
}

finalize_decl-is_import :
    (d : Option Decl) → is_import_decl (finalize_decl d).1 ≡ true → is_import_decl d ≡ true
unfolding finalize_decl finalize_gen
finalize_decl-is_import none h = cc
finalize_decl-is_import (some (func_decl d)) h = cc
finalize_decl-is_import (some (gen_decl d)) h = ground arith

visit_slots-AllHollow :
    (decls : List (Option Decl)) → AllHollow decls → AllHollow (visit_slots finalize_decl decls).1
unfolding visit_slots
visit_slots-AllHollow [] hollow = tt
visit_slots-AllHollow (d ∷ decls) hollow = (
  λ h. finalize_decl-names d ∙ hollow.0 (finalize_decl-is_import d h),
  visit_slots-AllHollow decls hollow.1,
)

present-AllHollow :
    (decls : List (Option Decl)) → AllHollow decls → AllHollow (map some (present decls))
unfolding present
present-AllHollow [] hollow = tt
present-AllHollow (none ∷ decls) hollow = present-AllHollow decls hollow.1
present-AllHollow (some d ∷ decls) hollow = (hollow.0, present-AllHollow decls hollow.1)

squeeze-AllHollow : (decls : List (Option Decl)) → AllHollow decls → AllHollow (squeeze decls)
squeeze-AllHollow decls hollow =
    subst AllHollow (sym (squeeze-present decls)) (present-AllHollow decls hollow)

finalize_removals-AllHollow :
    (file : File) → AllHollow file.decls → AllHollow (finalize_removals file).decls
unfolding finalize_removals
finalize_removals-AllHollow file hollow =
    elim (Bool-cases (visit_slots finalize_decl file.decls).0) [
      | inl e ↦ rw e (
          squeeze-AllHollow (visit_slots finalize_decl file.decls).1
            (visit_slots-AllHollow file.decls hollow))
      | inr e ↦ rw e (visit_slots-AllHollow file.decls hollow)
    ]

-- The end of both augmentations keeps what the file declares.
pub finalize_changed-Keeps :
    (change : Bool) (file done : File)
    → AllHollow file.decls
    → finalize_changed change file ≡ some done
    → Keeps file done
unfolding finalize_changed
finalize_changed-Keeps true file done hollow h =
    Keeps-trans (finalize_removals-Keeps file) (
      prune_imports-Keeps (finalize_removals file) done (finalize_removals-AllHollow file hollow) h)
finalize_changed-Keeps false file done hollow h =
    subst (Keeps file) (some_inj h) (record { names = refl; functions = refl })
