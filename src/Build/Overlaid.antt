-- ===== src/Build/Overlaid.antt =====
-- `augmentOverlayFile` as a whole: the overrides that it adds, and the declarations that it
-- leaves.
use gopherjs.Base.{
  ℕ, Bool, true, false, ◌||◌, Option, none, some, List, [], ◌∷◌, ◌≡◌, refl, ◌∙◌, arith, Bool-cases,
  inl, inr, some_inj, sym, subst, ap,
}
use gopherjs.Base.Bytes.{Bytes}
use gopherjs.Base.Options.{>>=-eq-some}
use gopherjs.Build.Syntax.{FuncDecl, ImportSpec, Spec, Decl, func_decl, gen_decl, File}
use gopherjs.Build.Directives.{func_key, overrides_signature}
use gopherjs.Build.Directives
use gopherjs.Build.Overlay.{
  Overrides, each, overlay_spec, overlay_decl, finalize_changed, augment_overlay_file,
}
use gopherjs.Build.Original.{is_overridden}
use gopherjs.Build.Gathering.{gather, append_nil}
use gopherjs.Build.Declared.{spec_names, functions_of}
use gopherjs.Build.Pruned.{Hollow, AllHollow}
use gopherjs.Build.Hollow.{finalize_changed-Keeps}
use gopherjs.Build.Overriding.{declares, overlay_decls-overridden, overlay_decls-less}
use gopherjs.Build.Signing.{AllSign, AllFit, overlay_decls-AllFit}

module _ (cell : ℕ → ImportSpec) where
  overlay_spec-nothing :
      (purge : Bool) (s : Option Spec) (before : Overrides) (r : Bool × Option Spec × Overrides)
      → overlay_spec cell purge s before ≡ some r
      → spec_names s ≡ []
      → spec_names r.1 ≡ []
  unfolding overlay_spec
  overlay_spec-nothing purge s before r h nothing = ground arith

  overlay_specs-nothing :
      (purge : Bool) (specs : List (Option Spec)) (before : Overrides)
      (r : Bool × List (Option Spec) × Overrides)
      → each (overlay_spec cell purge) specs before ≡ some r
      → gather spec_names specs ≡ []
      → gather spec_names r.1 ≡ []
  unfolding each
  overlay_specs-nothing purge [] before r h nothing = rw (← some_inj h) refl
  overlay_specs-nothing purge (s ∷ specs) before r h nothing =
      let (first, found, e) = >>=-eq-some (overlay_spec cell purge s before) _ h in
      let (rest, found_rest, e') = >>=-eq-some (each (overlay_spec cell purge) specs first.2) _ e in
      let (here, later) = append_nil (spec_names s) (gather spec_names specs) nothing in
      rw (← some_inj e') (
        rw (overlay_spec-nothing purge s before first found here)
          (overlay_specs-nothing purge specs first.2 rest found_rest later))

  overlay_decl-Hollow :
      (d : Option Decl) (before : Overrides) (r : Bool × Option Decl × Overrides)
      → overlay_decl cell d before ≡ some r
      → Hollow d
      → Hollow r.1
  unfolding overlay_decl
  overlay_decl-Hollow none before r h hollow = cc
  overlay_decl-Hollow (some (func_decl d)) before r h hollow =
      let (k, key, e) = >>=-eq-some (func_key d) _ h in λ import. ground (arith, some_inj e)
  overlay_decl-Hollow (some (gen_decl d)) before r h hollow =
      let purged = Directives.purge_decl (gen_decl d) in
      let (rest, found, e) = >>=-eq-some (each (overlay_spec cell purged) d.specs before) _ h in
      rw (← some_inj e) (elim (Bool-cases purged) [
        | inl gone ↦ rw gone (λ import. refl)
        | inr stays ↦
            rw stays
              (λ import. overlay_specs-nothing purged d.specs before rest found (hollow import))
      ])

  overlay_decls-AllHollow :
      (decls : List (Option Decl)) (before : Overrides) (r : Bool × List (Option Decl) × Overrides)
      → each (overlay_decl cell) decls before ≡ some r
      → AllHollow decls
      → AllHollow r.1
  unfolding each
  overlay_decls-AllHollow [] before r h hollow = rw (← some_inj h) tt
  overlay_decls-AllHollow (d ∷ decls) before r h hollow =
      let (first, found, e) = >>=-eq-some (overlay_decl cell d before) _ h in
      let (rest, found_rest, e') = >>=-eq-some (each (overlay_decl cell) decls first.2) _ e in
      rw (← some_inj e') (
        overlay_decl-Hollow d before first found hollow.0,
        overlay_decls-AllHollow decls first.2 rest found_rest hollow.1,
      )

-- A declaration with the key stands in one of the files.
abbrev pub any_declares : Bytes → List File → Bool
any_declares k [] = false
any_declares k (file ∷ files) = declares k file.decls || any_declares k files

abbrev pub FilesHollow : List File → Type 0
FilesHollow [] = Unit {0}
FilesHollow (file ∷ files) = AllHollow file.decls × FilesHollow files

module _ (file : File) (before : Overrides) (r : File × Overrides)
    (ends : augment_overlay_file file before ≡ some r) where
  -- A file's declarations before and behind the loop, and the end of its augmentation.
  overlay_parts :
      (walked : Bool × List (Option Decl) × Overrides) × (each
          (overlay_decl file.cell)
          file.decls
          before
        ≡ some walked)
      × (finalize_changed walked.0 (record file { decls = walked.1 }) ≡ some r.0)
      × (walked.2 ≡ r.1)
  unfolding augment_overlay_file
  overlay_parts =
      let (walked, found, e) =
        >>=-eq-some (each (overlay_decl file.cell) file.decls before) _ ends in
      let (done, finished, e') =
        >>=-eq-some (finalize_changed walked.0 (record file { decls = walked.1 })) _ e in
      (walked, found, finished ∙ ap (λ t. some t.0) (some_inj e'), ap (λ t. t.1) (some_inj e'))

  pub overlay_file-overridden :
      (k : Bytes) → is_overridden r.1 k ≡ (declares k file.decls || is_overridden before k)
  overlay_file-overridden k =
      let (walked, found, finished, same) = overlay_parts in
      ap (λ o. is_overridden o k) (sym same)
      ∙ overlay_decls-overridden k file.cell file.decls before walked found

  pub overlay_file-less :
      (k : Bytes)
      → AllHollow file.decls
      → declares k r.0.decls ≡ true
      → declares k file.decls ≡ true
  overlay_file-less k hollow there =
      let (walked, found, finished, same) = overlay_parts in
      let decls = overlay_decls-AllHollow file.cell file.decls before walked found hollow in
      let kept =
        finalize_changed-Keeps walked.0 (record file { decls = walked.1 }) r.0 decls finished in
      overlay_decls-less k file.cell file.decls before walked found
        (rw (kept.names, kept.functions) at there)

  pub overlay_file-AllFit :
      (Fits : Bytes → Option FuncDecl → Type 0) (free : (k : Bytes) → Fits k none)
      → AllSign Fits (functions_of file.decls)
      → AllFit Fits free before
      → AllFit Fits free r.1
  overlay_file-AllFit Fits free signers fits =
      let (walked, found, finished, same) = overlay_parts in
      subst (AllFit Fits free) same
        (overlay_decls-AllFit Fits free file.cell file.decls before walked found signers fits)
