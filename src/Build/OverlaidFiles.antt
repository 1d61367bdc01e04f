-- ===== src/Build/OverlaidFiles.antt =====
-- The first loop of `parseAndAugment`, over all overlay files.
use gopherjs.Base.{
  true, ◌||◌, Option, none, some, List, [], ◌∷◌, ◌≡◌, refl, arith, inl, inr, Bool-cases, some_inj,
  length, subst, sym,
}
use gopherjs.Base.Bytes.{Bytes}
use gopherjs.Base.Options.{>>=-eq-some}
use gopherjs.Build.Syntax.{FuncDecl, File}
use gopherjs.Build.Overlay.{Overrides, augment_overlay_file}
use gopherjs.Build.Original.{is_overridden, augment_overlay_files}
use gopherjs.Build.Declared.{functions_of}
use gopherjs.Build.Overriding.{declares}
use gopherjs.Build.Signing.{AllSign, AllFit}
use gopherjs.Build.Overlaid.{
  any_declares, FilesHollow, overlay_file-overridden, overlay_file-less, overlay_file-AllFit,
}

-- Every key that an overlay file declares is overridden.
pub overlay_files-overridden :
    (k : Bytes) (files : List File) (before : Overrides) (r : List File × Overrides)
    → augment_overlay_files files before ≡ some r
    → is_overridden r.1 k ≡ (any_declares k files || is_overridden before k)
unfolding augment_overlay_files
overlay_files-overridden k [] before r h = rw (← some_inj h) refl
overlay_files-overridden k (file ∷ files) before r h =
    let (first, found, e) = >>=-eq-some (augment_overlay_file file before) _ h in
    let (rest, found_rest, e') = >>=-eq-some (augment_overlay_files files first.1) _ e in
    rw (← some_inj e') (
      ground (
        arith,
        overlay_file-overridden file before first found k,
        overlay_files-overridden k files first.1 rest found_rest,
      ))

-- Only what an overlay file declares is declared by one afterwards.
pub overlay_files-less :
    (k : Bytes) (files : List File) (before : Overrides) (r : List File × Overrides)
    → augment_overlay_files files before ≡ some r
    → FilesHollow files
    → any_declares k r.0 ≡ true
    → any_declares k files ≡ true
unfolding augment_overlay_files
overlay_files-less k [] before r h hollow there = ground (arith, some_inj h)
overlay_files-less k (file ∷ files) before r h hollow there =
    let (first, found, e) = >>=-eq-some (augment_overlay_file file before) _ h in
    let (rest, found_rest, e') = >>=-eq-some (augment_overlay_files files first.1) _ e in
    let kept : any_declares k (first.0 ∷ rest.0) ≡ true =
      subst (λ (t : List File × Overrides). any_declares k t.0 ≡ true) (sym (some_inj e')) there in
    elim (Bool-cases (declares k first.0.decls)) [
      | inl here ↦ rw (overlay_file-less file before first found k hollow.0 here) refl
      | inr other ↦
          let later =
            overlay_files-less k files first.1 rest found_rest hollow.1 (rw other at kept) in
          ground (arith, later)
    ]

pub length-overlay_files :
    (files : List File) (before : Overrides) (r : List File × Overrides)
    → augment_overlay_files files before ≡ some r
    → length r.0 ≡ length files
unfolding augment_overlay_files
length-overlay_files [] before r h = rw (← some_inj h) refl
length-overlay_files (file ∷ files) before r h =
    let (first, found, e) = >>=-eq-some (augment_overlay_file file before) _ h in
    let (rest, found_rest, e') = >>=-eq-some (augment_overlay_files files first.1) _ e in
    rw (← some_inj e') (rw (length-overlay_files files first.1 rest found_rest) refl)

abbrev pub FilesSign : (Bytes → Option FuncDecl → Type 0) → List File → Type 0
FilesSign Fits [] = Unit {0}
FilesSign Fits (file ∷ files) = AllSign Fits (functions_of file.decls) × FilesSign Fits files

pub overlay_files-AllFit :
    (Fits : Bytes → Option FuncDecl → Type 0) (free : (k : Bytes) → Fits k none) (files : List File)
    (before : Overrides) (r : List File × Overrides)
    → augment_overlay_files files before ≡ some r
    → FilesSign Fits files
    → AllFit Fits free before
    → AllFit Fits free r.1
unfolding augment_overlay_files
overlay_files-AllFit Fits free [] before r h signers fits = rw (← some_inj h) fits
overlay_files-AllFit Fits free (file ∷ files) before r h signers fits =
    let (first, found, e) = >>=-eq-some (augment_overlay_file file before) _ h in
    let (rest, found_rest, e') = >>=-eq-some (augment_overlay_files files first.1) _ e in
    rw (← some_inj e') (
      overlay_files-AllFit Fits free files first.1 rest found_rest signers.1
        (overlay_file-AllFit file before first found Fits free signers.0 fits))
