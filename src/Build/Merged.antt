-- ===== src/Build/Merged.antt =====
-- The part of `parseAndAugment` behind the parsing, on the keys of both sides.
use gopherjs.Base.{
  true, false, none, some, List, [], ◌∷◌, ◌++◌, ◌≡◌, refl, ◌∙◌, arith, Bool-cases, inl, inr,
  contains, some_inj, sym, subst, ◌==◌, ap, ℕ_eq, length, take, drop, take-append, drop-append,
}
use gopherjs.Base.Assoc.{lookup, remove, lookup-remove}
use gopherjs.Base.Bytes.{Bytes, codes}
use gopherjs.Base.BytesEq.{Bytes_eq}
use gopherjs.Base.Options.{>>=-eq-some}
use gopherjs.Build.Syntax.{File}
use gopherjs.Build.Finalize.{is_empty}
use gopherjs.Build.Imports.{augment_original_imports, redirect_imports, nosync_packages}
use gopherjs.Build.Overlay.{OverrideInfo, Overrides}
use gopherjs.Build.Original.{
  is_overridden, blank, augment_original_file, augment_overlay_files, each_file, augment_originals,
  augment,
}
use gopherjs.Build.Declared.{functions_of}
use gopherjs.Build.Pruned.{AllHollow}
use gopherjs.Build.Overriding.{signature_at, info_signature}
use gopherjs.Build.Overlaid.{any_declares, FilesHollow}
use gopherjs.Build.OverlaidFiles.{
  overlay_files-overridden, overlay_files-less, length-overlay_files, FilesSign,
  overlay_files-AllFit,
}
use gopherjs.Build.Apart.{AllPlain, keeps_as, Signed, Signed-none, augment_original_file-apart}

pub lookup-nil : (k : Bytes) → lookup {V = OverrideInfo} k [] ≡ none
unfolding lookup
lookup-nil k = refl

pub augment_original_imports-decls :
    (import_path : Bytes) (file done : File)
    → augment_original_imports import_path file ≡ some done
    → done.decls ≡ file.decls
unfolding augment_original_imports
augment_original_imports-decls import_path file done h =
    elim (Bool-cases (contains nosync_packages import_path)) [
      | inl listed ↦
          let (cell, found, e) =
            >>=-eq-some (redirect_imports file.imports file.cell) _ (rw listed at h) in
          ap (λ (f : File). f.decls) (sym (some_inj e))
      | inr other ↦ ap (λ (f : File). f.decls) (sym (some_inj (rw other at h)))
    ]

-- What an original file has to be like: import declarations of imports, names without dots, and no
-- function that would be kept under the key.
pub record IsOriginal (k : Bytes) (file : File) : Type 0 where
  pub hollow : AllHollow file.decls
  pub plain : AllPlain (functions_of file.decls)
  pub kept : keeps_as k (functions_of file.decls) ≡ false

module _ (k : Bytes) where
  abbrev pub AllOriginal : List File → Type 0
  AllOriginal [] = Unit {0}
  AllOriginal (file ∷ files) = IsOriginal k file × AllOriginal files

  IsOriginal-decls :
      (file done : File) → done.decls ≡ file.decls → IsOriginal k file → IsOriginal k done
  IsOriginal-decls file done e o = record {
    hollow = rw e o.hollow;
    plain = rw e o.plain;
    kept = rw e o.kept;
  }

  each_file-AllOriginal :
      (import_path : Bytes) (files done : List File)
      → each_file (augment_original_imports import_path) files ≡ some done
      → AllOriginal files
      → AllOriginal done
  unfolding each_file
  each_file-AllOriginal import_path [] done h originals = rw (← some_inj h) tt
  each_file-AllOriginal import_path (file ∷ files) done h originals =
      let (first, found, e) = >>=-eq-some (augment_original_imports import_path file) _ h in
      let (rest, found_rest, e') =
        >>=-eq-some (each_file (augment_original_imports import_path) files) _ e in
      rw (← some_inj e') (
        IsOriginal-decls file first (augment_original_imports-decls import_path file first found)
            originals.0,
        each_file-AllOriginal import_path files rest found_rest originals.1,
      )

  module _ (named : (k == blank) ≡ false) (overrides : Overrides)
      (over : is_overridden overrides k ≡ true)
      (signed : (j : Bytes) → Signed k j (signature_at overrides j)) where
    each_file-apart :
        (files done : List File)
        → each_file (augment_original_file overrides) files ≡ some done
        → AllOriginal files
        → any_declares k done ≡ false
    unfolding each_file
    each_file-apart [] done h originals = rw (← some_inj h) refl
    each_file-apart (file ∷ files) done h originals =
        let (first, found, e) = >>=-eq-some (augment_original_file overrides file) _ h in
        let (rest, found_rest, e') =
          >>=-eq-some (each_file (augment_original_file overrides) files) _ e in
        let o = originals.0 in
        rw (← some_inj e') (
          rw
            (augment_original_file-apart overrides k over signed file first o.hollow o.plain named
              o.kept found)
            (each_file-apart files rest found_rest originals.1))

    augment_originals-apart :
        (files done : List File)
        → augment_originals overrides files ≡ some done
        → AllOriginal files
        → any_declares k done ≡ false
    augment_originals-apart files done h originals = elim (Bool-cases (is_empty overrides)) [
      | inl none_at_all ↦ absurd (no_override overrides none_at_all over)
      | inr some_at_all ↦ each_file-apart files done (rw some_at_all at h) originals
    ]
      where
        no_override : (o : Overrides) → is_empty o ≡ true → is_overridden o k ≡ true → ⊥
        no_override [] e present = ground (arith, lookup-nil k)
        no_override (x ∷ o) e present = cc

  -- Without the entry for `init`, which every file may declare.
  module _ (regular : (codes "init" == k) ≡ false) (overrides : Overrides) where
    remove-overridden :
        is_overridden (remove (codes "init") overrides) k ≡ is_overridden overrides k
    remove-overridden = ground (arith, lookup-remove (codes "init") k overrides)

    remove-Signed :
        ((j : Bytes) → Signed k j (signature_at overrides j))
        → (j : Bytes) → Signed k j (signature_at (remove (codes "init") overrides) j)
    remove-Signed signed j = elim (Bool-cases (codes "init" == j)) [
      | inl same ↦
          let e : lookup j (remove (codes "init") overrides) ≡ none =
            lookup-remove (codes "init") j overrides ∙ rw same refl in
          subst (Signed k j) (ap info_signature (sym e)) (Signed-none k j)
      | inr apart ↦
          let e : lookup j (remove (codes "init") overrides) ≡ lookup j overrides =
            lookup-remove (codes "init") j overrides ∙ rw apart refl in
          subst (Signed k j) (ap info_signature (sym e)) (signed j)
    ]

-- Where no file's import declaration declares anything else and no function's name has a dot: when
-- parseAndAugment does not panic, a key that an overlay declares afterwards is declared by no
-- original file. Apart from `init` and the blank name, from the keys of overlay functions with the
-- directive override-signature, and from the names under which originals are kept.
pub augment-apart :
    (import_path : Bytes) (overlays originals out : List File) (k : Bytes)
    → FilesHollow overlays
    → AllOriginal k originals
    → FilesSign (Signed k) overlays
    → (codes "init" == k) ≡ false
    → (k == blank) ≡ false
    → augment import_path overlays originals ≡ some out
    → any_declares k (take (length overlays) out) ≡ true
    → any_declares k (drop (length overlays) out) ≡ false
unfolding augment
augment-apart import_path overlays originals out k hollow files signers regular named ends there =
    let (r, found, e) = >>=-eq-some (augment_overlay_files overlays []) _ ends in
    let (redirected, found_files, e') =
      >>=-eq-some (each_file (augment_original_imports import_path) originals) _ e in
    let (done, found_done, e'') =
      >>=-eq-some (augment_originals (remove (codes "init") r.1) redirected) _ e' in
    let same : out ≡ r.0 ++ done = sym (some_inj e'') in
    let size = length-overlay_files overlays [] r found in
    let front : take (length overlays) out ≡ r.0 = rw same (rw (← size) (take-append r.0 done)) in
    let back : drop (length overlays) out ≡ done = rw same (rw (← size) (drop-append r.0 done)) in
    let declared : any_declares k overlays ≡ true =
      overlay_files-less k overlays [] r found hollow (ap (any_declares k) (sym front) ∙ there) in
    let over : is_overridden r.1 k ≡ true =
      overlay_files-overridden k overlays [] r found ∙ rw declared refl in
    let signed =
      overlay_files-AllFit (Signed k) (Signed-none k) overlays [] r found signers (empty k) in
    ap (any_declares k) back
    ∙ augment_originals-apart k named (remove (codes "init") r.1)
        (remove-overridden k regular r.1 ∙ over) (remove-Signed k regular r.1 signed) redirected
        done found_done (each_file-AllOriginal k import_path originals redirected found_files files)
  where
    empty : (i j : Bytes) → Signed i j (signature_at [] j)
    empty i j = subst (Signed i j) (ap info_signature (sym (lookup-nil j))) (Signed-none i j)
