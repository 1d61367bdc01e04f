-- ===== src/Build/Keeping.antt =====
-- `parseAndAugment` behind the parsing, on the keys of the original files alone.
use gopherjs.Base.{
  true, false, ◌||◌, none, some, List, [], ◌∷◌, ◌≡◌, refl, ◌∙◌, ap, arith, Bool-cases, inl, inr,
  some_inj, sym, subst, ◌==◌, length, drop, drop-append, ℕ_eq, or_right,
}
use gopherjs.Base.Assoc.{lookup, remove, lookup-remove}
use gopherjs.Base.Bytes.{Bytes, codes}
use gopherjs.Base.BytesEq.{Bytes_eq}
use gopherjs.Base.Options.{>>=-eq-some}
use gopherjs.Build.Syntax.{FuncDecl, File}
use gopherjs.Build.Finalize.{is_empty}
use gopherjs.Build.Imports.{augment_original_imports}
use gopherjs.Build.Overlay.{Overrides}
use gopherjs.Build.Original.{
  is_overridden, is_purged, blank, augment_original_file, augment_overlay_files, each_file,
  augment_originals, augment,
}
use gopherjs.Build.Declared.{functions_of}
use gopherjs.Build.Overriding.{declares}
use gopherjs.Build.Overlaid.{any_declares}
use gopherjs.Build.OverlaidFiles.{overlay_files-overridden, length-overlay_files}
use gopherjs.Build.Merged.{augment_original_imports-decls, lookup-nil}
use gopherjs.Build.Kept.{Receivers, AllKeepKey, augment_original_file-kept}

module _ (Fine : Bytes → Type 0) (k : Bytes) where
  each_file-AllKeepKey :
      (import_path : Bytes) (files done : List File)
      → each_file (augment_original_imports import_path) files ≡ some done
      → AllKeepKey Fine k files
      → AllKeepKey Fine k done × (any_declares k done ≡ any_declares k files)
  unfolding each_file
  each_file-AllKeepKey import_path [] done h keeps = rw (← some_inj h) (tt, refl)
  each_file-AllKeepKey import_path (file ∷ files) done h keeps =
      let (first, found, e) = >>=-eq-some (augment_original_imports import_path file) _ h in
      let (rest, found_rest, e') =
        >>=-eq-some (each_file (augment_original_imports import_path) files) _ e in
      let same = augment_original_imports-decls import_path file first found in
      let (others, declared) = each_file-AllKeepKey import_path files rest found_rest keeps.1 in
      rw (← some_inj e') (
        (record { hollow = rw same keeps.0.hollow; receivers = rw same keeps.0.receivers }, others),
        rw (same, declared) refl,
      )

module _ (overrides : Overrides) (k : Bytes) (free : lookup k overrides ≡ none)
    (named : (k == blank) ≡ false) where
  each_file-kept :
      (files done : List File)
      → each_file (augment_original_file overrides) files ≡ some done
      → AllKeepKey (λ r. is_purged (lookup r overrides) ≡ false) k files
      → any_declares k files ≡ true
      → any_declares k done ≡ true
  unfolding each_file
  each_file-kept [] done h keeps there = cc
  each_file-kept (file ∷ files) done h keeps there =
      let (first, found, e) = >>=-eq-some (augment_original_file overrides file) _ h in
      let (rest, found_rest, e') =
        >>=-eq-some (each_file (augment_original_file overrides) files) _ e in
      let o = keeps.0 in
      rw (← some_inj e') (elim (Bool-cases (declares k file.decls)) [
        | inl own ↦
            rw
              (augment_original_file-kept overrides k free file first o.hollow o.receivers named
                found own)
              refl
        | inr other ↦
            or_right (declares k first.decls)
              (each_file-kept files rest found_rest keeps.1 (rw other at there))
      ])

  augment_originals-kept :
      (files done : List File)
      → augment_originals overrides files ≡ some done
      → AllKeepKey (λ r. is_purged (lookup r overrides) ≡ false) k files
      → any_declares k files ≡ true
      → any_declares k done ≡ true
  augment_originals-kept files done h keeps there = elim (Bool-cases (is_empty overrides)) [
    | inl e ↦ subst (λ f. any_declares k f ≡ true) (some_inj (rw e at h)) there
    | inr e ↦ each_file-kept files done (rw e at h) keeps there
  ]

-- A key without an override is not purged, `init` removed or not.
remove-unpurged :
    (overrides : Overrides) (r : Bytes)
    → is_overridden overrides r ≡ false
    → is_purged (lookup r (remove (codes "init") overrides)) ≡ false
remove-unpurged overrides r h = ground (arith, lookup-remove (codes "init") r overrides)

remove-free :
    (overrides : Overrides) (r : Bytes)
    → is_overridden overrides r ≡ false
    → lookup r (remove (codes "init") overrides) ≡ none
remove-free overrides r h = ground (arith, lookup-remove (codes "init") r overrides)

Receivers-map :
    (P Q : Bytes → Type 0) (weaken : (r : Bytes) → P r → Q r) (k : Bytes) (ds : List FuncDecl)
    → Receivers P k ds
    → Receivers Q k ds
Receivers-map P Q weaken k [] all = tt
Receivers-map P Q weaken k (d ∷ ds) all =
    (λ r key recv. weaken r (all.0 r key recv), Receivers-map P Q weaken k ds all.1)

AllKeepKey-map :
    (P Q : Bytes → Type 0) (weaken : (r : Bytes) → P r → Q r) (k : Bytes) (files : List File)
    → AllKeepKey P k files
    → AllKeepKey Q k files
AllKeepKey-map P Q weaken k [] all = tt
AllKeepKey-map P Q weaken k (file ∷ files) all = (
  record {
    hollow = all.0.hollow;
    receivers = Receivers-map P Q weaken k (functions_of file.decls) all.0.receivers;
  },
  AllKeepKey-map P Q weaken k files all.1,
)

-- Where no original file's import declaration declares anything else: when parseAndAugment does not
-- panic, a key that an original file declares, other than the blank name, and that no overlay
-- declares, is still declared by an original file, provided that no overlay declares the receiver
-- of an original function with this key.
pub augment-kept :
    (import_path : Bytes) (overlays originals out : List File) (k : Bytes)
    → AllKeepKey (λ r. any_declares r overlays ≡ false) k originals
    → (k == blank) ≡ false
    → any_declares k overlays ≡ false
    → any_declares k originals ≡ true
    → augment import_path overlays originals ≡ some out
    → any_declares k (drop (length overlays) out) ≡ true
unfolding augment
augment-kept import_path overlays originals out k keeps named absent there ends =
    let (r, found, e) = >>=-eq-some (augment_overlay_files overlays []) _ ends in
    let (redirected, found_files, e') =
      >>=-eq-some (each_file (augment_original_imports import_path) originals) _ e in
    let (done, found_done, e'') =
      >>=-eq-some (augment_originals (remove (codes "init") r.1) redirected) _ e' in
    let back : drop (length overlays) out ≡ done =
      rw (sym (some_inj e''))
        (rw (← length-overlay_files overlays [] r found) (drop-append r.0 done)) in
    let unlisted = λ (j : Bytes) (none_declares : any_declares j overlays ≡ false).
      overlay_files-overridden j overlays [] r found ∙ nothing j none_declares in
    let (kept, same) =
      each_file-AllKeepKey (λ j. any_declares j overlays ≡ false) k import_path originals redirected
        found_files keeps in
    ap (any_declares k) back
    ∙ augment_originals-kept (remove (codes "init") r.1) k (remove-free r.1 k (unlisted k absent))
        named redirected done found_done
        (AllKeepKey-map (λ j. any_declares j overlays ≡ false)
          (λ j. is_purged (lookup j (remove (codes "init") r.1)) ≡ false)
          (λ j none_declares. remove-unpurged r.1 j (unlisted j none_declares)) k redirected kept)
        (same ∙ there)
  where
    nothing :
        (j : Bytes)
        → any_declares j overlays ≡ false
        → (any_declares j overlays || is_overridden [] j) ≡ false
    nothing j h = ground (arith, h, lookup-nil j)
