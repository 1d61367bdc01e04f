-- ===== src/Build/Augmenting.antt =====
-- `augmentOriginalFile` against a description of what it leaves: the names and the functions of the
-- file, each with its fate, once nil entries and unused imports are gone.
use gopherjs.Base.{false, not, ◌&&◌, some, ◌≡◌, ◌∙◌, contains, ◌==◌, subst, ap, sym}
use gopherjs.Base.Bytes.{Bytes}
use gopherjs.Base.BytesEq.{Bytes_eq}
use gopherjs.Base.Options.{>>=-eq-some}
use gopherjs.Build.Syntax.{File}
use gopherjs.Build.Overlay.{Overrides}
use gopherjs.Build.Original.{each_slot, is_overridden, original_decl, blank, augment_original_file}
use gopherjs.Build.Declared.{names_of, functions_of}
use gopherjs.Build.Pruned.{AllHollow}
use gopherjs.Build.Hollow.{finalize_changed-Keeps}
use gopherjs.Build.Values.{original_decls-stays}
use gopherjs.Build.Emptied.{original_decls-AllHollow}
use gopherjs.Build.Fates.{Fates, original_decls-Fates}

module _ (overrides : Overrides) (file done : File) (hollow : AllHollow file.decls)
    (ends : augment_original_file overrides file ≡ some done) where
  -- In a file whose import declarations declare nothing but imports, when augmentOriginalFile does
  -- not panic: it leaves exactly the types, variables and constants that have no override, the
  -- blank name apart.
  pub augment_original_file-names :
      (k : Bytes)
      → (k == blank) ≡ false
      → contains (names_of done.decls) k
        ≡ (contains (names_of file.decls) k && not (is_overridden overrides k))
  unfolding augment_original_file
  augment_original_file-names k named =
      let (r, found, e) = >>=-eq-some (each_slot (original_decl overrides) file.decls) _ ends in
      let decls = original_decls-AllHollow overrides file.decls r found hollow in
      let kept = finalize_changed-Keeps r.0 (record file { decls = r.1 }) done decls e in
      ap (λ names. contains names k) kept.names
      ∙ original_decls-stays overrides k named file.decls r found

  -- In a file whose import declarations declare nothing but imports, when augmentOriginalFile does
  -- not panic: the functions of the result are those of the file in their order, where each stays
  -- as it is (no override, receiver not purged), is removed (a purged receiver, or an override with
  -- no directive), or is renamed and given the signature of its override.
  pub augment_original_file-Fates :
      Fates overrides (functions_of file.decls) (functions_of done.decls)
  unfolding augment_original_file
  augment_original_file-Fates =
      let (r, found, e) = >>=-eq-some (each_slot (original_decl overrides) file.decls) _ ends in
      let decls = original_decls-AllHollow overrides file.decls r found hollow in
      let kept = finalize_changed-Keeps r.0 (record file { decls = r.1 }) done decls e in
      subst (Fates overrides (functions_of file.decls)) (sym kept.functions)
        (original_decls-Fates overrides file.decls r found)
