-- ===== src/Build/Original.antt =====
-- build/build.go: `augmentOriginalFile`, which takes out of an original file what the overlays
-- override, and the part of `parseAndAugment` behind the parsing. `none` is a panic.
use gopherjs.Base.{
  Bool, true, false, ◌||◌, ◌&&◌, Option, none, some, List, [], ◌∷◌, ◌++◌, ◌==◌, nat_eq,
  if◌then◌else◌, length,
}
use gopherjs.Base.Assoc.{lookup, remove}
use gopherjs.Base.Bytes.{Bytes, codes}
use gopherjs.Base.BytesEq.{Bytes_eq}
use gopherjs.Base.Options.{◌>>=◌}
use gopherjs.Build.Syntax.{
  Code, FuncDecl, ValueSpec, Spec, import_spec, type_spec, value_spec, Decl, func_decl, gen_decl,
  File,
}
use gopherjs.Build.Directives.{func_key, func_receiver_key}
use gopherjs.Build.Finalize.{is_empty}
use gopherjs.Build.Imports.{augment_original_imports}
use gopherjs.Build.Overlay.{OverrideInfo, Overrides, augment_overlay_file, finalize_changed}

-- The loop over a slice: whether something changed, and its entries.
unfoldable pub each_slot :
    {A B : Type 0} → (A → Option (Bool × B)) → List A → Option (Bool × List B)
each_slot f [] = some (false, [])
each_slot f (x ∷ xs) =
    f x >>= (λ r. each_slot f xs >>= (λ rest. some (r.0 || rest.0, r.1 ∷ rest.1)))

abbrev pub is_overridden : Overrides → Bytes → Bool
is_overridden overrides key = elim (lookup key overrides) [ none ↦ false | some info ↦ true ]

abbrev pub kept_prefix : Bytes
kept_prefix = codes "_gopherjs_original_"

abbrev pub rename_kept : Bool → FuncDecl → FuncDecl
rename_kept keep d = if keep then record d { name = kept_prefix ++ d.name } else d

abbrev pub with_signature : Option FuncDecl → FuncDecl → FuncDecl
with_signature none d = d
with_signature (some over) d = record d { signature = over.signature }

abbrev pub has_signature : Option FuncDecl → Bool
has_signature none = false
has_signature (some over) = true

-- A function whose key is overridden.
abbrev pub override_function : OverrideInfo → FuncDecl → Option Decl
override_function info d =
    if info.keep_original || has_signature info.override_signature
    then some
        (func_decl (with_signature info.override_signature (rename_kept info.keep_original d)))
    else none

abbrev pub is_purged : Option OverrideInfo → Bool
is_purged none = false
is_purged (some info) = info.purge_methods

-- A function whose key is not overridden, with the key of its receiver.
abbrev pub purge_method : Overrides → Bytes → FuncDecl → Bool × Option Decl
purge_method overrides recv_key d =
    if is_empty recv_key
    then (false, some (func_decl d))
    else if is_purged (lookup recv_key overrides)
    then (true, none)
    else (false, some (func_decl d))

unfoldable pub original_function : Overrides → FuncDecl → Option (Bool × Option Decl)
unfolding lookup func_key func_receiver_key
original_function overrides d = func_key d >>= (λ k. elim (lookup k overrides) [
  | some info ↦ some (true, override_function info d)
  | none ↦ func_receiver_key d >>= (λ recv_key. some (purge_method overrides recv_key d))
])

-- The names and the values of a specification with as many of either, the overridden ones nil.
unfoldable pub drop_overridden :
    Overrides
    → List (Option Bytes)
    → List (Option Code)
    → Option (Bool × List (Option Bytes) × List (Option Code))
unfolding lookup
drop_overridden overrides (some name ∷ names) (value ∷ values) =
    drop_overridden overrides names values >>= (λ r. some (
      if is_overridden overrides name
      then (true, none ∷ r.1, none ∷ r.2)
      else (r.0, some name ∷ r.1, value ∷ r.2)))
drop_overridden overrides (none ∷ names) values = none
drop_overridden overrides _ values = some (false, [], values)

abbrev pub blank : Bytes
blank = b'_' ∷ []

-- The names with a blank for an overridden one.
abbrev pub blank_overridden : Overrides → Option Bytes → Option (Bool × Option Bytes)
blank_overridden overrides none = none
blank_overridden overrides (some name) =
    some (if is_overridden overrides name then (true, some blank) else (false, some name))

unfoldable pub all_blank : List (Option Bytes) → Bool
all_blank [] = true
all_blank (none ∷ names) = false
all_blank (some name ∷ names) = name == blank && all_blank names

unfoldable pub original_value : Overrides → ValueSpec → Option (Bool × Option Spec)
unfolding drop_overridden each_slot all_blank lookup
original_value overrides s =
    if nat_eq (length s.names) (length s.values)
    then (drop_overridden overrides s.names s.values
        >>= (λ r. some (r.0, some (value_spec (record s { names = r.1; values = r.2 })))))
    else (each_slot (blank_overridden overrides) s.names >>= (λ r. some (
        if r.0 && all_blank r.1
        then (true, none)
        else (false, some (value_spec (record s { names = r.1 }))))))

unfoldable pub original_spec : Overrides → Option Spec → Option (Bool × Option Spec)
unfolding original_value lookup
original_spec overrides none = some (false, none)
original_spec overrides (some (import_spec i)) = some (false, some (import_spec i))
original_spec overrides (some (type_spec s)) =
    some (if is_overridden overrides s.name then (true, none) else (false, some (type_spec s)))
original_spec overrides (some (value_spec s)) = original_value overrides s

unfoldable pub original_decl : Overrides → Option Decl → Option (Bool × Option Decl)
unfolding original_function each_slot original_spec
original_decl overrides none = some (false, none)
original_decl overrides (some (func_decl d)) = original_function overrides d
original_decl overrides (some (gen_decl d)) =
    each_slot (original_spec overrides) d.specs
    >>= (λ r. some (r.0, some (gen_decl (record d { specs = r.1 }))))

unfoldable pub augment_original_file : Overrides → File → Option File
unfolding each_slot original_decl finalize_changed
augment_original_file overrides file =
    each_slot (original_decl overrides) file.decls
    >>= (λ r. finalize_changed r.0 (record file { decls = r.1 }))

-- The first loop of `parseAndAugment`.
unfoldable pub augment_overlay_files : List File → Overrides → Option (List File × Overrides)
unfolding augment_overlay_file
augment_overlay_files [] overrides = some ([], overrides)
augment_overlay_files (file ∷ files) overrides =
    augment_overlay_file file overrides
    >>= (λ r. augment_overlay_files files r.1 >>= (λ rest. some (r.0 ∷ rest.0, rest.1)))

unfoldable pub each_file : (File → Option File) → List File → Option (List File)
each_file f [] = some []
each_file f (file ∷ files) = f file >>= (λ done. each_file f files >>= (λ rest. some (done ∷ rest)))

abbrev pub augment_originals : Overrides → List File → Option (List File)
augment_originals overrides files =
    if is_empty overrides then some files else each_file (augment_original_file overrides) files

-- `parseAndAugment` on the files that have been parsed.
unfoldable pub augment : Bytes → List File → List File → Option (List File)
unfolding augment_overlay_files remove each_file augment_original_imports augment_original_file
augment import_path overlay_files original_files = augment_overlay_files overlay_files [] >>= (λ r.
    each_file (augment_original_imports import_path) original_files >>= (λ files.
      augment_originals (remove (codes "init") r.1) files
      >>= (λ originals. some (r.0 ++ originals))))
