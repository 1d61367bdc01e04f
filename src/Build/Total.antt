-- ===== src/Build/Total.antt =====
-- The part of `parseAndAugment` behind the parsing, on files as the parser reads them.
use gopherjs.Base.{
  ℕ, Bool, Option, none, some, List, [], ◌∷◌, ◌++◌, map, ◌≡◌, refl, ◌∙◌, ap, arith, Bool-cases, inl,
  inr, contains, sym, ◌==◌, subst, ℕ_eq, nat_eq_iff, some_inj,
}
use gopherjs.Base.Assoc.{remove, put}
use gopherjs.Base.Bytes.{Bytes, codes}
use gopherjs.Base.BytesEq.{Bytes_eq, bytes_equal, bytes_equal_iff}
use gopherjs.Base.Options.{Ends, >>=-Ends}
use gopherjs.Build.Syntax.{
  ImportSpec, Spec, import_spec, type_spec, value_spec, Decl, func_decl, gen_decl, File,
}
use gopherjs.Build.Directives.{func_key}
use gopherjs.Build.Directives
use gopherjs.Build.Finalize.{is_empty}
use gopherjs.Build.Imports.{
  import_name, redirect_imports, augment_original_imports, nosync_packages, at_address, to_nosync,
  name_or,
}
use gopherjs.Build.Overlay.{
  Overrides, plain_info, each, add_names, overlay_spec, overlay_decl, augment_overlay_file,
}
use gopherjs.Build.Original.{
  augment_original_file, augment_overlay_files, each_file, augment_originals, augment,
}
use gopherjs.Build.Unused.{distinct_names}
use gopherjs.Build.Parsed.{
  ReadSpec, ReadDecl, All, IsParsed, each-total, finalize_changed-total,
  augment_original_file-total,
}

add_names-total :
    (names : List Bytes) (before : Overrides) → Ends (add_names (map some names) before)
unfolding add_names
add_names-total [] before = (before, refl)
add_names-total (name ∷ names) before = add_names-total names (put name plain_info before)

overlay_spec-total :
    (cell : ℕ → ImportSpec) (purge : Bool) (s : Option Spec) (before : Overrides)
    → ReadSpec s
    → Ends (overlay_spec cell purge s before)
unfolding overlay_spec
overlay_spec-total cell purge none before read = absurd read
overlay_spec-total cell purge (some (import_spec i)) before read = (_, refl)
overlay_spec-total cell purge (some (type_spec s)) before read = (_, refl)
overlay_spec-total cell purge (some (value_spec s)) before (names, all) =
    >>=-Ends (add_names s.names before) _
      (subst (λ n. Ends (add_names n before)) (sym all) (add_names-total names before))
      (λ added _. (_, refl))

overlay_decl-total :
    (cell : ℕ → ImportSpec) (d : Option Decl) (before : Overrides)
    → ReadDecl d
    → Ends (overlay_decl cell d before)
unfolding overlay_decl
overlay_decl-total cell none before read = absurd read
overlay_decl-total cell (some (func_decl d)) before (k, key) =
    >>=-Ends (func_key d) _ (k, key) (λ j _. (_, refl))
overlay_decl-total cell (some (gen_decl d)) before read =
    let purged = Directives.purge_decl (gen_decl d) in
    >>=-Ends (each (overlay_spec cell purged) d.specs before) _
      (each-total (overlay_spec cell purged) ReadSpec (overlay_spec-total cell purged) d.specs
        before read)
      (λ r _. (_, refl))

augment_overlay_file-total :
    (file : File) (before : Overrides) → IsParsed file → Ends (augment_overlay_file file before)
unfolding augment_overlay_file
augment_overlay_file-total file before p =
    >>=-Ends (each (overlay_decl file.cell) file.decls before) _
      (each-total (overlay_decl file.cell) ReadDecl (overlay_decl-total file.cell) file.decls before
        p.readable)
      (λ r _.
        >>=-Ends _ _
          (finalize_changed-total r.0 (record file { decls = r.1 }) p.ids p.present_imports
            p.distinct)
          (λ done _. (_, refl)))

augment_overlay_files-total :
    (files : List File) (before : Overrides)
    → All IsParsed files
    → Ends (augment_overlay_files files before)
unfolding augment_overlay_files
augment_overlay_files-total [] before parsed = (_, refl)
augment_overlay_files-total (file ∷ files) before parsed =
    >>=-Ends (augment_overlay_file file before) _ (augment_overlay_file-total file before parsed.0)
      (λ first _.
        >>=-Ends (augment_overlay_files files first.1) _
          (augment_overlay_files-total files first.1 parsed.1) (λ rest _. (_, refl)))

-- The import of nosync goes by the name that the import of sync had.
import_name-to_nosync : (spec : ImportSpec) → import_name (to_nosync spec) ≡ import_name spec
unfolding import_name bytes_equal
import_name-to_nosync spec = elim (Bool-cases (spec.path == codes "sync")) [
  | inl e ↦ rw e (renamed spec.name spec.path ((bytes_equal_iff spec.path (codes "sync")).0 e))
  | inr e ↦ rw e refl
]
  where
    renamed :
        (name : Option Bytes) (path : Bytes)
        → path ≡ codes "sync"
        → import_name (record {
          groups = spec.groups;
          name = name_or (codes "sync") name;
          path = codes "github.com/gopherjs/gopherjs/nosync";
        })
          ≡ import_name (record { groups = spec.groups; name = name; path = path })
    renamed none path e = rw e refl
    renamed (some given) path e = refl

abbrev SameNames : (ℕ → ImportSpec) → (ℕ → ImportSpec) → Type 0
SameNames c d = (j : ℕ) → import_name (d j) ≡ import_name (c j)

redirect_imports-total :
    (ids : List ℕ) (cell : ℕ → ImportSpec)
    → (done : ℕ → ImportSpec) × (redirect_imports (map some ids) cell ≡ some done)
      × SameNames cell done
unfolding redirect_imports
redirect_imports-total [] cell = (cell, refl, λ j. refl)
redirect_imports-total (i ∷ ids) cell =
    let (done, ends, same) = redirect_imports-total ids (at_address cell i (to_nosync (cell i))) in
    (done, ends, λ j. same j ∙ ground (arith, import_name-to_nosync (cell i), nat_eq_iff i j))

distinct_names-SameNames :
    (c d : ℕ → ImportSpec) (same : SameNames c d) (seen : List Bytes) (ids : List ℕ)
    → distinct_names d seen ids ≡ distinct_names c seen ids
distinct_names-SameNames c d same seen [] = refl
distinct_names-SameNames c d same seen (i ∷ ids) = rw (same i) (
    rw (distinct_names-SameNames c d same seen ids)
      (rw (distinct_names-SameNames c d same (seen ++ import_name (c i) ∷ []) ids) refl))

augment_original_imports-total :
    (import_path : Bytes) (file : File)
    → IsParsed file
    → (done : File) × (augment_original_imports import_path file ≡ some done) × IsParsed done
unfolding augment_original_imports
augment_original_imports-total import_path file p =
    elim (Bool-cases (contains nosync_packages import_path)) [
      | inr other ↦ (file, rw other refl, p)
      | inl listed ↦
          let (cell, ends, same) = redirect_imports-total p.ids file.cell in
          let found = ap (λ l. redirect_imports l file.cell) p.present_imports ∙ ends in
          (
            record file { cell = cell },
            rw listed (rw found refl),
            record {
              ids = p.ids;
              present_imports = p.present_imports;
              distinct = distinct_names-SameNames file.cell cell same [] p.ids ∙ p.distinct;
              readable = p.readable;
            },
          )
    ]

each_file-imports-total :
    (import_path : Bytes) (files : List File)
    → All IsParsed files
    → (done : List File) × (each_file (augment_original_imports import_path) files ≡ some done)
      × All IsParsed done
unfolding each_file
each_file-imports-total import_path [] parsed = ([], refl, tt)
each_file-imports-total import_path (file ∷ files) parsed =
    let (first, found, read) = augment_original_imports-total import_path file parsed.0 in
    let (rest, found_rest, others) = each_file-imports-total import_path files parsed.1 in
    (first ∷ rest, rw found (rw found_rest refl), (read, others))

each_file-total :
    (overrides : Overrides) (files : List File)
    → All IsParsed files
    → Ends (each_file (augment_original_file overrides) files)
unfolding each_file
each_file-total overrides [] parsed = (_, refl)
each_file-total overrides (file ∷ files) parsed =
    >>=-Ends (augment_original_file overrides file) _
      (augment_original_file-total overrides file parsed.0)
      (λ first _.
        >>=-Ends (each_file (augment_original_file overrides) files) _
          (each_file-total overrides files parsed.1) (λ rest _. (_, refl)))

augment_originals-total :
    (overrides : Overrides) (files : List File)
    → All IsParsed files
    → Ends (augment_originals overrides files)
augment_originals-total overrides files parsed = elim (Bool-cases (is_empty overrides)) [
  | inl e ↦ rw e (files, refl)
  | inr e ↦ rw e (each_file-total overrides files parsed)
]

-- On files as the parser reads them, with no nil, receivers that are named, and no two imports of
-- one name in a file: the merge of the overlays and the originals ends without a panic.
pub augment-total :
    (import_path : Bytes) (overlays originals : List File)
    → All IsParsed overlays
    → All IsParsed originals
    → (out : List File) × (augment import_path overlays originals ≡ some out)
unfolding augment
augment-total import_path overlays originals parsed parsed' =
    >>=-Ends (augment_overlay_files overlays []) _ (augment_overlay_files-total overlays [] parsed)
      (λ r _.
        let (files, found, read) = each_file-imports-total import_path originals parsed' in
        >>=-Ends (each_file (augment_original_imports import_path) originals) _ (files, found)
          (λ redirected same.
            >>=-Ends _ _
              (augment_originals-total (remove (codes "init") r.1) redirected
                (subst (All IsParsed) (some_inj (sym found ∙ same)) read))
              (λ done _. (_, refl))))
