-- ===== src/Build/Overlay.antt =====
-- build/build.go: `overrideInfo` and `augmentOverlayFile`, which reads the directives of an overlay
-- file. `none` is a panic.
use gopherjs.Base.{ℕ, Bool, true, false, ◌||◌, Option, none, some, List, [], ◌∷◌, if◌then◌else◌}
use gopherjs.Base.Assoc.{Assoc, put}
use gopherjs.Base.Bytes.{Bytes}
use gopherjs.Base.BytesEq.{Bytes_eq}
use gopherjs.Base.Options.{◌>>=◌}
use gopherjs.Build.Syntax.{
  FuncDecl, ImportSpec, Spec, import_spec, type_spec, value_spec, Decl, func_decl, gen_decl, File,
}
use gopherjs.Build.Directives.{keeps_original, overrides_signature, func_key}
use gopherjs.Build.Directives
use gopherjs.Build.Finalize.{finalize_removals}
use gopherjs.Build.Imports.{prune_imports}

pub record OverrideInfo : Type 0 where
  pub keep_original : Bool
  pub purge_methods : Bool
  pub override_signature : Option FuncDecl

abbrev pub plain_info : OverrideInfo
plain_info = record { keep_original = false; purge_methods = false; override_signature = none }

abbrev pub Overrides : Type 0
Overrides = Assoc Bytes OverrideInfo

-- What the loop over a slice leaves: whether it changed something, its entries, the overrides.
abbrev pub Loop : Type 0 → Type 0
Loop A = Option (Bool × List (Option A) × Overrides)

-- One entry of the slice: whether it is purged, and the overrides.
abbrev pub Step : Type 0 → Type 0
Step A = Option (Bool × Option A × Overrides)

unfoldable pub each :
    {A : Type 0} → (Option A → Overrides → Step A) → List (Option A) → Overrides → Loop A
each f [] overrides = some (false, [], overrides)
each f (x ∷ xs) overrides =
    f x overrides >>= (λ r. each f xs r.2 >>= (λ rest. some (r.0 || rest.0, r.1 ∷ rest.1, rest.2)))

abbrev pub function_info : FuncDecl → OverrideInfo
function_info d = record {
  keep_original = keeps_original d;
  purge_methods = false;
  override_signature = if overrides_signature d then some d else none;
}

abbrev pub type_info : Bool → OverrideInfo
type_info purged = record plain_info { purge_methods = purged }

unfoldable pub add_names : List (Option Bytes) → Overrides → Option Overrides
unfolding put
add_names [] overrides = some overrides
add_names (none ∷ names) overrides = none
add_names (some name ∷ names) overrides = add_names names (put name plain_info overrides)

abbrev pub unless_purged : {A : Type 0} → Bool → A → Option A
unless_purged purged a = if purged then none else some a

-- The body of the loop over `d.Specs`, with `purgeDecl`.
unfoldable pub overlay_spec : (ℕ → ImportSpec) → Bool → Option Spec → Overrides → Step Spec
unfolding put add_names Directives.purge_spec
overlay_spec cell purge_decl none overrides =
    if purge_decl then some (true, none, overrides) else none
overlay_spec cell purge_decl (some (import_spec i)) overrides =
    let purged = purge_decl || Directives.purge_spec cell (import_spec i) in
    some (purged, unless_purged purged (import_spec i), overrides)
overlay_spec cell purge_decl (some (type_spec s)) overrides =
    let purged = purge_decl || Directives.purge_spec cell (type_spec s) in
    some (purged, unless_purged purged (type_spec s), put s.name (type_info purged) overrides)
overlay_spec cell purge_decl (some (value_spec s)) overrides =
    let purged = purge_decl || Directives.purge_spec cell (value_spec s) in
    add_names s.names overrides
    >>= (λ added. some (purged, unless_purged purged (value_spec s), added))

-- The body of the loop over `file.Decls`.
unfoldable pub overlay_decl : (ℕ → ImportSpec) → Option Decl → Overrides → Step Decl
unfolding each overlay_spec func_key keeps_original overrides_signature put Directives.purge_decl
overlay_decl cell none overrides = none
overlay_decl cell (some (func_decl d)) overrides =
    let purged = Directives.purge_decl (func_decl d) || overrides_signature d in
    func_key d
    >>= (λ k. some (purged, unless_purged purged (func_decl d), put k (function_info d) overrides))
overlay_decl cell (some (gen_decl d)) overrides =
    let purged = Directives.purge_decl (gen_decl d) in
    each (overlay_spec cell purged) d.specs overrides
    >>= (λ r. some (purged || r.0, unless_purged purged (gen_decl (record d { specs = r.1 })), r.2))

unfoldable pub finalize_changed : Bool → File → Option File
unfolding finalize_removals prune_imports
finalize_changed any_change file =
    if any_change then prune_imports (finalize_removals file) else some file

unfoldable pub augment_overlay_file : File → Overrides → Option (File × Overrides)
unfolding each overlay_decl finalize_changed
augment_overlay_file file overrides =
    each (overlay_decl file.cell) file.decls overrides
    >>= (λ r. finalize_changed r.0 (record file { decls = r.1 }) >>= (λ done. some (done, r.2)))
