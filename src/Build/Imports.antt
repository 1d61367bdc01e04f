-- ===== src/Build/Imports.antt =====
-- build/build.go: `isOnlyImports`, `pruneImports` and `augmentOriginalImports`, with `ImportName` of
-- compiler/astutil/astutil.go. `none` is a panic. The path of an import is the text that
-- `strconv.Unquote` reads from its literal.
use gopherjs.Base.{
  ℕ, suc, Bool, true, false, not, ◌&&◌, Option, none, some, List, [], ◌∷◌, ◌++◌, ◌==◌, nat_eq,
  if◌then◌else◌, get_elem?, set, contains, ℕ_eq, drop,
}
use gopherjs.Base.Assoc.{Assoc, put, remove}
use gopherjs.Base.Bytes.{Bytes, codes}
use gopherjs.Base.BytesEq.{Bytes_eq}
use gopherjs.Base.Options.{◌>>=◌}
use gopherjs.Build.Syntax.{
  CommentGroup, Code, SelectorExpr, ImportSpec, Spec, import_spec, type_spec, value_spec,
  import_token, Decl, func_decl, gen_decl, File,
}
use gopherjs.Build.Directives.{has_directive_prefix}
use gopherjs.Build.Finalize.{finalize_removals, is_empty}
use gopherjs.Linkname.Directive.{last_index_byte, after_slash}

-- path.Base: the trailing slashes are cut, then what stands up to the last slash.
unfoldable pub trim_slashes : Bytes → Bytes
trim_slashes [] = []
trim_slashes (c ∷ path) =
    let rest = trim_slashes path in if is_empty rest && nat_eq c b'/' then [] else c ∷ rest

unfoldable pub base_of : Bytes → Bytes
unfolding trim_slashes last_index_byte
base_of [] = b'.' ∷ []
base_of (c ∷ path) =
    let trimmed = trim_slashes (c ∷ path) in
    if is_empty trimmed
    then b'/' ∷ []
    else drop (after_slash (last_index_byte trimmed b'/')) trimmed

abbrev pub declared_name : ImportSpec → Option Bytes → Bytes
declared_name spec none = base_of spec.path
declared_name spec (some name) = name

abbrev pub nameless : List Bytes
nameless = (b'_' ∷ []) ∷ (b'.' ∷ []) ∷ (b'/' ∷ []) ∷ []

unfoldable pub import_name : ImportSpec → Bytes
unfolding base_of
import_name spec =
    let name = declared_name spec spec.name in if contains nameless name then [] else name

abbrev pub is_import_decl : Option Decl → Bool
is_import_decl (some (gen_decl d)) = elim d.token [ import_token ↦ true | _ ↦ false ]
is_import_decl _ = false

unfoldable pub all_imports : List (Option Decl) → Bool
all_imports [] = true
all_imports (d ∷ decls) = is_import_decl d && all_imports decls

unfoldable pub is_only_imports : File → Bool
unfolding all_imports
is_only_imports file = all_imports file.decls

-- `unused` after the first loop, from the import with the given index on
unfoldable pub collect_unused :
    (ℕ → ImportSpec) → ℕ → List (Option ℕ) → Assoc Bytes ℕ → Option (Assoc Bytes ℕ)
collect_unused cell i [] unused = some unused
collect_unused cell i (none ∷ imports) unused = none
collect_unused cell i (some spec ∷ imports) unused =
    let name = import_name (cell spec) in
    collect_unused cell (suc i) imports (if is_empty name then unused else put name i unused)

unfoldable pub values_selectors : List (Option Code) → List SelectorExpr
values_selectors [] = []
values_selectors (none ∷ codes) = values_selectors codes
values_selectors (some c ∷ codes) = c.selectors ++ values_selectors codes

abbrev pub spec_selectors : Spec → List SelectorExpr
spec_selectors (import_spec i) = []
spec_selectors (type_spec s) = s.code.selectors
spec_selectors (value_spec s) = s.type_code.selectors ++ values_selectors s.values

unfoldable pub specs_selectors : List (Option Spec) → List SelectorExpr
unfolding values_selectors
specs_selectors [] = []
specs_selectors (none ∷ specs) = specs_selectors specs
specs_selectors (some s ∷ specs) = spec_selectors s ++ specs_selectors specs

-- The selectors that `ast.Inspect` meets.
unfoldable pub decls_selectors : List (Option Decl) → List SelectorExpr
unfolding specs_selectors
decls_selectors [] = []
decls_selectors (none ∷ decls) = decls_selectors decls
decls_selectors (some (func_decl d) ∷ decls) =
    d.signature.code.selectors ++ (d.body.selectors ++ decls_selectors decls)
decls_selectors (some (gen_decl d) ∷ decls) = specs_selectors d.specs ++ decls_selectors decls

-- The walk stops early once nothing is unused, when there is nothing left to delete either.
unfoldable pub delete_used : List SelectorExpr → Assoc Bytes ℕ → Assoc Bytes ℕ
delete_used [] unused = unused
delete_used (sel ∷ selectors) unused =
    delete_used selectors (if sel.bound then unused else remove sel.base unused)

-- directiveImports
unfoldable pub directive_import : Bytes → Option Bytes
directive_import path =
    if path == codes "unsafe"
    then some (codes "//go:linkname ")
    else if path == codes "embed"
    then some (codes "//go:embed ")
    else none

abbrev pub is_directive_import : List CommentGroup → Option Bytes → Bool
is_directive_import comments none = false
is_directive_import comments (some prefix) = has_directive_prefix prefix comments

abbrev pub at_address : (ℕ → ImportSpec) → ℕ → ImportSpec → ℕ → ImportSpec
at_address cell i spec j = if nat_eq i j then spec else cell j

abbrev pub blanked : ImportSpec → ImportSpec
blanked spec = record spec { name = some (b'_' ∷ []) }

-- file.Imports[index], which is there and not nil
abbrev pub import_at : List (Option ℕ) → ℕ → Option ℕ
import_at imports index = get_elem? imports index >>= (λ slot. slot)

-- The loop over `unused` that keeps the imports of directives.
unfoldable pub blank_directives :
    List CommentGroup
    → List (Option ℕ)
    → Assoc Bytes ℕ
    → (ℕ → ImportSpec)
    → Option ((ℕ → ImportSpec) × Assoc Bytes ℕ)
blank_directives comments imports [] cell = some (cell, [])
blank_directives comments imports ((name, index) ∷ unused) cell = import_at imports index >>= (λ i.
    elim (is_directive_import comments (directive_import (cell i).path)) [
      | true ↦ blank_directives comments imports unused (at_address cell i (blanked (cell i)))
      | false ↦
          blank_directives comments imports unused cell >>= (λ r. some (r.0, (name, index) ∷ r.1))
    ])

-- The addresses of the specifications that are unused.
unfoldable pub unused_specs : List (Option ℕ) → Assoc Bytes ℕ → Option (List ℕ)
unused_specs imports [] = some []
unused_specs imports ((name, index) ∷ unused) =
    import_at imports index >>= (λ i. unused_specs imports unused >>= (λ rest. some (i ∷ rest)))

abbrev pub without_unused : List ℕ → Option Spec → Option Spec
without_unused unused (some (import_spec i)) =
    if contains unused i then none else some (import_spec i)
without_unused unused slot = slot

unfoldable pub remove_specs : List ℕ → List (Option Spec) → List (Option Spec)
remove_specs unused [] = []
remove_specs unused (s ∷ specs) = without_unused unused s ∷ remove_specs unused specs

unfoldable pub remove_imports : List ℕ → List (Option Decl) → List (Option Decl)
unfolding remove_specs
remove_imports unused [] = []
remove_imports unused (some (gen_decl d) ∷ decls) =
    some (gen_decl (record d { specs = remove_specs unused d.specs })) ∷ remove_imports unused decls
remove_imports unused (d ∷ decls) = d ∷ remove_imports unused decls

-- file.Imports[index] = nil for the unused ones
unfoldable pub clear_imports : Assoc Bytes ℕ → List (Option ℕ) → List (Option ℕ)
clear_imports [] imports = imports
clear_imports ((name, index) ∷ unused) imports = clear_imports unused (set imports index none)

unfoldable pub drop_unused : File → Assoc Bytes ℕ → Option File
drop_unused file unused =
    if is_empty unused
    then some file
    else unused_specs file.imports unused >>= (λ specs. some (
        finalize_removals (record file {
          decls = remove_imports specs file.decls;
          imports = clear_imports unused file.imports;
        })))

unfoldable pub prune_used : File → Assoc Bytes ℕ → Option File
prune_used file unused =
    if is_empty unused
    then some file
    else blank_directives file.comments file.imports unused file.cell
      >>= (λ r. drop_unused (record file { cell = r.0 }) r.1)

unfoldable pub prune_imports : File → Option File
unfolding is_only_imports has_directive_prefix collect_unused delete_used decls_selectors prune_used
    import_name put remove blank_directives directive_import drop_unused unused_specs remove_imports
    clear_imports finalize_removals
prune_imports file =
    if is_only_imports file && not (has_directive_prefix (codes "//go:linkname ") file.comments)
    then some (record file { imports = []; decls = [] })
    else collect_unused file.cell 0 file.imports []
      >>= (λ unused. prune_used file (delete_used (decls_selectors file.decls) unused))

-- The packages whose uses of sync are turned to nosync.
abbrev pub nosync_packages : List Bytes
nosync_packages =
    codes "crypto/rand"
    ∷ codes "encoding/gob"
    ∷ codes "encoding/json"
    ∷ codes "expvar"
    ∷ codes "go/token"
    ∷ codes "log"
    ∷ codes "math/big"
    ∷ codes "math/rand"
    ∷ codes "regexp"
    ∷ codes "time"
    ∷ []

abbrev pub name_or : Bytes → Option Bytes → Option Bytes
name_or name none = some name
name_or name (some given) = some given

abbrev pub to_nosync : ImportSpec → ImportSpec
to_nosync spec =
    if spec.path == codes "sync"
    then record spec {
      name = name_or (codes "sync") spec.name;
      path = codes "github.com/gopherjs/gopherjs/nosync";
    }
    else spec

unfoldable pub redirect_imports : List (Option ℕ) → (ℕ → ImportSpec) → Option (ℕ → ImportSpec)
redirect_imports [] cell = some cell
redirect_imports (none ∷ imports) cell = none
redirect_imports (some i ∷ imports) cell =
    redirect_imports imports (at_address cell i (to_nosync (cell i)))

unfoldable pub augment_original_imports : Bytes → File → Option File
unfolding redirect_imports
augment_original_imports import_path file =
    if contains nosync_packages import_path
    then redirect_imports file.imports file.cell >>= (λ cell. some (record file { cell = cell }))
    else some file
