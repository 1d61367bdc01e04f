-- ===== src/Build/Finalize.antt =====
-- build/build.go: `finalizeRemovals`, which takes what has been set to nil out of a file.
use gopherjs.Base.{
  ℕ, Bool, true, false, ◌||◌, Option, none, some, List, [], ◌∷◌, ◌++◌, if◌then◌else◌,
}
use gopherjs.Build.Syntax.{
  CommentGroup, Code, ImportSpec, ValueSpec, Spec, import_spec, type_spec, value_spec, GenDecl,
  Decl, func_decl, gen_decl, File,
}
use gopherjs.Build.Squeeze.{squeeze}

-- A loop that changes the entries of a slice, and notes whether one of them asks for a squeeze.
unfoldable pub visit_slots {ℓ} : {A : Type ℓ} → (A → Bool × A) → List A → Bool × List A
visit_slots f [] = (false, [])
visit_slots f (x ∷ xs) = ((f x).0 || (visit_slots f xs).0, (f x).1 ∷ (visit_slots f xs).1)

unfoldable pub has_nil {ℓ} : {A : Type ℓ} → List (Option A) → Bool
has_nil [] = false
has_nil (none ∷ xs) = true
has_nil (some x ∷ xs) = has_nil xs

abbrev pub is_empty {ℓ} : {A : Type ℓ} → List A → Bool
is_empty [] = true
is_empty (x ∷ xs) = false

unfoldable pub squeeze_value : ValueSpec → ValueSpec
unfolding squeeze
squeeze_value s = record s { names = squeeze s.names; values = squeeze s.values }

abbrev pub without_names : ValueSpec → Bool × Option Spec
without_names s = if is_empty s.names then (true, none) else (false, some (value_spec s))

-- The case for `*ast.ValueSpec`: (declChanged, d.Specs[j])
unfoldable pub finalize_value : ValueSpec → Bool × Option Spec
unfolding has_nil squeeze_value
finalize_value s =
    if has_nil s.names then without_names (squeeze_value s) else (false, some (value_spec s))

unfoldable pub finalize_spec : Option Spec → Bool × Option Spec
unfolding finalize_value
finalize_spec none = (true, none)
finalize_spec (some (value_spec s)) = finalize_value s
finalize_spec (some (import_spec i)) = (false, some (import_spec i))
finalize_spec (some (type_spec s)) = (false, some (type_spec s))

abbrev pub without_specs : GenDecl → Bool × Option Decl
without_specs d = if is_empty d.specs then (true, none) else (false, some (gen_decl d))

-- The case for `*ast.GenDecl`: (fileChanged, file.Decls[i])
unfoldable pub finalize_gen : GenDecl → Bool × Option Decl
unfolding visit_slots finalize_spec squeeze
finalize_gen d =
    let (changed, specs) = visit_slots finalize_spec d.specs in
    if changed
    then without_specs (record d { specs = squeeze specs })
    else (false, some (gen_decl (record d { specs = specs })))

unfoldable pub finalize_decl : Option Decl → Bool × Option Decl
unfolding finalize_gen
finalize_decl none = (true, none)
finalize_decl (some (gen_decl d)) = finalize_gen d
finalize_decl (some (func_decl d)) = (false, some (func_decl d))

-- The comment groups that `ast.Inspect` meets.
unfoldable pub code_groups : List (Option Code) → List CommentGroup
code_groups [] = []
code_groups (none ∷ codes) = code_groups codes
code_groups (some c ∷ codes) = c.groups ++ code_groups codes

abbrev pub inspect_spec : (ℕ → ImportSpec) → Spec → List CommentGroup
inspect_spec cell (import_spec i) = (cell i).groups
inspect_spec cell (type_spec s) = s.doc ++ (s.code.groups ++ s.comment)
inspect_spec cell (value_spec s) =
    s.doc ++ (s.type_code.groups ++ (code_groups s.values ++ s.comment))

unfoldable pub spec_comments : (ℕ → ImportSpec) → List (Option Spec) → List CommentGroup
unfolding code_groups
spec_comments cell [] = []
spec_comments cell (none ∷ specs) = spec_comments cell specs
spec_comments cell (some s ∷ specs) = inspect_spec cell s ++ spec_comments cell specs

unfoldable pub decl_comments : (ℕ → ImportSpec) → List (Option Decl) → List CommentGroup
unfolding spec_comments
decl_comments cell [] = []
decl_comments cell (none ∷ decls) = decl_comments cell decls
decl_comments cell (some (func_decl d) ∷ decls) =
    d.doc ++ (d.signature.code.groups ++ (d.body.groups ++ decl_comments cell decls))
decl_comments cell (some (gen_decl d) ∷ decls) =
    d.doc ++ (spec_comments cell d.specs ++ decl_comments cell decls)

unfoldable pub finalize_removals : File → File
unfolding visit_slots finalize_decl squeeze decl_comments
finalize_removals file =
    let (changed, visited) = visit_slots finalize_decl file.decls in
    let decls = (if changed then squeeze visited else visited) in
    record file {
      decls = decls;
      imports = squeeze file.imports;
      comments = file.doc ++ decl_comments file.cell decls;
    }
