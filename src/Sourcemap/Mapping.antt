-- ===== src/Sourcemap/Mapping.antt =====
-- internal/sourcemapx/filter.go: the default callbacks, `normalizePath` and `WriteJS`. Package
-- path/filepath enters as a parameter, and so does esbuild, which `WriteJS` calls for a script that
-- is to be minified or mapped.
use mathlib.Core.List.{foldl}
use mathlib.Core.Option
use gopherjs.Base.{
  ℕ, ◌+◌, Bool, true, false, not, ◌&&◌, Option, none, some, List, [], ◌∷◌, ◌++◌, if◌then◌else◌,
  nat_eq, ltb, length, drop,
}
use gopherjs.Base.Bytes.{Bytes}
use gopherjs.Sourcemap.Hint.{Writer, Gob}
use gopherjs.Sourcemap.Filter.{Position, Mapping, Filter, Outcome, write}

-- strings.HasPrefix
unfoldable pub has_prefix : Bytes → Bytes → Bool
has_prefix file [] = true
has_prefix [] (b ∷ prefix) = false
has_prefix (a ∷ file) (b ∷ prefix) = nat_eq a b && has_prefix file prefix

-- path/filepath, for one operating system
pub record FilePaths : Type 0 where
  pub split_list : Bytes → List Bytes
  pub clean : Bytes → Bytes
  pub to_slash : Bytes → Bytes
  pub base : Bytes → Bytes

-- The source map and the settings of `EnableMapping`.
pub record SourceMap : Type 0 where
  pub mappings : List Mapping
  pub goroot : Bytes
  pub gopath : Bytes
  pub local_map : Bool

module _ (paths : FilePaths) where
  -- the loop over the workspaces; `none` for `false, 0`
  unfoldable pub first_workspace : Bytes → List Bytes → Option ℕ
  unfolding has_prefix
  first_workspace file [] = none
  first_workspace file (workspace ∷ workspaces) =
      let cleaned = paths.clean workspace in
      if has_prefix file cleaned then some (length cleaned) else first_workspace file workspaces

  unfoldable pub has_gopath_prefix : Bytes → Bytes → Option ℕ
  unfolding first_workspace
  has_gopath_prefix file gopath = first_workspace file (paths.split_list gopath)

  -- `filepath.ToSlash(file[n:])`; a slice behind the end of the text panics, which is `none`.
  unfoldable pub slash_from : ℕ → Bytes → Option Bytes
  slash_from n file = if ltb (length file) n then none else some (paths.to_slash (drop n file))

  unfoldable pub normalize_path : SourceMap → Bytes → Option Bytes
  normalize_path m file =
      if m.local_map then some file else elim (has_gopath_prefix file m.gopath) [
        | some prefix_len ↦ slash_from (prefix_len + 4) file
        | none ↦
            if has_prefix file m.goroot
            then slash_from (length m.goroot + 4) file
            else some (paths.base file)
      ]

  abbrev add_mapping : SourceMap → Mapping → SourceMap
  add_mapping m mapping = record m { mappings = m.mappings ++ mapping ∷ [] }

  -- `none` is a panic of `normalizePath`.
  unfoldable pub default_go_mapping_callback :
      ℕ → ℕ → Position → Bytes → SourceMap → Option SourceMap
  default_go_mapping_callback generated_line generated_column original_pos original_name m =
      let blank : Mapping = record {
        generated_line = generated_line;
        generated_column = generated_column;
        original_file = [];
        original_line = 0;
        original_column = 0;
        original_name = original_name;
      } in
      if ltb 0 original_pos.line
      then Option.map
          (λ file. add_mapping m (record {
            generated_line = generated_line;
            generated_column = generated_column;
            original_file = file;
            original_line = original_pos.line;
            original_column = original_pos.column;
            original_name = original_name;
          }))
          (normalize_path m original_pos.filename)
      else some (add_mapping m blank)

  -- `line` and `column` are the filter's.
  unfoldable pub default_js_mapping_callback : ℕ → ℕ → Mapping → SourceMap → Option SourceMap
  default_js_mapping_callback line column isolated m =
      Option.map
        (λ file. add_mapping m (record {
          generated_line = isolated.generated_line + line;
          generated_column =
              if nat_eq isolated.generated_line 0
              then isolated.generated_column + column
              else isolated.generated_column;
          original_file = file;
          original_line = isolated.original_line;
          original_column = isolated.original_column;
          original_name = [];
        }))
        (normalize_path m isolated.original_file)

-- What esbuild's `Transform` produces; `map` is `none` where the source map cannot be read.
pub record Transformed : Type 0 where
  pub code : Bytes
  pub map : Option (List Mapping)

-- The flags are those that `WriteJS` derives its options from; `none` where esbuild reports errors.
pub record Esbuild : Type 0 where
  pub transform : (minify mapped : Bool) (path source : Bytes) → Option Transformed

-- The callback is called with the filter's line and column.
abbrev pub JsCallback : Type 0 → Type 0
JsCallback M = ℕ → ℕ → Mapping → M → M

pub data JsOutcome (W M : Type 0) : Type 0 where
  wrote : Outcome W M → JsOutcome W M
  unreadable_map : Filter W M → JsOutcome W M
  fatal : JsOutcome W M

module _ {W M : Type 0} (out : Writer W) (gob : Gob) (position : ℕ → Position)
    (esbuild : Esbuild) where
  abbrev pub add_mappings : JsCallback M → List Mapping → Filter W M → Filter W M
  add_mappings callback mappings f = record f {
    mapped = foldl (λ m mapping. callback f.line f.column mapping m) f.mapped mappings;
  }

  abbrev write_mapped : JsCallback M → Transformed → Filter W M → JsOutcome W M
  write_mapped callback result f = elim result.map [
    | none ↦ unreadable_map f
    | some mappings ↦ wrote (write out gob position result.code (add_mappings callback mappings f))
  ]

  unfoldable pub write_js :
      Option (JsCallback M) → Bytes → Bytes → Bool → Filter W M → JsOutcome W M
  write_js none js_source js_file_path minify f =
      if not minify
      then wrote (write out gob position js_source f)
      else elim (esbuild.transform minify false js_file_path js_source) [
        | none ↦ fatal
        | some result ↦ wrote (write out gob position result.code f)
      ]
  write_js (some callback) js_source js_file_path minify f =
      elim (esbuild.transform minify true js_file_path js_source) [
        | none ↦ fatal
        | some result ↦ write_mapped callback result f
      ]
