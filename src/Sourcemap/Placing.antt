-- ===== src/Sourcemap/Placing.antt =====
-- Where `defaultJSMappingCallback` puts a mapping, and which part of a path `normalizePath` keeps.

use mathlib.Core.Option
use gopherjs.Base.{
  ◌↔◌, ◌⊎◌, ◌≢◌, ℕ, ◌+◌, true, false, none, some, List, [], ◌∷◌, ◌++◌, ◌≡◌, if◌then◌else◌, nat_eq,
  nat_eq_iff, length, drop, arith, refl, ap, ◌∙◌, length-append, drop-append_add, drop-append,
}
use gopherjs.Base.Bytes.{Bytes}
use gopherjs.Sourcemap.Filter.{Mapping}
use gopherjs.Sourcemap.Lines.{place_after, next_place}
use gopherjs.Sourcemap.Mapping.{
  SourceMap, FilePaths, has_prefix, has_gopath_prefix, first_workspace, slash_from, normalize_path,
  default_js_mapping_callback,
}

-- the adjustment of a generated place
abbrev pub shifted : ℕ × ℕ → ℕ × ℕ → ℕ × ℕ
shifted (line, column) (isolated_line, isolated_column) = (
  isolated_line + line,
  if nat_eq isolated_line 0 then isolated_column + column else isolated_column,
)

shifted-next_place :
    (start place : ℕ × ℕ) (b : ℕ)
    → next_place (shifted start place) b ≡ shifted start (next_place place b)
shifted-next_place start place b = ground arith

shifted-place_after :
    (start place : ℕ × ℕ) (w : Bytes)
    → place_after (shifted start place) w ≡ shifted start (place_after place w)
shifted-place_after start place [] = refl
shifted-place_after start place (b ∷ w) =
    ap (λ p. place_after p w) (shifted-next_place start place b)
    ∙ shifted-place_after start (next_place place b) w

column_right :
    (first l c column : ℕ)
    → ((if nat_eq (first + l) 0 then c + column else c) ≡ (if nat_eq l 0 then c + column else c))
      ↔ ((first ≡ 0) ⊎ ((column ≡ 0) ⊎ (l ≢ 0)))
column_right first l c column = (λ h. ground (arith, h), λ h. ground (arith, h))

has_prefix-append : (prefix rest : Bytes) → has_prefix (prefix ++ rest) prefix ≡ true
unfolding has_prefix
has_prefix-append [] rest = ground arith
has_prefix-append (b ∷ prefix) rest = ground (arith, has_prefix-append prefix rest, nat_eq_iff b b)

module _ (paths : FilePaths) where
  first_workspace-append :
      (file : Bytes) (before : List Bytes) (workspace : Bytes) (after : List Bytes)
      → first_workspace paths file before ≡ none
      → has_prefix file (paths.clean workspace) ≡ true
      → first_workspace paths file (before ++ workspace ∷ after)
        ≡ some (length (paths.clean workspace))
  unfolding first_workspace
  first_workspace-append file [] workspace after h p = ground arith
  first_workspace-append file (x ∷ before) workspace after h p =
      ground (arith, first_workspace-append file before workspace after)

  -- A mapping of a script on its own, at the place where its first bytes `w` end and with lines that
  -- count from `first`, is recorded on the line on which the same bytes end behind what the filter
  -- has written so far, counted from `first` too, with the normalized file and without the name. Its
  -- column is the one at which these bytes end there exactly when `first` is 0, the script starts
  -- at the start of a line, or `w` has the end of a line.
  pub js_mapping-place :
      (line column first : ℕ) (w file : Bytes) (isolated : Mapping) (m : SourceMap)
      → isolated.generated_line ≡ first + (place_after (0, 0) w).0
      → isolated.generated_column ≡ (place_after (0, 0) w).1
      → normalize_path paths m isolated.original_file ≡ some file
      → (recorded : ℕ) × (default_js_mapping_callback paths line column isolated m
          ≡ some (record m {
            mappings =
                m.mappings
                ++ record {
                  generated_line = first + (place_after (line, column) w).0;
                  generated_column = recorded;
                  original_file = file;
                  original_line = isolated.original_line;
                  original_column = isolated.original_column;
                  original_name = [];
                }
                  ∷ [];
          }))
        × ((recorded ≡ (place_after (line, column) w).1)
            ↔ ((first ≡ 0) ⊎ ((column ≡ 0) ⊎ ((place_after (0, 0) w).0 ≢ 0))))
  unfolding default_js_mapping_callback
  js_mapping-place line column first w file isolated m at_line at_column normalized =
      let (l, c) = place_after (0, 0) w in
      let moved : place_after (line, column) w ≡ shifted (line, column) (l, c) =
        ap (λ p. place_after p w) (ground arith) ∙ shifted-place_after (line, column) (0, 0) w in
      let lines : first + l + line ≡ first + (l + line) = omega arith in
      (
        if nat_eq (first + l) 0 then c + column else c,
        rw (moved, normalized, at_line, at_column, Option.map, lines) refl,
        rw moved (column_right first l c column),
      )

  slash_from-split :
      (workspace four rest : Bytes)
      → length four ≡ 4
      → slash_from paths (length workspace + 4) (workspace ++ (four ++ rest))
        ≡ some (paths.to_slash rest)
  unfolding slash_from
  slash_from-split workspace four rest size =
      let dropped : drop (length workspace + 4) (workspace ++ (four ++ rest)) ≡ rest =
        rw (← size)
          (drop-append_add (length four) workspace (four ++ rest) ∙ drop-append four rest) in
      ground (arith, dropped, length-append workspace (four ++ rest), length-append four rest)

  has_gopath_prefix-eq :
      (m : SourceMap) (before : List Bytes) (workspace : Bytes) (after : List Bytes)
      (four rest : Bytes)
      → paths.split_list m.gopath ≡ before ++ workspace ∷ after
      → first_workspace paths (paths.clean workspace ++ (four ++ rest)) before ≡ none
      → has_gopath_prefix paths (paths.clean workspace ++ (four ++ rest)) m.gopath
        ≡ some (length (paths.clean workspace))
  unfolding has_gopath_prefix
  has_gopath_prefix-eq m before workspace after four rest list none_before = rw list (
      first_workspace-append (paths.clean workspace ++ (four ++ rest)) before workspace after
        none_before (has_prefix-append (paths.clean workspace) (four ++ rest)))

  -- Under GOPATH the file keeps what stands behind the workspace and four more bytes, which are
  -- "/src": that workspace is the first of the list that the file begins with.
  pub normalize_path-workspace :
      (m : SourceMap) (before : List Bytes) (workspace : Bytes) (after : List Bytes)
      (four rest : Bytes)
      → m.local_map ≡ false
      → paths.split_list m.gopath ≡ before ++ workspace ∷ after
      → first_workspace paths (paths.clean workspace ++ (four ++ rest)) before ≡ none
      → length four ≡ 4
      → normalize_path paths m (paths.clean workspace ++ (four ++ rest))
        ≡ some (paths.to_slash rest)
  unfolding normalize_path
  normalize_path-workspace m before workspace after four rest global list none_before size =
      let found = has_gopath_prefix-eq m before workspace after four rest list none_before in
      rw (global, normalize_path)
        (rw (found, normalize_path) (slash_from-split (paths.clean workspace) four rest size))
