-- ===== src/Linkname/Parse.antt =====
-- compiler/linkname/linkname.go: the directives of a file, and `ImportsUnsafe` of
-- compiler/astutil/astutil.go. Of go/ast a file keeps its imports, its top-level declarations and
-- its comment groups.
use gopherjs.Base.{
  ℕ, Bool, true, false, not, Option, none, some, List, [], ◌∷◌, ◌++◌, ◌==◌, if◌then◌else◌, contains,
  Result, ok, err,
}
use gopherjs.Base.Bytes.{Bytes}
use gopherjs.Base.BytesEq.{Bytes_eq}
use gopherjs.Linkname.Directive.{
  no_unsafe, not_found, not_a_function, has_body, GoLinkname, LinkError, has_prefix, fields,
  read_linkname_from_comment,
}
use gopherjs.Linkname.Mitigated.{is_mitigated_var_linkname, is_mitigated_insert_linkname}

-- ast.Spec: *ast.TypeSpec, *ast.ValueSpec with its names, *ast.ImportSpec
pub data Spec : Type 0 where
  type_spec : Bytes → Spec
  value_spec : List Bytes → Spec
  import_spec : Spec

-- ast.Decl: *ast.GenDecl, *ast.FuncDecl with whether it has a body, *ast.BadDecl
pub data Decl : Type 0 where
  gen_decl : List Spec → Decl
  func_decl : Bytes → Bool → Decl
  bad_decl : Decl

-- ast.Node, as far as `lookupTopNode` returns one
pub data Node : Type 0 where
  spec_node : Spec → Node
  func_node : Bytes → Bool → Node

pub record Comment : Type 0 where
  pub text : Bytes
  pub at : ℕ

pub record File : Type 0 where
  pub imports : List Bytes
  pub decls : List Decl
  pub comments : List (List Comment)

-- "\"unsafe\""
abbrev pub unsafe_path : Bytes
unsafe_path = b'"' ∷ b'u' ∷ b'n' ∷ b's' ∷ b'a' ∷ b'f' ∷ b'e' ∷ b'"' ∷ []

unfoldable pub any_unsafe : List Bytes → Bool
any_unsafe [] = false
any_unsafe (path ∷ rest) = if path == unsafe_path then true else any_unsafe rest

unfoldable pub imports_unsafe : File → Bool
unfolding any_unsafe
imports_unsafe file = any_unsafe file.imports

abbrev pub spec_declares : Bytes → Spec → Bool
spec_declares name (type_spec n) = n == name
spec_declares name (value_spec names) = contains names name
spec_declares name import_spec = false

-- the loop over `d.Specs`
unfoldable pub lookup_spec : Bytes → List Spec → Option Node
lookup_spec name [] = none
lookup_spec name (s ∷ specs) =
    if spec_declares name s then some (spec_node s) else lookup_spec name specs

abbrev or_else : {A : Type 0} → Option A → Option A → Option A
or_else (some a) b = some a
or_else none b = b

-- the loop over `file.Decls`
unfoldable pub lookup_decl : Bytes → List Decl → Option Node
unfolding lookup_spec
lookup_decl name [] = none
lookup_decl name (gen_decl specs ∷ decls) =
    or_else (lookup_spec name specs) (lookup_decl name decls)
lookup_decl name (func_decl n body ∷ decls) =
    if n == name then some (func_node n body) else lookup_decl name decls
lookup_decl name (bad_decl ∷ decls) = lookup_decl name decls

unfoldable pub lookup_top_node : File → Bytes → Option Node
unfolding lookup_decl
lookup_top_node file name = lookup_decl name file.decls

unfoldable pub processed : GoLinkname → Option Node → Result LinkError (Option GoLinkname)
processed link none = err not_found
processed link (some (spec_node s)) =
    if is_mitigated_var_linkname link.reference then ok none else err not_a_function
processed link (some (func_node name true)) =
    if is_mitigated_insert_linkname link.reference then ok none else err has_body
processed link (some (func_node name false)) = ok (some link)

-- `processComment` behind the reading of the comment
unfoldable pub process_link :
    File → Result LinkError (Option GoLinkname) → Result LinkError (Option GoLinkname)
process_link file (err e) = err e
process_link file (ok none) = ok none
process_link file (ok (some link)) =
    if not (imports_unsafe file)
    then err no_unsafe
    else processed link (lookup_top_node file link.reference.name)

unfoldable pub process_comment : Bytes → File → Comment → Result LinkError (Option GoLinkname)
process_comment pkg_path file comment =
    process_link file (read_linkname_from_comment pkg_path comment.text)

-- The variables `directives` and `errs`, the latter with the comments' positions.
pub record Found : Type 0 where
  pub directives : List GoLinkname
  pub errs : List (ℕ × LinkError)

abbrev pub noted : ℕ → Result LinkError (Option GoLinkname) → Found → Found
noted at (err e) found = record found { errs = found.errs ++ (at, e) ∷ [] }
noted at (ok none) found = found
noted at (ok (some link)) found = record found { directives = found.directives ++ link ∷ [] }

unfoldable pub parse_group : Bytes → File → List Comment → Found → Found
parse_group pkg_path file [] found = found
parse_group pkg_path file (c ∷ group) found =
    parse_group pkg_path file group (noted c.at (process_comment pkg_path file c) found)

unfoldable pub parse_groups : Bytes → File → List (List Comment) → Found → Found
parse_groups pkg_path file [] found = found
parse_groups pkg_path file (group ∷ groups) found =
    parse_groups pkg_path file groups (parse_group pkg_path file group found)

unfoldable pub parse_go_linknames : Bytes → File → Found
unfolding parse_groups parse_group process_comment process_link processed imports_unsafe
    lookup_top_node read_linkname_from_comment has_prefix fields is_mitigated_var_linkname
    is_mitigated_insert_linkname
parse_go_linknames pkg_path file =
    parse_groups pkg_path file file.comments (record { directives = []; errs = [] })
