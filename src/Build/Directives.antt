-- ===== src/Build/Directives.antt =====
-- compiler/astutil/astutil.go: the `//gopherjs:` directives of the native overlays, and the names
-- of functions.
use gopherjs.Base.{
  ℕ, Bool, false, ◌||◌, ◌&&◌, Option, none, some, List, [], ◌∷◌, ◌++◌, ◌==◌, nat_eq, leb,
  if◌then◌else◌,
}
use gopherjs.Base.Bytes.{Bytes, codes}
use gopherjs.Base.BytesEq.{Bytes_eq}
use gopherjs.Base.Options.{◌>>=◌}
use gopherjs.Build.Syntax.{
  CommentGroup, RecvType, index_list_expr, index_expr, star_expr, ident, other_expr, FuncDecl, Decl,
  func_decl, gen_decl, ImportSpec, Spec, import_spec, type_spec, value_spec,
}
use gopherjs.Linkname.Directive.{has_prefix}

-- [\w-]
abbrev pub is_action_char : ℕ → Bool
is_action_char c =
    leb b'a' c && leb c b'z'
    || leb b'A' c && leb c b'Z'
    || leb b'0' c && leb c b'9'
    || nat_eq c b'_'
    || nat_eq c b'-'

-- The longest match of [\w-]*.
unfoldable pub action_of : Bytes → Bytes
action_of [] = []
action_of (c ∷ text) = if is_action_char c then c ∷ action_of text else []

abbrev pub directive_prefix : Bytes
directive_prefix = codes "gopherjs:"

-- The text behind a prefix.
unfoldable pub strip_prefix : Bytes → Bytes → Option Bytes
strip_prefix [] text = some text
strip_prefix (b ∷ prefix) [] = none
strip_prefix (b ∷ prefix) (c ∷ text) = if nat_eq b c then strip_prefix prefix text else none

abbrev pub one_or_more : Bytes → Option Bytes
one_or_more [] = none
one_or_more (c ∷ action) = some (c ∷ action)

-- `directiveMatcher.FindStringSubmatch(text)[1]`
unfoldable pub directive_action : Bytes → Option Bytes
unfolding strip_prefix action_of
directive_action (slash ∷ mark ∷ text) =
    if nat_eq slash b'/' && (nat_eq mark b'/' || nat_eq mark b'*')
    then strip_prefix directive_prefix text >>= (λ rest. one_or_more (action_of rest))
    else none
directive_action _ = none

abbrev pub is_action : Bytes → Option Bytes → Bool
is_action action none = false
is_action action (some found) = found == action

unfoldable pub group_has_directive : Bytes → CommentGroup → Bool
unfolding directive_action
group_has_directive action [] = false
group_has_directive action (text ∷ group) =
    is_action action (directive_action text) || group_has_directive action group

-- `hasDirective` of a node, which looks into the comment groups that hang on the node itself.
unfoldable pub has_directive : Bytes → List CommentGroup → Bool
unfolding group_has_directive
has_directive action [] = false
has_directive action (group ∷ groups) =
    group_has_directive action group || has_directive action groups

unfoldable pub keeps_original : FuncDecl → Bool
unfolding has_directive
keeps_original d = has_directive (codes "keep-original") d.doc

unfoldable pub overrides_signature : FuncDecl → Bool
unfolding has_directive
overrides_signature d = has_directive (codes "override-signature") d.doc

unfoldable pub purge_decl : Decl → Bool
unfolding has_directive
purge_decl (func_decl d) = has_directive (codes "purge") d.doc
purge_decl (gen_decl d) = has_directive (codes "purge") d.doc

-- The comment groups of a specification: its doc, and the comment behind it.
abbrev pub spec_groups : (ℕ → ImportSpec) → Spec → List CommentGroup
spec_groups cell (import_spec i) = (cell i).groups
spec_groups cell (type_spec s) = s.doc ++ s.comment
spec_groups cell (value_spec s) = s.doc ++ s.comment

unfoldable pub purge_spec : (ℕ → ImportSpec) → Spec → Bool
unfolding has_directive
purge_spec cell s = has_directive (codes "purge") (spec_groups cell s)

-- `HasDirectivePrefix`, over `File.Comments`
unfoldable pub group_has_prefix : Bytes → CommentGroup → Bool
unfolding has_prefix
group_has_prefix prefix [] = false
group_has_prefix prefix (text ∷ group) = has_prefix text prefix || group_has_prefix prefix group

unfoldable pub has_directive_prefix : Bytes → List CommentGroup → Bool
unfolding group_has_prefix
has_directive_prefix prefix [] = false
has_directive_prefix prefix (group ∷ groups) =
    group_has_prefix prefix group || has_directive_prefix prefix groups

-- The loop of `FuncReceiverKey`; `none` is its panic.
unfoldable pub receiver_name : RecvType → Option Bytes
receiver_name (index_list_expr r) = receiver_name r
receiver_name (index_expr r) = receiver_name r
receiver_name (star_expr r) = receiver_name r
receiver_name (ident name) = some name
receiver_name other_expr = none

abbrev pub first_receiver : List RecvType → Option Bytes
first_receiver [] = some []
first_receiver (r ∷ rest) = receiver_name r

-- `FuncReceiverKey`
unfoldable pub func_receiver_key : FuncDecl → Option Bytes
unfolding receiver_name
func_receiver_key d = first_receiver d.signature.recv

abbrev pub qualified : Bytes → Bytes → Bytes
qualified [] name = name
qualified (c ∷ recv) name = (c ∷ recv) ++ b'.' ∷ name

-- `FuncKey`
unfoldable pub func_key : FuncDecl → Option Bytes
unfolding func_receiver_key
func_key d = func_receiver_key d >>= (λ recv_key. some (qualified recv_key d.name))
