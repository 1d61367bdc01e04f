-- ===== src/Analysis/Search.antt =====
-- compiler/internal/analysis/break.go and sideeffect.go: the walks that look for one node. Of the
-- syntax tree the model keeps, at each node, its type with the fields that `Visit` reads, and the
-- children in the order of `ast.Walk`.
use gopherjs.Base.{ℕ, Bool, true, false, not, ◌&&◌, Option, if◌then◌else◌}
use gopherjs.Base.Options.{is_some}

-- go/token: the tokens that Go's branch statements have, the arrow, and the rest by their numbers.
pub data Token : Type 0 where
  break_token continue_token goto_token fallthrough_token : Token
  arrow : Token
  other_token : ℕ → Token

-- The nodes of go/ast. The label of a branch statement may be nil; a call has the number by which
-- the type information knows its `Fun`. `other_expr` is any other expression and `other_node` any
-- other node.
pub data Node : Type 0 where
  branch_stmt : Token → Option ℕ → Node
  for_stmt range_stmt switch_stmt type_switch_stmt select_stmt : Node
  call_expr : ℕ → Node
  unary_expr : Token → Node
  other_expr other_node : Node

-- The implementations of types.Type; `TypeOf` gives nil for what it does not know.
pub data GoType : Type 0 where
  nil_type alias array basic chan_type interface map_type named pointer signature slice : GoType
  struct tuple type_param union : GoType

mutual
  pub data Tree : Type 0 where
    node : Node → Forest → Tree

  pub data Forest : Type 0 where
    nil : Forest
    cons : Tree → Forest → Forest

-- What `Visit` does at a node, when nothing has been found yet: it finds, returns nil, or itself.
pub data Visit : Type 0 where
  found skip descend : Visit

abbrev pub is_break : Token → Bool
is_break break_token = true
is_break _ = false

abbrev pub is_arrow : Token → Bool
is_arrow arrow = true
is_arrow _ = false

-- the type assertion to *types.Signature
abbrev pub is_signature : GoType → Bool
is_signature signature = true
is_signature _ = false

abbrev pub break_visit : Node → Visit
break_visit (branch_stmt tok label) = if is_break tok && not (is_some label) then found else descend
break_visit for_stmt = skip
break_visit range_stmt = skip
break_visit switch_stmt = skip
break_visit type_switch_stmt = skip
break_visit select_stmt = skip
break_visit (call_expr fun) = skip
break_visit (unary_expr op) = skip
break_visit other_expr = skip
break_visit other_node = descend

-- `type_of` is `info.TypeOf` on the number of an expression.
module _ (type_of : ℕ → GoType) where
  abbrev pub effect_visit : Node → Visit
  effect_visit (call_expr fun) = if is_signature (type_of fun) then found else descend
  effect_visit (unary_expr op) = if is_arrow op then found else descend
  effect_visit _ = descend

module _ (visit : Node → Visit) where
  -- `ast.Walk` with the flag of the visitor
  unfoldable mutual
    pub walk : Tree → Bool → Bool
    walk (node k children) true = true
    walk (node k children) false = elim (visit k) [
      | found ↦ true
      | skip ↦ false
      | descend ↦ walk_all children false
    ]

    pub walk_all : Forest → Bool → Bool
    walk_all nil flag = flag
    walk_all (cons t ts) flag = walk_all ts (walk t flag)

unfoldable pub has_break : Tree → Bool
unfolding walk walk_all
has_break n = walk break_visit n false

unfoldable pub has_side_effect : Tree → (ℕ → GoType) → Bool
unfolding walk walk_all
has_side_effect n type_of = walk (effect_visit type_of) n false
