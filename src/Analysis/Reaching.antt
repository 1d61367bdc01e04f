-- ===== src/Analysis/Reaching.antt =====
-- What HasBreak and HasSideEffect look for, said without a walk: the grammar of statements that a
-- `break` of their own ends, and the operations that have an effect.
use gopherjs.Base.{ℕ, Bool, true, false, none, ◌≡◌}
use gopherjs.Analysis.Search.{
  Tree, Forest, node, cons, Node, branch_stmt, for_stmt, range_stmt, switch_stmt, type_switch_stmt,
  select_stmt, call_expr, unary_expr, other_expr, GoType, signature, break_token, arrow,
}

-- A `break` with no label in the body of such a statement ends that statement.
abbrev pub is_breakable : Node → Bool
is_breakable for_stmt = true
is_breakable range_stmt = true
is_breakable switch_stmt = true
is_breakable type_switch_stmt = true
is_breakable select_stmt = true
is_breakable _ = false

abbrev pub is_expression : Node → Bool
is_expression (call_expr fun) = true
is_expression (unary_expr op) = true
is_expression other_expr = true
is_expression _ = false

-- There is a `break` with no label that is neither in a statement that it would end nor in an
-- expression (a function literal).
mutual
  pub data OwnBreak : Tree → Type 0 where
    break_here : (children : Forest) → OwnBreak (node (branch_stmt break_token none) children)
    break_inside :
        (k : Node) (children : Forest)
        → is_breakable k ≡ false
        → is_expression k ≡ false
        → OwnBreakAny children
        → OwnBreak (node k children)

  pub data OwnBreakAny : Forest → Type 0 where
    break_first : (t : Tree) (ts : Forest) → OwnBreak t → OwnBreakAny (cons t ts)
    break_rest : (t : Tree) (ts : Forest) → OwnBreakAny ts → OwnBreakAny (cons t ts)

-- Somewhere in the tree there is a call of what has a signature for its type, or a receive.
module _ (type_of : ℕ → GoType) where
  mutual
    pub data Effect : Tree → Type 0 where
      call_here :
          (fun : ℕ) (children : Forest)
          → type_of fun ≡ signature
          → Effect (node (call_expr fun) children)
      receive_here : (children : Forest) → Effect (node (unary_expr arrow) children)
      effect_inside : (k : Node) (children : Forest) → EffectAny children → Effect (node k children)

    pub data EffectAny : Forest → Type 0 where
      effect_first : (t : Tree) (ts : Forest) → Effect t → EffectAny (cons t ts)
      effect_rest : (t : Tree) (ts : Forest) → EffectAny ts → EffectAny (cons t ts)
