-- ===== src/Analysis/Examples.antt =====
-- Tests and concrete instances for the analysis.
use gopherjs.Base.{
  if◌then◌else◌, ℕ, Bool, true, false, not, none, some, List, [], ◌∷◌, ◌≡◌, ◌↔◌, ℕ_eq, nat_eq,
  nat_eq_iff, arith, refl,
}
use gopherjs.Base.Assoc.{lookup}
use gopherjs.Analysis.Info.{
  AstPath, FuncInfo, Heap, Info, Program, blocking_defer, nonempty, func_blocking, func_info,
  resolve, write,
}
use gopherjs.Analysis.Propagate.{propagate}
use gopherjs.Analysis.MayBlock.{Listed, here, later, MayBlock}
use gopherjs.Analysis.Invariant.{write-all}
use gopherjs.Analysis.Entries.{AllEntries}
use gopherjs.Analysis.Absorbing.{filled}
use gopherjs.Analysis.Statements.{FuncDone}
use gopherjs.Analysis.Propagated.{IsAnalyzed}
use gopherjs.Analysis.Whole.{FuncCalls, propagate_analysis-exact}
use gopherjs.Analysis.Statements.{FuncDone}
use gopherjs.Analysis.Control.{propagate_analysis}
use gopherjs.Analysis.BoolValue.{
  Expr, Run, bool, land, not_op, binary, unary, leaf, bool_value, run, bool_value-run,
}
use gopherjs.Analysis.Search.{
  Tree, node, nil, cons, branch_stmt, select_stmt, call_expr, other_expr, other_node, break_token,
  GoType, signature, named, has_break, has_side_effect, walk, walk_all,
}
use gopherjs.Analysis.Reaching.{OwnBreak, Effect}
use gopherjs.Analysis.Searching.{has_break_iff}

abbrev quiet_func : FuncInfo
quiet_func = record {
  flattened = [];
  blocking = [];
  goto_label = [];
  continue_stmts = [];
  return_stmts = [];
  defer_stmts = [];
  inst_callees = [];
  literal_func_callees = [];
}

-- Function 0 calls instance 11, which is function 1; and that receives from a channel at node 8,
-- in a defer that its return at node 9 runs.
abbrev caller : FuncInfo
caller = record quiet_func { inst_callees = (11, (5 ∷ 6 ∷ []) ∷ []) ∷ [] }

abbrev receiver : FuncInfo
receiver = record quiet_func {
  blocking = 8 ∷ [];
  return_stmts = record { analyze_stack = 7 ∷ 9 ∷ []; defer_stmts = blocking_defer ∷ [] } ∷ [];
}

abbrev cells : Heap
cells = write 0 caller (write 1 receiver (λ p. quiet_func))

abbrev main_package : Info
main_package = record {
  pkg = 0;
  all_infos = 0 ∷ 1 ∷ [];
  func_inst_infos = (11, 1) ∷ [];
  func_lit_infos = [];
}

abbrev program : Program
program = record { pkg_of = λ inst. 0; import_info = λ path. none; type_args = λ p. 0 }

abbrev packages : List Info
packages = main_package ∷ []

only_main : (info : Info) (p : ℕ) → Listed info p packages → info ≡ main_package
only_main info p (here _ c) = refl
only_main info p (later _ _ l) = elim l [ ]

calls_eleven :
    (p c : ℕ) (t : List AstPath) → lookup c (cells p).inst_callees ≡ some t → nat_eq 11 c ≡ true
unfolding lookup
calls_eleven =
    write-all
      (λ p fi. (c : ℕ) (t : List AstPath) → lookup c fi.inst_callees ≡ some t → nat_eq 11 c ≡ true)
      0 caller (write 1 receiver (λ p. quiet_func)) (λ c t at. ground arith)
      (write-all
        (λ p fi.
          (c : ℕ) (t : List AstPath) → lookup c fi.inst_callees ≡ some t → nat_eq 11 c ≡ true)
        1 receiver (λ p. quiet_func) (λ c t at. cc) (λ p c t at. cc))

eleven_resolves :
    (info : Info) (c : ℕ)
    → info ≡ main_package
    → nat_eq 11 c ≡ true
    → (q : ℕ) × (resolve program info c ≡ some q)
unfolding func_info
eleven_resolves info c main eq = rw main (rw (← (nat_eq_iff 11 c).0 eq) (1, refl))

cells-IsAnalyzed : IsAnalyzed program packages cells
cells-IsAnalyzed = record {
  resolves = λ info p c t listed at.
      eleven_resolves info c (only_main info p listed) (calls_eleven p c t at);
  inst_sites =
      write-all (λ p fi. AllEntries (λ c s. filled s ≡ true) fi.inst_callees) 0 caller
        (write 1 receiver (λ p. quiet_func)) (refl, tt)
        (write-all (λ p fi. AllEntries (λ c s. filled s ≡ true) fi.inst_callees) 1 receiver
          (λ p. quiet_func) tt (λ p. tt));
  lit_sites =
      write-all (λ p fi. AllEntries (λ c s. nonempty s ≡ true) fi.literal_func_callees) 0 caller
        (write 1 receiver (λ p. quiet_func)) tt
        (write-all (λ p fi. AllEntries (λ c s. nonempty s ≡ true) fi.literal_func_callees) 1
          receiver (λ p. quiet_func) tt (λ p. tt));
}

cells_calls : (info : Info) (p : ℕ) → Listed info p packages → FuncCalls program (cells p) p
cells_calls info p listed =
    write-all (λ q fi. FuncCalls program fi q) 0 caller (write 1 receiver (λ p. quiet_func))
      (tt, tt)
      (write-all (λ q fi. FuncCalls program fi q) 1 receiver (λ p. quiet_func)
        (((refl, tt), tt), tt) (λ q. (tt, tt)))
      p

propagate_analysis-exact_example :
    (mid last : Heap) × (propagate program 2 packages cells ≡ some mid)
    × (propagate_analysis program 2 packages cells ≡ some last)
    × ((p : ℕ) → (func_blocking last p ≡ true) ↔ MayBlock program packages cells p)
    × ((info : Info) (p : ℕ) → Listed info p packages → FuncDone program mid info p last)
propagate_analysis-exact_example =
    propagate_analysis-exact program packages cells 2 cells-IsAnalyzed cells_calls (omega arith)

-- !(0 && x), where the type checker knows 0 to be false
abbrev negated : Expr
negated = unary none not_op (binary none land (leaf (some (bool false)) 0) (leaf none 1))

abbrev all_true : Run
all_true = record {
  run_leaf = λ n. some (not (nat_eq n 0));
  run_binary = λ x y. none;
  run_unary = λ x. none;
}

constant_lem : (b c : Bool) → some (bool false) ≡ some (bool b) → some false ≡ some c → c ≡ b
constant_lem b c e r = ground arith

bool_value-run_example : ◌≡◌ {A = Bool} true true
unfolding bool_value run
bool_value-run_example =
    bool_value-run all_true negated true true
      (
        λ b c e r. absurd (cc e),
        (λ b c e r. absurd (cc e), λ b c e r. constant_lem b c e r, λ b c e r. absurd (cc e)),
      )
      refl refl

-- a block with a select statement that holds a `break`, and with a call
abbrev block : Tree
block = node other_node (
    cons (node select_stmt (cons (node (branch_stmt break_token none) nil) nil))
      (cons (node (call_expr 4) (cons (node other_expr nil) nil)) nil))

abbrev types : ℕ → GoType
types fun = if nat_eq fun 4 then signature else named

has_break_iff_example :
    ((has_break block ≡ true) ↔ OwnBreak block)
    × ((has_side_effect block types ≡ true) ↔ Effect types block)
has_break_iff_example = has_break_iff block types

has_break-block : has_break block ≡ false
unfolding has_break walk walk_all
has_break-block = refl

has_side_effect-block : has_side_effect block types ≡ true
unfolding has_side_effect walk walk_all
has_side_effect-block = refl
