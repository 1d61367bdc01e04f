-- ===== src/Analysis/Control.antt =====
-- compiler/internal/analysis: the return and continue statements that block, once the blocking of
-- functions is known. `none` is a panic of `IsBlocking`.
use gopherjs.Base.{ℕ, Bool, true, false, Option, some, none, List, [], ◌∷◌, ℕ_eq, contains}
use gopherjs.Analysis.Propagate.{propagate}
use gopherjs.Analysis.Info.{
  AstPath, DeferStmt, blocking_defer, inst_defer, lit_defer, ReturnStmt, ContinueStmt, FuncInfo,
  Heap, write, Info, Program, nonempty, pointer_blocking, func_lit_info, is_blocking, mark_blocking,
}

abbrev pub then_do : {A B : Type 0} → Option A → (A → Option B) → Option B
then_do none f = none
then_do (some a) f = f a

abbrev pub or_rest : Option Bool → Option Bool → Option Bool
or_rest none rest = none
or_rest (some true) rest = some true
or_rest (some false) rest = rest

module _ (prog : Program) (info : Info) where
  -- `(*deferStmt).IsBlocking`
  unfoldable pub defer_blocking : Heap → DeferStmt → Option Bool
  defer_blocking h blocking_defer = some true
  defer_blocking h (inst_defer inst) = is_blocking prog info h inst
  defer_blocking h (lit_defer lit args) =
      some (pointer_blocking h (func_lit_info prog info lit args))

  unfoldable pub is_any_defer_blocking : Heap → List DeferStmt → Option Bool
  is_any_defer_blocking h [] = some false
  is_any_defer_blocking h (d ∷ defers) =
      or_rest (defer_blocking h d) (is_any_defer_blocking h defers)

  abbrev pub mark_at : ℕ → AstPath → Heap → Heap
  mark_at p stack h = write p (mark_blocking stack (h p)) h

  -- the loop that marks all return statements
  unfoldable pub mark_returns : ℕ → List ReturnStmt → Heap → Heap
  mark_returns p [] h = h
  mark_returns p (r ∷ returns) h = mark_returns p returns (mark_at p r.analyze_stack h)

  abbrev pub mark_if : ℕ → AstPath → Bool → Heap → Heap
  mark_if p stack true h = mark_at p stack h
  mark_if p stack false h = h

  -- the loop that asks for each return statement
  unfoldable pub visit_returns : ℕ → List ReturnStmt → Heap → Option Heap
  visit_returns p [] h = some h
  visit_returns p (r ∷ returns) h =
      then_do (is_any_defer_blocking h r.defer_stmts)
        (λ b. visit_returns p returns (mark_if p r.analyze_stack b h))

  abbrev pub returns_if : ℕ → List ReturnStmt → Bool → Heap → Heap
  returns_if p returns true h = mark_returns p returns h
  returns_if p returns false h = h

  abbrev pub returns_by : Bool → ℕ → FuncInfo → Heap → Option Heap
  returns_by true p fi h =
      then_do (is_any_defer_blocking h fi.defer_stmts)
        (λ b. some (returns_if p fi.return_stmts b h))
  returns_by false p fi h = visit_returns p fi.return_stmts h

  -- `propagateReturnBlocking`
  unfoldable pub propagate_return_blocking : ℕ → Heap → Option Heap
  propagate_return_blocking p h = returns_by (nonempty (h p).goto_label) p (h p) h

  -- the loop of `propagateContinueBlocking`
  unfoldable pub visit_continues : ℕ → List ContinueStmt → Heap → Heap
  visit_continues p [] h = h
  visit_continues p (c ∷ continues) h =
      visit_continues p continues (mark_if p c.analyze_stack (contains (h p).blocking c.post) h)

  unfoldable pub propagate_continue_blocking : ℕ → Heap → Heap
  propagate_continue_blocking p h = visit_continues p (h p).continue_stmts h

  -- the loop of `propagateControlStatementBlocking`
  unfoldable pub propagate_control : List ℕ → Heap → Option Heap
  propagate_control [] h = some h
  propagate_control (p ∷ ps) h =
      then_do (propagate_return_blocking p h)
        (λ h'. propagate_control ps (propagate_continue_blocking p h'))

-- `PropagateAnalysis`, its second loop and whole
unfoldable pub propagate_statements : Program → List Info → Heap → Option Heap
propagate_statements prog [] h = some h
propagate_statements prog (info ∷ infos) h =
    then_do (propagate_control prog info info.all_infos h) (propagate_statements prog infos)

-- `PropagateAnalysis`; `none` is a panic, or that the fuel ran out.
unfoldable pub propagate_analysis : Program → ℕ → List Info → Heap → Option Heap
propagate_analysis prog fuel infos h =
    then_do (propagate prog fuel infos h) (propagate_statements prog infos)
