-- ===== src/Analysis/Propagate.antt =====
-- compiler/internal/analysis/info.go: the propagation of blocking calls to their callers. The body
-- of `Iterate` deletes only the entry that it is at, so a loop goes over the entries that the map
-- had at its start. `none` is a panic of `IsBlocking`.
use gopherjs.Base.{ℕ, zero, suc, Bool, true, false, Option, none, some, List, [], ◌∷◌, ℕ_eq}
use gopherjs.Base.Assoc.{Assoc, remove}
use gopherjs.Analysis.Info.{
  AstPath, FuncInfo, Heap, write, Info, Program, mark_blocking, pointer_blocking, func_lit_info,
  is_blocking,
}

-- The state of a loop: the cells, and `done`.
abbrev pub Pass : Type 0
Pass = Heap × Bool

-- `for _, callSite := range callSites { caller.markBlocking(callSite) }`
unfoldable pub mark_all : List AstPath → FuncInfo → FuncInfo
mark_all [] fi = fi
mark_all (site ∷ sites) fi = mark_all sites (mark_blocking site fi)

-- what a blocking callee does to its caller: an instance, and a literal
unfoldable pub absorb_inst : ℕ → List AstPath → FuncInfo → FuncInfo
absorb_inst callee sites fi = record (mark_all sites fi) {
  inst_callees = remove callee (mark_all sites fi).inst_callees;
}

unfoldable pub absorb_lit : ℕ → AstPath → FuncInfo → FuncInfo
absorb_lit callee site fi = record (mark_blocking site fi) {
  literal_func_callees = remove callee (mark_blocking site fi).literal_func_callees;
}

-- A loop over the callees of `caller`.
module _ {S : Type 0} (blocks : Heap → ℕ → Option Bool) (absorb : ℕ → S → FuncInfo → FuncInfo)
    (caller : ℕ) where
  unfoldable pub visit_callees : Assoc ℕ S → Pass → Option Pass
  visit_callees [] pass = some pass
  visit_callees ((callee, site) ∷ rest) (h, done) =
      let absorbed = visit_callees rest (write caller (absorb callee site (h caller)) h, false) in
      let passed_over = visit_callees rest (h, done) in
      elim (blocks h callee) [ none ↦ none | some true ↦ absorbed | some false ↦ passed_over ]

-- `info.FuncLitInfo(callee, caller.typeArgs).IsBlocking()`
abbrev pub lit_blocks : Program → Info → ℕ → Heap → ℕ → Option Bool
lit_blocks prog info caller h callee =
    some (pointer_blocking h (func_lit_info prog info callee (prog.type_args caller)))

abbrev pub then_pass : Option Pass → (Pass → Option Pass) → Option Pass
then_pass none f = none
then_pass (some pass) f = f pass

module _ (prog : Program) where
  abbrev pub visit_insts : Info → ℕ → Pass → Option Pass
  visit_insts info caller pass =
      visit_callees (is_blocking prog info) absorb_inst caller (pass.0 caller).inst_callees pass

  abbrev pub visit_lits : Info → ℕ → Pass → Option Pass
  visit_lits info caller pass =
      visit_callees (lit_blocks prog info caller) absorb_lit caller
        (pass.0 caller).literal_func_callees pass

  unfoldable pub visit_callers : Info → List ℕ → Pass → Option Pass
  visit_callers info [] pass = some pass
  visit_callers info (caller ∷ callers) pass =
      then_pass (then_pass (visit_insts info caller pass) (visit_lits info caller))
        (visit_callers info callers)

  -- `propagateFunctionBlocking`, with `done` as it was before
  abbrev pub propagate_function_blocking : Info → Pass → Option Pass
  propagate_function_blocking info pass = visit_callers info info.all_infos pass

  -- the loop over `allInfo`
  unfoldable pub visit_packages : List Info → Pass → Option Pass
  visit_packages [] pass = some pass
  visit_packages (info ∷ infos) pass =
      then_pass (propagate_function_blocking info pass) (visit_packages infos)

  -- `for !done`; `none` is a panic, or that the fuel ran out.
  unfoldable pub propagate : ℕ → List Info → Heap → Option Heap
  propagate zero infos h = none
  propagate (suc fuel) infos h = elim (visit_packages infos (h, true)) [
    | none ↦ none
    | some (h', true) ↦ some h'
    | some (h', false) ↦ propagate fuel infos h'
  ]
