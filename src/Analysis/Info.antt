-- ===== src/Analysis/Info.antt =====
-- compiler/internal/analysis/info.go and defer.go: what the analysis knows of a package and of its
-- functions. A `*FuncInfo` is the number of a cell; a node of the syntax tree, an instance, a
-- function literal, a label and a list of types (up to identity) are numbers, as they are compared
-- only. What is never written after the cell is made stands in `Program`.
use gopherjs.Base.{
  ℕ, Bool, true, false, Option, none, some, List, [], ◌∷◌, ◌==◌, ℕ_eq, if◌then◌else◌, insert,
}
use gopherjs.Base.Assoc.{Assoc, lookup}

abbrev pub AstPath : Type 0
AstPath = List ℕ

-- deferStmt: with neither an object nor a literal, of an instance, of a literal
pub data DeferStmt : Type 0 where
  blocking_defer : DeferStmt
  inst_defer : ℕ → DeferStmt
  lit_defer : ℕ → ℕ → DeferStmt

pub record ReturnStmt : Type 0 where
  pub analyze_stack : AstPath
  pub defer_stmts : List DeferStmt

-- with the node of `forStmt.Post`
pub record ContinueStmt : Type 0 where
  pub post : ℕ
  pub analyze_stack : AstPath

-- The fields that only the walk of `Visit` uses are left out.
pub record FuncInfo : Type 0 where
  pub flattened : List ℕ
  pub blocking : List ℕ
  pub goto_label : List ℕ
  pub continue_stmts : List ContinueStmt
  pub return_stmts : List ReturnStmt
  pub defer_stmts : List DeferStmt
  pub inst_callees : Assoc ℕ (List AstPath)
  pub literal_func_callees : Assoc ℕ AstPath

abbrev pub Heap : Type 0
Heap = ℕ → FuncInfo

abbrev pub write : ℕ → FuncInfo → Heap → Heap
write p fi h q = if q == p then fi else h q

pub record Info : Type 0 where
  pub pkg : ℕ
  pub all_infos : List ℕ
  pub func_inst_infos : Assoc ℕ ℕ
  pub func_lit_infos : Assoc ℕ (List ℕ)

-- `inst.Object.Pkg()`, the info importer, and the `typeArgs` of a function
pub record Program : Type 0 where
  pub pkg_of : ℕ → ℕ
  pub import_info : ℕ → Option Info
  pub type_args : ℕ → ℕ

abbrev pub nonempty {ℓ} : {A : Type ℓ} → List A → Bool
nonempty [] = false
nonempty (x ∷ xs) = true

-- `markBlocking` and `markFlattened`
unfoldable pub mark_blocking : AstPath → FuncInfo → FuncInfo
mark_blocking [] fi = fi
mark_blocking (n ∷ stack) fi =
    mark_blocking stack
      (record fi { blocking = insert n fi.blocking; flattened = insert n fi.flattened })

unfoldable pub mark_flattened : AstPath → FuncInfo → FuncInfo
mark_flattened [] fi = fi
mark_flattened (n ∷ stack) fi =
    mark_flattened stack (record fi { flattened = insert n fi.flattened })

-- `(*FuncInfo).IsBlocking` on a pointer that is not nil
abbrev pub func_blocking : Heap → ℕ → Bool
func_blocking h p = nonempty (h p).blocking

-- on any pointer
abbrev pub pointer_blocking : Heap → Option ℕ → Bool
pointer_blocking h none = true
pointer_blocking h (some p) = func_blocking h p

-- `FuncInfo`
unfoldable pub func_info : Info → ℕ → Option ℕ
unfolding lookup
func_info info inst = lookup inst info.func_inst_infos

-- `FuncLitInfo`
unfoldable pub first_with_args : Program → ℕ → List ℕ → Option ℕ
first_with_args prog args [] = none
first_with_args prog args (p ∷ lits) =
    if prog.type_args p == args then some p else first_with_args prog args lits

abbrev lits_of : Option (List ℕ) → List ℕ
lits_of none = []
lits_of (some lits) = lits

unfoldable pub func_lit_info : Program → Info → ℕ → ℕ → Option ℕ
unfolding first_with_args lookup
func_lit_info prog info fun args =
    first_with_args prog args (lits_of (lookup fun info.func_lit_infos))

-- The information of the package of an instance; `none` for the panic of a failed import.
abbrev pub home : Program → Info → ℕ → Option Info
home prog info inst =
    if prog.pkg_of inst == info.pkg then some info else prog.import_info (prog.pkg_of inst)

abbrev pub in_home : ℕ → Option Info → Option ℕ
in_home inst none = none
in_home inst (some info) = func_info info inst

-- The function whose cell `IsBlocking` reads; `none` for its panics.
abbrev pub resolve : Program → Info → ℕ → Option ℕ
resolve prog info inst = in_home inst (home prog info inst)

abbrev pub read_blocking : Heap → Option ℕ → Option Bool
read_blocking h none = none
read_blocking h (some p) = some (func_blocking h p)

-- `(*Info).IsBlocking`, with `none` for a panic
unfoldable pub is_blocking : Program → Info → Heap → ℕ → Option Bool
is_blocking prog info h inst = read_blocking h (resolve prog info inst)
