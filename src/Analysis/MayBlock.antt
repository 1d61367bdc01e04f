-- ===== src/Analysis/MayBlock.antt =====
-- What may block, with no propagation: the functions that block themselves, and those that call one
-- that may block.
use gopherjs.Base.{ℕ, true, some, none, List, ◌∷◌, ◌≡◌, ℕ_eq, contains}
use gopherjs.Base.Assoc.{lookup}
use gopherjs.Analysis.Info.{AstPath, Heap, Info, Program, func_blocking, resolve, func_lit_info}

-- The function `p` stands in `all_infos` of the package `info`, which is one of the list.
pub data Listed (info : Info) (p : ℕ) : List Info → Type 0 where
  here : (infos : List Info) → contains info.all_infos p ≡ true → Listed info p (info ∷ infos)
  later : (other : Info) (infos : List Info) → Listed info p infos → Listed info p (other ∷ infos)

pub data MayBlock (prog : Program) (infos : List Info) (h : Heap) : ℕ → Type 0 where
  own : (p : ℕ) → func_blocking h p ≡ true → MayBlock prog infos h p
  calls_inst :
      (info : Info) (p inst q : ℕ) (sites : List AstPath)
      → Listed info p infos
      → lookup inst (h p).inst_callees ≡ some sites
      → resolve prog info inst ≡ some q
      → MayBlock prog infos h q
      → MayBlock prog infos h p
  -- A literal that the analysis has not seen is taken to block.
  calls_unknown :
      (info : Info) (p lit : ℕ) (site : AstPath)
      → Listed info p infos
      → lookup lit (h p).literal_func_callees ≡ some site
      → func_lit_info prog info lit (prog.type_args p) ≡ none
      → MayBlock prog infos h p
  calls_lit :
      (info : Info) (p lit q : ℕ) (site : AstPath)
      → Listed info p infos
      → lookup lit (h p).literal_func_callees ≡ some site
      → func_lit_info prog info lit (prog.type_args p) ≡ some q
      → MayBlock prog infos h q
      → MayBlock prog infos h p
