-- ===== src/Analysis/Absorbing.antt =====
-- What marking and absorbing a callee change in the cell of the caller.
use gopherjs.Base.{
  ℕ, Bool, true, false, ◌||◌, List, [], ◌∷◌, ◌≡◌, ℕ_eq, insert, inl, inr, Bool-cases, refl, ap, ◌∙◌,
  arith,
}
use gopherjs.Base.Assoc.{remove}
use gopherjs.Analysis.Info.{AstPath, FuncInfo, nonempty, mark_blocking}
use gopherjs.Analysis.Propagate.{mark_all, absorb_inst, absorb_lit}

insert-nonempty : (n : ℕ) (xs : List ℕ) → nonempty (insert n xs) ≡ true
insert-nonempty n [] = refl
insert-nonempty n (x ∷ xs) = ground arith

-- Marking changes no list of callees and makes no function stop to block.
pub record IsMarked (fi fi' : FuncInfo) : Type 0 where
  pub insts : fi'.inst_callees ≡ fi.inst_callees
  pub lits : fi'.literal_func_callees ≡ fi.literal_func_callees
  pub keeps : nonempty fi.blocking ≡ true → nonempty fi'.blocking ≡ true

IsMarked-trans : (a b c : FuncInfo) → IsMarked a b → IsMarked b c → IsMarked a c
IsMarked-trans a b c p q = record {
  insts = q.insts ∙ p.insts;
  lits = q.lits ∙ p.lits;
  keeps = λ h. q.keeps (p.keeps h);
}

pub mark_blocking-IsMarked :
    (stack : AstPath) (fi : FuncInfo) → IsMarked fi (mark_blocking stack fi)
unfolding mark_blocking
mark_blocking-IsMarked [] fi = record { insts = refl; lits = refl; keeps = λ h. h }
mark_blocking-IsMarked (n ∷ stack) fi =
    let fi' = record fi { blocking = insert n fi.blocking; flattened = insert n fi.flattened } in
    IsMarked-trans fi fi' (mark_blocking stack fi')
      (record { insts = refl; lits = refl; keeps = λ h. insert-nonempty n fi.blocking })
      (mark_blocking-IsMarked stack fi')

pub mark_blocking-blocks :
    (stack : AstPath) (fi : FuncInfo)
    → nonempty stack ≡ true
    → nonempty (mark_blocking stack fi).blocking ≡ true
unfolding mark_blocking
mark_blocking-blocks [] fi h = absurd (cc h)
mark_blocking-blocks (n ∷ stack) fi h =
    let fi' = record fi { blocking = insert n fi.blocking; flattened = insert n fi.flattened } in
    (mark_blocking-IsMarked stack fi').keeps (insert-nonempty n fi.blocking)

mark_all-IsMarked : (sites : List AstPath) (fi : FuncInfo) → IsMarked fi (mark_all sites fi)
unfolding mark_all
mark_all-IsMarked [] fi = record { insts = refl; lits = refl; keeps = λ h. h }
mark_all-IsMarked (site ∷ sites) fi =
    IsMarked-trans fi (mark_blocking site fi) (mark_all sites (mark_blocking site fi))
      (mark_blocking-IsMarked site fi) (mark_all-IsMarked sites (mark_blocking site fi))

-- Some call site is a path with a node.
abbrev pub filled : List AstPath → Bool
filled [] = false
filled (site ∷ sites) = nonempty site || filled sites

mark_all-blocks :
    (sites : List AstPath) (fi : FuncInfo)
    → filled sites ≡ true
    → nonempty (mark_all sites fi).blocking ≡ true
unfolding mark_all
mark_all-blocks [] fi h = absurd (cc h)
mark_all-blocks (site ∷ sites) fi h = elim (Bool-cases (nonempty site)) [
  | inl node ↦
      (mark_all-IsMarked sites (mark_blocking site fi)).keeps (mark_blocking-blocks site fi node)
  | inr empty ↦ mark_all-blocks sites (mark_blocking site fi) (ground arith)
]

-- An absorbed callee is gone from its list, and the other list is as it was.
pub absorb_inst_frame :
    (c : ℕ) (sites : List AstPath) (fi : FuncInfo)
    → ((absorb_inst c sites fi).inst_callees ≡ remove c fi.inst_callees)
      × ((absorb_inst c sites fi).literal_func_callees ≡ fi.literal_func_callees)
unfolding absorb_inst
absorb_inst_frame c sites fi = let m = mark_all-IsMarked sites fi in (ap (remove c) m.insts, m.lits)

pub absorb_lit_frame :
    (c : ℕ) (site : AstPath) (fi : FuncInfo)
    → ((absorb_lit c site fi).literal_func_callees ≡ remove c fi.literal_func_callees)
      × ((absorb_lit c site fi).inst_callees ≡ fi.inst_callees)
unfolding absorb_lit
absorb_lit_frame c site fi =
    let m = mark_blocking-IsMarked site fi in (ap (remove c) m.lits, m.insts)

-- The caller of an absorbed callee blocks.
pub absorb_inst-blocks :
    (c : ℕ) (sites : List AstPath) (fi : FuncInfo)
    → filled sites ≡ true
    → nonempty (absorb_inst c sites fi).blocking ≡ true
unfolding absorb_inst
absorb_inst-blocks c sites fi h = mark_all-blocks sites fi h

pub absorb_lit-blocks :
    (c : ℕ) (site : AstPath) (fi : FuncInfo)
    → nonempty site ≡ true
    → nonempty (absorb_lit c site fi).blocking ≡ true
unfolding absorb_lit
absorb_lit-blocks c site fi h = mark_blocking-blocks site fi h
