-- ===== src/Analysis/Looping.antt =====
-- The first loop of `PropagateAnalysis` only adds marks to what the second one asks for.
use gopherjs.Base.{
  ℕ, zero, suc, Bool, true, false, Option, some, none, List, [], ◌∷◌, ◌≡◌, ℕ_eq, refl, sym, ap, ◌∙◌,
  subst, some_inj, inl, inr, Option-cases, Bool-cases,
}
use gopherjs.Base.Assoc.{Assoc}
use gopherjs.Analysis.Info.{
  AstPath, FuncInfo, Heap, write, Info, Program, mark_blocking, is_blocking,
}
use gopherjs.Analysis.Propagate.{
  Pass, mark_all, absorb_inst, absorb_lit, visit_callees, lit_blocks, then_pass, visit_insts,
  visit_lits, visit_callers, visit_packages, propagate,
}
use gopherjs.Analysis.Invariant.{write-all}
use gopherjs.Analysis.Growing.{
  IsGrown, IsGrown-refl, IsGrown-trans, Grows, Grows-trans, mark_blocking-IsGrown,
}

mark_all-IsGrown : (sites : List AstPath) (fi : FuncInfo) → IsGrown fi (mark_all sites fi)
unfolding mark_all
mark_all-IsGrown [] fi = IsGrown-refl fi
mark_all-IsGrown (site ∷ sites) fi =
    IsGrown-trans fi (mark_blocking site fi) (mark_all sites (mark_blocking site fi))
      (mark_blocking-IsGrown site fi) (mark_all-IsGrown sites (mark_blocking site fi))

absorb_inst-IsGrown :
    (callee : ℕ) (sites : List AstPath) (fi : FuncInfo) → IsGrown fi (absorb_inst callee sites fi)
unfolding absorb_inst
absorb_inst-IsGrown callee sites fi =
    let g = mark_all-IsGrown sites fi in
    record {
      marks = g.marks;
      gotos = g.gotos;
      continues = g.continues;
      returns = g.returns;
      defers = g.defers;
    }

absorb_lit-IsGrown :
    (callee : ℕ) (site : AstPath) (fi : FuncInfo) → IsGrown fi (absorb_lit callee site fi)
unfolding absorb_lit
absorb_lit-IsGrown callee site fi =
    let g = mark_blocking-IsGrown site fi in
    record {
      marks = g.marks;
      gotos = g.gotos;
      continues = g.continues;
      returns = g.returns;
      defers = g.defers;
    }

-- What a loop returns has grown.
abbrev Grown : Heap → Option Pass → Type 0
Grown h o = (pass : Pass) → o ≡ some pass → Grows h pass.0

Grown-same : (h : Heap) (done : Bool) → Grown h (some (h, done))
Grown-same h done pass e p =
    subst (λ (r : Pass). IsGrown (h p) (r.0 p)) (some_inj e) (IsGrown-refl (h p))

Grown-then :
    (h : Heap) (o : Option Pass) (f : Pass → Option Pass)
    → Grown h o
    → ((pass : Pass) → Grown pass.0 (f pass))
    → Grown h (then_pass o f)
Grown-then h none f g k pass e = absurd (cc e)
Grown-then h (some mid) f g k pass e = Grows-trans h mid.0 pass.0 (g mid refl) (k mid pass e)

module _ {S : Type 0} (blocks : Heap → ℕ → Option Bool) (absorb : ℕ → S → FuncInfo → FuncInfo)
    (caller : ℕ) (grown : (c : ℕ) (s : S) (fi : FuncInfo) → IsGrown fi (absorb c s fi)) where
  absorbed-Grows :
      (callee : ℕ) (site : S) (h : Heap) → Grows h (write caller (absorb callee site (h caller)) h)
  absorbed-Grows callee site h =
      write-all (λ q fi. IsGrown (h q) fi) caller (absorb callee site (h caller)) h
        (grown callee site (h caller)) (λ q. IsGrown-refl (h q))

  callees-Grown :
      (entries : Assoc ℕ S) (h : Heap) (done : Bool)
      → Grown h (visit_callees blocks absorb caller entries (h, done))
  unfolding visit_callees
  callees-Grown [] h done = Grown-same h done
  callees-Grown ((callee, site) ∷ rest) h done = elim (Option-cases (blocks h callee)) [
    | inl stops ↦ rw (stops, visit_callees) (λ pass e. absurd (cc e))
    | inr (b, at) ↦ elim (Bool-cases b) [
      | inl blocking ↦
          let h' = write caller (absorb callee site (h caller)) h in
          rw (at ∙ ap some blocking, visit_callees)
            (λ pass e.
              Grows-trans h h' pass.0 (absorbed-Grows callee site h)
                (callees-Grown rest h' false pass e))
      | inr calm ↦ rw (at ∙ ap some calm, visit_callees) (callees-Grown rest h done)
    ]
  ]

module _ (prog : Program) where
  callers-Grown :
      (info : Info) (callers : List ℕ) (pass : Pass)
      → Grown pass.0 (visit_callers prog info callers pass)
  unfolding visit_callers
  callers-Grown info [] (h, done) = Grown-same h done
  callers-Grown info (caller ∷ callers) (h, done) =
      Grown-then h
        (then_pass (visit_insts prog info caller (h, done)) (visit_lits prog info caller))
        (visit_callers prog info callers)
        (Grown-then h (visit_insts prog info caller (h, done)) (visit_lits prog info caller)
          (callees-Grown (is_blocking prog info) absorb_inst caller absorb_inst-IsGrown
            (h caller).inst_callees h done)
          (λ pass.
            callees-Grown (lit_blocks prog info caller) absorb_lit caller absorb_lit-IsGrown
              (pass.0 caller).literal_func_callees pass.0 pass.1))
        (callers-Grown info callers)

  packages-Grown : (infos : List Info) (pass : Pass) → Grown pass.0 (visit_packages prog infos pass)
  unfolding visit_packages
  packages-Grown [] (h, done) = Grown-same h done
  packages-Grown (info ∷ infos) pass =
      Grown-then pass.0 (visit_callers prog info info.all_infos pass) (visit_packages prog infos)
        (callers-Grown info info.all_infos pass) (packages-Grown infos)

  propagate-done :
      (fuel : ℕ) (infos : List Info) (h mid : Heap)
      → visit_packages prog infos (h, true) ≡ some (mid, true)
      → propagate prog (suc fuel) infos h ≡ some mid
  unfolding propagate
  propagate-done fuel infos h mid at = rw (at, propagate) refl

  propagate-more :
      (fuel : ℕ) (infos : List Info) (h mid : Heap)
      → visit_packages prog infos (h, true) ≡ some (mid, false)
      → propagate prog (suc fuel) infos h ≡ propagate prog fuel infos mid
  unfolding propagate
  propagate-more fuel infos h mid at = rw (at, propagate) refl

  propagate-stops :
      (fuel : ℕ) (infos : List Info) (h : Heap)
      → visit_packages prog infos (h, true) ≡ none
      → propagate prog (suc fuel) infos h ≡ none
  unfolding propagate
  propagate-stops fuel infos h at = rw (at, propagate) refl

  pub propagate-Grows :
      (fuel : ℕ) (infos : List Info) (h last : Heap)
      → propagate prog fuel infos h ≡ some last
      → Grows h last
  unfolding propagate
  propagate-Grows zero infos h last e = absurd (cc e)
  propagate-Grows (suc fuel) infos h last e =
      elim (Option-cases (visit_packages prog infos (h, true))) [
        | inl stops ↦ absurd (cc (sym (propagate-stops fuel infos h stops) ∙ e))
        | inr ((mid, done), at) ↦
            let grown = packages-Grown infos (h, true) (mid, done) at in
            elim (Bool-cases done) [
              | inl finished ↦
                  let this =
                    propagate-done fuel infos h mid (at ∙ ap (λ d. some (mid, d)) finished) in
                  λ p. subst (λ (r : Heap). IsGrown (h p) (r p)) (some_inj (sym this ∙ e)) (grown p)
              | inr more ↦
                  let next = propagate-more fuel infos h mid (at ∙ ap (λ d. some (mid, d)) more) in
                  Grows-trans h mid last grown (propagate-Grows fuel infos mid last (sym next ∙ e))
            ]
      ]
