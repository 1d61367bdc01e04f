-- ===== src/Analysis/Exact.antt =====
-- One round of the propagation, and all of them.
use gopherjs.Base.{
  ℕ, zero, suc, ◌<◌, true, false, Option, some, List, [], ◌∷◌, ◌≡◌, ℕ_eq, nat_eq, nat_eq_iff,
  contains, inl, inr, Bool-cases, refl, sym, ap, ◌∙◌, arith, subst,
}
use gopherjs.Analysis.Info.{Heap, Info, Program}
use gopherjs.Analysis.Propagate.{
  Pass, visit_insts, visit_lits, then_pass, visit_callers, visit_packages, propagate,
}
use gopherjs.Analysis.MayBlock.{Listed, here, later}
use gopherjs.Analysis.Invariant.{Inv}
use gopherjs.Analysis.Shrinking.{entries_left}
use gopherjs.Analysis.Visits.{
  Resolves, Progress-trans, Returns, quiet_same, InstsQuiet, LitsQuiet, visit_insts-Returns,
  visit_lits-Returns,
}

propagate-again :
    (prog : Program) (infos : List Info) (fuel : ℕ) (h h' : Heap) (pass : Pass)
    → visit_packages prog infos (h, true) ≡ some pass
    → pass.1 ≡ false
    → propagate prog fuel infos pass.0 ≡ some h'
    → propagate prog (suc fuel) infos h ≡ some h'
unfolding propagate
propagate-again prog infos fuel h h' (g, true) e stirred rest = absurd (cc stirred)
propagate-again prog infos fuel h h' (g, false) e stirred rest = rw (e, propagate) rest

module _ (prog : Program) (infos : List Info) (start : Heap) where
  -- One pass after another.
  then-Returns :
      (pass : Pass) (P Q : Heap → Type 0) (r : Option Pass) (f : Pass → Option Pass)
      → Returns prog infos start pass (P pass.0) r
      → ((pass' : Pass)
          → Inv prog infos start pass'.0
          → Returns prog infos start pass' (Q pass'.0) (f pass'))
      → Returns prog infos start pass (P pass.0 × Q pass.0) (then_pass r f)
  then-Returns pass P Q r f (pass_one, e_one, inv_one, progress_one, quiet_one) next =
      let (pass_two, e_two, inv_two, progress_two, quiet_two) = next pass_one inv_one in
      (
        pass_two,
        rw e_one e_two,
        inv_two,
        Progress-trans prog infos start pass pass_one pass_two progress_one progress_two,
        λ done.
            let same_two = quiet_same prog infos start pass_one pass_two progress_two done in
            let done_one = sym (ap (λ (p : Pass). p.1) same_two) ∙ done in
            let same_one = quiet_same prog infos start pass pass_one progress_one done_one in
            (quiet_one done_one, subst (λ (p : Pass). Q p.0) same_one (quiet_two done)),
      )

  abbrev pub Quiet : Info → ℕ → Heap → Type 0
  Quiet info p h = InstsQuiet prog infos start info p h × LitsQuiet prog infos start info p h

  abbrev AllQuiet : Info → List ℕ → Heap → Type 0
  AllQuiet info ps h = (p : ℕ) → contains ps p ≡ true → Quiet info p h

  abbrev pub PackagesQuiet : List Info → Heap → Type 0
  PackagesQuiet is h = (info : Info) (p : ℕ) → Listed info p is → Quiet info p h

  packages_quiet :
      (info : Info) (is : List Info) (h : Heap)
      → AllQuiet info info.all_infos h
      → PackagesQuiet is h
      → PackagesQuiet (info ∷ is) h
  packages_quiet info is h first rest i p (here _ c) = first p c
  packages_quiet info is h first rest i p (later _ _ l) = rest i p l

  module _ (resolves : Resolves prog infos start) where
    caller-Returns :
        (info : Info) (p : ℕ)
        → Listed info p infos
        → (pass : Pass) → Inv prog infos start pass.0
        → Returns prog infos start pass
            (Quiet info p pass.0)
            (then_pass (visit_insts prog info p pass) (visit_lits prog info p))
    caller-Returns info p listed (h, d) inv =
        then-Returns (h, d) (InstsQuiet prog infos start info p) (LitsQuiet prog infos start info p)
          (visit_insts prog info p (h, d)) (visit_lits prog info p)
          (visit_insts-Returns prog infos start resolves info p listed h d inv)
          (λ pass inv'.
            visit_lits-Returns prog infos start resolves info p listed pass.0 pass.1 inv')

    callers-Returns :
        (info : Info) (ps : List ℕ)
        → ((p : ℕ) → contains ps p ≡ true → Listed info p infos)
        → (pass : Pass) → Inv prog infos start pass.0
        → Returns prog infos start pass (AllQuiet info ps pass.0) (visit_callers prog info ps pass)
    unfolding visit_callers
    callers-Returns info [] listed pass inv = (pass, refl, inv, inl refl, λ done p c. absurd (cc c))
    callers-Returns info (p ∷ ps) listed pass inv =
        let (pass', e, inv', progress, quiet) =
          then-Returns pass (Quiet info p) (AllQuiet info ps)
            (then_pass (visit_insts prog info p pass) (visit_lits prog info p))
            (visit_callers prog info ps)
            (caller-Returns info p (listed p (ground (arith, nat_eq_iff p p))) pass inv)
            (λ pass_one inv_one.
              callers-Returns info ps (λ q c. listed q (ground arith)) pass_one inv_one) in
        (
          pass',
          e,
          inv',
          progress,
          λ done q c.
              let (first, rest) = quiet done in
              elim (Bool-cases (nat_eq q p)) [
                | inl eq ↦ rw ((nat_eq_iff q p).0 eq) first
                | inr differs ↦ rest q (rw differs at c)
              ],
        )

    packages-Returns :
        (is : List Info)
        → ((info : Info) (p : ℕ) → Listed info p is → Listed info p infos)
        → (pass : Pass) → Inv prog infos start pass.0
        → Returns prog infos start pass (PackagesQuiet is pass.0) (visit_packages prog is pass)
    unfolding visit_packages
    packages-Returns [] listed pass inv = (pass, refl, inv, inl refl, λ done info p l. elim l [ ])
    packages-Returns (info ∷ is) listed pass inv =
        let (pass', e, inv', progress, quiet) =
          then-Returns pass (AllQuiet info info.all_infos) (PackagesQuiet is)
            (visit_callers prog info info.all_infos pass) (visit_packages prog is)
            (callers-Returns info info.all_infos (λ p c. listed info p (here is c)) pass inv)
            (λ pass_one inv_one.
              packages-Returns is (λ i p l. listed i p (later info is l)) pass_one inv_one) in
        (
          pass',
          e,
          inv',
          progress,
          λ done i p l. packages_quiet info is pass.0 (quiet done).0 (quiet done).1 i p l,
        )

    -- More fuel than entries: the loop ends, and leaves nothing to do.
    pub propagate-ends :
        (fuel : ℕ) (h : Heap)
        → entries_left infos h < fuel
        → Inv prog infos start h
        → (h' : Heap) × (propagate prog fuel infos h ≡ some h')
          × Inv prog infos start h'
          × PackagesQuiet infos h'
    unfolding propagate
    propagate-ends zero h enough inv = absurd (omega arith)
    propagate-ends (suc fuel) h enough inv =
        let (pass, e, inv', progress, quiet) = packages-Returns infos (λ i p l. l) (h, true) inv in
        elim progress [
          | inl same ↦
              (h, rw (e ∙ ap some same, propagate) refl, inv, quiet (ap (λ (p : Pass). p.1) same))
          | inr (stirred, fewer) ↦
              let (h', e', inv'', quiet') = propagate-ends fuel pass.0 (omega arith) inv' in
              (h', propagate-again prog infos fuel h h' pass e stirred e', inv'', quiet')
        ]
