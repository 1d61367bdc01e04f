-- ===== src/Analysis/Propagated.antt =====
-- The propagation finds exactly the functions that may block.
use gopherjs.Base.{
  ℕ, ◌<◌, true, false, some, List, ◌≡◌, ◌↔◌, ℕ_eq, inl, inr, refl, sym, ap, ◌∙◌, some_inj,
}
use gopherjs.Analysis.Info.{
  Heap, Info, Program, nonempty, func_blocking, pointer_blocking, read_blocking, is_blocking,
}
use gopherjs.Analysis.Propagate.{lit_blocks, propagate}
use gopherjs.Analysis.MayBlock.{MayBlock, own, calls_inst, calls_unknown, calls_lit}
use gopherjs.Analysis.Entries.{AllEntries, AllEntries-and, AllEntries-lookup, Found, all_Found}
use gopherjs.Analysis.Absorbing.{filled}
use gopherjs.Analysis.Invariant.{Inv}
use gopherjs.Analysis.Shrinking.{entries_left}
use gopherjs.Analysis.Visits.{Resolves}
use gopherjs.Analysis.Exact.{PackagesQuiet, propagate-ends}

-- The cells as `AnalyzePkg` leaves them: every called instance has its information, and every callee
-- a call site, whose path has a node.
pub record IsAnalyzed (prog : Program) (infos : List Info) (start : Heap) : Type 0 where
  pub resolves : Resolves prog infos start
  pub inst_sites : (p : ℕ) → AllEntries (λ c s. filled s ≡ true) (start p).inst_callees
  pub lit_sites : (p : ℕ) → AllEntries (λ c s. nonempty s ≡ true) (start p).literal_func_callees

module _ (prog : Program) (infos : List Info) (start : Heap) where
  start-Inv : IsAnalyzed prog infos start → Inv prog infos start start
  start-Inv ok p = record {
    sound = λ h. own p h;
    keeps = λ h. h;
    inst_entries =
        AllEntries-and (Found (start p).inst_callees) (λ c s. filled s ≡ true)
          (start p).inst_callees (all_Found (start p).inst_callees) (ok.inst_sites p);
    lit_entries =
        AllEntries-and (Found (start p).literal_func_callees) (λ c s. nonempty s ≡ true)
          (start p).literal_func_callees (all_Found (start p).literal_func_callees)
          (ok.lit_sites p);
    inst_kept = λ c. inl refl;
    lit_kept = λ c. inl refl;
  }

  complete :
      (h : Heap)
      → Inv prog infos start h
      → PackagesQuiet prog infos start infos h
      → (p : ℕ) → MayBlock prog infos start p
      → func_blocking h p ≡ true
  unfolding is_blocking
  complete h inv quiet _ (own p blocks) = (inv p).keeps blocks
  complete h inv quiet _ (calls_inst info p c q sites listed at res may) =
      elim ((inv p).inst_kept c) [
        | inl kept ↦
            let calm =
              AllEntries-lookup (λ c s. is_blocking prog info h c ≡ some false) c sites
                (h p).inst_callees (quiet info p listed).0 (kept ∙ at) in
            let q_calm : func_blocking h q ≡ false =
              some_inj (sym (ap (read_blocking h) res) ∙ calm) in
            absurd (cc (sym q_calm ∙ complete h inv quiet q may))
        | inr blocks ↦ blocks
      ]
  complete h inv quiet _ (calls_unknown info p c site listed at res) = elim ((inv p).lit_kept c) [
    | inl kept ↦
        let calm =
          AllEntries-lookup (λ c s. lit_blocks prog info p h c ≡ some false) c site
            (h p).literal_func_callees (quiet info p listed).1 (kept ∙ at) in
        absurd (cc (some_inj (sym (ap (λ o. some (pointer_blocking h o)) res) ∙ calm)))
    | inr blocks ↦ blocks
  ]
  complete h inv quiet _ (calls_lit info p c q site listed at res may) = elim ((inv p).lit_kept c) [
    | inl kept ↦
        let calm =
          AllEntries-lookup (λ c s. lit_blocks prog info p h c ≡ some false) c site
            (h p).literal_func_callees (quiet info p listed).1 (kept ∙ at) in
        let q_calm : func_blocking h q ≡ false =
          some_inj (sym (ap (λ o. some (pointer_blocking h o)) res) ∙ calm) in
        absurd (cc (sym q_calm ∙ complete h inv quiet q may))
    | inr blocks ↦ blocks
  ]

  -- With more fuel than there are callees, the loop of `PropagateAnalysis` ends without a panic,
  -- and afterwards a function blocks exactly when it may: when it blocked before, or some call in it
  -- leads to one that may block, or to a literal that the analysis does not know.
  pub propagate-exact :
      (fuel : ℕ)
      → IsAnalyzed prog infos start
      → entries_left infos start < fuel
      → (h : Heap) × (propagate prog fuel infos start ≡ some h)
        × ((p : ℕ) → (func_blocking h p ≡ true) ↔ MayBlock prog infos start p)
  propagate-exact fuel ok enough =
      let (h, e, inv, quiet) =
        propagate-ends prog infos start ok.resolves fuel start enough (start-Inv ok) in
      (h, e, λ p. ((inv p).sound, complete h inv quiet p))
