-- ===== src/Analysis/Visits.antt =====
-- The loops over the callees of one function: they return, keep the invariant and make progress.
use gopherjs.Base.{
  ℕ, ◌<◌, Bool, true, false, Option, some, List, ◌≡◌, ℕ_eq, inl, inr, ◌⊎◌, refl, sym, ap, ◌∙◌,
  arith,
}
use gopherjs.Base.Assoc.{lookup}
use gopherjs.Analysis.Info.{
  AstPath, Heap, write, Info, Program, func_blocking, pointer_blocking, resolve, read_blocking,
  is_blocking, func_lit_info,
}
use gopherjs.Analysis.Propagate.{Pass, absorb_inst, absorb_lit, lit_blocks, visit_insts, visit_lits}
use gopherjs.Analysis.MayBlock.{Listed}
use gopherjs.Analysis.Entries.{AllEntries, AllEntries-map, Found, all_Found}
use gopherjs.Analysis.Visiting.{visit-keeps, visit-quiet, visit-returns, visit-shrinks}
use gopherjs.Analysis.Invariant.{InstEntry, LitEntry, Inv, absorb_inst-Inv, absorb_lit-Inv}
use gopherjs.Analysis.Shrinking.{
  entries_left, entries_left-write-le, entries_left-write-lt, absorb_inst-size_le,
  absorb_inst-size_lt, absorb_lit-size_le, absorb_lit-size_lt,
}

module _ (prog : Program) (infos : List Info) (start : Heap) where
  -- Every instance that a function of a package calls has its information.
  abbrev pub Resolves : Type 0
  Resolves =
      (info : Info) (p c : ℕ) (t : List AstPath)
      → Listed info p infos
      → lookup c (start p).inst_callees ≡ some t
      → (q : ℕ) × (resolve prog info c ≡ some q)

  -- Nothing was changed, or `done` is false and entries have gone.
  abbrev pub Progress : Pass → Pass → Type 0
  Progress pass pass' =
      (pass' ≡ pass)
      ⊎ ((pass'.1 ≡ false) × (entries_left infos pass'.0 < entries_left infos pass.0))

  pub Progress-trans : (a b c : Pass) → Progress a b → Progress b c → Progress a c
  Progress-trans a b c (inl p) (inl q) = inl (q ∙ p)
  Progress-trans a b c (inl p) (inr q) = inr (rw (← p) q)
  Progress-trans a b c (inr (d, lt)) (inl q) = inr (rw q (d, lt))
  Progress-trans a b c (inr (d, lt)) (inr (d', lt')) = inr (d', omega arith)

  -- A pass that returns keeps the invariant and makes progress; `Quiet` holds if it leaves `done`
  -- true.
  abbrev pub Returns : Pass → Type 0 → Option Pass → Type 0
  Returns pass Quiet r =
      (pass' : Pass) × (r ≡ some pass')
      × Inv prog infos start pass'.0
      × Progress pass pass'
      × (pass'.1 ≡ true → Quiet)

  pub quiet_same : (a b : Pass) → Progress a b → b.1 ≡ true → b ≡ a
  quiet_same a b (inl same) q = same
  quiet_same a b (inr (d, lt)) q = absurd (cc (sym d ∙ q))

  abbrev pub InstsQuiet : Info → ℕ → Heap → Type 0
  InstsQuiet info p h =
      AllEntries (λ c s. is_blocking prog info h c ≡ some false) (h p).inst_callees

  abbrev pub LitsQuiet : Info → ℕ → Heap → Type 0
  LitsQuiet info p h =
      AllEntries (λ c s. lit_blocks prog info p h c ≡ some false) (h p).literal_func_callees

  module _ (resolves : Resolves) where
    resolved_blocks :
        (info : Info) (p c : ℕ) (t : List AstPath)
        → Listed info p infos
        → lookup c (start p).inst_callees ≡ some t
        → (g : Heap) → (b : Bool) × (is_blocking prog info g c ≡ some b)
    unfolding is_blocking
    resolved_blocks info p c t listed at g =
        let (q, res) = resolves info p c t listed at in
        (func_blocking g q, ap (read_blocking g) res)

    pub visit_insts-Returns :
        (info : Info) (p : ℕ)
        → Listed info p infos
        → (h : Heap) (d : Bool) → Inv prog infos start h
        → Returns (h, d) (InstsQuiet info p h) (visit_insts prog info p (h, d))
    visit_insts-Returns info p listed h d inv =
        let l = (h p).inst_callees in
        let entries = (inv p).inst_entries in
        let blocks = is_blocking prog info in
        let (pass, e) = visit-returns blocks absorb_inst p l h d (
          AllEntries-map (InstEntry prog infos start p)
            (λ c s. (g : Heap) → (b : Bool) × (blocks g c ≡ some b)) l
            (λ c s entry. resolved_blocks info p c entry.0.0 listed entry.0.1) entries) in
        (
          pass,
          e,
          visit-keeps blocks absorb_inst p (Inv prog infos start) (InstEntry prog infos start p)
              (absorb_inst-Inv prog infos start info p listed) l h d pass entries inv e,
          visit-shrinks blocks absorb_inst p (entries_left infos)
              (λ g c s.
                entries_left-write-le p (absorb_inst c s (g p)) g infos
                  (absorb_inst-size_le c s (g p)))
              l h d pass
              (AllEntries-map (Found l)
                (λ c s.
                  entries_left infos (write p (absorb_inst c s (h p)) h) < entries_left infos h)
                l
                (λ c s found.
                  entries_left-write-lt p (absorb_inst c s (h p)) h infos
                    (absorb_inst-size_lt c s found.0 (h p) found.1) listed)
                (all_Found l))
              e,
          λ quiet. (visit-quiet blocks absorb_inst p l h d pass e quiet).1,
        )

    pub visit_lits-Returns :
        (info : Info) (p : ℕ)
        → Listed info p infos
        → (h : Heap) (d : Bool) → Inv prog infos start h
        → Returns (h, d) (LitsQuiet info p h) (visit_lits prog info p (h, d))
    visit_lits-Returns info p listed h d inv =
        let l = (h p).literal_func_callees in
        let entries = (inv p).lit_entries in
        let blocks = lit_blocks prog info p in
        let (pass, e) = visit-returns blocks absorb_lit p l h d (
          AllEntries-map (LitEntry prog infos start p)
            (λ c s. (g : Heap) → (b : Bool) × (blocks g c ≡ some b)) l
            (λ c s entry g.
              (pointer_blocking g (func_lit_info prog info c (prog.type_args p)), refl))
            entries) in
        (
          pass,
          e,
          visit-keeps blocks absorb_lit p (Inv prog infos start) (LitEntry prog infos start p)
              (absorb_lit-Inv prog infos start info p listed) l h d pass entries inv e,
          visit-shrinks blocks absorb_lit p (entries_left infos)
              (λ g c s.
                entries_left-write-le p (absorb_lit c s (g p)) g infos
                  (absorb_lit-size_le c s (g p)))
              l h d pass
              (AllEntries-map (Found l)
                (λ c s.
                  entries_left infos (write p (absorb_lit c s (h p)) h) < entries_left infos h)
                l
                (λ c s found.
                  entries_left-write-lt p (absorb_lit c s (h p)) h infos
                    (absorb_lit-size_lt c s found.0 (h p) found.1) listed)
                (all_Found l))
              e,
          λ quiet. (visit-quiet blocks absorb_lit p l h d pass e quiet).1,
        )
