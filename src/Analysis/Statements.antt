-- ===== src/Analysis/Statements.antt =====
-- The second half of `PropagateAnalysis`, over all functions.
use gopherjs.Base.{
  ℕ, Bool, true, false, some, List, [], ◌∷◌, ◌≡◌, ℕ_eq, contains, inl, inr, Bool-cases, refl, sym,
  ◌∙◌, some_inj,
}
use gopherjs.Analysis.Info.{
  DeferStmt, ReturnStmt, ContinueStmt, FuncInfo, Heap, Info, Program, nonempty,
}
use gopherjs.Analysis.Control.{
  is_any_defer_blocking, mark_returns, returns_by, propagate_return_blocking,
}
use gopherjs.Analysis.Growing.{
  Marked, IsGrown, IsGrown-refl, Grows, Marked-IsGrown, any_defer-Rises,
}
use gopherjs.Analysis.Marking.{
  All, All-map, Answers, ReturnsMarked, AllMarked, mark_returns_lem, visit_returns_lem,
}

module _ (prog : Program) (start : Heap) where
  -- `IsBlocking` has the information for the defers of a function.
  abbrev pub Asks : Info → List ℕ → List ReturnStmt → List DeferStmt → Type 0
  Asks info gotos returns defers =
      (nonempty gotos ≡ false → Answers prog info start returns)
      × (nonempty gotos ≡ true
          → (b : Bool) × (is_any_defer_blocking prog info start defers ≡ some b))

  -- The returns of a function are marked: without a goto those with a blocking defer, and with one
  -- all of them, if any defer blocks.
  abbrev pub ReturnsDone : Info → List ℕ → List ReturnStmt → List DeferStmt → FuncInfo → Type 0
  ReturnsDone info gotos returns defers fi =
      (nonempty gotos ≡ false → ReturnsMarked prog info start returns fi)
      × (nonempty gotos ≡ true
          → is_any_defer_blocking prog info start defers ≡ some true
          → AllMarked prog info start returns fi)

  abbrev pub ContinuesDone : List ContinueStmt → List ℕ → FuncInfo → Type 0
  ContinuesDone continues blocking fi =
      All (λ c. contains blocking c.post ≡ true → Marked c.analyze_stack fi) continues

  pub ReturnsDone-IsGrown :
      (info : Info) (gotos : List ℕ) (returns : List ReturnStmt) (defers : List DeferStmt)
      (fi fi' : FuncInfo)
      → IsGrown fi fi'
      → ReturnsDone info gotos returns defers fi
      → ReturnsDone info gotos returns defers fi'
  ReturnsDone-IsGrown info gotos returns defers fi fi' grown (some_marked, all_marked) = (
    λ h.
        All-map
          (λ r.
            is_any_defer_blocking prog info start r.defer_stmts ≡ some true
            → Marked r.analyze_stack fi)
          (λ r.
            is_any_defer_blocking prog info start r.defer_stmts ≡ some true
            → Marked r.analyze_stack fi')
          returns (λ r f b. Marked-IsGrown r.analyze_stack fi fi' grown (f b)) (some_marked h),
    λ h b.
        All-map (λ r. Marked r.analyze_stack fi) (λ r. Marked r.analyze_stack fi') returns
          (λ r m. Marked-IsGrown r.analyze_stack fi fi' grown m) (all_marked h b),
  )

  ContinuesDone-IsGrown :
      (continues : List ContinueStmt) (blocking : List ℕ) (fi fi' : FuncInfo)
      → IsGrown fi fi'
      → ContinuesDone continues blocking fi
      → ContinuesDone continues blocking fi'
  ContinuesDone-IsGrown continues blocking fi fi' grown done =
      All-map (λ c. contains blocking c.post ≡ true → Marked c.analyze_stack fi)
        (λ c. contains blocking c.post ≡ true → Marked c.analyze_stack fi') continues
        (λ c f b. Marked-IsGrown c.analyze_stack fi fi' grown (f b)) done

  returns_by_lem :
      (info : Info) (p : ℕ) (gotos : List ℕ) (fi : FuncInfo) (h : Heap)
      → Grows start h
      → Asks info gotos fi.return_stmts fi.defer_stmts
      → (h' : Heap) × (returns_by prog info (nonempty gotos) p fi h ≡ some h')
        × Grows h h'
        × ReturnsDone info gotos fi.return_stmts fi.defer_stmts (h' p)
  returns_by_lem info p [] fi h grows (asks, _) =
      let (h', e, grown, marked) =
        visit_returns_lem prog info start p fi.return_stmts h grows (asks refl) in
      (h', e, grown, (λ _. marked, λ f. absurd (cc f)))
  returns_by_lem info p (g ∷ gotos) fi h grows (_, asks) =
      let (b, at) = asks refl in
      let (c, asked, rises) = any_defer-Rises start h grows prog info fi.defer_stmts b at in
      let (grown, marked) = mark_returns_lem prog info start p fi.return_stmts h in
      elim (Bool-cases c) [
        | inl up ↦ (
          mark_returns prog info p fi.return_stmts h,
          rw (asked, up) refl,
          grown,
          (λ f. absurd (cc f), λ _ _. marked),
        )
        | inr down ↦ (
          h,
          rw (asked, down) refl,
          λ q. IsGrown-refl (h q),
          (
            λ f. absurd (cc f),
            λ _ blocks. absurd (cc (sym down ∙ rises (some_inj (sym at ∙ blocks)))),
          ),
        )
      ]

  -- Both halves of the work on one function, which is as at the start but for its marks.
  abbrev pub FuncAsks : Info → ℕ → Type 0
  FuncAsks info p = Asks info (start p).goto_label (start p).return_stmts (start p).defer_stmts

  abbrev pub FuncDone : Info → ℕ → Heap → Type 0
  FuncDone info p h =
      ReturnsDone info (start p).goto_label (start p).return_stmts (start p).defer_stmts (h p)
      × ContinuesDone (start p).continue_stmts (start p).blocking (h p)

  pub FuncDone-Grows :
      (info : Info) (p : ℕ) (h h' : Heap) → Grows h h' → FuncDone info p h → FuncDone info p h'
  FuncDone-Grows info p h h' grows (returns, continues) = (
    ReturnsDone-IsGrown info (start p).goto_label (start p).return_stmts (start p).defer_stmts (h p)
        (h' p) (grows p) returns,
    ContinuesDone-IsGrown (start p).continue_stmts (start p).blocking (h p) (h' p) (grows p)
        continues,
  )

  pub returns_of_func :
      (info : Info) (p : ℕ) (h : Heap)
      → Grows start h
      → FuncAsks info p
      → (h' : Heap) × (propagate_return_blocking prog info p h ≡ some h')
        × Grows h h'
        × ReturnsDone info (start p).goto_label (start p).return_stmts (start p).defer_stmts (h' p)
  unfolding propagate_return_blocking
  returns_of_func info p h grows asks =
      rw (← (grows p).gotos, ← (grows p).returns, ← (grows p).defers)
        (returns_by_lem info p (h p).goto_label (h p) h grows
          (rw ((grows p).gotos, (grows p).returns, (grows p).defers) asks))
