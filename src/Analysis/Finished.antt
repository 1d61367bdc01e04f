-- ===== src/Analysis/Finished.antt =====
-- Every return and continue statement that has to block does so at the end.
use gopherjs.Base.{
  ℕ, true, some, List, [], ◌∷◌, ◌≡◌, ℕ_eq, nat_eq, nat_eq_iff, contains, inl, inr, Bool-cases, refl,
  arith,
}
use gopherjs.Analysis.Info.{Heap, Info, Program}
use gopherjs.Analysis.Control.{
  propagate_return_blocking, visit_continues, propagate_continue_blocking, propagate_control,
  propagate_statements,
}
use gopherjs.Analysis.MayBlock.{Listed, here, later}
use gopherjs.Analysis.Growing.{Marked, IsGrown-refl, Grows, Grows-trans}
use gopherjs.Analysis.Marking.{All-map, visit_continues_lem}
use gopherjs.Analysis.Statements.{
  FuncAsks, FuncDone, FuncDone-Grows, ContinuesDone, ReturnsDone-IsGrown, returns_of_func,
}

module _ (prog : Program) (start : Heap) where
  continues_of_func :
      (info : Info) (p : ℕ) (h : Heap)
      → Grows start h
      → Grows h (propagate_continue_blocking prog info p h)
        × ContinuesDone prog start
            (start p).continue_stmts
            (start p).blocking
            (propagate_continue_blocking prog info p h p)
  unfolding propagate_continue_blocking
  continues_of_func info p h grows =
      let g = grows p in
      let (grown, done) = visit_continues_lem prog info start p (h p).continue_stmts h in
      let last = visit_continues prog info p (h p).continue_stmts h in
      (
        grown,
        rw (← g.continues) (
            All-map (λ c. contains (h p).blocking c.post ≡ true → Marked c.analyze_stack (last p))
              (λ c. contains (start p).blocking c.post ≡ true → Marked c.analyze_stack (last p))
              (h p).continue_stmts (λ c f b. f (g.marks c.post b)) done),
      )

  func_lem :
      (info : Info) (p : ℕ) (h : Heap)
      → Grows start h
      → FuncAsks prog start info p
      → (h' : Heap) × (propagate_return_blocking prog info p h ≡ some h')
        × Grows h (propagate_continue_blocking prog info p h')
        × FuncDone prog start info p (propagate_continue_blocking prog info p h')
  func_lem info p h grows asks =
      let (h', e, grown, returns) = returns_of_func prog start info p h grows asks in
      let (grown', continues) = continues_of_func info p h' (Grows-trans start h h' grows grown) in
      let last = propagate_continue_blocking prog info p h' in
      (
        h',
        e,
        Grows-trans h h' last grown grown',
        (
          ReturnsDone-IsGrown prog start info (start p).goto_label (start p).return_stmts
              (start p).defer_stmts (h' p) (last p) (grown' p) returns,
          continues,
        ),
      )

  control_lem :
      (info : Info) (ps : List ℕ)
      → ((p : ℕ) → contains ps p ≡ true → FuncAsks prog start info p)
      → (h : Heap) → Grows start h
      → (h' : Heap) × (propagate_control prog info ps h ≡ some h')
        × Grows h h'
        × ((p : ℕ) → contains ps p ≡ true → FuncDone prog start info p h')
  unfolding propagate_control
  control_lem info [] asks h grows = (h, refl, λ q. IsGrown-refl (h q), λ p c. absurd (cc c))
  control_lem info (p ∷ ps) asks h grows =
      let (h', e, grown, done) =
        func_lem info p h grows (asks p (ground (arith, nat_eq_iff p p))) in
      let mid = propagate_continue_blocking prog info p h' in
      let (last, e', grown', done') =
        control_lem info ps (λ q c. asks q (ground arith)) mid
          (Grows-trans start h mid grows grown) in
      (
        last,
        rw e e',
        Grows-trans h mid last grown grown',
        λ q c. elim (Bool-cases (nat_eq q p)) [
          | inl eq ↦
              rw ((nat_eq_iff q p).0 eq) (FuncDone-Grows prog start info p mid last grown' done)
          | inr differs ↦ done' q (rw differs at c)
        ],
      )

  first_or_rest :
      (info : Info) (infos : List Info) (mid last : Heap)
      → Grows mid last
      → ((p : ℕ) → contains info.all_infos p ≡ true → FuncDone prog start info p mid)
      → ((i : Info) (p : ℕ) → Listed i p infos → FuncDone prog start i p last)
      → (i : Info) (p : ℕ) → Listed i p (info ∷ infos)
      → FuncDone prog start i p last
  first_or_rest info infos mid last grown first rest i p (here _ c) =
      FuncDone-Grows prog start info p mid last grown (first p c)
  first_or_rest info infos mid last grown first rest i p (later _ _ l) = rest i p l

  statements_lem :
      (infos : List Info)
      → ((info : Info) (p : ℕ) → Listed info p infos → FuncAsks prog start info p)
      → (h : Heap) → Grows start h
      → (h' : Heap) × (propagate_statements prog infos h ≡ some h')
        × Grows h h'
        × ((info : Info) (p : ℕ) → Listed info p infos → FuncDone prog start info p h')
  unfolding propagate_statements
  statements_lem [] asks h grows = (h, refl, λ q. IsGrown-refl (h q), λ info p l. elim l [ ])
  statements_lem (info ∷ infos) asks h grows =
      let (mid, e, grown, done) =
        control_lem info info.all_infos (λ p c. asks info p (here infos c)) h grows in
      let (last, e', grown', done') =
        statements_lem infos (λ i p l. asks i p (later info infos l)) mid
          (Grows-trans start h mid grows grown) in
      (
        last,
        rw e e',
        Grows-trans h mid last grown grown',
        λ i p l. first_or_rest info infos mid last grown' done done' i p l,
      )

  -- The loop over the control statements ends without a panic when the defers of the functions have
  -- their information. It takes no mark away. At its end every function of the packages has marked
  -- the paths of its returns with a blocking defer (of all its returns, if it has a goto and any
  -- defer blocks) and of the continues whose post statement blocks.
  pub propagate_statements-marks :
      (infos : List Info)
      → ((info : Info) (p : ℕ) → Listed info p infos → FuncAsks prog start info p)
      → (h : Heap) × (propagate_statements prog infos start ≡ some h)
        × Grows start h
        × ((info : Info) (p : ℕ) → Listed info p infos → FuncDone prog start info p h)
  propagate_statements-marks infos asks =
      statements_lem infos asks start (λ p. IsGrown-refl (start p))
