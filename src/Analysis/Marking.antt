-- ===== src/Analysis/Marking.antt =====
-- Every statement that has to block is marked.
use gopherjs.Base.{
  ℕ, Bool, true, false, some, List, [], ◌∷◌, ◌≡◌, ℕ_eq, contains, refl, sym, ◌∙◌, some_inj,
}
use gopherjs.Analysis.Info.{AstPath, ReturnStmt, ContinueStmt, FuncInfo, Heap, Info, Program}
use gopherjs.Analysis.Control.{
  is_any_defer_blocking, mark_at, mark_returns, mark_if, visit_returns, visit_continues,
}
use gopherjs.Analysis.Growing.{
  Marked, IsGrown-refl, Grows, Grows-trans, mark_at-Grows, mark_at-Marked, Marked-IsGrown,
  any_defer-Rises,
}

abbrev pub All : {A : Type 0} → (A → Type 0) → List A → Type 0
All P [] = Unit
All P (x ∷ xs) = P x × All P xs

pub All-map :
    {A : Type 0} (P Q : A → Type 0) (xs : List A) → ((x : A) → P x → Q x) → All P xs → All Q xs
All-map P Q [] f all = tt
All-map P Q (x ∷ xs) f (head, tail) = (f x head, All-map P Q xs f tail)

module _ (prog : Program) (info : Info) (start : Heap) where
  -- The defers of a return statement that are asked for have their information.
  abbrev pub Answers : List ReturnStmt → Type 0
  Answers returns =
      All (λ r. (b : Bool) × (is_any_defer_blocking prog info start r.defer_stmts ≡ some b)) returns

  abbrev pub ReturnsMarked : List ReturnStmt → FuncInfo → Type 0
  ReturnsMarked returns fi =
      All
        (λ r.
          is_any_defer_blocking prog info start r.defer_stmts ≡ some true
          → Marked r.analyze_stack fi)
        returns

  abbrev pub AllMarked : List ReturnStmt → FuncInfo → Type 0
  AllMarked returns fi = All (λ r. Marked r.analyze_stack fi) returns

  pub mark_returns_lem :
      (p : ℕ) (returns : List ReturnStmt) (h : Heap)
      → Grows h (mark_returns prog info p returns h)
        × AllMarked returns (mark_returns prog info p returns h p)
  unfolding mark_returns
  mark_returns_lem p [] h = (λ q. IsGrown-refl (h q), tt)
  mark_returns_lem p (r ∷ returns) h =
      let h' = mark_at prog info p r.analyze_stack h in
      let (grows, marked) = mark_returns_lem p returns h' in
      (
        Grows-trans h h' (mark_returns prog info p returns h') (mark_at-Grows p r.analyze_stack h)
            grows,
        (
          Marked-IsGrown r.analyze_stack (h' p) (mark_returns prog info p returns h' p) (grows p)
              (mark_at-Marked p r.analyze_stack h),
          marked,
        ),
      )

  mark_if-Grows :
      (p : ℕ) (stack : AstPath) (b : Bool) (h : Heap) → Grows h (mark_if prog info p stack b h)
  mark_if-Grows p stack true h = mark_at-Grows p stack h
  mark_if-Grows p stack false h = λ q. IsGrown-refl (h q)

  mark_if-Marked :
      (p : ℕ) (stack : AstPath) (b : Bool) (h : Heap)
      → b ≡ true
      → Marked stack (mark_if prog info p stack b h p)
  mark_if-Marked p stack true h t = mark_at-Marked p stack h
  mark_if-Marked p stack false h t = absurd (cc t)

  pub visit_returns_lem :
      (p : ℕ) (returns : List ReturnStmt) (h : Heap)
      → Grows start h
      → Answers returns
      → (h' : Heap) × (visit_returns prog info p returns h ≡ some h')
        × Grows h h'
        × ReturnsMarked returns (h' p)
  unfolding visit_returns
  visit_returns_lem p [] h grows answers = (h, refl, λ q. IsGrown-refl (h q), tt)
  visit_returns_lem p (r ∷ returns) h grows ((b, at), answers) =
      let (c, asked, rises) = any_defer-Rises start h grows prog info r.defer_stmts b at in
      let h_one = mark_if prog info p r.analyze_stack c h in
      let grown_one = mark_if-Grows p r.analyze_stack c h in
      let (h_two, e, grown_two, marked) =
        visit_returns_lem p returns h_one (Grows-trans start h h_one grows grown_one) answers in
      (
        h_two,
        rw asked e,
        Grows-trans h h_one h_two grown_one grown_two,
        (
          λ blocks.
              Marked-IsGrown r.analyze_stack (h_one p) (h_two p) (grown_two p)
                (mark_if-Marked p r.analyze_stack c h (rises (some_inj (sym at ∙ blocks)))),
          marked,
        ),
      )

  pub visit_continues_lem :
      (p : ℕ) (continues : List ContinueStmt) (h : Heap)
      → Grows h (visit_continues prog info p continues h)
        × All
            (λ c.
              contains (h p).blocking c.post ≡ true
              → Marked c.analyze_stack (visit_continues prog info p continues h p))
            continues
  unfolding visit_continues
  visit_continues_lem p [] h = (λ q. IsGrown-refl (h q), tt)
  visit_continues_lem p (c ∷ continues) h =
      let b = contains (h p).blocking c.post in
      let h' = mark_if prog info p c.analyze_stack b h in
      let grown = mark_if-Grows p c.analyze_stack b h in
      let (grows, marked) = visit_continues_lem p continues h' in
      let last = visit_continues prog info p continues h' in
      (
        Grows-trans h h' last grown grows,
        (
          λ blocks.
              Marked-IsGrown c.analyze_stack (h' p) (last p) (grows p)
                (mark_if-Marked p c.analyze_stack b h blocks),
          All-map (λ d. contains (h' p).blocking d.post ≡ true → Marked d.analyze_stack (last p))
              (λ d. contains (h p).blocking d.post ≡ true → Marked d.analyze_stack (last p))
              continues (λ d f blocks. f ((grown p).marks d.post blocks)) marked,
        ),
      )
