-- ===== src/Analysis/Quiet.antt =====
-- The second loop of `PropagateAnalysis` makes no function blocking that was not.
use gopherjs.Base.{
  ℕ, Bool, true, false, Option, some, none, List, [], ◌∷◌, ◌≡◌, ℕ_eq, contains, refl, sym, ap, ◌∙◌,
  subst, some_inj, arith, nat_eq_iff,
}
use gopherjs.Analysis.Info.{
  AstPath, DeferStmt, blocking_defer, inst_defer, lit_defer, ReturnStmt, ContinueStmt, FuncInfo,
  Heap, Info, Program, nonempty, func_blocking, func_lit_info, resolve, read_blocking,
  pointer_blocking, is_blocking, mark_blocking,
}
use gopherjs.Analysis.Control.{
  or_rest, defer_blocking, is_any_defer_blocking, mark_at, mark_returns, mark_if, visit_returns,
  returns_if, returns_by, propagate_return_blocking, visit_continues, propagate_continue_blocking,
  propagate_control, propagate_statements, then_do,
}
use gopherjs.Analysis.Invariant.{write-all}
use gopherjs.Analysis.Growing.{mark_blocking-IsGrown, nonempty-grows}
use gopherjs.Analysis.Marking.{All}
use gopherjs.Analysis.MayBlock.{Listed, here, later}

-- A function is blocking as before, with the statements that it had.
pub record SameCell (fi old : FuncInfo) : Type 0 where
  pub blocks : nonempty fi.blocking ≡ nonempty old.blocking
  pub gotos : fi.goto_label ≡ old.goto_label
  pub returns : fi.return_stmts ≡ old.return_stmts
  pub defers : fi.defer_stmts ≡ old.defer_stmts

contains-first : (p : ℕ) (ps : List ℕ) → contains (p ∷ ps) p ≡ true
contains-first p ps = ground (arith, nat_eq_iff p p)

contains-behind : (p q : ℕ) (ps : List ℕ) → contains ps q ≡ true → contains (p ∷ ps) q ≡ true
contains-behind p q ps c = ground arith

module _ (start : Heap) where
  abbrev pub Same : Heap → Type 0
  Same h = (q : ℕ) → SameCell (h q) (start q)

  -- What a loop returns has the same blocking functions.
  abbrev pub Kept : Option Heap → Type 0
  Kept o = (h : Heap) → o ≡ some h → Same h

  Kept-some : (h : Heap) → Same h → Kept (some h)
  Kept-some h same last e q = subst (λ (r : Heap). SameCell (r q) (start q)) (some_inj e) (same q)

  Kept-then :
      {A : Type 0} (o : Option A) (f : A → Option Heap)
      → ((a : A) → o ≡ some a → Kept (f a))
      → Kept (then_do o f)
  Kept-then none f k h e = absurd (cc e)
  Kept-then (some a) f k h e = k a refl h e

  module _ (prog : Program) (info : Info) (h : Heap) (same : Same h) where
    read_same : (o : Option ℕ) → read_blocking h o ≡ read_blocking start o
    read_same none = refl
    read_same (some q) = ap some (same q).blocks

    pointer_same : (o : Option ℕ) → pointer_blocking h o ≡ pointer_blocking start o
    pointer_same none = refl
    pointer_same (some q) = (same q).blocks

    defer_same : (d : DeferStmt) → defer_blocking prog info h d ≡ defer_blocking prog info start d
    unfolding defer_blocking is_blocking
    defer_same blocking_defer = refl
    defer_same (inst_defer inst) = read_same (resolve prog info inst)
    defer_same (lit_defer lit args) = ap some (pointer_same (func_lit_info prog info lit args))

    pub any_same :
        (ds : List DeferStmt)
        → is_any_defer_blocking prog info h ds ≡ is_any_defer_blocking prog info start ds
    unfolding is_any_defer_blocking
    any_same [] = refl
    any_same (d ∷ ds) =
        ap (λ o. or_rest o (is_any_defer_blocking prog info h ds)) (defer_same d)
        ∙ ap (or_rest (defer_blocking prog info start d)) (any_same ds)

  module _ (prog : Program) (info : Info) (p : ℕ) where
    -- A mark in a function that blocks.
    marked_cell :
        (stack : AstPath) (fi : FuncInfo)
        → SameCell fi (start p)
        → func_blocking start p ≡ true
        → SameCell (mark_blocking stack fi) (start p)
    marked_cell stack fi same blocks =
        let g = mark_blocking-IsGrown stack fi in
        record {
          blocks =
              nonempty-grows fi.blocking (mark_blocking stack fi).blocking g.marks
                (same.blocks ∙ blocks)
              ∙ sym blocks;
          gotos = g.gotos ∙ same.gotos;
          returns = g.returns ∙ same.returns;
          defers = g.defers ∙ same.defers;
        }

    mark-Same :
        (stack : AstPath) (h : Heap)
        → Same h
        → func_blocking start p ≡ true
        → Same (mark_at prog info p stack h)
    mark-Same stack h same blocks =
        write-all (λ q fi. SameCell fi (start q)) p (mark_blocking stack (h p)) h
          (marked_cell stack (h p) (same p) blocks) same

    mark_if-Same :
        (stack : AstPath) (b : Bool) (h : Heap)
        → Same h
        → (b ≡ true → func_blocking start p ≡ true)
        → Same (mark_if prog info p stack b h)
    mark_if-Same stack true h same blocks = mark-Same stack h same (blocks refl)
    mark_if-Same stack false h same blocks = same

    mark_returns-Same :
        (returns : List ReturnStmt) (h : Heap)
        → Same h
        → func_blocking start p ≡ true
        → Same (mark_returns prog info p returns h)
    unfolding mark_returns
    mark_returns-Same [] h same blocks = same
    mark_returns-Same (r ∷ returns) h same blocks =
        mark_returns-Same returns (mark_at prog info p r.analyze_stack h)
          (mark-Same r.analyze_stack h same blocks) blocks

    -- Where a defer blocks, the function does.
    abbrev pub Tells : List DeferStmt → Type 0
    Tells defers =
        is_any_defer_blocking prog info start defers ≡ some true → func_blocking start p ≡ true

    visit_returns-Kept :
        (returns : List ReturnStmt) (h : Heap)
        → Same h
        → All (λ r. Tells r.defer_stmts) returns
        → Kept (visit_returns prog info p returns h)
    unfolding visit_returns
    visit_returns-Kept [] h same tells = Kept-some h same
    visit_returns-Kept (r ∷ returns) h same (tell, tells) =
        Kept-then (is_any_defer_blocking prog info h r.defer_stmts)
          (λ b. visit_returns prog info p returns (mark_if prog info p r.analyze_stack b h))
          (λ b at.
            visit_returns-Kept returns (mark_if prog info p r.analyze_stack b h)
              (mark_if-Same r.analyze_stack b h same
                (λ t. tell (sym (any_same prog info h same r.defer_stmts) ∙ at ∙ ap some t)))
              tells)

    nonempty_of : (xs : List ℕ) (n : ℕ) → contains xs n ≡ true → nonempty xs ≡ true
    nonempty_of [] n h = h
    nonempty_of (x ∷ xs) n h = refl

    visit_continues-Same :
        (continues : List ContinueStmt) (h : Heap)
        → Same h
        → Same (visit_continues prog info p continues h)
    unfolding visit_continues
    visit_continues-Same [] h same = same
    visit_continues-Same (c ∷ continues) h same =
        visit_continues-Same continues
          (mark_if prog info p c.analyze_stack (contains (h p).blocking c.post) h)
          (mark_if-Same c.analyze_stack (contains (h p).blocking c.post) h same
            (λ t. sym (same p).blocks ∙ nonempty_of (h p).blocking c.post t))

    -- Where a defer of a function blocks, whether it is asked for a return or for all of them, the
    -- function does.
    abbrev pub FuncTells : Type 0
    FuncTells = All (λ r. Tells r.defer_stmts) (start p).return_stmts × Tells (start p).defer_stmts

    returns_if-Kept :
        (b : Bool) (fi : FuncInfo) (h : Heap)
        → Same h
        → (b ≡ true → func_blocking start p ≡ true)
        → Kept (some (returns_if prog info p fi.return_stmts b h))
    returns_if-Kept true fi h same blocks =
        Kept-some (mark_returns prog info p fi.return_stmts h)
          (mark_returns-Same fi.return_stmts h same (blocks refl))
    returns_if-Kept false fi h same blocks = Kept-some h same

    returns_by-Kept :
        (gotos : Bool) (fi : FuncInfo) (h : Heap)
        → Same h
        → All (λ r. Tells r.defer_stmts) fi.return_stmts
        → Tells fi.defer_stmts
        → Kept (returns_by prog info gotos p fi h)
    returns_by-Kept false fi h same tells tell = visit_returns-Kept fi.return_stmts h same tells
    returns_by-Kept true fi h same tells tell =
        Kept-then (is_any_defer_blocking prog info h fi.defer_stmts)
          (λ b. some (returns_if prog info p fi.return_stmts b h))
          (λ b at.
            returns_if-Kept b fi h same
              (λ t. tell (sym (any_same prog info h same fi.defer_stmts) ∙ at ∙ ap some t)))

    return_blocking-Kept :
        (h : Heap) → Same h → FuncTells → Kept (propagate_return_blocking prog info p h)
    unfolding propagate_return_blocking
    return_blocking-Kept h same (tells, tell) =
        returns_by-Kept (nonempty (h p).goto_label) (h p) h same
          (subst (All (λ r. Tells r.defer_stmts)) (sym (same p).returns) tells)
          (subst Tells (sym (same p).defers) tell)

    continue_blocking-Same : (h : Heap) → Same h → Same (propagate_continue_blocking prog info p h)
    unfolding propagate_continue_blocking
    continue_blocking-Same h same = visit_continues-Same (h p).continue_stmts h same

  module _ (prog : Program) where
    control-Kept :
        (info : Info) (ps : List ℕ) (h : Heap)
        → Same h
        → ((p : ℕ) → contains ps p ≡ true → FuncTells prog info p)
        → Kept (propagate_control prog info ps h)
    unfolding propagate_control
    control-Kept info [] h same tells = Kept-some h same
    control-Kept info (p ∷ ps) h same tells =
        Kept-then (propagate_return_blocking prog info p h)
          (λ h'. propagate_control prog info ps (propagate_continue_blocking prog info p h'))
          (λ h' at.
            control-Kept info ps (propagate_continue_blocking prog info p h')
              (continue_blocking-Same prog info p h'
                (return_blocking-Kept prog info p h same (tells p (contains-first p ps)) h' at))
              (λ q c. tells q (contains-behind p q ps c)))

    -- The second loop leaves the functions blocking that were, and no others.
    pub statements-Kept :
        (infos : List Info) (h : Heap)
        → Same h
        → ((info : Info) (p : ℕ) → Listed info p infos → FuncTells prog info p)
        → Kept (propagate_statements prog infos h)
    unfolding propagate_statements
    statements-Kept [] h same tells = Kept-some h same
    statements-Kept (info ∷ infos) h same tells =
        Kept-then (propagate_control prog info info.all_infos h) (propagate_statements prog infos)
          (λ h' at.
            statements-Kept infos h'
              (control-Kept info info.all_infos h same (λ p c. tells info p (here infos c)) h' at)
              (λ i p l. tells i p (later info infos l)))
