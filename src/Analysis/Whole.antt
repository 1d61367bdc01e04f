-- ===== src/Analysis/Whole.antt =====
-- `PropagateAnalysis` as a whole.
use gopherjs.Base.{
  ℕ, ◌<◌, Bool, true, false, Option, some, none, List, [], ◌∷◌, ◌≡◌, ◌↔◌, ℕ_eq, refl, sym, ap, ◌∙◌,
  subst, some_inj, ◌⊎◌, inl, inr,
}
use gopherjs.Base.Assoc.{lookup}
use gopherjs.Analysis.Info.{
  AstPath, DeferStmt, blocking_defer, inst_defer, lit_defer, FuncInfo, Heap, Info, Program,
  nonempty, func_blocking, func_lit_info, read_blocking, pointer_blocking, is_blocking,
}
use gopherjs.Analysis.Propagate.{propagate}
use gopherjs.Analysis.Control.{
  or_rest, defer_blocking, is_any_defer_blocking, propagate_statements, propagate_analysis,
}
use gopherjs.Analysis.MayBlock.{Listed, MayBlock, own, calls_inst, calls_unknown, calls_lit}
use gopherjs.Analysis.Shrinking.{entries_left}
use gopherjs.Analysis.Growing.{Grows}
use gopherjs.Analysis.Marking.{All, All-map}
use gopherjs.Analysis.Statements.{FuncAsks, FuncDone}
use gopherjs.Analysis.Propagated.{IsAnalyzed, propagate-exact}
use gopherjs.Analysis.Finished.{propagate_statements-marks}
use gopherjs.Analysis.Looping.{propagate-Grows}
use gopherjs.Analysis.Quiet.{FuncTells, statements-Kept}

-- A deferred call is a call of its function too: it is among the callees, or a node blocks.
abbrev pub CalledIn : Program → FuncInfo → ℕ → DeferStmt → Type 0
CalledIn prog fi p blocking_defer = nonempty fi.blocking ≡ true
CalledIn prog fi p (inst_defer inst) =
    (sites : List AstPath) × (lookup inst fi.inst_callees ≡ some sites)
CalledIn prog fi p (lit_defer lit args) =
    (args ≡ prog.type_args p) × (site : AstPath) × (lookup lit fi.literal_func_callees ≡ some site)

abbrev pub FuncCalls : Program → FuncInfo → ℕ → Type 0
FuncCalls prog fi p =
    All (λ r. All (CalledIn prog fi p) r.defer_stmts) fi.return_stmts
    × All (CalledIn prog fi p) fi.defer_stmts

module _ (prog : Program) (infos : List Info) (start : Heap) where
  module _ (h : Heap) (ok : IsAnalyzed prog infos start)
      (exact : (p : ℕ) → (func_blocking h p ≡ true) ↔ MayBlock prog infos start p) where
    lit_tells :
        (info : Info) (p lit : ℕ) (site : AstPath) (o : Option ℕ)
        → Listed info p infos
        → lookup lit (start p).literal_func_callees ≡ some site
        → func_lit_info prog info lit (prog.type_args p) ≡ o
        → pointer_blocking h o ≡ true
        → func_blocking h p ≡ true
    lit_tells info p lit site none listed at found blocks =
        (exact p).1 (calls_unknown info p lit site listed at found)
    lit_tells info p lit site (some q) listed at found blocks =
        (exact p).1 (calls_lit info p lit q site listed at found ((exact q).0 blocks))

    defer_tells :
        (info : Info) (p : ℕ) (d : DeferStmt)
        → Listed info p infos
        → CalledIn prog (start p) p d
        → defer_blocking prog info h d ≡ some true
        → func_blocking h p ≡ true
    unfolding defer_blocking is_blocking
    defer_tells info p blocking_defer listed called blocks = (exact p).1 (own p called)
    defer_tells info p (inst_defer inst) listed (sites, at) blocks =
        let (q, found) = ok.resolves info p inst sites listed at in
        (exact p).1 (
          calls_inst info p inst q sites listed at found
            ((exact q).0 (some_inj (sym (ap (read_blocking h) found) ∙ blocks))))
    defer_tells info p (lit_defer lit args) listed (same, site, at) blocks =
        lit_tells info p lit site (func_lit_info prog info lit (prog.type_args p)) listed at refl (
          ap (λ a. pointer_blocking h (func_lit_info prog info lit a)) (sym same) ∙ some_inj blocks)

    or_rest-true :
        (o rest : Option Bool) → or_rest o rest ≡ some true → (o ≡ some true) ⊎ (rest ≡ some true)
    or_rest-true none rest e = absurd (cc e)
    or_rest-true (some true) rest e = inl refl
    or_rest-true (some false) rest e = inr e

    any_tells :
        (info : Info) (p : ℕ) (ds : List DeferStmt)
        → Listed info p infos
        → All (CalledIn prog (start p) p) ds
        → is_any_defer_blocking prog info h ds ≡ some true
        → func_blocking h p ≡ true
    unfolding is_any_defer_blocking
    any_tells info p [] listed called e = absurd (cc e)
    any_tells info p (d ∷ ds) listed (one, others) e =
        elim (or_rest-true (defer_blocking prog info h d) (is_any_defer_blocking prog info h ds)
          e) [
            | inl this ↦ defer_tells info p d listed one this
            | inr behind ↦ any_tells info p ds listed others behind
          ]

    defer_answers :
        (info : Info) (p : ℕ) (d : DeferStmt)
        → Listed info p infos
        → CalledIn prog (start p) p d
        → (b : Bool) × (defer_blocking prog info h d ≡ some b)
    unfolding defer_blocking is_blocking
    defer_answers info p blocking_defer listed called = (true, refl)
    defer_answers info p (inst_defer inst) listed (sites, at) =
        let (q, found) = ok.resolves info p inst sites listed at in
        (func_blocking h q, ap (read_blocking h) found)
    defer_answers info p (lit_defer lit args) listed called =
        (pointer_blocking h (func_lit_info prog info lit args), refl)

    or_rest-answers :
        (o rest : Option Bool) (c : Bool)
        → rest ≡ some c
        → ((b : Bool) × (o ≡ some b))
        → (b : Bool) × (or_rest o rest ≡ some b)
    or_rest-answers none rest c e (b, at) = absurd (cc at)
    or_rest-answers (some true) rest c e at = (true, refl)
    or_rest-answers (some false) rest c e at = (c, e)

    any_answers :
        (info : Info) (p : ℕ) (ds : List DeferStmt)
        → Listed info p infos
        → All (CalledIn prog (start p) p) ds
        → (b : Bool) × (is_any_defer_blocking prog info h ds ≡ some b)
    unfolding is_any_defer_blocking
    any_answers info p [] listed called = (false, refl)
    any_answers info p (d ∷ ds) listed (one, others) =
        let (c, e) = any_answers info p ds listed others in
        or_rest-answers (defer_blocking prog info h d) (is_any_defer_blocking prog info h ds) c e
          (defer_answers info p d listed one)

    module _ (grown : Grows start h) where
      func_asks :
          (info : Info) (p : ℕ)
          → Listed info p infos
          → FuncCalls prog (start p) p
          → FuncAsks prog h info p
      func_asks info p listed (returns, defers) = (
        λ _.
            subst
              (All (λ r. (b : Bool) × (is_any_defer_blocking prog info h r.defer_stmts ≡ some b)))
              (sym (grown p).returns)
              (All-map (λ r. All (CalledIn prog (start p) p) r.defer_stmts)
                (λ r. (b : Bool) × (is_any_defer_blocking prog info h r.defer_stmts ≡ some b))
                (start p).return_stmts (λ r c. any_answers info p r.defer_stmts listed c) returns),
        λ _.
            subst (λ ds. (b : Bool) × (is_any_defer_blocking prog info h ds ≡ some b))
              (sym (grown p).defers) (any_answers info p (start p).defer_stmts listed defers),
      )

      func_tells :
          (info : Info) (p : ℕ)
          → Listed info p infos
          → FuncCalls prog (start p) p
          → FuncTells h prog info p
      func_tells info p listed (returns, defers) = (
        subst
            (All (λ r.
              is_any_defer_blocking prog info h r.defer_stmts ≡ some true
              → func_blocking h p ≡ true))
            (sym (grown p).returns)
            (All-map (λ r. All (CalledIn prog (start p) p) r.defer_stmts)
              (λ r.
                is_any_defer_blocking prog info h r.defer_stmts ≡ some true
                → func_blocking h p ≡ true)
              (start p).return_stmts (λ r c. any_tells info p r.defer_stmts listed c) returns),
        subst (λ ds. is_any_defer_blocking prog info h ds ≡ some true → func_blocking h p ≡ true)
            (sym (grown p).defers) (any_tells info p (start p).defer_stmts listed defers),
      )

  both_loops :
      (fuel : ℕ) (mid last : Heap)
      → propagate prog fuel infos start ≡ some mid
      → propagate_statements prog infos mid ≡ some last
      → propagate_analysis prog fuel infos start ≡ some last
  unfolding propagate_analysis
  both_loops fuel mid last e e' = rw e e'

  -- `PropagateAnalysis`, on cells as `AnalyzePkg` leaves them, where every deferred call is among the
  -- callees of its function or blocks, and with more fuel than there are callees: it ends without a
  -- panic, afterwards exactly the functions are blocking that may block, and their return and
  -- continue statements that have to block after the first loop are marked.
  pub propagate_analysis-exact :
      (fuel : ℕ)
      → IsAnalyzed prog infos start
      → ((info : Info) (p : ℕ) → Listed info p infos → FuncCalls prog (start p) p)
      → entries_left infos start < fuel
      → (mid last : Heap) × (propagate prog fuel infos start ≡ some mid)
        × (propagate_analysis prog fuel infos start ≡ some last)
        × ((p : ℕ) → (func_blocking last p ≡ true) ↔ MayBlock prog infos start p)
        × ((info : Info) (p : ℕ) → Listed info p infos → FuncDone prog mid info p last)
  propagate_analysis-exact fuel ok called enough =
      let (mid, e, exact) = propagate-exact prog infos start fuel ok enough in
      let grown = propagate-Grows prog fuel infos start mid e in
      let (last, e', _, done) =
        propagate_statements-marks prog mid infos
          (λ info p l. func_asks mid ok exact grown info p l (called info p l)) in
      let same =
        statements-Kept mid prog infos mid
          (λ q. record { blocks = refl; gotos = refl; returns = refl; defers = refl })
          (λ info p l. func_tells mid ok exact grown info p l (called info p l)) last e' in
      (
        mid,
        last,
        e,
        both_loops fuel mid last e e',
        λ p. (λ b. (exact p).0 (sym (same p).blocks ∙ b), λ m. (same p).blocks ∙ (exact p).1 m),
        done,
      )
