-- ===== src/Analysis/Growing.antt =====
-- Marking adds blocking nodes and changes nothing else that the control statements ask for.
use gopherjs.Base.{
  ℕ, Bool, true, false, Option, some, none, List, [], ◌∷◌, ◌≡◌, ℕ_eq, nat_eq, nat_eq_iff, contains,
  insert, contains-insert, inl, inr, Bool-cases, refl, ap, ◌∙◌, arith, some_inj,
}
use gopherjs.Analysis.Info.{
  AstPath, DeferStmt, blocking_defer, inst_defer, lit_defer, FuncInfo, Heap, write, Info, Program,
  nonempty, func_blocking, pointer_blocking, func_lit_info, resolve, read_blocking, is_blocking,
  mark_blocking,
}
use gopherjs.Analysis.Control.{or_rest, defer_blocking, is_any_defer_blocking}
use gopherjs.Analysis.Invariant.{write-all}

-- All nodes of a path are marked.
abbrev pub Marked : AstPath → FuncInfo → Type 0
Marked stack fi = (n : ℕ) → contains stack n ≡ true → contains fi.blocking n ≡ true

pub record IsGrown (fi fi' : FuncInfo) : Type 0 where
  pub marks : (n : ℕ) → contains fi.blocking n ≡ true → contains fi'.blocking n ≡ true
  pub gotos : fi'.goto_label ≡ fi.goto_label
  pub continues : fi'.continue_stmts ≡ fi.continue_stmts
  pub returns : fi'.return_stmts ≡ fi.return_stmts
  pub defers : fi'.defer_stmts ≡ fi.defer_stmts

pub IsGrown-refl : (fi : FuncInfo) → IsGrown fi fi
IsGrown-refl fi = record {
  marks = λ n h. h;
  gotos = refl;
  continues = refl;
  returns = refl;
  defers = refl;
}

pub IsGrown-trans : (a b c : FuncInfo) → IsGrown a b → IsGrown b c → IsGrown a c
IsGrown-trans a b c p q = record {
  marks = λ n h. q.marks n (p.marks n h);
  gotos = q.gotos ∙ p.gotos;
  continues = q.continues ∙ p.continues;
  returns = q.returns ∙ p.returns;
  defers = q.defers ∙ p.defers;
}

mark_one-IsGrown :
    (n : ℕ) (fi : FuncInfo)
    → IsGrown fi (record fi { blocking = insert n fi.blocking; flattened = insert n fi.flattened })
mark_one-IsGrown n fi = record {
  marks = λ m h. contains-insert n fi.blocking m ∙ ground arith;
  gotos = refl;
  continues = refl;
  returns = refl;
  defers = refl;
}

pub mark_blocking-IsGrown : (stack : AstPath) (fi : FuncInfo) → IsGrown fi (mark_blocking stack fi)
unfolding mark_blocking
mark_blocking-IsGrown [] fi = IsGrown-refl fi
mark_blocking-IsGrown (n ∷ stack) fi =
    let fi' = record fi { blocking = insert n fi.blocking; flattened = insert n fi.flattened } in
    IsGrown-trans fi fi' (mark_blocking stack fi') (mark_one-IsGrown n fi)
      (mark_blocking-IsGrown stack fi')

pub mark_blocking-Marked : (stack : AstPath) (fi : FuncInfo) → Marked stack (mark_blocking stack fi)
unfolding mark_blocking
mark_blocking-Marked [] fi m h = absurd (cc h)
mark_blocking-Marked (n ∷ stack) fi m h =
    let fi' = record fi { blocking = insert n fi.blocking; flattened = insert n fi.flattened } in
    elim (Bool-cases (nat_eq m n)) [
      | inl eq ↦
          (mark_blocking-IsGrown stack fi').marks m (contains-insert n fi.blocking m ∙ rw eq refl)
      | inr differs ↦ mark_blocking-Marked stack fi' m (rw differs at h)
    ]

abbrev pub Grows : Heap → Heap → Type 0
Grows h h' = (p : ℕ) → IsGrown (h p) (h' p)

pub Grows-trans : (a b c : Heap) → Grows a b → Grows b c → Grows a c
Grows-trans a b c f g p = IsGrown-trans (a p) (b p) (c p) (f p) (g p)

pub mark_at-Grows :
    (p : ℕ) (stack : AstPath) (h : Heap) → Grows h (write p (mark_blocking stack (h p)) h)
mark_at-Grows p stack h =
    write-all (λ q fi. IsGrown (h q) fi) p (mark_blocking stack (h p)) h
      (mark_blocking-IsGrown stack (h p)) (λ q. IsGrown-refl (h q))

pub mark_at-Marked :
    (p : ℕ) (stack : AstPath) (h : Heap) → Marked stack (write p (mark_blocking stack (h p)) h p)
mark_at-Marked p stack h = rw ((nat_eq_iff p p).1 refl) (mark_blocking-Marked stack (h p))

pub Marked-IsGrown :
    (stack : AstPath) (fi fi' : FuncInfo) → IsGrown fi fi' → Marked stack fi → Marked stack fi'
Marked-IsGrown stack fi fi' grown marked n h = grown.marks n (marked n h)

nonempty_of_contains : (xs : List ℕ) (n : ℕ) → contains xs n ≡ true → nonempty xs ≡ true
nonempty_of_contains [] n h = h
nonempty_of_contains (x ∷ xs) n h = refl

pub nonempty-grows :
    (xs ys : List ℕ)
    → ((n : ℕ) → contains xs n ≡ true → contains ys n ≡ true)
    → nonempty xs ≡ true
    → nonempty ys ≡ true
nonempty-grows [] ys f h = absurd (cc h)
nonempty-grows (x ∷ xs) ys f h = nonempty_of_contains ys x (f x (ground (arith, nat_eq_iff x x)))

-- An answer that may turn from false to true, and not back.
abbrev pub Rises : Option Bool → Option Bool → Type 0
Rises o o' = (b : Bool) → o ≡ some b → (b' : Bool) × (o' ≡ some b') × (b ≡ true → b' ≡ true)

or_rest-Rises :
    (o o' r r' : Option Bool) → Rises o o' → Rises r r' → Rises (or_rest o r) (or_rest o' r')
or_rest-Rises none o' r r' f g b e = absurd (cc e)
or_rest-Rises (some true) o' r r' f g b e =
    let (b', at, rises) = f true refl in
    (true, ap (λ x. or_rest x r') (at ∙ ap some (rises refl)), λ t. refl)
or_rest-Rises (some false) o' r r' f g b e =
    let (b', at, rises) = f false refl in
    elim (Bool-cases b') [
      | inl up ↦ (true, ap (λ x. or_rest x r') (at ∙ ap some up), λ t. refl)
      | inr down ↦
          let (c, at', rises') = g b e in
          (c, ap (λ x. or_rest x r') (at ∙ ap some down) ∙ at', rises')
    ]

module _ (h h' : Heap) (grows : Grows h h') where
  func_blocking-grows : (p : ℕ) → func_blocking h p ≡ true → func_blocking h' p ≡ true
  func_blocking-grows p = nonempty-grows (h p).blocking (h' p).blocking (grows p).marks

  read_blocking-Rises : (o : Option ℕ) → Rises (read_blocking h o) (read_blocking h' o)
  read_blocking-Rises none b e = absurd (cc e)
  read_blocking-Rises (some p) b e =
      (func_blocking h' p, refl, λ t. func_blocking-grows p (some_inj e ∙ t))

  pointer_blocking-Rises :
      (o : Option ℕ) → Rises (some (pointer_blocking h o)) (some (pointer_blocking h' o))
  pointer_blocking-Rises none b e = (true, refl, λ t. refl)
  pointer_blocking-Rises (some p) b e =
      (func_blocking h' p, refl, λ t. func_blocking-grows p (some_inj e ∙ t))

  module _ (prog : Program) (info : Info) where
    defer_blocking-Rises :
        (d : DeferStmt) → Rises (defer_blocking prog info h d) (defer_blocking prog info h' d)
    unfolding defer_blocking is_blocking
    defer_blocking-Rises blocking_defer b e = (true, refl, λ t. refl)
    defer_blocking-Rises (inst_defer inst) b e = read_blocking-Rises (resolve prog info inst) b e
    defer_blocking-Rises (lit_defer lit args) b e =
        pointer_blocking-Rises (func_lit_info prog info lit args) b e

    pub any_defer-Rises :
        (ds : List DeferStmt)
        → Rises (is_any_defer_blocking prog info h ds) (is_any_defer_blocking prog info h' ds)
    unfolding is_any_defer_blocking
    any_defer-Rises [] b e = (false, refl, λ t. some_inj e ∙ t)
    any_defer-Rises (d ∷ ds) b e =
        or_rest-Rises (defer_blocking prog info h d) (defer_blocking prog info h' d)
          (is_any_defer_blocking prog info h ds) (is_any_defer_blocking prog info h' ds)
          (defer_blocking-Rises d) (any_defer-Rises ds) b e
