-- ===== src/Analysis/Invariant.antt =====
-- What holds of the cells throughout the propagation.
use gopherjs.Base.{
  ℕ, true, Option, some, none, List, ◌≡◌, ℕ_eq, nat_eq, nat_eq_iff, inl, inr, ◌⊎◌, Bool-cases, refl,
  some_inj,
}
use gopherjs.Base.Assoc.{lookup}
use gopherjs.Analysis.Info.{
  AstPath, FuncInfo, Heap, write, Info, Program, nonempty, pointer_blocking, resolve, read_blocking,
  is_blocking, func_lit_info,
}
use gopherjs.Analysis.Propagate.{absorb_inst, absorb_lit, lit_blocks}
use gopherjs.Analysis.MayBlock.{Listed, MayBlock, calls_inst, calls_unknown, calls_lit}
use gopherjs.Analysis.Entries.{AllEntries, AllEntries-remove}
use gopherjs.Analysis.Absorbing.{
  filled, absorb_inst_frame, absorb_lit_frame, absorb_inst-blocks, absorb_lit-blocks,
}

-- A property of all cells after one has been written.
pub write-all :
    (P : ℕ → FuncInfo → Type 0) (p : ℕ) (fi : FuncInfo) (h : Heap)
    → P p fi
    → ((q : ℕ) → P q (h q))
    → (q : ℕ) → P q (write p fi h q)
write-all P p fi h new old q = elim (Bool-cases (nat_eq q p)) [
  | inl eq ↦ rw eq (rw ((nat_eq_iff q p).0 eq) new)
  | inr differs ↦ rw differs (old q)
]

module _ (prog : Program) (infos : List Info) (start : Heap) where
  -- An entry that a list still has: the function had it at the start, and it has a call site.
  abbrev pub InstEntry : ℕ → ℕ → List AstPath → Type 0
  InstEntry p c s =
      ((t : List AstPath) × (lookup c (start p).inst_callees ≡ some t)) × (filled s ≡ true)

  abbrev pub LitEntry : ℕ → ℕ → AstPath → Type 0
  LitEntry p c s =
      ((t : AstPath) × (lookup c (start p).literal_func_callees ≡ some t)) × (nonempty s ≡ true)

  -- A cell as it may be during the propagation: it blocks only if the function may block, its
  -- entries are among those of the start, and an entry that has gone, as a block of the start, shows
  -- in its blocking.
  pub record IsBetween (p : ℕ) (fi : FuncInfo) : Type 0 where
    pub sound : nonempty fi.blocking ≡ true → MayBlock prog infos start p
    pub keeps : nonempty (start p).blocking ≡ true → nonempty fi.blocking ≡ true
    pub inst_entries : AllEntries (InstEntry p) fi.inst_callees
    pub lit_entries : AllEntries (LitEntry p) fi.literal_func_callees
    pub inst_kept :
        (c : ℕ)
        → (lookup c fi.inst_callees ≡ lookup c (start p).inst_callees)
          ⊎ (nonempty fi.blocking ≡ true)
    pub lit_kept :
        (c : ℕ)
        → (lookup c fi.literal_func_callees ≡ lookup c (start p).literal_func_callees)
          ⊎ (nonempty fi.blocking ≡ true)

  abbrev pub Inv : Heap → Type 0
  Inv h = (p : ℕ) → IsBetween p (h p)

  inst_may :
      (info : Info) (caller : ℕ)
      → Listed info caller infos
      → (h : Heap) (c : ℕ) (t : List AstPath) → Inv h
      → lookup c (start caller).inst_callees ≡ some t
      → (o : Option ℕ) → resolve prog info c ≡ o
      → read_blocking h o ≡ some true
      → MayBlock prog infos start caller
  inst_may info caller listed h c t inv at none res blocks = absurd (cc blocks)
  inst_may info caller listed h c t inv at (some q) res blocks =
      calls_inst info caller c q t listed at res ((inv q).sound (some_inj blocks))

  lit_may :
      (info : Info) (caller : ℕ)
      → Listed info caller infos
      → (h : Heap) (c : ℕ) (t : AstPath) → Inv h
      → lookup c (start caller).literal_func_callees ≡ some t
      → (o : Option ℕ) → func_lit_info prog info c (prog.type_args caller) ≡ o
      → some (pointer_blocking h o) ≡ some true
      → MayBlock prog infos start caller
  lit_may info caller listed h c t inv at none res blocks =
      calls_unknown info caller c t listed at res
  lit_may info caller listed h c t inv at (some q) res blocks =
      calls_lit info caller c q t listed at res ((inv q).sound (some_inj blocks))

  pub absorb_inst-Inv :
      (info : Info) (caller : ℕ)
      → Listed info caller infos
      → (h : Heap) (c : ℕ) (s : List AstPath) → Inv h
      → InstEntry caller c s
      → is_blocking prog info h c ≡ some true
      → Inv (write caller (absorb_inst c s (h caller)) h)
  unfolding is_blocking
  absorb_inst-Inv info caller listed h c s inv ((t, at), fill) blocks =
      let b = inv caller in
      let (insts, lits) = absorb_inst_frame c s (h caller) in
      let marked = absorb_inst-blocks c s (h caller) fill in
      write-all IsBetween caller (absorb_inst c s (h caller)) h
        (record {
          sound = λ _. inst_may info caller listed h c t inv at (resolve prog info c) refl blocks;
          keeps = λ _. marked;
          inst_entries =
              rw insts
                (AllEntries-remove (InstEntry caller) c (h caller).inst_callees b.inst_entries);
          lit_entries = rw lits b.lit_entries;
          inst_kept = λ d. inr marked;
          lit_kept = λ d. inr marked;
        })
        inv

  pub absorb_lit-Inv :
      (info : Info) (caller : ℕ)
      → Listed info caller infos
      → (h : Heap) (c : ℕ) (s : AstPath) → Inv h
      → LitEntry caller c s
      → lit_blocks prog info caller h c ≡ some true
      → Inv (write caller (absorb_lit c s (h caller)) h)
  absorb_lit-Inv info caller listed h c s inv ((t, at), fill) blocks =
      let b = inv caller in
      let (lits, insts) = absorb_lit_frame c s (h caller) in
      let marked = absorb_lit-blocks c s (h caller) fill in
      write-all IsBetween caller (absorb_lit c s (h caller)) h
        (record {
          sound = λ _.
              lit_may info caller listed h c t inv at
                (func_lit_info prog info c (prog.type_args caller)) refl blocks;
          keeps = λ _. marked;
          inst_entries = rw insts b.inst_entries;
          lit_entries =
              rw lits (
                AllEntries-remove (LitEntry caller) c (h caller).literal_func_callees
                  b.lit_entries);
          inst_kept = λ d. inr marked;
          lit_kept = λ d. inr marked;
        })
        inv
