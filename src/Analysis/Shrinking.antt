-- ===== src/Analysis/Shrinking.antt =====
-- The entries that are left, which every deletion makes fewer.
use gopherjs.Base.{
  ℕ, ◌+◌, ◌≤◌, ◌<◌, true, some, List, [], ◌∷◌, ◌≡◌, ℕ_eq, nat_eq, nat_eq_iff, contains, length, inl,
  inr, Bool-cases, refl, arith,
}
use gopherjs.Base.Assoc.{lookup}
use gopherjs.Analysis.Info.{AstPath, FuncInfo, Heap, write, Info}
use gopherjs.Analysis.Propagate.{absorb_inst, absorb_lit}
use gopherjs.Analysis.Entries.{length-remove_le, length-remove_lt}
use gopherjs.Analysis.Absorbing.{absorb_inst_frame, absorb_lit_frame}
use gopherjs.Analysis.MayBlock.{Listed, here, later}

abbrev pub size : FuncInfo → ℕ
size fi = length fi.inst_callees + length fi.literal_func_callees

abbrev pub size_all : List ℕ → Heap → ℕ
size_all [] h = 0
size_all (p ∷ ps) h = size (h p) + size_all ps h

abbrev pub entries_left : List Info → Heap → ℕ
entries_left [] h = 0
entries_left (info ∷ infos) h = size_all info.all_infos h + entries_left infos h

module _ (p : ℕ) (fi : FuncInfo) (h : Heap) where
  size-write-le : size fi ≤ size (h p) → (q : ℕ) → size (write p fi h q) ≤ size (h q)
  size-write-le le q = elim (Bool-cases (nat_eq q p)) [
    | inl eq ↦ rw eq (rw ((nat_eq_iff q p).0 eq) le)
    | inr differs ↦ rw differs (omega arith)
  ]

  size_all-write-le :
      (ps : List ℕ) → size fi ≤ size (h p) → size_all ps (write p fi h) ≤ size_all ps h
  size_all-write-le [] le = omega arith
  size_all-write-le (q ∷ ps) le = omega (arith, size-write-le le q, size_all-write-le ps le)

  size-write_self : size (write p fi h p) ≡ size fi
  size-write_self = rw ((nat_eq_iff p p).1 refl) refl

  size_all-write-lt :
      (ps : List ℕ)
      → size fi < size (h p)
      → contains ps p ≡ true
      → size_all ps (write p fi h) < size_all ps h
  size_all-write-lt [] lt c = absurd (cc c)
  size_all-write-lt (q ∷ ps) lt c = elim (Bool-cases (nat_eq p q)) [
    | inl eq ↦
        rw (← (nat_eq_iff p q).0 eq)
          (omega (arith, size-write_self, size_all-write-le ps (omega arith)))
    | inr differs ↦
        omega (arith, size-write-le (omega arith) q, size_all-write-lt ps lt (rw differs at c))
  ]

  pub entries_left-write-le :
      (infos : List Info)
      → size fi ≤ size (h p)
      → entries_left infos (write p fi h) ≤ entries_left infos h
  entries_left-write-le [] le = omega arith
  entries_left-write-le (info ∷ infos) le =
      omega (arith, size_all-write-le info.all_infos le, entries_left-write-le infos le)

  pub entries_left-write-lt :
      {info : Info} (infos : List Info)
      → size fi < size (h p)
      → Listed info p infos
      → entries_left infos (write p fi h) < entries_left infos h
  entries_left-write-lt {info} _ lt (here infos c) =
      omega
        (arith, size_all-write-lt info.all_infos lt c, entries_left-write-le infos (omega arith))
  entries_left-write-lt _ lt (later other infos listed) = omega (
    arith,
    size_all-write-le other.all_infos (omega arith),
    entries_left-write-lt infos lt listed,
  )

pub absorb_inst-size_le :
    (c : ℕ) (s : List AstPath) (fi : FuncInfo) → size (absorb_inst c s fi) ≤ size fi
absorb_inst-size_le c s fi =
    let (insts, lits) = absorb_inst_frame c s fi in
    rw (insts, lits) (omega (arith, length-remove_le c fi.inst_callees))

pub absorb_inst-size_lt :
    (c : ℕ) (s t : List AstPath) (fi : FuncInfo)
    → lookup c fi.inst_callees ≡ some t
    → size (absorb_inst c s fi) < size fi
absorb_inst-size_lt c s t fi at =
    let (insts, lits) = absorb_inst_frame c s fi in
    rw (insts, lits) (omega (arith, length-remove_lt c t fi.inst_callees at))

pub absorb_lit-size_le : (c : ℕ) (s : AstPath) (fi : FuncInfo) → size (absorb_lit c s fi) ≤ size fi
absorb_lit-size_le c s fi =
    let (lits, insts) = absorb_lit_frame c s fi in
    rw (insts, lits) (omega (arith, length-remove_le c fi.literal_func_callees))

pub absorb_lit-size_lt :
    (c : ℕ) (s t : AstPath) (fi : FuncInfo)
    → lookup c fi.literal_func_callees ≡ some t
    → size (absorb_lit c s fi) < size fi
absorb_lit-size_lt c s t fi at =
    let (lits, insts) = absorb_lit_frame c s fi in
    rw (insts, lits) (omega (arith, length-remove_lt c t fi.literal_func_callees at))
