-- ===== src/Analysis/Visiting.antt =====
-- A loop over callees: what its steps keep, when nothing is left to do, and that it ends without a
-- panic.
use gopherjs.Base.{
  ℕ, Bool, true, false, Option, some, none, [], ◌∷◌, ◌≡◌, ℕ_eq, inl, inr, ◌⊎◌, Bool-cases, ◌≤◌, ◌<◌,
  Option-cases, refl, sym, ap, ◌∙◌, arith, some_inj,
}
use gopherjs.Base.Assoc.{Assoc}
use gopherjs.Analysis.Info.{FuncInfo, Heap, write}
use gopherjs.Analysis.Propagate.{Pass, visit_callees}
use gopherjs.Analysis.Entries.{AllEntries}

le_trans : {a b c : ℕ} → a ≤ b → b ≤ c → a ≤ c
le_trans p q = omega arith

le_lt_trans : {a b c : ℕ} → a ≤ b → b < c → a < c
le_lt_trans p q = omega arith

AllEntries-unit : {S : Type 0} (m : Assoc ℕ S) → AllEntries (λ c s. Unit) m
AllEntries-unit [] = tt
AllEntries-unit ((c, s) ∷ m) = (tt, AllEntries-unit m)

module _ {S : Type 0} (blocks : Heap → ℕ → Option Bool) (absorb : ℕ → S → FuncInfo → FuncInfo)
    (caller : ℕ) where
  abbrev pub absorbed : ℕ → S → Heap → Heap
  absorbed c s h = write caller (absorb c s (h caller)) h

  -- the two ways in which the loop goes on
  pub visit-blocked :
      (c : ℕ) (s : S) (rest : Assoc ℕ S) (h : Heap) (d : Bool)
      → blocks h c ≡ some true
      → visit_callees blocks absorb caller ((c, s) ∷ rest) (h, d)
        ≡ visit_callees blocks absorb caller rest (absorbed c s h, false)
  unfolding visit_callees
  visit-blocked c s rest h d e = rw (e, visit_callees) refl

  pub visit-passed :
      (c : ℕ) (s : S) (rest : Assoc ℕ S) (h : Heap) (d : Bool)
      → blocks h c ≡ some false
      → visit_callees blocks absorb caller ((c, s) ∷ rest) (h, d)
        ≡ visit_callees blocks absorb caller rest (h, d)
  unfolding visit_callees
  visit-passed c s rest h d e = rw (e, visit_callees) refl

  visit-panics :
      (c : ℕ) (s : S) (rest : Assoc ℕ S) (h : Heap) (d : Bool)
      → blocks h c ≡ none
      → visit_callees blocks absorb caller ((c, s) ∷ rest) (h, d) ≡ none
  unfolding visit_callees
  visit-panics c s rest h d e = rw (e, visit_callees) refl

  nil_eq :
      (h : Heap) (d : Bool) (pass : Pass)
      → visit_callees blocks absorb caller [] (h, d) ≡ some pass
      → (h, d) ≡ pass
  unfolding visit_callees
  nil_eq h d pass e = some_inj e

  -- What a step at a blocking entry keeps is kept by the loop.
  pub visit-keeps :
      (P : Heap → Type 0) (Q : ℕ → S → Type 0)
      → ((h : Heap) (c : ℕ) (s : S) → P h → Q c s → blocks h c ≡ some true → P (absorbed c s h))
      → (l : Assoc ℕ S) (h : Heap) (d : Bool) (pass : Pass) → AllEntries Q l
      → P h
      → visit_callees blocks absorb caller l (h, d) ≡ some pass
      → P pass.0
  visit-keeps P Q step [] h d pass all p e = rw (← nil_eq h d pass e) p
  visit-keeps P Q step ((c, s) ∷ rest) h d pass (head, tail) p e =
      elim (Option-cases (blocks h c)) [
        | inl panics ↦ absurd (cc (sym (visit-panics c s rest h d panics) ∙ e))
        | inr (true, at) ↦
            visit-keeps P Q step rest (absorbed c s h) false pass tail (step h c s p head at)
              (sym (visit-blocked c s rest h d at) ∙ e)
        | inr (false, at) ↦
            visit-keeps P Q step rest h d pass tail p (sym (visit-passed c s rest h d at) ∙ e)
      ]

  -- A loop that leaves `done` true found no callee that blocks, and changed nothing.
  pub visit-quiet :
      (l : Assoc ℕ S) (h : Heap) (d : Bool) (pass : Pass)
      → visit_callees blocks absorb caller l (h, d) ≡ some pass
      → pass.1 ≡ true
      → (pass ≡ (h, d)) × AllEntries (λ c s. blocks h c ≡ some false) l
  visit-quiet [] h d pass e quiet = (sym (nil_eq h d pass e), tt)
  visit-quiet ((c, s) ∷ rest) h d pass e quiet = elim (Option-cases (blocks h c)) [
    | inl panics ↦ absurd (cc (sym (visit-panics c s rest h d panics) ∙ e))
    | inr (true, at) ↦
        let (same, all) =
          visit-quiet rest (absorbed c s h) false pass (sym (visit-blocked c s rest h d at) ∙ e)
            quiet in
        absurd (cc (sym (ap (λ (p : Pass). p.1) same) ∙ quiet))
    | inr (false, at) ↦
        let (same, all) =
          visit-quiet rest h d pass (sym (visit-passed c s rest h d at) ∙ e) quiet in
        (same, (at, all))
  ]

  visit-false :
      (l : Assoc ℕ S) (h : Heap) (pass : Pass)
      → visit_callees blocks absorb caller l (h, false) ≡ some pass
      → pass.1 ≡ false
  visit-false l h pass e = elim (Bool-cases pass.1) [
    | inl quiet ↦
        absurd (cc (sym (ap (λ (p : Pass). p.1) (visit-quiet l h false pass e quiet).0) ∙ quiet))
    | inr stirred ↦ stirred
  ]

  -- The loop ends without a panic when no entry makes `blocks` panic.
  pub visit-returns :
      (l : Assoc ℕ S) (h : Heap) (d : Bool)
      → AllEntries (λ c s. (g : Heap) → (b : Bool) × (blocks g c ≡ some b)) l
      → (pass : Pass) × (visit_callees blocks absorb caller l (h, d) ≡ some pass)
  unfolding visit_callees
  visit-returns [] h d all = ((h, d), refl)
  visit-returns ((c, s) ∷ rest) h d (head, tail) =
      let (b, at) = head h in
      elim (Bool-cases b) [
        | inl eq ↦
            let (pass, e) = visit-returns rest (absorbed c s h) false tail in
            (pass, visit-blocked c s rest h d (at ∙ ap some eq) ∙ e)
        | inr eq ↦
            let (pass, e) = visit-returns rest h d tail in
            (pass, visit-passed c s rest h d (at ∙ ap some eq) ∙ e)
      ]

  -- Either nothing was changed, or `done` is false and a measure that no step makes larger, and that
  -- a step at an entry of the first cells makes smaller, is smaller.
  pub visit-shrinks :
      (size : Heap → ℕ)
      → ((h : Heap) (c : ℕ) (s : S) → size (absorbed c s h) ≤ size h)
      → (l : Assoc ℕ S) (h : Heap) (d : Bool) (pass : Pass)
      → AllEntries (λ c s. size (absorbed c s h) < size h) l
      → visit_callees blocks absorb caller l (h, d) ≡ some pass
      → (pass ≡ (h, d)) ⊎ ((pass.1 ≡ false) × (size pass.0 < size h))
  visit-shrinks size small [] h d pass all e = inl (sym (nil_eq h d pass e))
  visit-shrinks size small ((c, s) ∷ rest) h d pass (head, tail) e =
      elim (Option-cases (blocks h c)) [
        | inl panics ↦ absurd (cc (sym (visit-panics c s rest h d panics) ∙ e))
        | inr (true, at) ↦
            let went = sym (visit-blocked c s rest h d at) ∙ e in
            inr (
              visit-false rest (absorbed c s h) pass went,
              le_lt_trans
                  (visit-keeps (λ g. size g ≤ size (absorbed c s h)) (λ c s. Unit)
                    (λ g c s le q b. le_trans (small g c s) le) rest (absorbed c s h) false pass
                    (AllEntries-unit rest) (omega arith) went)
                  head,
            )
        | inr (false, at) ↦
            visit-shrinks size small rest h d pass tail (sym (visit-passed c s rest h d at) ∙ e)
      ]
