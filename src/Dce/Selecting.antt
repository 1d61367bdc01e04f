-- ===== src/Dce/Selecting.antt =====
-- The inner loops of `AliveDecls` keep the invariant.
use mathlib.Core.List.{foldl}
use gopherjs.Base.{
  ℕ, String, Bool, true, false, none, some, List, [], ◌∷◌, ◌≡◌, ◌⊎◌, inl, inr, ◌&&◌, Comparable,
  String_eq, ℕ_eq, ◌==◌, contains, arith, Option-cases, some_inj, Bool-cases, eq_iff, nat_eq_iff,
  refl, ap, if◌then◌else◌, sym, subst, ◌∙◌, ⊎_elim,
}
use gopherjs.Base.Assoc.{Assoc}
use gopherjs.Dce.Info.{Info}
use gopherjs.Dce.Selector.{DeclInfo, Selector, visit, cleared, clear, write}
use gopherjs.Dce.Live.{Live, Resolved, named, blank}
use gopherjs.Dce.Invariant.{waits, found, HasCell, Follows, CellOk, Inv}

module _ {D : Type 0} ⦃e : Comparable D⦄ (dce : D → Info) (ds : List (D × Bool)) where
  Follows-Resolved : (g own : String) → Follows dce ds g own → g ≡ "" → Resolved dce ds own
  Follows-Resolved g own (inl same) h = blank own (cc)
  Follows-Resolved g own (inr (_, r)) h = r

  Follows-clear :
      (dep g own : String)
      → Resolved dce ds dep
      → Follows dce ds g own
      → Follows dce ds (clear dep g) own
  Follows-clear dep g own r (inl same) = elim (Bool-cases (g == dep)) [
    | inl hit ↦ rw hit (inr (refl, subst (Resolved dce ds) (sym ((eq_iff g dep).0 hit) ∙ same) r))
    | inr miss ↦ rw miss (inl same)
  ]
  Follows-clear dep g own r (inr (h, w)) = elim (Bool-cases (g == dep)) [
    | inl hit ↦ rw hit (inr (refl, w))
    | inr miss ↦ rw miss (inr (h, w))
  ]

  waits-clear :
      (dep g : String) (p : ℕ) (ps : List ℕ) (m : Assoc String (List ℕ))
      → waits dep (p ∷ ps) m g p ≡ true
      → waits dep ps m (clear dep g) p ≡ true
  waits-clear dep g p ps m h = elim (Bool-cases (g == dep)) [
    | inl hit ↦ rw hit (ground (arith, eq_iff "" ""))
    | inr miss ↦ rw miss (ground arith)
  ]

  waits-other :
      (dep g : String) (p q : ℕ) (ps : List ℕ) (m : Assoc String (List ℕ))
      → (q == p) ≡ false
      → waits dep (p ∷ ps) m g q ≡ true
      → waits dep ps m g q ≡ true
  waits-other dep g p q ps m h k = ground arith

  -- The cell `p` is cleared for `dep`, and `pending` becomes `xs`.
  module _ (rest : List (D × Bool)) (dep : String) (p : ℕ) (ps : List ℕ) (selection : List D)
      (s : Selector D) (info : DeclInfo D) (xs : List D)
      (h : Inv dce ds rest dep (p ∷ ps) selection s) (here : s.cells p ≡ some info)
      (resolved : Resolved dce ds dep)
      (mono : (d : D) → contains s.pending d ≡ true → contains xs d ≡ true)
      (pushed : clear dep info.object_filter ≡ ""
        → clear dep info.method_filter ≡ ""
        → contains xs info.decl ≡ true)
      (live : (d : D)
        → contains xs d ≡ true
        → (contains s.pending d ≡ true)
          ⊎ (d ≡ info.decl)
            × (clear dep info.object_filter ≡ "")
            × (clear dep info.method_filter ≡ "")) where
    abbrev next : Selector D
    next = record s { cells = write s.cells p (cleared dep info); pending = xs }

    found-next : (d : D) → found selection s d ≡ true → found selection next d ≡ true
    found-next d k = ground (arith, mono d)

    cleared-ok : CellOk dce ds dep ps selection next p (cleared dep info)
    cleared-ok =
        let ok = h.cell p info here in
        record {
          known = ok.known;
          object =
              Follows-clear dep info.object_filter (dce info.decl).object_filter resolved ok.object;
          method =
              Follows-clear dep info.method_filter (dce info.decl).method_filter resolved ok.method;
          object_waits = waits-clear dep info.object_filter p ps s.by_filter ok.object_waits;
          method_waits = waits-clear dep info.method_filter p ps s.by_filter ok.method_waits;
          released = λ a b. ground (arith, pushed a b);
        }

    other-ok :
        (q : ℕ) (i : DeclInfo D)
        → (q == p) ≡ false
        → s.cells q ≡ some i
        → CellOk dce ds dep ps selection next q i
    other-ok q i ne k =
        let ok = h.cell q i k in
        record {
          known = ok.known;
          object = ok.object;
          method = ok.method;
          object_waits = waits-other dep i.object_filter p q ps s.by_filter ne ok.object_waits;
          method_waits = waits-other dep i.method_filter p q ps s.by_filter ne ok.method_waits;
          released = λ a b. found-next i.decl (ok.released a b);
        }

    next-cell :
        (q : ℕ) (i : DeclInfo D) → next.cells q ≡ some i → CellOk dce ds dep ps selection next q i
    next-cell q i k = elim (Bool-cases (q == p)) [
      | inl same ↦
          subst (λ j. CellOk dce ds dep ps selection next q j) (some_inj (rw same at k))
            (subst (λ r. CellOk dce ds dep ps selection next r (cleared dep info))
              (sym ((nat_eq_iff q p).0 same)) cleared-ok)
      | inr ne ↦ other-ok q i ne (rw ne at k)
    ]

    released-Live :
        clear dep info.object_filter ≡ ""
        → clear dep info.method_filter ≡ ""
        → Live dce ds info.decl
    released-Live a b =
        named info.decl cleared-ok.known (Follows-Resolved _ _ cleared-ok.object a)
          (Follows-Resolved _ _ cleared-ok.method b)

    next-Live : (d : D) → found selection next d ≡ true → Live dce ds d
    next-Live d k = elim (Bool-cases (contains xs d)) [
      | inl new ↦ elim (live d new) [
        | inl old ↦ h.live d (ground arith)
        | inr (e, a, b) ↦ subst (Live dce ds) (sym e) (released-Live a b)
      ]
      | inr old ↦ h.live d (ground arith)
    ]

    same_decl :
        (q : ℕ) (i : DeclInfo D) → s.cells q ≡ some i → {d : D} → i.decl ≡ d → q ≡ p → info.decl ≡ d
    same_decl q i at e same =
        ap (λ (j : DeclInfo D). j.decl) (some_inj (sym here ∙ ap s.cells (sym same) ∙ at)) ∙ e

    next-HasCell : (d : D) → HasCell s d → HasCell next d
    next-HasCell d (q, i, at, e) = elim (Bool-cases (q == p)) [
      | inl same ↦ (
        p,
        cleared dep info,
        ground (arith, nat_eq_iff p p),
        same_decl q i at e ((nat_eq_iff q p).0 same),
      )
      | inr ne ↦ (q, i, rw ne at, e)
    ]

    next-Inv : Inv dce ds rest dep ps selection next
    next-Inv = record {
      live = next-Live;
      cell = next-cell;
      fresh = λ q k. ground (arith, h.fresh q, nat_eq_iff q p);
      alive_found = λ d i a. ground (arith, h.alive_found d i a, mono d);
      link_found = λ d l. ground (arith, h.link_found d l, mono d);
      has_cell = λ d i a. ⊎_elim (λ c. inl (next-HasCell d c)) inr (h.has_cell d i a);
    }

  no_cell-Inv :
      (rest : List (D × Bool)) (dep : String) (p : ℕ) (ps : List ℕ) (selection : List D)
      (s : Selector D)
      → Inv dce ds rest dep (p ∷ ps) selection s
      → s.cells p ≡ none
      → Inv dce ds rest dep ps selection s
  no_cell-Inv rest dep p ps selection s h gone = record {
    live = h.live;
    cell = λ q i k.
        let ok = h.cell q i k in
        let ne : (q == p) ≡ false = ground (arith, nat_eq_iff q p) in
        record {
          known = ok.known;
          object = ok.object;
          method = ok.method;
          object_waits = waits-other dep i.object_filter p q ps s.by_filter ne ok.object_waits;
          method_waits = waits-other dep i.method_filter p q ps s.by_filter ne ok.method_waits;
          released = ok.released;
        };
    fresh = h.fresh;
    alive_found = h.alive_found;
    link_found = h.link_found;
    has_cell = h.has_cell;
  }

  visit-gone : (dep : String) (p : ℕ) (s : Selector D) → s.cells p ≡ none → visit dep s p ≡ s
  unfolding visit
  visit-gone dep p s gone = rw (gone, visit)

  visit-eq :
      (dep : String) (p : ℕ) (s : Selector D) (info : DeclInfo D)
      → s.cells p ≡ some info
      → visit dep s p ≡ record s {
        cells = write s.cells p (cleared dep info);
        pending =
            if clear dep info.object_filter == "" && clear dep info.method_filter == ""
            then info.decl ∷ s.pending
            else s.pending;
      }
  unfolding visit
  visit-eq dep p s info here = rw (here, visit) (ground arith)

  module _ (rest : List (D × Bool)) (dep : String) (resolved : Resolved dce ds dep)
      (selection : List D) where
    -- One round of the loop over `infos`.
    visit-Inv :
        (p : ℕ) (ps : List ℕ) (s : Selector D)
        → Inv dce ds rest dep (p ∷ ps) selection s
        → Inv dce ds rest dep ps selection (visit dep s p)
    visit-Inv p ps s h = elim (Option-cases (s.cells p)) [
      | inl gone ↦ rw (visit-gone dep p s gone) (no_cell-Inv rest dep p ps selection s h gone)
      | inr (info, here) ↦ rw (visit-eq dep p s info here) (
          next-Inv rest dep p ps selection s info _ h here resolved (λ d k. ground (arith))
            (λ a b. ground (
              arith,
              eq_iff (clear dep info.object_filter) "",
              eq_iff (clear dep info.method_filter) "",
              e.equal_iff info.decl info.decl,
            ))
            (λ d k. ground (
              arith,
              eq_iff (clear dep info.object_filter) "",
              eq_iff (clear dep info.method_filter) "",
              e.equal_iff d info.decl,
            )))
    ]

    -- The loop over `infos`.
    pub visit_all-Inv :
        (ps : List ℕ) (s : Selector D)
        → Inv dce ds rest dep ps selection s
        → Inv dce ds rest dep [] selection (foldl (visit dep) s ps)
    visit_all-Inv [] s h = h
    visit_all-Inv (p ∷ ps) s h = visit_all-Inv ps (visit dep s p) (visit-Inv p ps s h)
