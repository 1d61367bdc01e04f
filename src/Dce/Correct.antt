-- ===== src/Dce/Correct.antt =====
-- `AliveDecls` ends, and returns exactly the declarations that have to stay.
use mathlib.Core.List.{foldl}
use gopherjs.Base.{
  ⊎_elim, ℕ, zero, suc, ◌≤◌, String, Bool, true, none, some, List, [], ◌∷◌, ◌≡◌, ◌↔◌, ◌⊎◌, inl, inr,
  ◌||◌, Comparable, String_eq, ℕ_eq, ◌==◌, contains, insert, contains-insert, length, arith,
  List-cases, Bool-cases, eq_iff, ap, sym, subst, ◌∙◌, Sorter, some_inj,
}
use gopherjs.Base.Assoc.{lookup}
use gopherjs.Dce.Info.{Info, is_alive, get_deps}
use gopherjs.Dce.Selector.{Selector, use_dep, work, select, include_all, run, empty}
use gopherjs.Dce.Live.{Live, Resolved, included, alive, link, named, blank, dep}
use gopherjs.Dce.Invariant.{waits, Follows, found, HasCell, Inv}
use gopherjs.Dce.Rounds.{use_deps-work, lookup-use_deps, use_deps-Inv}
use gopherjs.Dce.Including.{Inv-include_all}

module _ {D : Type 0} ⦃e : Comparable D⦄ (sorter : Sorter) (dce : D → Info) where
  abbrev deps_of : D → List String
  deps_of d = get_deps sorter (dce d)

  contains-deps_of : (d : D) (f : String) → contains (deps_of d) f ≡ contains (dce d).deps f
  unfolding get_deps
  contains-deps_of d f = sorter.contains-sort (dce d).deps f

  -- what is left to do after the round of `d`
  abbrev after : D → List D → Selector D → Selector D
  after d rest s = foldl use_dep (record s { pending = rest }) (deps_of d)

  select_round :
      (fuel : ℕ) (selection : List D) (s : Selector D) (d : D) (rest : List D)
      → s.pending ≡ d ∷ rest
      → select sorter dce (suc fuel) selection s
        ≡ select sorter dce fuel (insert d selection) (after d rest s)
  unfolding select
  select_round fuel selection s d rest at = rw (at, select)

  select_ends :
      (fuel : ℕ) (selection : List D) (s : Selector D)
      → work s ≤ fuel
      → (t : List D) × (select sorter dce fuel selection s ≡ some t)
  unfolding select
  select_ends zero selection s h = (selection, ground arith)
  select_ends (suc fuel) selection s h = elim (List-cases s.pending) [
    | inl done ↦ (selection, simp (done, select))
    | inr (d, rest, at) ↦
        let (t, ends) =
          select_ends fuel (insert d selection) (after d rest s) (
            omega (arith, use_deps-work (deps_of d) (record s { pending = rest }), ap length at)) in
        (t, select_round fuel selection s d rest at ∙ ends)
  ]

  module _ (ds : List (D × Bool)) where
    -- The dependencies of what was selected have no bucket any more.
    abbrev Closed : List D → Selector D → Type 0
    Closed selection s =
        (x : D) (f : String)
        → contains selection x ≡ true
        → contains (dce x).deps f ≡ true
        → lookup f s.by_filter ≡ none

    record Round (selection : List D) (s : Selector D) : Type 0 where
      inv : Inv dce ds [] "" [] selection s
      closed : Closed selection s

    pop-Inv :
        (d : D) (rest selection : List D) (s : Selector D)
        → s.pending ≡ d ∷ rest
        → Inv dce ds [] "" [] selection s
        → Inv dce ds [] "" [] (insert d selection) (record s { pending = rest })
    pop-Inv d rest selection s at h = record {
      live = λ x k. h.live x (move x k);
      cell = λ p info k.
          let ok = h.cell p info k in
          record {
            known = ok.known;
            object = ok.object;
            method = ok.method;
            object_waits = ok.object_waits;
            method_waits = ok.method_waits;
            released = λ a b. back info.decl (ok.released a b);
          };
      fresh = h.fresh;
      alive_found = λ x i a. ground (arith, h.alive_found x i a, back x);
      link_found = λ x k. ground (arith, h.link_found x k, back x);
      has_cell = h.has_cell;
    }
      where
        here : (x : D) → contains s.pending x ≡ (x == d || contains rest x)
        here x = ap (λ l. contains l x) at

        move :
            (x : D)
            → found (insert d selection) (record s { pending = rest }) x ≡ true
            → found selection s x ≡ true
        move x k = ground (arith, here x, contains-insert d selection x)

        back :
            (x : D)
            → found selection s x ≡ true
            → found (insert d selection) (record s { pending = rest }) x ≡ true
        back x k = ground (arith, here x, contains-insert d selection x)

    round-keeps :
        (d : D) (rest selection : List D) (s : Selector D)
        → s.pending ≡ d ∷ rest
        → Round selection s
        → Round (insert d selection) (after d rest s)
    round-keeps d rest selection s at r = record {
      inv =
          use_deps-Inv dce ds [] (insert d selection) (deps_of d) (record s { pending = rest })
            (λ f k.
              dep d f (r.inv.live d (ground (arith, ap (λ l. contains l d) at, e.equal_iff d d)))
                (sym (contains-deps_of d f) ∙ k))
            (pop-Inv d rest selection s at r.inv);
      closed = λ x f i k. ground (
        arith,
        lookup-use_deps (deps_of d) (record s { pending = rest }) f,
        contains-insert d selection x,
        contains-deps_of x f,
        e.equal_iff x d,
        r.closed x f,
      );
    }

    select_rule :
        (fuel : ℕ) (selection t : List D) (s : Selector D)
        → Round selection s
        → select sorter dce fuel selection s ≡ some t
        → (s' : Selector D) × Round t s' × (s'.pending ≡ [])
    unfolding select
    select_rule zero selection t s r h = elim (List-cases s.pending) [
      | inl done ↦ (s, subst (λ l. Round l s) (some_inj (rw (done, select) at h)) r, done)
      | inr (d, rest, at) ↦ absurd (cc (rw (at, select) at h))
    ]
    select_rule (suc fuel) selection t s r h = elim (List-cases s.pending) [
      | inl done ↦ (s, subst (λ l. Round l s) (some_inj (rw (done, select) at h)) r, done)
      | inr (d, rest, at) ↦
          select_rule fuel (insert d selection) t (after d rest s)
            (round-keeps d rest selection s at r) (rw (at, select) at h)
    ]

    start-Round : Round [] (include_all dce ds empty)
    start-Round = record { inv = Inv-include_all dce ds; closed = λ x f i k. cc }

    module _ (t : List D) (s : Selector D) (r : Round t s) (done : s.pending ≡ []) where
      selected : (d : D) → found t s d ≡ true → contains t d ≡ true
      selected d k = ground (arith, ap (λ l. contains l d) done)

      -- a filter that holds nothing back, in the cell of an included declaration
      gone :
          (p : ℕ) (g own : String)
          → Follows dce ds g own
          → own ≡ "" ⊎ lookup own s.by_filter ≡ none
          → waits "" [] s.by_filter g p ≡ true
          → g ≡ ""
      gone p g own (inr (k, _)) o w = k
      gone p g own (inl same) (inl none_left) w = same ∙ none_left
      gone p g own (inl same) (inr none_left) w =
          ground (arith, eq_iff g "", ap (λ f. lookup f s.by_filter) same)

      cell_selected :
          (d : D)
          → HasCell s d
          → (dce d).object_filter ≡ "" ⊎ lookup (dce d).object_filter s.by_filter ≡ none
          → (dce d).method_filter ≡ "" ⊎ lookup (dce d).method_filter s.by_filter ≡ none
          → contains t d ≡ true
      cell_selected d (p, info, at, same) o m =
          let ok = r.inv.cell p info at in
          let P = λ (x : D).
            ((dce x).object_filter ≡ "" ⊎ lookup (dce x).object_filter s.by_filter ≡ none) in
          let Q = λ (x : D).
            ((dce x).method_filter ≡ "" ⊎ lookup (dce x).method_filter s.by_filter ≡ none) in
          subst (λ x. contains t x ≡ true) same
            (selected info.decl (
              ok.released
                (gone p info.object_filter _ ok.object (subst P (sym same) o) ok.object_waits)
                (gone p info.method_filter _ ok.method (subst Q (sym same) m) ok.method_waits)))

      alive_selected :
          (d : D) → included ds d ≡ true → is_alive (dce d) ≡ true → contains t d ≡ true
      alive_selected d i a = ⊎_elim (selected d) (λ never. absurd (cc)) (r.inv.alive_found d i a)

      mutual
        complete : {d : D} → Live dce ds d → contains t d ≡ true
        complete (alive d i a) = alive_selected d i a
        complete (link d l) = ⊎_elim (selected d) (λ never. absurd (cc)) (r.inv.link_found d l)
        complete (named d i o m) = elim (Bool-cases (is_alive (dce d))) [
          | inl a ↦ alive_selected d i a
          | inr a ↦ elim (r.inv.has_cell d i a) [
            | inl c ↦ cell_selected d c (absent o) (absent m)
            | inr never ↦ absurd (cc)
          ]
        ]

        absent : {f : String} → Resolved dce ds f → (f ≡ "") ⊎ (lookup f s.by_filter ≡ none)
        absent (blank f k) = inl k
        absent (dep x f l k) = inr (r.closed x f (complete l) k)

    -- Whatever is returned is exactly the set of live declarations.
    pub run-exact :
        (t : List D) (d : D) → run sorter dce ds ≡ some t → (contains t d ≡ true) ↔ Live dce ds d
    unfolding run
    run-exact t d h =
        let (s, r, done) =
          select_rule (work (include_all dce ds empty)) [] t (include_all dce ds empty) start-Round
            h in
        (λ k. r.inv.live d (ground (arith)), complete t s r done)

  -- The worklist runs out within as many rounds as there are pending declarations and bucket
  -- entries, and returns exactly the declarations that have to stay: those that are alive or linked,
  -- and those of whose filters each one is empty or a dependency of a declaration that stays.
  pub alive_decls_exact :
      (ds : List (D × Bool))
      → (t : List D) × (run sorter dce ds ≡ some t)
        × ((d : D) → (contains t d ≡ true) ↔ Live dce ds d)
  unfolding run
  alive_decls_exact ds =
      let s = include_all dce ds empty in
      let (t, ends) = select_ends (work s) [] s (omega arith) in
      (t, ends, λ d. run-exact ds t d ends)
