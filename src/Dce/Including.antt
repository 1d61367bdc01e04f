-- ===== src/Dce/Including.antt =====
-- The calls of `Include` establish the invariant.
use gopherjs.Base.{
  ℕ, String, Bool, true, false, some, List, [], ◌∷◌, ◌++◌, ◌≡◌, inl, inr, Comparable, String_eq,
  ℕ_eq, ◌==◌, contains-append, arith, some_inj, Bool-cases, eq_iff, nat_eq_iff, refl, if◌then◌else◌,
  sym, subst, ⊎_elim,
}
use gopherjs.Base.Assoc.{Assoc, lookup-put}
use gopherjs.Dce.Info.{Info, is_alive}
use gopherjs.Dce.Selector.{
  DeclInfo, Selector, bucket, push, register, include, include_all, file_under, empty,
}
use gopherjs.Dce.Live.{Live, included, linked, alive, link}
use gopherjs.Dce.Invariant.{waits, found, HasCell, CellOk, Inv}

file_under_self :
    (f : String) (p : ℕ) (m : Assoc String (List ℕ)) → waits "" [] (file_under f p m) f p ≡ true
unfolding file_under
file_under_self f p m = ground (
  arith,
  lookup-put f f (bucket f m ++ p ∷ []) m,
  eq_iff f f,
  contains-append (bucket f m) (p ∷ []) p,
  nat_eq_iff p p,
)

waits-file_under :
    (f : String) (p : ℕ) (m : Assoc String (List ℕ)) (g : String) (q : ℕ)
    → waits "" [] m g q ≡ true
    → waits "" [] (file_under f p m) g q ≡ true
unfolding file_under
waits-file_under f p m g q h = ground (
  arith,
  lookup-put f g (bucket f m ++ p ∷ []) m,
  eq_iff f g,
  contains-append (bucket f m) (p ∷ []) q,
)

module _ {D : Type 0} ⦃e : Comparable D⦄ (dce : D → Info) (ds : List (D × Bool)) where
  Inv-empty : Inv dce ds ds "" [] [] empty
  Inv-empty = record {
    live = λ d k. cc;
    cell = λ p info k. cc;
    fresh = λ p k. refl;
    alive_found = λ d i a. inr i;
    link_found = λ d l. inr l;
    has_cell = λ d i a. inr i;
  }

  module _ (rest : List (D × Bool)) (x : D) (s : Selector D) (h : Inv dce ds rest "" [] [] s) where
    push-Inv : Live dce ds x → Inv dce ds rest "" [] [] (push x s)
    unfolding push
    push-Inv l = record {
      live = λ d k. elim (Bool-cases (d == x)) [
        | inl same ↦ subst (Live dce ds) (sym ((e.equal_iff d x).0 same)) l
        | inr other ↦ h.live d (ground arith)
      ];
      cell = λ p info k.
          let ok = h.cell p info k in
          record {
            known = ok.known;
            object = ok.object;
            method = ok.method;
            object_waits = ok.object_waits;
            method_waits = ok.method_waits;
            released = λ a b. ground (arith, ok.released a b);
          };
      fresh = h.fresh;
      alive_found = λ d i a. ground (arith, h.alive_found d i a);
      link_found = λ d k. ground (arith, h.link_found d k);
      has_cell = h.has_cell;
    }

    abbrev own : DeclInfo D
    own = record {
      decl = x;
      object_filter = (dce x).object_filter;
      method_filter = (dce x).method_filter;
    }

    own-ok :
        included ds x ≡ true
        → is_alive (dce x) ≡ false
        → CellOk dce ds "" [] [] (register x (dce x) s) s.next_cell own
    unfolding register is_alive
    own-ok i a = record {
      known = i;
      object = inl refl;
      method = inl refl;
      object_waits =
          waits-file_under (dce x).method_filter s.next_cell _ _ _
            (file_under_self (dce x).object_filter s.next_cell s.by_filter);
      method_waits = file_under_self (dce x).method_filter s.next_cell _;
      released =
          λ p q. ground (arith, eq_iff (dce x).object_filter "", eq_iff (dce x).method_filter "");
    }

    old-ok :
        (p : ℕ) (info : DeclInfo D)
        → s.cells p ≡ some info
        → CellOk dce ds "" [] [] (register x (dce x) s) p info
    unfolding register
    old-ok p info k =
        let ok = h.cell p info k in
        let both = λ (g : String) (w : waits "" [] s.by_filter g p ≡ true).
          waits-file_under (dce x).method_filter s.next_cell _ g p
            (waits-file_under (dce x).object_filter s.next_cell s.by_filter g p w) in
        record {
          known = ok.known;
          object = ok.object;
          method = ok.method;
          object_waits = both info.object_filter ok.object_waits;
          method_waits = both info.method_filter ok.method_waits;
          released = ok.released;
        }

    register-cell :
        included ds x ≡ true
        → is_alive (dce x) ≡ false
        → (p : ℕ) (info : DeclInfo D) → (register x (dce x) s).cells p ≡ some info
        → CellOk dce ds "" [] [] (register x (dce x) s) p info
    unfolding register
    register-cell i a p info k = elim (Bool-cases (p == s.next_cell)) [
      | inl same ↦
          subst (λ j. CellOk dce ds "" [] [] (register x (dce x) s) p j) (some_inj (rw same at k))
            (subst (λ r. CellOk dce ds "" [] [] (register x (dce x) s) r own)
              (sym ((nat_eq_iff p s.next_cell).0 same)) (own-ok i a))
      | inr other ↦ old-ok p info (rw other at k)
    ]

    register-HasCell : HasCell (register x (dce x) s) x
    unfolding register
    register-HasCell = (s.next_cell, own, ground (arith, nat_eq_iff s.next_cell s.next_cell), refl)

    HasCell-register : (d : D) → HasCell s d → HasCell (register x (dce x) s) d
    unfolding register
    HasCell-register d (p, info, at, same) =
        (p, info, ground (arith, h.fresh p, nat_eq_iff p s.next_cell), same)

    register-Inv :
        included ds x ≡ true
        → is_alive (dce x) ≡ false
        → Inv dce ds rest "" [] [] (register x (dce x) s)
    unfolding register
    register-Inv i a = record {
      live = h.live;
      cell = register-cell i a;
      fresh = λ p k. ground (arith, h.fresh p, nat_eq_iff p s.next_cell);
      alive_found = h.alive_found;
      link_found = h.link_found;
      has_cell = λ d j b. ⊎_elim (λ c. inl (HasCell-register d c)) inr (h.has_cell d j b);
    }

  -- The declaration at the head of `rest` is dealt with.
  skip-Inv :
      (x : D) (l : Bool) (rest : List (D × Bool)) (s : Selector D)
      → (is_alive (dce x) ≡ true → found [] s x ≡ true)
      → (l ≡ true → found [] s x ≡ true)
      → (is_alive (dce x) ≡ false → HasCell s x)
      → Inv dce ds ((x, l) ∷ rest) "" [] [] s
      → Inv dce ds rest "" [] [] s
  skip-Inv x l rest s fa fl fc h = record {
    live = h.live;
    cell = h.cell;
    fresh = h.fresh;
    alive_found = λ d i a. ground (arith, h.alive_found d i a, e.equal_iff d x);
    link_found = λ d k. ground (arith, h.link_found d k, e.equal_iff d x);
    has_cell = λ d i a. elim (h.has_cell d i a) [
      | inl c ↦ inl c
      | inr r ↦ elim (Bool-cases (d == x)) [
        | inl same ↦
            let eq = (e.equal_iff d x).0 same in
            inl (subst (HasCell s) (sym eq) (fc (subst (λ y. is_alive (dce y) ≡ false) eq a)))
        | inr other ↦ inr (ground arith)
      ]
    ];
  }

  found-push : (x : D) (s : Selector D) → found [] (push x s) x ≡ true
  unfolding push
  found-push x s = ground (arith, e.equal_iff x x)

  queue-Inv :
      (l : Bool) (x : D) (rest : List (D × Bool)) (s : Selector D)
      → (l ≡ true → linked ds x ≡ true)
      → Inv dce ds rest "" [] [] s
      → Inv dce ds rest "" [] [] (if l then push x s else s)
  queue-Inv true x rest s r h = push-Inv rest x s h (link x (r refl))
  queue-Inv false x rest s r h = h

  found-queue :
      (l : Bool) (x : D) (s : Selector D)
      → l ≡ true
      → found [] (register x (dce x) (if l then push x s else s)) x ≡ true
  unfolding register
  found-queue true x s r = found-push x s
  found-queue false x s r = cc

  include-Inv :
      (x : D) (l : Bool) (rest : List (D × Bool)) (s : Selector D)
      → included ds x ≡ true
      → (l ≡ true → linked ds x ≡ true)
      → Inv dce ds ((x, l) ∷ rest) "" [] [] s
      → Inv dce ds rest "" [] [] (include x (dce x) l s)
  unfolding include
  include-Inv x l rest s i r h = elim (Bool-cases (is_alive (dce x))) [
    | inl a ↦ rw a (
        skip-Inv x l rest (push x s) (λ _. found-push x s) (λ _. found-push x s) (λ b. absurd (cc))
          (push-Inv _ x s h (alive x i a)))
    | inr a ↦ rw a (
        skip-Inv x l rest _ (λ b. absurd (cc)) (λ b. found-queue l x s b)
          (λ b. register-HasCell _ x _ (queue-Inv l x _ s r h))
          (register-Inv _ x _ (queue-Inv l x _ s r h) i a))
  ]

  -- Every call of `Include` keeps the invariant.
  include_all-Inv :
      (rest : List (D × Bool)) (s : Selector D)
      → ((x : D) → included rest x ≡ true → included ds x ≡ true)
      → ((x : D) → linked rest x ≡ true → linked ds x ≡ true)
      → Inv dce ds rest "" [] [] s
      → Inv dce ds [] "" [] [] (include_all dce rest s)
  unfolding include_all
  include_all-Inv [] s i k h = h
  include_all-Inv ((x, l) ∷ rest) s i k h =
      include_all-Inv rest (include x (dce x) l s) (λ y j. i y (ground arith))
        (λ y j. k y (ground arith))
        (include-Inv x l rest s (i x (ground (arith, e.equal_iff x x)))
          (λ j. k x (ground (arith, e.equal_iff x x))) h)

  pub Inv-include_all : Inv dce ds [] "" [] [] (include_all dce ds empty)
  Inv-include_all = include_all-Inv ds empty (λ x i. i) (λ x i. i) Inv-empty
