-- ===== src/TypeParams/Ids.antt =====
-- The numbers of the instances of a set, from the instances that were added.
use mathlib.Core.List.{append-nil, append_assoc}
use gopherjs.Base.{
  ℕ, Bool, true, false, none, some, List, [], ◌∷◌, ◌++◌, ◌≡◌, inl, inr, Bool-cases, Option-cases,
  Comparable, if◌then◌else◌, length, refl, ap, sym, subst, ◌∙◌,
}
use gopherjs.Base.Options.{is_some}
use gopherjs.TypeParams.Instance.{Types, Instance}
use gopherjs.TypeParams.InstanceMap.{get}
use gopherjs.TypeParams.MapLaws.{same}
use gopherjs.TypeParams.Promised.{get-new_map}
use gopherjs.TypeParams.InstanceSet.{InstanceSet, empty, admitted, add_one, add, id}
use gopherjs.TypeParams.Numbering.{
  position, position-same, position-append, IsNumbered, add_one-new, add_one-seen,
  add_one-IsNumbered, add-IsNumbered,
}

module _ {T O : Type 0} ⦃e : Comparable O⦄ (types : Types T) where
  abbrev pub any_same : List (Instance T O) → Instance T O → Bool
  any_same [] j = false
  any_same (v ∷ vs) j = if same types v j then true else any_same vs j

  -- the instances that are the same as none before them, `earlier` being all those before the list
  abbrev pub firsts : List (Instance T O) → List (Instance T O) → List (Instance T O)
  firsts earlier [] = []
  firsts earlier (inst ∷ instances) =
      let later = firsts (inst ∷ earlier) instances in
      if any_same earlier inst then later else inst ∷ later

  -- The numbered instances are those that came before, up to being the same.
  abbrev Covers : List (Instance T O) → List (Instance T O) → Type 0
  Covers earlier vs = (j : Instance T O) → any_same earlier j ≡ is_some (position types vs j)

  Covers-seen :
      (earlier vs : List (Instance T O)) (inst : Instance T O) (n : ℕ)
      → position types vs inst ≡ some n
      → Covers earlier vs
      → Covers (inst ∷ earlier) vs
  Covers-seen earlier vs inst n at covers j = elim (Bool-cases (same types inst j)) [
    | inl here ↦ rw (here, ← position-same types vs inst j here, at) refl
    | inr apart ↦ rw apart (covers j)
  ]

  Covers-new :
      (earlier vs : List (Instance T O)) (inst : Instance T O)
      → position types vs inst ≡ none
      → Covers earlier vs
      → Covers (inst ∷ earlier) (vs ++ inst ∷ [])
  Covers-new earlier vs inst new covers j =
      rw (position-append types vs inst j new) (elim (Bool-cases (same types inst j)) [
        | inl here ↦ rw here refl
        | inr apart ↦ rw apart (covers j)
      ])

  values_after : List (Instance T O) → InstanceSet T O → List (Instance T O)
  values_after instances s = (add types instances s).values

  add-nil : (s : InstanceSet T O) → values_after [] s ≡ s.values
  unfolding add values_after
  add-nil s = refl

  add-cons :
      (inst : Instance T O) (instances : List (Instance T O)) (s t : InstanceSet T O)
      → add_one types s inst ≡ t
      → values_after (inst ∷ instances) s ≡ values_after instances t
  unfolding add values_after
  add-cons inst instances s t step = ap (values_after instances) step

  firsts-cons :
      (earlier instances : List (Instance T O)) (inst : Instance T O) (b : Bool)
      → any_same earlier inst ≡ b
      → firsts earlier (inst ∷ instances) ≡ (
          if b then firsts (inst ∷ earlier) instances else inst ∷ firsts (inst ∷ earlier) instances)
  firsts-cons earlier instances inst b e =
      ap
        (λ c.
          if c then firsts (inst ∷ earlier) instances else inst ∷ firsts (inst ∷ earlier) instances)
        e

  add-values :
      (instances earlier : List (Instance T O)) (s : InstanceSet T O)
      → IsNumbered types s
      → Covers earlier s.values
      → values_after instances s ≡ s.values ++ firsts earlier instances
  unfolding id
  add-values [] earlier s h covers = add-nil s ∙ sym (append-nil s.values)
  add-values (inst ∷ instances) earlier s h covers = elim (Option-cases (get types inst s.seen)) [
    | inr (n, seen) ↦
        let at = sym (h.1 inst) ∙ seen in
        add-cons inst instances s s (add_one-seen types s inst n seen)
        ∙ add-values instances (inst ∷ earlier) s h (Covers-seen earlier s.values inst n at covers)
        ∙ ap (λ l. s.values ++ l)
            (sym (firsts-cons earlier instances inst true (covers inst ∙ ap is_some at)))
    | inl new ↦
        let at = sym (h.1 inst) ∙ new in
        let next = admitted types inst s in
        let numbered =
          subst (IsNumbered types) (add_one-new types s inst new)
            (add_one-IsNumbered types s inst h) in
        add-cons inst instances s next (add_one-new types s inst new)
        ∙ add-values instances (inst ∷ earlier) next numbered
            (Covers-new earlier s.values inst at covers)
        ∙ append_assoc s.values (inst ∷ []) (firsts (inst ∷ earlier) instances)
        ∙ ap (λ l. s.values ++ l)
            (sym (firsts-cons earlier instances inst false (covers inst ∙ ap is_some at)))
  ]

  -- After `Add` of any instances to a new set, its values are those of the instances that are the
  -- same as none before them, in order. `ID` of an instance is the place of the first of these that
  -- is the same, and panics when there is none; `seen` has as many entries as there are values.
  pub id-add :
      (instances : List (Instance T O)) (j : Instance T O)
      → ((add types instances empty).values ≡ firsts [] instances)
        × (id types (add types instances empty) j ≡ position types (firsts [] instances) j)
        × ((add types instances empty).seen.len ≡ length (firsts [] instances))
  unfolding id values_after
  id-add instances j =
      let numbered : IsNumbered types empty = (refl, λ k. get-new_map types k) in
      let (size, number) = add-IsNumbered types instances empty numbered in
      let values = add-values instances [] empty numbered (λ k. refl) in
      (values, number j ∙ ap (λ vs. position types vs j) values, size ∙ ap length values)
