-- ===== src/TypeParams/Numbering.antt =====
-- One `Add`: each instance of a set has its place among the values as its number.
use mathlib.Core.Option
use gopherjs.Base.{
  ℕ, suc, ◌+◌, true, Option, none, some, List, [], ◌∷◌, ◌++◌, ◌≡◌, inl, inr, Bool-cases,
  Option-cases, Comparable, if◌then◌else◌, length, length-append, arith, refl, ap, sym, ◌∙◌,
}
use gopherjs.TypeParams.Instance.{Types, Instance}
use gopherjs.TypeParams.Same.{args_match_sym, args_match_trans}
use gopherjs.TypeParams.InstanceMap.{
  MapEntry, MapBucket, InstanceMap, Scan, replaced, missing, bucket_of, scan, scanned, set_in, get,
  store,
}
use gopherjs.TypeParams.MapLaws.{same}
use gopherjs.TypeParams.Answers.{get-store}
use gopherjs.TypeParams.InstanceSet.{InstanceSet, admitted, add_seen, add_one, add, id}

abbrev pub fresh : {A : Type 0} → Option A → ℕ
fresh none = 1
fresh (some a) = 0

map_suc-none : (o : Option ℕ) → Option.map suc o ≡ none → o ≡ none
map_suc-none none h = refl
map_suc-none (some n) h = absurd (cc h)

module _ {T O V : Type 0} (types : Types T) where
  scanned-more :
      (entry : MapEntry T O V) (bucket : MapBucket T O V) (s : Scan T O V)
      → (scanned types entry bucket s).2 ≡ fresh (scanned types entry bucket s).1
  scanned-more entry bucket (replaced b old) = refl
  scanned-more entry bucket (missing hole) = refl

  set_in-more :
      (key : Instance T O) (value : V) (bucket : MapBucket T O V)
      → (set_in types key value bucket).2 ≡ fresh (set_in types key value bucket).1
  unfolding set_in
  set_in-more key value bucket =
      scanned-more (record { key = key; value = value }) bucket (scan types key value 0 none bucket)

module _ {T O V : Type 0} ⦃e : Comparable O⦄ (types : Types T) where
  -- `Set` makes the map longer by one exactly when it had no value for the key.
  len-store :
      (key : Instance T O) (value : V) (im : InstanceMap T O V)
      → (store types key value im).0.len ≡ im.len + fresh (get types key im)
  unfolding store
  len-store key value im =
      ap (λ n. im.len + n)
        (set_in-more types key value (bucket_of types key im)
          ∙ ap fresh (get-store types key key value im).1)

module _ {T O : Type 0} ⦃e : Comparable O⦄ (types : Types T) where
  same_sym : (a b : Instance T O) → same types a b ≡ true → same types b a ≡ true
  same_sym a b h = ground (
    arith,
    args_match_sym types a b,
    e.equal_iff a.object b.object,
    e.equal_iff b.object a.object,
  )

  same_trans :
      (a b c : Instance T O) → same types a b ≡ true → same types b c ≡ true → same types a c ≡ true
  same_trans a b c h k = ground (
    arith,
    args_match_trans types a b c,
    e.equal_iff a.object b.object,
    e.equal_iff b.object c.object,
    e.equal_iff a.object c.object,
  )

  same-eq : (v a b : Instance T O) → same types a b ≡ true → same types v a ≡ same types v b
  same-eq v a b h = elim (Bool-cases (same types v a)) [
    | inl v_a ↦ v_a ∙ sym (same_trans v a b v_a h)
    | inr not_a ↦ elim (Bool-cases (same types v b)) [
      | inl v_b ↦ absurd (cc (sym not_a ∙ same_trans v b a v_b (same_sym a b h)))
      | inr not_b ↦ not_a ∙ sym not_b
    ]
  ]

  -- the place of the first instance that is the same
  abbrev pub position : List (Instance T O) → Instance T O → Option ℕ
  position [] j = none
  position (v ∷ vs) j = if same types v j then some 0 else Option.map suc (position vs j)

  pub position-same :
      (vs : List (Instance T O)) (a b : Instance T O)
      → same types a b ≡ true
      → position vs a ≡ position vs b
  position-same [] a b h = refl
  position-same (v ∷ vs) a b h = rw (same-eq v a b h, position-same vs a b h) refl

  pub position-append :
      (vs : List (Instance T O)) (inst j : Instance T O)
      → position vs inst ≡ none
      → position (vs ++ inst ∷ []) j
        ≡ (if same types inst j then some (length vs) else position vs j)
  position-append [] inst j h = refl
  position-append (v ∷ vs) inst j h = elim (Bool-cases (same types v inst)) [
    | inl v_inst ↦ absurd (cc (rw v_inst at h))
    | inr differs ↦
        let absent : position vs inst ≡ none = map_suc-none (position vs inst) (rw differs at h) in
        rw (position-append vs inst j absent) (elim (Bool-cases (same types inst j)) [
          | inl here ↦ let v_j = sym (same-eq v inst j here) ∙ differs in rw (here, v_j) refl
          | inr apart ↦ rw apart refl
        ])
  ]

  -- Each instance has its place in `values` as its number.
  abbrev pub IsNumbered : InstanceSet T O → Type 0
  IsNumbered s =
      (s.seen.len ≡ length s.values) × ((j : Instance T O) → id types s j ≡ position s.values j)

  pub add_one-new :
      (s : InstanceSet T O) (inst : Instance T O)
      → get types inst s.seen ≡ none
      → add_one types s inst ≡ admitted types inst s
  unfolding add_one
  add_one-new s inst h = ap (add_seen types inst s) h

  pub add_one-seen :
      (s : InstanceSet T O) (inst : Instance T O) (n : ℕ)
      → get types inst s.seen ≡ some n
      → add_one types s inst ≡ s
  unfolding add_one
  add_one-seen s inst n h = ap (add_seen types inst s) h

  pub add_one-IsNumbered :
      (s : InstanceSet T O) (inst : Instance T O) → IsNumbered s → IsNumbered (add_one types s inst)
  unfolding id
  add_one-IsNumbered s inst (size, number) = elim (Option-cases (get types inst s.seen)) [
    | inr (n, seen) ↦ rw (add_one-seen s inst n seen) (size, number)
    | inl new ↦ rw (add_one-new s inst new) (
      len-store types inst s.seen.len s.seen
          ∙ rw (new, size, length-append s.values (inst ∷ [])) refl,
      λ j.
          let at : get types j s.seen ≡ position s.values j = number j in
          (get-store types inst j s.seen.len s.seen).0
          ∙ rw (position-append s.values inst j (sym (number inst) ∙ new))
              (rw at (ap (λ n. if same types inst j then some n else position s.values j) size)),
    )
  ]

  pub add-IsNumbered :
      (instances : List (Instance T O)) (s : InstanceSet T O)
      → IsNumbered s
      → IsNumbered (add types instances s)
  unfolding add
  add-IsNumbered [] s h = h
  add-IsNumbered (inst ∷ instances) s h =
      add-IsNumbered instances (add_one types s inst) (add_one-IsNumbered s inst h)
