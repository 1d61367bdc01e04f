-- ===== src/Natives/ValueTypes.antt =====
-- The type of what a `sync/atomic.Value` holds.
use gopherjs.Base.{
  ◌≡◌, inl, inr, Bool, true, false, not, ◌&&◌, ◌||◌, Option, nat_eq, nat_eq_iff, none, some, List,
  [], ◌∷◌, arith, refl, sym, ap, ◌∙◌, subst, Bool-cases,
}
use gopherjs.Base.Options.{is_some}
use gopherjs.Natives.Atomic.{
  Any, Interface, Dynamic, replace_if, same_type, check_new, value_store, value_swap,
  value_compare_and_swap, Call, store_call, swap_call, compare_and_swap_call, apply, apply_all,
  any_equal, Outcome, returns, old_value, swapped, panics,
}

-- The value `x` is kept or replaced by one of its type.
abbrev pub Keeps : Any → Interface → Type 0
Keeps x v = (y : Any) × (v ≡ some y) × (y.dynamic_type ≡ x.dynamic_type)

abbrev pub of_type : Any → Interface → Bool
of_type x none = false
of_type x (some y) = same_type y x

-- Values of the type of `x` can be compared, and `x` with `old` without a panic inside of them.
abbrev pub can_compare : Dynamic → Any → Interface → Bool
can_compare types x none = true
can_compare types x (some old) =
    types.is_js_object x.dynamic_type
    || types.is_comparable x.dynamic_type
      && is_some (types.equal x.dynamic_type x.content old.content)

-- Every argument of a call has the type of `x`, and what is compared can be.
abbrev pub fits : Dynamic → Any → Call → Bool
fits types x (store_call new) = of_type x new
fits types x (swap_call new) = of_type x new
fits types x (compare_and_swap_call old new) =
    of_type x new && (of_type x old && can_compare types x old)

abbrev pub is_panic : Outcome → Bool
is_panic (panics p) = true
is_panic (returns) = false
is_panic (old_value v) = false
is_panic (swapped b) = false

same_type-sym : (x y : Any) → same_type x y ≡ true → y.dynamic_type ≡ x.dynamic_type
same_type-sym x y h = ground (arith, nat_eq_iff x.dynamic_type y.dynamic_type)

module _ (types : Dynamic) where
  -- One call on a `Value` that holds `x`.
  abbrev Right : Call → Any → Type 0
  Right c x =
      Keeps x (apply types c (some x)).0
      × (is_panic (apply types c (some x)).1 ≡ not (fits types x c))

  store-Right : (new : Interface) (x : Any) → Right (store_call new) x
  unfolding apply value_store check_new
  store-Right none x = ((x, refl, refl), refl)
  store-Right (some new) x = elim (Bool-cases (same_type new x)) [
    | inl same ↦ rw same ((new, refl, sym (same_type-sym new x same)), refl)
    | inr other ↦ rw other ((x, refl, refl), refl)
  ]

  swap-Right : (new : Interface) (x : Any) → Right (swap_call new) x
  unfolding apply value_swap check_new
  swap-Right none x = ((x, refl, refl), refl)
  swap-Right (some new) x = elim (Bool-cases (same_type new x)) [
    | inl same ↦ rw same ((new, refl, sym (same_type-sym new x same)), refl)
    | inr other ↦ rw other ((x, refl, refl), refl)
  ]

  types_agree : (old new x : Any) → same_type new x ≡ true → same_type old new ≡ same_type old x
  types_agree old new x h = ap (λ t. nat_eq old.dynamic_type t) (sym (same_type-sym new x h))

  replace_if-Right :
      (o : Option Bool) (new x : Any)
      → same_type new x ≡ true
      → Keeps x (replace_if o new (some x)).0
        × (is_panic (replace_if o new (some x)).1 ≡ not (is_some o))
  replace_if-Right none new x same = ((x, refl, refl), refl)
  replace_if-Right (some false) new x same = ((x, refl, refl), refl)
  replace_if-Right (some true) new x same = ((new, refl, sym (same_type-sym new x same)), refl)

  can_compare-any_equal :
      (old x : Any)
      → same_type old x ≡ true
      → is_some (any_equal types x old) ≡ can_compare types x (some old)
  can_compare-any_equal old x h =
      ground (arith, nat_eq_iff x.dynamic_type old.dynamic_type, same_type-sym old x h)

  compare_and_swap-Right : (old new : Interface) (x : Any) → Right (compare_and_swap_call old new) x
  unfolding apply value_compare_and_swap check_new
  compare_and_swap-Right old none x = ((x, refl, refl), refl)
  compare_and_swap-Right none (some new) x = elim (Bool-cases (same_type new x)) [
    | inl same ↦ rw same ((x, refl, refl), refl)
    | inr other ↦ rw other ((x, refl, refl), refl)
  ]
  compare_and_swap-Right (some old) (some new) x = elim (Bool-cases (same_type new x)) [
    | inr other ↦ rw other ((x, refl, refl), refl)
    | inl same ↦ elim (Bool-cases (same_type old x)) [
      | inr other ↦ rw (same, types_agree old new x same ∙ other, other) ((x, refl, refl), refl)
      | inl old_same ↦
          let (kept, panicking) = replace_if-Right (any_equal types x old) new x same in
          rw (same, types_agree old new x same ∙ old_same, old_same)
            (kept, panicking ∙ ap not (can_compare-any_equal old x old_same))
    ]
  ]

  call-Right : (c : Call) (x : Any) → Right c x
  call-Right (store_call new) x = store-Right new x
  call-Right (swap_call new) x = swap-Right new x
  call-Right (compare_and_swap_call old new) x = compare_and_swap-Right old new x

  Keeps-calls :
      (cs : List Call) (x y : Any)
      → y.dynamic_type ≡ x.dynamic_type
      → Keeps x (apply_all types cs (some y))
  unfolding apply_all
  Keeps-calls [] x y same = (y, refl, same)
  Keeps-calls (c ∷ cs) x y same =
      let (z, held, type) = (call-Right c y).0 in
      subst (λ v. Keeps x (apply_all types cs v)) (sym held) (Keeps-calls cs x z (type ∙ same))

  -- No calls change the type of what a `Value` holds, and a call on it panics exactly when an
  -- argument of the call is nil or has another type, or the call is a `CompareAndSwap` of an old
  -- value that cannot be compared with the one held.
  pub value_type_stays :
      (cs : List Call) (c : Call) (x : Any)
      → Keeps x (apply_all types cs (some x))
        × (is_panic (apply types c (some x)).1 ≡ not (fits types x c))
  value_type_stays cs c x = (Keeps-calls cs x x refl, (call-Right c x).1)
