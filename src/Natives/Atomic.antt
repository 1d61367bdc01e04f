-- ===== src/Natives/Atomic.antt =====
-- compiler/natives/src/sync/atomic/atomic.go. A value in an interface is its dynamic type (the
-- `constructor` that `sameType` compares) with what it holds; `none` is the nil interface. `!=` on
-- interfaces is `$interfaceIsEqual` of compiler/prelude/prelude.js, which may panic. The functions on integers have one body for each type, with `wrap` for the arithmetic of the type.
use gopherjs.Base.{
  ℕ, ◌+◌, Bool, true, false, not, ◌&&◌, nat_eq, Option, none, some, List, [], ◌∷◌, if◌then◌else◌,
}

-- the variable afterwards, and the result
unfoldable pub swap : ℕ → ℕ → ℕ × ℕ
swap new old = (new, old)

unfoldable pub compare_and_swap : ℕ → ℕ → ℕ → ℕ × Bool
compare_and_swap old new at_addr = if nat_eq at_addr old then (new, true) else (at_addr, false)

module _ (wrap : ℕ → ℕ) where
  unfoldable pub add : ℕ → ℕ → ℕ × ℕ
  add delta at_addr = let new = wrap (at_addr + delta) in (new, new)

pub record Any : Type 0 where
  pub dynamic_type : ℕ
  pub content : ℕ

pub data ValuePanic : Type 0 where
  nil_value : ValuePanic
  inconsistent_type : ValuePanic
  inconsistent_old_type : ValuePanic
  uncomparable_type : ValuePanic

abbrev pub Interface : Type 0
Interface = Option Any

-- on two interfaces that are not nil
abbrev pub same_type : Any → Any → Bool
same_type x y = nat_eq x.dynamic_type y.dynamic_type

-- What the prelude knows of the dynamic types: whether values of a type are comparable, which type
-- is that of a *js.Object, and what `$equal` gives on two values of a comparable type, where `none`
-- is its panic on an uncomparable value in an interface inside of them. A NaN is not equal to itself.
pub record Dynamic : Type 0 where
  pub is_comparable : ℕ → Bool
  pub is_js_object : ℕ → Bool
  pub equal : ℕ → ℕ → ℕ → Option Bool

module _ (types : Dynamic) where
  abbrev pub any_equal : Any → Any → Option Bool
  any_equal x y =
      if not (same_type x y)
      then some false
      else (if types.is_js_object x.dynamic_type
          then some (nat_eq x.content y.content)
          else (if not (types.is_comparable x.dynamic_type)
              then none
              else types.equal x.dynamic_type x.content y.content))

  -- `$interfaceIsEqual`, with `none` for its panic
  abbrev pub interface_equal : Interface → Interface → Option Bool
  interface_equal none none = some true
  interface_equal (some x) (some y) = any_equal x y
  interface_equal _ _ = some false

-- `checkNew`: what it panics with
unfoldable pub check_new : Interface → Interface → Option ValuePanic
check_new v none = some nil_value
check_new none (some new) = none
check_new (some old) (some new) = if not (same_type new old) then some inconsistent_type else none

-- `sameType(old, new)`, where nil has the constructor of no Go type
abbrev pub same_type_as : Interface → Any → Bool
same_type_as none new = false
same_type_as (some old) new = same_type old new

-- The `Value` after a method, and its result or its panic.
pub data Outcome : Type 0 where
  returns : Outcome
  old_value : Interface → Outcome
  swapped : Bool → Outcome
  panics : ValuePanic → Outcome

abbrev pub checked : Option ValuePanic → Interface × Outcome → Interface → Interface × Outcome
checked none done v = done
checked (some p) done v = (v, panics p)

-- `Store`, `Swap` and `CompareAndSwap` of `Value`
unfoldable pub value_store : Interface → Interface → Interface × Outcome
value_store new v = checked (check_new v new) (new, returns) v

unfoldable pub value_swap : Interface → Interface → Interface × Outcome
value_swap new v = checked (check_new v new) (new, old_value v) v

abbrev pub is_nil : Interface → Bool
is_nil none = true
is_nil (some x) = false

-- `CompareAndSwap` behind the comparison of the value `v` with `old`
abbrev pub replace_if : Option Bool → Any → Interface → Interface × Outcome
replace_if none new v = (v, panics uncomparable_type)
replace_if (some false) new v = (v, swapped false)
replace_if (some true) new v = (some new, swapped true)

module _ (types : Dynamic) where
  -- behind `checkNew`, which panics when `new` is nil
  abbrev pub exchange : Interface → Any → Interface → Interface × Outcome
  exchange old new v =
      let compared = replace_if (interface_equal types v old) new v in
      if not (is_nil v && is_nil old) && not (same_type_as old new)
      then (v, panics inconsistent_old_type)
      else compared

  abbrev pub exchange_if : Interface → Interface → Interface → Interface × Outcome
  exchange_if old none v = (v, panics nil_value)
  exchange_if old (some new) v = exchange old new v

  unfoldable pub value_compare_and_swap : Interface → Interface → Interface → Interface × Outcome
  value_compare_and_swap old new v = checked (check_new v new) (exchange_if old new v) v

-- Methods of a `Value`, whose panics a caller may recover from.
pub data Call : Type 0 where
  store_call : Interface → Call
  swap_call : Interface → Call
  compare_and_swap_call : Interface → Interface → Call

module _ (types : Dynamic) where
  unfoldable pub apply : Call → Interface → Interface × Outcome
  apply (store_call new) v = value_store new v
  apply (swap_call new) v = value_swap new v
  apply (compare_and_swap_call old new) v = value_compare_and_swap types old new v

  unfoldable pub apply_all : List Call → Interface → Interface
  apply_all [] v = v
  apply_all (c ∷ cs) v = apply_all cs (apply c v).0
