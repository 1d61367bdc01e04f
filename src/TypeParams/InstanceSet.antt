-- ===== src/TypeParams/InstanceSet.antt =====
-- compiler/internal/typeparams/instance.go: InstanceSet.
use mathlib.Core.List.{foldl}
use gopherjs.Base.{
  ℕ, ◌+◌, Bool, true, false, Option, none, some, List, [], ◌∷◌, ◌++◌, ◌==◌, Comparable, leb, length,
  get_elem?, if◌then◌else◌,
}
use gopherjs.TypeParams.Instance.{Types, Instance}
use gopherjs.TypeParams.InstanceMap.{InstanceMap, get, store}
use gopherjs.TypeParams.Promised.{new_map}

pub record InstanceSet (T O : Type 0) : Type 0 where
  pub values : List (Instance T O)
  pub unprocessed : ℕ
  pub seen : InstanceMap T O ℕ

abbrev pub empty : {T O : Type 0} → InstanceSet T O
empty = record { values = []; unprocessed = 0; seen = new_map }

module _ {T O : Type 0} ⦃e : Comparable O⦄ (types : Types T) where
  -- the two statements of `Add` for an instance that is new
  abbrev pub admitted : Instance T O → InstanceSet T O → InstanceSet T O
  admitted inst s = record s {
    seen = (store types inst s.seen.len s.seen).0;
    values = s.values ++ inst ∷ [];
  }

  abbrev pub add_seen : Instance T O → InstanceSet T O → Option ℕ → InstanceSet T O
  add_seen inst s (some id) = s
  add_seen inst s none = admitted inst s

  -- the body of the loop of `Add`
  unfoldable pub add_one : InstanceSet T O → Instance T O → InstanceSet T O
  add_one s inst = add_seen inst s (get types inst s.seen)

  unfoldable pub add : List (Instance T O) → InstanceSet T O → InstanceSet T O
  add instances s = foldl add_one s instances

  -- `ID`, with `none` for its panic
  unfoldable pub id : InstanceSet T O → Instance T O → Option ℕ
  id s inst = get types inst s.seen

module _ {T O : Type 0} where
  unfoldable pub exhausted : InstanceSet T O → Bool
  exhausted s = leb (length s.values) s.unprocessed

  -- The outer `none` is a read behind the slice, which would panic.
  abbrev pub taken :
      InstanceSet T O → Option (Instance T O) → Option (Option (Instance T O) × InstanceSet T O)
  taken s none = none
  taken s (some inst) = some (some inst, record s { unprocessed = s.unprocessed + 1 })

  -- `next`, whose inner `none` is a false second result
  unfoldable pub next : InstanceSet T O → Option (Option (Instance T O) × InstanceSet T O)
  unfolding exhausted
  next s = if exhausted s then some (none, s) else taken s (get_elem? s.values s.unprocessed)

module _ {T O : Type 0} ⦃e : Comparable O⦄ where
  -- `ForObj`
  unfoldable pub for_values : O → List (Instance T O) → List (Instance T O)
  for_values obj [] = []
  for_values obj (inst ∷ rest) =
      let found = for_values obj rest in if inst.object == obj then inst ∷ found else found

  unfoldable pub for_obj : O → InstanceSet T O → List (Instance T O)
  unfolding for_values
  for_obj obj s = for_values obj s.values

  unfoldable pub any_object : O → List (Instance T O) → Bool
  any_object obj [] = false
  any_object obj (inst ∷ rest) = if inst.object == obj then true else any_object obj rest

  -- `ObjHasInstances`
  unfoldable pub obj_has_instances : O → InstanceSet T O → Bool
  unfolding any_object
  obj_has_instances obj s = any_object obj s.values
