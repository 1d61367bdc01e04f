-- ===== src/Nosync/Map.antt =====
-- nosync/map.go. The nil map is `none`. A key that cannot be hashed makes an operation on the
-- built-in map panic, and so the method. `Range` visits the entries in the order in which the
-- association list holds them, which is one of the orders that Go allows.
use gopherjs.Base.{Bool, true, false, Option, none, some, List, [], ◌∷◌, if◌then◌else◌}
use gopherjs.Nosync.Keys.{Keys, Entries, find, insert, discard}

pub record Map (K V : Type 0) : Type 0 where
  pub m : Option (Entries K V)

module _ {K V : Type 0} ⦃keys : Keys K⦄ where
  -- a read of the nil map finds nothing
  abbrev pub read : K → Option (Entries K V) → Option V
  read key none = none
  read key (some m) = find key m

  -- The outer `none` is the panic on a key that cannot be hashed, also of a read of the nil map.
  unfoldable pub load : K → Map K V → Option (Option V)
  load key m = if keys.hashable key then some (read key m.m) else none

  -- the map after `if m.m == nil { m.m = make(map[any]any) }`
  abbrev pub allocated : Option (Entries K V) → Entries K V
  allocated none = []
  allocated (some m) = m

  abbrev pub inserted : K → V → Entries K V → Entries K V
  inserted key value m = if keys.hashable key then insert key value m else m

  -- whether it returned, and the map, which is made before the panic
  unfoldable pub store : K → V → Map K V → Bool × Map K V
  store key value m = (keys.hashable key, record { m = some (inserted key value (allocated m.m)) })

  abbrev pub stored_unless : Option V → K → V → Map K V → (V × Bool) × Map K V
  stored_unless (some found) key value m = ((found, true), m)
  stored_unless none key value m =
      ((value, false), record { m = some (insert key value (allocated m.m)) })

  -- It panics in the read, before anything has changed.
  unfoldable pub load_or_store : K → V → Map K V → Option (V × Bool) × Map K V
  load_or_store key value m =
      if keys.hashable key
      then (let (r, m') = stored_unless (read key m.m) key value m in (some r, m'))
      else (none, m)

  -- `Delete` returns early from the nil map.
  abbrev pub deleted : K → Option (Entries K V) → Bool × Option (Entries K V)
  deleted key none = (true, none)
  deleted key (some m) = if keys.hashable key then (true, some (discard key m)) else (false, some m)

  unfoldable pub delete : K → Map K V → Bool × Map K V
  delete key m = let (returned, entries) = deleted key m.m in (returned, record { m = entries })

  -- `range` with a callback that changes its own state and says whether to go on
  unfoldable pub range_entries : {S : Type 0} → (K → V → S → Bool × S) → Entries K V → S → S
  range_entries f [] s = s
  range_entries f ((k, v) ∷ m) s =
      let rest = range_entries f m (f k v s).1 in if (f k v s).0 then rest else (f k v s).1

  unfoldable pub range : {S : Type 0} → (K → V → S → Bool × S) → Map K V → S → S
  unfolding range_entries
  range f m s = range_entries f (allocated m.m) s

pub data Call (K V : Type 0) : Type 0 where
  load_call : K → Call K V
  store_call : K → V → Call K V
  load_or_store_call : K → V → Call K V
  delete_call : K → Call K V

pub data Answer (V : Type 0) : Type 0 where
  loaded : Option V → Answer V
  either : V → Bool → Answer V
  nothing : Answer V
  panics : Answer V

abbrev pub answered : {V : Type 0} → Bool → Answer V
answered true = nothing
answered false = panics

abbrev pub load_answer : {V : Type 0} → Option (Option V) → Answer V
load_answer none = panics
load_answer (some o) = loaded o

abbrev pub either_answer : {V : Type 0} → Option (V × Bool) → Answer V
either_answer none = panics
either_answer (some (v, b)) = either v b

module _ {K V : Type 0} ⦃keys : Keys K⦄ where
  -- A caller may recover from a panic, and goes on with the map as it was left.
  unfoldable pub answer : Call K V → Map K V → Answer V × Map K V
  answer (load_call k) m = (load_answer (load k m), m)
  answer (store_call k v) m = (answered (store k v m).0, (store k v m).1)
  answer (load_or_store_call k v) m =
      (either_answer (load_or_store k v m).0, (load_or_store k v m).1)
  answer (delete_call k) m = (answered (delete k m).0, (delete k m).1)

  unfoldable pub answers : List (Call K V) → Map K V → List (Answer V)
  answers [] m = []
  answers (c ∷ calls) m = (answer c m).0 ∷ answers calls (answer c m).1
