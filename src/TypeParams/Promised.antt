-- ===== src/TypeParams/Promised.antt =====
-- Any sequence of `Set` and `Delete` against the function that the map stands for.
use gopherjs.Base.{Option, none, some, List, [], ◌∷◌, ◌≡◌, Comparable, if◌then◌else◌, refl, ◌∙◌}
use gopherjs.Base.Assoc.{lookup}
use gopherjs.TypeParams.Instance.{Types, Instance}
use gopherjs.TypeParams.InstanceMap.{InstanceMap, bucket_at, get, store, delete, find_in}
use gopherjs.TypeParams.MapLaws.{same}
use gopherjs.TypeParams.Answers.{IsValid, get-store, store-IsValid, get-delete}

pub data Call (T O V : Type 0) : Type 0 where
  set_call : Instance T O → V → Call T O V
  delete_call : Instance T O → Call T O V

abbrev pub new_map : {T O V : Type 0} → InstanceMap T O V
new_map = record { buckets = []; len = 0 }

module _ {T O : Type 0} ⦃e : Comparable O⦄ (types : Types T) where
  pub new_map-IsValid : (V : Type 0) → IsValid {O = O} {V = V} types new_map
  unfolding bucket_at lookup
  new_map-IsValid V o id = tt

module _ {T O V : Type 0} ⦃e : Comparable O⦄ (types : Types T) where
  unfoldable pub call : Call T O V → InstanceMap T O V → InstanceMap T O V
  call (set_call key value) im = (store types key value im).0
  call (delete_call key) im = (delete types key im).0

  unfoldable pub run : List (Call T O V) → InstanceMap T O V → InstanceMap T O V
  unfolding call
  run [] im = im
  run (c ∷ calls) im = run calls (call c im)

  -- The function after a call, and after all calls.
  abbrev pub promise : Call T O V → (Instance T O → Option V) → Instance T O → Option V
  promise (set_call key value) f j = if same types key j then some value else f j
  promise (delete_call key) f j = if same types key j then none else f j

  abbrev pub promised : List (Call T O V) → (Instance T O → Option V) → Instance T O → Option V
  promised [] f = f
  promised (c ∷ calls) f = promised calls (promise c f)

  promised-cong :
      (calls : List (Call T O V)) (f g : Instance T O → Option V)
      → ((j : Instance T O) → f j ≡ g j)
      → (j : Instance T O) → promised calls f j ≡ promised calls g j
  promised-cong [] f g h j = h j
  promised-cong (set_call key value ∷ calls) f g h j =
      promised-cong calls (promise (set_call key value) f) (promise (set_call key value) g)
        (λ k. rw (h k) refl) j
  promised-cong (delete_call key ∷ calls) f g h j =
      promised-cong calls (promise (delete_call key) f) (promise (delete_call key) g)
        (λ k. rw (h k) refl) j

  get-call :
      (c : Call T O V) (im : InstanceMap T O V) (j : Instance T O)
      → IsValid types im
      → get types j (call c im) ≡ promise c (λ k. get types k im) j
  unfolding call
  get-call (set_call key value) im j valid = (get-store types key j value im).0
  get-call (delete_call key) im j valid = (get-delete types key j im valid).0

  call-IsValid :
      (c : Call T O V) (im : InstanceMap T O V) → IsValid types im → IsValid types (call c im)
  unfolding call
  call-IsValid (set_call key value) im valid = store-IsValid types key value im valid
  call-IsValid (delete_call key) im valid = (get-delete types key key im valid).1

  get-run :
      (calls : List (Call T O V)) (im : InstanceMap T O V) (j : Instance T O)
      → IsValid types im
      → get types j (run calls im) ≡ promised calls (λ k. get types k im) j
  unfolding run
  get-run [] im j valid = refl
  get-run (c ∷ calls) im j valid =
      get-run calls (call c im) j (call-IsValid c im valid)
      ∙ promised-cong calls (λ k. get types k (call c im)) (promise c (λ k. get types k im))
          (λ k. get-call c im k valid) j

  pub get-new_map : (j : Instance T O) → get {V = V} types j new_map ≡ none
  unfolding get bucket_at lookup find_in
  get-new_map j = refl

  -- After any sequence of `Set` and `Delete` on a new map, `get` answers as the function from
  -- instances to values does that each call changes at the instances which are the same as its key:
  -- the same object, and identical type arguments and nesting type arguments.
  pub get-run_new :
      (calls : List (Call T O V)) (j : Instance T O)
      → get types j (run calls new_map) ≡ promised calls (λ k. none) j
  get-run_new calls j =
      get-run calls new_map j (new_map-IsValid types V)
      ∙ promised-cong calls (λ k. get types k new_map) (λ k. none) get-new_map j
