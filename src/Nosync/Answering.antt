-- ===== src/Nosync/Answering.antt =====
-- The methods of nosync.Map answer as a function from keys to values.
use gopherjs.Base.{
  Bool, true, false, Option, none, some, List, [], ◌∷◌, ◌≡◌, if◌then◌else◌, refl, ap, ◌∙◌, arith,
  Bool-cases, inl, inr,
}
use gopherjs.Nosync.Keys.{Keys, Entries, find, insert, find-insert, find-discard}
use gopherjs.Nosync.Map.{
  Map, read, allocated, stored_unless, load, store, load_or_store, delete, Call, load_call,
  store_call, load_or_store_call, delete_call, Answer, loaded, either, nothing, panics,
  either_answer, answer, answers,
}

-- What package sync promises, of a map that is a function from keys; `made` says whether a store
-- has been tried, since before that nosync's `Delete` does not look at its key.
pub record Contents (K V : Type 0) : Type 0 where
  pub at_key : K → Option V
  pub made : Bool

module _ {K V : Type 0} ⦃keys : Keys K⦄ where
  abbrev pub assign : K → Option V → Contents K V → Contents K V
  assign k v c = record { at_key = λ j. if keys.equal k j then v else c.at_key j; made = true }

  abbrev pub found_or : Option V → K → V → Contents K V → Answer V × Contents K V
  found_or none k v c = (either v false, assign k (some v) c)
  found_or (some w) k v c = (either w true, c)

  -- a call whose key can be hashed
  abbrev pub promised_hashed : Call K V → Contents K V → Answer V × Contents K V
  promised_hashed (load_call k) c = (loaded (c.at_key k), c)
  promised_hashed (store_call k v) c = (nothing, assign k (some v) c)
  promised_hashed (load_or_store_call k v) c = found_or (c.at_key k) k v c
  promised_hashed (delete_call k) c = (nothing, record (assign k none c) { made = c.made })

  -- a call whose key cannot be hashed
  abbrev pub promised_unhashed : Call K V → Contents K V → Answer V × Contents K V
  promised_unhashed (load_call k) c = (panics, c)
  promised_unhashed (store_call k v) c = (panics, record c { made = true })
  promised_unhashed (load_or_store_call k v) c = (panics, c)
  promised_unhashed (delete_call k) c = (if c.made then panics else nothing, c)

  abbrev pub key_of : Call K V → K
  key_of (load_call k) = k
  key_of (store_call k v) = k
  key_of (load_or_store_call k v) = k
  key_of (delete_call k) = k

  abbrev pub promised : Call K V → Contents K V → Answer V × Contents K V
  promised call c =
      if keys.hashable (key_of call) then promised_hashed call c else promised_unhashed call c

  abbrev pub promised_answers : List (Call K V) → Contents K V → List (Answer V)
  promised_answers [] c = []
  promised_answers (call ∷ calls) c =
      (promised call c).0 ∷ promised_answers calls (promised call c).1

  abbrev is_made : Option (Entries K V) → Bool
  is_made none = false
  is_made (some m) = true

  -- the contents of a map
  abbrev pub contents : Map K V → Contents K V
  contents m = record { at_key = λ k. read k m.m; made = is_made m.m }

  -- Two contents that agree at each key.
  abbrev Agree : Contents K V → Contents K V → Type 0
  Agree c d = ((k : K) → c.at_key k ≡ d.at_key k) × (c.made ≡ d.made)

  find-allocated : (j : K) (o : Option (Entries K V)) → find j (allocated o) ≡ read j o
  unfolding find
  find-allocated j none = refl
  find-allocated j (some m) = refl

  read-insert :
      (k j : K) (v : V) (o : Option (Entries K V))
      → find j (insert k v (allocated o)) ≡ (if keys.equal k j then some v else read j o)
  read-insert k j v o =
      find-insert k j v (allocated o)
      ∙ ap (λ r. if keys.equal k j then some v else r) (find-allocated j o)

  -- One call: the answer is the promised one, and the contents afterwards agree.
  abbrev Right : Call K V → Map K V → Contents K V → Type 0
  Right call m c =
      ((answer call m).0 ≡ (promised call c).0)
      × Agree (contents (answer call m).1) (promised call c).1

  load-Right :
      (k : K) (m : Map K V) (c : Contents K V) → Agree (contents m) c → Right (load_call k) m c
  unfolding answer load
  load-Right k m c (same, made) = elim (Bool-cases (keys.hashable k)) [
    | inl hashed ↦ rw hashed (ap loaded (same k), (same, made))
    | inr unhashed ↦ rw unhashed (refl, (same, made))
  ]

  store-Right :
      (k : K) (v : V) (m : Map K V) (c : Contents K V)
      → Agree (contents m) c
      → Right (store_call k v) m c
  unfolding answer store
  store-Right k v m c (same, made) = elim (Bool-cases (keys.hashable k)) [
    | inl hashed ↦ rw hashed (
      refl,
      (λ j. read-insert k j v m.m ∙ ap (λ r. if keys.equal k j then some v else r) (same j), refl),
    )
    | inr unhashed ↦ rw unhashed (refl, (λ j. find-allocated j m.m ∙ same j, refl))
  ]

  found-Right :
      (o : Option V) (k : K) (v : V) (m : Map K V) (c : Contents K V)
      → Agree (contents m) c
      → (either_answer (some (stored_unless o k v m).0) ≡ (found_or o k v c).0)
        × Agree (contents (stored_unless o k v m).1) (found_or o k v c).1
  found-Right none k v m c (same, made) = (
    refl,
    (λ j. read-insert k j v m.m ∙ ap (λ r. if keys.equal k j then some v else r) (same j), refl),
  )
  found-Right (some w) k v m c agree = (refl, agree)

  load_or_store-Right :
      (k : K) (v : V) (m : Map K V) (c : Contents K V)
      → Agree (contents m) c
      → Right (load_or_store_call k v) m c
  unfolding answer load_or_store
  load_or_store-Right k v m c (same, made) = elim (Bool-cases (keys.hashable k)) [
    | inl hashed ↦ rw (hashed, ← same k) (found-Right (read k m.m) k v m c (same, made))
    | inr unhashed ↦ rw unhashed (refl, (same, made))
  ]

  delete-Right :
      (k : K) (o : Option (Entries K V)) (c : Contents K V)
      → Agree (contents (record { m = o })) c
      → Right (delete_call k) (record { m = o }) c
  unfolding answer delete
  delete-Right k none c (same, made) = elim (Bool-cases (keys.hashable k)) [
    | inl hashed ↦ rw hashed (refl, (λ j. ground (arith, same j), made))
    | inr unhashed ↦ rw (unhashed, ← made) (refl, (same, refl))
  ]
  delete-Right k (some m) c (same, made) = elim (Bool-cases (keys.hashable k)) [
    | inl hashed ↦ rw hashed (
      refl,
      (λ j. find-discard k j m ∙ ap (λ r. if keys.equal k j then none else r) (same j), made),
    )
    | inr unhashed ↦ rw (unhashed, ← made) (refl, (same, refl))
  ]

  call-Right :
      (call : Call K V) (m : Map K V) (c : Contents K V) → Agree (contents m) c → Right call m c
  call-Right (load_call k) m c agree = load-Right k m c agree
  call-Right (store_call k v) m c agree = store-Right k v m c agree
  call-Right (load_or_store_call k v) m c agree = load_or_store-Right k v m c agree
  call-Right (delete_call k) m c agree = delete-Right k m.m c agree

  answers-promised_from :
      (calls : List (Call K V)) (m : Map K V) (c : Contents K V)
      → Agree (contents m) c
      → answers calls m ≡ promised_answers calls c
  unfolding answers
  answers-promised_from [] m c agree = refl
  answers-promised_from (call ∷ calls) m c agree =
      let (now, later) = call-Right call m c agree in
      ap (λ a. a ∷ answers calls (answer call m).1) now
      ∙ ap (λ l. (promised call c).0 ∷ l)
          (answers-promised_from calls (answer call m).1 (promised call c).1 later)

  -- Any sequence of calls on a map gets the answers that a function from keys to values would give
  -- which starts as the map's contents: a call whose key cannot be hashed panics, but for Delete on
  -- a map that no store has made yet, and changes no value; any other call does not panic, and what
  -- is stored under a key that is not equal to itself is never found.
  pub answers-promised :
      (calls : List (Call K V)) (m : Map K V)
      → answers calls m ≡ promised_answers calls (contents m)
  answers-promised calls m = answers-promised_from calls m (contents m) (λ k. refl, refl)
