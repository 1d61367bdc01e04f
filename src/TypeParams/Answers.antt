-- ===== src/TypeParams/Answers.antt =====
-- The map as a function from instances to values, over any sequence of `Set` and `Delete`.
use gopherjs.Base.{
  ℕ, ◌&&◌, Option, none, some, ◌≡◌, inl, inr, Bool-cases, Comparable, ℕ_eq, nat_eq, if◌then◌else◌,
  set, refl, sym, ◌∙◌, subst,
}
use gopherjs.TypeParams.Instance.{Types, Instance}
use gopherjs.TypeParams.InstanceMap.{
  MapBucket, InstanceMap, hash_of, bucket_at, bucket_of, put_bucket, get, store, delete, deleted,
  find_in, set_in,
}
use gopherjs.TypeParams.Bucket.{IsUnique}
use gopherjs.TypeParams.Placing.{set_in-Outcome}
use gopherjs.TypeParams.Deleting.{find_in-none, set-IsDeleted, set-IsUnique}
use gopherjs.TypeParams.Apart.{set_in-IsUnique}
use gopherjs.TypeParams.MapLaws.{
  same, bucket_at-put_bucket, get-first_value, get-same, get-put_bucket,
}

module _ {T O V : Type 0} ⦃e : Comparable O⦄ (types : Types T) where
  -- `Set` makes the map answer `value` for the keys that are the same as `key`, and leaves the
  -- answers for the others; it returns what the map answered for `key`.
  pub get-store :
      (key j : Instance T O) (value : V) (im : InstanceMap T O V)
      → (get types j (store types key value im).0
          ≡ (if same types key j then some value else get types j im))
        × ((store types key value im).1 ≡ get types key im)
  unfolding store get put_bucket bucket_at
  get-store key j value im =
      let (is_set, old, size) = set_in-Outcome types key value (bucket_of types key im) in
      (
        get-put_bucket types key j (set_in types key value (bucket_of types key im)).0 im
            (some value) (is_set j),
        old ∙ sym (get-first_value types key im),
      )

  -- No bucket holds two entries that match.
  abbrev pub IsValid : InstanceMap T O V → Type 0
  IsValid im = (o : O) (id : ℕ) → IsUnique types (bucket_at types o id im)

  put_bucket-IsValid :
      (key : Instance T O) (bucket : MapBucket T O V) (im : InstanceMap T O V)
      → IsUnique types bucket
      → IsValid im
      → IsValid (put_bucket types key bucket im)
  put_bucket-IsValid key bucket im unique valid o id =
      subst (IsUnique types) (sym (bucket_at-put_bucket types key bucket im o id))
        (elim (Bool-cases (e.equal key.object o && nat_eq (hash_of types key) id)) [
          | inl here ↦ rw here unique
          | inr apart ↦ rw apart (valid o id)
        ])

  -- No two entries match after a `Set` or a `Delete` if none did before.
  pub store-IsValid :
      (key : Instance T O) (value : V) (im : InstanceMap T O V)
      → IsValid im
      → IsValid (store types key value im).0
  unfolding store bucket_at
  store-IsValid key value im valid =
      put_bucket-IsValid key (set_in types key value (bucket_of types key im)).0 im
        (set_in-IsUnique types key value (bucket_of types key im)
          (valid key.object (hash_of types key)))
        valid

  deleted-laws :
      (key j : Instance T O) (im : InstanceMap T O V) (o : Option ℕ)
      → find_in types key (bucket_of types key im) ≡ o
      → IsValid im
      → (get types j (deleted types key im o).0
          ≡ (if same types key j then none else get types j im))
        × IsValid (deleted types key im o).0
  unfolding get bucket_at
  deleted-laws key j im none at valid =
      let absent : get types key im ≡ none =
        get-first_value types key im ∙ find_in-none types key (bucket_of types key im) at in
      (
        elim (Bool-cases (same types key j)) [
          | inl eq ↦ rw eq (sym (get-same types key j im eq) ∙ absent)
          | inr differs ↦ rw differs refl
        ],
        valid,
      )
  deleted-laws key j im (some i) at valid =
      let unique = valid key.object (hash_of types key) in
      let (is_deleted, size) = set-IsDeleted types key (bucket_of types key im) i at unique in
      (
        get-put_bucket types key j (set (bucket_of types key im) i none) im none (is_deleted j),
        put_bucket-IsValid key (set (bucket_of types key im) i none) im
            (set-IsUnique types key (bucket_of types key im) i at unique) valid,
      )

  -- `Delete` makes the map, in which no two entries match, answer nothing for the keys that are the
  -- same as `key`, leaves the answers for the others, and keeps the entries apart.
  pub get-delete :
      (key j : Instance T O) (im : InstanceMap T O V)
      → IsValid im
      → (get types j (delete types key im).0 ≡ (if same types key j then none else get types j im))
        × IsValid (delete types key im).0
  unfolding delete
  get-delete key j im valid =
      deleted-laws key j im (find_in types key (bucket_of types key im)) refl valid
