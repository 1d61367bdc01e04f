-- ===== src/TypeParams/MapLaws.antt =====
-- What the map answers after `Set` and `Delete`.
use gopherjs.Base.{
  ℕ, Bool, true, ◌&&◌, Option, ◌≡◌, ◌==◌, inl, inr, Bool-cases, Comparable, ℕ_eq, nat_eq,
  nat_eq_iff, if◌then◌else◌, arith, refl, ap, sym, ◌∙◌,
}
use gopherjs.Base.Assoc.{lookup, put, lookup-put}
use gopherjs.TypeParams.Instance.{Types, Instance, args_match}
use gopherjs.TypeParams.Same.{type_hash-args_match}
use gopherjs.TypeParams.InstanceMap.{
  MapBucket, InstanceMap, hash_of, or_empty, bucket_at, bucket_of, put_bucket, get,
}
use gopherjs.TypeParams.Bucket.{first_value, first_value-same, value_in-find_in}

module _ {T O : Type 0} ⦃e : Comparable O⦄ (types : Types T) where
  -- The same key: the same object, with identical type arguments.
  abbrev pub same : Instance T O → Instance T O → Bool
  same a b = a.object == b.object && args_match types a b

  pub same-bucket :
      (a b : Instance T O)
      → same a b ≡ true
      → (e.equal a.object b.object && nat_eq (hash_of types a) (hash_of types b)) ≡ true
  same-bucket a b h =
      ground (arith, type_hash-args_match types a b, nat_eq_iff (hash_of types a) (hash_of types b))

module _ {T O V : Type 0} ⦃e : Comparable O⦄ (types : Types T) where
  pub bucket_at-put_bucket :
      (key : Instance T O) (bucket : MapBucket T O V) (im : InstanceMap T O V) (o : O) (id : ℕ)
      → bucket_at types o id (put_bucket types key bucket im) ≡ (
          if e.equal key.object o && nat_eq (hash_of types key) id
          then bucket
          else bucket_at types o id im)
  unfolding bucket_at put_bucket
  bucket_at-put_bucket key bucket im o id =
      let inner = or_empty (lookup key.object im.buckets) in
      ap (λ m. or_empty (lookup id (or_empty m)))
        (lookup-put key.object o (put (hash_of types key) bucket inner) im.buckets)
      ∙ elim (Bool-cases (e.equal key.object o)) [
        | inl eq ↦ rw eq (
            ap or_empty (lookup-put (hash_of types key) id bucket inner)
            ∙ rw (← (e.equal_iff key.object o).0 eq) (ground arith))
        | inr differs ↦ rw differs refl
      ]

  pub get-first_value :
      (key : Instance T O) (im : InstanceMap T O V)
      → get types key im ≡ first_value types key (bucket_of types key im)
  unfolding get
  get-first_value key im = value_in-find_in types key (bucket_of types key im)

  bucket_of-same :
      (a b : Instance T O) (im : InstanceMap T O V)
      → e.equal a.object b.object ≡ true
      → nat_eq (hash_of types a) (hash_of types b) ≡ true
      → bucket_of types a im ≡ bucket_of types b im
  bucket_of-same a b im o h =
      ap (λ x. bucket_at types x (hash_of types a) im) ((e.equal_iff a.object b.object).0 o)
      ∙ ap (λ x. bucket_at types b.object x im)
          ((nat_eq_iff (hash_of types a) (hash_of types b)).0 h)

  -- A map in which the bucket of `key` is changed so that it answers by `answer`.
  pub get-put_bucket :
      (key j : Instance T O) (bucket : MapBucket T O V) (im : InstanceMap T O V) (answer : Option V)
      → first_value types j bucket
        ≡ (if args_match types key j then answer else first_value types j (bucket_of types key im))
      → get types j (put_bucket types key bucket im)
        ≡ (if same types key j then answer else get types j im)
  get-put_bucket key j bucket im answer law =
      get-first_value j (put_bucket types key bucket im)
      ∙ ap (first_value types j) (bucket_at-put_bucket key bucket im j.object (hash_of types j))
      ∙ elim (Bool-cases
          (e.equal key.object j.object && nat_eq (hash_of types key) (hash_of types j))) [
            | inl here ↦
                let o : e.equal key.object j.object ≡ true = ground arith in
                let h : nat_eq (hash_of types key) (hash_of types j) ≡ true = ground arith in
                let as_j =
                  ap (first_value types j) (bucket_of-same key j im o h)
                  ∙ sym (get-first_value j im) in
                rw here (law ∙ ground (arith, o, as_j))
            | inr apart ↦
                rw apart (sym (get-first_value j im) ∙ ground (arith, same-bucket types key j))
          ]

  pub get-same :
      (a b : Instance T O) (im : InstanceMap T O V)
      → same types a b ≡ true
      → get types a im ≡ get types b im
  get-same a b im h =
      let here = same-bucket types a b h in
      let o : e.equal a.object b.object ≡ true = ground arith in
      let id : nat_eq (hash_of types a) (hash_of types b) ≡ true = ground arith in
      get-first_value a im
      ∙ ap (first_value types a) (bucket_of-same a b im o id)
      ∙ first_value-same types a b (bucket_of types b im) (ground arith)
      ∙ sym (get-first_value b im)
