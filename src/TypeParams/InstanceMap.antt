-- ===== src/TypeParams/InstanceMap.antt =====
-- compiler/internal/typeparams/map.go: InstanceMap. A bucket is a list of cells, `none` for the nil
-- that `Delete` leaves. The map whose `data` is nil answers as the one without buckets.
use mathlib.Core.Option
use gopherjs.Base.{
  get_elem?, ℕ, suc, ◌+◌, ◌-◌, Bool, true, false, Option, none, some, List, [], ◌∷◌, ◌++◌,
  Comparable, ℕ_eq, if◌then◌else◌, set,
}
use gopherjs.Base.Assoc.{Assoc, lookup, put}
use gopherjs.TypeParams.Instance.{Types, Instance, args_match, type_hash}

pub record MapEntry (T O V : Type 0) : Type 0 where
  pub key : Instance T O
  pub value : V

abbrev pub MapBucket : Type 0 → Type 0 → Type 0 → Type 0
MapBucket T O V = List (Option (MapEntry T O V))

pub record InstanceMap (T O V : Type 0) : Type 0 where
  pub buckets : Assoc O (Assoc ℕ (MapBucket T O V))
  pub len : ℕ

-- How the loop of `Set` over a bucket ends: it overrode an entry, or it has a hole or none.
pub data Scan (T O V : Type 0) : Type 0 where
  replaced : MapBucket T O V → V → Scan T O V
  missing : Option ℕ → Scan T O V

abbrev pub keep : {T O V : Type 0} → Option (MapEntry T O V) → Scan T O V → Scan T O V
keep cell (replaced bucket old) = replaced (cell ∷ bucket) old
keep cell (missing hole) = missing hole

module _ {T O V : Type 0} (types : Types T) where
  abbrev pub candidate_args_match : Instance T O → Option (MapEntry T O V) → Bool
  candidate_args_match key none = false
  candidate_args_match key (some candidate) = args_match types candidate.key key

  -- the loop of `findIndex` over a bucket
  unfoldable pub find_in : Instance T O → MapBucket T O V → Option ℕ
  find_in key [] = none
  find_in key (candidate ∷ bucket) =
      let rest = Option.map suc (find_in key bucket) in
      if candidate_args_match key candidate then some 0 else rest

  -- bucket[i].value for the index that `findIndex` returned
  abbrev pub value_in : MapBucket T O V → Option ℕ → Option V
  value_in bucket none = none
  value_in bucket (some i) = elim (get_elem? bucket i) [
    | some (some entry) ↦ some entry.value
    | _ ↦ none
  ]

  -- The loop of `Set` over a bucket, from the index `i` on, with the hole seen last.
  unfoldable pub scan : Instance T O → V → ℕ → Option ℕ → MapBucket T O V → Scan T O V
  scan key value i hole [] = missing hole
  scan key value i hole (none ∷ bucket) = keep none (scan key value (suc i) (some i) bucket)
  scan key value i hole (some candidate ∷ bucket) =
      let rest = keep (some candidate) (scan key value (suc i) hole bucket) in
      if args_match types candidate.key key
      then replaced (some (record candidate { value = value }) ∷ bucket) candidate.value
      else rest

  -- what `Set` does with the entry that the bucket does not have
  abbrev pub place : MapEntry T O V → Option ℕ → MapBucket T O V → MapBucket T O V
  place entry (some hole) bucket = set bucket hole (some entry)
  place entry none bucket = bucket ++ some entry ∷ []

  -- the bucket, the old value and how much `len` grows
  abbrev pub scanned :
      MapEntry T O V → MapBucket T O V → Scan T O V → MapBucket T O V × Option V × ℕ
  scanned entry bucket (replaced bucket' old) = (bucket', some old, 0)
  scanned entry bucket (missing hole) = (place entry hole bucket, none, 1)

  unfoldable pub set_in : Instance T O → V → MapBucket T O V → MapBucket T O V × Option V × ℕ
  set_in key value bucket =
      scanned (record { key = key; value = value }) bucket (scan key value 0 none bucket)

abbrev pub hash_of : {T O : Type 0} → Types T → Instance T O → ℕ
hash_of types key = type_hash types key.t_nest key.t_args

abbrev pub or_empty : {A : Type 0} → Option (List A) → List A
or_empty none = []
or_empty (some m) = m

module _ {T O V : Type 0} ⦃e : Comparable O⦄ (types : Types T) where
  -- im.data[object][bucketID]
  unfoldable pub bucket_at : O → ℕ → InstanceMap T O V → MapBucket T O V
  bucket_at object id im = or_empty (lookup id (or_empty (lookup object im.buckets)))

  abbrev pub bucket_of : Instance T O → InstanceMap T O V → MapBucket T O V
  bucket_of key im = bucket_at key.object (hash_of types key) im

  unfoldable pub put_bucket : Instance T O → MapBucket T O V → InstanceMap T O V → InstanceMap T O V
  put_bucket key bucket im = record im {
    buckets =
        put key.object (put (hash_of types key) bucket (or_empty (lookup key.object im.buckets)))
          im.buckets;
  }

  -- `get`, with `none` for a false second result
  unfoldable pub get : Instance T O → InstanceMap T O V → Option V
  get key im = let bucket = bucket_of key im in value_in types bucket (find_in types key bucket)

  -- `Set`, with `none` for the zero value that it returns for a new key
  unfoldable pub store : Instance T O → V → InstanceMap T O V → InstanceMap T O V × Option V
  store key value im =
      let (bucket, old, more) = set_in types key value (bucket_of key im) in
      (record (put_bucket key bucket im) { len = im.len + more }, old)

  abbrev pub deleted : Instance T O → InstanceMap T O V → Option ℕ → InstanceMap T O V × Bool
  deleted key im none = (im, false)
  deleted key im (some i) =
      (record (put_bucket key (set (bucket_of key im) i none) im) { len = im.len - 1 }, true)

  unfoldable pub delete : Instance T O → InstanceMap T O V → InstanceMap T O V × Bool
  delete key im = deleted key im (find_in types key (bucket_of key im))
