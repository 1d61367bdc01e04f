-- ===== src/TypeParams/Placing.antt =====
-- A bucket after `Set` has placed a new entry, and after `Delete`.
use gopherjs.Base.{
  ℕ, zero, suc, ◌+◌, Option, none, some, [], ◌∷◌, ◌++◌, ◌≡◌, inl, inr, set, get_elem?, arith, refl,
  ap, sym, ◌∙◌,
}
use gopherjs.TypeParams.Instance.{Types, Instance}
use gopherjs.TypeParams.Same.{args_match_sym, args_match_trans}
use gopherjs.TypeParams.InstanceMap.{
  MapEntry, MapBucket, Scan, replaced, missing, scan, scanned, set_in,
}
use gopherjs.TypeParams.Bucket.{first_value, live, IsAfterSet, IsScan, scan-IsScan}

pub no_offset : {h : Option ℕ} (n : ℕ) → h ≡ some (0 + n) → h ≡ some n
no_offset n hole = hole ∙ ap some (omega arith)

module _ {T O V : Type 0} (types : Types T) where
  pub append-IsAfterSet :
      (entry : MapEntry T O V) (bucket : MapBucket T O V)
      → first_value types entry.key bucket ≡ none
      → IsAfterSet types entry.key entry.value bucket (bucket ++ some entry ∷ [])
  unfolding first_value
  append-IsAfterSet entry [] h j = refl
  append-IsAfterSet entry (none ∷ bucket) h j = append-IsAfterSet entry bucket h j
  append-IsAfterSet entry (some x ∷ bucket) h j =
      let absent : first_value types entry.key bucket ≡ none = ground arith in
      let rest = append-IsAfterSet entry bucket absent j in
      ground
        (arith, rest, args_match_trans types x.key j entry.key, args_match_sym types entry.key j)

  pub hole-IsAfterSet :
      (entry : MapEntry T O V) (bucket : MapBucket T O V) (n : ℕ)
      → first_value types entry.key bucket ≡ none
      → get_elem? bucket n ≡ some none
      → IsAfterSet types entry.key entry.value bucket (set bucket n (some entry))
  unfolding first_value
  hole-IsAfterSet entry [] n h at j = absurd (cc at)
  hole-IsAfterSet entry (none ∷ bucket) zero h at j = refl
  hole-IsAfterSet entry (some x ∷ bucket) zero h at j = absurd (cc at)
  hole-IsAfterSet entry (none ∷ bucket) (suc n) h at j = hole-IsAfterSet entry bucket n h at j
  hole-IsAfterSet entry (some x ∷ bucket) (suc n) h at j =
      let absent : first_value types entry.key bucket ≡ none = ground arith in
      let rest = hole-IsAfterSet entry bucket n absent at j in
      ground
        (arith, rest, args_match_trans types x.key j entry.key, args_match_sym types entry.key j)

  append-live :
      (entry : MapEntry T O V) (bucket : MapBucket T O V)
      → live types (bucket ++ some entry ∷ []) ≡ suc (live types bucket)
  append-live entry [] = refl
  append-live entry (none ∷ bucket) = append-live entry bucket
  append-live entry (some x ∷ bucket) = ap suc (append-live entry bucket)

  hole-live :
      (entry : MapEntry T O V) (bucket : MapBucket T O V) (n : ℕ)
      → get_elem? bucket n ≡ some none
      → live types (set bucket n (some entry)) ≡ suc (live types bucket)
  hole-live entry [] n at = absurd (cc at)
  hole-live entry (none ∷ bucket) zero at = refl
  hole-live entry (some x ∷ bucket) zero at = absurd (cc at)
  hole-live entry (none ∷ bucket) (suc n) at = hole-live entry bucket n at
  hole-live entry (some x ∷ bucket) (suc n) at = ap suc (hole-live entry bucket n at)

  -- What `Set` does to a bucket, by how its loop ends.
  abbrev pub Outcome : Instance T O → V → MapBucket T O V → MapBucket T O V × Option V × ℕ → Type 0
  Outcome key value bucket (bucket', old, more) =
      IsAfterSet types key value bucket bucket'
      × (old ≡ first_value types key bucket)
      × (live types bucket' ≡ live types bucket + more)

  scanned-Outcome :
      (key : Instance T O) (value : V) (bucket : MapBucket T O V) (s : Scan T O V)
      → IsScan types key value 0 none bucket s
      → Outcome key value bucket (scanned types (record { key = key; value = value }) bucket s)
  scanned-Outcome key value bucket (replaced b old) (found, is_set, size) =
      (is_set, sym found, size ∙ omega arith)
  scanned-Outcome key value bucket (missing h) (absent, inl no_hole) = rw no_hole (
    append-IsAfterSet (record { key = key; value = value }) bucket absent,
    sym absent,
    append-live (record { key = key; value = value }) bucket ∙ omega arith,
  )
  scanned-Outcome key value bucket (missing h) (absent, inr (n, hole, at)) = rw (no_offset n hole) (
    hole-IsAfterSet (record { key = key; value = value }) bucket n absent at,
    sym absent,
    hole-live (record { key = key; value = value }) bucket n at ∙ omega arith,
  )

  pub set_in-Outcome :
      (key : Instance T O) (value : V) (bucket : MapBucket T O V)
      → Outcome key value bucket (set_in types key value bucket)
  unfolding set_in
  set_in-Outcome key value bucket =
      scanned-Outcome key value bucket (scan types key value 0 none bucket)
        (scan-IsScan types key value 0 none bucket)
