-- ===== src/TypeParams/Apart.antt =====
-- The entries of a bucket stay apart under `Set`.
use gopherjs.Base.{
  ℕ, zero, suc, false, Option, none, some, [], ◌∷◌, ◌++◌, ◌≡◌, inl, inr, Bool-cases, set, get_elem?,
  arith, refl, ◌∙◌,
}
use gopherjs.TypeParams.Instance.{Types, Instance, args_match}
use gopherjs.TypeParams.Same.{args_match_sym}
use gopherjs.TypeParams.InstanceMap.{
  MapEntry, MapBucket, Scan, replaced, missing, keep, scan, scanned, set_in,
}
use gopherjs.TypeParams.Bucket.{first_value, IsUnique, IsScan, scan-IsScan}
use gopherjs.TypeParams.Placing.{append-IsAfterSet, hole-IsAfterSet, no_offset}

module _ {T O V : Type 0} (types : Types T) where
  append-IsUnique :
      (entry : MapEntry T O V) (bucket : MapBucket T O V)
      → first_value types entry.key bucket ≡ none
      → IsUnique types bucket
      → IsUnique types (bucket ++ some entry ∷ [])
  unfolding first_value
  append-IsUnique entry [] h unique = (refl, unique)
  append-IsUnique entry (none ∷ bucket) h unique = append-IsUnique entry bucket h unique
  append-IsUnique entry (some x ∷ bucket) h (alone, unique) =
      let absent : first_value types entry.key bucket ≡ none = ground arith in
      (
        append-IsAfterSet types entry bucket absent x.key
            ∙ ground (arith, args_match_sym types entry.key x.key),
        append-IsUnique entry bucket absent unique,
      )

  hole-IsUnique :
      (entry : MapEntry T O V) (bucket : MapBucket T O V) (n : ℕ)
      → first_value types entry.key bucket ≡ none
      → get_elem? bucket n ≡ some none
      → IsUnique types bucket
      → IsUnique types (set bucket n (some entry))
  unfolding first_value
  hole-IsUnique entry [] n h at unique = absurd (cc at)
  hole-IsUnique entry (none ∷ bucket) zero h at unique = (h, unique)
  hole-IsUnique entry (some x ∷ bucket) zero h at unique = absurd (cc at)
  hole-IsUnique entry (none ∷ bucket) (suc n) h at unique = hole-IsUnique entry bucket n h at unique
  hole-IsUnique entry (some x ∷ bucket) (suc n) h at (alone, unique) =
      let absent : first_value types entry.key bucket ≡ none = ground arith in
      (
        hole-IsAfterSet types entry bucket n absent at x.key
            ∙ ground (arith, args_match_sym types entry.key x.key),
        hole-IsUnique entry bucket n absent at unique,
      )

  abbrev IsApart : Scan T O V → Type 0
  IsApart (replaced bucket old) = IsUnique types bucket
  IsApart (missing hole) = Unit

  keep-none-IsApart : (s : Scan T O V) → IsApart s → IsApart (keep none s)
  keep-none-IsApart (replaced bucket old) h = h
  keep-none-IsApart (missing hole) h = h

  keep-some-IsApart :
      (key : Instance T O) (value : V) (i : ℕ) (hole : Option ℕ) (c : MapEntry T O V)
      (bucket : MapBucket T O V) (s : Scan T O V)
      → args_match types c.key key ≡ false
      → first_value types c.key bucket ≡ none
      → IsScan types key value i hole bucket s
      → IsApart s
      → IsApart (keep (some c) s)
  keep-some-IsApart key value i hole c bucket (missing h) differs alone law apart = tt
  keep-some-IsApart key value i hole c bucket (replaced b old) differs alone (found, is_set, size)
        apart =
      (is_set c.key ∙ ground (arith, args_match_sym types key c.key), apart)

  scan-IsApart :
      (key : Instance T O) (value : V) (i : ℕ) (hole : Option ℕ) (bucket : MapBucket T O V)
      → IsUnique types bucket
      → IsApart (scan types key value i hole bucket)
  unfolding scan
  scan-IsApart key value i hole [] unique = tt
  scan-IsApart key value i hole (none ∷ bucket) unique =
      keep-none-IsApart (scan types key value (suc i) (some i) bucket)
        (scan-IsApart key value (suc i) (some i) bucket unique)
  scan-IsApart key value i hole (some c ∷ bucket) (alone, unique) =
      elim (Bool-cases (args_match types c.key key)) [
        | inl here ↦ rw here (alone, unique)
        | inr differs ↦ rw differs (
            keep-some-IsApart key value (suc i) hole c bucket
              (scan types key value (suc i) hole bucket) differs alone
              (scan-IsScan types key value (suc i) hole bucket)
              (scan-IsApart key value (suc i) hole bucket unique))
      ]

  scanned-IsUnique :
      (key : Instance T O) (value : V) (bucket : MapBucket T O V) (s : Scan T O V)
      → IsScan types key value 0 none bucket s
      → IsApart s
      → IsUnique types bucket
      → IsUnique types (scanned types (record { key = key; value = value }) bucket s).0
  scanned-IsUnique key value bucket (replaced b old) law apart unique = apart
  scanned-IsUnique key value bucket (missing h) (absent, inl no_hole) apart unique =
      rw no_hole (append-IsUnique (record { key = key; value = value }) bucket absent unique)
  scanned-IsUnique key value bucket (missing h) (absent, inr (n, hole, at)) apart unique =
      rw (no_offset n hole)
        (hole-IsUnique (record { key = key; value = value }) bucket n absent at unique)

  pub set_in-IsUnique :
      (key : Instance T O) (value : V) (bucket : MapBucket T O V)
      → IsUnique types bucket
      → IsUnique types (set_in types key value bucket).0
  unfolding set_in
  set_in-IsUnique key value bucket unique =
      scanned-IsUnique key value bucket (scan types key value 0 none bucket)
        (scan-IsScan types key value 0 none bucket) (scan-IsApart key value 0 none bucket unique)
        unique
