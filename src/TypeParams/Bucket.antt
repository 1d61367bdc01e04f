-- ===== src/TypeParams/Bucket.antt =====
-- The laws of one bucket: what is found after a `Set` or a `Delete` in it.
use mathlib.Core.Option
use gopherjs.Base.{
  ℕ, suc, ◌+◌, true, false, Option, none, some, [], ◌∷◌, ◌≡◌, inl, inr, ◌⊎◌, Bool-cases, ℕ_eq,
  if◌then◌else◌, get_elem?, arith, refl, ap, ◌∙◌,
}
use gopherjs.TypeParams.Instance.{Types, Instance, args_match}
use gopherjs.TypeParams.Same.{args_match_sym, args_match_trans}
use gopherjs.TypeParams.InstanceMap.{
  MapEntry, MapBucket, Scan, replaced, missing, keep, find_in, value_in, scan,
}

module _ {T O V : Type 0} (types : Types T) where
  -- The value of the first entry that matches.
  unfoldable pub first_value : Instance T O → MapBucket T O V → Option V
  first_value key [] = none
  first_value key (none ∷ bucket) = first_value key bucket
  first_value key (some entry ∷ bucket) =
      if args_match types entry.key key then some entry.value else first_value key bucket

  value_in-suc :
      (c : Option (MapEntry T O V)) (bucket : MapBucket T O V) (o : Option ℕ)
      → value_in types (c ∷ bucket) (Option.map suc o) ≡ value_in types bucket o
  value_in-suc c bucket none = refl
  value_in-suc c bucket (some i) = refl

  pub value_in-find_in :
      (key : Instance T O) (bucket : MapBucket T O V)
      → value_in types bucket (find_in types key bucket) ≡ first_value key bucket
  unfolding find_in first_value
  value_in-find_in key [] = refl
  value_in-find_in key (none ∷ bucket) =
      value_in-suc none bucket (find_in types key bucket) ∙ value_in-find_in key bucket
  value_in-find_in key (some entry ∷ bucket) = elim (Bool-cases (args_match types entry.key key)) [
    | inl same ↦ rw same refl
    | inr differs ↦
        rw differs (
          value_in-suc (some entry) bucket (find_in types key bucket) ∙ value_in-find_in key bucket)
  ]

  pub first_value-same :
      (a b : Instance T O) (bucket : MapBucket T O V)
      → args_match types a b ≡ true
      → first_value a bucket ≡ first_value b bucket
  unfolding first_value
  first_value-same a b [] h = refl
  first_value-same a b (none ∷ bucket) h = first_value-same a b bucket h
  first_value-same a b (some entry ∷ bucket) h = ground (
    arith,
    args_match_trans types entry.key a b,
    args_match_trans types entry.key b a,
    args_match_sym types a b,
    first_value-same a b bucket,
  )

  -- the entries of a bucket
  abbrev pub live : MapBucket T O V → ℕ
  live [] = 0
  live (none ∷ bucket) = live bucket
  live (some entry ∷ bucket) = suc (live bucket)

  -- No two entries of a bucket match.
  abbrev pub IsUnique : MapBucket T O V → Type 0
  IsUnique [] = Unit
  IsUnique (none ∷ bucket) = IsUnique bucket
  IsUnique (some entry ∷ bucket) = (first_value entry.key bucket ≡ none) × IsUnique bucket

  -- After a `Set` of `key` to `value`, which found `old`, the bucket `after` stands for `before`.
  abbrev pub IsAfterSet : Instance T O → V → MapBucket T O V → MapBucket T O V → Type 0
  IsAfterSet key value before after =
      (j : Instance T O)
      → first_value j after ≡ (if args_match types key j then some value else first_value j before)

  abbrev pub IsHole : ℕ → Option ℕ → MapBucket T O V → Option ℕ → Type 0
  IsHole i hole bucket h =
      (h ≡ hole) ⊎ ((n : ℕ) × (h ≡ some (i + n)) × (get_elem? bucket n ≡ some none))

  abbrev pub IsScan : Instance T O → V → ℕ → Option ℕ → MapBucket T O V → Scan T O V → Type 0
  IsScan key value i hole bucket (replaced bucket' old) =
      (first_value key bucket ≡ some old)
      × IsAfterSet key value bucket bucket'
      × (live bucket' ≡ live bucket)
  IsScan key value i hole bucket (missing h) =
      (first_value key bucket ≡ none) × IsHole i hole bucket h

  IsHole-none :
      (i : ℕ) (hole : Option ℕ) (bucket : MapBucket T O V) (h : Option ℕ)
      → IsHole (suc i) (some i) bucket h
      → IsHole i hole (none ∷ bucket) h
  IsHole-none i hole bucket h (inl here) = inr (0, here ∙ ap some (omega arith), refl)
  IsHole-none i hole bucket h (inr (n, eq, at)) = inr (suc n, eq ∙ ap some (omega arith), at)

  IsHole-some :
      (i : ℕ) (hole : Option ℕ) (c : MapEntry T O V) (bucket : MapBucket T O V) (h : Option ℕ)
      → IsHole (suc i) hole bucket h
      → IsHole i hole (some c ∷ bucket) h
  IsHole-some i hole c bucket h (inl here) = inl here
  IsHole-some i hole c bucket h (inr (n, eq, at)) = inr (suc n, eq ∙ ap some (omega arith), at)

  keep-none :
      (key : Instance T O) (value : V) (i : ℕ) (hole : Option ℕ) (bucket : MapBucket T O V)
      (s : Scan T O V)
      → IsScan key value (suc i) (some i) bucket s
      → IsScan key value i hole (none ∷ bucket) (keep none s)
  unfolding first_value
  keep-none key value i hole bucket (replaced b old) h = h
  keep-none key value i hole bucket (missing m) (absent, at) =
      (absent, IsHole-none i hole bucket m at)

  keep-some :
      (key : Instance T O) (value : V) (i : ℕ) (hole : Option ℕ) (c : MapEntry T O V)
      (bucket : MapBucket T O V) (s : Scan T O V)
      → args_match types c.key key ≡ false
      → IsScan key value (suc i) hole bucket s
      → IsScan key value i hole (some c ∷ bucket) (keep (some c) s)
  unfolding first_value
  keep-some key value i hole c bucket (replaced b old) differs (found, is_set, size) = (
    rw differs found,
    λ j. ground (arith, is_set j, args_match_trans types c.key j key, args_match_sym types key j),
    rw size refl,
  )
  keep-some key value i hole c bucket (missing m) differs (absent, at) =
      (rw differs absent, IsHole-some i hole c bucket m at)

  pub scan-IsScan :
      (key : Instance T O) (value : V) (i : ℕ) (hole : Option ℕ) (bucket : MapBucket T O V)
      → IsScan key value i hole bucket (scan types key value i hole bucket)
  unfolding first_value scan
  scan-IsScan key value i hole [] = (refl, inl refl)
  scan-IsScan key value i hole (none ∷ bucket) =
      keep-none key value i hole bucket (scan types key value (suc i) (some i) bucket)
        (scan-IsScan key value (suc i) (some i) bucket)
  scan-IsScan key value i hole (some c ∷ bucket) = elim (Bool-cases (args_match types c.key key)) [
    | inl same ↦ rw same (
      rw same refl,
      λ j. ground (
        arith,
        args_match_trans types c.key key j,
        args_match_trans types key c.key j,
        args_match_sym types c.key key,
      ),
      refl,
    )
    | inr differs ↦ rw differs (
        keep-some key value i hole c bucket (scan types key value (suc i) hole bucket) differs
          (scan-IsScan key value (suc i) hole bucket))
  ]
