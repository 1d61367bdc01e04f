-- ===== src/TypeParams/Deleting.antt =====
-- A bucket after `Delete`, and that its entries stay apart.
use mathlib.Core.Option
use gopherjs.Base.{
  ℕ, suc, true, Option, none, some, [], ◌∷◌, ◌≡◌, inl, inr, Bool-cases, if◌then◌else◌, set, arith,
  refl, ap, sym, ◌∙◌, some_inj,
}
use gopherjs.TypeParams.Instance.{Types, Instance, args_match}
use gopherjs.TypeParams.Same.{args_match_sym, args_match_trans}
use gopherjs.TypeParams.InstanceMap.{MapEntry, MapBucket, find_in}
use gopherjs.TypeParams.Bucket.{first_value, first_value-same, live, IsUnique}

map-suc : {i : ℕ} (o : Option ℕ) → Option.map suc o ≡ some i → (n : ℕ) × (o ≡ some n) × (i ≡ suc n)
map-suc none h = absurd (cc h)
map-suc (some n) h = (n, refl, sym (some_inj h))

module _ {T O V : Type 0} (types : Types T) where
  pub find_in-none :
      (key : Instance T O) (bucket : MapBucket T O V)
      → find_in types key bucket ≡ none
      → first_value types key bucket ≡ none
  unfolding find_in first_value
  find_in-none key [] h = refl
  find_in-none key (none ∷ bucket) h = ground (arith, find_in-none key bucket)
  find_in-none key (some x ∷ bucket) h = ground (arith, find_in-none key bucket)

  -- The bucket in which the cell that `findIndex` found has been cleared.
  abbrev pub IsDeleted : Instance T O → MapBucket T O V → MapBucket T O V → Type 0
  IsDeleted key before after =
      (j : Instance T O)
      → first_value types j after
        ≡ (if args_match types key j then none else first_value types j before)

  head-IsDeleted :
      (key : Instance T O) (x : MapEntry T O V) (bucket : MapBucket T O V)
      → args_match types x.key key ≡ true
      → first_value types x.key bucket ≡ none
      → IsDeleted key (some x ∷ bucket) (none ∷ bucket)
  unfolding first_value
  head-IsDeleted key x bucket same alone j = elim (Bool-cases (args_match types x.key j)) [
    | inl x_j ↦
        let none_left = sym (first_value-same types x.key j bucket x_j) ∙ alone in
        ground
          (arith, none_left, args_match_trans types key x.key j, args_match_sym types x.key key)
    | inr x_not ↦ ground (arith, args_match_trans types x.key key j)
  ]

  pub set-IsDeleted :
      (key : Instance T O) (bucket : MapBucket T O V) (i : ℕ)
      → find_in types key bucket ≡ some i
      → IsUnique types bucket
      → IsDeleted key bucket (set bucket i none)
        × (suc (live types (set bucket i none)) ≡ live types bucket)
  unfolding find_in first_value
  set-IsDeleted key [] i h unique = absurd (cc h)
  set-IsDeleted key (none ∷ bucket) i h unique =
      let (n, at, eq) = map-suc (find_in types key bucket) h in
      rw eq (set-IsDeleted key bucket n at unique)
  set-IsDeleted key (some x ∷ bucket) i h (alone, unique) =
      elim (Bool-cases (args_match types x.key key)) [
        | inl same ↦ rw (← some_inj (rw same at h)) (head-IsDeleted key x bucket same alone, refl)
        | inr differs ↦
            let (n, at, eq) = map-suc (find_in types key bucket) (rw differs at h) in
            let (is_deleted, size) = set-IsDeleted key bucket n at unique in
            rw eq (
              λ j. ground (
                arith,
                is_deleted j,
                args_match_trans types x.key j key,
                args_match_sym types key j,
              ),
              ap suc size,
            )
      ]

  pub set-IsUnique :
      (key : Instance T O) (bucket : MapBucket T O V) (i : ℕ)
      → find_in types key bucket ≡ some i
      → IsUnique types bucket
      → IsUnique types (set bucket i none)
  unfolding find_in
  set-IsUnique key [] i h unique = absurd (cc h)
  set-IsUnique key (none ∷ bucket) i h unique =
      let (n, at, eq) = map-suc (find_in types key bucket) h in
      rw eq (set-IsUnique key bucket n at unique)
  set-IsUnique key (some x ∷ bucket) i h (alone, unique) =
      elim (Bool-cases (args_match types x.key key)) [
        | inl same ↦ rw (← some_inj (rw same at h)) unique
        | inr differs ↦
            let (n, at, eq) = map-suc (find_in types key bucket) (rw differs at h) in
            let (is_deleted, size) = set-IsDeleted key bucket n at unique in
            rw eq (is_deleted x.key ∙ ground (arith, alone), set-IsUnique key bucket n at unique)
      ]
