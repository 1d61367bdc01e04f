-- ===== src/Nosync/Keys.antt =====
-- A Go map whose keys are interfaces, as the GopherJS prelude keeps it: a key that cannot be hashed
-- panics before the map is looked at, and a key that is not equal to itself is never found.
use gopherjs.Base.{
  Bool, true, false, Option, none, some, List, [], ◌∷◌, ◌≡◌, if◌then◌else◌, refl, arith,
}

-- What Go says of the values of an interface type: which can be hashed, and `==` on those that can,
-- which is symmetric and transitive. A NaN is not equal to itself.
pub record Keys (K : Type 0) : Type 0 where
  pub hashable : K → Bool
  pub equal : K → K → Bool
  pub equal_sym : (j k : K) → equal j k ≡ true → equal k j ≡ true
  pub equal_trans : (i j k : K) → equal i j ≡ true → equal j k ≡ true → equal i k ≡ true

-- the entries of a map that has been made
abbrev pub Entries : Type 0 → Type 0 → Type 0
Entries K V = List (K × V)

module _ {K V : Type 0} ⦃keys : Keys K⦄ where
  -- m[key] with a key that can be hashed
  unfoldable pub find : K → Entries K V → Option V
  find key [] = none
  find key ((other, value) ∷ m) = if keys.equal other key then some value else find key m

  -- m[key] = value
  unfoldable pub insert : K → V → Entries K V → Entries K V
  insert key value [] = (key, value) ∷ []
  insert key value ((other, old) ∷ m) = elim (keys.equal other key) [
    | true ↦ (key, value) ∷ m
    | false ↦ (other, old) ∷ insert key value m
  ]

  -- delete(m, key)
  unfoldable pub discard : K → Entries K V → Entries K V
  discard key [] = []
  discard key ((other, old) ∷ m) = elim (keys.equal other key) [
    | true ↦ discard key m
    | false ↦ (other, old) ∷ discard key m
  ]

  pub find-insert :
      (k j : K) (v : V) (m : Entries K V)
      → find j (insert k v m) ≡ (if keys.equal k j then some v else find j m)
  unfolding find insert
  find-insert k j v [] = refl
  find-insert k j v ((i, w) ∷ m) = ground (
    arith,
    keys.equal_trans k i j,
    keys.equal_trans i k j,
    keys.equal_trans i j k,
    keys.equal_sym i k,
    keys.equal_sym k j,
    find-insert k j v m,
  )

  pub find-discard :
      (k j : K) (m : Entries K V)
      → find j (discard k m) ≡ (if keys.equal k j then none else find j m)
  unfolding find discard
  find-discard k j [] = ground arith
  find-discard k j ((i, w) ∷ m) = ground (
    arith,
    keys.equal_trans k i j,
    keys.equal_trans i k j,
    keys.equal_trans i j k,
    keys.equal_sym i k,
    keys.equal_sym k j,
    find-discard k j m,
  )
