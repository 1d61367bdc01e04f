-- ===== src/Base/Assoc.antt =====
-- Go's `map[K]V` as an association list with one entry a key. A read of a missing key returns
-- `none`, which stands for the `ok == false` of `v, ok := m[k]`.
use Prim.Native.Nat.{ℕ, ◌+◌, ◌≤◌}
use mathlib.Core.Path.{◌≡◌, refl}
use mathlib.Core.Bool.{true, false}
use mathlib.Core.Option.{Option, none, some}
use mathlib.Core.List.{List, [], ◌∷◌}
use native.Mathlib.Omega.{arith}
use gopherjs.Base.Tests.{Comparable, ◌==◌, if◌then◌else◌}

abbrev pub Assoc {ℓ κ} : Type ℓ → Type κ → Type (ℓ ⊔ κ)
Assoc K V = List (K × V)

module _ {ℓ κ} {K : Type ℓ} {V : Type κ} ⦃e : Comparable K⦄ where
  -- m[k]
  unfoldable pub lookup : K → Assoc K V → Option V
  lookup key [] = none
  lookup key ((other, value) ∷ m) = if other == key then some value else lookup key m

  -- m[k] = v
  unfoldable pub put : K → V → Assoc K V → Assoc K V
  put key value [] = (key, value) ∷ []
  put key value ((other, old) ∷ m) = elim (other == key) [
    | true ↦ (key, value) ∷ m
    | false ↦ (other, old) ∷ put key value m
  ]

  -- delete(m, k)
  unfoldable pub remove : K → Assoc K V → Assoc K V
  remove key [] = []
  remove key ((other, old) ∷ m) = elim (other == key) [
    | true ↦ remove key m
    | false ↦ (other, old) ∷ remove key m
  ]

  pub lookup-put :
      (k j : K) (v : V) (m : Assoc K V)
      → lookup j (put k v m) ≡ (if k == j then some v else lookup j m)
  unfolding lookup put
  lookup-put k j v [] = refl
  lookup-put k j v ((i, w) ∷ m) =
      ground (arith, e.equal_iff k j, e.equal_iff i k, e.equal_iff i j, lookup-put k j v m)

  pub lookup-remove :
      (k j : K) (m : Assoc K V) → lookup j (remove k m) ≡ (if k == j then none else lookup j m)
  unfolding lookup remove
  lookup-remove k j [] = ground arith
  lookup-remove k j ((i, w) ∷ m) =
      ground (arith, e.equal_iff k j, e.equal_iff i k, e.equal_iff i j, lookup-remove k j m)

  pub lookup-put_self : (k : K) (v : V) (m : Assoc K V) → lookup k (put k v m) ≡ some v
  lookup-put_self k v m = ground (arith, lookup-put k k v m, e.equal_iff k k)

  -- The sum of a measure over the values, which a deletion makes smaller.
  abbrev pub total : (V → ℕ) → Assoc K V → ℕ
  total size [] = 0
  total size ((j, v) ∷ m) = size v + total size m

  pub total-remove-le :
      (size : V → ℕ) (k : K) (m : Assoc K V) → total size (remove k m) ≤ total size m
  unfolding remove
  total-remove-le size k [] = omega arith
  total-remove-le size k ((j, v) ∷ m) = ground (arith, total-remove-le size k m)

  pub total-remove :
      (size : V → ℕ) (k : K) (v : V) (m : Assoc K V)
      → lookup k m ≡ some v
      → total size (remove k m) + size v ≤ total size m
  unfolding lookup remove
  total-remove size k v [] h = cc
  total-remove size k v ((j, w) ∷ m) h =
      ground (arith, total-remove size k v m, total-remove-le size k m)

pub ruleset assoc_laws = (lookup-put, lookup-remove)
