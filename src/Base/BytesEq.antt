-- ===== src/Base/BytesEq.antt =====
-- Byte texts are comparable.
use mathlib.Core.Path.{◌≡◌, refl}
use mathlib.Core.Logic.{◌↔◌}
use mathlib.Core.Bool.{Bool, true, false, ◌&&◌}
use mathlib.Core.List.{[], ◌∷◌}
use native.Mathlib.Omega.{arith}
use gopherjs.Base.Tests.{Comparable, nat_eq, nat_eq_iff}
use gopherjs.Base.Bytes.{Bytes}

unfoldable pub bytes_equal : Bytes → Bytes → Bool
bytes_equal [] [] = true
bytes_equal (x ∷ xs) (y ∷ ys) = nat_eq x y && bytes_equal xs ys
bytes_equal _ _ = false

pub bytes_equal_iff : (xs ys : Bytes) → (bytes_equal xs ys ≡ true) ↔ (xs ≡ ys)
unfolding bytes_equal
bytes_equal_iff [] [] = (λ _. refl, λ _. refl)
bytes_equal_iff [] (y ∷ ys) = (λ h. cc, λ h. cc)
bytes_equal_iff (x ∷ xs) [] = (λ h. cc, λ h. cc)
bytes_equal_iff (x ∷ xs) (y ∷ ys) = ground (arith, nat_eq_iff x y, bytes_equal_iff xs ys)

instance abbrev pub Bytes_eq : Comparable Bytes
Bytes_eq = record { equal = bytes_equal; equal_iff = bytes_equal_iff }
