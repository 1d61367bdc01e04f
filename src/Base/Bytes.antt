-- ===== src/Base/Bytes.antt =====
-- Byte slices and texts as lists of numbers, with what the code uses of package bytes.
use Prim.Native.Char.{code}
use Prim.Native.Nat.{ℕ, zero, suc, ◌<◌}
use Prim.Native.String.{String}
use mathlib.Core.Path.{◌≡◌, refl}
use mathlib.Core.Bool.{false}
use mathlib.Core.Option
use mathlib.Core.Option.{Option, none, some}
use mathlib.Core.List.{List, [], ◌∷◌, ◌++◌}
use native.Mathlib.Omega.{arith}
use gopherjs.Base.Tests.{nat_eq, nat_eq_iff, if◌then◌else◌, ℕ_eq}
use gopherjs.Base.Lists.{length, take, drop, contains}

abbrev pub Bytes : Type 0
Bytes = List ℕ

-- The bytes of an ASCII text.
abbrev pub codes : String → Bytes
codes String.[] = []
codes (String.◌∷◌ c s) = code c ∷ codes s

-- bytes.IndexByte, with `none` for -1
unfoldable pub index_byte : Bytes → ℕ → Option ℕ
index_byte [] c = none
index_byte (x ∷ xs) c = if nat_eq x c then some 0 else Option.map suc (index_byte xs c)

pub index_byte-absent : (xs : Bytes) (c : ℕ) → contains xs c ≡ false → index_byte xs c ≡ none
unfolding index_byte
index_byte-absent [] c h = refl
index_byte-absent (x ∷ xs) c h =
    ground (arith, index_byte-absent xs c, nat_eq_iff x c, nat_eq_iff c x)

pub index_byte-first :
    (xs ys : Bytes) (c : ℕ) → contains xs c ≡ false → index_byte (xs ++ c ∷ ys) c ≡ some (length xs)
unfolding index_byte
index_byte-first [] ys c h = ground (arith, nat_eq_iff c c)
index_byte-first (x ∷ xs) ys c h =
    ground (arith, index_byte-first xs ys c, nat_eq_iff x c, nat_eq_iff c x)

-- A found index splits the slice at the first occurrence.
pub index_byte-splits :
    (xs : Bytes) (c i : ℕ)
    → index_byte xs c ≡ some i
    → (take i xs ++ c ∷ drop (suc i) xs ≡ xs) × (contains (take i xs) c ≡ false) × (i < length xs)
unfolding index_byte
index_byte-splits [] c i h = cc
index_byte-splits (x ∷ xs) c zero h = ground (arith, nat_eq_iff x c, index_byte-splits xs c zero)
index_byte-splits (x ∷ xs) c (suc i) h =
    ground (arith, nat_eq_iff x c, nat_eq_iff c x, index_byte-splits xs c i)
