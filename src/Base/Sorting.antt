-- ===== src/Base/Sorting.antt =====
-- A concrete sort of texts, for the witnesses: insertion by the native comparison.
use Prim.Native.Nat.{Ordering}
use Prim.Native.String.{String, compare}
use mathlib.Core.Path.{◌≡◌, refl, ◌∙◌}
use mathlib.Core.Bool.{◌||◌}
use mathlib.Core.List.{List, [], ◌∷◌}
use native.Mathlib.Omega.{arith}
use gopherjs.Base.Tests.{String_eq, ◌==◌}
use gopherjs.Base.Lists.{contains, Sorter}

unfoldable pub insert_sorted : String → List String → List String
insert_sorted a [] = a ∷ []
insert_sorted a (x ∷ xs) =
    let rest = insert_sorted a xs in elim (compare a x) [ Ordering.gt ↦ x ∷ rest | _ ↦ a ∷ x ∷ xs ]

contains-insert_sorted :
    (a : String) (xs : List String) (b : String)
    → contains (insert_sorted a xs) b ≡ (b == a || contains xs b)
unfolding insert_sorted
contains-insert_sorted a [] b = refl
contains-insert_sorted a (x ∷ xs) b = ground (arith, contains-insert_sorted a xs b)

unfoldable pub insertion_sort : List String → List String
unfolding insert_sorted
insertion_sort [] = []
insertion_sort (x ∷ xs) = insert_sorted x (insertion_sort xs)

pub contains-insertion_sort :
    (xs : List String) (b : String) → contains (insertion_sort xs) b ≡ contains xs b
unfolding insertion_sort
contains-insertion_sort [] b = refl
contains-insertion_sort (x ∷ xs) b =
    contains-insert_sorted x (insertion_sort xs) b ∙ ground (arith, contains-insertion_sort xs b)

unfoldable pub sorter : Sorter
unfolding insertion_sort
sorter = record { sort = insertion_sort; contains-sort = contains-insertion_sort }
