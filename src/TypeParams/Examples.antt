-- ===== src/TypeParams/Examples.antt =====
-- Tests and concrete instances: types are numbers that all have the same hash, objects are numbers.
use gopherjs.Base.{true, ℕ, none, some, List, [], ◌∷◌, ◌≡◌, ℕ_eq, nat_eq, length, arith, refl}
use gopherjs.TypeParams.Instance.{Types, Instance}
use gopherjs.TypeParams.InstanceMap.{InstanceMap, get}
use gopherjs.TypeParams.Promised.{Call, set_call, delete_call, new_map, run, promised, get-run_new}
use gopherjs.TypeParams.InstanceSet.{InstanceSet, next, empty, add, id}
use gopherjs.TypeParams.Draining.{take_next, take_next-drop}
use gopherjs.TypeParams.Numbering.{position}
use gopherjs.TypeParams.Ids.{firsts, id-add}

equal_refl : (t : ℕ) → nat_eq t t ≡ true
equal_refl t = ground arith

equal_sym : (s t : ℕ) → nat_eq s t ≡ true → nat_eq t s ≡ true
equal_sym s t h = ground arith

equal_trans : (r s t : ℕ) → nat_eq r s ≡ true → nat_eq s t ≡ true → nat_eq r t ≡ true
equal_trans r s t h k = ground arith

abbrev numbers : Types ℕ
numbers = record {
  identical = nat_eq;
  hash = λ t. 7;
  identical_refl = equal_refl;
  identical_sym = equal_sym;
  identical_trans = equal_trans;
  hash-identical = λ s t h. refl;
}

abbrev first : Instance ℕ ℕ
first = record { object = 1; t_args = 3 ∷ []; t_nest = [] }

abbrev second : Instance ℕ ℕ
second = record { object = 1; t_args = 4 ∷ []; t_nest = [] }

abbrev third : Instance ℕ ℕ
third = record { object = 1; t_args = 5 ∷ []; t_nest = 3 ∷ [] }

abbrev start : InstanceMap ℕ ℕ ℕ
start = new_map

-- A deleted entry leaves a hole that the next one fills, in the same bucket.
abbrev calls : List (Call ℕ ℕ ℕ)
calls = set_call first 10 ∷ set_call second 20 ∷ delete_call first ∷ set_call third 30 ∷ []

get-run_new_example :
    get numbers second (run numbers calls new_map) ≡ promised numbers calls (λ k. none) second
get-run_new_example = get-run_new numbers calls second

abbrev added : List (Instance ℕ ℕ)
added = first ∷ second ∷ first ∷ third ∷ []

id-add_example :
    ((add numbers added empty).values ≡ firsts numbers [] added)
    × (id numbers (add numbers added empty) third
        ≡ position numbers (firsts numbers [] added) third)
    × ((add numbers added empty).seen.len ≡ length (firsts numbers [] added))
id-add_example = id-add numbers added third

abbrev half_done : InstanceSet ℕ ℕ
half_done = record { values = first ∷ second ∷ third ∷ []; unprocessed = 1; seen = new_map }

take_next-drop_example :
    (take_next 2 half_done ≡ some (second ∷ third ∷ [], record half_done { unprocessed = 3 }))
    × (next (record half_done { unprocessed = 3 })
        ≡ some (none, record half_done { unprocessed = 3 }))
take_next-drop_example = take_next-drop 2 half_done refl
