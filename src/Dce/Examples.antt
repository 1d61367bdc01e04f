-- ===== src/Dce/Examples.antt =====
-- Tests and instances of the theorems on dead-code elimination.
use gopherjs.Base.{
  ℕ, zero, suc, String, Bool, true, false, some, none, List, [], ◌∷◌, ◌≡◌, refl, ◌↔◌, arith,
  contains, ℕ_eq, String_eq, not, ◌==◌, ◌&&◌, ◌||◌,
}
use gopherjs.Base.Sorting.{sorter}
use gopherjs.Dce.Info.{Info}
use gopherjs.Dce.Selector.{run}
use gopherjs.Dce.Live.{Live, included, linked}
use gopherjs.Dce.Correct.{alive_decls_exact}
use gopherjs.Dce.Order.{run_mono}
use gopherjs.Dce.Collector.{State, returned, panicked, collect_dce_deps, declare_all}
use gopherjs.Dce.Collecting.{names, collect-exact, nested_collect_panics}

-- 0 is main, 1 the type that main uses, 2 its unexported method and 3 a function that nothing calls
abbrev program : ℕ → Info
program zero = record {
  alive = true;
  object_filter = "main";
  method_filter = "";
  deps = "T" ∷ "T.m()" ∷ [];
}
program (suc zero) = record { alive = false; object_filter = "T"; method_filter = ""; deps = [] }
program (suc (suc zero)) = record {
  alive = false;
  object_filter = "T";
  method_filter = "T.m()";
  deps = [];
}
program _ = record { alive = false; object_filter = "f"; method_filter = ""; deps = "T" ∷ [] }

abbrev decls : List (ℕ × Bool)
decls = (0, false) ∷ (3, false) ∷ (1, false) ∷ (2, false) ∷ []

abbrev more_decls : List (ℕ × Bool)
more_decls = (2, false) ∷ (1, false) ∷ (3, true) ∷ (0, false) ∷ []

run-decls : run sorter program decls ≡ some (1 ∷ 2 ∷ 0 ∷ [])
unfolding run sorter
run-decls = refl

run-more_decls : run sorter program more_decls ≡ some (3 ∷ 1 ∷ 2 ∷ 0 ∷ [])
unfolding run sorter
run-more_decls = refl

alive_decls_exact_example :
    (t : List ℕ) × (run sorter program decls ≡ some t)
    × ((d : ℕ) → (contains t d ≡ true) ↔ Live program decls d)
alive_decls_exact_example = alive_decls_exact sorter program decls

all_included : (d : ℕ) → included decls d ≡ true → included more_decls d ≡ true
all_included d h = ground arith

no_links : (d : ℕ) → linked decls d ≡ true → linked more_decls d ≡ true
no_links d h = ground arith

run_mono_example : contains {A = ℕ} (3 ∷ 1 ∷ 2 ∷ 0 ∷ []) 2 ≡ true
run_mono_example =
    run_mono sorter program decls more_decls (1 ∷ 2 ∷ 0 ∷ []) (3 ∷ 1 ∷ 2 ∷ 0 ∷ []) all_included
      no_links run-decls run-more_decls 2 refl

abbrev idle : State ℕ
idle = record { dce = none; infos = program }

abbrev objects : List (String × String)
objects = ("pkg.T", "pkg.T.m()") ∷ ("", "I.n()") ∷ []

collect-exact_example :
    (t : State ℕ) × (collect_dce_deps 3 (λ u. returned (declare_all objects u)) idle ≡ returned t)
    × (t.dce ≡ none)
    × ((x : ℕ) (name : String)
        → contains (t.infos x).deps name
          ≡ (contains (program x).deps name || x == 3 && (not (name == "") && names objects name)))
collect-exact_example = collect-exact 3 objects idle refl

nested_collect_panics_example :
    (t : State ℕ) × (collect_dce_deps 1
        (λ u. collect_dce_deps 2 returned (declare_all objects u))
        idle
      ≡ panicked t)
    × (t.dce ≡ none)
nested_collect_panics_example = nested_collect_panics 1 2 returned objects idle refl
