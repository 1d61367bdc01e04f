-- ===== src/Dce/Collecting.antt =====
-- What a call of `CollectDCEDeps` does to the dependencies, and that it refuses to be nested.
use gopherjs.Base.{
  ◌∙◌, String, Bool, false, not, none, some, List, [], ◌∷◌, ◌≡◌, refl, ◌&&◌, ◌||◌, Comparable,
  String_eq, ◌==◌, contains, arith,
}
use gopherjs.Dce.Info.{contains-add_dep}
use gopherjs.Dce.Collector.{
  State, Outcome, returned, panicked, collect_dce_deps, declare_dce_dep, declare_all,
}

-- some object of the list has the filter `name`
abbrev pub names : List (String × String) → String → Bool
names [] name = false
names ((object, method) ∷ rest) name = (name == object || name == method) || names rest name

module _ {D : Type 0} ⦃e : Comparable D⦄ where
  declare_all-dce :
      (objects : List (String × String)) (s : State D) → (declare_all objects s).dce ≡ s.dce
  unfolding declare_all
  declare_all-dce [] s = refl
  declare_all-dce (o ∷ rest) s = declare_all-dce rest (declare_dce_dep o s) ∙ ground arith

  declare_all-deps :
      (objects : List (String × String)) (s : State D) (d x : D) (name : String)
      → s.dce ≡ some d
      → contains ((declare_all objects s).infos x).deps name
        ≡ (contains (s.infos x).deps name || x == d && (not (name == "") && names objects name))
  unfolding declare_all
  declare_all-deps [] s d x name h = ground arith
  declare_all-deps (o ∷ rest) s d x name h = ground (
    arith,
    declare_all-deps rest (declare_dce_dep o s) d x name,
    contains-add_dep o (s.infos d) name,
    e.equal_iff x d,
  )

-- When no collection is active, `CollectDCEDeps` around a translation that declares `objects` adds
-- exactly their non-empty filters to the dependencies of `decl`, adds none to any other
-- declaration, and leaves the collector ready for the next call.
pub collect-exact :
    {D : Type 0} ⦃e : Comparable D⦄ (decl : D) (objects : List (String × String)) (s : State D)
    → s.dce ≡ none
    → (t : State D) × (collect_dce_deps decl (λ u. returned (declare_all objects u)) s ≡ returned t)
      × (t.dce ≡ none)
      × ((x : D) (name : String)
          → contains (t.infos x).deps name ≡ (
              contains (s.infos x).deps name
              || x == decl && (not (name == "") && names objects name)))
unfolding collect_dce_deps
collect-exact decl objects s h = (
  record { dce = none; infos = (declare_all objects (record s { dce = some decl })).infos },
  ground arith,
  refl,
  λ x name. declare_all-deps objects (record s { dce = some decl }) decl x name refl,
)

-- A call of `CollectDCEDeps` from inside a translation panics whatever it was to collect, the
-- outer call passes the panic on, and the collector is ready again although the call panicked.
pub nested_collect_panics :
    {D : Type 0} ⦃e : Comparable D⦄ (outer inner : D) (f : State D → Outcome D)
    (objects : List (String × String)) (s : State D)
    → s.dce ≡ none
    → (t : State D) × (collect_dce_deps outer
          (λ u. collect_dce_deps inner f (declare_all objects u))
          s
        ≡ panicked t)
      × (t.dce ≡ none)
unfolding collect_dce_deps
nested_collect_panics outer inner f objects s h = (
  record { dce = none; infos = (declare_all objects (record s { dce = some outer })).infos },
  ground (arith, declare_all-dce objects (record s { dce = some outer })),
  refl,
)
