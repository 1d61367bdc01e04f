-- ===== src/Dce/Collector.antt =====
-- compiler/internal/dce/collector.go: gathers the dependencies of the declaration that is being
-- compiled. The heap is a function from declarations to their `Info`; `dce` holds the declaration
-- whose `Info` the field `Collector.dce` points to.
use gopherjs.Base.{String, Option, none, some, List, [], ◌∷◌, Comparable, ◌==◌, if◌then◌else◌}
use gopherjs.Dce.Info.{Info, add_dep}

pub record State (D : Type 0) : Type 0 where
  pub dce : Option D
  pub infos : D → Info

-- A call returns, or panics in some state that the caller may recover in.
pub data Outcome (D : Type 0) : Type 0 where
  returned : State D → Outcome D
  panicked : State D → Outcome D

module _ {D : Type 0} ⦃e : Comparable D⦄ where
  abbrev pub update : (D → Info) → D → Info → D → Info
  update infos d info x = if x == d then info else infos x

  -- The deferred function, which runs after a panic of `f` too.
  abbrev release : Outcome D → Outcome D
  release (returned s) = returned (record s { dce = none })
  release (panicked s) = panicked (record s { dce = none })

  unfoldable pub collect_dce_deps : D → (State D → Outcome D) → State D → Outcome D
  collect_dce_deps decl f s = elim s.dce [
    | some active ↦ panicked s
    | none ↦ release (f (record s { dce = some decl }))
  ]

  -- `filters` is what `getFilters` returns for the object.
  unfoldable pub declare_dce_dep : String × String → State D → State D
  declare_dce_dep filters s = elim s.dce [
    | none ↦ s
    | some d ↦ record s { infos = update s.infos d (add_dep filters (s.infos d)) }
  ]

  -- A translation that declares the given objects, one after another.
  unfoldable pub declare_all : List (String × String) → State D → State D
  unfolding declare_dce_dep
  declare_all [] s = s
  declare_all (filters ∷ rest) s = declare_all rest (declare_dce_dep filters s)
