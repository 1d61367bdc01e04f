-- ===== src/Dce/Info.antt =====
-- compiler/internal/dce/info.go: what dead-code elimination knows of one declaration.
-- `deps` is Go's `map[string]struct{}` as a list without repetition.
use gopherjs.Base.{
  String_eq, String, Bool, true, false, not, Option, none, some, List, [], ◌≡◌, ◌&&◌, ◌||◌, arith,
  ◌==◌, if◌then◌else◌, contains, insert, eq_iff, contains-insert, Sorter,
}

pub record Info : Type 0 where
  pub alive : Bool
  pub object_filter : String
  pub method_filter : String
  pub deps : List String

abbrev pub zero_info : Info
zero_info = record { alive = false; object_filter = ""; method_filter = ""; deps = [] }

unfoldable pub unnamed : Info → Bool
unnamed d = d.object_filter == "" && d.method_filter == ""

unfoldable pub is_alive : Info → Bool
unfolding unnamed
is_alive d = d.alive || unnamed d

unfoldable pub set_as_alive : Info → Info
set_as_alive d = record d { alive = true }

-- `filters` is what `getFilters` returns for the object. A second call panics, which is `none`.
unfoldable pub set_name : String × String → Info → Option Info
unfolding unnamed
set_name filters d =
    if not (unnamed d)
    then none
    else some (record d { object_filter = filters.0; method_filter = filters.1 })

unfoldable pub add_dep_name : String → Info → Info
add_dep_name dep_name d = if dep_name == "" then d else record d { deps = insert dep_name d.deps }

-- `filters` is what `getFilters` returns for the object.
unfoldable pub add_dep : String × String → Info → Info
unfolding add_dep_name
add_dep filters d = add_dep_name filters.1 (add_dep_name filters.0 d)

-- The dependencies in the order of `sort.Strings`.
unfoldable pub get_deps : Sorter → Info → List String
get_deps sorter d = sorter.sort d.deps

-- `add_dep` adds the names that are not empty, and no other.
pub contains-add_dep :
    (filters : String × String) (d : Info) (name : String)
    → contains (add_dep filters d).deps name
      ≡ (contains d.deps name || not (name == "") && (name == filters.0 || name == filters.1))
unfolding add_dep
contains-add_dep (object, method) d name = ground (
  arith,
  contains-insert method d.deps name,
  contains-insert object d.deps name,
  contains-insert method (insert object d.deps) name,
  eq_iff name object,
  eq_iff name method,
  eq_iff name "",
  eq_iff object "",
  eq_iff method "",
)
