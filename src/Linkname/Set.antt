-- ===== src/Linkname/Set.antt =====
-- compiler/linkname/linkname.go: GoLinknameSet. A nil map and an empty one are the empty list.
use gopherjs.Base.{Bool, true, false, Option, none, some, List, [], ◌∷◌, ◌++◌}
use gopherjs.Base.Assoc.{Assoc, lookup, put}
use gopherjs.Linkname.Directive.{Name, Name_eq, GoLinkname}

pub record GoLinknameSet : Type 0 where
  pub by_implementation : Assoc Name (List GoLinkname)
  pub by_reference : Assoc Name GoLinkname

-- the error of `Add`: the reference and its two implementations
pub record Conflict : Type 0 where
  pub reference : Name
  pub previous : Name
  pub implementation : Name

abbrev pub no_links : GoLinknameSet
no_links = record { by_implementation = []; by_reference = [] }

abbrev pub links_to : Name → GoLinknameSet → List GoLinkname
links_to n set = elim (lookup n set.by_implementation) [ none ↦ [] | some links ↦ links ]

-- gls.byImplementation[e.Implementation] = append(gls.byImplementation[e.Implementation], e)
unfoldable pub append_link : GoLinkname → GoLinknameSet → GoLinknameSet
append_link e set = record set {
  by_implementation =
      put e.implementation (links_to e.implementation set ++ e ∷ []) set.by_implementation;
}

unfoldable pub set_reference : GoLinkname → GoLinknameSet → GoLinknameSet
set_reference e set = record set { by_reference = put e.reference e set.by_reference }

-- `Add`: the set that it leaves behind, and the conflict that it returns
unfoldable pub add : List GoLinkname → GoLinknameSet → GoLinknameSet × Option Conflict
add [] set = (set, none)
add (e ∷ entries) set =
    let rest = add entries (set_reference e (append_link e set)) in
    elim (lookup e.reference set.by_reference) [
      | some prev ↦ (
        append_link e set,
        some (record {
          reference = e.reference;
          previous = prev.implementation;
          implementation = e.implementation;
        }),
      )
      | none ↦ rest
    ]

unfoldable pub is_implementation : GoLinknameSet → Name → Bool
is_implementation set sym = elim (lookup sym set.by_implementation) [ none ↦ false | some _ ↦ true ]

unfoldable pub find_implementation : GoLinknameSet → Name → Option Name
find_implementation set sym = elim (lookup sym set.by_reference) [
  | none ↦ none
  | some directive ↦ some directive.implementation
]
