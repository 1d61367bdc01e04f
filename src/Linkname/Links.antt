-- ===== src/Linkname/Links.antt =====
-- What a set of links answers after `Add`.
use gopherjs.Base.{
  Bool, true, false, ◌||◌, ◌&&◌, Option, none, some, List, [], ◌∷◌, ◌++◌, ◌≡◌, ◌==◌, if◌then◌else◌,
  arith, refl,
}
use gopherjs.Base.Assoc.{lookup-put}
use gopherjs.Linkname.Directive.{Name, Name_eq, GoLinkname}
use gopherjs.Linkname.Set.{
  GoLinknameSet, append_link, set_reference, links_to, add, is_implementation, find_implementation,
}

abbrev pub or_else : {A : Type 0} → Option A → Option A → Option A
or_else (some a) b = some a
or_else none b = b

-- The implementation that the first entry for a reference names.
abbrev pub first_link : List GoLinkname → Name → Option Name
first_link [] n = none
first_link (e ∷ entries) n =
    if e.reference == n then some e.implementation else first_link entries n

abbrev pub any_implements : List GoLinkname → Name → Bool
any_implements [] n = false
any_implements (e ∷ entries) n = e.implementation == n || any_implements entries n

abbrev pub is_none : {A : Type 0} → Option A → Bool
is_none none = true
is_none (some a) = false

-- No entry links a name that the set links, or that another entry does.
abbrev pub distinct : List GoLinkname → GoLinknameSet → Bool
distinct [] set = true
distinct (e ∷ entries) set =
    is_none (find_implementation set e.reference)
    && is_none (first_link entries e.reference)
    && distinct entries set

abbrev pub added : GoLinkname → GoLinknameSet → GoLinknameSet
added e set = set_reference e (append_link e set)

pub find-added :
    (e : GoLinkname) (set : GoLinknameSet) (n : Name)
    → find_implementation (added e set) n
      ≡ (if e.reference == n then some e.implementation else find_implementation set n)
unfolding find_implementation append_link set_reference
find-added e set n = ground (arith, lookup-put e.reference n e set.by_reference)

pub find-append_link :
    (e : GoLinkname) (set : GoLinknameSet) (n : Name)
    → find_implementation (append_link e set) n ≡ find_implementation set n
unfolding find_implementation append_link
find-append_link e set n = refl

pub is_implementation-append_link :
    (e : GoLinkname) (set : GoLinknameSet) (n : Name)
    → is_implementation (append_link e set) n ≡ (e.implementation == n || is_implementation set n)
unfolding is_implementation append_link
is_implementation-append_link e set n = ground (
  arith,
  lookup-put e.implementation n (links_to e.implementation set ++ e ∷ []) set.by_implementation,
)

pub is_implementation-added :
    (e : GoLinkname) (set : GoLinknameSet) (n : Name)
    → is_implementation (added e set) n ≡ (e.implementation == n || is_implementation set n)
unfolding set_reference is_implementation
is_implementation-added e set n = is_implementation-append_link e set n

-- the two ways in which `add` goes on
pub add-fresh :
    (e : GoLinkname) (entries : List GoLinkname) (set : GoLinknameSet)
    → find_implementation set e.reference ≡ none
    → add (e ∷ entries) set ≡ add entries (added e set)
unfolding add find_implementation
add-fresh e entries set h = ground arith

pub add-taken :
    (e : GoLinkname) (entries : List GoLinkname) (set : GoLinknameSet) (n : Name)
    → find_implementation set e.reference ≡ some n
    → add (e ∷ entries) set ≡ (
      append_link e set,
      some (record { reference = e.reference; previous = n; implementation = e.implementation }),
    )
unfolding add find_implementation
add-taken e entries set n h = ground arith
