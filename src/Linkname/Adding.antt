-- ===== src/Linkname/Adding.antt =====
-- `Add` over all its entries.
use gopherjs.Base.{
  true, ◌||◌, ◌&&◌, none, some, List, [], ◌∷◌, ◌≡◌, ◌↔◌, inl, inr, arith, refl, ◌∙◌, Option-cases,
}
use gopherjs.Linkname.Directive.{Name, Name_eq, name_equal_iff, GoLinkname}
use gopherjs.Linkname.Set.{GoLinknameSet, add, is_implementation, find_implementation}
use gopherjs.Linkname.Links.{
  or_else, is_none, first_link, any_implements, distinct, added, find-added, find-append_link,
  is_implementation-append_link, is_implementation-added, add-fresh, add-taken,
}

add-nil : (set : GoLinknameSet) → add [] set ≡ (set, none)
unfolding add
add-nil set = refl

-- A name that the set links stays linked to the same implementation, also when `Add` stops at a
-- conflict.
find-add :
    (entries : List GoLinkname) (set : GoLinknameSet) (n i : Name)
    → find_implementation set n ≡ some i
    → find_implementation (add entries set).0 n ≡ some i
find-add [] set n i h = rw (add-nil set) h
find-add (e ∷ entries) set n i h = elim (Option-cases (find_implementation set e.reference)) [
  | inl fresh ↦ rw (add-fresh e entries set fresh) (
      find-add entries (added e set) n i
        (find-added e set n ∙ ground (arith, name_equal_iff e.reference n)))
  | inr (prev, taken) ↦ rw (add-taken e entries set prev taken) (find-append_link e set n ∙ h)
]

-- When `Add` returns no error, a name is linked to what it was linked to before, or else to the
-- implementation of the first entry for it; and the implementations are those of before and those
-- of the entries.
pub add-answers :
    (entries : List GoLinkname) (set : GoLinknameSet) (n : Name)
    → (add entries set).1 ≡ none
    → (find_implementation (add entries set).0 n
        ≡ or_else (find_implementation set n) (first_link entries n))
      × (is_implementation (add entries set).0 n
          ≡ (is_implementation set n || any_implements entries n))
add-answers [] set n h = rw (add-nil set) (ground arith)
add-answers (e ∷ entries) set n h = elim (Option-cases (find_implementation set e.reference)) [
  | inl fresh ↦
      let next = add-fresh e entries set fresh in
      let (found, implements) = add-answers entries (added e set) n (rw next at h) in
      rw next (
        found ∙ ground (arith, find-added e set n, name_equal_iff e.reference n),
        implements ∙ ground (arith, is_implementation-added e set n),
      )
  | inr (prev, taken) ↦ absurd (cc (rw (add-taken e entries set prev taken) at h))
]

distinct-added_rest :
    (e : GoLinkname) (entries : List GoLinkname) (set : GoLinknameSet)
    → distinct entries (added e set)
      ≡ (is_none (first_link entries e.reference) && distinct entries set)
distinct-added_rest e [] set = refl
distinct-added_rest e (x ∷ entries) set = ground (
  arith,
  find-added e set x.reference,
  name_equal_iff e.reference x.reference,
  name_equal_iff x.reference e.reference,
  distinct-added_rest e entries set,
)

distinct-added :
    (e : GoLinkname) (entries : List GoLinkname) (set : GoLinknameSet)
    → find_implementation set e.reference ≡ none
    → distinct (e ∷ entries) set ≡ distinct entries (added e set)
distinct-added e entries set fresh = ground (arith, distinct-added_rest e entries set)

-- `Add` returns no error exactly when no entry links a name that the set or another entry links.
pub add-distinct :
    (entries : List GoLinkname) (set : GoLinknameSet)
    → ((add entries set).1 ≡ none) ↔ (distinct entries set ≡ true)
add-distinct [] set = rw (add-nil set) (ground arith)
add-distinct (e ∷ entries) set = elim (Option-cases (find_implementation set e.reference)) [
  | inl fresh ↦
      rw (add-fresh e entries set fresh)
        (rw (distinct-added e entries set fresh) (add-distinct entries (added e set)))
  | inr (prev, taken) ↦ rw (add-taken e entries set prev taken) (rw taken (ground arith))
]

-- What a set finds is among its implementations.
abbrev pub IsConsistent : GoLinknameSet → Type 0
IsConsistent set =
    (n i : Name) → find_implementation set n ≡ some i → is_implementation set i ≡ true

-- `Add` keeps a set consistent, also when it stops at a conflict.
add-IsConsistent :
    (entries : List GoLinkname) (set : GoLinknameSet)
    → IsConsistent set
    → IsConsistent (add entries set).0
add-IsConsistent [] set h = rw (add-nil set) h
add-IsConsistent (e ∷ entries) set h = elim (Option-cases (find_implementation set e.reference)) [
  | inl fresh ↦ rw (add-fresh e entries set fresh) (
      add-IsConsistent entries (added e set) (λ n i found.
        is_implementation-added e set i
        ∙ ground (arith, find-added e set n, name_equal_iff e.implementation i, h n i)))
  | inr (prev, taken) ↦ rw (add-taken e entries set prev taken) (λ n i found.
      is_implementation-append_link e set i ∙ ground (arith, h n i, find-append_link e set n))
]

-- What a set finds is among its implementations, and `Add` keeps it so; a name that the set links
-- stays linked to the same implementation. Both hold also when `Add` stops at a conflict.
pub add-keeps_links :
    (entries : List GoLinkname) (set : GoLinknameSet)
    → IsConsistent set
    → IsConsistent (add entries set).0
      × ((n i : Name)
          → find_implementation set n ≡ some i
          → find_implementation (add entries set).0 n ≡ some i)
add-keeps_links entries set ok = (add-IsConsistent entries set ok, find-add entries set)
