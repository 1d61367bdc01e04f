-- ===== src/Linkname/Examples.antt =====
-- Tests and concrete instances for linkname and symbol.
use gopherjs.Base.{◌||◌, true, false, none, some, [], ◌∷◌, ◌++◌, ◌≡◌, ◌↔◌, ok, contains, refl}
use gopherjs.Base.Bytes.{Bytes}
use gopherjs.Base.BytesEq.{bytes_equal}
use gopherjs.Base.Assoc.{lookup}
use gopherjs.Linkname.Directive.{
  Name, GoLinkname, symbol_string, marker, last_index_byte, read_linkname_from_comment, no_unsafe,
}
use gopherjs.Linkname.Reading.{read_linkname-directive}
use gopherjs.Linkname.Symbol.{Object, pointer, new, is_method, is_method-new}
use gopherjs.Linkname.Parse.{
  Comment, File, func_decl, gen_decl, value_spec, func_node, parse_go_linknames, imports_unsafe,
  lookup_top_node, unsafe_path,
}
use gopherjs.Linkname.Sound.{GoLinkname_eq, Comment_eq, all_comments}
use gopherjs.Linkname.Exact.{parse_go_linknames-exact}
use gopherjs.Linkname.Set.{GoLinknameSet, no_links, add, find_implementation, is_implementation}
use gopherjs.Linkname.Links.{or_else, first_link, any_implements, distinct}
use gopherjs.Linkname.Adding.{add-answers, add-distinct, IsConsistent, add-keeps_links}

abbrev p : Bytes
p = b'p' ∷ []

abbrev f : Bytes
f = b'f' ∷ []

abbrev g : Bytes
g = b'g' ∷ []

-- a/b
abbrev path : Bytes
path = b'a' ∷ b'/' ∷ b'b' ∷ []

abbrev target : Name
target = record { pkg_path = path; name = g }

abbrev local : Name
local = record { pkg_path = p; name = f }

abbrev link : GoLinkname
link = record { implementation = target; reference = local }

-- //go:linkname f a/b.g
abbrev directive : Bytes
directive = marker ++ f ++ b' ' ∷ symbol_string target

read_linkname-directive_example : read_linkname_from_comment p directive ≡ ok (some link)
unfolding symbol_string last_index_byte
read_linkname-directive_example =
    read_linkname-directive p f target (λ h. cc) (λ h. cc) refl refl refl refl

abbrev comment : Comment
comment = record { text = directive; at = 7 }

abbrev file : File
file = record {
  imports = unsafe_path ∷ [];
  decls = gen_decl (value_spec (g ∷ []) ∷ []) ∷ func_decl f false ∷ [];
  comments = (comment ∷ []) ∷ [];
}

abbrev no_import : File
no_import = record file { imports = [] }

-- The directive of a file that does not import "unsafe" is an error.
no_import-errs : (parse_go_linknames p no_import).errs ≡ (7, no_unsafe) ∷ []
unfolding parse_go_linknames symbol_string bytes_equal
no_import-errs = refl

parse_go_linknames-exact_example : (contains (parse_go_linknames p file).directives link ≡ true) ↔ (
    (c : Comment) × (contains (all_comments file.comments) c ≡ true)
    × (read_linkname_from_comment p c.text ≡ ok (some link))
    × (imports_unsafe file ≡ true)
    × (lookup_top_node file link.reference.name ≡ some (func_node link.reference.name false)))
parse_go_linknames-exact_example = parse_go_linknames-exact p file link

-- p.g is linked to p.f
abbrev second : GoLinkname
second = record { implementation = local; reference = record { pkg_path = p; name = g } }

abbrev clash : GoLinkname
clash = record { implementation = local; reference = local }

abbrev linked : GoLinknameSet
linked = record { by_implementation = (target, link ∷ []) ∷ []; by_reference = (local, link) ∷ [] }

add-answers_example :
    (find_implementation (add (second ∷ []) linked).0 second.reference
      ≡ or_else
          (find_implementation linked second.reference)
          (first_link (second ∷ []) second.reference))
    × (is_implementation (add (second ∷ []) linked).0 second.reference ≡ (
        is_implementation linked second.reference || any_implements (second ∷ []) second.reference))
unfolding add lookup bytes_equal
add-answers_example = add-answers (second ∷ []) linked second.reference refl

add-distinct_example :
    ((add (second ∷ clash ∷ []) linked).1 ≡ none) ↔ (distinct (second ∷ clash ∷ []) linked ≡ true)
add-distinct_example = add-distinct (second ∷ clash ∷ []) linked

no_links-IsConsistent : IsConsistent no_links
unfolding find_implementation lookup
no_links-IsConsistent n i found = cc

add-keeps_links_example :
    IsConsistent (add (link ∷ second ∷ clash ∷ []) no_links).0
    × ((n i : Name)
        → find_implementation no_links n ≡ some i
        → find_implementation (add (link ∷ second ∷ clash ∷ []) no_links).0 n ≡ some i)
add-keeps_links_example =
    add-keeps_links (link ∷ second ∷ clash ∷ []) no_links no_links-IsConsistent

-- method g of *f in package p
abbrev method : Object
method = record { pkg = some p; receiver = pointer f; name = g }

is_method-new_example : is_method (new method) ≡ some (b'*' ∷ f, g)
is_method-new_example = is_method-new method refl
