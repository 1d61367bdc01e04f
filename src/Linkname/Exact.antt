-- ===== src/Linkname/Exact.antt =====
-- A directive of a file is found exactly when the file may link and the function has no body.
use gopherjs.Base.{
  Bool, true, false, Option, none, some, List, [], ◌∷◌, ◌≡◌, ◌↔◌, contains, Result, ok, err, arith,
  refl, ap, sym, ◌∙◌, some_inj, ok_inj,
}
use gopherjs.Base.Bytes.{Bytes}
use gopherjs.Base.BytesEq.{Bytes_eq, bytes_equal_iff}
use gopherjs.Linkname.Directive.{LinkError, GoLinkname, read_linkname_from_comment}
use gopherjs.Linkname.Parse.{
  Node, Spec, func_node, spec_node, gen_decl, func_decl, bad_decl, Comment, File, Decl,
  parse_go_linknames, imports_unsafe, lookup_spec, lookup_decl, lookup_top_node, process_comment,
  process_link, processed,
}
use gopherjs.Linkname.Sound.{
  GoLinkname_eq, Comment_eq, all_comments, any_yields, any_yields-find, any_yields-contains,
  contains-parse_groups,
}

lookup_spec-func :
    (name n : Bytes) (body : Bool) (specs : List Spec)
    → lookup_spec name specs ≡ some (func_node n body)
    → n ≡ name
unfolding lookup_spec
lookup_spec-func name n body [] h = absurd (cc h)
lookup_spec-func name n body (s ∷ specs) h = ground (arith, lookup_spec-func name n body specs)

lookup_decl-func :
    (name n : Bytes) (body : Bool) (decls : List Decl)
    → lookup_decl name decls ≡ some (func_node n body)
    → n ≡ name
unfolding lookup_decl
lookup_decl-func name n body [] h = absurd (cc h)
lookup_decl-func name n body (gen_decl specs ∷ decls) h =
    ground (arith, lookup_spec-func name n body specs, lookup_decl-func name n body decls)
lookup_decl-func name n body (func_decl m b ∷ decls) h =
    ground (arith, bytes_equal_iff m name, lookup_decl-func name n body decls)
lookup_decl-func name n body (bad_decl ∷ decls) h = lookup_decl-func name n body decls h

processed-links :
    (file : File) (link l : GoLinkname) (o : Option Node)
    → lookup_top_node file l.reference.name ≡ o
    → processed l o ≡ ok (some link)
    → (l ≡ link) × (o ≡ some (func_node l.reference.name false))
unfolding processed lookup_top_node
processed-links file link l none at h = absurd (cc h)
processed-links file link l (some (spec_node s)) at h = absurd (ground arith)
processed-links file link l (some (func_node n true)) at h = absurd (ground arith)
processed-links file link l (some (func_node n false)) at h =
    let named = lookup_decl-func l.reference.name n false file.decls at in
    (some_inj (ok_inj h), rw named refl)

processed-bodyless :
    (link : GoLinkname) (n : Bytes) → processed link (some (func_node n false)) ≡ ok (some link)
unfolding processed
processed-bodyless link n = refl

process_link_iff :
    (file : File) (link : GoLinkname) (r : Result LinkError (Option GoLinkname))
    → (process_link file r ≡ ok (some link)) ↔ (
        (r ≡ ok (some link))
        × (imports_unsafe file ≡ true)
        × (lookup_top_node file link.reference.name ≡ some (func_node link.reference.name false)))
unfolding process_link
process_link_iff file link (err e) = ground arith
process_link_iff file link (ok none) = ground arith
process_link_iff file link (ok (some l)) = (
  λ h.
      let safe : imports_unsafe file ≡ true = ground arith in
      let at : processed l (lookup_top_node file l.reference.name) ≡ ok (some link) =
        ground arith in
      let (same, node) = processed-links file link l _ refl at in
      (rw same refl, safe, rw (← same) node),
  λ (same, safe, node).
      let eq : l ≡ link = some_inj (ok_inj same) in
      rw safe (rw eq (ap (processed link) node ∙ processed-bodyless link link.reference.name)),
)

process_comment_iff :
    (pkg_path : Bytes) (file : File) (link : GoLinkname) (c : Comment)
    → (process_comment pkg_path file c ≡ ok (some link)) ↔ (
        (read_linkname_from_comment pkg_path c.text ≡ ok (some link))
        × (imports_unsafe file ≡ true)
        × (lookup_top_node file link.reference.name ≡ some (func_node link.reference.name false)))
unfolding process_comment
process_comment_iff pkg_path file link c =
    process_link_iff file link (read_linkname_from_comment pkg_path c.text)

contains-parse :
    (pkg_path : Bytes) (file : File) (link : GoLinkname)
    → contains (parse_go_linknames pkg_path file).directives link
      ≡ any_yields pkg_path file link (all_comments file.comments)
unfolding parse_go_linknames
contains-parse pkg_path file link =
    contains-parse_groups pkg_path file file.comments (record { directives = []; errs = [] }) link

-- `ParseGoLinknames` returns a link exactly when some comment of the file reads as it, the file
-- imports "unsafe", and the first declaration of the link's local name is a function without a
-- body.
pub parse_go_linknames-exact :
    (pkg_path : Bytes) (file : File) (link : GoLinkname)
    → (contains (parse_go_linknames pkg_path file).directives link ≡ true) ↔ (
        (c : Comment) × (contains (all_comments file.comments) c ≡ true)
        × (read_linkname_from_comment pkg_path c.text ≡ ok (some link))
        × (imports_unsafe file ≡ true)
        × (lookup_top_node file link.reference.name ≡ some (func_node link.reference.name false)))
parse_go_linknames-exact pkg_path file link =
    let found = contains-parse pkg_path file link in
    let cs = all_comments file.comments in
    (
      λ h.
          let (c, within, at) = any_yields-find pkg_path file link cs (sym found ∙ h) in
          let (read, safe, node) = (process_comment_iff pkg_path file link c).0 at in
          (c, within, read, safe, node),
      λ (c, within, read, safe, node).
          found
          ∙ any_yields-contains pkg_path file link cs c within
              ((process_comment_iff pkg_path file link c).1 (read, safe, node)),
    )
