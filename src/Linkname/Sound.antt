-- ===== src/Linkname/Sound.antt =====
-- Which directives of a file are found.
use gopherjs.Base.{
  ℕ, Bool, true, false, ◌||◌, ◌&&◌, Option, none, some, List, [], ◌∷◌, ◌++◌, ◌≡◌, ◌↔◌, ◌==◌,
  Comparable, inl, inr, Bool-cases, contains, contains-append, nat_eq, nat_eq_iff, Result, ok, err,
  arith, refl, ap, sym, ◌∙◌,
}
use gopherjs.Base.Bytes.{Bytes}
use gopherjs.Base.BytesEq.{Bytes_eq, bytes_equal, bytes_equal_iff}
use gopherjs.Linkname.Directive.{LinkError, name_equal, name_equal_iff, GoLinkname}
use gopherjs.Linkname.Parse.{
  Comment, File, Found, noted, parse_group, parse_groups, process_comment,
}

abbrev pub link_equal : GoLinkname → GoLinkname → Bool
link_equal a b = name_equal a.implementation b.implementation && name_equal a.reference b.reference

pub link_equal_iff : (a b : GoLinkname) → (link_equal a b ≡ true) ↔ (a ≡ b)
link_equal_iff a b = ground (
  arith,
  name_equal_iff a.implementation b.implementation,
  name_equal_iff a.reference b.reference,
)

instance abbrev pub GoLinkname_eq : Comparable GoLinkname
GoLinkname_eq = record { equal = link_equal; equal_iff = link_equal_iff }

abbrev pub comment_equal : Comment → Comment → Bool
comment_equal a b = bytes_equal a.text b.text && nat_eq a.at b.at

pub comment_equal_iff : (a b : Comment) → (comment_equal a b ≡ true) ↔ (a ≡ b)
comment_equal_iff a b = ground (arith, bytes_equal_iff a.text b.text, nat_eq_iff a.at b.at)

instance abbrev pub Comment_eq : Comparable Comment
Comment_eq = record { equal = comment_equal; equal_iff = comment_equal_iff }

abbrev pub all_comments : List (List Comment) → List Comment
all_comments [] = []
all_comments (group ∷ groups) = group ++ all_comments groups

abbrev pub yields : GoLinkname → Result LinkError (Option GoLinkname) → Bool
yields link (err e) = false
yields link (ok none) = false
yields link (ok (some found)) = link == found

contains-noted :
    (at : ℕ) (r : Result LinkError (Option GoLinkname)) (found : Found) (link : GoLinkname)
    → contains (noted at r found).directives link
      ≡ (contains found.directives link || yields link r)
contains-noted at (err e) found link = ground arith
contains-noted at (ok none) found link = ground arith
contains-noted at (ok (some l)) found link =
    contains-append found.directives (l ∷ []) link ∙ ground arith

yields_iff :
    (link : GoLinkname) (r : Result LinkError (Option GoLinkname))
    → (yields link r ≡ true) ↔ (r ≡ ok (some link))
yields_iff link (err e) = ground arith
yields_iff link (ok none) = ground arith
yields_iff link (ok (some l)) = ground (arith, link_equal_iff link l)

module _ (pkg_path : Bytes) (file : File) where
  abbrev pub any_yields : GoLinkname → List Comment → Bool
  any_yields link [] = false
  any_yields link (c ∷ cs) = yields link (process_comment pkg_path file c) || any_yields link cs

  any_yields-append :
      (link : GoLinkname) (xs ys : List Comment)
      → any_yields link (xs ++ ys) ≡ (any_yields link xs || any_yields link ys)
  any_yields-append link [] ys = refl
  any_yields-append link (x ∷ xs) ys = ground (arith, any_yields-append link xs ys)

  contains-parse_group :
      (cs : List Comment) (found : Found) (link : GoLinkname)
      → contains (parse_group pkg_path file cs found).directives link
        ≡ (contains found.directives link || any_yields link cs)
  unfolding parse_group
  contains-parse_group [] found link = ground arith
  contains-parse_group (c ∷ cs) found link =
      let r = process_comment pkg_path file c in
      contains-parse_group cs (noted c.at r found) link
      ∙ ap (λ b. b || any_yields link cs) (contains-noted c.at r found link)
      ∙ ground arith

  pub contains-parse_groups :
      (groups : List (List Comment)) (found : Found) (link : GoLinkname)
      → contains (parse_groups pkg_path file groups found).directives link
        ≡ (contains found.directives link || any_yields link (all_comments groups))
  unfolding parse_groups
  contains-parse_groups [] found link = ground arith
  contains-parse_groups (group ∷ groups) found link =
      contains-parse_groups groups (parse_group pkg_path file group found) link
      ∙ ap (λ b. b || any_yields link (all_comments groups)) (contains-parse_group group found link)
      ∙ ground (arith, any_yields-append link group (all_comments groups))

  pub any_yields-find :
      (link : GoLinkname) (cs : List Comment)
      → any_yields link cs ≡ true
      → (c : Comment) × (contains cs c ≡ true) × (process_comment pkg_path file c ≡ ok (some link))
  any_yields-find link [] h = absurd (cc h)
  any_yields-find link (c ∷ cs) h =
      elim (Bool-cases (yields link (process_comment pkg_path file c))) [
        | inl here ↦ (
          c,
          ground (arith, comment_equal_iff c c),
          (yields_iff link (process_comment pkg_path file c)).0 here,
        )
        | inr later ↦
            let (c', within, at) = any_yields-find link cs (ground arith) in (c', ground arith, at)
      ]

  pub any_yields-contains :
      (link : GoLinkname) (cs : List Comment) (c : Comment)
      → contains cs c ≡ true
      → process_comment pkg_path file c ≡ ok (some link)
      → any_yields link cs ≡ true
  any_yields-contains link [] c within at = absurd (cc within)
  any_yields-contains link (x ∷ cs) c within at = elim (Bool-cases (comment_equal c x)) [
    | inl same ↦
        let x_yields : yields link (process_comment pkg_path file x) ≡ true =
          (yields_iff link (process_comment pkg_path file x)).1
            (ap (process_comment pkg_path file) (sym ((comment_equal_iff c x).0 same)) ∙ at) in
        rw x_yields refl
    | inr other ↦ ground (arith, any_yields-contains link cs c (ground arith) at)
  ]
