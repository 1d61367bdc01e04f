-- ===== src/Build/Declared.antt =====
-- What the declarations of a file declare: the names of types, variables and constants, and the
-- functions; and `finalizeRemovals` on them.
use gopherjs.Base.{
  true, Option, none, some, List, [], ◌∷◌, ◌≡◌, refl, ◌∙◌, ap, arith, Bool-cases, inl, inr, sym,
}
use gopherjs.Base.Bytes.{Bytes}
use gopherjs.Base.Options.{present}
use gopherjs.Build.Syntax.{
  FuncDecl, ValueSpec, Spec, import_spec, type_spec, value_spec, GenDecl, Decl, func_decl, gen_decl,
  File,
}
use gopherjs.Build.Squeeze.{squeeze}
use gopherjs.Build.Finalize.{
  visit_slots, has_nil, finalize_value, finalize_spec, finalize_gen, finalize_decl,
  finalize_removals, squeeze_value, is_empty, without_names, without_specs,
}
use gopherjs.Build.Gathering.{gather, gather-visit_slots, gather-squeeze, present-squeeze}

abbrev pub spec_names : Option Spec → List Bytes
spec_names none = []
spec_names (some (import_spec i)) = []
spec_names (some (type_spec s)) = s.name ∷ []
spec_names (some (value_spec s)) = present s.names

abbrev pub decl_names : Option Decl → List Bytes
decl_names none = []
decl_names (some (func_decl d)) = []
decl_names (some (gen_decl d)) = gather spec_names d.specs

abbrev pub decl_functions : Option Decl → List FuncDecl
decl_functions none = []
decl_functions (some (func_decl d)) = d ∷ []
decl_functions (some (gen_decl d)) = []

-- The names of the types, variables and constants.
abbrev pub names_of : List (Option Decl) → List Bytes
names_of = gather decl_names

abbrev pub functions_of : List (Option Decl) → List FuncDecl
functions_of = gather decl_functions

present-is_empty : (xs : List (Option Bytes)) → is_empty (squeeze xs) ≡ true → present xs ≡ []
unfolding present
present-is_empty xs h = sym (present-squeeze xs) ∙ ap present (nil_of (squeeze xs) h)
  where
    nil_of : (ys : List (Option Bytes)) → is_empty ys ≡ true → ys ≡ []
    nil_of [] e = refl
    nil_of (y ∷ ys) e = cc

without_names-names :
    (s : ValueSpec) → spec_names (without_names (squeeze_value s)).1 ≡ present s.names
unfolding squeeze_value
without_names-names s = elim (Bool-cases (is_empty (squeeze s.names))) [
  | inl e ↦ rw e (sym (present-is_empty s.names e))
  | inr e ↦ rw e (present-squeeze s.names)
]

finalize_value-names : (s : ValueSpec) → spec_names (finalize_value s).1 ≡ present s.names
unfolding finalize_value
finalize_value-names s = elim (Bool-cases (has_nil s.names)) [
  | inl e ↦ rw e (without_names-names s)
  | inr e ↦ rw e refl
]

finalize_spec-names : (s : Option Spec) → spec_names (finalize_spec s).1 ≡ spec_names s
unfolding finalize_spec
finalize_spec-names none = refl
finalize_spec-names (some (import_spec i)) = refl
finalize_spec-names (some (type_spec s)) = refl
finalize_spec-names (some (value_spec s)) = finalize_value-names s

-- What is gathered from the specifications of a declaration, and kept for each of them.
module _ {κ} {B : Type κ} (held : Option Spec → List B) (empty : held none ≡ [])
    (keeps : (s : Option Spec) → held (finalize_spec s).1 ≡ held s) where
  abbrev pub in_gen : Option Decl → List B
  in_gen none = []
  in_gen (some (func_decl d)) = []
  in_gen (some (gen_decl d)) = gather held d.specs

  without_specs-held : (d : GenDecl) → in_gen (without_specs d).1 ≡ gather held d.specs
  without_specs-held d = elim (Bool-cases (is_empty d.specs)) [
    | inl e ↦ rw e (none_left d.specs e)
    | inr e ↦ rw e refl
  ]
    where
      none_left : (specs : List (Option Spec)) → is_empty specs ≡ true → [] ≡ gather held specs
      none_left [] e = refl
      none_left (s ∷ specs) e = cc

  pub finalize_gen-held : (d : GenDecl) → in_gen (finalize_gen d).1 ≡ gather held d.specs
  unfolding finalize_gen
  finalize_gen-held d = elim (Bool-cases (visit_slots finalize_spec d.specs).0) [
    | inl e ↦ rw e (
        without_specs-held (record d { specs = squeeze (visit_slots finalize_spec d.specs).1 })
        ∙ gather-squeeze held empty (visit_slots finalize_spec d.specs).1
        ∙ gather-visit_slots held finalize_spec keeps d.specs)
    | inr e ↦ rw e (gather-visit_slots held finalize_spec keeps d.specs)
  ]

  pub finalize_decl-held : (d : Option Decl) → in_gen (finalize_decl d).1 ≡ in_gen d
  unfolding finalize_decl
  finalize_decl-held none = refl
  finalize_decl-held (some (func_decl d)) = refl
  finalize_decl-held (some (gen_decl d)) = finalize_gen-held d

in_gen-names : (d : Option Decl) → in_gen spec_names refl finalize_spec-names d ≡ decl_names d
in_gen-names none = refl
in_gen-names (some (func_decl d)) = refl
in_gen-names (some (gen_decl d)) = refl

pub finalize_decl-names : (d : Option Decl) → decl_names (finalize_decl d).1 ≡ decl_names d
finalize_decl-names d =
    sym (in_gen-names (finalize_decl d).1)
    ∙ finalize_decl-held spec_names refl finalize_spec-names d
    ∙ in_gen-names d

finalize_gen-functions : (d : GenDecl) → decl_functions (finalize_gen d).1 ≡ []
unfolding finalize_gen
finalize_gen-functions d = ground arith

finalize_decl-functions : (d : Option Decl) → decl_functions (finalize_decl d).1 ≡ decl_functions d
unfolding finalize_decl
finalize_decl-functions none = refl
finalize_decl-functions (some (func_decl d)) = refl
finalize_decl-functions (some (gen_decl d)) = finalize_gen-functions d

-- What is gathered from the declarations, and kept for each, is kept for the file.
pub gather-finalize_removals {κ} :
    {B : Type κ} (held : Option Decl → List B)
    → held none ≡ []
    → ((d : Option Decl) → held (finalize_decl d).1 ≡ held d)
    → (file : File) → gather held (finalize_removals file).decls ≡ gather held file.decls
unfolding finalize_removals
gather-finalize_removals held empty keeps file =
    elim (Bool-cases (visit_slots finalize_decl file.decls).0) [
      | inl e ↦ rw e (
          gather-squeeze held empty (visit_slots finalize_decl file.decls).1
          ∙ gather-visit_slots held finalize_decl keeps file.decls)
      | inr e ↦ rw e (gather-visit_slots held finalize_decl keeps file.decls)
    ]

pub finalize_removals-names :
    (file : File) → names_of (finalize_removals file).decls ≡ names_of file.decls
finalize_removals-names file = gather-finalize_removals decl_names refl finalize_decl-names file

pub finalize_removals-functions :
    (file : File) → functions_of (finalize_removals file).decls ≡ functions_of file.decls
finalize_removals-functions file =
    gather-finalize_removals decl_functions refl finalize_decl-functions file
