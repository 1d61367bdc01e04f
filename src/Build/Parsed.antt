-- ===== src/Build/Parsed.antt =====
-- Files as the parser reads them, and `augmentOriginalFile` on them.
use gopherjs.Base.{
  ℕ, Bool, true, false, not, ◌&&◌, Option, none, some, List, [], ◌∷◌, map, ◌≡◌, refl, ◌∙◌, ap,
  Bool-cases, inl, inr, sym, length, nat_eq, Option-cases, ℕ_eq, subst,
}
use gopherjs.Base.Assoc.{lookup}
use gopherjs.Base.Bytes.{Bytes, codes}
use gopherjs.Base.BytesEq.{Bytes_eq}
use gopherjs.Base.Options.{present, >>=-eq-some, Ends, >>=-Ends}
use gopherjs.Build.Syntax.{
  Code, FuncDecl, ValueSpec, Spec, import_spec, type_spec, value_spec, Decl, func_decl, gen_decl,
  File,
}
use gopherjs.Build.Directives.{func_key, func_receiver_key, has_directive_prefix}
use gopherjs.Build.Squeeze.{squeeze-present}
use gopherjs.Build.Finalize.{finalize_removals}
use gopherjs.Build.Imports.{is_only_imports, prune_imports}
use gopherjs.Build.Overlay.{
  Overrides, plain_info, each, add_names, overlay_spec, overlay_decl, finalize_changed,
  augment_overlay_file,
}
use gopherjs.Build.Overlay
use gopherjs.Build.Original.{
  each_slot, drop_overridden, blank_overridden, original_function, original_value, original_spec,
  original_decl, augment_original_file,
}
use gopherjs.Build.Gathering.{present-some}
use gopherjs.Build.Unused.{distinct_names}
use gopherjs.Build.Pruning.{prune_imports-Without}
use gopherjs.Build.Imported.{finalize_removals-imports, finalize_removals-cell}

-- What the parser has read: no nil, and functions whose receivers are named.
abbrev pub ReadSpec : Option Spec → Type 0
ReadSpec none = ⊥
ReadSpec (some (value_spec s)) = (names : List Bytes) × (s.names ≡ map some names)
ReadSpec (some (type_spec s)) = Unit {0}
ReadSpec (some (import_spec i)) = Unit {0}

abbrev pub All : {A : Type 0} → (A → Type 0) → List A → Type 0
All P [] = Unit {0}
All P (x ∷ xs) = P x × All P xs

abbrev pub ReadDecl : Option Decl → Type 0
ReadDecl none = ⊥
ReadDecl (some (func_decl d)) = (k : Bytes) × (func_key d ≡ some k)
ReadDecl (some (gen_decl d)) = All ReadSpec d.specs

pub record IsParsed (file : File) : Type 0 where
  pub ids : List ℕ
  pub present_imports : file.imports ≡ map some ids
  pub distinct : distinct_names file.cell [] ids ≡ true
  pub readable : All ReadDecl file.decls

pub each_slot-total :
    {A B : Type 0} (f : A → Option (Bool × B)) (P : A → Type 0) (one : (x : A) → P x → Ends (f x))
    (xs : List A)
    → All P xs
    → Ends (each_slot f xs)
unfolding each_slot
each_slot-total f P one [] all = ((false, []), refl)
each_slot-total f P one (x ∷ xs) all = >>=-Ends (f x) _ (one x all.0) (λ first _.
    >>=-Ends (each_slot f xs) _ (each_slot-total f P one xs all.1) (λ rest _. (_, refl)))

pub each-total :
    {A : Type 0} (f : Option A → Overrides → Overlay.Step A) (P : Option A → Type 0)
    (one : (x : Option A) (before : Overrides) → P x → Ends (f x before)) (xs : List (Option A))
    (before : Overrides)
    → All P xs
    → Ends (each f xs before)
unfolding each
each-total f P one [] before all = ((false, [], before), refl)
each-total f P one (x ∷ xs) before all = >>=-Ends (f x before) _ (one x before all.0) (λ first _.
    >>=-Ends (each f xs first.2) _ (each-total f P one xs first.2 all.1) (λ rest _. (_, refl)))

func_receiver_key-total :
    (d : FuncDecl) (k : Bytes) → func_key d ≡ some k → Ends (func_receiver_key d)
unfolding func_key
func_receiver_key-total d k h =
    let (r, found, e) = >>=-eq-some (func_receiver_key d) _ h in (r, found)

module _ (overrides : Overrides) where
  original_function-total :
      (d : FuncDecl) (k : Bytes) → func_key d ≡ some k → Ends (original_function overrides d)
  unfolding original_function
  original_function-total d k key =
      >>=-Ends (func_key d) _ (k, key)
        (λ j own. elim (Option-cases (lookup j overrides)) [
          | inl free ↦ rw free (
              >>=-Ends (func_receiver_key d) _ (func_receiver_key-total d k key)
                (λ recv _. (_, refl)))
          | inr (info, over) ↦ rw over (_, refl)
        ])

  drop_overridden-total :
      (names : List Bytes) (values : List (Option Code))
      → Ends (drop_overridden overrides (map some names) values)
  unfolding drop_overridden
  drop_overridden-total [] [] = (_, refl)
  drop_overridden-total [] (v ∷ values) = (_, refl)
  drop_overridden-total (name ∷ names) [] = (_, refl)
  drop_overridden-total (name ∷ names) (v ∷ values) =
      >>=-Ends (drop_overridden overrides (map some names) values) _
        (drop_overridden-total names values) (λ r _. (_, refl))

  blank_overridden-total :
      (names : List Bytes) → Ends (each_slot (blank_overridden overrides) (map some names))
  unfolding each_slot
  blank_overridden-total [] = (_, refl)
  blank_overridden-total (name ∷ names) =
      >>=-Ends (each_slot (blank_overridden overrides) (map some names)) _
        (blank_overridden-total names) (λ r _. (_, refl))

  original_value-total :
      (s : ValueSpec) (names : List Bytes)
      → s.names ≡ map some names
      → Ends (original_value overrides s)
  unfolding original_value
  original_value-total s names all = elim (Bool-cases (nat_eq (length s.names) (length s.values))) [
    | inl same ↦ rw same (
        >>=-Ends (drop_overridden overrides s.names s.values) _
          (subst (λ n. Ends (drop_overridden overrides n s.values)) (sym all)
            (drop_overridden-total names s.values))
          (λ r _. (_, refl)))
    | inr other ↦ rw other (
        >>=-Ends (each_slot (blank_overridden overrides) s.names) _
          (subst (λ n. Ends (each_slot (blank_overridden overrides) n)) (sym all)
            (blank_overridden-total names))
          (λ r _. (_, refl)))
  ]

  original_spec-total : (s : Option Spec) → ReadSpec s → Ends (original_spec overrides s)
  unfolding original_spec
  original_spec-total none read = absurd read
  original_spec-total (some (import_spec i)) read = (_, refl)
  original_spec-total (some (type_spec s)) read = (_, refl)
  original_spec-total (some (value_spec s)) (names, all) = original_value-total s names all

  original_decl-total : (d : Option Decl) → ReadDecl d → Ends (original_decl overrides d)
  unfolding original_decl
  original_decl-total none read = absurd read
  original_decl-total (some (func_decl d)) (k, key) = original_function-total d k key
  original_decl-total (some (gen_decl d)) read =
      >>=-Ends (each_slot (original_spec overrides) d.specs) _
        (each_slot-total (original_spec overrides) ReadSpec original_spec-total d.specs read)
        (λ r _. (_, refl))

prune_imports-total :
    (file : File) (ids : List ℕ)
    → file.imports ≡ map some ids
    → distinct_names file.cell [] ids ≡ true
    → Ends (prune_imports file)
unfolding prune_imports
prune_imports-total file ids all distinct =
    elim (Bool-cases
      (is_only_imports file && not (has_directive_prefix (codes "//go:linkname ") file.comments))) [
        | inl cleared ↦ rw cleared (_, refl)
        | inr walked ↦
            let (done, ends, without, cells) = prune_imports-Without ids file all distinct walked in
            (done, ends)
      ]

pub finalize_changed-total :
    (change : Bool) (file : File) (ids : List ℕ)
    → file.imports ≡ map some ids
    → distinct_names file.cell [] ids ≡ true
    → Ends (finalize_changed change file)
unfolding finalize_changed
finalize_changed-total false file ids all distinct = (file, refl)
finalize_changed-total true file ids all distinct =
    prune_imports-total (finalize_removals file) ids
      (finalize_removals-imports file
        ∙ squeeze-present file.imports
        ∙ ap (λ l. map some (present l)) all
        ∙ ap (map some) (present-some ids))
      (ap (λ c. distinct_names c [] ids) (finalize_removals-cell file) ∙ distinct)

pub augment_original_file-total :
    (overrides : Overrides) (file : File)
    → IsParsed file
    → Ends (augment_original_file overrides file)
unfolding augment_original_file
augment_original_file-total overrides file p =
    >>=-Ends (each_slot (original_decl overrides) file.decls) _
      (each_slot-total (original_decl overrides) ReadDecl (original_decl-total overrides) file.decls
        p.readable)
      (λ r _.
        finalize_changed-total r.0 (record file { decls = r.1 }) p.ids p.present_imports p.distinct)
