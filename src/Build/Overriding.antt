-- ===== src/Build/Overriding.antt =====
-- The keys that the overlays put among the overrides.
use gopherjs.Base.{
  ℕ, Bool, true, false, ◌||◌, Option, none, some, List, [], ◌∷◌, ◌≡◌, refl, ◌∙◌, arith, Bool-cases,
  inl, inr, contains, some_inj, sym, ◌==◌, contains-append, subst,
}
use gopherjs.Base.Assoc.{lookup, put, lookup-put}
use gopherjs.Base.Bytes.{Bytes}
use gopherjs.Base.BytesEq.{Bytes_eq, bytes_equal_iff}
use gopherjs.Base.Options.{present, >>=-eq-some}
use gopherjs.Build.Syntax.{
  FuncDecl, ImportSpec, Spec, import_spec, type_spec, value_spec, Decl, func_decl, gen_decl,
}
use gopherjs.Build.Directives.{func_key, overrides_signature}
use gopherjs.Build.Directives
use gopherjs.Build.Overlay.{
  OverrideInfo, Overrides, plain_info, each, function_info, type_info, add_names, overlay_spec,
  overlay_decl,
}
use gopherjs.Build.Original.{is_overridden}
use gopherjs.Build.Gathering.{gather}
use gopherjs.Build.Declared.{spec_names, decl_names, decl_functions, names_of, functions_of}

abbrev pub is_key : Bytes → Option Bytes → Bool
is_key k none = false
is_key k (some found) = k == found

-- A function with the key is among them.
abbrev pub has_function : Bytes → List FuncDecl → Bool
has_function k [] = false
has_function k (d ∷ ds) = is_key k (func_key d) || has_function k ds

-- A declaration with the key is among them.
abbrev pub declares : Bytes → List (Option Decl) → Bool
declares k decls = contains (names_of decls) k || has_function k (functions_of decls)

abbrev pub info_signature : Option OverrideInfo → Option FuncDecl
info_signature none = none
info_signature (some info) = info.override_signature

-- The signature that is put under a key.
abbrev pub signature_at : Overrides → Bytes → Option FuncDecl
signature_at overrides k = info_signature (lookup k overrides)

module _ (k : Bytes) where
  add_names-overridden :
      (names : List (Option Bytes)) (before after : Overrides)
      → add_names names before ≡ some after
      → is_overridden after k ≡ (contains (present names) k || is_overridden before k)
  unfolding add_names present
  add_names-overridden [] before after h = rw (← some_inj h) refl
  add_names-overridden (none ∷ names) before after h = cc
  add_names-overridden (some name ∷ names) before after h = ground (
    arith,
    add_names-overridden names (put name plain_info before) after,
    lookup-put name k plain_info before,
    bytes_equal_iff k name,
    bytes_equal_iff name k,
  )

  module _ (cell : ℕ → ImportSpec) where
    overlay_spec-overridden :
        (purge : Bool) (s : Option Spec) (before : Overrides) (r : Bool × Option Spec × Overrides)
        → overlay_spec cell purge s before ≡ some r
        → is_overridden r.2 k ≡ (contains (spec_names s) k || is_overridden before k)
    unfolding overlay_spec
    overlay_spec-overridden true none before r h = rw (← some_inj h) refl
    overlay_spec-overridden false none before r h = cc
    overlay_spec-overridden purge (some (import_spec i)) before r h = rw (← some_inj h) refl
    overlay_spec-overridden purge (some (type_spec s)) before r h = rw (← some_inj h) (
        ground (
          arith,
          lookup-put s.name k (type_info (purge || Directives.purge_spec cell (type_spec s)))
              before,
          bytes_equal_iff k s.name,
          bytes_equal_iff s.name k,
        ))
    overlay_spec-overridden purge (some (value_spec s)) before r h =
        let (added, found, e) = >>=-eq-some (add_names s.names before) _ h in
        rw (← some_inj e) (add_names-overridden s.names before added found)

  -- From the entries of a slice to the slice.
  abbrev pub any_slot : {A : Type 0} → (Option A → Bool) → List (Option A) → Bool
  any_slot has [] = false
  any_slot has (x ∷ xs) = has x || any_slot has xs

  each-overridden :
      {A : Type 0} (f : Option A → Overrides → Option (Bool × Option A × Overrides))
      (has : Option A → Bool)
      (one : (x : Option A) (before : Overrides) (r : Bool × Option A × Overrides)
        → f x before ≡ some r
        → is_overridden r.2 k ≡ (has x || is_overridden before k))
      (xs : List (Option A)) (before : Overrides) (r : Bool × List (Option A) × Overrides)
      → each f xs before ≡ some r
      → is_overridden r.2 k ≡ (any_slot has xs || is_overridden before k)
  unfolding each
  each-overridden f has one [] before r h = rw (← some_inj h) refl
  each-overridden f has one (x ∷ xs) before r h =
      let (first, found, e) = >>=-eq-some (f x before) _ h in
      let (rest, found_rest, e') = >>=-eq-some (each f xs first.2) _ e in
      let here = one x before first found in
      let later = each-overridden f has one xs first.2 rest found_rest in
      rw (← some_inj e') (ground (arith, here, later))

  each-less :
      {A : Type 0} (f : Option A → Overrides → Option (Bool × Option A × Overrides))
      (has : Option A → Bool)
      (one : (x : Option A) (before : Overrides) (r : Bool × Option A × Overrides)
        → f x before ≡ some r
        → has r.1 ≡ true
        → has x ≡ true)
      (xs : List (Option A)) (before : Overrides) (r : Bool × List (Option A) × Overrides)
      → each f xs before ≡ some r
      → any_slot has r.1 ≡ true
      → any_slot has xs ≡ true
  unfolding each
  each-less {A} f has one [] before r h there = ground (arith, some_inj h)
  each-less {A} f has one (x ∷ xs) before r h there =
      let (first, found, e) = >>=-eq-some (f x before) _ h in
      let (rest, found_rest, e') = >>=-eq-some (each f xs first.2) _ e in
      let kept : any_slot has (first.1 ∷ rest.1) ≡ true =
        subst (λ (t : Bool × List (Option A) × Overrides). any_slot has t.1 ≡ true)
          (sym (some_inj e')) there in
      elim (Bool-cases (has first.1)) [
        | inl yes_here ↦ rw (one x before first found yes_here) refl
        | inr not_here ↦
            let later = each-less f has one xs first.2 rest found_rest (rw not_here at kept) in
            ground (arith, later)
      ]

  any_slot-gather :
      {A : Type 0} (held : Option A → List Bytes) (xs : List (Option A))
      → any_slot (λ x. contains (held x) k) xs ≡ contains (gather held xs) k
  any_slot-gather held [] = refl
  any_slot-gather held (x ∷ xs) =
      rw (any_slot-gather held xs) (sym (contains-append (held x) (gather held xs) k))

  module _ (cell : ℕ → ImportSpec) where
    has_name : Option Spec → Bool
    has_name s = contains (spec_names s) k

    declares_one : Option Decl → Bool
    declares_one d = contains (decl_names d) k || has_function k (decl_functions d)

    any_slot-declares :
        (decls : List (Option Decl)) → any_slot declares_one decls ≡ declares k decls
    unfolding declares_one
    any_slot-declares [] = refl
    any_slot-declares (none ∷ decls) = any_slot-declares decls
    any_slot-declares (some (func_decl d) ∷ decls) = ground (arith, any_slot-declares decls)
    any_slot-declares (some (gen_decl d) ∷ decls) = ground (
      arith,
      any_slot-declares decls,
      contains-append (gather spec_names d.specs) (names_of decls) k,
    )

    overlay_decl-overridden :
        (d : Option Decl) (before : Overrides) (r : Bool × Option Decl × Overrides)
        → overlay_decl cell d before ≡ some r
        → is_overridden r.2 k ≡ (declares_one d || is_overridden before k)
    unfolding overlay_decl declares_one
    overlay_decl-overridden none before r h = cc
    overlay_decl-overridden (some (func_decl d)) before r h =
        let (j, key, e) = >>=-eq-some (func_key d) _ h in
        rw (← some_inj e) (
          rw key (
            ground (
              arith,
              lookup-put j k (function_info d) before,
              bytes_equal_iff k j,
              bytes_equal_iff j k,
            )))
    overlay_decl-overridden (some (gen_decl d)) before r h =
        let purged = Directives.purge_decl (gen_decl d) in
        let (rest, found, e) = >>=-eq-some (each (overlay_spec cell purged) d.specs before) _ h in
        rw (← some_inj e) (
          ground (
            arith,
            each-overridden (overlay_spec cell purged) (λ s. contains (spec_names s) k)
                (overlay_spec-overridden cell purged) d.specs before rest found,
            any_slot-gather spec_names d.specs,
          ))

    overlay_spec-less :
        (purge : Bool) (s : Option Spec) (before : Overrides) (r : Bool × Option Spec × Overrides)
        → overlay_spec cell purge s before ≡ some r
        → contains (spec_names r.1) k ≡ true
        → contains (spec_names s) k ≡ true
    unfolding overlay_spec
    overlay_spec-less purge s before r h there = ground arith

    overlay_decl-less :
        (d : Option Decl) (before : Overrides) (r : Bool × Option Decl × Overrides)
        → overlay_decl cell d before ≡ some r
        → declares_one r.1 ≡ true
        → declares_one d ≡ true
    unfolding overlay_decl declares_one
    overlay_decl-less none before r h there = cc
    overlay_decl-less (some (func_decl d)) before r h there =
        let (j, key, e) = >>=-eq-some (func_key d) _ h in
        ground (
          arith,
          some_inj e,
          Bool-cases (Directives.purge_decl (func_decl d) || overrides_signature d),
        )
    overlay_decl-less (some (gen_decl d)) before r h there =
        let purged = Directives.purge_decl (gen_decl d) in
        let (rest, found, e) = >>=-eq-some (each (overlay_spec cell purged) d.specs before) _ h in
        ground (
          arith,
          some_inj e,
          Bool-cases purged,
          each-less (overlay_spec cell purged) (λ s. contains (spec_names s) k)
              (overlay_spec-less purged) d.specs before rest found,
          any_slot-gather spec_names d.specs,
          any_slot-gather spec_names rest.1,
        )

    -- Every key that a file declares is overridden, besides those that were.
    pub overlay_decls-overridden :
        (decls : List (Option Decl)) (before : Overrides)
        (r : Bool × List (Option Decl) × Overrides)
        → each (overlay_decl cell) decls before ≡ some r
        → is_overridden r.2 k ≡ (declares k decls || is_overridden before k)
    overlay_decls-overridden decls before r h =
        each-overridden (overlay_decl cell) declares_one overlay_decl-overridden decls before r h
        ∙ rw (any_slot-declares decls) refl

    -- The loop over an overlay adds no declaration.
    pub overlay_decls-less :
        (decls : List (Option Decl)) (before : Overrides)
        (r : Bool × List (Option Decl) × Overrides)
        → each (overlay_decl cell) decls before ≡ some r
        → declares k r.1 ≡ true
        → declares k decls ≡ true
    overlay_decls-less decls before r h there =
        sym (any_slot-declares decls)
        ∙ each-less (overlay_decl cell) declares_one overlay_decl-less decls before r h
            (any_slot-declares r.1 ∙ there)
