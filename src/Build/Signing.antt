-- ===== src/Build/Signing.antt =====
-- The signatures that the overlays put among the overrides.
use gopherjs.Base.{
  ℕ, Bool, true, false, Option, none, some, List, [], ◌∷◌, ◌++◌, ◌≡◌, refl, ◌∙◌, Bool-cases, inl,
  inr, some_inj, ◌==◌, subst,
}
use gopherjs.Base.Assoc.{lookup, put, lookup-put}
use gopherjs.Base.Bytes.{Bytes}
use gopherjs.Base.BytesEq.{Bytes_eq, bytes_equal_iff}
use gopherjs.Base.Options.{>>=-eq-some}
use gopherjs.Build.Syntax.{
  FuncDecl, ImportSpec, Spec, import_spec, type_spec, value_spec, Decl, func_decl, gen_decl,
}
use gopherjs.Build.Directives.{func_key, overrides_signature}
use gopherjs.Build.Directives
use gopherjs.Build.Overlay.{
  OverrideInfo, Overrides, plain_info, each, function_info, add_names, overlay_spec, overlay_decl,
}
use gopherjs.Build.Declared.{decl_functions, functions_of}
use gopherjs.Build.Overriding.{signature_at}

-- Every function that the directive makes a signature satisfies the predicate under its key.
abbrev pub AllSign : (Bytes → Option FuncDecl → Type 0) → List FuncDecl → Type 0
AllSign Fits [] = Unit {0}
AllSign Fits (d ∷ ds) =
    ((k : Bytes) → func_key d ≡ some k → overrides_signature d ≡ true → Fits k (some d))
    × AllSign Fits ds

module _ (Fits : Bytes → Option FuncDecl → Type 0) (free : (k : Bytes) → Fits k none) where
  abbrev pub AllFit : Overrides → Type 0
  AllFit overrides = (k : Bytes) → Fits k (signature_at overrides k)

  put-AllFit :
      (j : Bytes) (info : OverrideInfo) (before : Overrides)
      → AllFit before
      → Fits j info.override_signature
      → AllFit (put j info before)
  put-AllFit j info before fits own k = elim (Bool-cases (j == k)) [
    | inl same ↦
        let e : lookup k (put j info before) ≡ some info =
          lookup-put j k info before ∙ rw same refl in
        let at : j ≡ k = (bytes_equal_iff j k).0 same in
        rw e (subst (λ i. Fits i info.override_signature) at own)
    | inr apart ↦
        let e : lookup k (put j info before) ≡ lookup k before =
          lookup-put j k info before ∙ rw apart refl in
        rw e (fits k)
  ]

  add_names-AllFit :
      (names : List (Option Bytes)) (before after : Overrides)
      → add_names names before ≡ some after
      → AllFit before
      → AllFit after
  unfolding add_names
  add_names-AllFit [] before after h fits = subst AllFit (some_inj h) fits
  add_names-AllFit (none ∷ names) before after h fits = cc
  add_names-AllFit (some name ∷ names) before after h fits =
      add_names-AllFit names (put name plain_info before) after h
        (put-AllFit name plain_info before fits (free name))

  each-AllFit :
      {A : Type 0} (f : Option A → Overrides → Option (Bool × Option A × Overrides))
      (one : (x : Option A) (before : Overrides) (r : Bool × Option A × Overrides)
        → f x before ≡ some r
        → AllFit before
        → AllFit r.2)
      (xs : List (Option A)) (before : Overrides) (r : Bool × List (Option A) × Overrides)
      → each f xs before ≡ some r
      → AllFit before
      → AllFit r.2
  unfolding each
  each-AllFit f one [] before r h fits = rw (← some_inj h) fits
  each-AllFit f one (x ∷ xs) before r h fits =
      let (first, found, e) = >>=-eq-some (f x before) _ h in
      let (rest, found_rest, e') = >>=-eq-some (each f xs first.2) _ e in
      rw (← some_inj e')
        (each-AllFit f one xs first.2 rest found_rest (one x before first found fits))

  module _ (cell : ℕ → ImportSpec) where
    overlay_spec-AllFit :
        (purge : Bool) (s : Option Spec) (before : Overrides) (r : Bool × Option Spec × Overrides)
        → overlay_spec cell purge s before ≡ some r
        → AllFit before
        → AllFit r.2
    unfolding overlay_spec
    overlay_spec-AllFit true none before r h fits = rw (← some_inj h) fits
    overlay_spec-AllFit false none before r h fits = cc
    overlay_spec-AllFit purge (some (import_spec i)) before r h fits = rw (← some_inj h) fits
    overlay_spec-AllFit purge (some (type_spec s)) before r h fits =
        rw (← some_inj h) (put-AllFit s.name _ before fits (free s.name))
    overlay_spec-AllFit purge (some (value_spec s)) before r h fits =
        let (added, found, e) = >>=-eq-some (add_names s.names before) _ h in
        rw (← some_inj e) (add_names-AllFit s.names before added found fits)

    function_info-Fits :
        (d : FuncDecl) (k : Bytes)
        → func_key d ≡ some k
        → AllSign Fits (d ∷ [])
        → Fits k (function_info d).override_signature
    function_info-Fits d k key signers = elim (Bool-cases (overrides_signature d)) [
      | inl signed ↦ rw signed (signers.0 k key signed)
      | inr unsigned ↦ rw unsigned (free k)
    ]

    overlay_decl-AllFit :
        (d : Option Decl) (before : Overrides) (r : Bool × Option Decl × Overrides)
        → overlay_decl cell d before ≡ some r
        → AllSign Fits (decl_functions d)
        → AllFit before
        → AllFit r.2
    unfolding overlay_decl
    overlay_decl-AllFit none before r h signers fits = cc
    overlay_decl-AllFit (some (func_decl d)) before r h signers fits =
        let (k, key, e) = >>=-eq-some (func_key d) _ h in
        rw (← some_inj e)
          (put-AllFit k (function_info d) before fits (function_info-Fits d k key signers))
    overlay_decl-AllFit (some (gen_decl d)) before r h signers fits =
        let purged = Directives.purge_decl (gen_decl d) in
        let (rest, found, e) = >>=-eq-some (each (overlay_spec cell purged) d.specs before) _ h in
        rw (← some_inj e) (
          each-AllFit (overlay_spec cell purged) (overlay_spec-AllFit purged) d.specs before rest
            found fits)

    pub overlay_decls-AllFit :
        (decls : List (Option Decl)) (before : Overrides)
        (r : Bool × List (Option Decl) × Overrides)
        → each (overlay_decl cell) decls before ≡ some r
        → AllSign Fits (functions_of decls)
        → AllFit before
        → AllFit r.2
    unfolding each
    overlay_decls-AllFit [] before r h signers fits = rw (← some_inj h) fits
    overlay_decls-AllFit (d ∷ decls) before r h signers fits =
        let (first, found, e) = >>=-eq-some (overlay_decl cell d before) _ h in
        let (rest, found_rest, e') = >>=-eq-some (each (overlay_decl cell) decls first.2) _ e in
        let (own, others) = split (decl_functions d) (functions_of decls) signers in
        rw (← some_inj e') (
          overlay_decls-AllFit decls first.2 rest found_rest others
            (overlay_decl-AllFit d before first found own fits))
      where
        split :
            (ds es : List FuncDecl) → AllSign Fits (ds ++ es) → AllSign Fits ds × AllSign Fits es
        split [] es all = (tt, all)
        split (d ∷ ds) es all = let (own, others) = split ds es all.1 in ((all.0, own), others)
