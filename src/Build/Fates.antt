-- ===== src/Build/Fates.antt =====
-- What becomes of the functions of an original file.

use gopherjs.Base.{
  Bool, true, false, not, ◌||◌, Option, none, some, List, [], ◌∷◌, ◌++◌, ◌≡◌, refl, Bool-cases, inl,
  inr, some_inj, Option-cases,
}
use gopherjs.Base.Assoc.{lookup}
use gopherjs.Base.Bytes.{Bytes}
use gopherjs.Base.BytesEq.{Bytes_eq}
use gopherjs.Base.Options.{>>=-eq-some}
use gopherjs.Build.Syntax.{FuncDecl, Decl, func_decl, gen_decl}
use gopherjs.Build.Directives.{func_key, func_receiver_key}
use gopherjs.Build.Finalize.{is_empty}
use gopherjs.Build.Overlay.{OverrideInfo, Overrides}
use gopherjs.Build.Original.{
  each_slot, has_signature, with_signature, rename_kept, override_function, is_purged, purge_method,
  original_function, original_spec, original_decl,
}
use gopherjs.Build.Declared.{decl_functions, functions_of}

-- The functions that stand in the place of one of the original.
pub data Fate (overrides : Overrides) (d : FuncDecl) : List FuncDecl → Type 0 where
  -- no override, and no receiver that is purged
  untouched :
      (k r : Bytes)
      → func_key d ≡ some k
      → lookup k overrides ≡ none
      → func_receiver_key d ≡ some r
      → (is_empty r || not (is_purged (lookup r overrides))) ≡ true
      → Fate overrides d (d ∷ [])
  -- no override, but the type of the receiver is purged
  purged :
      (k r : Bytes)
      → func_key d ≡ some k
      → lookup k overrides ≡ none
      → func_receiver_key d ≡ some r
      → is_purged (lookup r overrides) ≡ true
      → Fate overrides d []
  -- an override with neither of the directives
  replaced :
      (k : Bytes) (info : OverrideInfo)
      → func_key d ≡ some k
      → lookup k overrides ≡ some info
      → (info.keep_original || has_signature info.override_signature) ≡ false
      → Fate overrides d []
  -- renamed to be kept, or given another signature, or both
  amended :
      (k : Bytes) (info : OverrideInfo)
      → func_key d ≡ some k
      → lookup k overrides ≡ some info
      → (info.keep_original || has_signature info.override_signature) ≡ true
      → Fate overrides d
          (with_signature info.override_signature (rename_kept info.keep_original d) ∷ [])

-- The fates of the functions in turn.
abbrev pub Fates : Overrides → List FuncDecl → List FuncDecl → Type 0
Fates overrides [] out = out ≡ []
Fates overrides (d ∷ ds) out =
    (here : List FuncDecl) × (later : List FuncDecl) × Fate overrides d here
    × Fates overrides ds later
    × (out ≡ here ++ later)

module _ (overrides : Overrides) where
  purge_method-Fate :
      (d : FuncDecl) (k r : Bytes)
      → func_key d ≡ some k
      → lookup k overrides ≡ none
      → func_receiver_key d ≡ some r
      → Fate overrides d (decl_functions (purge_method overrides r d).1)
  purge_method-Fate d k [] key free recv = untouched k [] key free recv refl
  purge_method-Fate d k (c ∷ r) key free recv =
      elim (Bool-cases (is_purged (lookup (c ∷ r) overrides))) [
        | inl p ↦ rw p (purged k (c ∷ r) key free recv p)
        | inr p ↦ rw p (untouched k (c ∷ r) key free recv (rw p refl))
      ]

  override_function-Fate :
      (d : FuncDecl) (k : Bytes) (info : OverrideInfo)
      → func_key d ≡ some k
      → lookup k overrides ≡ some info
      → Fate overrides d (decl_functions (override_function info d))
  override_function-Fate d k info key over =
      elim (Bool-cases (info.keep_original || has_signature info.override_signature)) [
        | inl e ↦ rw e (amended k info key over e)
        | inr e ↦ rw e (replaced k info key over e)
      ]

  original_function-Fate :
      (d : FuncDecl) (r : Bool × Option Decl)
      → original_function overrides d ≡ some r
      → Fate overrides d (decl_functions r.1)
  unfolding original_function
  original_function-Fate d r h =
      let (k, key, e) = >>=-eq-some (func_key d) _ h in
      elim (Option-cases (lookup k overrides)) [
        | inl free ↦
            let (recv, found, e') = >>=-eq-some (func_receiver_key d) _ (rw free at e) in
            rw (← some_inj e') (purge_method-Fate d k recv key free found)
        | inr (info, over) ↦
            rw (← some_inj (rw over at e)) (override_function-Fate d k info key over)
      ]

  pub original_decls-Fates :
      (decls : List (Option Decl)) (r : Bool × List (Option Decl))
      → each_slot (original_decl overrides) decls ≡ some r
      → Fates overrides (functions_of decls) (functions_of r.1)
  unfolding each_slot original_decl
  original_decls-Fates [] r h = rw (← some_inj h) refl
  original_decls-Fates (none ∷ decls) r h =
      let (rest, found, e) = >>=-eq-some (each_slot (original_decl overrides) decls) _ h in
      rw (← some_inj e) (original_decls-Fates decls rest found)
  original_decls-Fates (some (func_decl d) ∷ decls) r h =
      let (first, found, e) = >>=-eq-some (original_function overrides d) _ h in
      let (rest, found_rest, e') = >>=-eq-some (each_slot (original_decl overrides) decls) _ e in
      rw (← some_inj e') (
        decl_functions first.1,
        functions_of rest.1,
        original_function-Fate d first found,
        original_decls-Fates decls rest found_rest,
        refl,
      )
  original_decls-Fates (some (gen_decl d) ∷ decls) r h =
      let (first, found, e) = >>=-eq-some (original_decl overrides (some (gen_decl d))) _ h in
      let (rest, found_rest, e') = >>=-eq-some (each_slot (original_decl overrides) decls) _ e in
      let (specs, _, gen) = >>=-eq-some (each_slot (original_spec overrides) d.specs) _ found in
      rw (← some_inj e') (rw (← some_inj gen) (original_decls-Fates decls rest found_rest))
