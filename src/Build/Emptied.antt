-- ===== src/Build/Emptied.antt =====
-- `augmentOriginalFile` on declarations without names, as those of imports are.
use gopherjs.Base.{
  suc, Bool, Option, none, some, List, [], ◌∷◌, ◌≡◌, refl, arith, Bool-cases, inl, inr, some_inj,
  length, nat_eq,
}
use gopherjs.Base.Bytes.{Bytes}
use gopherjs.Base.Options.{present, >>=-eq-some}
use gopherjs.Build.Syntax.{
  ValueSpec, Spec, import_spec, type_spec, value_spec, Decl, func_decl, gen_decl,
}
use gopherjs.Build.Overlay.{Overrides}
use gopherjs.Build.Original.{
  each_slot, drop_overridden, all_blank, original_value, original_spec, original_function,
  original_decl,
}
use gopherjs.Build.Gathering.{gather, append_nil}
use gopherjs.Build.Declared.{spec_names}
use gopherjs.Build.Pruned.{Hollow, AllHollow}

-- From the entries of a slice to the slice.
pub each_slot-nothing :
    {A : Type 0} (f : A → Option (Bool × A)) (held : A → List Bytes)
    (one : (x : A) (r : Bool × A) → f x ≡ some r → held x ≡ [] → held r.1 ≡ []) (xs : List A)
    (r : Bool × List A)
    → each_slot f xs ≡ some r
    → gather held xs ≡ []
    → gather held r.1 ≡ []
unfolding each_slot
each_slot-nothing f held one [] r h nothing = rw (← some_inj h) refl
each_slot-nothing f held one (x ∷ xs) r h nothing =
    let (first, found, e) = >>=-eq-some (f x) _ h in
    let (rest, found_rest, e') = >>=-eq-some (each_slot f xs) _ e in
    let (here, later) = append_nil (held x) (gather held xs) nothing in
    rw (← some_inj e')
      (rw (one x first found here) (each_slot-nothing f held one xs rest found_rest later))

module _ (overrides : Overrides) where
  original_value-nothing :
      (s : ValueSpec) (names : List (Option Bytes)) (r : Bool × Option Spec)
      → original_value overrides (record s { names = names }) ≡ some r
      → present names ≡ []
      → spec_names r.1 ≡ []
  unfolding original_value drop_overridden each_slot all_blank present
  original_value-nothing s [] r h nothing = elim (Bool-cases (nat_eq 0 (length s.values))) [
    | inl same ↦ rw (← some_inj (rw same at h)) refl
    | inr other ↦ rw (← some_inj (rw other at h)) refl
  ]
  original_value-nothing s (none ∷ names) r h nothing =
      elim (Bool-cases (nat_eq (suc (length names)) (length s.values))) [
        | inl same ↦ no_result (rw same at h)
        | inr other ↦ no_result (rw other at h)
      ]
    where
      no_result : none ≡ some r → spec_names r.1 ≡ []
      no_result e = cc
  original_value-nothing s (some name ∷ names) r h nothing = cc

  original_spec-nothing :
      (s : Option Spec) (r : Bool × Option Spec)
      → original_spec overrides s ≡ some r
      → spec_names s ≡ []
      → spec_names r.1 ≡ []
  unfolding original_spec
  original_spec-nothing none r h nothing = rw (← some_inj h) refl
  original_spec-nothing (some (import_spec i)) r h nothing = rw (← some_inj h) refl
  original_spec-nothing (some (type_spec s)) r h nothing = cc
  original_spec-nothing (some (value_spec s)) r h nothing =
      original_value-nothing s s.names r h nothing

  original_decl-Hollow :
      (d : Option Decl) (r : Bool × Option Decl)
      → original_decl overrides d ≡ some r
      → Hollow d
      → Hollow r.1
  unfolding original_decl original_function
  original_decl-Hollow none r h hollow = rw (← some_inj h) (λ e. refl)
  original_decl-Hollow (some (func_decl d)) r h hollow = λ e. ground arith
  original_decl-Hollow (some (gen_decl d)) r h hollow =
      let (specs, found, e) = >>=-eq-some (each_slot (original_spec overrides) d.specs) _ h in
      rw (← some_inj e) (λ import.
        each_slot-nothing (original_spec overrides) spec_names original_spec-nothing d.specs specs
          found (hollow import))

  pub original_decls-AllHollow :
      (decls : List (Option Decl)) (r : Bool × List (Option Decl))
      → each_slot (original_decl overrides) decls ≡ some r
      → AllHollow decls
      → AllHollow r.1
  unfolding each_slot
  original_decls-AllHollow [] r h hollow = rw (← some_inj h) tt
  original_decls-AllHollow (d ∷ decls) r h hollow =
      let (first, found, e) = >>=-eq-some (original_decl overrides d) _ h in
      let (rest, found_rest, e') = >>=-eq-some (each_slot (original_decl overrides) decls) _ e in
      rw (← some_inj e') (
        original_decl-Hollow d first found hollow.0,
        original_decls-AllHollow decls rest found_rest hollow.1,
      )
