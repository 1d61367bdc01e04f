-- ===== src/Build/Values.antt =====
-- What `augmentOriginalFile` leaves of the types, variables and constants of a file.
use gopherjs.Base.{
  Bool, true, false, not, ◌||◌, ◌&&◌, Option, none, some, List, [], ◌∷◌, ◌≡◌, refl, ◌∙◌, arith,
  Bool-cases, inl, inr, contains, some_inj, sym, length, ◌==◌, nat_eq, nat_eq_iff, contains-append,
  and_true,
}
use gopherjs.Base.Bytes.{Bytes}
use gopherjs.Base.BytesEq.{Bytes_eq, bytes_equal_iff}
use gopherjs.Base.Options.{present, >>=-eq-some}
use gopherjs.Build.Syntax.{
  Code, FuncDecl, ValueSpec, Spec, import_spec, type_spec, value_spec, Decl, func_decl, gen_decl,
}
use gopherjs.Build.Overlay.{Overrides}
use gopherjs.Build.Original.{
  each_slot, is_overridden, original_function, drop_overridden, blank, blank_overridden, all_blank,
  original_value, original_spec, original_decl,
}
use gopherjs.Build.Gathering.{gather}
use gopherjs.Build.Declared.{spec_names, decl_names, names_of}

module _ (overrides : Overrides) (k : Bytes) (named : (k == blank) ≡ false) where
  -- The names that stay: those without an override.
  abbrev pub stays : List Bytes → Bool
  stays names = contains names k && not (is_overridden overrides k)

  stays-cons :
      (name : Bytes) (names : List Bytes)
      → stays (name ∷ names) ≡ (k == name && not (is_overridden overrides name) || stays names)
  stays-cons name names = ground (arith, bytes_equal_iff k name)

  drop_overridden-stays :
      (names : List (Option Bytes)) (values : List (Option Code))
      (r : Bool × List (Option Bytes) × List (Option Code))
      → length names ≡ length values
      → drop_overridden overrides names values ≡ some r
      → contains (present r.1) k ≡ stays (present names)
  unfolding drop_overridden present
  drop_overridden-stays [] [] r same h = rw (← some_inj h) refl
  drop_overridden-stays [] (v ∷ values) r same h = absurd (omega arith)
  drop_overridden-stays (n ∷ names) [] r same h = absurd (omega arith)
  drop_overridden-stays (none ∷ names) (v ∷ values) r same h = cc
  drop_overridden-stays (some name ∷ names) (v ∷ values) r same h =
      let (rest, found, e) = >>=-eq-some (drop_overridden overrides names values) _ h in
      let ih = drop_overridden-stays names values rest (omega arith) found in
      rw (← some_inj e) (
        ground
          (arith, ih, stays-cons name (present names), Bool-cases (is_overridden overrides name)))

  blank_overridden-stays :
      (names : List (Option Bytes)) (r : Bool × List (Option Bytes))
      → each_slot (blank_overridden overrides) names ≡ some r
      → contains (present r.1) k ≡ stays (present names)
  unfolding each_slot present
  blank_overridden-stays [] r h = rw (← some_inj h) refl
  blank_overridden-stays (none ∷ names) r h = cc
  blank_overridden-stays (some name ∷ names) r h =
      let (rest, found, e) = >>=-eq-some (each_slot (blank_overridden overrides) names) _ h in
      let ih = blank_overridden-stays names rest found in
      rw (← some_inj e) (
        ground
          (arith, ih, stays-cons name (present names), Bool-cases (is_overridden overrides name)))

  all_blank-stays :
      (names : List (Option Bytes)) → all_blank names ≡ true → contains (present names) k ≡ false
  unfolding all_blank present
  all_blank-stays [] h = refl
  all_blank-stays (none ∷ names) h = cc
  all_blank-stays (some name ∷ names) h =
      ground (arith, all_blank-stays names, bytes_equal_iff name blank, bytes_equal_iff k name)

  original_value-stays :
      (s : ValueSpec) (r : Bool × Option Spec)
      → original_value overrides s ≡ some r
      → contains (spec_names r.1) k ≡ stays (present s.names)
  unfolding original_value
  original_value-stays s r h = elim (Bool-cases (nat_eq (length s.names) (length s.values))) [
    | inl same ↦
        let (dropped, found, e) =
          >>=-eq-some (drop_overridden overrides s.names s.values) _ (rw same at h) in
        rw (← some_inj e) (
          drop_overridden-stays s.names s.values dropped
            ((nat_eq_iff (length s.names) (length s.values)).0 same) found)
    | inr other ↦
        let (blanked, found, e) =
          >>=-eq-some (each_slot (blank_overridden overrides) s.names) _ (rw other at h) in
        let kept = blank_overridden-stays s.names blanked found in
        rw (← some_inj e) (elim (Bool-cases (blanked.0 && all_blank blanked.1)) [
          | inl gone ↦ rw gone (
              sym (all_blank-stays blanked.1 ((and_true blanked.0 (all_blank blanked.1) gone).1))
              ∙ kept)
          | inr some_left ↦ rw some_left kept
        ])
  ]

  original_spec-stays :
      (s : Option Spec) (r : Bool × Option Spec)
      → original_spec overrides s ≡ some r
      → contains (spec_names r.1) k ≡ stays (spec_names s)
  unfolding original_spec
  original_spec-stays none r h = rw (← some_inj h) refl
  original_spec-stays (some (import_spec i)) r h = rw (← some_inj h) refl
  original_spec-stays (some (type_spec s)) r h =
      rw (← some_inj h)
        (ground (arith, stays-cons s.name [], Bool-cases (is_overridden overrides s.name)))
  original_spec-stays (some (value_spec s)) r h = original_value-stays s r h

  -- From the entries of a slice to the slice.
  each_slot-stays :
      {A : Type 0} (f : A → Option (Bool × A)) (held : A → List Bytes)
      (one : (x : A) (r : Bool × A) → f x ≡ some r → contains (held r.1) k ≡ stays (held x))
      (xs : List A) (r : Bool × List A)
      → each_slot f xs ≡ some r
      → contains (gather held r.1) k ≡ stays (gather held xs)
  unfolding each_slot
  each_slot-stays f held one [] r h = rw (← some_inj h) refl
  each_slot-stays f held one (x ∷ xs) r h =
      let (first, found, e) = >>=-eq-some (f x) _ h in
      let (rest, found_rest, e') = >>=-eq-some (each_slot f xs) _ e in
      let here = one x first found in
      let later = each_slot-stays f held one xs rest found_rest in
      rw (← some_inj e') (
        ground (
          arith,
          here,
          later,
          contains-append (held first.1) (gather held rest.1) k,
          contains-append (held x) (gather held xs) k,
        ))

  original_function-names :
      (d : FuncDecl) (r : Bool × Option Decl)
      → original_function overrides d ≡ some r
      → decl_names r.1 ≡ []
  unfolding original_function
  original_function-names d r h = ground arith

  original_decl-stays :
      (d : Option Decl) (r : Bool × Option Decl)
      → original_decl overrides d ≡ some r
      → contains (decl_names r.1) k ≡ stays (decl_names d)
  unfolding original_decl
  original_decl-stays none r h = rw (← some_inj h) refl
  original_decl-stays (some (func_decl d)) r h = rw (original_function-names d r h) refl
  original_decl-stays (some (gen_decl d)) r h =
      let (specs, found, e) = >>=-eq-some (each_slot (original_spec overrides) d.specs) _ h in
      rw (← some_inj e) (
        each_slot-stays (original_spec overrides) spec_names original_spec-stays d.specs specs
          found)

  pub original_decls-stays :
      (decls : List (Option Decl)) (r : Bool × List (Option Decl))
      → each_slot (original_decl overrides) decls ≡ some r
      → contains (names_of r.1) k ≡ stays (names_of decls)
  original_decls-stays decls r h =
      each_slot-stays (original_decl overrides) decl_names original_decl-stays decls r h
