-- ===== src/Build/Kept.antt =====
-- The part of `parseAndAugment` behind the parsing, on a key that no overlay declares.
use gopherjs.Base.{
  true, false, none, some, List, [], ◌∷◌, ◌++◌, ◌≡◌, refl, ◌∙◌, ap, arith, Bool-cases, Option-cases,
  inl, inr, contains, some_inj, sym, ◌==◌, ℕ_eq, or_right,
}
use gopherjs.Base.Assoc.{lookup}
use gopherjs.Base.Bytes.{Bytes}
use gopherjs.Base.BytesEq.{Bytes_eq, bytes_equal_iff}
use gopherjs.Build.Syntax.{FuncDecl, File}
use gopherjs.Build.Directives.{func_key, func_receiver_key}
use gopherjs.Build.Overlay.{OverrideInfo, Overrides}
use gopherjs.Build.Original.{is_purged, blank, augment_original_file}
use gopherjs.Build.Declared.{names_of, functions_of}
use gopherjs.Build.Pruned.{AllHollow}
use gopherjs.Build.Fates.{Fate, untouched, purged, replaced, amended, Fates}
use gopherjs.Build.Augmenting.{augment_original_file-names, augment_original_file-Fates}
use gopherjs.Build.Overriding.{is_key, has_function, declares}

-- No function with the key has a receiver of which the predicate does not hold.
abbrev pub Receivers : (Bytes → Type 0) → Bytes → List FuncDecl → Type 0
Receivers Fine k [] = Unit {0}
Receivers Fine k (d ∷ ds) =
    ((r : Bytes) → func_key d ≡ some k → func_receiver_key d ≡ some r → Fine r)
    × Receivers Fine k ds

module _ (overrides : Overrides) (k : Bytes) (free : lookup k overrides ≡ none) where
  abbrev Unpurged : Bytes → Type 0
  Unpurged r = is_purged (lookup r overrides) ≡ false

  same_key : (d : FuncDecl) → is_key k (func_key d) ≡ true → func_key d ≡ some k
  same_key d h = elim (Option-cases (func_key d)) [
    | inl e ↦ absurd (nothing (rw e at h))
    | inr (j, e) ↦ e ∙ ap some (sym ((bytes_equal_iff k j).0 (rw e at h)))
  ]
    where
      nothing : false ≡ true → ⊥
      nothing x = cc

  no_override :
      (d : FuncDecl) (j : Bytes) (info : OverrideInfo)
      → func_key d ≡ some k
      → func_key d ≡ some j
      → lookup j overrides ≡ some info
      → ⊥
  no_override d j info key key' found =
      let e : k ≡ j = some_inj (sym key ∙ key') in
      clash (sym free ∙ ap (λ i. lookup i overrides) e ∙ found)
    where
      clash : none ≡ some info → ⊥
      clash x = cc

  Fate-kept :
      (d : FuncDecl) (ds : List FuncDecl)
      → Fate overrides d ds
      → ((r : Bytes) → func_key d ≡ some k → func_receiver_key d ≡ some r → Unpurged r)
      → is_key k (func_key d) ≡ true
      → has_function k ds ≡ true
  Fate-kept d ds (untouched j r key none_found recv stays) fine h = rw h refl
  Fate-kept d ds (purged j r key none_found recv gone) fine h =
      absurd (clash (sym (fine r (same_key d h) recv) ∙ gone))
    where
      clash : false ≡ true → ⊥
      clash x = cc
  Fate-kept d ds (replaced j info key found unused) fine h =
      absurd (no_override d j info (same_key d h) key found)
  Fate-kept d ds (amended j info key found used) fine h =
      absurd (no_override d j info (same_key d h) key found)

  has_function-left :
      (ds es : List FuncDecl) → has_function k ds ≡ true → has_function k (ds ++ es) ≡ true
  has_function-left [] es h = cc
  has_function-left (d ∷ ds) es h = ground (arith, has_function-left ds es)

  has_function-right :
      (ds es : List FuncDecl) → has_function k es ≡ true → has_function k (ds ++ es) ≡ true
  has_function-right [] es h = h
  has_function-right (d ∷ ds) es h = ground (arith, has_function-right ds es)

  Fates-kept :
      (fs ds : List FuncDecl)
      → Fates overrides fs ds
      → Receivers Unpurged k fs
      → has_function k fs ≡ true
      → has_function k ds ≡ true
  Fates-kept [] ds fates fine h = cc
  Fates-kept (d ∷ fs) ds (here, later, fate, fates, e) fine h =
      elim (Bool-cases (is_key k (func_key d))) [
        | inl own ↦ rw e (has_function-left here later (Fate-kept d here fate fine.0 own))
        | inr other ↦
            rw e (has_function-right here later (Fates-kept fs later fates fine.1 (rw other at h)))
      ]

  pub augment_original_file-kept :
      (file done : File)
      → AllHollow file.decls
      → Receivers Unpurged k (functions_of file.decls)
      → (k == blank) ≡ false
      → augment_original_file overrides file ≡ some done
      → declares k file.decls ≡ true
      → declares k done.decls ≡ true
  augment_original_file-kept file done hollow fine named ends there =
      let names = augment_original_file-names overrides file done hollow ends k named in
      let fates = augment_original_file-Fates overrides file done hollow ends in
      let functions = Fates-kept (functions_of file.decls) (functions_of done.decls) fates fine in
      elim (Bool-cases (contains (names_of file.decls) k)) [
        | inl e ↦ ground (arith, names, e, free)
        | inr e ↦ or_right (contains (names_of done.decls) k) (functions (rw e at there))
      ]

-- What an original file has to be like for a key to stay.
pub record KeepsKey (Fine : Bytes → Type 0) (k : Bytes) (file : File) : Type 0 where
  pub hollow : AllHollow file.decls
  pub receivers : Receivers Fine k (functions_of file.decls)

abbrev pub AllKeepKey : (Bytes → Type 0) → Bytes → List File → Type 0
AllKeepKey Fine k [] = Unit {0}
AllKeepKey Fine k (file ∷ files) = KeepsKey Fine k file × AllKeepKey Fine k files
