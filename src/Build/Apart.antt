-- ===== src/Build/Apart.antt =====
-- `augmentOriginalFile` on one key that is overridden.
use gopherjs.Base.{
  Bool, true, false, ◌||◌, Option, none, some, List, [], ◌∷◌, ◌++◌, ◌≡◌, refl, arith, Bool-cases,
  inl, inr, contains, subst, ◌==◌, ap, ℕ_eq, sym, some_inj, ◌∙◌,
}
use gopherjs.Base.Assoc.{lookup}
use gopherjs.Base.Bytes.{Bytes}
use gopherjs.Base.BytesEq.{Bytes_eq, bytes_equal_iff}
use gopherjs.Base.Options.{◌>>=◌}
use gopherjs.Build.Syntax.{FuncDecl, File}
use gopherjs.Build.Directives.{func_key, func_receiver_key, qualified}
use gopherjs.Build.Overlay.{Overrides}
use gopherjs.Build.Original.{
  is_overridden, has_signature, with_signature, rename_kept, blank, augment_original_file,
}
use gopherjs.Build.Declared.{functions_of}
use gopherjs.Build.Pruned.{AllHollow}
use gopherjs.Build.Keys.{func_key_inj}
use gopherjs.Build.Fates.{Fate, untouched, purged, replaced, amended, Fates}
use gopherjs.Build.Augmenting.{augment_original_file-names, augment_original_file-Fates}
use gopherjs.Build.Overriding.{is_key, has_function, declares, signature_at, info_signature}

-- The key is the one under which a function is kept when it is renamed.
abbrev pub keeps_as : Bytes → List FuncDecl → Bool
keeps_as k [] = false
keeps_as k (d ∷ ds) = is_key k (func_key (rename_kept true d)) || keeps_as k ds

abbrev pub AllPlain : List FuncDecl → Type 0
AllPlain [] = Unit {0}
AllPlain (d ∷ ds) = (contains d.name b'.' ≡ false) × AllPlain ds

-- A signature is put under the key of its function, whose name has no dot, and none under k.
pub record Signed (k j : Bytes) (signature : Option FuncDecl) : Type 0 where
  pub own : (over : FuncDecl) → signature ≡ some over → func_key over ≡ some j
  pub plain : (over : FuncDecl) → signature ≡ some over → contains over.name b'.' ≡ false
  pub apart : (over : FuncDecl) → signature ≡ some over → (k == j) ≡ false

pub Signed-none : (k j : Bytes) → Signed k j none
Signed-none k j = record { own = λ over e. cc; plain = λ over e. cc; apart = λ over e. cc }

pub Signed-some :
    (k j : Bytes) (d : FuncDecl)
    → func_key d ≡ some j
    → contains d.name b'.' ≡ false
    → (k == j) ≡ false
    → Signed k j (some d)
Signed-some k j d key plain apart = record {
  own = λ over e. ap func_key (sym (some_inj e)) ∙ key;
  plain = λ over e. ap (λ (f : FuncDecl). contains f.name b'.') (sym (some_inj e)) ∙ plain;
  apart = λ over e. apart;
}

module _ (overrides : Overrides) (k : Bytes) (over : is_overridden overrides k ≡ true)
    (signed : (j : Bytes) → Signed k j (signature_at overrides j)) where
  untouched-key :
      (j : Bytes) (o : Option Bytes) → o ≡ some j → lookup j overrides ≡ none → is_key k o ≡ false
  untouched-key j o key free = rw key (elim (Bool-cases (k == j)) [
    | inl same ↦ absurd (clash ((bytes_equal_iff k j).0 same))
    | inr apart ↦ apart
  ])
    where
      clash : k ≡ j → ⊥
      clash e = ground (arith, free, over, e)

  -- The key of a function does not change with the signature of its override.
  with_signature-key :
      (keep : Bool) (d : FuncDecl) (j : Bytes) (signature : Option FuncDecl)
      → Signed k j signature
      → contains d.name b'.' ≡ false
      → func_key d ≡ some j
      → func_key (with_signature signature (rename_kept keep d)) ≡ func_key (rename_kept keep d)
  unfolding func_key func_receiver_key
  with_signature-key keep d j none s plain key = refl
  with_signature-key true d j (some o) s plain key =
      ap (λ r. r >>= (λ recv_key. some (qualified recv_key (rename_kept true d).name)))
        (func_key_inj o d j (s.plain o refl) plain (s.own o refl) key).0
  with_signature-key false d j (some o) s plain key =
      ap (λ r. r >>= (λ recv_key. some (qualified recv_key d.name)))
        (func_key_inj o d j (s.plain o refl) plain (s.own o refl) key).0

  amended-key :
      (d : FuncDecl) (j : Bytes) (keep : Bool) (signature : Option FuncDecl)
      → Signed k j signature
      → contains d.name b'.' ≡ false
      → func_key d ≡ some j
      → (keep || has_signature signature) ≡ true
      → is_key k (func_key (rename_kept true d)) ≡ false
      → is_key k (func_key (with_signature signature (rename_kept keep d))) ≡ false
  amended-key d j true signature s plain key used apart =
      rw (with_signature-key true d j signature s plain key) apart
  amended-key d j false none s plain key used apart = cc
  amended-key d j false (some o) s plain key used apart =
      rw (with_signature-key false d j (some o) s plain key) (rw key (s.apart o refl))

  Fate-key :
      (d : FuncDecl) (ds : List FuncDecl)
      → Fate overrides d ds
      → contains d.name b'.' ≡ false
      → is_key k (func_key (rename_kept true d)) ≡ false
      → has_function k ds ≡ false
  Fate-key d ds (untouched j r key free recv stays) plain apart =
      rw (untouched-key j (func_key d) key free) refl
  Fate-key d ds (purged j r key free recv gone) plain apart = refl
  Fate-key d ds (replaced j info key found unused) plain apart = refl
  Fate-key d ds (amended j info key found used) plain apart =
      let s : Signed k j info.override_signature =
        subst (Signed k j) (ap info_signature found) (signed j) in
      rw (amended-key d j info.keep_original info.override_signature s plain key used apart) refl

  has_function-append :
      (ds es : List FuncDecl)
      → has_function k ds ≡ false
      → has_function k es ≡ false
      → has_function k (ds ++ es) ≡ false
  has_function-append [] es h h' = h'
  has_function-append (d ∷ ds) es h h' = ground (arith, has_function-append ds es)

  Fates-key :
      (fs ds : List FuncDecl)
      → Fates overrides fs ds
      → AllPlain fs
      → keeps_as k fs ≡ false
      → has_function k ds ≡ false
  Fates-key [] ds fates plain apart = rw fates refl
  Fates-key (d ∷ fs) ds (here, later, fate, fates, e) plain apart =
      let (own, others) =
        or_false (is_key k (func_key (rename_kept true d))) (keeps_as k fs) apart in
      rw e (
        has_function-append here later (Fate-key d here fate plain.0 own)
          (Fates-key fs later fates plain.1 others))
    where
      or_false : (a b : Bool) → (a || b) ≡ false → (a ≡ false) × (b ≡ false)
      or_false false b e' = (refl, e')
      or_false true b e' = cc

  -- An original file declares no overridden key once it has been augmented.
  pub augment_original_file-apart :
      (file done : File)
      → AllHollow file.decls
      → AllPlain (functions_of file.decls)
      → (k == blank) ≡ false
      → keeps_as k (functions_of file.decls) ≡ false
      → augment_original_file overrides file ≡ some done
      → declares k done.decls ≡ false
  augment_original_file-apart file done hollow plain named kept ends =
      let names = augment_original_file-names overrides file done hollow ends k named in
      let fates = augment_original_file-Fates overrides file done hollow ends in
      let functions =
        Fates-key (functions_of file.decls) (functions_of done.decls) fates plain kept in
      ground (arith, names, functions, over)
