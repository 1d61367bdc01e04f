-- ===== src/Build/Examples.antt =====
-- Tests and concrete instances for the merge of overlays: a package `time` whose overlay replaces
-- Now, gives Sleep another signature and purges the type Timer.
use gopherjs.Base.{
  ℕ, true, false, not, ◌&&◌, Option, none, some, List, [], ◌∷◌, ◌≡◌, ◌↔◌, map, refl, nat_eq,
  if◌then◌else◌, ◌==◌, contains, some_inj, sym, ap, take, drop, subst,
}
use gopherjs.Base.Bytes.{Bytes, codes}
use gopherjs.Base.BytesEq.{Bytes_eq, bytes_equal}
use gopherjs.Base.Options.{present}
use gopherjs.Build.Syntax.{
  Code, star_expr, ident, Signature, FuncDecl, ImportSpec, TypeSpec, ValueSpec, import_spec,
  type_spec, value_spec, import_token, type_token, var_token, func_decl, gen_decl, File,
}
use gopherjs.Build.Directives.{
  has_directive_prefix, directive_action, func_key, func_receiver_key, overrides_signature,
}
use gopherjs.Build.Squeeze.{squeeze, squeeze-present}
use gopherjs.Build.Imports.{is_only_imports, prune_imports, import_name}
use gopherjs.Build.Overlay.{Overrides, plain_info}
use gopherjs.Build.Original.{is_overridden, blank, augment_original_file, augment}
use gopherjs.Build.Declared.{names_of, functions_of}
use gopherjs.Build.Pruned.{AllHollow}
use gopherjs.Build.Fates.{Fates}
use gopherjs.Build.Augmenting.{augment_original_file-names, augment_original_file-Fates}
use gopherjs.Build.Overlaid.{any_declares}
use gopherjs.Build.Apart.{Signed, Signed-some}
use gopherjs.Build.Merged.{IsOriginal, augment-apart}
use gopherjs.Build.Kept.{Receivers}
use gopherjs.Build.Keeping.{augment-kept}
use gopherjs.Build.Keys.{func_key_inj}
use gopherjs.Build.Unused.{distinct_names}
use gopherjs.Build.Blanking.{blank_cells}
use gopherjs.Build.Pruning.{Without, is_needless, is_unused, prune_imports-Without}
use gopherjs.Build.Parsed.{IsParsed}
use gopherjs.Build.Total.{augment-total}
use gopherjs.Build.Matching.{IsDirective, directive_action_iff}

abbrev nothing : Code
nothing = record { selectors = []; groups = [] }

abbrev calls : Bytes → Code
calls package_name = record {
  selectors = record { base = package_name; bound = false } ∷ [];
  groups = [];
}

abbrev plain_signature : Signature
plain_signature = record { recv = []; code = nothing }

abbrev function : Bytes → FuncDecl
function name = record { doc = []; name = name; signature = plain_signature; body = nothing }

abbrev signing : FuncDecl
signing = record (function (codes "Sleep")) {
  doc = (codes "//gopherjs:override-signature" ∷ []) ∷ [];
  signature = record { recv = []; code = calls (codes "js") };
}

abbrev timer : TypeSpec
timer = record { doc = []; name = codes "Timer"; code = nothing; comment = [] }

abbrev values : ValueSpec
values = record {
  doc = [];
  names = some (codes "zone") ∷ some (codes "Now2") ∷ [];
  type_code = nothing;
  values = some nothing ∷ some (calls (codes "sync")) ∷ [];
  comment = [];
}

abbrev spec_at : ℕ → ImportSpec
spec_at i = record {
  groups = [];
  name = none;
  path = if nat_eq i 0 then codes "sync" else if nat_eq i 1 then codes "unsafe" else codes "a/fmt";
}

abbrev overlay : File
overlay = record {
  doc = [];
  decls =
      some (func_decl (function (codes "Now")))
      ∷ some (func_decl signing)
      ∷ some (
          gen_decl (record {
            doc = (codes "//gopherjs:purge" ∷ []) ∷ [];
            token = type_token;
            specs = some (type_spec timer) ∷ [];
          }))
      ∷ [];
  imports = [];
  comments = [];
  cell = spec_at;
}

-- The imports sync, unsafe and fmt, of which sync is used and unsafe serves a directive.
abbrev original : File
original = record {
  doc = [];
  decls =
      some (
        gen_decl (record {
          doc = [];
          token = import_token;
          specs = some (import_spec 0) ∷ some (import_spec 1) ∷ some (import_spec 2) ∷ [];
        }))
      ∷ some (
          func_decl (record (function (codes "Now")) {
            doc = (codes "//go:linkname Now runtime.now" ∷ []) ∷ [];
          }))
      ∷ some (func_decl (function (codes "Sleep")))
      ∷ some (
          func_decl (record (function (codes "Stop")) {
            doc = (codes "//go:linkname now2 runtime.now" ∷ []) ∷ [];
            signature = record { recv = star_expr (ident (codes "Month")) ∷ []; code = nothing };
          }))
      ∷ some
          (gen_decl (record { doc = []; token = var_token; specs = some (value_spec values) ∷ [] }))
      ∷ [];
  imports = some 0 ∷ some 1 ∷ some 2 ∷ [];
  comments = (codes "//go:linkname now2 runtime.now" ∷ []) ∷ [];
  cell = spec_at;
}

abbrev or_none : Option (List File) → List File
or_none none = []
or_none (some files) = files

abbrev merged : List File
unfolding augment bytes_equal
merged = or_none (augment (codes "time") (overlay ∷ []) (original ∷ []))

declared_once :
    map (λ (f : File). map (λ (d : FuncDecl). d.name) (functions_of f.decls)) merged
    ≡ (codes "Now" ∷ []) ∷ (codes "Sleep" ∷ codes "Stop" ∷ []) ∷ []
unfolding augment bytes_equal merged
declared_once = refl

-- The imports that stay: sync, which `zone` and `Now2` use, under the path of nosync.
imports_left : map (λ (f : File). present f.imports) merged ≡ [] ∷ (0 ∷ 1 ∷ []) ∷ []
unfolding augment bytes_equal merged present
imports_left = refl

overlay_hollow : AllHollow overlay.decls
overlay_hollow = (λ h. cc, (λ h. cc, (λ h. cc, tt)))

original_hollow : AllHollow original.decls
original_hollow = (λ h. refl, (λ h. cc, (λ h. cc, (λ h. cc, (λ h. cc, tt)))))

-- `Now` is kept under no other name.
now_original : IsOriginal (codes "Now") original
unfolding func_key bytes_equal
now_original = record { hollow = original_hollow; plain = (refl, (refl, (refl, tt))); kept = refl }

now_unsigned :
    (k : Bytes)
    → func_key (function (codes "Now")) ≡ some k
    → overrides_signature (function (codes "Now")) ≡ true
    → Signed (codes "Now") k (some (function (codes "Now")))
unfolding overrides_signature
now_unsigned k key signed = cc

sleep_apart :
    (k : Bytes)
    → func_key signing ≡ some k
    → overrides_signature signing ≡ true
    → Signed (codes "Now") k (some signing)
unfolding func_key bytes_equal
sleep_apart k key signed =
    Signed-some (codes "Now") k signing key refl
      (ap (λ j. bytes_equal (codes "Now") j) (sym (some_inj key)))

merged_lem : augment (codes "time") (overlay ∷ []) (original ∷ []) ≡ some merged
unfolding augment bytes_equal merged
merged_lem = refl

now_merged : any_declares (codes "Now") (take 1 merged) ≡ true
unfolding augment bytes_equal merged func_key
now_merged = refl

differs : (codes "init" == codes "Now") ≡ false
unfolding bytes_equal
differs = refl

named : (codes "Now" == blank) ≡ false
unfolding bytes_equal
named = refl

augment-apart_example : any_declares (codes "Now") (drop 1 merged) ≡ false
augment-apart_example =
    augment-apart (codes "time") (overlay ∷ []) (original ∷ []) merged (codes "Now")
      (overlay_hollow, tt) (now_original, tt) ((now_unsigned, (sleep_apart, tt)), tt) differs named
      merged_lem now_merged

overlay-IsParsed : IsParsed overlay
unfolding func_key
overlay-IsParsed = record {
  ids = [];
  present_imports = refl;
  distinct = refl;
  readable = ((codes "Now", refl), ((codes "Sleep", refl), ((tt, tt), tt)));
}

spec_names_distinct : distinct_names spec_at [] (0 ∷ 1 ∷ 2 ∷ []) ≡ true
unfolding import_name bytes_equal
spec_names_distinct = refl

original-IsParsed : IsParsed original
unfolding func_key
original-IsParsed = record {
  ids = 0 ∷ 1 ∷ 2 ∷ [];
  present_imports = refl;
  distinct = spec_names_distinct;
  readable = (
    (tt, (tt, (tt, tt))),
    (
      (codes "Now", refl),
      (
        (codes "Sleep", refl),
        ((codes "Month.Stop", refl), (((codes "zone" ∷ codes "Now2" ∷ [], refl), tt), tt)),
      ),
    ),
  );
}

augment-total_example :
    (out : List File) × (augment (codes "time") (overlay ∷ []) (original ∷ []) ≡ some out)
augment-total_example =
    augment-total (codes "time") (overlay ∷ []) (original ∷ []) (overlay-IsParsed, tt)
      (original-IsParsed, tt)

walked :
    (is_only_imports original
      && not (has_directive_prefix (codes "//go:linkname ") original.comments))
    ≡ false
unfolding is_only_imports
walked = refl

prune_imports-Without_example :
    (done : File) × (prune_imports original ≡ some done)
    × Without (is_needless original) (0 ∷ 1 ∷ 2 ∷ []) original done
    × (done.cell
        ≡ blank_cells original.comments spec_at (is_unused original) (0 ∷ 1 ∷ 2 ∷ []) spec_at)
prune_imports-Without_example =
    prune_imports-Without (0 ∷ 1 ∷ 2 ∷ []) original refl spec_names_distinct walked

abbrev overrides : Overrides
overrides =
    (codes "Now", plain_info)
    ∷ (codes "Sleep", record plain_info { override_signature = some signing })
    ∷ []

abbrev or_empty : Option File → File
or_empty none = overlay
or_empty (some f) = f

abbrev augmented : File
unfolding augment_original_file bytes_equal
augmented = or_empty (augment_original_file overrides original)

augmented_lem : augment_original_file overrides original ≡ some augmented
unfolding augment_original_file bytes_equal augmented
augmented_lem = refl

zone_named : (codes "zone" == blank) ≡ false
unfolding bytes_equal
zone_named = refl

augment_original_file-names_example : contains (names_of augmented.decls) (codes "zone") ≡ (
    contains (names_of original.decls) (codes "zone")
    && not (is_overridden overrides (codes "zone")))
augment_original_file-names_example =
    augment_original_file-names overrides original augmented original_hollow augmented_lem
      (codes "zone") zone_named

augment_original_file-Fates_example :
    Fates overrides (functions_of original.decls) (functions_of augmented.decls)
augment_original_file-Fates_example =
    augment_original_file-Fates overrides original augmented original_hollow augmented_lem

squeeze-present_example :
    squeeze (none ∷ some (codes "Now") ∷ none ∷ [])
    ≡ map some (present (none ∷ some (codes "Now") ∷ none ∷ []))
squeeze-present_example = squeeze-present (none ∷ some (codes "Now") ∷ none ∷ [])

abbrev purge_text : Bytes
purge_text = codes "//gopherjs:purge because"

directive_action_iff_example :
    (directive_action purge_text ≡ some (codes "purge")) ↔ IsDirective purge_text (codes "purge")
directive_action_iff_example = directive_action_iff purge_text (codes "purge")

abbrev stop : FuncDecl
stop = record (function (codes "Stop")) {
  signature = record { recv = star_expr (ident (codes "Timer")) ∷ []; code = nothing };
}

abbrev stop_of_value : FuncDecl
stop_of_value = record (function (codes "Stop")) {
  signature = record { recv = ident (codes "Timer") ∷ []; code = nothing };
}

stop_key : func_key stop ≡ some (codes "Timer.Stop")
unfolding func_key
stop_key = refl

stop_of_value_key : func_key stop_of_value ≡ some (codes "Timer.Stop")
unfolding func_key
stop_of_value_key = refl

func_key_inj_example :
    (func_receiver_key stop ≡ func_receiver_key stop_of_value) × (stop.name ≡ stop_of_value.name)
func_key_inj_example =
    func_key_inj stop stop_of_value (codes "Timer.Stop") refl refl stop_key stop_of_value_key

-- The key of a method whose receiver no overlay declares.
abbrev month_stop : Bytes
month_stop = codes "Month.Stop"

abbrev Absent : Bytes → Type 0
Absent r = any_declares r (overlay ∷ []) ≡ false

absent : Absent (codes "Month")
unfolding func_key bytes_equal
absent = refl

month-Absent : Absent month_stop
unfolding func_key bytes_equal
month-Absent = refl

month_there : any_declares month_stop (original ∷ []) ≡ true
unfolding func_key bytes_equal present
month_there = refl

month_named : (month_stop == blank) ≡ false
unfolding bytes_equal
month_named = refl

month-Receivers : Receivers Absent month_stop (functions_of original.decls)
unfolding func_key
month-Receivers =
    (λ r key recv. cc, (λ r key recv. cc, (λ r key recv. subst Absent (some_inj recv) absent, tt)))

augment-kept_example : any_declares month_stop (drop 1 merged) ≡ true
augment-kept_example =
    augment-kept (codes "time") (overlay ∷ []) (original ∷ []) merged month_stop
      (record { hollow = original_hollow; receivers = month-Receivers }, tt) month_named
      month-Absent month_there merged_lem
