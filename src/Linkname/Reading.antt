-- ===== src/Linkname/Reading.antt =====
-- A directive that is written out is read back.
use gopherjs.Base.{
  List, true, false, some, [], ◌∷◌, ◌++◌, ◌≡◌, ◌≢◌, ok, contains, drop, ℕ_eq, arith, refl, ap, ◌∙◌,
}
use gopherjs.Base.Bytes.{Bytes}
use gopherjs.Base.BytesEq.{Bytes_eq, bytes_equal, bytes_equal_iff}
use gopherjs.Linkname.Directive.{
  Name, symbol_string, marker, emit, fields, has_prefix, last_index_byte, after_slash,
  read_linkname_from_comment,
}
use gopherjs.Linkname.Fields.{
  spaceless, fields_from-word, fields_from-last, split_name-symbol_string,
}

has_prefix-marker : (rest : Bytes) → has_prefix (marker ++ rest) marker ≡ true
unfolding has_prefix
has_prefix-marker rest = refl

abbrev directive_word : Bytes
directive_word =
    b'/' ∷ b'/' ∷ b'g' ∷ b'o' ∷ b':' ∷ b'l' ∷ b'i' ∷ b'n' ∷ b'k' ∷ b'n' ∷ b'a' ∷ b'm' ∷ b'e' ∷ []

emit-filled : (w : Bytes) → w ≢ [] → (rest : List Bytes) → emit w rest ≡ w ∷ rest
emit-filled [] h rest = absurd (h refl)
emit-filled (c ∷ w) h rest = refl

fields-directive :
    (local ext : Bytes)
    → local ≢ []
    → ext ≢ []
    → spaceless local ≡ true
    → spaceless ext ≡ true
    → fields (marker ++ local ++ b' ' ∷ ext) ≡ directive_word ∷ local ∷ ext ∷ []
unfolding fields
fields-directive local ext some_local some_ext local_spaceless ext_spaceless =
    fields_from-word [] directive_word (local ++ b' ' ∷ ext) refl
    ∙ ap (λ ws. directive_word ∷ ws)
        (fields_from-word [] local ext local_spaceless
          ∙ emit-filled local some_local (fields ext)
          ∙ ap (λ ws. local ∷ ws)
              (fields_from-last [] ext ext_spaceless ∙ emit-filled ext some_ext []))

append-filled : (path rest : Bytes) → path ++ b'.' ∷ rest ≢ []
append-filled [] rest h = cc
append-filled (c ∷ path) rest h = cc

symbol_string-filled : (n : Name) → symbol_string n ≢ []
unfolding symbol_string
symbol_string-filled n h = append-filled n.pkg_path n.name h

-- The directive that links a local name to a symbol is read as the link between the two, when the
-- local name is not empty and is not the symbol's text, neither holds a space, the package path has
-- no dot behind its last slash and the symbol's name has no slash.
pub read_linkname-directive :
    (pkg_path local : Bytes) (n : Name)
    → local ≢ []
    → local ≢ symbol_string n
    → spaceless local ≡ true
    → spaceless (symbol_string n) ≡ true
    → contains (drop (after_slash (last_index_byte n.pkg_path b'/')) n.pkg_path) b'.' ≡ false
    → contains n.name b'/' ≡ false
    → read_linkname_from_comment pkg_path (marker ++ local ++ b' ' ∷ symbol_string n)
      ≡ ok (
          some (record {
            implementation = n;
            reference = record { pkg_path = pkg_path; name = local };
          }))
unfolding read_linkname_from_comment
read_linkname-directive pkg_path local n filled other local_spaceless ext_spaceless no_dot
      no_slash =
    let ext = symbol_string n in
    let words =
      fields-directive local ext filled (symbol_string-filled n) local_spaceless ext_spaceless in
    let split = split_name-symbol_string n no_dot no_slash in
    let differs : bytes_equal local ext ≡ false = ground (arith, bytes_equal_iff local ext) in
    rw (has_prefix-marker (local ++ b' ' ∷ ext)) (rw words (rw differs (rw split refl)))
