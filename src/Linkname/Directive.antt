-- ===== src/Linkname/Directive.antt =====
-- compiler/linkname/linkname.go: reading one comment. Texts are bytes, and `strings.Fields` splits
-- at the ASCII spaces.
use gopherjs.Base.{
  ℕ, suc, ◌+◌, Bool, true, false, ◌||◌, ◌&&◌, Option, none, some, List, [], ◌∷◌, ◌++◌, ◌≡◌, ◌↔◌,
  Comparable, ◌==◌, if◌then◌else◌, nat_eq, leb, take, drop, Result, ok, err, arith,
}
use gopherjs.Base.Bytes.{Bytes, index_byte}
use gopherjs.Base.BytesEq.{Bytes_eq, bytes_equal, bytes_equal_iff}

-- compiler/internal/symbol/symbol.go
pub record Name : Type 0 where
  pub pkg_path : Bytes
  pub name : Bytes

abbrev pub name_equal : Name → Name → Bool
name_equal a b = bytes_equal a.pkg_path b.pkg_path && bytes_equal a.name b.name

pub name_equal_iff : (a b : Name) → (name_equal a b ≡ true) ↔ (a ≡ b)
name_equal_iff a b =
    ground (arith, bytes_equal_iff a.pkg_path b.pkg_path, bytes_equal_iff a.name b.name)

instance abbrev pub Name_eq : Comparable Name
Name_eq = record { equal = name_equal; equal_iff = name_equal_iff }

-- `Name.String`
unfoldable pub symbol_string : Name → Bytes
symbol_string n = n.pkg_path ++ b'.' ∷ n.name

pub record GoLinkname : Type 0 where
  pub implementation : Name
  pub reference : Name

pub data LinkError : Type 0 where
  usage no_unsafe not_found not_a_function has_body : LinkError

abbrev pub is_space : ℕ → Bool
is_space c = nat_eq c b' ' || leb 9 c && leb c 13

abbrev pub emit : Bytes → List Bytes → List Bytes
emit [] rest = rest
emit (c ∷ word) rest = (c ∷ word) ∷ rest

-- strings.Fields, with the word that has been begun
unfoldable pub fields_from : Bytes → Bytes → List Bytes
fields_from word [] = emit word []
fields_from word (c ∷ s) =
    let rest = fields_from [] s in
    let longer = fields_from (word ++ c ∷ []) s in if is_space c then emit word rest else longer

unfoldable pub fields : Bytes → List Bytes
unfolding fields_from
fields s = fields_from [] s

-- strings.HasPrefix
unfoldable pub has_prefix : Bytes → Bytes → Bool
has_prefix text [] = true
has_prefix [] (b ∷ prefix) = false
has_prefix (a ∷ text) (b ∷ prefix) = nat_eq a b && has_prefix text prefix

-- strings.LastIndexByte
unfoldable pub last_index_byte : Bytes → ℕ → Option ℕ
last_index_byte [] c = none
last_index_byte (x ∷ xs) c = elim (last_index_byte xs c) [
  | some i ↦ some (suc i)
  | none ↦ if nat_eq x c then some 0 else none
]

-- "//go:linkname "
abbrev pub marker : Bytes
marker =
    b'/' ∷ b'/' ∷ b'g' ∷ b'o' ∷ b':' ∷ b'l' ∷ b'i' ∷ b'n' ∷ b'k' ∷ b'n' ∷ b'a' ∷ b'm' ∷ b'e' ∷ b' '
    ∷ []

abbrev pub after_slash : Option ℕ → ℕ
after_slash none = 0
after_slash (some pos) = pos + 1

-- the split of `extName` at the first dot behind the last slash
abbrev pub split_at : Bytes → ℕ → Option ℕ → Name
split_at ext_name path_offset none = record { pkg_path = []; name = ext_name }
split_at ext_name path_offset (some idx) = record {
  pkg_path = take (path_offset + idx) ext_name;
  name = drop (path_offset + idx + 1) ext_name;
}

abbrev pub split_from : Bytes → ℕ → Name
split_from ext_name path_offset =
    split_at ext_name path_offset (index_byte (drop path_offset ext_name) b'.')

unfoldable pub split_name : Bytes → Name
unfolding index_byte last_index_byte
split_name ext_name = split_from ext_name (after_slash (last_index_byte ext_name b'/'))

abbrev pub link_fields : Bytes → List Bytes → Result LinkError (Option GoLinkname)
link_fields pkg_path (directive ∷ local_name ∷ []) = ok none
link_fields pkg_path (directive ∷ local_name ∷ ext_name ∷ []) =
    if local_name == ext_name
    then ok none
    else ok (
        some (record {
          implementation = split_name ext_name;
          reference = record { pkg_path = pkg_path; name = local_name };
        }))
link_fields pkg_path _ = err usage

unfoldable pub read_linkname_from_comment : Bytes → Bytes → Result LinkError (Option GoLinkname)
read_linkname_from_comment pkg_path text =
    if has_prefix text marker then link_fields pkg_path (fields text) else ok none
