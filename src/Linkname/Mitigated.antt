-- ===== src/Linkname/Mitigated.antt =====
-- compiler/linkname/linkname.go: the tables of directives that are known and passed over. A key of
-- a table is the text of a symbol or of a package path, letter by letter.
use gopherjs.Base.{Bool, ◌||◌, List, [], ◌∷◌, contains}
use gopherjs.Base.Bytes.{Bytes}
use gopherjs.Base.BytesEq.{Bytes_eq}
use gopherjs.Linkname.Directive.{Name, symbol_string}

abbrev pub var_links : List Bytes
var_links =
    (b'r' ∷ b'e' ∷ b'f' ∷ b'l' ∷ b'e' ∷ b'c' ∷ b't' ∷ b'.' ∷ b'z' ∷ b'e' ∷ b'r' ∷ b'o' ∷ b'V' ∷ b'a'
      ∷ b'l' ∷ [])
    ∷ (b'm' ∷ b'a' ∷ b't' ∷ b'h' ∷ b'/' ∷ b'b' ∷ b'i' ∷ b't' ∷ b's' ∷ b'.' ∷ b'o' ∷ b'v' ∷ b'e'
        ∷ b'r' ∷ b'f' ∷ b'l' ∷ b'o' ∷ b'w' ∷ b'E' ∷ b'r' ∷ b'r' ∷ b'o' ∷ b'r' ∷ [])
    ∷ (b'm' ∷ b'a' ∷ b't' ∷ b'h' ∷ b'/' ∷ b'b' ∷ b'i' ∷ b't' ∷ b's' ∷ b'.' ∷ b'd' ∷ b'i' ∷ b'v'
        ∷ b'i' ∷ b'd' ∷ b'e' ∷ b'E' ∷ b'r' ∷ b'r' ∷ b'o' ∷ b'r' ∷ [])
    ∷ []

abbrev pub insert_packages : List Bytes
insert_packages =
    (b'r' ∷ b'u' ∷ b'n' ∷ b't' ∷ b'i' ∷ b'm' ∷ b'e' ∷ [])
    ∷ (b'i' ∷ b'n' ∷ b't' ∷ b'e' ∷ b'r' ∷ b'n' ∷ b'a' ∷ b'l' ∷ b'/' ∷ b'f' ∷ b'u' ∷ b'z' ∷ b'z'
        ∷ [])
    ∷ []

abbrev pub insert_links : List Bytes
insert_links =
    (b'i' ∷ b'n' ∷ b't' ∷ b'e' ∷ b'r' ∷ b'n' ∷ b'a' ∷ b'l' ∷ b'/' ∷ b'b' ∷ b'y' ∷ b't' ∷ b'e' ∷ b'a'
      ∷ b'l' ∷ b'g' ∷ b'.' ∷ b'r' ∷ b'u' ∷ b'n' ∷ b't' ∷ b'i' ∷ b'm' ∷ b'e' ∷ b'_' ∷ b'c' ∷ b'm'
      ∷ b'p' ∷ b's' ∷ b't' ∷ b'r' ∷ b'i' ∷ b'n' ∷ b'g' ∷ [])
    ∷ (b'o' ∷ b's' ∷ b'.' ∷ b'n' ∷ b'e' ∷ b't' ∷ b'_' ∷ b'n' ∷ b'e' ∷ b'w' ∷ b'U' ∷ b'n' ∷ b'i'
        ∷ b'x' ∷ b'F' ∷ b'i' ∷ b'l' ∷ b'e' ∷ [])
    ∷ []

unfoldable pub is_mitigated_var_linkname : Name → Bool
unfolding symbol_string
is_mitigated_var_linkname sym = contains var_links (symbol_string sym)

unfoldable pub is_mitigated_insert_linkname : Name → Bool
unfolding symbol_string
is_mitigated_insert_linkname sym =
    contains insert_packages sym.pkg_path || contains insert_links (symbol_string sym)
