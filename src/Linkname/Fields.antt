-- ===== src/Linkname/Fields.antt =====
-- How strings.Fields and the split of an external name read a directive that is written out.
use gopherjs.Base.{
  ℕ, zero, suc, ◌+◌, ◌≤◌, Bool, true, false, not, ◌&&◌, none, some, List, [], ◌∷◌, ◌++◌, ◌≡◌,
  nat_eq_iff, ℕ_eq, length, drop, contains, length-drop, take-append, drop-append_add, arith, refl,
  ap, sym, ◌∙◌,
}
use mathlib.Core.List.{append_assoc, append-nil}
use gopherjs.Base.Bytes.{Bytes, index_byte, index_byte-first}
use gopherjs.Linkname.Directive.{
  is_space, emit, fields_from, last_index_byte, after_slash, split_at, split_from, Name, split_name,
  symbol_string,
}

abbrev pub spaceless : Bytes → Bool
spaceless [] = true
spaceless (c ∷ s) = not (is_space c) && spaceless s

spaceless-head : (c : ℕ) (s : Bytes) → spaceless (c ∷ s) ≡ true → is_space c ≡ false
spaceless-head c s h = ground arith

spaceless-tail : (c : ℕ) (s : Bytes) → spaceless (c ∷ s) ≡ true → spaceless s ≡ true
spaceless-tail c s h = ground arith

pub fields_from-word :
    (word u rest : Bytes)
    → spaceless u ≡ true
    → fields_from word (u ++ b' ' ∷ rest) ≡ emit (word ++ u) (fields_from [] rest)
unfolding fields_from
fields_from-word word [] rest h = ap (λ w. emit w (fields_from [] rest)) (sym (append-nil word))
fields_from-word word (c ∷ u) rest h = rw (spaceless-head c u h) (
    rw (fields_from-word (word ++ c ∷ []) u rest (spaceless-tail c u h))
      (ap (λ w. emit w (fields_from [] rest)) (append_assoc word (c ∷ []) u)))

pub fields_from-last :
    (word u : Bytes) → spaceless u ≡ true → fields_from word u ≡ emit (word ++ u) []
unfolding fields_from
fields_from-last word [] h = ap (λ w. emit w []) (sym (append-nil word))
fields_from-last word (c ∷ u) h = rw (spaceless-head c u h) (
    rw (fields_from-last (word ++ c ∷ []) u (spaceless-tail c u h))
      (ap (λ w. emit w []) (append_assoc word (c ∷ []) u)))

last_index_byte-absent : (ys : Bytes) (c : ℕ) → contains ys c ≡ false → last_index_byte ys c ≡ none
unfolding last_index_byte
last_index_byte-absent [] c h = refl
last_index_byte-absent (y ∷ ys) c h =
    ground (arith, last_index_byte-absent ys c, nat_eq_iff y c, nat_eq_iff c y)

pub last_index_byte-append :
    (xs ys : Bytes) (c : ℕ)
    → contains ys c ≡ false
    → last_index_byte (xs ++ ys) c ≡ last_index_byte xs c
unfolding last_index_byte
last_index_byte-append [] ys c h = last_index_byte-absent ys c h
last_index_byte-append (x ∷ xs) ys c h = rw (last_index_byte-append xs ys c h)

pub after_slash-le : (xs : Bytes) (c : ℕ) → after_slash (last_index_byte xs c) ≤ length xs
unfolding last_index_byte
after_slash-le [] c = omega arith
after_slash-le (x ∷ xs) c = ground (arith, after_slash-le xs c)

drop-append_le :
    {A : Type 0} (n : ℕ) (xs ys : List A) → n ≤ length xs → drop n (xs ++ ys) ≡ drop n xs ++ ys
drop-append_le zero xs ys h = refl
drop-append_le (suc n) [] ys h = absurd (omega arith)
drop-append_le (suc n) (x ∷ xs) ys h = drop-append_le n xs ys (omega arith)

-- An external name whose package path has no dot behind its last slash, and whose symbol has no
-- slash, splits into the two.
pub split_name-symbol_string :
    (n : Name)
    → contains (drop (after_slash (last_index_byte n.pkg_path b'/')) n.pkg_path) b'.' ≡ false
    → contains n.name b'/' ≡ false
    → split_name (symbol_string n) ≡ n
unfolding split_name symbol_string
split_name-symbol_string n no_dot no_slash =
    let path = n.pkg_path in
    let o = after_slash (last_index_byte path b'/') in
    let o_le = after_slash-le path b'/' in
    let last : last_index_byte (path ++ b'.' ∷ n.name) b'/' ≡ last_index_byte path b'/' =
      last_index_byte-append path (b'.' ∷ n.name) b'/' (ground arith) in
    let rest : drop o (path ++ b'.' ∷ n.name) ≡ drop o path ++ b'.' ∷ n.name =
      drop-append_le o path (b'.' ∷ n.name) o_le in
    let at : index_byte (drop o path ++ b'.' ∷ n.name) b'.' ≡ some (length (drop o path)) =
      index_byte-first (drop o path) n.name b'.' no_dot in
    let size : o + length (drop o path) ≡ length path = rw (length-drop o path) (omega arith) in
    ap (λ k. split_from (path ++ b'.' ∷ n.name) (after_slash k)) last
    ∙ ap (λ r. split_at (path ++ b'.' ∷ n.name) o (index_byte r b'.')) rest
    ∙ ap (split_at (path ++ b'.' ∷ n.name) o) at
    ∙ rw size (rw (take-append path (b'.' ∷ n.name), drop-append_add 1 path (b'.' ∷ n.name)) refl)
