-- ===== src/Linkname/Symbol.antt =====
-- compiler/internal/symbol/symbol.go: the names of symbols. Of a types.Object the model keeps its
-- package's path, its receiver's named type, and its name.
use gopherjs.Base.{
  ℕ, suc, ◌+◌, ◌-◌, Bool, true, false, not, ◌&&◌, Option, none, some, [], ◌∷◌, ◌++◌, ◌≡◌,
  if◌then◌else◌, ltb, nat_eq, nat_eq_iff, ℕ_eq, length, take, drop, get_elem?, contains, refl,
  arith, ap, ◌∙◌, contains-append, length-append, take-append, drop-append_add,
}
use gopherjs.Base.Bytes.{Bytes, index_byte, index_byte-absent, index_byte-first}
use gopherjs.Linkname.Directive.{Name}

pub data Receiver : Type 0 where
  no_receiver : Receiver
  pointer named : Bytes → Receiver

pub record Object : Type 0 where
  pub pkg : Option Bytes
  pub receiver : Receiver
  pub name : Bytes

abbrev pub package_path : Option Bytes → Bytes
package_path none = b'_' ∷ []
package_path (some path) = path

abbrev pub method_name : Receiver → Bytes → Bytes
method_name no_receiver name = name
method_name (pointer t) name = (b'(' ∷ b'*' ∷ t ++ b')' ∷ []) ++ b'.' ∷ name
method_name (named t) name = t ++ b'.' ∷ name

-- `New`
unfoldable pub new : Object → Name
new o = record { pkg_path = package_path o.pkg; name = method_name o.receiver o.name }

-- recv[i] == c
abbrev byte_is : ℕ → Option ℕ → Bool
byte_is c none = false
byte_is c (some b) = nat_eq b c

abbrev is_at : Bytes → ℕ → ℕ → Bool
is_at recv i c = byte_is c (get_elem? recv i)

-- the part of `IsMethod` that takes the parentheses off
unfoldable pub strip : Bytes → Bytes
strip recv =
    let size = length recv in
    if ltb 2 size && is_at recv 0 b'(' && is_at recv (size - 1) b')'
    then take (size - 2) (drop 1 recv)
    else recv

abbrev pub method_at : Bytes → Option ℕ → Option (Bytes × Bytes)
method_at name none = none
method_at name (some pos) = some (strip (take pos name), drop (pos + 1) name)

-- `IsMethod`, with `none` for a false third result
unfoldable pub is_method : Name → Option (Bytes × Bytes)
is_method n = method_at n.name (index_byte n.name b'.')

-- The receiver and the method of an object, when it has a receiver.
abbrev pub method_of : Receiver → Bytes → Option (Bytes × Bytes)
method_of no_receiver name = none
method_of (pointer t) name = some (b'*' ∷ t, name)
method_of (named t) name = some (t, name)

abbrev pub plain : Bytes → Bool
plain t = not (contains t b'.') && not (contains t b'(')

abbrev pub receiver_plain : Receiver → Bytes → Bool
receiver_plain no_receiver name = plain name
receiver_plain (pointer t) name = plain t
receiver_plain (named t) name = plain t

get_elem?-last : (xs : Bytes) (c : ℕ) → get_elem? (xs ++ c ∷ []) (length xs) ≡ some c
get_elem?-last [] c = refl
get_elem?-last (x ∷ xs) c = get_elem?-last xs c

strip-pointer : (t : Bytes) → strip (b'(' ∷ b'*' ∷ t ++ b')' ∷ []) ≡ b'*' ∷ t
unfolding strip
strip-pointer t =
    let inner = b'*' ∷ t in
    let size : length (b'(' ∷ b'*' ∷ t ++ b')' ∷ []) ≡ length t + 3 =
      rw (length-append t (b')' ∷ [])) (omega arith) in
    let closed : is_at (b'(' ∷ (inner ++ b')' ∷ [])) (length t + 3 - 1) b')' ≡ true =
      ap (λ k. is_at (b'(' ∷ (inner ++ b')' ∷ [])) k b')') {x = length t + 3 - 1}
        {y = suc (length inner)} (omega arith)
      ∙ ap (byte_is b')') (get_elem?-last inner b')') in
    let kept : take (length t + 3 - 2) (inner ++ b')' ∷ []) ≡ inner =
      ap (λ k. take k (inner ++ b')' ∷ [])) {x = length t + 3 - 2} {y = length inner} (omega arith)
      ∙ take-append inner (b')' ∷ []) in
    rw size (rw closed (rw kept (ground arith)))

strip-plain : (t : Bytes) → contains t b'(' ≡ false → strip t ≡ t
unfolding strip
strip-plain [] h = refl
strip-plain (c ∷ t) h = ground (arith, nat_eq_iff c 40, nat_eq_iff 40 c)

method_at-split :
    (recv name : Bytes)
    → contains recv b'.' ≡ false
    → method_at (recv ++ b'.' ∷ name) (index_byte (recv ++ b'.' ∷ name) b'.')
      ≡ some (strip recv, name)
method_at-split recv name h =
    ap (method_at (recv ++ b'.' ∷ name)) (index_byte-first recv name b'.' h)
    ∙ rw (take-append recv (b'.' ∷ name), drop-append_add 1 recv (b'.' ∷ name)) refl

is_method-receiver :
    (r : Receiver) (name : Bytes)
    → receiver_plain r name ≡ true
    → method_at (method_name r name) (index_byte (method_name r name) b'.') ≡ method_of r name
is_method-receiver no_receiver name h =
    ap (method_at name) (index_byte-absent name b'.' (ground arith))
is_method-receiver (pointer t) name h =
    method_at-split (b'(' ∷ b'*' ∷ t ++ b')' ∷ []) name
      (ground (arith, contains-append t (b')' ∷ []) b'.'))
    ∙ rw (strip-pointer t) refl
is_method-receiver (named t) name h =
    method_at-split t name (ground arith) ∙ rw (strip-plain t (ground arith)) refl

-- `IsMethod` takes the name that `New` makes for an object apart again: it finds the receiver, with
-- a star when it is a pointer, and the method, or that the object is none, when the receiver's type
-- (the object's name when it has no receiver) has no dot and no parenthesis.
pub is_method-new :
    (o : Object)
    → receiver_plain o.receiver o.name ≡ true
    → is_method (new o) ≡ method_of o.receiver o.name
unfolding is_method new
is_method-new o h = is_method-receiver o.receiver o.name h
