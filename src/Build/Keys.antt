-- ===== src/Build/Keys.antt =====
-- The keys that `FuncKey` gives to functions and methods.
use gopherjs.Base.{
  ℕ, false, some, [], ◌∷◌, ◌++◌, ◌≡◌, refl, ap, arith, contains, ℕ_eq, contains-append, some_inj,
  ◌∙◌, sym,
}
use gopherjs.Base.Bytes.{Bytes}
use gopherjs.Base.Options.{>>=-eq-some}
use gopherjs.Build.Syntax.{FuncDecl}
use gopherjs.Build.Directives.{qualified, func_key, func_receiver_key}

tail_eq : (b c : ℕ) (xs ys : Bytes) → b ∷ xs ≡ c ∷ ys → (b ≡ c) × (xs ≡ ys)
tail_eq b c xs ys h = (cc, cc)

-- A text with a dot in it is none without.
dot_inside : (n r' n' : Bytes) → contains n b'.' ≡ false → n ≡ r' ++ b'.' ∷ n' → ⊥
dot_inside n r' n' plain h =
    ground (arith, ap (λ t. contains t b'.') h, contains-append r' (b'.' ∷ n') b'.')

dotted_inj :
    (r r' n n' : Bytes)
    → contains n b'.' ≡ false
    → contains n' b'.' ≡ false
    → r ++ b'.' ∷ n ≡ r' ++ b'.' ∷ n'
    → (r ≡ r') × (n ≡ n')
dotted_inj [] [] n n' plain plain' h = (refl, (tail_eq b'.' b'.' n n' h).1)
dotted_inj [] (c ∷ r') n n' plain plain' h =
    absurd (dot_inside n r' n' plain (tail_eq b'.' c n (r' ++ b'.' ∷ n') h).1)
dotted_inj (c ∷ r) [] n n' plain plain' h =
    absurd (dot_inside n' r n plain' (sym (tail_eq c b'.' (r ++ b'.' ∷ n) n' h).1))
dotted_inj (c ∷ r) (c' ∷ r') n n' plain plain' h =
    let (first, rest) = tail_eq c c' (r ++ b'.' ∷ n) (r' ++ b'.' ∷ n') h in
    let (same, name) = dotted_inj r r' n n' plain plain' rest in (rw (first, same), name)

pub qualified_inj :
    (r r' n n' : Bytes)
    → contains n b'.' ≡ false
    → contains n' b'.' ≡ false
    → qualified r n ≡ qualified r' n'
    → (r ≡ r') × (n ≡ n')
qualified_inj [] [] n n' plain plain' h = (refl, h)
qualified_inj [] (c ∷ r') n n' plain plain' h = absurd (dot_inside n (c ∷ r') n' plain h)
qualified_inj (c ∷ r) [] n n' plain plain' h = absurd (dot_inside n' (c ∷ r) n plain' (sym h))
qualified_inj (c ∷ r) (c' ∷ r') n n' plain plain' h =
    dotted_inj (c ∷ r) (c' ∷ r') n n' plain plain' h

-- Two functions whose names have no dot and whose keys are the same have the same receiver key and
-- the same name.
pub func_key_inj :
    (d d' : FuncDecl) (k : Bytes)
    → contains d.name b'.' ≡ false
    → contains d'.name b'.' ≡ false
    → func_key d ≡ some k
    → func_key d' ≡ some k
    → (func_receiver_key d ≡ func_receiver_key d') × (d.name ≡ d'.name)
unfolding func_key
func_key_inj d d' k plain plain' h h' =
    let (r, recv, e) = >>=-eq-some (func_receiver_key d) _ h in
    let (r', recv', e') = >>=-eq-some (func_receiver_key d') _ h' in
    let (same, name) =
      qualified_inj r r' d.name d'.name plain plain' (some_inj e ∙ sym (some_inj e')) in
    (recv ∙ ap some same ∙ sym recv', name)
