-- ===== src/Base/Options.antt =====
-- Calls that may panic, and nothing else, as options: `none` is the panic.
use mathlib.Core.Path.{◌≡◌, refl, ap, ◌∙◌}
use mathlib.Core.Bool.{Bool, true, false}
use mathlib.Core.Option.{Option, none, some}
use mathlib.Core.List.{List, [], ◌∷◌, ◌++◌}

infixl 10 ◌>>=◌
abbrev pub ◌>>=◌ {ℓ κ} : {A : Type ℓ} {B : Type κ} → Option A → (A → Option B) → Option B
none >>= f = none
some a >>= f = f a

pub >>=-eq-some {ℓ κ} :
    {A : Type ℓ} {B : Type κ} (m : Option A) (f : A → Option B) {b : B}
    → (m >>= f) ≡ some b
    → (a : A) × (m ≡ some a) × (f a ≡ some b)
>>=-eq-some none f h = cc
>>=-eq-some (some a) f h = (a, refl, h)

-- The call ends without a panic.
abbrev pub Ends {ℓ} : {A : Type ℓ} → Option A → Type ℓ
Ends {A = A} m = (r : A) × (m ≡ some r)

pub >>=-Ends {ℓ κ} :
    {A : Type ℓ} {B : Type κ} (m : Option A) (f : A → Option B)
    → Ends m
    → ((a : A) → m ≡ some a → Ends (f a))
    → Ends (m >>= f)
>>=-Ends m f (a, h) later = let (b, e) = later a h in (b, ap (λ n. n >>= f) h ∙ e)

-- The entries of a slice that are not nil.
module _ {ℓ} {A : Type ℓ} where
  unfoldable pub present : List (Option A) → List A
  present [] = []
  present (none ∷ xs) = present xs
  present (some x ∷ xs) = x ∷ present xs

  pub present-append : (xs ys : List (Option A)) → present (xs ++ ys) ≡ present xs ++ present ys
  unfolding present
  present-append [] ys = refl
  present-append (none ∷ xs) ys = present-append xs ys
  present-append (some x ∷ xs) ys = rw (present-append xs ys)

abbrev pub is_some {ℓ} : {A : Type ℓ} → Option A → Bool
is_some none = false
is_some (some a) = true
