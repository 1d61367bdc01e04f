-- ===== src/Build/Gathering.antt =====
-- What a slice with nil entries holds, gathered entry by entry, and the loops over such slices.
use mathlib.Core.List.{append_assoc}
use gopherjs.Base.{Bool, Option, none, some, List, [], ◌∷◌, ◌++◌, map, ◌≡◌, refl, ◌∙◌, ap}
use gopherjs.Base.Options.{present}
use gopherjs.Build.Squeeze.{squeeze, squeeze-present}
use gopherjs.Build.Finalize.{visit_slots}

module _ {ℓ κ} {A : Type ℓ} {B : Type κ} (held : A → List B) where
  abbrev pub gather : List A → List B
  gather [] = []
  gather (x ∷ xs) = held x ++ gather xs

  pub gather-append : (xs ys : List A) → gather (xs ++ ys) ≡ gather xs ++ gather ys
  gather-append [] ys = refl
  gather-append (x ∷ xs) ys =
      rw (gather-append xs ys) (rw (append_assoc (held x) (gather xs) (gather ys)) refl)

  pub gather-visit_slots :
      (f : A → Bool × A) (keeps : (x : A) → held (f x).1 ≡ held x) (xs : List A)
      → gather (visit_slots f xs).1 ≡ gather xs
  unfolding visit_slots
  gather-visit_slots f keeps [] = refl
  gather-visit_slots f keeps (x ∷ xs) = rw (keeps x) (rw (gather-visit_slots f keeps xs) refl)

  pub gather-map :
      (f : A → A) (keeps : (x : A) → held (f x) ≡ held x) (xs : List A)
      → gather (map f xs) ≡ gather xs
  gather-map f keeps [] = refl
  gather-map f keeps (x ∷ xs) = rw (keeps x) (rw (gather-map f keeps xs) refl)

module _ {ℓ κ} {A : Type ℓ} {B : Type κ} (held : Option A → List B) (empty : held none ≡ []) where
  gather-present : (xs : List (Option A)) → gather held (map some (present xs)) ≡ gather held xs
  unfolding present
  gather-present [] = refl
  gather-present (none ∷ xs) = rw empty (gather-present xs)
  gather-present (some x ∷ xs) = rw (gather-present xs)

  pub gather-squeeze : (xs : List (Option A)) → gather held (squeeze xs) ≡ gather held xs
  gather-squeeze xs = ap (gather held) (squeeze-present xs) ∙ gather-present xs

pub present-some {ℓ} : {A : Type ℓ} (xs : List A) → present (map some xs) ≡ xs
unfolding present
present-some [] = refl
present-some (x ∷ xs) = rw (present-some xs)

pub present-squeeze {ℓ} : {A : Type ℓ} (xs : List (Option A)) → present (squeeze xs) ≡ present xs
present-squeeze xs = ap present (squeeze-present xs) ∙ present-some (present xs)

pub append_nil {ℓ} : {A : Type ℓ} (xs ys : List A) → xs ++ ys ≡ [] → (xs ≡ []) × (ys ≡ [])
append_nil [] ys h = (refl, h)
append_nil (x ∷ xs) ys h = cc
