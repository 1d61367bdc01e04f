-- ===== src/Natives/Finding.antt =====
-- A search for the first place of a text, as `indexOf` of JavaScript is documented.
use mathlib.Core.Option
use gopherjs.Base.{
  ℕ, zero, suc, ◌<◌, ◌≡◌, true, false, Option, none, some, [], ◌∷◌, drop, if◌then◌else◌, refl, ap,
  ◌∙◌, arith, inl, inr, Bool-cases, subst,
}
use gopherjs.Base.Bytes.{Bytes}
use gopherjs.Natives.Counting.{starts, IsIndex}

unfoldable pub find : Bytes → Bytes → Option ℕ
find [] sep = if starts sep [] then some 0 else none
find (x ∷ s) sep = if starts sep (x ∷ s) then some 0 else Option.map suc (find s sep)

drop-nil : (i : ℕ) → ◌≡◌ {A = Bytes} (drop i []) []
drop-nil zero = refl
drop-nil (suc i) = refl

module _ (sep : Bytes) where
  -- What the search says of a text: where `sep` starts first, or that it starts nowhere.
  abbrev Says : Bytes → Option ℕ → Type 0
  Says s none = (i : ℕ) → starts sep (drop i s) ≡ false
  Says s (some pos) =
      (starts sep (drop pos s) ≡ true) × ((i : ℕ) → i < pos → starts sep (drop i s) ≡ false)

  before_later :
      (x : ℕ) (s : Bytes) (pos i : ℕ)
      → starts sep (x ∷ s) ≡ false
      → ((i : ℕ) → i < pos → starts sep (drop i s) ≡ false)
      → i < suc pos
      → starts sep (drop i (x ∷ s)) ≡ false
  before_later x s pos zero here before h = here
  before_later x s pos (suc i) here before h = before i (omega arith)

  nowhere :
      (x : ℕ) (s : Bytes)
      → starts sep (x ∷ s) ≡ false
      → ((i : ℕ) → starts sep (drop i s) ≡ false)
      → (i : ℕ) → starts sep (drop i (x ∷ s)) ≡ false
  nowhere x s here says zero = here
  nowhere x s here says (suc i) = says i

  Says-later :
      (x : ℕ) (s : Bytes) (o : Option ℕ)
      → starts sep (x ∷ s) ≡ false
      → Says s o
      → Says (x ∷ s) (Option.map suc o)
  Says-later x s none here says = nowhere x s here says
  Says-later x s (some pos) here (at_pos, before) =
      (at_pos, λ i h. before_later x s pos i here before h)

  find-Says : (s : Bytes) → Says s (find s sep)
  unfolding find
  find-Says [] = elim (Bool-cases (starts sep [])) [
    | inl here ↦ rw here (here, λ i h. absurd (omega arith))
    | inr absent ↦ rw absent (λ i. ap (starts sep) (drop-nil i) ∙ absent)
  ]
  find-Says (x ∷ s) = elim (Bool-cases (starts sep (x ∷ s))) [
    | inl here ↦ rw here (here, λ i h. absurd (omega arith))
    | inr absent ↦ rw absent (Says-later x s (find s sep) absent (find-Says s))
  ]

  pub find-IsIndex : IsIndex find sep
  find-IsIndex = record {
    at_found = λ s pos e. (subst (Says s) e (find-Says s)).0;
    before = λ s pos e. (subst (Says s) e (find-Says s)).1;
    missing = λ s e. subst (Says s) e (find-Says s);
  }
