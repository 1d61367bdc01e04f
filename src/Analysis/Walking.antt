-- ===== src/Analysis/Walking.antt =====
-- One step of the walks of break.go and sideeffect.go, with any `Visit`.
use gopherjs.Base.{Bool, true, false, ◌≡◌, inl, inr, Bool-cases, refl, ap, ◌∙◌, arith}
use gopherjs.Analysis.Search.{
  Node, Tree, Forest, node, nil, cons, Visit, found, skip, descend, walk, walk_all,
}

module _ (visit : Node → Visit) where
  walk-true : (t : Tree) → walk visit t true ≡ true
  unfolding walk
  walk-true (node k children) = refl

  walk_all-true : (ts : Forest) → walk_all visit ts true ≡ true
  unfolding walk_all
  walk_all-true nil = refl
  walk_all-true (cons t ts) = ap (walk_all visit ts) (walk-true t) ∙ walk_all-true ts

  abbrev pub by_visit : Visit → Forest → Bool
  by_visit found children = true
  by_visit skip children = false
  by_visit descend children = walk_all visit children false

  pub walk-by_visit :
      (k : Node) (children : Forest)
      → walk visit (node k children) false ≡ by_visit (visit k) children
  unfolding walk
  walk-by_visit k children = ground arith

  pub walk-found :
      (k : Node) (children : Forest) → visit k ≡ found → walk visit (node k children) false ≡ true
  walk-found k children e = walk-by_visit k children ∙ ap (λ v. by_visit v children) e

  pub walk-first :
      (t : Tree) (ts : Forest) → walk visit t false ≡ true → walk_all visit (cons t ts) false ≡ true
  unfolding walk_all
  walk-first t ts h = ap (walk_all visit ts) h ∙ walk_all-true ts

  pub walk-rest :
      (t : Tree) (ts : Forest)
      → walk_all visit ts false ≡ true
      → walk_all visit (cons t ts) false ≡ true
  unfolding walk_all
  walk-rest t ts h = elim (Bool-cases (walk visit t false)) [
    | inl here ↦ ap (walk_all visit ts) here ∙ walk_all-true ts
    | inr not_here ↦ ap (walk_all visit ts) not_here ∙ h
  ]
