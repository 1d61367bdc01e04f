-- ===== src/Analysis/Searching.antt =====
-- The walks of `HasBreak` and `HasSideEffect` find what they look for.
use gopherjs.Base.{
  ℕ, true, false, not, ◌&&◌, none, some, ◌≡◌, ◌↔◌, inl, inr, Bool-cases, refl, sym, ap, ◌∙◌, arith,
  subst,
}
use gopherjs.Base.Options.{is_some}
use gopherjs.Analysis.Search.{
  Token, break_token, continue_token, goto_token, fallthrough_token, arrow, other_token, Node,
  branch_stmt, for_stmt, range_stmt, switch_stmt, type_switch_stmt, select_stmt, call_expr,
  unary_expr, other_expr, other_node, GoType, signature, is_break, is_arrow, is_signature, Tree,
  Forest, node, nil, cons, break_visit, effect_visit, walk, walk_all, has_break, has_side_effect,
}
use gopherjs.Analysis.Walking.{by_visit, walk-by_visit, walk-found, walk-first, walk-rest}
use gopherjs.Analysis.Reaching.{
  is_breakable, is_expression, OwnBreak, OwnBreakAny, break_here, break_inside, break_first,
  break_rest, Effect, EffectAny, call_here, receive_here, effect_inside, effect_first, effect_rest,
}

is_arrow-eq : (t : Token) → is_arrow t ≡ true → t ≡ arrow
is_arrow-eq break_token h = absurd (cc h)
is_arrow-eq continue_token h = absurd (cc h)
is_arrow-eq goto_token h = absurd (cc h)
is_arrow-eq fallthrough_token h = absurd (cc h)
is_arrow-eq arrow h = refl
is_arrow-eq (other_token n) h = absurd (cc h)

is_signature-eq : (t : GoType) → is_signature t ≡ true → t ≡ signature
is_signature-eq t h = ground arith

-- the flag behind a node, from the flag behind its children
by_visit-OwnBreak :
    (k : Node) (children : Forest)
    → (walk_all break_visit children false ≡ true → OwnBreakAny children)
    → by_visit break_visit (break_visit k) children ≡ true
    → OwnBreak (node k children)
by_visit-OwnBreak (branch_stmt break_token none) children f h = break_here children
by_visit-OwnBreak (branch_stmt break_token (some l)) children f h =
    break_inside (branch_stmt break_token (some l)) children refl refl (f h)
by_visit-OwnBreak (branch_stmt continue_token l) children f h =
    break_inside (branch_stmt continue_token l) children refl refl (f h)
by_visit-OwnBreak (branch_stmt goto_token l) children f h =
    break_inside (branch_stmt goto_token l) children refl refl (f h)
by_visit-OwnBreak (branch_stmt fallthrough_token l) children f h =
    break_inside (branch_stmt fallthrough_token l) children refl refl (f h)
by_visit-OwnBreak (branch_stmt arrow l) children f h =
    break_inside (branch_stmt arrow l) children refl refl (f h)
by_visit-OwnBreak (branch_stmt (other_token n) l) children f h =
    break_inside (branch_stmt (other_token n) l) children refl refl (f h)
by_visit-OwnBreak for_stmt children f h = absurd (cc h)
by_visit-OwnBreak range_stmt children f h = absurd (cc h)
by_visit-OwnBreak switch_stmt children f h = absurd (cc h)
by_visit-OwnBreak type_switch_stmt children f h = absurd (cc h)
by_visit-OwnBreak select_stmt children f h = absurd (cc h)
by_visit-OwnBreak (call_expr fun) children f h = absurd (cc h)
by_visit-OwnBreak (unary_expr op) children f h = absurd (cc h)
by_visit-OwnBreak other_expr children f h = absurd (cc h)
by_visit-OwnBreak other_node children f h = break_inside other_node children refl refl (f h)

by_visit-below_own :
    (k : Node) (children : Forest)
    → is_breakable k ≡ false
    → is_expression k ≡ false
    → walk_all break_visit children false ≡ true
    → by_visit break_visit (break_visit k) children ≡ true
by_visit-below_own (branch_stmt t l) children b e h =
    elim (Bool-cases (is_break t && not (is_some l))) [
      | inl own ↦ rw own refl
      | inr other ↦ rw other h
    ]
by_visit-below_own for_stmt children b e h = absurd (cc b)
by_visit-below_own range_stmt children b e h = absurd (cc b)
by_visit-below_own switch_stmt children b e h = absurd (cc b)
by_visit-below_own type_switch_stmt children b e h = absurd (cc b)
by_visit-below_own select_stmt children b e h = absurd (cc b)
by_visit-below_own (call_expr fun) children b e h = absurd (cc e)
by_visit-below_own (unary_expr op) children b e h = absurd (cc e)
by_visit-below_own other_expr children b e h = absurd (cc e)
by_visit-below_own other_node children b e h = h

mutual
  unfolding walk_all

  walk-OwnBreak : (t : Tree) → walk break_visit t false ≡ true → OwnBreak t
  walk-OwnBreak (node k children) h =
      by_visit-OwnBreak k children (walk_all-OwnBreakAny children)
        (sym (walk-by_visit break_visit k children) ∙ h)

  walk_all-OwnBreakAny : (ts : Forest) → walk_all break_visit ts false ≡ true → OwnBreakAny ts
  walk_all-OwnBreakAny nil h = absurd (cc h)
  walk_all-OwnBreakAny (cons t ts) h = elim (Bool-cases (walk break_visit t false)) [
    | inl here ↦ break_first t ts (walk-OwnBreak t here)
    | inr not_here ↦
        break_rest t ts (walk_all-OwnBreakAny ts (sym (ap (walk_all break_visit ts) not_here) ∙ h))
  ]

mutual
  OwnBreak-walk : {t : Tree} → OwnBreak t → walk break_visit t false ≡ true
  OwnBreak-walk (break_here children) =
      walk-found break_visit (branch_stmt break_token none) children refl
  OwnBreak-walk (break_inside k children b e any) =
      walk-by_visit break_visit k children
      ∙ by_visit-below_own k children b e (OwnBreakAny-walk_all any)

  OwnBreakAny-walk_all : {ts : Forest} → OwnBreakAny ts → walk_all break_visit ts false ≡ true
  OwnBreakAny-walk_all (break_first t ts r) = walk-first break_visit t ts (OwnBreak-walk r)
  OwnBreakAny-walk_all (break_rest t ts r) = walk-rest break_visit t ts (OwnBreakAny-walk_all r)

module _ (type_of : ℕ → GoType) where
  by_visit-Effect :
      (k : Node) (children : Forest)
      → (walk_all (effect_visit type_of) children false ≡ true → EffectAny type_of children)
      → by_visit (effect_visit type_of) (effect_visit type_of k) children ≡ true
      → Effect type_of (node k children)
  by_visit-Effect (call_expr fun) children f h = elim (Bool-cases (is_signature (type_of fun))) [
    | inl yes_call ↦ call_here fun children (is_signature-eq (type_of fun) yes_call)
    | inr other ↦ effect_inside (call_expr fun) children (f (rw other at h))
  ]
  by_visit-Effect (unary_expr op) children f h = elim (Bool-cases (is_arrow op)) [
    | inl receive ↦
        subst (λ o. Effect type_of (node (unary_expr o) children)) (sym (is_arrow-eq op receive))
          (receive_here children)
    | inr other ↦ effect_inside (unary_expr op) children (f (rw other at h))
  ]
  by_visit-Effect for_stmt children f h = effect_inside for_stmt children (f h)
  by_visit-Effect range_stmt children f h = effect_inside range_stmt children (f h)
  by_visit-Effect switch_stmt children f h = effect_inside switch_stmt children (f h)
  by_visit-Effect type_switch_stmt children f h = effect_inside type_switch_stmt children (f h)
  by_visit-Effect select_stmt children f h = effect_inside select_stmt children (f h)
  by_visit-Effect (branch_stmt t l) children f h = effect_inside (branch_stmt t l) children (f h)
  by_visit-Effect other_expr children f h = effect_inside other_expr children (f h)
  by_visit-Effect other_node children f h = effect_inside other_node children (f h)

  by_visit-below :
      (k : Node) (children : Forest)
      → walk_all (effect_visit type_of) children false ≡ true
      → by_visit (effect_visit type_of) (effect_visit type_of k) children ≡ true
  by_visit-below (call_expr fun) children h = elim (Bool-cases (is_signature (type_of fun))) [
    | inl yes_call ↦ rw yes_call refl
    | inr other ↦ rw other h
  ]
  by_visit-below (unary_expr op) children h = elim (Bool-cases (is_arrow op)) [
    | inl receive ↦ rw receive refl
    | inr other ↦ rw other h
  ]
  by_visit-below for_stmt children h = h
  by_visit-below range_stmt children h = h
  by_visit-below switch_stmt children h = h
  by_visit-below type_switch_stmt children h = h
  by_visit-below select_stmt children h = h
  by_visit-below (branch_stmt t l) children h = h
  by_visit-below other_expr children h = h
  by_visit-below other_node children h = h

  mutual
    unfolding walk_all

    walk-Effect : (t : Tree) → walk (effect_visit type_of) t false ≡ true → Effect type_of t
    walk-Effect (node k children) h =
        by_visit-Effect k children (walk_all-EffectAny children)
          (sym (walk-by_visit (effect_visit type_of) k children) ∙ h)

    walk_all-EffectAny :
        (ts : Forest) → walk_all (effect_visit type_of) ts false ≡ true → EffectAny type_of ts
    walk_all-EffectAny nil h = absurd (cc h)
    walk_all-EffectAny (cons t ts) h = elim (Bool-cases (walk (effect_visit type_of) t false)) [
      | inl here ↦ effect_first t ts (walk-Effect t here)
      | inr not_here ↦
          effect_rest t ts
            (walk_all-EffectAny ts (sym (ap (walk_all (effect_visit type_of) ts) not_here) ∙ h))
    ]

  mutual
    Effect-walk : {t : Tree} → Effect type_of t → walk (effect_visit type_of) t false ≡ true
    Effect-walk (call_here fun children e) =
        walk-found (effect_visit type_of) (call_expr fun) children (rw e refl)
    Effect-walk (receive_here children) =
        walk-found (effect_visit type_of) (unary_expr arrow) children refl
    Effect-walk (effect_inside k children any) =
        walk-by_visit (effect_visit type_of) k children
        ∙ by_visit-below k children (EffectAny-walk_all any)

    EffectAny-walk_all :
        {ts : Forest} → EffectAny type_of ts → walk_all (effect_visit type_of) ts false ≡ true
    EffectAny-walk_all (effect_first t ts r) =
        walk-first (effect_visit type_of) t ts (Effect-walk r)
    EffectAny-walk_all (effect_rest t ts r) =
        walk-rest (effect_visit type_of) t ts (EffectAny-walk_all r)

-- `HasBreak` holds exactly when there is a `break` with no label that is neither in a for, range,
-- switch, type switch or select statement nor in an expression, and `HasSideEffect` exactly when
-- anywhere in the tree there is a receive or a call of what has a signature for its type.
pub has_break_iff :
    (t : Tree) (type_of : ℕ → GoType)
    → ((has_break t ≡ true) ↔ OwnBreak t) × ((has_side_effect t type_of ≡ true) ↔ Effect type_of t)
unfolding has_break has_side_effect
has_break_iff t type_of =
    ((walk-OwnBreak t, OwnBreak-walk), (walk-Effect type_of t, Effect-walk type_of))
