-- ===== src/Build/Matching.antt =====
-- `directiveMatcher` against a description of the directives.
use gopherjs.Base.{
  ℕ, true, false, ◌||◌, none, some, [], ◌∷◌, ◌++◌, ◌≡◌, ◌≢◌, ◌↔◌, ◌⊎◌, inl, inr, refl, ◌∙◌, ap,
  arith, Bool-cases, some_inj, nat_eq, nat_eq_iff, subst,
}
use gopherjs.Base.Bytes.{Bytes}
use gopherjs.Base.Options.{>>=-eq-some}
use gopherjs.Build.Directives.{
  is_action_char, action_of, directive_prefix, strip_prefix, one_or_more, directive_action,
}

abbrev pub AllActionChars : Bytes → Type 0
AllActionChars [] = Unit {0}
AllActionChars (c ∷ s) = (is_action_char c ≡ true) × AllActionChars s

-- The action ends before the text.
abbrev pub EndsBefore : Bytes → Type 0
EndsBefore [] = Unit {0}
EndsBefore (c ∷ s) = is_action_char c ≡ false

-- A line or a block comment that begins with `gopherjs:` and the action, which is not empty and as
-- long as it can be.
pub record IsDirective (text action : Bytes) : Type 0 where
  pub mark : ℕ
  pub rest : Bytes
  pub written : text ≡ b'/' ∷ mark ∷ (directive_prefix ++ (action ++ rest))
  pub comment : (mark ≡ b'/') ⊎ (mark ≡ b'*')
  pub some_action : action ≢ []
  pub chars : AllActionChars action
  pub ends : EndsBefore rest

strip_prefix-append : (prefix rest : Bytes) → strip_prefix prefix (prefix ++ rest) ≡ some rest
unfolding strip_prefix
strip_prefix-append [] rest = refl
strip_prefix-append (b ∷ prefix) rest =
    rw ((nat_eq_iff b b).1 refl) (strip_prefix-append prefix rest)

strip_prefix-some :
    (prefix text rest : Bytes) → strip_prefix prefix text ≡ some rest → text ≡ prefix ++ rest
unfolding strip_prefix
strip_prefix-some [] text rest h = some_inj h
strip_prefix-some (b ∷ prefix) [] rest h = cc
strip_prefix-some (b ∷ prefix) (c ∷ text) rest h = elim (Bool-cases (nat_eq b c)) [
  | inl e ↦
      rw ((nat_eq_iff b c).0 e) (ap (λ t. c ∷ t) (strip_prefix-some prefix text rest (rw e at h)))
  | inr e ↦ absurd (impossible (rw e at h))
]
  where
    impossible : none ≡ some rest → ⊥
    impossible x = cc

action_of-splits :
    (text : Bytes)
    → (rest : Bytes) × (text ≡ action_of text ++ rest)
      × AllActionChars (action_of text)
      × EndsBefore rest
unfolding action_of
action_of-splits [] = ([], refl, tt, tt)
action_of-splits (c ∷ text) = elim (Bool-cases (is_action_char c)) [
  | inl e ↦
      let (rest, split, chars, ends) = action_of-splits text in
      (rest, rw e (ap (λ t. c ∷ t) split), rw e (e, chars), ends)
  | inr e ↦ (c ∷ text, rw e refl, rw e tt, e)
]

action_of-append :
    (action rest : Bytes)
    → AllActionChars action
    → EndsBefore rest
    → action_of (action ++ rest) ≡ action
unfolding action_of
action_of-append [] [] chars ends = refl
action_of-append [] (c ∷ rest) chars ends = rw ends refl
action_of-append (c ∷ action) rest chars ends =
    rw chars.0 (ap (λ t. c ∷ t) (action_of-append action rest chars.1 ends))

one_or_more-some :
    (found action : Bytes) → one_or_more found ≡ some action → (found ≡ action) × (action ≢ [])
one_or_more-some [] action h = cc
one_or_more-some (c ∷ found) action h = (some_inj h, λ e. cc)

mark_iff :
    (mark : ℕ) → ((nat_eq mark b'/' || nat_eq mark b'*') ≡ true) ↔ ((mark ≡ b'/') ⊎ (mark ≡ b'*'))
mark_iff mark = (
  λ h. elim (Bool-cases (nat_eq mark b'/')) [
    | inl e ↦ inl ((nat_eq_iff mark b'/').0 e)
    | inr e ↦ inr ((nat_eq_iff mark b'*').0 (rw e at h))
  ],
  λ c. elim c [ inl e ↦ rw ((nat_eq_iff mark b'/').1 e) refl | inr e ↦ ground (arith, e) ],
)

matched :
    (slash mark : ℕ) (text action : Bytes)
    → directive_action (slash ∷ mark ∷ text) ≡ some action
    → IsDirective (slash ∷ mark ∷ text) action
unfolding directive_action
matched slash mark text action h = elim (Bool-cases (nat_eq slash b'/')) [
  | inr other ↦ absurd (impossible (rw other at h))
  | inl first ↦ elim (Bool-cases (nat_eq mark b'/' || nat_eq mark b'*')) [
    | inr other ↦ absurd (impossible (rw (first, other) at h))
    | inl comment ↦
        let (behind, stripped, e) =
          >>=-eq-some (strip_prefix directive_prefix text) _ (rw (first, comment) at h) in
        let (rest, split, chars, ends) = action_of-splits behind in
        let (same, nonempty) = one_or_more-some (action_of behind) action e in
        record {
          mark = mark;
          rest = rest;
          written = rw ((nat_eq_iff slash b'/').0 first) (
              ap (λ t. b'/' ∷ mark ∷ t)
                (strip_prefix-some directive_prefix text behind stripped
                  ∙ ap (λ t. directive_prefix ++ t) (split ∙ ap (λ a. a ++ rest) same)));
          comment = (mark_iff mark).0 comment;
          some_action = nonempty;
          chars = subst AllActionChars same chars;
          ends = ends;
        }
  ]
]
  where
    impossible : none ≡ some action → ⊥
    impossible x = cc

one_or_more-nonempty : (action : Bytes) → action ≢ [] → one_or_more action ≡ some action
one_or_more-nonempty [] h = absurd (h refl)
one_or_more-nonempty (c ∷ action) h = refl

accepted :
    (mark : ℕ) (action rest : Bytes)
    → (nat_eq mark b'/' || nat_eq mark b'*') ≡ true
    → action ≢ []
    → AllActionChars action
    → EndsBefore rest
    → directive_action (b'/' ∷ mark ∷ (directive_prefix ++ (action ++ rest))) ≡ some action
unfolding directive_action
accepted mark action rest comment nonempty chars ends =
    rw comment (rw (action_of-append action rest chars ends) (one_or_more-nonempty action nonempty))

-- The directive of a comment: a text has an action exactly when it begins with `//` or `/*`, then
-- `gopherjs:`, then the action, which is not empty, has letters, digits, `_` and `-` alone, and is
-- followed by none of these.
pub directive_action_iff :
    (text action : Bytes) → (directive_action text ≡ some action) ↔ IsDirective text action
unfolding directive_action
directive_action_iff text action = (read text, given)
  where
    read : (t : Bytes) → directive_action t ≡ some action → IsDirective t action
    read [] h = cc
    read (c ∷ []) h = cc
    read (slash ∷ mark ∷ t) h = matched slash mark t action h

    given : IsDirective text action → directive_action text ≡ some action
    given d =
        ap directive_action d.written
        ∙ accepted d.mark action d.rest ((mark_iff d.mark).1 d.comment) d.some_action d.chars d.ends
