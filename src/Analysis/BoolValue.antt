-- ===== src/Analysis/BoolValue.antt =====
-- compiler/internal/analysis/bool.go. Of an expression the model keeps the operators that the code
-- looks at and, at each node, `info.Types[expr].Value`.
use gopherjs.Base.{ℕ, Bool, true, false, not, Option, none, some, ◌≡◌, refl, sym, ◌∙◌, ap, some_inj}

-- a constant.Value, as far as `Kind` is asked for `constant.Bool`
pub data Constant : Type 0 where
  bool : Bool → Constant
  other_kind : Constant

pub data BinaryOp : Type 0 where
  land lor other_binary : BinaryOp

pub data UnaryOp : Type 0 where
  not_op other_unary : UnaryOp

pub data Expr : Type 0 where
  binary : Option Constant → BinaryOp → Expr → Expr → Expr
  unary : Option Constant → UnaryOp → Expr → Expr
  paren : Option Constant → Expr → Expr
  leaf : Option Constant → ℕ → Expr

-- what `&&` and `||` make of the left value, when it is known, and of the right one
abbrev pub known_and : Option Bool → Option Bool → Option Bool
known_and none right = none
known_and (some false) right = some false
known_and (some true) right = right

abbrev pub known_or : Option Bool → Option Bool → Option Bool
known_or none right = none
known_or (some true) right = some true
known_or (some false) right = right

abbrev pub known_not : Option Bool → Option Bool
known_not none = none
known_not (some b) = some (not b)

abbrev pub or_by_form : Option Constant → Option Bool → Option Bool
or_by_form (some (bool b)) form = some b
or_by_form (some other_kind) form = form
or_by_form none form = form

-- `BoolValue`, with `none` for a false second result
unfoldable pub bool_value : Expr → Option Bool
bool_value (binary v land x y) = or_by_form v (known_and (bool_value x) (bool_value y))
bool_value (binary v lor x y) = or_by_form v (known_or (bool_value x) (bool_value y))
bool_value (binary v other_binary x y) = or_by_form v none
bool_value (unary v not_op x) = or_by_form v (known_not (bool_value x))
bool_value (unary v other_unary x) = or_by_form v none
bool_value (paren v x) = or_by_form v (bool_value x)
bool_value (leaf v n) = or_by_form v none

-- Running an expression: `none` when it gives no truth value, for it panics, does not end, or has
-- another type. The program is given by what its other operators and its leaves do.
pub record Run : Type 0 where
  pub run_leaf : ℕ → Option Bool
  pub run_binary : Expr → Expr → Option Bool
  pub run_unary : Expr → Option Bool

module _ (program : Run) where
  unfoldable pub run : Expr → Option Bool
  run (binary v land x y) = known_and (run x) (run y)
  run (binary v lor x y) = known_or (run x) (run y)
  run (binary v other_binary x y) = program.run_binary x y
  run (unary v not_op x) = known_not (run x)
  run (unary v other_unary x) = program.run_unary x
  run (paren v x) = run x
  run (leaf v n) = program.run_leaf n

  -- A constant truth value is what running gives, if it gives one.
  abbrev pub Right : Option Constant → Option Bool → Type 0
  Right v o = (b c : Bool) → v ≡ some (bool b) → o ≡ some c → c ≡ b

  abbrev pub ConstantsRight : Expr → Type 0
  ConstantsRight (binary v op x y) =
      Right v (run (binary v op x y)) × ConstantsRight x × ConstantsRight y
  ConstantsRight (unary v op x) = Right v (run (unary v op x)) × ConstantsRight x
  ConstantsRight (paren v x) = Right v (run x) × ConstantsRight x
  ConstantsRight (leaf v n) = Right v (program.run_leaf n)

  form_lem :
      (v : Option Constant) (o form : Option Bool) (b c : Bool)
      → Right v o
      → (form ≡ some b → c ≡ b)
      → or_by_form v form ≡ some b
      → o ≡ some c
      → c ≡ b
  form_lem none o form b c right by_form h r = by_form h
  form_lem (some (bool a)) o form b c right by_form h r = right a c refl r ∙ some_inj h
  form_lem (some other_kind) o form b c right by_form h r = by_form h

  and_lem :
      (x x' y y' : Option Bool)
      → ((b c : Bool) → x ≡ some b → x' ≡ some c → c ≡ b)
      → ((b c : Bool) → y ≡ some b → y' ≡ some c → c ≡ b)
      → (b c : Bool) → known_and x y ≡ some b
      → known_and x' y' ≡ some c
      → c ≡ b
  and_lem none x' y y' f g b c h r = absurd (cc h)
  and_lem (some a) none y y' f g b c h r = absurd (cc r)
  and_lem (some true) (some true) y y' f g b c h r = g b c h r
  and_lem (some true) (some false) y y' f g b c h r = absurd (cc (f true false refl refl))
  and_lem (some false) (some true) y y' f g b c h r = absurd (cc (f false true refl refl))
  and_lem (some false) (some false) y y' f g b c h r = sym (some_inj r) ∙ some_inj h

  or_lem :
      (x x' y y' : Option Bool)
      → ((b c : Bool) → x ≡ some b → x' ≡ some c → c ≡ b)
      → ((b c : Bool) → y ≡ some b → y' ≡ some c → c ≡ b)
      → (b c : Bool) → known_or x y ≡ some b
      → known_or x' y' ≡ some c
      → c ≡ b
  or_lem none x' y y' f g b c h r = absurd (cc h)
  or_lem (some a) none y y' f g b c h r = absurd (cc r)
  or_lem (some true) (some true) y y' f g b c h r = sym (some_inj r) ∙ some_inj h
  or_lem (some true) (some false) y y' f g b c h r = absurd (cc (f true false refl refl))
  or_lem (some false) (some true) y y' f g b c h r = absurd (cc (f false true refl refl))
  or_lem (some false) (some false) y y' f g b c h r = g b c h r

  not_lem :
      (x x' : Option Bool)
      → ((b c : Bool) → x ≡ some b → x' ≡ some c → c ≡ b)
      → (b c : Bool) → known_not x ≡ some b
      → known_not x' ≡ some c
      → c ≡ b
  not_lem none x' f b c h r = absurd (cc h)
  not_lem (some a) none f b c h r = absurd (cc r)
  not_lem (some a) (some a') f b c h r = sym (some_inj r) ∙ ap not (f a a' refl refl) ∙ some_inj h

  -- When `BoolValue` finds a value for an expression whose constants are right, running the
  -- expression gives no other.
  pub bool_value-run :
      (e : Expr) (b c : Bool) → ConstantsRight e → bool_value e ≡ some b → run e ≡ some c → c ≡ b
  unfolding bool_value run
  bool_value-run (binary v land x y) b c (right, rx, ry) h r =
      form_lem v (run (binary v land x y)) (known_and (bool_value x) (bool_value y)) b c right
        (λ k.
          and_lem (bool_value x) (run x) (bool_value y) (run y)
            (λ b c p q. bool_value-run x b c rx p q) (λ b c p q. bool_value-run y b c ry p q) b c k
            r)
        h r
  bool_value-run (binary v lor x y) b c (right, rx, ry) h r =
      form_lem v (run (binary v lor x y)) (known_or (bool_value x) (bool_value y)) b c right
        (λ k.
          or_lem (bool_value x) (run x) (bool_value y) (run y)
            (λ b c p q. bool_value-run x b c rx p q) (λ b c p q. bool_value-run y b c ry p q) b c k
            r)
        h r
  bool_value-run (binary v other_binary x y) b c (right, rx, ry) h r =
      form_lem v (program.run_binary x y) none b c right (λ k. absurd (cc k)) h r
  bool_value-run (unary v not_op x) b c (right, rx) h r =
      form_lem v (run (unary v not_op x)) (known_not (bool_value x)) b c right
        (λ k. not_lem (bool_value x) (run x) (λ b c p q. bool_value-run x b c rx p q) b c k r) h r
  bool_value-run (unary v other_unary x) b c (right, rx) h r =
      form_lem v (program.run_unary x) none b c right (λ k. absurd (cc k)) h r
  bool_value-run (paren v x) b c (right, rx) h r =
      form_lem v (run x) (bool_value x) b c right (λ k. bool_value-run x b c rx k r) h r
  bool_value-run (leaf v n) b c right h r =
      form_lem v (program.run_leaf n) none b c right (λ k. absurd (cc k)) h r
