-- ===== src/Nosync/Method.antt =====
-- Methods of a mutable object that may panic.
use gopherjs.Base.{◌≡◌, Option, none, some}

pub data Panic : Type 0 where
  already_locked not_locked negative_counter counter_not_zero do_within_do : Panic

-- The object afterwards, and the panic.
abbrev pub Method : Type 0 → Type 0
Method S = S → S × Option Panic

abbrev pub return : {S : Type 0} → Method S
return s = (s, none)

abbrev pub panic : {S : Type 0} → Panic → Method S
panic p s = (s, some p)

-- One call after another; a panic ends the sequence.
infixl 10 ◌>>◌
abbrev pub ◌>>◌ : {S : Type 0} → Method S → Method S → Method S
◌>>◌ m k s = let (s', p) = m s in elim p [ none ↦ k s' | some raised ↦ (s', some raised) ]

pub >>-quiet : {S : Type 0} (m k : Method S) (s : S) → (m s).1 ≡ none → (m >> k) s ≡ k (m s).0
>>-quiet m k s h = rw (h, ◌>>◌)

pub >>-panic :
    {S : Type 0} (m k : Method S) (s : S) (p : Panic)
    → (m s).1 ≡ some p
    → (m >> k) s ≡ ((m s).0, some p)
>>-panic m k s p h = rw (h, ◌>>◌)
