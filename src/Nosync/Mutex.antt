-- ===== src/Nosync/Mutex.antt =====
-- nosync/mutex.go: Mutex. It never waits, and panics where waiting would be needed.
use gopherjs.Base.{Bool, true, false, not, none, List, [], ◌∷◌, ◌≡◌, ◌↔◌, if◌then◌else◌, refl}
use gopherjs.Nosync.Method.{already_locked, not_locked, Method, return, panic, ◌>>◌}

pub record Mutex : Type 0 where
  pub locked : Bool

abbrev pub unlocked : Mutex
unlocked = record { locked = false }

unfoldable pub lock : Method Mutex
lock m = if m.locked then panic already_locked m else (record { locked = true }, none)

unfoldable pub unlock : Method Mutex
unlock m = if not m.locked then panic not_locked m else (record { locked = false }, none)

pub data Call : Type 0 where
  lock_call unlock_call : Call

unfoldable pub run : List Call → Method Mutex
unfolding lock unlock
run [] m = return m
run (lock_call ∷ calls) m = (lock >> run calls) m
run (unlock_call ∷ calls) m = (unlock >> run calls) m

-- Locks and unlocks take turns, the first of them a lock unless the mutex is held.
abbrev pub Alternates : Bool → List Call → Type 0
Alternates held [] = Unit {0}
Alternates false (lock_call ∷ calls) = Alternates true calls
Alternates true (unlock_call ∷ calls) = Alternates false calls
Alternates _ _ = ⊥

run-Alternates_held :
    (calls : List Call) (held : Bool)
    → ((run calls (record { locked = held })).1 ≡ none) ↔ Alternates held calls
unfolding run
run-Alternates_held [] held = (λ _. tt, λ _. refl)
run-Alternates_held (lock_call ∷ calls) true = (λ e. absurd (cc), λ h. absurd h)
run-Alternates_held (lock_call ∷ calls) false = run-Alternates_held calls true
run-Alternates_held (unlock_call ∷ calls) true = run-Alternates_held calls false
run-Alternates_held (unlock_call ∷ calls) false = (λ e. absurd (cc), λ h. absurd h)

-- A sequence of calls raises no panic exactly when locks and unlocks take turns, beginning with a
-- lock unless the mutex is held.
pub run-Alternates :
    (calls : List Call) (m : Mutex) → ((run calls m).1 ≡ none) ↔ Alternates m.locked calls
run-Alternates calls m = run-Alternates_held calls m.locked
