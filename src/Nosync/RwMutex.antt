-- ===== src/Nosync/RwMutex.antt =====
-- nosync/mutex.go: RWMutex. The counter of read locks is an `int32`, kept as its bit pattern.
use gopherjs.Base.{
  Option-cases, inl, inr, ap, sym, ◌∙◌, ℕ, ◌+◌, ◌-◌, ◌%◌, ◌^◌, ◌<◌, ◌≤◌, Bool, true, false, not,
  ◌||◌, none, List, [], ◌∷◌, ◌≡◌, nat_eq, if◌then◌else◌, arith,
}
use gopherjs.Nosync.Method.{already_locked, not_locked, Method, return, panic, ◌>>◌, >>-quiet}

pub record RwMutex : Type 0 where
  pub write_locked : Bool
  pub read_lock_counter : ℕ

abbrev pub free : RwMutex
free = record { write_locked = false; read_lock_counter = 0 }

unfoldable pub lock : Method RwMutex
lock m =
    if not (nat_eq m.read_lock_counter 0) || m.write_locked
    then panic already_locked m
    else (record m { write_locked = true }, none)

unfoldable pub unlock : Method RwMutex
unlock m =
    if not m.write_locked then panic not_locked m else (record m { write_locked = false }, none)

unfoldable pub r_lock : Method RwMutex
r_lock m =
    if m.write_locked
    then panic already_locked m
    else (record m { read_lock_counter = (m.read_lock_counter + 1) % 2 ^ 32 }, none)

unfoldable pub r_unlock : Method RwMutex
r_unlock m =
    if nat_eq m.read_lock_counter 0
    then panic not_locked m
    else (record m { read_lock_counter = (m.read_lock_counter + 2 ^ 32 - 1) % 2 ^ 32 }, none)

pub data Call : Type 0 where
  lock_call unlock_call r_lock_call r_unlock_call : Call

unfoldable pub call : Call → Method RwMutex
unfolding lock unlock r_lock r_unlock
call lock_call = lock
call unlock_call = unlock
call r_lock_call = r_lock
call r_unlock_call = r_unlock

unfoldable pub run : List Call → Method RwMutex
unfolding call
run [] m = return m
run (c ∷ calls) m = (call c >> run calls) m

-- How often each method was called.
pub record Tally : Type 0 where
  pub locks : ℕ
  pub unlocks : ℕ
  pub r_locks : ℕ
  pub r_unlocks : ℕ

abbrev pub counted : Call → Tally → Tally
counted lock_call t = record t { locks = t.locks + 1 }
counted unlock_call t = record t { unlocks = t.unlocks + 1 }
counted r_lock_call t = record t { r_locks = t.r_locks + 1 }
counted r_unlock_call t = record t { r_unlocks = t.r_unlocks + 1 }

abbrev pub tally : List Call → Tally → Tally
tally [] t = t
tally (c ∷ calls) t = tally calls (counted c t)

abbrev pub no_calls : Tally
no_calls = record { locks = 0; unlocks = 0; r_locks = 0; r_unlocks = 0 }

-- The state is the balance of the calls, and a writer excludes readers and other writers.
pub record IsBalanced (t : Tally) (m : RwMutex) : Type 0 where
  pub readers : m.read_lock_counter + t.r_unlocks ≡ t.r_locks
  pub writers : (if m.write_locked then 1 else 0) + t.unlocks ≡ t.locks
  pub exclusive : m.write_locked ≡ true → m.read_lock_counter ≡ 0

call-IsBalanced :
    (c : Call) (t : Tally) (m : RwMutex)
    → (counted c t).r_locks < 2 ^ 32
    → (call c m).1 ≡ none
    → IsBalanced t m
    → IsBalanced (counted c t) (call c m).0
unfolding call
call-IsBalanced lock_call t m few ok_call b = ground (arith, b.exclusive)
call-IsBalanced unlock_call t m few ok_call b = ground (arith, b.exclusive)
call-IsBalanced r_lock_call t m few ok_call b = ground (arith, b.exclusive)
call-IsBalanced r_unlock_call t m few ok_call b = ground (arith, b.exclusive)

r_locks-tally : (calls : List Call) (t : Tally) → t.r_locks ≤ (tally calls t).r_locks
r_locks-tally [] t = omega arith
r_locks-tally (lock_call ∷ calls) t = r_locks-tally calls (counted lock_call t)
r_locks-tally (unlock_call ∷ calls) t = r_locks-tally calls (counted unlock_call t)
r_locks-tally (r_lock_call ∷ calls) t = omega (arith, r_locks-tally calls (counted r_lock_call t))
r_locks-tally (r_unlock_call ∷ calls) t = r_locks-tally calls (counted r_unlock_call t)

run-IsBalanced_from :
    (calls : List Call) (t : Tally) (m : RwMutex)
    → (tally calls t).r_locks < 2 ^ 32
    → (run calls m).1 ≡ none
    → IsBalanced t m
    → IsBalanced (tally calls t) (run calls m).0
unfolding run
run-IsBalanced_from [] t m few ok_calls b = b
run-IsBalanced_from (c ∷ calls) t m few ok_calls b = elim (Option-cases (call c m).1) [
  | inl quiet ↦
      let after = >>-quiet (call c) (run calls) m quiet in
      rw after (
        run-IsBalanced_from calls (counted c t) (call c m).0 few
          (ap (λ r. r.1) (sym after) ∙ ok_calls)
          (call-IsBalanced c t m (omega (arith, r_locks-tally calls (counted c t))) quiet b))
  | inr (p, raised) ↦ absurd (cc)
]

-- After any sequence of calls that raises no panic and takes fewer than 2^32 read locks in all, the
-- read counter is the number of read locks that were not undone, the write lock is held exactly if
-- one write lock was not undone, and no reader is in while the write lock is held.
pub run-IsBalanced :
    (calls : List Call)
    → (tally calls no_calls).r_locks < 2 ^ 32
    → (run calls free).1 ≡ none
    → IsBalanced (tally calls no_calls) (run calls free).0
run-IsBalanced calls few ok_calls =
    run-IsBalanced_from calls no_calls free few ok_calls (omega arith)
