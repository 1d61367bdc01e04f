-- ===== src/Natives/Examples.antt =====
-- Tests and concrete instances for the replaced parts of the standard library.
use gopherjs.Base.{
  ℕ, ◌+◌, ◌*◌, ◌%◌, ◌^◌, ◌<◌, ◌≤◌, ◌≡◌, true, false, not, none, some, List, [], ◌∷◌, ◌++◌, ok, err,
  length, contains, ℕ_eq, refl, arith, if◌then◌else◌, nat_eq,
}
use gopherjs.Base.Bytes.{Bytes}
use gopherjs.Natives.Bits.{
  mul32, add32, div32, rem32, two32, divide_error, runtime_divide_error, overflow_error,
}
use gopherjs.Natives.Words.{mul32-add32}
use gopherjs.Natives.Divide.{div32-rem32}
use gopherjs.Natives.Slices.{compare, below}
use gopherjs.Natives.Strings.{count, repeat, negative_count, count_overflow}
use gopherjs.Natives.Counting.{occurrences, starts, count-occurrences}
use gopherjs.Natives.Finding.{find, find-IsIndex}
use gopherjs.Natives.Repeating.{times, repeat-exact}
use gopherjs.Natives.Semaphore.{
  Semaphore, begins, takes, waits, releases, IsSound, run-IsSound, sem_acquire, sem_release,
}
use gopherjs.Natives.Waking.{Event, acquire_call, goes_on, release_call, happen, release-wakes}
use gopherjs.Natives.Atomic.{
  Dynamic, check_new, value_compare_and_swap, panics, uncomparable_type, Any, Call, store_call,
  swap_call, compare_and_swap_call, apply, apply_all,
}
use gopherjs.Natives.ValueTypes.{Keeps, is_panic, fits, value_type_stays}
use gopherjs.Natives.MapHash.{Setting, Hash, write}
use gopherjs.Natives.Chunks.{write-append}

mul32-add32_example :
    ((mul32 0xffff_ffff 0xffff_ffff).0 * two32 + (mul32 0xffff_ffff 0xffff_ffff).1
      ≡ 0xffff_ffff * 0xffff_ffff)
    × ((mul32 0xffff_ffff 0xffff_ffff).0 < two32)
    × ((mul32 0xffff_ffff 0xffff_ffff).1 < two32)
    × ((add32 0xffff_ffff 0xffff_ffff 1).1 * two32 + (add32 0xffff_ffff 0xffff_ffff 1).0
        ≡ 0xffff_ffff + 0xffff_ffff + 1)
    × ((add32 0xffff_ffff 0xffff_ffff 1).0 < two32)
mul32-add32_example =
    mul32-add32 0xffff_ffff 0xffff_ffff 1 (omega arith) (omega arith) (omega arith)

-- of 3
abbrev thirty : ℕ → ℕ
thirty y = 30

abbrev three : ℕ
three = 3

div32-rem32_example :
    (three ≡ 0 → div32 thirty 2 7 three ≡ err divide_error)
    × (0 < three → three ≤ 2 → div32 thirty 2 7 three ≡ err overflow_error)
    × (2 < three
        → (quo rem : ℕ) × (div32 thirty 2 7 three ≡ ok (quo, rem))
          × (quo * three + rem ≡ 2 * two32 + 7)
          × (rem < three))
    × (three ≡ 0 → rem32 thirty 2 7 three ≡ err runtime_divide_error)
    × (0 < three → rem32 thirty 2 7 three ≡ ok ((2 * two32 + 7) % three))
div32-rem32_example =
    div32-rem32 thirty 2 7 three (omega arith) (λ h. (omega arith, omega arith, omega arith))

abbrev one_two : Bytes
one_two = 1 ∷ 2 ∷ []

abbrev one_three : Bytes
one_three = 1 ∷ 3 ∷ []

compare_prefix : compare (1 ∷ []) one_three ≡ below
unfolding compare
compare_prefix = refl

repeat-exact_example :
    (2 ^ 31 ≤ 5 → repeat one_two 5 ≡ err negative_count)
    × (5 < 2 ^ 31 → 2 ^ 31 ≤ length one_two * 5 → repeat one_two 5 ≡ err count_overflow)
    × (5 < 2 ^ 31 → length one_two * 5 < 2 ^ 31 → repeat one_two 5 ≡ ok (times 5 one_two))
repeat-exact_example = repeat-exact one_two 5 (omega arith)

count-occurrences_example :
    count find length (1 ∷ 1 ∷ 1 ∷ 2 ∷ 1 ∷ 1 ∷ []) (1 ∷ 1 ∷ [])
    ≡ some (occurrences (1 ∷ 1 ∷ []) 0 (1 ∷ 1 ∷ 1 ∷ 2 ∷ 1 ∷ 1 ∷ []))
count-occurrences_example =
    count-occurrences (1 ∷ 1 ∷ []) (omega arith) find length (find-IsIndex (1 ∷ 1 ∷ []))
      (1 ∷ 1 ∷ 1 ∷ 2 ∷ 1 ∷ 1 ∷ [])

two_occurrences : occurrences (1 ∷ 1 ∷ []) 0 (1 ∷ 1 ∷ 1 ∷ 2 ∷ 1 ∷ 1 ∷ []) ≡ 2
unfolding occurrences starts
two_occurrences = refl

abbrev two_taken : Semaphore
two_taken = sem_release (
    sem_acquire false 4
      (sem_acquire false 3 (record { value = 1; awoken = 0; waiters = []; woken = [] })))

run-IsSound_example : IsSound 1 1 1 two_taken
unfolding sem_acquire sem_release
run-IsSound_example = run-IsSound 1 1 1 two_taken (omega arith) (
    releases 1 0
      (sem_acquire false 4
        (sem_acquire false 3 (record { value = 1; awoken = 0; waiters = []; woken = [] })))
      (waits 1 0 (sem_acquire false 3 (record { value = 1; awoken = 0; waiters = []; woken = [] }))
        false 4
        (takes 0 0 (record { value = 1; awoken = 0; waiters = []; woken = [] }) false 3 begins refl)
        refl))

abbrev two_wait : Semaphore
two_wait = record { value = 0; awoken = 0; waiters = 5 ∷ 6 ∷ []; woken = [] }

abbrev events : List Event
events = release_call ∷ acquire_call 7 ∷ goes_on 5 ∷ release_call ∷ []

release-wakes_example :
    (front rest : List Event) × (events ≡ front ++ rest)
    × (gopherjs.Natives.Waking.releases front ≡ 2)
    × (contains (happen front two_wait).woken 6 ≡ true)
release-wakes_example = release-wakes events two_wait (5 ∷ []) [] 6 refl (omega arith)

abbrev calls : List Call
calls = store_call (some (record { dynamic_type = 2; content = 9 })) ∷ swap_call none ∷ []

abbrev held : Any
held = record { dynamic_type = 2; content = 1 }

-- Type 2 is one of slices, and values of the other types are compared by their contents.
abbrev dynamic : Dynamic
dynamic = record {
  is_comparable = λ t. not (nat_eq t 2);
  is_js_object = λ t. false;
  equal = λ t x y. some (nat_eq x y);
}

abbrev exchanged : Call
exchanged = compare_and_swap_call (some held) (some held)

value_type_stays_example :
    Keeps held (apply_all dynamic calls (some held))
    × (is_panic (apply dynamic exchanged (some held)).1 ≡ not (fits dynamic held exchanged))
value_type_stays_example = value_type_stays dynamic calls exchanged held

apply-exchanged : (apply dynamic exchanged (some held)).1 ≡ panics uncomparable_type
unfolding apply value_compare_and_swap check_new
apply-exchanged = refl

-- A buffer of 4 bytes, and the seed 1 when there is none.
abbrev setting : Setting
setting = record {
  buf_size = 4;
  hashkey_zero = 3;
  hashkey_one = 5;
  hashkey_two = 7;
  init_seed = λ seed state. if nat_eq seed 0 then (1, 1) else (seed, state);
}

abbrev new_hash : Hash
new_hash = record { seed = 0; state = 0; pending = [] }

seeded_once :
    (seed state other : ℕ)
    → setting.init_seed (setting.init_seed seed state).0 other
      ≡ ((setting.init_seed seed state).0, other)
seeded_once seed state other = ground arith

write-append_example :
    (h' : Hash) × (write setting (1 ∷ 2 ∷ []) new_hash ≡ some h')
    × (write setting (3 ∷ 4 ∷ 5 ∷ []) h' ≡ write setting (1 ∷ 2 ∷ 3 ∷ 4 ∷ 5 ∷ []) new_hash)
    × (whole : Hash) × (write setting (1 ∷ 2 ∷ 3 ∷ 4 ∷ 5 ∷ []) new_hash ≡ some whole)
write-append_example =
    write-append setting (1 ∷ 2 ∷ []) (3 ∷ 4 ∷ 5 ∷ []) new_hash (omega arith, seeded_once)
      (omega arith)
