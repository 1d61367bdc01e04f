-- ===== src/Nosync/Examples.antt =====
-- Tests and instances of the theorems on nosync.
use gopherjs.Base.{
  Bool, true, not, ◌&&◌, nat_eq, ℕ, ◌+◌, false, none, some, List, [], ◌∷◌, ◌≡◌, ◌↔◌, refl, arith,
  String_eq,
}
use gopherjs.Nosync.Method.{Method, not_locked}
use gopherjs.Nosync.Mutex
use gopherjs.Nosync.Mutex.{lock_call, unlock_call, Alternates, run-Alternates}
use gopherjs.Nosync.RwMutex
use gopherjs.Nosync.RwMutex.{IsBalanced, tally, no_calls, run-IsBalanced}
use gopherjs.Nosync.WaitGroup.{WaitGroup}
use gopherjs.Nosync.Once.{World}
use gopherjs.Nosync.Pool.{Pool}
use gopherjs.Nosync.Keys.{Keys, find, insert, discard}
use gopherjs.Nosync.Map.{
  Map, Call, load, store, load_or_store, delete, load_call, store_call, load_or_store_call,
  delete_call, answer, answers, nothing, either, loaded, panics,
}
use gopherjs.Nosync.Answering.{contents, promised_answers, answers-promised}

run-Alternates_example :
    ((Mutex.run (lock_call ∷ unlock_call ∷ lock_call ∷ []) Mutex.unlocked).1 ≡ none)
    ↔ Alternates false (lock_call ∷ unlock_call ∷ lock_call ∷ [])
run-Alternates_example = run-Alternates (lock_call ∷ unlock_call ∷ lock_call ∷ []) Mutex.unlocked

abbrev readers : List RwMutex.Call
readers =
    RwMutex.r_lock_call ∷ RwMutex.r_lock_call ∷ RwMutex.r_unlock_call ∷ RwMutex.r_unlock_call
    ∷ RwMutex.lock_call ∷ []

readers-quiet : (RwMutex.run readers RwMutex.free).1 ≡ none
unfolding RwMutex.run
readers-quiet = refl

run-IsBalanced_example : IsBalanced (tally readers no_calls) (RwMutex.run readers RwMutex.free).0
run-IsBalanced_example = run-IsBalanced readers (omega arith) readers-quiet

abbrev new_group : WaitGroup
new_group = record { counter = 0 }

-- a function that counts and then panics
abbrev count_and_panic : Method (World ℕ)
count_and_panic w = (record w { rest = w.rest + 1 }, some not_locked)

abbrev pool : Pool ℕ
pool = record { store = 7 ∷ []; new = none }

-- Numbers as keys: 0 cannot be hashed and 1 is a NaN.
abbrev key_equal : ℕ → ℕ → Bool
key_equal j k = nat_eq j k && not (nat_eq j 1)

key_equal_sym : (j k : ℕ) → key_equal j k ≡ true → key_equal k j ≡ true
key_equal_sym j k h = ground arith

key_equal_trans : (i j k : ℕ) → key_equal i j ≡ true → key_equal j k ≡ true → key_equal i k ≡ true
key_equal_trans i j k h g = ground arith

instance number_keys : Keys ℕ
number_keys = record {
  hashable = λ k. not (nat_eq k 0);
  equal = key_equal;
  equal_sym = key_equal_sym;
  equal_trans = key_equal_trans;
}

abbrev calls : List (Call ℕ ℕ)
calls =
    delete_call 0
    ∷ load_or_store_call 5 10
    ∷ store_call 1 20
    ∷ load_call 1
    ∷ load_or_store_call 5 30
    ∷ store_call 0 40
    ∷ delete_call 5
    ∷ load_call 5
    ∷ []

abbrev nil_map : Map ℕ ℕ
nil_map = record { m = none }

answers-promised_example : answers calls nil_map ≡ promised_answers calls (contents nil_map)
answers-promised_example = answers-promised calls nil_map

answers-calls :
    answers calls nil_map
    ≡ nothing
      ∷ either 10 false
      ∷ nothing
      ∷ loaded none
      ∷ either 10 true
      ∷ panics
      ∷ nothing
      ∷ loaded none
      ∷ []
unfolding answers answer load store load_or_store delete find insert discard number_keys
answers-calls = refl
