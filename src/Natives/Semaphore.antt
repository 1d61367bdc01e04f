-- ===== src/Natives/Semaphore.antt =====
-- compiler/natives/src/sync/sync.go: the semaphore of one address. `semWaiters` and `semAwoken` hold
-- nothing and 0 where an address has no entry. A channel of a waiter is the number of its goroutine;
-- `ch <- true` makes the waiter go on at once or later, so between the two parts of
-- `runtime_SemacquireMutex` other goroutines run. `woken` lists the goroutines that are in between.
use gopherjs.Base.{
  ℕ, suc, ◌+◌, ◌-◌, ◌%◌, ◌^◌, ◌<◌, ◌≤◌, ◌≡◌, Bool, true, false, nat_eq, nat_eq_iff, List, [], ◌∷◌,
  ◌++◌, length, contains, ℕ_eq, if◌then◌else◌, arith, refl, ap,
}

pub record Semaphore : Type 0 where
  pub value : ℕ
  pub awoken : ℕ
  pub waiters : List ℕ
  pub woken : List ℕ

-- `a - b` and `a + b` on uint32
abbrev pub sub : ℕ → ℕ → ℕ
sub a b = (a + (2 ^ 32 - b)) % 2 ^ 32

abbrev pub add : ℕ → ℕ → ℕ
add a b = (a + b) % 2 ^ 32

abbrev pub remove_one : ℕ → List ℕ → List ℕ
remove_one g [] = []
remove_one g (h ∷ hs) = if nat_eq g h then hs else h ∷ remove_one g hs

-- the test of `runtime_SemacquireMutex`
abbrev pub must_wait : Semaphore → Bool
must_wait s = nat_eq (sub s.value s.awoken) 0

abbrev pub enqueue : Bool → ℕ → List ℕ → List ℕ
enqueue true g waiters = g ∷ waiters
enqueue false g waiters = waiters ++ g ∷ []

-- `runtime_SemacquireMutex` of goroutine `g`, until it returns or receives
unfoldable pub sem_acquire : Bool → ℕ → Semaphore → Semaphore
sem_acquire lifo g s =
    if must_wait s
    then record s { waiters = enqueue lifo g s.waiters }
    else record s { value = sub s.value 1 }

-- and from there on
unfoldable pub sem_resume : ℕ → Semaphore → Semaphore
sem_resume g s = record s {
  value = sub s.value 1;
  awoken = sub s.awoken 1;
  woken = remove_one g s.woken;
}

abbrev pub wake : List ℕ → Semaphore → Semaphore
wake [] s = s
wake (ch ∷ w) s = record s { waiters = w; awoken = add s.awoken 1; woken = ch ∷ s.woken }

-- `runtime_Semrelease`
unfoldable pub sem_release : Semaphore → Semaphore
sem_release s = wake s.waiters (record s { value = add s.value 1 })

-- A semaphore that starts with `start` units, after `taken` calls of `runtime_Semacquire` have
-- returned and `released` of `runtime_Semrelease` were made, in any order.
pub data Run (start : ℕ) : ℕ → ℕ → Semaphore → Type 0 where
  begins : Run start 0 0 (record { value = start; awoken = 0; waiters = []; woken = [] })
  takes :
      (taken released : ℕ) (s : Semaphore) (lifo : Bool) (g : ℕ)
      → Run start taken released s
      → must_wait s ≡ false
      → Run start (suc taken) released (sem_acquire lifo g s)
  waits :
      (taken released : ℕ) (s : Semaphore) (lifo : Bool) (g : ℕ)
      → Run start taken released s
      → must_wait s ≡ true
      → Run start taken released (sem_acquire lifo g s)
  resumes :
      (taken released : ℕ) (s : Semaphore) (g : ℕ)
      → Run start taken released s
      → contains s.woken g ≡ true
      → Run start (suc taken) released (sem_resume g s)
  releases :
      (taken released : ℕ) (s : Semaphore)
      → Run start taken released s
      → Run start taken (suc released) (sem_release s)

-- No unit is lost or made up, the awoken goroutines are counted and a unit is kept for each, and
-- nobody waits while a unit is free.
pub record IsSound (start taken released : ℕ) (s : Semaphore) : Type 0 where
  pub units : taken + s.value ≡ start + released
  pub counted : s.awoken ≡ length s.woken
  pub reserved : s.awoken ≤ s.value
  pub no_lost_wakeup : 0 < length s.waiters → s.value ≡ s.awoken

length-remove_one :
    (g : ℕ) (hs : List ℕ) → contains hs g ≡ true → suc (length (remove_one g hs)) ≡ length hs
length-remove_one g [] h = absurd (cc h)
length-remove_one g (k ∷ hs) h =
    ground (arith, length-remove_one g hs, nat_eq_iff k g, nat_eq_iff g k)

full_lem :
    (value awoken : ℕ)
    → awoken ≤ value
    → value < 2 ^ 32
    → (nat_eq (sub value awoken) 0 ≡ true → value ≡ awoken)
      × (nat_eq (sub value awoken) 0 ≡ false → awoken < value)
full_lem value awoken h k = (λ e. ground arith, λ e. ground arith)

module _ (start taken released : ℕ) (s : Semaphore) (bound : start + released < 2 ^ 32)
    (sound : IsSound start taken released s) where
  below : s.value < 2 ^ 32
  below = omega (arith, sound.units)

  takes-IsSound :
      (lifo : Bool) (g : ℕ)
      → must_wait s ≡ false
      → IsSound start (suc taken) released (sem_acquire lifo g s)
  unfolding sem_acquire
  takes-IsSound lifo g free =
      let more = (full_lem s.value s.awoken sound.reserved below).1 free in
      rw free (record {
        units = omega (arith, sound.units, below);
        counted = sound.counted;
        reserved = omega (arith, below);
        no_lost_wakeup = λ h. absurd (omega (arith, sound.no_lost_wakeup h));
      })

  waits-IsSound :
      (lifo : Bool) (g : ℕ)
      → must_wait s ≡ true
      → IsSound start taken released (sem_acquire lifo g s)
  unfolding sem_acquire
  waits-IsSound lifo g full =
      let all_kept = (full_lem s.value s.awoken sound.reserved below).0 full in
      rw full (record {
        units = sound.units;
        counted = sound.counted;
        reserved = sound.reserved;
        no_lost_wakeup = λ h. all_kept;
      })

  resumes-IsSound :
      (g : ℕ) → contains s.woken g ≡ true → IsSound start (suc taken) released (sem_resume g s)
  unfolding sem_resume
  resumes-IsSound g awake =
      let fewer = length-remove_one g s.woken awake in
      let counted = sound.counted in
      let reserved = sound.reserved in
      record {
        units = omega (arith, sound.units, below);
        counted = omega (arith, below);
        reserved = omega (arith, below);
        no_lost_wakeup = λ h. omega (arith, sound.no_lost_wakeup h, below);
      }

wake-IsSound :
    (start taken released : ℕ) (s : Semaphore) (waiters : List ℕ)
    → start + suc released < 2 ^ 32
    → IsSound start taken released s
    → s.waiters ≡ waiters
    → IsSound start taken (suc released) (wake waiters (record s { value = add s.value 1 }))
wake-IsSound start taken released s [] bound sound e = record {
  units = omega (arith, sound.units);
  counted = sound.counted;
  reserved = omega (arith, sound.units, sound.reserved);
  no_lost_wakeup = λ h. absurd (omega (arith, ap length e));
}
wake-IsSound start taken released s (ch ∷ w) bound sound e =
    let kept = sound.no_lost_wakeup (omega (arith, ap length e)) in
    let counted = sound.counted in
    let units = sound.units in
    record {
      units = omega arith;
      counted = omega arith;
      reserved = omega arith;
      no_lost_wakeup = λ h. omega arith;
    }

-- In any run of fewer than 2^32 units a semaphore is sound: `runtime_Semacquire` takes only units
-- that were there, and a goroutine waits only while every unit is kept for an awoken one.
pub run-IsSound :
    (start taken released : ℕ) (s : Semaphore)
    → start + released < 2 ^ 32
    → Run start taken released s
    → IsSound start taken released s
unfolding sem_release
run-IsSound start _ _ _ bound begins = record {
  units = omega arith;
  counted = refl;
  reserved = omega arith;
  no_lost_wakeup = λ h. absurd (omega arith);
}
run-IsSound start _ _ _ bound (takes taken released s lifo g run free) =
    takes-IsSound start taken released s bound (run-IsSound start taken released s bound run) lifo g
      free
run-IsSound start _ _ _ bound (waits taken released s lifo g run full) =
    waits-IsSound start taken released s bound (run-IsSound start taken released s bound run) lifo g
      full
run-IsSound start _ _ _ bound (resumes taken released s g run awake) =
    resumes-IsSound start taken released s bound (run-IsSound start taken released s bound run) g
      awake
run-IsSound start _ _ _ bound (releases taken released s run) =
    wake-IsSound start taken released s s.waiters bound
      (run-IsSound start taken released s (omega arith) run) refl
