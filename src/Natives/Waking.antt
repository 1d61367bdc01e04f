-- ===== src/Natives/Waking.antt =====
-- compiler/natives/src/sync/sync.go: waiters that came without `lifo` are woken in their order.
use mathlib.Core.List.{append_assoc}
use gopherjs.Base.{
  ℕ, suc, ◌<◌, ◌≡◌, true, false, nat_eq_iff, List, [], ◌∷◌, ◌++◌, length, contains, ℕ_eq,
  if◌then◌else◌, arith, refl, ap, ◌∙◌, inl, inr, Bool-cases,
}
use gopherjs.Natives.Semaphore.{Semaphore, sem_acquire, sem_resume, sem_release, must_wait}

-- A call of `runtime_Semacquire`, the rest of one that was woken, and a call of
-- `runtime_Semrelease`.
pub data Event : Type 0 where
  acquire_call : ℕ → Event
  goes_on : ℕ → Event
  release_call : Event

unfoldable pub happens : Event → Semaphore → Semaphore
happens (acquire_call g) s = sem_acquire false g s
happens (goes_on g) s = if contains s.woken g then sem_resume g s else s
happens release_call s = sem_release s

unfoldable pub happen : List Event → Semaphore → Semaphore
happen [] s = s
happen (e ∷ es) s = happen es (happens e s)

abbrev pub releases : List Event → ℕ
releases [] = 0
releases (release_call ∷ es) = suc (releases es)
releases (acquire_call g ∷ es) = releases es
releases (goes_on g ∷ es) = releases es

-- A call changes the queue only at its end.
acquire-waiters :
    (s : Semaphore) (h : ℕ) (before after : List ℕ) (g : ℕ)
    → s.waiters ≡ before ++ g ∷ after
    → (after' : List ℕ) × ((sem_acquire false h s).waiters ≡ before ++ g ∷ after')
unfolding sem_acquire
acquire-waiters s h before after g e = elim (Bool-cases (must_wait s)) [
  | inl full ↦ (
    after ++ h ∷ [],
    rw full (ap (λ w. w ++ h ∷ []) e ∙ append_assoc before (g ∷ after) (h ∷ [])),
  )
  | inr free ↦ (after, rw free e)
]

goes_on-waiters : (s : Semaphore) (h : ℕ) → (happens (goes_on h) s).waiters ≡ s.waiters
unfolding happens sem_resume
goes_on-waiters s h = elim (Bool-cases (contains s.woken h)) [
  | inl awake ↦ rw awake refl
  | inr asleep ↦ rw asleep refl
]

contains-here : (g : ℕ) (w : List ℕ) → contains (g ∷ w) g ≡ true
contains-here g w = ground (arith, nat_eq_iff g g)

release-front :
    (s : Semaphore) (after : List ℕ) (g : ℕ)
    → s.waiters ≡ g ∷ after
    → contains (sem_release s).woken g ≡ true
unfolding sem_release
release-front s after g e = rw e (contains-here g s.woken)

release-behind :
    (s : Semaphore) (b : ℕ) (w : List ℕ) → s.waiters ≡ b ∷ w → (sem_release s).waiters ≡ w
unfolding sem_release
release-behind s b w e = rw e refl

-- Whatever else happens, the goroutine with n waiters before it is awake after the release number
-- n + 1.
pub release-wakes :
    (es : List Event) (s : Semaphore) (before after : List ℕ) (g : ℕ)
    → s.waiters ≡ before ++ g ∷ after
    → length before < releases es
    → (front rest : List Event) × (es ≡ front ++ rest)
      × (releases front ≡ suc (length before))
      × (contains (happen front s).woken g ≡ true)
unfolding happen happens
release-wakes [] s before after g e h = absurd (omega arith)
release-wakes (acquire_call k ∷ es) s before after g e h =
    let (after', e') = acquire-waiters s k before after g e in
    let (front, rest, split, count, awake) =
      release-wakes es (sem_acquire false k s) before after' g e' h in
    (acquire_call k ∷ front, rest, ap (λ r. acquire_call k ∷ r) split, count, awake)
release-wakes (goes_on k ∷ es) s before after g e h =
    let (front, rest, split, count, awake) =
      release-wakes es (happens (goes_on k) s) before after g (goes_on-waiters s k ∙ e) h in
    (goes_on k ∷ front, rest, ap (λ r. goes_on k ∷ r) split, count, awake)
release-wakes (release_call ∷ es) s [] after g e h =
    (release_call ∷ [], es, refl, refl, release-front s after g e)
release-wakes (release_call ∷ es) s (b ∷ before) after g e h =
    let (front, rest, split, count, awake) =
      release-wakes es (sem_release s) before after g (release-behind s b (before ++ g ∷ after) e)
        (omega arith) in
    (release_call ∷ front, rest, ap (λ r. release_call ∷ r) split, ap suc count, awake)
