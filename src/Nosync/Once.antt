-- ===== src/Nosync/Once.antt =====
-- nosync/once.go. The function that `Do` calls is a method of the whole world, which holds the
-- `Once`: it may call `Do` again, and it may panic.
use gopherjs.Base.{
  ap, ◌∙◌, List, [], ◌∷◌, Bool, true, false, Option, none, some, ◌≡◌, if◌then◌else◌, arith, refl,
}
use gopherjs.Nosync.Method.{Panic, do_within_do, Method, return, panic}

pub record World (S : Type 0) : Type 0 where
  pub doing : Bool
  pub done : Bool
  pub rest : S

module _ {S : Type 0} where
  -- the deferred function, which runs after a panic of `f` too
  abbrev finish : World S × Option Panic → World S × Option Panic
  finish (w, p) = (record w { doing = false; done = true }, p)

  -- Go's `Once.Do`
  unfoldable pub do_once : Method (World S) → Method (World S)
  do_once f w =
      if w.done
      then return w
      else if w.doing
      then panic do_within_do w
      else finish (f (record w { doing = true }))

  abbrev pub fresh : S → World S
  fresh s = record { doing = false; done = false; rest = s }

  -- Whatever the first function does, be it a panic, it is run once, on the world in which `Do` is
  -- marked as under way; from then on a call with any function at all changes nothing.
  pub do_once_once :
      (f g : Method (World S)) (s : S)
      → ((do_once f (fresh s)).1 ≡ (f (record { doing = true; done = false; rest = s })).1)
        × ((do_once f (fresh s)).0.rest
            ≡ (f (record { doing = true; done = false; rest = s })).0.rest)
        × (do_once g (do_once f (fresh s)).0 ≡ ((do_once f (fresh s)).0, none))
  unfolding do_once
  do_once_once f g s = (refl, refl, refl)

  -- A call from inside the function panics, and does not run its own function.
  pub do_within-panics :
      (g : Method (World S)) (step : S → S) (s : S)
      → do_once (λ w. do_once g (record w { rest = step w.rest })) (fresh s)
        ≡ (record { doing = false; done = true; rest = step s }, some do_within_do)
  unfolding do_once
  do_within-panics g step s = refl

  -- Calls of `Do` one after another, each of whose panics the caller recovers from.
  unfoldable pub do_all : List (Method (World S)) → World S → World S
  do_all [] w = w
  do_all (f ∷ fs) w = do_all fs (do_once f w).0

  do_once-done : (f : Method (World S)) (w : World S) → w.done ≡ true → (do_once f w).0 ≡ w
  unfolding do_once
  do_once-done f w h = ground arith

  do_all-done : (fs : List (Method (World S))) (w : World S) → w.done ≡ true → do_all fs w ≡ w
  unfolding do_all
  do_all-done [] w h = refl
  do_all-done (f ∷ fs) w h = ap (do_all fs) (do_once-done f w h) ∙ do_all-done fs w h

  -- Of any calls of `Do`, one after another and with a function each, only the first runs its
  -- function, also when that function panics.
  pub do_all-first :
      (f : Method (World S)) (fs : List (Method (World S))) (s : S)
      → do_all (f ∷ fs) (fresh s) ≡ record (f (record { doing = true; done = false; rest = s })).0 {
        doing = false;
        done = true;
      }
  unfolding do_all do_once
  do_all-first f fs s = do_all-done fs _ refl
