-- ===== src/Dce/Order.antt =====
-- The result of dead-code elimination does not depend on the order of the calls of `Include`, and
-- more calls never make a declaration dead.
use gopherjs.Base.{String, Bool, true, some, List, ◌≡◌, Comparable, contains, Sorter}
use gopherjs.Dce.Info.{Info}
use gopherjs.Dce.Selector.{run}
use gopherjs.Dce.Live.{Live, Resolved, included, linked, alive, link, named, blank, dep}
use gopherjs.Dce.Correct.{run-exact}

module _ {D : Type 0} ⦃e : Comparable D⦄ (dce : D → Info) (ds more : List (D × Bool))
    (more_included : (d : D) → included ds d ≡ true → included more d ≡ true)
    (more_linked : (d : D) → linked ds d ≡ true → linked more d ≡ true) where
  mutual
    Live-more : {d : D} → Live dce ds d → Live dce more d
    Live-more (alive d i a) = alive d (more_included d i) a
    Live-more (link d l) = link d (more_linked d l)
    Live-more (named d i o m) = named d (more_included d i) (Resolved-more o) (Resolved-more m)

    Resolved-more : {f : String} → Resolved dce ds f → Resolved dce more f
    Resolved-more (blank f k) = blank f k
    Resolved-more (dep x f l k) = dep x f (Live-more l) k

-- Where every declaration included by `ds` is included by `more`, and every link of `ds` is one of
-- `more`, each declaration that a run on `ds` keeps is kept by a run on `more`.
pub run_mono :
    {D : Type 0} ⦃e : Comparable D⦄ (sorter : Sorter) (dce : D → Info) (ds more : List (D × Bool))
    (kept kept_more : List D)
    → ((d : D) → included ds d ≡ true → included more d ≡ true)
    → ((d : D) → linked ds d ≡ true → linked more d ≡ true)
    → run sorter dce ds ≡ some kept
    → run sorter dce more ≡ some kept_more
    → (d : D) → contains kept d ≡ true
    → contains kept_more d ≡ true
run_mono sorter dce ds more kept kept_more i l p q d k =
    (run-exact sorter dce more kept_more d q).1
      (Live-more dce ds more i l ((run-exact sorter dce ds kept d p).0 k))
