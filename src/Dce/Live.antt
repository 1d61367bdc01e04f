-- ===== src/Dce/Live.antt =====
-- What has to stay, with no worklist: the least set of included declarations that has the roots and
-- each declaration all of whose filters are dependencies of its members.
use gopherjs.Base.{
  String, Bool, true, false, List, [], ◌∷◌, ◌≡◌, ◌&&◌, ◌||◌, Comparable, String_eq, ◌==◌, contains,
}
use gopherjs.Dce.Info.{Info, is_alive}

module _ {ℓ} {D : Type ℓ} ⦃e : Comparable D⦄ where
  abbrev pub included : List (D × Bool) → D → Bool
  included [] d = false
  included ((x, link) ∷ ds) d = d == x || included ds d

  -- `d` was included with `implementsLink`
  abbrev pub linked : List (D × Bool) → D → Bool
  linked [] d = false
  linked ((x, link) ∷ ds) d = d == x && link || linked ds d

mutual
  pub data Live {ℓ} {D : Type ℓ} ⦃e : Comparable D⦄ (dce : D → Info) (ds : List (D × Bool))
      : D → Type ℓ where
    alive : (d : D) → included ds d ≡ true → is_alive (dce d) ≡ true → Live dce ds d
    link : (d : D) → linked ds d ≡ true → Live dce ds d
    named :
        (d : D)
        → included ds d ≡ true
        → Resolved dce ds (dce d).object_filter
        → Resolved dce ds (dce d).method_filter
        → Live dce ds d

  -- The filter is empty, or some live declaration depends on it.
  pub data Resolved {ℓ} {D : Type ℓ} ⦃e : Comparable D⦄ (dce : D → Info) (ds : List (D × Bool))
      : String → Type ℓ where
    blank : (f : String) → f ≡ "" → Resolved dce ds f
    dep : (x : D) (f : String) → Live dce ds x → contains (dce x).deps f ≡ true → Resolved dce ds f
