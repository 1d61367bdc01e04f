-- ===== src/Dce/Invariant.antt =====
-- The invariant of the worklist in selector.go. `rest` are the declarations that are still to be
-- included, `dep` the filter whose bucket is being visited, and `ps` the part of that bucket that is
-- still to be visited.
use gopherjs.Base.{
  ℕ, ◌≤◌, String, Bool, true, false, none, some, List, ◌≡◌, ◌⊎◌, ◌||◌, ◌&&◌, Comparable, String_eq,
  ℕ_eq, ◌==◌, contains,
}
use gopherjs.Base.Assoc.{Assoc}
use gopherjs.Dce.Info.{Info, is_alive}
use gopherjs.Dce.Selector.{DeclInfo, Selector, bucket}
use gopherjs.Dce.Live.{Live, Resolved, included, linked}

-- The filter `g` of the cell `p` is blank, or a bucket will lead to the cell again.
abbrev pub waits : String → List ℕ → Assoc String (List ℕ) → String → ℕ → Bool
waits dep ps m g p = g == "" || contains (bucket g m) p || g == dep && contains ps p

module _ {D : Type 0} ⦃e : Comparable D⦄ where
  abbrev pub found : List D → Selector D → D → Bool
  found selection s d = contains s.pending d || contains selection d

  abbrev pub HasCell : Selector D → D → Type 0
  HasCell s d = (p : ℕ) × (info : DeclInfo D) × (s.cells p ≡ some info) × (info.decl ≡ d)

module _ {D : Type 0} ⦃e : Comparable D⦄ (dce : D → Info) (ds : List (D × Bool)) where
  -- A filter in a cell is the declaration's own, or was cleared for a live dependency.
  abbrev pub Follows : String → String → Type 0
  Follows g own = (g ≡ own) ⊎ ((g ≡ "") × Resolved dce ds own)

  pub record CellOk (dep : String) (ps : List ℕ) (selection : List D) (s : Selector D) (p : ℕ)
      (info : DeclInfo D) : Type 0 where
    pub known : included ds info.decl ≡ true
    pub object : Follows info.object_filter (dce info.decl).object_filter
    pub method : Follows info.method_filter (dce info.decl).method_filter
    pub object_waits : waits dep ps s.by_filter info.object_filter p ≡ true
    pub method_waits : waits dep ps s.by_filter info.method_filter p ≡ true
    pub released :
        info.object_filter ≡ "" → info.method_filter ≡ "" → found selection s info.decl ≡ true

  pub record Inv (rest : List (D × Bool)) (dep : String) (ps : List ℕ) (selection : List D)
      (s : Selector D) : Type 0 where
    pub live : (d : D) → found selection s d ≡ true → Live dce ds d
    pub cell :
        (p : ℕ) (info : DeclInfo D) → s.cells p ≡ some info → CellOk dep ps selection s p info
    pub fresh : (p : ℕ) → s.next_cell ≤ p → s.cells p ≡ none
    pub alive_found :
        (d : D)
        → included ds d ≡ true
        → is_alive (dce d) ≡ true
        → (found selection s d ≡ true) ⊎ (included rest d ≡ true)
    pub link_found :
        (d : D) → linked ds d ≡ true → (found selection s d ≡ true) ⊎ (linked rest d ≡ true)
    pub has_cell :
        (d : D)
        → included ds d ≡ true
        → is_alive (dce d) ≡ false
        → HasCell s d ⊎ (included rest d ≡ true)
