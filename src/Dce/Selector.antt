-- ===== src/Dce/Selector.antt =====
-- compiler/internal/dce/selector.go: the worklist that finds the declarations to keep.
-- A `*declInfo` is the number of a cell, for one cell is reached from two buckets of `by_filter`.
-- `pending` holds the slice `pendingDecls` with its last element first.
use mathlib.Core.List.{foldl}
use gopherjs.Base.{
  ℕ, zero, suc, ◌+◌, String, Bool, Option, none, some, List, [], ◌∷◌, ◌++◌, ◌&&◌, Comparable,
  String_eq, ℕ_eq, ◌==◌, if◌then◌else◌, insert, length, Sorter,
}
use gopherjs.Base.Assoc.{Assoc, lookup, put, remove, total}
use gopherjs.Dce.Info.{Info, is_alive, get_deps}

pub record DeclInfo {ℓ} (D : Type ℓ) : Type ℓ where
  pub decl : D
  pub object_filter : String
  pub method_filter : String

pub record Selector {ℓ} (D : Type ℓ) : Type ℓ where
  pub by_filter : Assoc String (List ℕ)
  pub cells : ℕ → Option (DeclInfo D)
  pub next_cell : ℕ
  pub pending : List D

abbrev pub bucket : String → Assoc String (List ℕ) → List ℕ
bucket f m = elim (lookup f m) [ none ↦ [] | some ps ↦ ps ]

abbrev pub write {ℓ} : {A : Type ℓ} → (ℕ → Option A) → ℕ → A → ℕ → Option A
write cells p a q = if q == p then some a else cells q

-- s.byFilter[f] = append(s.byFilter[f], p)
unfoldable pub append_bucket : String → ℕ → Assoc String (List ℕ) → Assoc String (List ℕ)
append_bucket f p m = put f (bucket f m ++ p ∷ []) m

-- `if f != "" { … }` of `Include`, for one filter
unfoldable pub file_under : String → ℕ → Assoc String (List ℕ) → Assoc String (List ℕ)
unfolding append_bucket
file_under f p m = if f == "" then m else append_bucket f p m

abbrev pub clear : String → String → String
clear dep f = if f == dep then "" else f

module _ {ℓ} {D : Type ℓ} where
  abbrev pub empty : Selector D
  empty = record { by_filter = []; cells = λ p. none; next_cell = 0; pending = [] }

  unfoldable pub push : D → Selector D → Selector D
  push d s = record s { pending = d ∷ s.pending }

  -- the new `declInfo` and its entries
  unfoldable pub register : D → Info → Selector D → Selector D
  unfolding file_under
  register d dce s = record s {
    by_filter =
        file_under dce.method_filter s.next_cell
          (file_under dce.object_filter s.next_cell s.by_filter);
    cells =
        write s.cells s.next_cell (record {
          decl = d;
          object_filter = dce.object_filter;
          method_filter = dce.method_filter;
        });
    next_cell = suc s.next_cell;
  }

  unfoldable pub include : D → Info → Bool → Selector D → Selector D
  unfolding push register is_alive
  include d dce implements_link s =
      if is_alive dce then push d s else register d dce (if implements_link then push d s else s)

  abbrev pub cleared : String → DeclInfo D → DeclInfo D
  cleared dep info = record info {
    object_filter = clear dep info.object_filter;
    method_filter = clear dep info.method_filter;
  }

  -- the body of the loop over `infos`
  unfoldable pub visit : String → Selector D → ℕ → Selector D
  unfolding push
  visit dep s p = elim (s.cells p) [
    | none ↦ s
    | some info ↦
        let info' = cleared dep info in
        let s' = record s { cells = write s.cells p info' } in
        if info'.object_filter == "" && info'.method_filter == "" then push info.decl s' else s'
  ]

  -- the body of the loop over `dce.getDeps()`
  unfoldable pub use_dep : Selector D → String → Selector D
  unfolding visit
  use_dep s dep = elim (lookup dep s.by_filter) [
    | none ↦ s
    | some infos ↦ foldl (visit dep) (record s { by_filter = remove dep s.by_filter }) infos
  ]

  -- the pending declarations, and a bound on those that can still become so
  abbrev pub work : Selector D → ℕ
  work s = length s.pending + total length s.by_filter

module _ {ℓ} {D : Type ℓ} (dce : D → Info) where
  -- The calls of `Include`, one for each declaration with its `implementsLink`.
  unfoldable pub include_all : List (D × Bool) → Selector D → Selector D
  unfolding include
  include_all [] s = s
  include_all ((d, link) ∷ ds) s = include_all ds (include d (dce d) link s)

module _ {ℓ} {D : Type ℓ} ⦃e : Comparable D⦄ (sorter : Sorter) (dce : D → Info) where
  -- `for len(s.pendingDecls) != 0`; `none` means that the fuel ran out.
  unfoldable pub select : ℕ → List D → Selector D → Option (List D)
  unfolding use_dep get_deps
  select zero selection s = elim s.pending [ [] ↦ some selection | _ ∷ _ ↦ none ]
  select (suc fuel) selection s = elim s.pending [
    | [] ↦ some selection
    | d ∷ rest ↦
        select fuel (insert d selection)
          (foldl use_dep (record s { pending = rest }) (get_deps sorter (dce d)))
  ]

  -- The set `dceSelection` as a list without repetition.
  unfoldable pub alive_decls : Selector D → Option (List D)
  unfolding select
  alive_decls s = select (work s) [] s

  -- Dead-code elimination over a program's declarations.
  unfoldable pub run : List (D × Bool) → Option (List D)
  unfolding alive_decls include_all lookup put remove
  run ds = alive_decls (include_all dce ds empty)
