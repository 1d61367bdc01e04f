-- ===== src/Dce/Rounds.antt =====
-- One round of the loop in `AliveDecls`, and the work that is left after it.
use mathlib.Core.List.{foldl}
use gopherjs.Base.{
  ◌∙◌, ℕ, ◌+◌, ◌≤◌, String, Bool, true, none, some, List, [], ◌∷◌, ◌≡◌, inl, inr, Comparable,
  String_eq, ℕ_eq, ◌==◌, contains, length, arith, Option-cases, Bool-cases, eq_iff, refl,
  if◌then◌else◌,
}
use gopherjs.Base.Assoc.{Assoc, lookup, remove, lookup-remove, total-remove}
use gopherjs.Dce.Info.{Info}
use gopherjs.Dce.Selector.{Selector, visit, use_dep, work}
use gopherjs.Dce.Live.{Resolved}
use gopherjs.Dce.Invariant.{waits, Inv}
use gopherjs.Dce.Selecting.{visit_all-Inv}

waits-remove :
    (old dep g : String) (p : ℕ) (infos : List ℕ) (m : Assoc String (List ℕ))
    → lookup dep m ≡ some infos
    → waits old [] m g p ≡ true
    → waits dep infos (remove dep m) g p ≡ true
waits-remove old dep g p infos m at h = elim (Bool-cases (dep == g)) [
  | inl same ↦ ground (arith, lookup-remove dep g m, eq_iff dep g, eq_iff g dep)
  | inr other ↦ ground (arith, lookup-remove dep g m)
]

visit-by_filter {ℓ} :
    {D : Type ℓ} (dep : String) (s : Selector D) (p : ℕ) → (visit dep s p).by_filter ≡ s.by_filter
unfolding visit
visit-by_filter dep s p = ground arith

visit_all-by_filter {ℓ} :
    {D : Type ℓ} (dep : String) (ps : List ℕ) (s : Selector D)
    → (foldl (visit dep) s ps).by_filter ≡ s.by_filter
visit_all-by_filter dep [] s = refl
visit_all-by_filter dep (p ∷ ps) s =
    visit_all-by_filter dep ps (visit dep s p) ∙ visit-by_filter dep s p

visit-pending {ℓ} :
    {D : Type ℓ} (dep : String) (s : Selector D) (p : ℕ)
    → length (visit dep s p).pending ≤ length s.pending + 1
unfolding visit
visit-pending dep s p = ground arith

visit_all-pending {ℓ} :
    {D : Type ℓ} (dep : String) (ps : List ℕ) (s : Selector D)
    → length (foldl (visit dep) s ps).pending ≤ length s.pending + length ps
visit_all-pending dep [] s = omega arith
visit_all-pending dep (p ∷ ps) s =
    omega (arith, visit_all-pending dep ps (visit dep s p), visit-pending dep s p)

-- A bucket is deleted before its cells are visited, and each visit queues one declaration at most.
use_dep-work {ℓ} : {D : Type ℓ} (s : Selector D) (dep : String) → work (use_dep s dep) ≤ work s
unfolding use_dep
use_dep-work s dep = elim (Option-cases (lookup dep s.by_filter)) [
  | inl gone ↦ rw (gone, use_dep) (omega arith)
  | inr (infos, at) ↦
      let t = record s { by_filter = remove dep s.by_filter } in
      rw (at, use_dep)
        (rw (visit_all-by_filter dep infos t) (
          omega
            (arith, visit_all-pending dep infos t, total-remove length dep infos s.by_filter at)))
]

pub use_deps-work {ℓ} :
    {D : Type ℓ} (deps : List String) (s : Selector D) → work (foldl use_dep s deps) ≤ work s
use_deps-work [] s = omega arith
use_deps-work (dep ∷ deps) s = omega (arith, use_deps-work deps (use_dep s dep), use_dep-work s dep)

pub lookup-use_dep {ℓ} :
    {D : Type ℓ} (s : Selector D) (dep f : String)
    → lookup f (use_dep s dep).by_filter ≡ (if dep == f then none else lookup f s.by_filter)
unfolding use_dep
lookup-use_dep s dep f = elim (Option-cases (lookup dep s.by_filter)) [
  | inl gone ↦ rw (gone, use_dep) (ground (arith, eq_iff dep f))
  | inr (infos, at) ↦
      let t = record s { by_filter = remove dep s.by_filter } in
      rw (at, use_dep) (rw (visit_all-by_filter dep infos t) (lookup-remove dep f s.by_filter))
]

pub lookup-use_deps {ℓ} :
    {D : Type ℓ} (deps : List String) (s : Selector D) (f : String)
    → lookup f (foldl use_dep s deps).by_filter
      ≡ (if contains deps f then none else lookup f s.by_filter)
lookup-use_deps [] s f = refl
lookup-use_deps (dep ∷ deps) s f = ground (
  arith,
  lookup-use_deps deps (use_dep s dep) f,
  lookup-use_dep s dep f,
  eq_iff dep f,
  eq_iff f dep,
)

module _ {D : Type 0} ⦃e : Comparable D⦄ (dce : D → Info) (ds rest : List (D × Bool))
    (selection : List D) where
  -- Only the buckets change, and every filter that waited still waits.
  pub rebucket-Inv :
      (old new : String) (ps qs : List ℕ) (s : Selector D) (m : Assoc String (List ℕ))
      → ((g : String) (p : ℕ) → waits old ps s.by_filter g p ≡ true → waits new qs m g p ≡ true)
      → Inv dce ds rest old ps selection s
      → Inv dce ds rest new qs selection (record s { by_filter = m })
  rebucket-Inv old new ps qs s m w h = record {
    live = h.live;
    cell = λ p info k.
        let ok = h.cell p info k in
        record {
          known = ok.known;
          object = ok.object;
          method = ok.method;
          object_waits = w info.object_filter p ok.object_waits;
          method_waits = w info.method_filter p ok.method_waits;
          released = ok.released;
        };
    fresh = h.fresh;
    alive_found = h.alive_found;
    link_found = h.link_found;
    has_cell = h.has_cell;
  }

  pub use_dep-Inv :
      (s : Selector D) (dep : String)
      → Resolved dce ds dep
      → Inv dce ds rest "" [] selection s
      → Inv dce ds rest "" [] selection (use_dep s dep)
  unfolding use_dep
  use_dep-Inv s dep r h = elim (Option-cases (lookup dep s.by_filter)) [
    | inl gone ↦ rw (gone, use_dep) h
    | inr (infos, at) ↦
        let t = record s { by_filter = remove dep s.by_filter } in
        rw (at, use_dep)
          (rebucket-Inv dep "" [] [] (foldl (visit dep) t infos) _ (λ g p k. ground arith)
            (visit_all-Inv dce ds rest dep r selection infos t (
              rebucket-Inv "" dep [] infos s _
                (λ g p k. waits-remove "" dep g p infos s.by_filter at k) h)))
  ]

  pub use_deps-Inv :
      (deps : List String) (s : Selector D)
      → ((f : String) → contains deps f ≡ true → Resolved dce ds f)
      → Inv dce ds rest "" [] selection s
      → Inv dce ds rest "" [] selection (foldl use_dep s deps)
  use_deps-Inv [] s r h = h
  use_deps-Inv (dep ∷ deps) s r h =
      use_deps-Inv deps (use_dep s dep) (λ f k. r f (ground arith))
        (use_dep-Inv s dep (r dep (ground (arith, eq_iff dep dep))) h)
