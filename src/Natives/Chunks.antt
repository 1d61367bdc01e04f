-- ===== src/Natives/Chunks.antt =====
-- `Hash.Write` of hash/maphash: writing in parts is writing the whole.
use mathlib.Core.List.{append_assoc, append-nil}
use gopherjs.Base.{
  ℕ, zero, suc, ◌+◌, ◌-◌, ◌<◌, ◌≤◌, ◌≡◌, true, false, nat_eq, nat_eq_iff, ltb, some, [], ◌∷◌, ◌++◌,
  length, take, drop, if◌then◌else◌, refl, sym, ap, ◌∙◌, arith, inl, inr, Bool-cases, length-append,
  length-take, length-drop, take-append-drop,
}
use gopherjs.Base.Bytes.{Bytes}
use gopherjs.Natives.MapHash.{Setting, Hash, rthash, write_loop, write, seeded}

module _ (set : Setting) where
  -- One byte after the other: a full buffer is hashed when the next byte comes.
  unfoldable pub feed : Bytes → ℕ → Bytes → ℕ × Bytes
  feed [] state pending = (state, pending)
  feed (x ∷ b) state pending =
      let full = feed b (rthash set pending state) (x ∷ []) in
      let room = feed b state (pending ++ x ∷ []) in
      if nat_eq (length pending) set.buf_size then full else room

  -- `initSeed` makes a seed when there is none and then leaves it and the state alone.
  abbrev pub IsSetting : Type 0
  IsSetting =
      (0 < set.buf_size)
      × ((seed state other : ℕ)
          → set.init_seed (set.init_seed seed state).0 other
            ≡ ((set.init_seed seed state).0, other))

  feed-append :
      (a b : Bytes) (state : ℕ) (pending : Bytes)
      → feed (a ++ b) state pending ≡ feed b (feed a state pending).0 (feed a state pending).1
  unfolding feed
  feed-append [] b state pending = refl
  feed-append (x ∷ a) b state pending = elim (Bool-cases (nat_eq (length pending) set.buf_size)) [
    | inl full ↦ rw full (feed-append a b (rthash set pending state) (x ∷ []))
    | inr room ↦ rw room (feed-append a b state (pending ++ x ∷ []))
  ]

  -- Bytes that fit are put behind the pending ones.
  feed-fits :
      (b : Bytes) (state : ℕ) (pending : Bytes)
      → length pending + length b ≤ set.buf_size
      → feed b state pending ≡ (state, pending ++ b)
  unfolding feed
  feed-fits [] state pending h = ap (λ p. (state, p)) (sym (append-nil pending))
  feed-fits (x ∷ b) state pending h =
      let room : nat_eq (length pending) set.buf_size ≡ false = ground arith in
      rw room (
        feed-fits b state (pending ++ x ∷ []) (omega (arith, length-append pending (x ∷ [])))
        ∙ ap (λ p. (state, p)) (append_assoc pending (x ∷ []) b))

  -- A full buffer can be hashed before the next byte comes.
  feed-full :
      (b : Bytes) (state : ℕ) (pending : Bytes)
      → 0 < set.buf_size
      → 0 < length b
      → length pending ≡ set.buf_size
      → feed b state pending ≡ feed b (rthash set pending state) []
  unfolding feed
  feed-full [] state pending wide some_bytes full = absurd (omega arith)
  feed-full (x ∷ b) state pending wide some_bytes full =
      let at_end = (nat_eq_iff (length pending) set.buf_size).1 full in
      let empty : nat_eq 0 set.buf_size ≡ false = ground arith in rw (at_end, empty) refl

  feed-chunk :
      (k : ℕ) (b : Bytes) (state : ℕ) (pending : Bytes)
      → 0 < set.buf_size
      → length pending + k ≡ set.buf_size
      → k < length b
      → feed b state pending ≡ feed (drop k b) (rthash set (pending ++ take k b) state) []
  feed-chunk k b state pending wide sum h =
      let taken : length (take k b) ≡ k = omega (arith, length-take k b) in
      let full : length (pending ++ take k b) ≡ set.buf_size =
        omega (arith, length-append pending (take k b)) in
      ap (λ c. feed c state pending) (sym (take-append-drop k b))
      ∙ feed-append (take k b) (drop k b) state pending
      ∙ ap (λ r. feed (drop k b) r.0 r.1) (feed-fits (take k b) state pending (omega arith))
      ∙ feed-full (drop k b) state (pending ++ take k b) wide (omega (arith, length-drop k b)) full

  empty_room : 0 < set.buf_size → nat_eq 0 set.buf_size ≡ false
  empty_room wide = ground arith

  write_loop-feed :
      (fuel : ℕ) (b : Bytes) (state : ℕ) (pending : Bytes)
      → 0 < set.buf_size
      → length pending ≤ set.buf_size
      → length b + (if nat_eq (length pending) set.buf_size then 1 else 0) < fuel
      → write_loop set fuel b state pending ≡ some (feed b state pending)
  unfolding write_loop
  write_loop-feed zero b state pending wide h enough = absurd (omega arith)
  write_loop-feed (suc fuel) b state pending wide h enough =
      elim (Bool-cases (ltb set.buf_size (length pending + length b))) [
        | inr fits ↦ rw fits (ap some (sym (feed-fits b state pending (ground arith))))
        | inl over ↦
            let k = set.buf_size - length pending in
            let rest =
              write_loop-feed fuel (drop k b) (rthash set (pending ++ take k b) state) [] wide
                (omega arith) (rw (empty_room wide) (ground (arith, length-drop k b))) in
            rw over (
              rest ∙ ap some (sym (feed-chunk k b state pending wide (omega arith) (ground arith))))
      ]

  feed-length :
      (b : Bytes) (state : ℕ) (pending : Bytes)
      → 0 < set.buf_size
      → length pending ≤ set.buf_size
      → length (feed b state pending).1 ≤ set.buf_size
  unfolding feed
  feed-length [] state pending wide h = h
  feed-length (x ∷ b) state pending wide h =
      elim (Bool-cases (nat_eq (length pending) set.buf_size)) [
        | inl full ↦ rw full (feed-length b (rthash set pending state) (x ∷ []) wide (omega arith))
        | inr room ↦
            let fits : length (pending ++ x ∷ []) ≤ set.buf_size =
              ground (arith, length-append pending (x ∷ [])) in
            rw room (feed-length b state (pending ++ x ∷ []) wide fits)
      ]

  -- What `Write` comes to.
  abbrev made : ℕ → ℕ × Bytes → Hash
  made seed (state, pending) = record { seed = seed; state = state; pending = pending }

  abbrev wrote : Bytes → Hash → Hash
  wrote b h = made (seeded set b h).0 (feed b (seeded set b h).1 h.pending)

  write-feed :
      (b : Bytes) (h : Hash)
      → 0 < set.buf_size
      → length h.pending ≤ set.buf_size
      → write set b h ≡ some (wrote b h)
  unfolding write
  write-feed b h wide small =
      rw
        (write_loop-feed (suc (suc (length b))) b (seeded set b h).1 h.pending wide small
          (ground arith))
        refl

  seeded-over :
      (b : Bytes) (h : Hash)
      → ltb set.buf_size (length h.pending + length b) ≡ true
      → seeded set b h ≡ set.init_seed h.seed h.state
  seeded-over b h over = rw over refl

  seeded-fits :
      (b : Bytes) (h : Hash)
      → ltb set.buf_size (length h.pending + length b) ≡ false
      → seeded set b h ≡ (h.seed, h.state)
  seeded-fits b h fits = rw fits refl

  parts-fit :
      (a b : Bytes) (h : Hash)
      → ltb set.buf_size (length h.pending + length a) ≡ false
      → wrote b (wrote a h) ≡ wrote (a ++ b) h
  parts-fit a b h fits =
      let room : length h.pending + length a ≤ set.buf_size = ground arith in
      let first : wrote a h ≡ made h.seed (h.state, h.pending ++ a) =
        ap (λ s. made s.0 (feed a s.1 h.pending)) (seeded-fits a h fits)
        ∙ ap (made h.seed) (feed-fits a h.state h.pending room) in
      let same_seed : seeded set b (made h.seed (h.state, h.pending ++ a)) ≡ seeded set (a ++ b) h =
        ap (λ n. if ltb set.buf_size n then set.init_seed h.seed h.state else (h.seed, h.state))
          {x = length (h.pending ++ a) + length b} {y = length h.pending + length (a ++ b)}
          (omega (arith, length-append h.pending a, length-append a b)) in
      let s = seeded set (a ++ b) h in
      ap (wrote b) first
      ∙ ap (λ s. made s.0 (feed b s.1 (h.pending ++ a))) same_seed
      ∙ ap (made s.0) (
          ap (λ r. feed b r.0 r.1) (sym (feed-fits a s.1 h.pending room))
          ∙ sym (feed-append a b s.1 h.pending))

  seeded-again :
      (b : Bytes) (seed state : ℕ) (f : ℕ × Bytes)
      → IsSetting
      → seeded set b (made (set.init_seed seed state).0 f) ≡ ((set.init_seed seed state).0, f.0)
  seeded-again b seed state (other, pending) (wide, once) =
      elim (Bool-cases (ltb set.buf_size (length pending + length b))) [
        | inl over ↦
            seeded-over b (made (set.init_seed seed state).0 (other, pending)) over
            ∙ once seed state other
        | inr fits ↦ seeded-fits b (made (set.init_seed seed state).0 (other, pending)) fits
      ]

  parts-over :
      (a b : Bytes) (h : Hash)
      → IsSetting
      → ltb set.buf_size (length h.pending + length a) ≡ true
      → wrote b (wrote a h) ≡ wrote (a ++ b) h
  parts-over a b h ok over =
      let s = set.init_seed h.seed h.state in
      let f = feed a s.1 h.pending in
      let whole_over : ltb set.buf_size (length h.pending + length (a ++ b)) ≡ true =
        ground (arith, length-append a b) in
      ap (λ s. wrote b (made s.0 (feed a s.1 h.pending))) (seeded-over a h over)
      ∙ ap (λ t. made t.0 (feed b t.1 f.1)) (seeded-again b h.seed h.state f ok)
      ∙ ap (made s.0) (sym (feed-append a b s.1 h.pending))
      ∙ ap (λ t. made t.0 (feed (a ++ b) t.1 h.pending)) (sym (seeded-over (a ++ b) h whole_over))

  wrote-parts : (a b : Bytes) (h : Hash) → IsSetting → wrote b (wrote a h) ≡ wrote (a ++ b) h
  wrote-parts a b h ok = elim (Bool-cases (ltb set.buf_size (length h.pending + length a))) [
    | inl over ↦ parts-over a b h ok over
    | inr fits ↦ parts-fit a b h fits
  ]

  -- Writing a text in two parts leaves the Hash as writing it at once does, so the sums agree; and
  -- every write ends.
  pub write-append :
      (a b : Bytes) (h : Hash)
      → IsSetting
      → length h.pending ≤ set.buf_size
      → (h' : Hash) × (write set a h ≡ some h')
        × (write set b h' ≡ write set (a ++ b) h)
        × (whole : Hash) × (write set (a ++ b) h ≡ some whole)
  write-append a b h ok small =
      let small' = feed-length a (seeded set a h).1 h.pending ok.0 small in
      let all = write-feed (a ++ b) h ok.0 small in
      (
        wrote a h,
        write-feed a h ok.0 small,
        write-feed b (wrote a h) ok.0 small' ∙ ap some (wrote-parts a b h ok) ∙ sym all,
        wrote (a ++ b) h,
        all,
      )
