-- ===== src/Nosync/WaitGroup.antt =====
-- nosync/mutex.go: WaitGroup. The counter is an `int`, kept as its bit pattern; `half` is 2^(w-1)
-- for the w bits of an `int`. What `Add` wrote stays written where it panics.
use gopherjs.Base.{
  ◌↔◌, ℕ, zero, suc, ◌+◌, ◌-◌, ◌%◌, ◌<◌, ◌≤◌, none, some, ◌≡◌, nat_eq, nat_eq_iff, leb, not,
  if◌then◌else◌, arith, ap, sym, ◌∙◌,
}
use gopherjs.Nosync.Method.{
  negative_counter, counter_not_zero, Method, return, panic, ◌>>◌, >>-quiet,
}

pub record WaitGroup : Type 0 where
  pub counter : ℕ

module _ (half : ℕ) where
  -- -1
  abbrev pub minus_one : ℕ
  minus_one = half + half - 1

  unfoldable pub add : ℕ → Method WaitGroup
  add delta wg =
      let wg' : WaitGroup = record { counter = (wg.counter + delta) % (half + half) } in
      if leb half wg'.counter then panic negative_counter wg' else return wg'

  unfoldable pub done : Method WaitGroup
  unfolding add
  done = add minus_one

  unfoldable pub wait : Method WaitGroup
  wait wg = if not (nat_eq wg.counter 0) then panic counter_not_zero wg else return wg

  -- `Done`, n times
  unfoldable pub done_times : ℕ → Method WaitGroup
  done_times zero wg = return wg
  done_times (suc n) wg = (done >> done_times n) wg

  module _ (wide : 0 < half) where
    down-suc : (n : ℕ) → suc n < half → (suc n + minus_one) % (half + half) ≡ n
    down-suc n h =
        ap (λ k. k % (half + half)) {x = suc n + minus_one} {y = n + (half + half)} (omega arith)
        ∙ grind arith

    down-zero : (0 + minus_one) % (half + half) ≡ minus_one
    down-zero = grind arith

    done-suc :
        (n : ℕ) → suc n < half → done (record { counter = suc n }) ≡ (record { counter = n }, none)
    unfolding done
    done-suc n h = rw (down-suc n h) (ground arith)

    done-zero :
        done (record { counter = 0 }) ≡ (record { counter = minus_one }, some negative_counter)
    unfolding done
    done-zero = rw down-zero (ground arith)

    done_times-eq :
        (k n : ℕ)
        → k + n < half
        → done_times k (record { counter = k + n }) ≡ (record { counter = n }, none)
    unfolding done_times
    done_times-eq zero n h =
        ap (λ c. (record { counter = c }, none)) {x = 0 + n} {y = n} (omega arith)
    done_times-eq (suc k) n h =
        ap (λ c. done_times (suc k) (record { counter = c })) {x = suc k + n} {y = suc (k + n)}
          (omega arith)
        ∙ >>-quiet done (done_times k) (record { counter = suc (k + n) })
            (ap (λ r. r.1) (done-suc (k + n) (omega arith)))
        ∙ ap (λ r. done_times k r.0) (done-suc (k + n) (omega arith))
        ∙ done_times-eq k n (omega arith)

    add-eq : (n : ℕ) → n < half → add n (record { counter = 0 }) ≡ (record { counter = n }, none)
    unfolding add
    add-eq n h = let fits : (0 + n) % (half + half) ≡ n = grind arith in rw fits (ground arith)

    -- After `Add` of n below 2^(w-1) on a new WaitGroup, any k calls of `Done` with k at most n raise
    -- no panic and leave the counter at n - k.
    pub add-done_times :
        (n k : ℕ)
        → n < half
        → k ≤ n
        → (add n >> done_times k) (record { counter = 0 }) ≡ (record { counter = n - k }, none)
    add-done_times n k few le =
        >>-quiet (add n) (done_times k) (record { counter = 0 }) (ap (λ r. r.1) (add-eq n few))
        ∙ ap (λ r. done_times k r.0) (add-eq n few)
        ∙ ap (λ c. done_times k (record { counter = c })) {x = n} {y = k + (n - k)} (omega arith)
        ∙ done_times-eq k (n - k) (omega arith)

    wait_iff : (c : ℕ) → ((wait (record { counter = c })).1 ≡ none) ↔ (c ≡ 0)
    unfolding wait
    wait_iff c = ground (arith, nat_eq_iff c 0)

    then-eq :
        (m : Method WaitGroup) (n k : ℕ)
        → n < half
        → k ≤ n
        → (add n >> done_times k >> m) (record { counter = 0 }) ≡ m (record { counter = n - k })
    then-eq m n k few le =
        >>-quiet (add n >> done_times k) m (record { counter = 0 })
          (ap (λ r. r.1) (add-done_times n k few le))
        ∙ ap (λ r. m r.0) (add-done_times n k few le)

    -- After those calls `Wait` raises no panic exactly when all n are done, and one `Done` more than
    -- were added panics and leaves the counter at -1.
    pub wait-and-overrun :
        (n k : ℕ)
        → n < half
        → k ≤ n
        → ((((add n >> done_times k >> wait) (record { counter = 0 })).1 ≡ none) ↔ (k ≡ n))
          × ((add n >> done_times n >> done) (record { counter = 0 })
              ≡ (record { counter = minus_one }, some negative_counter))
    wait-and-overrun n k few le =
        let last = then-eq wait n k few le in
        let (to, from) = wait_iff (n - k) in
        (
          (
            λ e. omega (arith, to (ap (λ r. r.1) (sym last) ∙ e)),
            λ e. ap (λ r. r.1) last ∙ from (omega arith),
          ),
          then-eq done n n few (omega arith)
              ∙ ap (λ c. done (record { counter = c })) {x = n - n} {y = 0} (omega arith)
              ∙ done-zero,
        )
