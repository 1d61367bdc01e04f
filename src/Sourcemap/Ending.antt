-- ===== src/Sourcemap/Ending.antt =====
-- `Filter.Write` ends on every input, well formed or not, and on every writer.
use gopherjs.Base.{
  ℕ, zero, suc, ◌+◌, ◌<◌, Bool, true, false, Option, none, some, ◌≡◌, ◌≢◌, length, Result, ok, err,
  arith, take, drop, length-drop, refl,
}
use gopherjs.Base.Bytes.{Bytes, index_byte-splits}
use gopherjs.Sourcemap.Hint.{Hint, Fault, Writer, Gob, hint_magic, find_hint, read_hint}
use gopherjs.Sourcemap.HintLaws.{read_hint-bounds}
use gopherjs.Sourcemap.Filter.{
  Position, Filter, out_of_fuel, write_code, map_hint, Round, stop, more, go_on, pass_hint,
  pass_code, round_at, round, write_loop, write,
}

module _ {W M : Type 0} where
  -- The round ended the call, or left a shorter rest.
  abbrev Advances : Bytes → Round W M → Type 0
  Advances p (stop outcome) = outcome ≢ out_of_fuel
  Advances p (more rest n f) = length rest < length p

module _ {W M : Type 0} (out : Writer W) (gob : Gob) (position : ℕ → Position) where
  go_on-Advances :
      (p rest : Bytes) (n : ℕ) (r : Result Fault (Filter W M))
      → length rest < length p
      → Advances p (go_on out gob position rest n r)
  go_on-Advances p rest n (err fault) h = λ e. cc
  go_on-Advances p rest n (ok f) h = h

  pass_hint-Advances :
      (p : Bytes) (i n : ℕ) (f : Filter W M) (r : Result Fault (Hint × ℕ))
      → read_hint (drop i p) ≡ r
      → i < length p
      → Advances p (pass_hint out gob position p i n f r)
  pass_hint-Advances p i n f (err fault) e h = λ k. cc
  pass_hint-Advances p i n f (ok (hint, size)) e h =
      let (counted, inside) = read_hint-bounds (drop i p) hint size e in
      go_on-Advances p (drop (i + size) p) (n + size) (map_hint out gob position hint f)
        (omega (arith, length-drop (i + size) p))

  pass_code-Advances :
      (p : Bytes) (i n : ℕ) (r : ℕ × Bool × Filter W M)
      → i < length p
      → Advances p (pass_code out gob position p i n r)
  pass_code-Advances p i n (n2, true, f) h = λ k. cc
  pass_code-Advances p i n (n2, false, f) h =
      pass_hint-Advances p i (n + n2) f (read_hint (drop i p)) refl h

  round_at-Advances :
      (p : Bytes) (n : ℕ) (f : Filter W M) (found : Option ℕ)
      → find_hint p ≡ found
      → Advances p (round_at out gob position p n f found)
  unfolding find_hint
  round_at-Advances p n f none e = λ k. cc
  round_at-Advances p n f (some i) e =
      pass_code-Advances p i n (write_code out gob position (take i p) f)
        (index_byte-splits p hint_magic i e).2

  round-Advances : (p : Bytes) (n : ℕ) (f : Filter W M) → Advances p (round out gob position p n f)
  unfolding round
  round-Advances p n f = round_at-Advances p n f (find_hint p) refl

  continue_ends :
      (fuel : ℕ) (p : Bytes) (r : Round W M)
      → ((rest : Bytes) (n : ℕ) (f : Filter W M)
          → length rest < fuel
          → write_loop out gob position fuel rest n f ≢ out_of_fuel)
      → length p < suc fuel
      → Advances p r
      → (elim r [
        | stop outcome ↦ outcome
        | more p' n' f' ↦ write_loop out gob position fuel p' n' f'
      ])
        ≢ out_of_fuel
  continue_ends fuel p (stop outcome) ih room h = h
  continue_ends fuel p (more rest n f) ih room h = ih rest n f (omega arith)

  write_loop_ends :
      (fuel : ℕ) (p : Bytes) (n : ℕ) (f : Filter W M)
      → length p < fuel
      → write_loop out gob position fuel p n f ≢ out_of_fuel
  unfolding write_loop
  write_loop_ends zero p n f room = absurd (omega arith)
  write_loop_ends (suc fuel) p n f room =
      continue_ends fuel p (round out gob position p n f) (write_loop_ends fuel) room
        (round-Advances p n f)

  -- Whatever bytes are written, through whatever writer, `Write` returns or panics: every round of
  -- its loop leaves a shorter rest.
  pub write_ends : (p : Bytes) (f : Filter W M) → write out gob position p f ≢ out_of_fuel
  unfolding write
  write_ends p f = write_loop_ends (suc (length p)) p 0 f (omega arith)
