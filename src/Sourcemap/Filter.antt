-- ===== src/Sourcemap/Filter.antt =====
-- internal/sourcemapx/filter.go: the writer that takes the hints out of the generated code. The
-- source map, the position table and esbuild are not under the repository: `Mapping` is the record
-- that the code hands to `sourcemap.Map`, and `FileSet.Position` is a parameter.
use gopherjs.Base.{
  ℕ, zero, suc, ◌+◌, Bool, true, false, Option, none, some, [], length, take, drop, Result, ok, err,
}
use gopherjs.Base.Bytes.{Bytes, index_byte}
use gopherjs.Sourcemap.Hint.{
  Hint, Fault, Writer, Value, pos, ident, other, Gob, find_hint, read_hint, unpack,
}

-- token.Position; a line of 0 makes it invalid
pub record Position : Type 0 where
  pub filename : Bytes
  pub line : ℕ
  pub column : ℕ

-- sourcemap.Mapping
pub record Mapping : Type 0 where
  pub generated_line : ℕ
  pub generated_column : ℕ
  pub original_file : Bytes
  pub original_line : ℕ
  pub original_column : ℕ
  pub original_name : Bytes

-- `M` is what the mapping callbacks change.
abbrev pub GoCallback : Type 0 → Type 0
GoCallback M = ℕ → ℕ → Position → Bytes → M → M

pub record Filter (W M : Type 0) : Type 0 where
  pub writer : W
  pub go_mapping_callback : Option (GoCallback M)
  pub mapped : M
  pub line : ℕ
  pub column : ℕ

-- What `Write` does: it returns a count and whether the writer failed, or panics.
pub data Outcome (W M : Type 0) : Type 0 where
  returned : ℕ → Bool → Filter W M → Outcome W M
  panicked : Fault → Outcome W M
  out_of_fuel : Outcome W M

-- A round of the loop of `Write` ends the call, or leaves a rest.
pub data Round (W M : Type 0) : Type 0 where
  stop : Outcome W M → Round W M
  more : Bytes → ℕ → Filter W M → Round W M

abbrev pub newline : ℕ
newline = 10

-- The loop over the newlines of `w`.
unfoldable pub advance : ℕ → Bytes → ℕ × ℕ → ℕ × ℕ
unfolding index_byte
advance zero w (line, column) = (line, column + length w)
advance (suc fuel) w (line, column) = elim (index_byte w newline) [
  | none ↦ (line, column + length w)
  | some i ↦ advance fuel (drop (suc i) w) (line + 1, 0)
]

module _ {W M : Type 0} (out : Writer W) (gob : Gob) (position : ℕ → Position) where
  abbrev pub moved : Filter W M → W → ℕ × ℕ → Filter W M
  moved f w (line, column) = record f { writer = w; line = line; column = column }

  -- the call of `f.Writer.Write` and the count of lines and columns
  unfoldable pub write_code : Bytes → Filter W M → ℕ × Bool × Filter W M
  unfolding advance
  write_code w f =
      let (writer, n, failed) = out.write f.writer w in
      (n, failed, moved f writer (advance (suc (length w)) w (f.line, f.column)))

  abbrev pub called : Filter W M → GoCallback M → Position → Bytes → Filter W M
  called f callback p name = record f { mapped = callback (f.line + 1) f.column p name f.mapped }

  -- the switch over the type of the unpacked value
  abbrev pub map_value : Filter W M → GoCallback M → Result Fault Value → Result Fault (Filter W M)
  map_value f callback (err fault) = err fault
  map_value f callback (ok (pos p)) = ok (called f callback (position p) [])
  map_value f callback (ok (ident i)) =
      ok (called f callback (position i.original_pos) i.original_name)
  map_value f callback (ok other) = err Fault.unsupported_type

  unfoldable pub map_hint : Hint → Filter W M → Result Fault (Filter W M)
  map_hint h f = elim f.go_mapping_callback [
    | none ↦ ok f
    | some callback ↦ map_value f callback (unpack gob h)
  ]

  -- behind the switch over the hint's value
  abbrev pub go_on : Bytes → ℕ → Result Fault (Filter W M) → Round W M
  go_on p n (err fault) = stop (panicked fault)
  go_on p n (ok f) = more p n f

  -- behind the call of `ReadHint`
  abbrev pub pass_hint : Bytes → ℕ → ℕ → Filter W M → Result Fault (Hint × ℕ) → Round W M
  pass_hint p i n f (err fault) = stop (panicked fault)
  pass_hint p i n f (ok (h, size)) = go_on (drop (i + size) p) (n + size) (map_hint h f)

  -- behind the write of the code before the hint
  abbrev pub pass_code : Bytes → ℕ → ℕ → ℕ × Bool × Filter W M → Round W M
  pass_code p i n (n2, true, f) = stop (returned (n + n2) true f)
  pass_code p i n (n2, false, f) = pass_hint p i (n + n2) f (read_hint (drop i p))

  abbrev pub last_code : ℕ → ℕ × Bool × Filter W M → Round W M
  last_code n (n2, failed, f) = stop (returned (n + n2) failed f)

  abbrev pub round_at : Bytes → ℕ → Filter W M → Option ℕ → Round W M
  round_at p n f none = last_code n (write_code p f)
  round_at p n f (some i) = pass_code p i n (write_code (take i p) f)

  -- One round of the loop of `Write` over the rest `p`, when `n` bytes have been counted.
  unfoldable pub round : Bytes → ℕ → Filter W M → Round W M
  round p n f = round_at p n f (find_hint p)

  unfoldable pub write_loop : ℕ → Bytes → ℕ → Filter W M → Outcome W M
  write_loop zero p n f = out_of_fuel
  write_loop (suc fuel) p n f = elim (round p n f) [
    | stop outcome ↦ outcome
    | more p' n' f' ↦ write_loop fuel p' n' f'
  ]

  unfoldable pub write : Bytes → Filter W M → Outcome W M
  unfolding write_loop round write_code map_hint find_hint read_hint unpack
  write p f = write_loop (suc (length p)) p 0 f
