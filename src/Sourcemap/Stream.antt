-- ===== src/Sourcemap/Stream.antt =====
-- What `Filter.Write` has to do with generated code: an independent description of the stream, of
-- the text that it stands for, and of the mappings that its hints call for.
use gopherjs.Base.{
  ℕ, ◌+◌, ◌≤◌, false, Option, none, some, List, [], ◌∷◌, ◌++◌, ◌≡◌, length, contains, ℕ_eq, ok, ◌/◌,
  ◌%◌,
}
use gopherjs.Base.Bytes.{Bytes}
use gopherjs.Sourcemap.Hint.{Hint, Writer, Value, pos, ident, other, Gob, hint_magic, unpack}
use gopherjs.Sourcemap.Filter.{Position, GoCallback}
use gopherjs.Sourcemap.Lines.{place_after}

-- Code, and the hint behind it with the value that was packed into it.
pub record Segment : Type 0 where
  pub code : Bytes
  pub hint : Hint
  pub value : Value

abbrev pub frame : Hint → Bytes
frame h = hint_magic ∷ (length h.payload / 256 % 256) ∷ (length h.payload % 256) ∷ h.payload

abbrev pub stream : List Segment → Bytes → Bytes
stream [] tail = tail
stream (s ∷ segments) tail = s.code ++ (frame s.hint ++ stream segments tail)

-- the stream without its hints
abbrev pub plain : List Segment → Bytes → Bytes
plain [] tail = tail
plain (s ∷ segments) tail = s.code ++ plain segments tail

module _ (gob : Gob) where
  abbrev pub IsSupported : Value → Type 0
  IsSupported (pos p) = Unit {0}
  IsSupported (ident i) = Unit {0}
  IsSupported other = ⊥

  -- Generated code holds no magic byte, and every hint was packed from a supported value.
  abbrev pub AreWellFormed : List Segment → Type 0
  AreWellFormed [] = Unit {0}
  AreWellFormed (s ∷ segments) =
      (contains s.code hint_magic ≡ false)
      × (length s.hint.payload ≤ 0xFFFF)
      × (unpack gob s.hint ≡ ok s.value)
      × IsSupported s.value
      × AreWellFormed segments

module _ {M : Type 0} (position : ℕ → Position) where
  -- The call of the callback for one value: lines count from 1, columns from 0.
  abbrev pub note : Option (GoCallback M) → ℕ × ℕ → Value → M → M
  note none place v m = m
  note (some callback) (line, column) (pos p) m = callback (line + 1) column (position p) [] m
  note (some callback) (line, column) (ident i) m =
      callback (line + 1) column (position i.original_pos) i.original_name m
  note (some callback) place other m = m

  -- Each hint is noted at the place where its code ends.
  abbrev pub notes : Option (GoCallback M) → ℕ × ℕ → List Segment → M → M
  notes callback place [] m = m
  notes callback place (s ∷ segments) m =
      notes callback (place_after place s.code) segments
        (note callback (place_after place s.code) s.value m)

-- A writer that never fails and takes every byte, such as a buffer.
pub record IsReliable {W : Type 0} (out : Writer W) (taken : W → Bytes) : Type 0 where
  pub keeps : (w : W) (b : Bytes) → taken (out.write w b).0 ≡ taken w ++ b
  pub counts : (w : W) (b : Bytes) → (out.write w b).1 ≡ length b
  pub succeeds : (w : W) (b : Bytes) → (out.write w b).2 ≡ false
