-- ===== src/Sourcemap/Lines.antt =====
-- The newline loop of `Filter.Write` counts lines and columns byte by byte.
use mathlib.Core.List.{foldl, foldl-append}
use gopherjs.Base.{
  ℕ, zero, suc, ◌+◌, ◌<◌, ◌≡◌, Option-cases, false, none, [], ◌∷◌, ◌++◌, if◌then◌else◌, nat_eq,
  arith, length, take, drop, contains, ℕ_eq, inl, inr, sym, ap, ◌∙◌, length-drop,
}
use gopherjs.Base.Bytes.{Bytes, index_byte, index_byte-splits, index_byte-absent}
use gopherjs.Sourcemap.Filter.{newline, advance}

-- Where the output stands after one more byte, and after a text.
abbrev pub next_place : ℕ × ℕ → ℕ → ℕ × ℕ
next_place (line, column) b = if nat_eq b newline then (line + 1, 0) else (line, column + 1)

abbrev pub place_after : ℕ × ℕ → Bytes → ℕ × ℕ
place_after place w = foldl next_place place w

place_after-plain :
    (line column : ℕ) (w : Bytes)
    → index_byte w newline ≡ none
    → place_after (line, column) w ≡ (line, column + length w)
unfolding index_byte
place_after-plain line column [] h = ground arith
place_after-plain line column (b ∷ w) h =
    let here : nat_eq b newline ≡ false = ground arith in
    rw here (
      place_after-plain line (column + 1) w (ground (arith, Option-cases (index_byte w newline)))
      ∙ ground arith)

pub place_after-append :
    (place : ℕ × ℕ) (v w : Bytes) → place_after place (v ++ w) ≡ place_after (place_after place v) w
place_after-append place v w = foldl-append next_place place v w

-- A newline begins the next line, whatever stood before it.
place_after-line :
    (line column : ℕ) (before rest : Bytes)
    → contains before newline ≡ false
    → place_after (line, column) (before ++ newline ∷ rest) ≡ place_after (line + 1, 0) rest
place_after-line line column before rest h =
    place_after-append (line, column) before (newline ∷ rest)
    ∙ ap (λ place. place_after place (newline ∷ rest))
        (place_after-plain line column before (index_byte-absent before newline h))

-- With enough rounds the loop stands where the bytes lead, one by one.
pub advance-place_after :
    (fuel : ℕ) (w : Bytes) (line column : ℕ)
    → length w < fuel
    → advance fuel w (line, column) ≡ place_after (line, column) w
unfolding advance
advance-place_after zero w line column h = absurd (omega arith)
advance-place_after (suc fuel) w line column h = elim (Option-cases (index_byte w newline)) [
  | inl none_left ↦ rw (none_left, advance) (sym (place_after-plain line column w none_left))
  | inr (i, at) ↦
      let (split, plain, inside) = index_byte-splits w newline i at in
      rw (at, advance)
        (advance-place_after fuel (drop (suc i) w) (line + 1) 0
            (omega (arith, length-drop (suc i) w))
          ∙ sym (place_after-line line column (take i w) (drop (suc i) w) plain)
          ∙ ap (place_after (line, column)) split)
]
