-- ===== src/Natives/Strings.antt =====
-- compiler/natives/src/strings/strings.go: `Count` and `Repeat`. A string is a list of bytes. The
-- `indexOf` of JavaScript and `utf8.RuneCountInString` are parameters. An int has 32 bits.
use gopherjs.Base.{
  ℕ, zero, suc, ◌+◌, ◌-◌, ◌*◌, ◌/◌, ◌%◌, ◌^◌, not, nat_eq, leb, ltb, Option, none, some, Result, ok,
  err, [], ◌++◌, length, take, drop, if◌then◌else◌,
}
use gopherjs.Base.Bytes.{Bytes}
use gopherjs.Base.BytesEq.{bytes_equal}

module _ (index : Bytes → Bytes → Option ℕ) (rune_count : Bytes → ℕ) where
  -- the loop of `Count`; `none` is that the fuel ran out
  unfoldable pub count_from : ℕ → Bytes → Bytes → ℕ → Option ℕ
  count_from zero s sep n = none
  count_from (suc fuel) s sep n = elim (index s sep) [
    | none ↦ some n
    | some pos ↦ count_from fuel (drop (pos + length sep) s) sep (n + 1)
  ]

  unfoldable pub count : Bytes → Bytes → Option ℕ
  count s sep =
      if nat_eq (length sep) 0
      then some (rune_count s + 1)
      else (if ltb (length s) (length sep)
          then some 0
          else (if nat_eq (length sep) (length s)
              then (if bytes_equal sep s then some 1 else some 0)
              else count_from (suc (length s)) s sep 0))

pub data RepeatPanic : Type 0 where
  negative_count : RepeatPanic
  count_overflow : RepeatPanic
  out_of_fuel : RepeatPanic

-- `a/b` on int, for a positive `b`
abbrev pub int_div : ℕ → ℕ → ℕ
int_div a b = if ltb a (2 ^ 31) then a / b else (2 ^ 32 - (2 ^ 32 - a) / b) % 2 ^ 32

-- The loop of `Repeat` on what the builder holds.
unfoldable pub fill : ℕ → ℕ → Bytes → Option Bytes
fill zero n b = none
fill (suc fuel) n b =
    let doubled = fill fuel n (b ++ b) in
    if ltb (length b) n
    then if leb (length b) (n / 2) then doubled else some (b ++ take (n - length b) b)
    else some b

abbrev pub filled : Option Bytes → Result RepeatPanic Bytes
filled none = err out_of_fuel
filled (some b) = ok b

unfoldable pub repeat : Bytes → ℕ → Result RepeatPanic Bytes
repeat s count =
    if nat_eq count 0
    then ok []
    else (if leb (2 ^ 31) count
        then err negative_count
        else (if not (nat_eq (int_div (length s * count % 2 ^ 32) count) (length s))
            then err count_overflow
            else (let n = length s * count % 2 ^ 32 in filled (fill (suc n) n s))))
