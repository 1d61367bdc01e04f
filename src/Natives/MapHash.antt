-- ===== src/Natives/MapHash.antt =====
-- compiler/natives/src/hash/maphash/maphash.go. Of the buffer of a Hash the model keeps `buf[:n]`, as
-- the code reads no more of it. `bufSize`, `initSeed` and the random `hashkey` come from elsewhere
-- and are parameters. A panic of an index out of range cannot occur in `memhash`; it reads 0 there.
use gopherjs.Base.{
  ℕ, zero, suc, ◌+◌, ◌-◌, ◌*◌, ◌/◌, ◌%◌, ◌^◌, nat_eq, ltb, leb, Option, none, some, [], ◌++◌,
  length, take, drop, get_elem?, if◌then◌else◌,
}
use gopherjs.Base.Bytes.{Bytes}
use gopherjs.Base.Words.{or32, xor32}

-- what the package is given
pub record Setting : Type 0 where
  pub buf_size : ℕ
  pub hashkey_zero : ℕ
  pub hashkey_one : ℕ
  pub hashkey_two : ℕ
  -- the seed and the state after `initSeed`
  pub init_seed : ℕ → ℕ → ℕ × ℕ

pub record Hash : Type 0 where
  pub seed : ℕ
  pub state : ℕ
  pub pending : Bytes

abbrev pub or_zero : Option ℕ → ℕ
or_zero none = 0
or_zero (some c) = c

abbrev pub byte_at : Bytes → ℕ → ℕ
byte_at p i = or_zero (get_elem? p i)

unfoldable pub read_unaligned32 : Bytes → ℕ
read_unaligned32 p =
    or32 (or32 (or32 (byte_at p 0) (byte_at p 1 * 2 ^ 8 % 2 ^ 32)) (byte_at p 2 * 2 ^ 16 % 2 ^ 32))
      (byte_at p 3 * 2 ^ 24 % 2 ^ 32)

module _ (set : Setting) where
  unfoldable pub mix32 : ℕ → ℕ → ℕ × ℕ
  mix32 a b =
      let c = xor32 a set.hashkey_one * xor32 b set.hashkey_two in (c % 2 ^ 32, c / 2 ^ 32 % 2 ^ 32)

  -- the rounds of `memhash` with more than 8 bytes; `fuel` bounds them
  unfoldable pub mem_rounds : ℕ → Bytes → ℕ × ℕ → Bytes × ℕ × ℕ
  mem_rounds zero p (a, b) = (p, a, b)
  mem_rounds (suc fuel) p (a, b) =
      let more =
        mem_rounds fuel (drop 8 p)
          (mix32 (xor32 a (read_unaligned32 p)) (xor32 b (read_unaligned32 (drop 4 p)))) in
      if ltb 8 (length p) then more else (p, a, b)

  -- the last bytes
  unfoldable pub mem_rest : Bytes → ℕ → ℕ → ℕ × ℕ
  mem_rest p a b =
      let s = length p in
      if leb 4 s
      then (xor32 a (read_unaligned32 p), xor32 b (read_unaligned32 (drop (s - 4) p)))
      else (
        a,
        xor32 b (
            or32 (or32 (byte_at p 0) (byte_at (drop (s / 2) p) 0 * 2 ^ 8 % 2 ^ 32))
              (byte_at (drop (s - 1) p) 0 * 2 ^ 16 % 2 ^ 32)),
      )

  unfoldable pub memhash : Bytes → ℕ → ℕ
  memhash p seed =
      let (a0, b0) = mix32 seed (xor32 (length p % 2 ^ 32) set.hashkey_zero) in
      let (rest, a1, b1) = mem_rounds (length p) p (a0, b0) in
      let (a2, b2) = mem_rest rest a1 b1 in
      let (a3, b3) = mix32 a2 b2 in
      let (a4, b4) = mix32 a3 b3 in if nat_eq (length p) 0 then xor32 a0 b0 else xor32 a4 b4

  unfoldable pub rthash : Bytes → ℕ → ℕ
  rthash b seed =
      if nat_eq (length b) 0
      then seed
      else memhash b (seed / 2 ^ 32 % 2 ^ 32) * 2 ^ 32 + memhash b (seed % 2 ^ 32)

  -- The loop of `Write` and the copy behind it: the state and `buf[:n]`; `none` is that the fuel
  -- ran out.
  unfoldable pub write_loop : ℕ → Bytes → ℕ → Bytes → Option (ℕ × Bytes)
  write_loop zero b state pending = none
  write_loop (suc fuel) b state pending =
      let k = set.buf_size - length pending in
      let again = write_loop fuel (drop k b) (rthash (pending ++ take k b) state) [] in
      if ltb set.buf_size (length pending + length b) then again else some (state, pending ++ b)

  abbrev pub written : ℕ → Option (ℕ × Bytes) → Option Hash
  written seed none = none
  written seed (some (state, pending)) =
      some (record { seed = seed; state = state; pending = pending })

  abbrev pub seeded : Bytes → Hash → ℕ × ℕ
  seeded b h =
      if ltb set.buf_size (length h.pending + length b)
      then set.init_seed h.seed h.state
      else (h.seed, h.state)

  -- `Write` and `WriteString`
  unfoldable pub write : Bytes → Hash → Option Hash
  write b h = written (seeded b h).0 (write_loop (suc (suc (length b))) b (seeded b h).1 h.pending)

  -- `none` is the panic
  unfoldable pub flush : Hash → Option Hash
  flush h =
      if nat_eq (length h.pending) set.buf_size
      then some (record {
        seed = (set.init_seed h.seed h.state).0;
        state = rthash h.pending (set.init_seed h.seed h.state).1;
        pending = [];
      })
      else none

  -- the Hash afterwards, and the sum
  unfoldable pub sum64 : Hash → Hash × ℕ
  sum64 h =
      let (seed, state) = set.init_seed h.seed h.state in
      (record { seed = seed; state = state; pending = h.pending }, rthash h.pending state)
