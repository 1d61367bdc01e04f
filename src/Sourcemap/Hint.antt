-- ===== src/Sourcemap/Hint.antt =====
-- internal/sourcemapx/hint.go and identifier.go. A panic is `err` with its reason.
use gopherjs.Base.{
  ◌≡◌, ℕ, ◌+◌, ◌*◌, ◌/◌, ◌%◌, Bool, Option, none, some, [], ◌∷◌, ltb, nat_eq, not, if◌then◌else◌,
  length, take, Result, ok, err, ◌>>=◌,
}
use gopherjs.Base.Bytes.{Bytes, index_byte}

-- the byte '\b'
abbrev pub hint_magic : ℕ
hint_magic = 8

pub record Hint : Type 0 where
  pub payload : Bytes

pub data Fault : Type 0 where
  short_header no_magic short_payload long_payload : Fault
  unsupported_type encode_failed : Fault
  no_type_flag bad_type_flag decode_failed : Fault

unfoldable pub find_hint : Bytes → Option ℕ
unfolding index_byte
find_hint b = index_byte b hint_magic

-- binary.BigEndian.Uint16
abbrev pub uint16 : ℕ → ℕ → ℕ
uint16 high low = high * 256 + low

-- The part of `ReadHint` behind the header, whose size field is `size`.
abbrev read_payload : ℕ → Bytes → Bytes → Result Fault (Hint × ℕ)
read_payload size b rest =
    if ltb (length b) (size + 3)
    then err short_payload
    else ok (record { payload = take size rest }, size + 3)

unfoldable pub read_hint : Bytes → Result Fault (Hint × ℕ)
read_hint (magic ∷ high ∷ low ∷ rest) =
    if not (nat_eq magic hint_magic)
    then err no_magic
    else read_payload (uint16 high low) (magic ∷ high ∷ low ∷ rest) rest
read_hint _ = err short_header

-- The bytes that `WriteTo` hands to the writer.
unfoldable pub encode : Hint → Result Fault Bytes
encode h =
    let size = length h.payload in
    if ltb 0xFFFF size
    then err long_payload
    else ok (hint_magic ∷ (size / 256 % 256) ∷ (size % 256) ∷ h.payload)

-- An `io.Writer`: what a call leaves behind, the number of bytes that it took, and whether it failed.
pub record Writer (W : Type 0) : Type 0 where
  pub write : W → Bytes → W × ℕ × Bool

pub record Written (W : Type 0) : Type 0 where
  pub writer : W
  pub n : ℕ
  pub failed : Bool

-- The panic for a long payload is `err`; a failed write is returned with its count.
unfoldable pub write_to : {W : Type 0} → Writer W → Hint → W → Result Fault (Written W)
unfolding encode
write_to out h w = do
  encoded ← encode h
  let (w', n, failed) = out.write w encoded
  ok (record { writer = w'; n = n; failed = failed })

pub record Identifier : Type 0 where
  pub name : Bytes
  pub original_name : Bytes
  pub original_pos : ℕ

-- The values that are handed to `Pack`, `other` for a type that it does not support.
pub data Value : Type 0 where
  pos : ℕ → Value
  ident : Identifier → Value
  other : Value

-- encoding/gob on the two supported types. What was encoded decodes to the value.
pub record Gob : Type 0 where
  pub encode_pos : ℕ → Option Bytes
  pub decode_pos : Bytes → Option ℕ
  pub encode_ident : Identifier → Option Bytes
  pub decode_ident : Bytes → Option Identifier
  pub pos_roundtrip : (p : ℕ) (b : Bytes) → encode_pos p ≡ some b → decode_pos b ≡ some p
  pub ident_roundtrip :
      (i : Identifier) (b : Bytes) → encode_ident i ≡ some b → decode_ident b ≡ some i

module _ (gob : Gob) where
  abbrev flagged : ℕ → Option Bytes → Result Fault Hint
  flagged flag none = err encode_failed
  flagged flag (some encoded) = ok (record { payload = flag ∷ encoded })

  -- The hint with the new payload; on an error the hint is left as it was.
  unfoldable pub pack : Value → Result Fault Hint
  pack (pos p) = flagged 1 (gob.encode_pos p)
  pack (ident i) = flagged 2 (gob.encode_ident i)
  pack other = err unsupported_type

  abbrev decoded : {A : Type 0} → (A → Value) → Option A → Result Fault Value
  decoded f none = err decode_failed
  decoded f (some a) = ok (f a)

  abbrev unpack_payload : Bytes → Result Fault Value
  unpack_payload [] = err no_type_flag
  unpack_payload (flag ∷ rest) =
      if nat_eq flag 1
      then decoded pos (gob.decode_pos rest)
      else if nat_eq flag 2
      then decoded ident (gob.decode_ident rest)
      else err bad_type_flag

  unfoldable pub unpack : Hint → Result Fault Value
  unpack h = unpack_payload h.payload

  -- `Identifier.EncodeHint`: a strings.Builder takes every write whole.
  unfoldable pub encode_hint : Identifier → Result Fault Bytes
  unfolding pack encode
  encode_hint i = do h ← pack (ident i); encode h
