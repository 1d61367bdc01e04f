-- ===== src/Sourcemap/HintLaws.antt =====
-- Hints are read back as they were written.
use gopherjs.Base.{
  Option-cases, ok_inj, inl, inr, ℕ, ◌+◌, ◌≤◌, [], ◌∷◌, ◌++◌, ◌≡◌, arith, length, length-append,
  take-append, length-take, ◌∙◌, ◌/◌, ◌%◌, ok,
}
use gopherjs.Base.Bytes.{Bytes}
use gopherjs.Sourcemap.Hint.{
  pos, ident, other, Hint, hint_magic, read_hint, uint16, encode, Gob, Value, pack, unpack,
}

pub encode-eq :
    (h : Hint) (bytes : Bytes)
    → encode h ≡ ok bytes
    → (length h.payload ≤ 0xFFFF)
      × (bytes ≡ hint_magic ∷ (length h.payload / 256 % 256) ∷ (length h.payload % 256) ∷ h.payload)
unfolding encode
encode-eq h bytes e = ground arith

pub read_hint-frame :
    (payload rest : Bytes)
    → length payload ≤ 0xFFFF
    → read_hint
        (hint_magic ∷ (length payload / 256 % 256) ∷ (length payload % 256) ∷ (payload ++ rest))
      ≡ ok (record { payload = payload }, length payload + 3)
unfolding read_hint
read_hint-frame payload rest fits =
    let size : uint16 (length payload / 256 % 256) (length payload % 256) ≡ length payload =
      omega arith in
    rw size (ground (arith, length-append payload rest, take-append payload rest))

-- What `WriteTo` produces for a hint, followed by anything at all, is read back by `ReadHint` as
-- the same hint, with the number of bytes that were produced.
pub read_hint-encode :
    (h : Hint) (bytes rest : Bytes)
    → encode h ≡ ok bytes
    → read_hint (bytes ++ rest) ≡ ok (h, length bytes)
read_hint-encode h bytes rest e =
    let (fits, eq) = encode-eq h bytes e in
    rw eq (read_hint-frame h.payload rest fits ∙ ground arith)

-- A hint that is read lies within the slice: its size field counts its payload.
pub read_hint-bounds :
    (b : Bytes) (h : Hint) (n : ℕ)
    → read_hint b ≡ ok (h, n)
    → (n ≡ length h.payload + 3) × (n ≤ length b)
unfolding read_hint
read_hint-bounds [] h n e = cc
read_hint-bounds (a ∷ []) h n e = cc
read_hint-bounds (a ∷ x ∷ []) h n e = cc
read_hint-bounds (magic ∷ high ∷ low ∷ rest) h n e =
    ground (arith, length-take (uint16 high low) rest)

module _ (gob : Gob) where
  unpack-pack : (v : Value) (h : Hint) → pack gob v ≡ ok h → unpack gob h ≡ ok v
  unfolding pack unpack
  unpack-pack (pos p) h e = elim (Option-cases (gob.encode_pos p)) [
    | inl none_left ↦ absurd (cc (rw none_left at e))
    | inr (b, at) ↦ rw (← ok_inj (rw at at e)) (ground (arith, gob.pos_roundtrip p b))
  ]
  unpack-pack (ident i) h e = elim (Option-cases (gob.encode_ident i)) [
    | inl none_left ↦ absurd (cc (rw none_left at e))
    | inr (b, at) ↦ rw (← ok_inj (rw at at e)) (ground (arith, gob.ident_roundtrip i b))
  ]
  unpack-pack other h e = cc

  -- A value that is packed into a hint, written into the stream and followed by anything at all is
  -- read back whole: `ReadHint` returns the hint with its length, and `Unpack` the value.
  pub hint_roundtrip :
      (v : Value) (h : Hint) (bytes rest : Bytes)
      → pack gob v ≡ ok h
      → encode h ≡ ok bytes
      → (read_hint (bytes ++ rest) ≡ ok (h, length bytes)) × (unpack gob h ≡ ok v)
  hint_roundtrip v h bytes rest p e = (read_hint-encode h bytes rest e, unpack-pack v h p)
