-- ===== src/Sourcemap/Filtering.antt =====
-- `Filter.Write` against the description of its stream.
use mathlib.Core.List.{append_assoc}
use gopherjs.Base.{
  drop-append_add, ℕ, zero, suc, ◌+◌, ◌≤◌, ◌<◌, false, Option, none, some, List, [], ◌∷◌, ◌++◌, ◌≡◌,
  length, contains, ℕ_eq, ok, arith, drop, ap, ◌∙◌, sym, take-append, drop-append, refl,
  length-append,
}
use gopherjs.Base.Bytes.{Bytes, index_byte-first, index_byte-absent}
use gopherjs.Sourcemap.Hint.{
  Hint, Writer, Value, pos, ident, other, Gob, hint_magic, find_hint, unpack,
}
use gopherjs.Sourcemap.HintLaws.{read_hint-frame}
use gopherjs.Sourcemap.Filter.{
  stop, more, round, Position, GoCallback, Filter, Outcome, returned, write_code, map_hint,
  write_loop, write,
}
use gopherjs.Sourcemap.Lines.{place_after, place_after-append, advance-place_after}
use gopherjs.Sourcemap.Stream.{
  Segment, stream, plain, frame, AreWellFormed, IsSupported, note, notes, IsReliable,
}

find_hint-code :
    (code rest : Bytes)
    → contains code hint_magic ≡ false
    → find_hint (code ++ hint_magic ∷ rest) ≡ some (length code)
unfolding find_hint
find_hint-code code rest h = index_byte-first code rest hint_magic h

find_hint-plain : (tail : Bytes) → contains tail hint_magic ≡ false → find_hint tail ≡ none
unfolding find_hint
find_hint-plain tail h = index_byte-absent tail hint_magic h

drop-frame :
    (code rest : Bytes) (h : Hint)
    → drop (length code + (length h.payload + 3)) (code ++ (frame h ++ rest)) ≡ rest
drop-frame code rest h =
    drop-append_add (length h.payload + 3) code (frame h ++ rest)
    ∙ ap (λ k. drop k (frame h ++ rest)) {x = length h.payload + 3}
        {y = suc (suc (suc (length h.payload)))} (omega arith)
    ∙ drop-append h.payload rest

length-stream :
    (s : Segment) (segments : List Segment) (tail : Bytes)
    → length (stream (s ∷ segments) tail)
      ≡ length s.code + (length s.hint.payload + 3) + length (stream segments tail)
length-stream s segments tail = omega (
  arith,
  length-append s.code (frame s.hint ++ stream segments tail),
  length-append s.hint.payload (stream segments tail),
)

more_counted :
    (n : ℕ) (s : Segment) (segments : List Segment) (tail : Bytes)
    → n + length s.code + (length s.hint.payload + 3) + length (stream segments tail)
      ≡ n + length (stream (s ∷ segments) tail)
more_counted n s segments tail = omega (arith, length-stream s segments tail)

module _ {W M : Type 0} (out : Writer W) (gob : Gob) (position : ℕ → Position) (taken : W → Bytes)
    (reliable : IsReliable out taken) where
  abbrev pub place : Filter W M → ℕ × ℕ
  place f = (f.line, f.column)

  record Wrote (f : Filter W M) (w : Bytes) (g : Filter W M) : Type 0 where
    text : taken g.writer ≡ taken f.writer ++ w
    stands : place g ≡ place_after (place f) w
    callback : g.go_mapping_callback ≡ f.go_mapping_callback

  Wrote-trans : (f g k : Filter W M) (v w : Bytes) → Wrote f v g → Wrote g w k → Wrote f (v ++ w) k
  Wrote-trans f g k v w a b = record {
    text = b.text ∙ ap (λ t. t ++ w) a.text ∙ append_assoc (taken f.writer) v w;
    stands = b.stands ∙ ap (λ p. place_after p w) a.stands ∙ sym (place_after-append (place f) v w);
    callback = b.callback ∙ a.callback;
  }

  abbrev after_code : Bytes → Filter W M → Filter W M
  after_code w f = (write_code out gob position w f).2

  write_code-eq :
      (w : Bytes) (f : Filter W M)
      → write_code out gob position w f ≡ (length w, false, after_code w f)
  unfolding write_code
  write_code-eq w f = ground (arith, reliable.counts f.writer w, reliable.succeeds f.writer w)

  write_code-Wrote : (w : Bytes) (f : Filter W M) → Wrote f w (after_code w f)
  unfolding write_code
  write_code-Wrote w f = record {
    text = reliable.keeps f.writer w;
    stands = advance-place_after (suc (length w)) w f.line f.column (omega arith);
    callback = refl;
  }

  write_code-mapped : (w : Bytes) (f : Filter W M) → (after_code w f).mapped ≡ f.mapped
  unfolding write_code
  write_code-mapped w f = refl

  abbrev noted : Value → Filter W M → Filter W M
  noted v f = record f { mapped = note position f.go_mapping_callback (place f) v f.mapped }

  map_hint-eq :
      (h : Hint) (v : Value) (f : Filter W M)
      → unpack gob h ≡ ok v
      → IsSupported gob v
      → map_hint out gob position h f ≡ ok (noted v f)
  unfolding map_hint
  map_hint-eq h (pos p) f e s = ground arith
  map_hint-eq h (ident i) f e s = ground arith
  map_hint-eq h other f e s = absurd s

  round-code :
      (n : ℕ) (code rest : Bytes) (h : Hint) (v : Value) (f : Filter W M)
      → contains code hint_magic ≡ false
      → length h.payload ≤ 0xFFFF
      → unpack gob h ≡ ok v
      → IsSupported gob v
      → round out gob position (code ++ (frame h ++ rest)) n f
        ≡ more rest (n + length code + (length h.payload + 3)) (noted v (after_code code f))
  unfolding round
  round-code n code rest h v f clean fits e s =
      rw (find_hint-code code _ clean, round)
        (rw (take-append code (frame h ++ rest)) (
          rw (write_code-eq code f) (
            rw (drop-append code (frame h ++ rest)) (
              rw (read_hint-frame h.payload rest fits)
                (rw (map_hint-eq h v (after_code code f) e s) (rw (drop-frame code rest h)))))))

  round-tail :
      (n : ℕ) (tail : Bytes) (f : Filter W M)
      → contains tail hint_magic ≡ false
      → round out gob position tail n f
        ≡ stop (returned (n + length tail) false (after_code tail f))
  unfolding round
  round-tail n tail f clean = rw (find_hint-plain tail clean, round) (rw (write_code-eq tail f))

  noted-Wrote : (w : Bytes) (v : Value) (f : Filter W M) → Wrote f w (noted v (after_code w f))
  noted-Wrote w v f =
      let before = write_code-Wrote w f in
      record { text = before.text; stands = before.stands; callback = before.callback }

  notes-congr :
      (segments : List Segment) (v : Value) {c d : Option (GoCallback M)} {p q : ℕ × ℕ} {m k : M}
      → c ≡ d
      → p ≡ q
      → m ≡ k
      → notes position c p segments (note position c p v m)
        ≡ notes position d q segments (note position d q v k)
  notes-congr segments v e r t =
      λ i. notes position (e i) (r i) segments (note position (e i) (r i) v (t i))

  module _ (tail : Bytes) (clean_tail : contains tail hint_magic ≡ false) where
    record ResultOf (segments : List Segment) (n : ℕ) (f : Filter W M) (outcome : Outcome W M)
        : Type 0 where
      end : Filter W M
      returns : outcome ≡ returned (n + length (stream segments tail)) false end
      wrote : Wrote f (plain segments tail) end
      noted_all : end.mapped ≡ notes position f.go_mapping_callback (place f) segments f.mapped

    write_loop-stream :
        (fuel n : ℕ) (segments : List Segment) (f : Filter W M)
        → length (stream segments tail) < fuel
        → AreWellFormed gob segments
        → ResultOf segments n f (write_loop out gob position fuel (stream segments tail) n f)
    unfolding write_loop
    write_loop-stream zero n segments f room ok_segments = absurd (omega arith)
    write_loop-stream (suc fuel) n [] f room ok_segments = record {
      end = after_code tail f;
      returns = rw (round-tail n tail f clean_tail, write_loop);
      wrote = write_code-Wrote tail f;
      noted_all = write_code-mapped tail f;
    }
    write_loop-stream (suc fuel) n (s ∷ segments) f room (clean, fits, value, supported, rest) =
        let g = noted s.value (after_code s.code f) in
        let ih =
          write_loop-stream fuel (n + length s.code + (length s.hint.payload + 3)) segments g
            (omega (arith, length-stream s segments tail)) rest in
        record {
          end = ih.end;
          returns =
              rw
                (
                  round-code n s.code (stream segments tail) s.hint s.value f clean fits value
                      supported,
                  write_loop,
                )
                (ih.returns ∙ ap (λ k. returned k false ih.end) (more_counted n s segments tail));
          wrote =
              Wrote-trans f g ih.end s.code (plain segments tail) (noted-Wrote s.code s.value f)
                ih.wrote;
          noted_all =
              ih.noted_all
              ∙ notes-congr segments s.value (write_code-Wrote s.code f).callback
                  (write_code-Wrote s.code f).stands (write_code-mapped s.code f);
        }

  -- One call of `Write` on generated code in which hints stand between pieces of code: it returns
  -- no error and the length of all that it was given, the reliable writer behind it receives the
  -- code and no hint, the line and the column are those that the code alone leads to, and the
  -- mapping callback was called for each hint, in order, at the line (counted from 1) and the
  -- column where its code ends.
  pub write-stream :
      (segments : List Segment) (tail : Bytes) (f : Filter W M)
      → AreWellFormed gob segments
      → contains tail hint_magic ≡ false
      → (g : Filter W M) × (write out gob position (stream segments tail) f
          ≡ returned (length (stream segments tail)) false g)
        × (taken g.writer ≡ taken f.writer ++ plain segments tail)
        × (place g ≡ place_after (place f) (plain segments tail))
        × (g.mapped ≡ notes position f.go_mapping_callback (place f) segments f.mapped)
  unfolding write
  write-stream segments tail f ok_segments clean =
      let r =
        write_loop-stream tail clean (suc (length (stream segments tail))) 0 segments f
          (omega arith) ok_segments in
      (
        r.end,
        r.returns
            ∙ ap (λ k. returned k false r.end) {x = 0 + length (stream segments tail)}
                (omega arith),
        r.wrote.text,
        r.wrote.stands,
        r.noted_all,
      )
