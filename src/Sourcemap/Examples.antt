-- ===== src/Sourcemap/Examples.antt =====
-- Tests and instances of the theorems on source map hints and the filter.
use gopherjs.Base.{
  ◌+◌, ◌≢◌, ◌⊎◌, ◌↔◌, ℕ, false, Option, none, some, List, [], ◌∷◌, ◌++◌, ◌≡◌, ◌≢◌, length, take,
  drop, take-append, drop-append, ok, refl, arith, some_inj,
}
use gopherjs.Base.Bytes.{Bytes}
use gopherjs.Sourcemap.Hint.{Hint, Identifier, ident, Gob, Writer, read_hint, encode, pack, unpack}
use gopherjs.Sourcemap.HintLaws.{hint_roundtrip}
use gopherjs.Sourcemap.Filter.{Position, Mapping, Filter, returned, out_of_fuel, write}
use gopherjs.Sourcemap.Lines.{place_after}
use gopherjs.Sourcemap.Stream.{Segment, stream, IsReliable}
use gopherjs.Sourcemap.Filtering.{write-stream}
use gopherjs.Sourcemap.Ending.{write_ends}
use gopherjs.Sourcemap.Mapping.{
  first_workspace, has_gopath_prefix, slash_from, SourceMap, FilePaths, normalize_path,
  default_js_mapping_callback,
}
use gopherjs.Sourcemap.Placing.{js_mapping-place}
use gopherjs.Sourcemap.Lines.{place_after}

-- a codec: the position, the length of the name, and both names
abbrev encode_identifier : Identifier → Option Bytes
encode_identifier i = some (i.original_pos ∷ length i.name ∷ (i.name ++ i.original_name))

abbrev decode_identifier : Bytes → Option Identifier
decode_identifier (p ∷ n ∷ rest) =
    some (record { name = take n rest; original_name = drop n rest; original_pos = p })
decode_identifier _ = none

abbrev decode_position : Bytes → Option ℕ
decode_position (p ∷ []) = some p
decode_position _ = none

position_roundtrip : (p : ℕ) (b : Bytes) → some (p ∷ []) ≡ some b → decode_position b ≡ some p
position_roundtrip p b h = rw (← some_inj h)

identifier_roundtrip :
    (i : Identifier) (b : Bytes) → encode_identifier i ≡ some b → decode_identifier b ≡ some i
identifier_roundtrip i b h =
    rw (← some_inj h)
      (rw (take-append i.name i.original_name) (rw (drop-append i.name i.original_name)))

gob : Gob
gob = record {
  encode_pos = λ p. some (p ∷ []);
  decode_pos = decode_position;
  encode_ident = encode_identifier;
  decode_ident = decode_identifier;
  pos_roundtrip = position_roundtrip;
  ident_roundtrip = identifier_roundtrip;
}

abbrev buffer : Writer Bytes
buffer = record { write = λ w b. (w ++ b, length b, false) }

buffer-IsReliable : IsReliable buffer (λ w. w)
buffer-IsReliable = record { keeps = λ w b. refl; counts = λ w b. refl; succeeds = λ w b. refl }

abbrev position : ℕ → Position
position p = record { filename = b'f' ∷ []; line = p; column = 1 }

-- the places and names that the callback was called with
abbrev log : ℕ → ℕ → Position → Bytes → List (ℕ × ℕ × ℕ × Bytes) → List (ℕ × ℕ × ℕ × Bytes)
log line column p name m = m ++ (line, column, p.line, name) ∷ []

abbrev identifier : Identifier
identifier = record { name = b'x' ∷ []; original_name = b'y' ∷ []; original_pos = 9 }

abbrev hint : Hint
hint = record { payload = 2 ∷ 9 ∷ 1 ∷ b'x' ∷ b'y' ∷ [] }

abbrev hint_bytes : Bytes
hint_bytes = 8 ∷ 0 ∷ 5 ∷ 2 ∷ 9 ∷ 1 ∷ b'x' ∷ b'y' ∷ []

pack-identifier : pack gob (ident identifier) ≡ ok hint
unfolding pack gob
pack-identifier = refl

encode-hint : encode hint ≡ ok hint_bytes
unfolding encode
encode-hint = refl

unpack-hint : unpack gob hint ≡ ok (ident identifier)
unfolding unpack gob
unpack-hint = refl

hint_roundtrip_example :
    (read_hint (hint_bytes ++ 8 ∷ []) ≡ ok (hint, 8)) × (unpack gob hint ≡ ok (ident identifier))
hint_roundtrip_example =
    hint_roundtrip gob (ident identifier) hint hint_bytes (8 ∷ []) pack-identifier encode-hint

abbrev segments : List Segment
segments = record { code = b'a' ∷ 10 ∷ b'b' ∷ []; hint = hint; value = ident identifier } ∷ []

abbrev start : Filter Bytes (List (ℕ × ℕ × ℕ × Bytes))
start = record { writer = []; go_mapping_callback = some log; mapped = []; line = 0; column = 0 }

abbrev tail : Bytes
tail = b'c' ∷ []

abbrev output : Bytes
output = b'a' ∷ 10 ∷ b'b' ∷ b'c' ∷ []

write-segments :
    write buffer gob position (stream segments tail) start
    ≡ returned 12 false (record {
      writer = output;
      go_mapping_callback = some log;
      mapped = (2, 1, 9, b'y' ∷ []) ∷ [];
      line = 1;
      column = 2;
    })
unfolding write gob
write-segments = refl

write-stream_example :
    (g : Filter Bytes (List (ℕ × ℕ × ℕ × Bytes))) × (write buffer gob position
        (stream segments tail)
        start
      ≡ returned 12 false g)
    × (g.writer ≡ output)
    × ((g.line, g.column) ≡ place_after (0, 0) output)
    × (g.mapped ≡ (2, 1, 9, b'y' ∷ []) ∷ [])
write-stream_example =
    write-stream buffer gob position (λ w. w) buffer-IsReliable segments tail start
      (refl, omega arith, unpack-hint, tt, tt) refl

write_ends_example : write buffer gob position (8 ∷ 0 ∷ []) start ≢ out_of_fuel
write_ends_example = write_ends buffer gob position (8 ∷ 0 ∷ []) start

abbrev paths : FilePaths
paths = record {
  split_list = λ l. (b'g' ∷ []) ∷ (b'h' ∷ []) ∷ [];
  clean = λ f. f;
  to_slash = λ f. f;
  base = λ f. f;
}

abbrev settings : SourceMap
settings = record {
  mappings = [];
  goroot = b'r' ∷ [];
  gopath = b'g' ∷ b':' ∷ b'h' ∷ [];
  local_map = false;
}

abbrev source_file : Bytes
source_file = b'h' ∷ b'/' ∷ b's' ∷ b'r' ∷ b'c' ∷ b'/' ∷ b'p' ∷ []

no_workspace : first_workspace paths source_file ((b'g' ∷ []) ∷ []) ≡ none
unfolding first_workspace
no_workspace = refl

normalized : normalize_path paths settings source_file ≡ some (b'/' ∷ b'p' ∷ [])
unfolding normalize_path has_gopath_prefix first_workspace slash_from
normalized = refl

abbrev isolated : Mapping
isolated = record {
  generated_line = 1;
  generated_column = 1;
  original_file = source_file;
  original_line = 4;
  original_column = 2;
  original_name = b'v' ∷ [];
}

-- With lines from 1, a mapping behind one byte of a script that starts in column 7 gets column 1.
js_mapping-place_example :
    (recorded : ℕ) × (default_js_mapping_callback paths 5 7 isolated settings
      ≡ some (record settings {
        mappings =
            record {
              generated_line = 1 + (place_after (5, 7) (b'a' ∷ [])).0;
              generated_column = recorded;
              original_file = b'/' ∷ b'p' ∷ [];
              original_line = 4;
              original_column = 2;
              original_name = [];
            }
            ∷ [];
      }))
    × ((recorded ≡ (place_after (5, 7) (b'a' ∷ [])).1)
        ↔ (◌≡◌ {A = ℕ} 1 0 ⊎ (◌≡◌ {A = ℕ} 7 0 ⊎ ((place_after (0, 0) (b'a' ∷ [])).0 ≢ 0))))
js_mapping-place_example =
    js_mapping-place paths 5 7 1 (b'a' ∷ []) (b'/' ∷ b'p' ∷ []) isolated settings refl refl
      normalized
