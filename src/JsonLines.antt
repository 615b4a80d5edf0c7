-- ===== src/JsonLines.antt =====
-- web/cui/src/services/json-lines-parser.ts: newline-delimited JSON that arrives in chunks.
-- `JSON.parse` is the parameter `parse`, and `is_null` tells the value null. A chunk is its text; an
-- `error` event is heard by a listener, so the loop over the lines goes on. `push(null)` is Node's
-- end of a stream: the outputs stop there, and what Node makes of later lines is left out.
pub mod Chunks
pub mod RoundTrip
use private_agent_platform.Base.{
  ℕ, Bool, true, false, List, [], ◌∷◌, ◌++◌, Option, none, some, split, pop, trim, any,
  if◌then◌else◌,
}

-- A value is pushed, the stream is ended by `push(null)`, or a line is reported.
pub data Output (J : Type 0) : Type 0 where
  pushed : J → Output J
  ended : Output J
  invalid : List ℕ → Output J

-- The field `buffer`.
abbrev pub Buffer : Type 0
Buffer = List ℕ

abbrev pub newline : ℕ
newline = 10

abbrev pub is_empty {ℓ} : {A : Type ℓ} → List A → Bool
is_empty [] = true
is_empty (x ∷ xs) = false

abbrev pub is_end : {J : Type 0} → Output J → Bool
is_end (pushed j) = false
is_end ended = true
is_end (invalid line) = false

-- More output, unless the stream has ended.
unfoldable pub go_on : {J : Type 0} → List (Output J) → List (Output J) → List (Output J)
go_on out more = if any is_end out then out else out ++ more

module _ {J : Type 0} (parse : List ℕ → Option J) (is_null : J → Bool) where
  unfoldable pub push : J → Output J
  push parsed = if is_null parsed then ended else pushed parsed

  -- The body of the loop, also that of `_flush`: a blank line gives nothing.
  unfoldable pub parse_line : List ℕ → List (Output J)
  unfolding push
  parse_line line = elim (is_empty (trim line)) [
    | true ↦ []
    | false ↦ elim (parse line) [ some parsed ↦ push parsed ∷ [] | none ↦ invalid line ∷ [] ]
  ]

  unfoldable pub parse_lines : List (List ℕ) → List (Output J)
  unfolding go_on
  parse_lines [] = []
  parse_lines (line ∷ lines) = go_on (parse_line line) (parse_lines lines)

  -- `_transform`
  unfoldable pub transform : List ℕ → Buffer → Buffer × List (Output J)
  unfolding parse_lines
  transform chunk buffer =
      let (lines, last) = pop (split newline (buffer ++ chunk)) in (last, parse_lines lines)

  -- `_flush`
  unfoldable flush : Buffer → List (Output J)
  unfolding parse_line
  flush buffer = parse_line buffer

  -- A stream: the chunks in order, and then the end.
  unfoldable pub run : List (List ℕ) → Buffer → List (Output J)
  unfolding transform flush go_on
  run [] buffer = flush buffer
  run (chunk ∷ chunks) buffer =
      let (buffer', out) = transform chunk buffer in go_on out (run chunks buffer')

pub reset : Buffer → Buffer
reset buffer = []

unfoldable get_buffer : Buffer → List ℕ
get_buffer buffer = buffer
