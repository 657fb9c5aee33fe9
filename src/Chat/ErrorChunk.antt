-- ===== src/Chat/ErrorChunk.antt =====
-- `_extractErrorChunk`: the three shapes of an error frame, with the regular expression
-- /^\s*(E-[A-Z0-9]{4,12})\b\s*:?\s*(.*)/i written out over code points.
use Prim.Native.Char.{code}
use Prim.Native.String.{[], ◌∷◌}
use agent_workflow_platform.Prelude.{
  ℕ, suc, String, Bool, false, true, ◌&&◌, ◌||◌, Option, none, some, get_or, or_else, leb, eqb,
  if◌then◌else◌, truthy, option_is, trim_start,
}
use agent_workflow_platform.Chat.Types.{Chunk, ErrorInfo}

unfoldable pub is_alnum : ℕ → Bool
is_alnum c = (leb b'0' c && leb c b'9') || (leb b'A' c && leb c b'Z') || (leb b'a' c && leb c b'z')

-- the characters after which `.` stops
is_line_end : ℕ → Bool
is_line_end c = eqb c 10 || eqb c 13 || eqb c 0x2028 || eqb c 0x2029

-- the longest run of letters and digits, its length, and what follows
span_alnum : String → String × ℕ × String
span_alnum [] = ("", 0, "")
span_alnum (c ∷ s) =
    let (run, n, rest) = span_alnum s in
    if is_alnum (code c) then (c ∷ run, suc n, rest) else ("", 0, c ∷ s)

-- the part that `.*` takes
until_line_end : String → String
until_line_end [] = ""
until_line_end (c ∷ s) =
    let more = until_line_end s in if is_line_end (code c) then "" else c ∷ more

skip_colon : String → String
skip_colon [] = ""
skip_colon (c ∷ s) = if eqb (code c) b':' then s else c ∷ s

-- `\b` behind a letter or a digit: no `_` follows, and the run is whole
at_boundary : String → Bool
at_boundary [] = true
at_boundary (c ∷ s) = if eqb (code c) b'_' then false else true

match_code : String → Option (String × String)
match_code s =
    let (run, n, rest) = span_alnum s in
    if leb 4 n && leb n 12 && at_boundary rest
    then some (run, until_line_end (trim_start (skip_colon (trim_start rest))))
    else none

-- The two groups of the match: the code, and the text behind it.
match_error_code : String → Option (String × String)
match_error_code (c ∷ d ∷ s) =
    if (eqb (code c) b'E' || eqb (code c) b'e') && eqb (code d) b'-'
    then elim (match_code s) [ none ↦ none | some (run, rest) ↦ some (c ∷ d ∷ run, rest) ]
    else none
match_error_code s = none

-- A text that starts with an error code.
error_text_of_delta : String → Option ErrorInfo
error_text_of_delta delta = elim (match_error_code (trim_start delta)) [
  | none ↦ none
  | some (code, rest) ↦
      some (record { code = some code; message = if truthy rest then rest else delta })
]

unfoldable pub extract_error_chunk : Chunk → Option ErrorInfo
unfolding is_alnum is_line_end span_alnum until_line_end skip_colon at_boundary match_code
    match_error_code error_text_of_delta trim_start
extract_error_chunk chunk =
    if option_is chunk.type "error"
    then some (record {
      code = chunk.code;
      message = get_or (or_else chunk.message chunk.error) "Unknown error";
    })
    else elim chunk.error [
      | none ↦ error_text_of_delta (get_or chunk.delta "")
      | some e ↦
          if truthy e
          then some (record { code = none; message = e })
          else error_text_of_delta (get_or chunk.delta "")
    ]
