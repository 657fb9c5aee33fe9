-- ===== src/Sse/Framing.antt =====
-- `createSSEStream`: from the pieces of text that arrive to the messages that are delivered. A text
-- is the list of its UTF-16 units; `JSON.parse` is a parameter.
pub mod Pieces
use agent_workflow_platform.Prelude.{
  ℕ, ◌+◌, zero, suc, Bool, true, false, ◌&&◌, ◌||◌, not, List, [], ◌∷◌, ◌++◌, map, Option, none,
  some, if◌then◌else◌, leb, ltb, eqb, length, is_space,
}

abbrev pub Units : Type 0
Units = List ℕ

-- A message: the end mark, a parsed value, or the raw text where that is no JSON.
pub data Message (V : Type 0) : Type 0 where
  done : Message V
  value : V → Message V
  raw : Units → Message V

abbrev pub newline : ℕ
newline = 10

-- the start of a piece before the next newline, put before its first line
unfoldable pub attach : ℕ → List Units → List Units
attach c [] = (c ∷ []) ∷ []
attach c (l ∷ ls) = (c ∷ l) ∷ ls

-- `split('\n')`
unfoldable pub split_lines : Units → List Units
unfolding attach
split_lines [] = [] ∷ []
split_lines (c ∷ s) = let rest = split_lines s in if eqb c newline then [] ∷ rest else attach c rest

-- all but the last, and the last: `lines.pop()`
unfoldable pub pop_last : List Units → List Units × Units
pop_last [] = ([], [])
pop_last (l ∷ ls) = elim ls [
  | [] ↦ ([], l)
  | m ∷ ms ↦ (let (front, last) = pop_last ls in (l ∷ front, last))
]

unfoldable pub same_units : Units → Units → Bool
same_units [] [] = true
same_units (c ∷ s) (d ∷ t) = eqb c d && same_units s t
same_units _ _ = false

strip_units : Units → Units → Option Units
strip_units [] s = some s
strip_units (c ∷ t) [] = none
strip_units (c ∷ t) (d ∷ s) = if eqb c d then strip_units t s else none

abbrev data_prefix : Units
data_prefix = b'd' ∷ b'a' ∷ b't' ∷ b'a' ∷ b':' ∷ []

abbrev done_mark : Units
done_mark = b'[' ∷ b'D' ∷ b'O' ∷ b'N' ∷ b'E' ∷ b']' ∷ []

trim_start_units : Units → Units
unfolding is_space
trim_start_units [] = []
trim_start_units (c ∷ s) = let rest = trim_start_units s in if is_space c then rest else c ∷ s

-- What the reader holds: the messages delivered so far and the rest of a line; `overflow` is the
-- error `sse_buffer_limit`.
pub data Reader (V : Type 0) : Type 0 where
  reading : List (Message V) → Units → Reader V
  overflow : List (Message V) → Reader V

abbrev pub max_buffer : ℕ
max_buffer = 1048576

module _ {V : Type 0} (parse_json : Units → Option V) where
  -- the message of what follows `data:`
  payload : Units → Message V
  payload text =
      if same_units text done_mark
      then done
      else elim (parse_json text) [ none ↦ raw text | some v ↦ value v ]

  -- a line that does not start with `data:` is skipped
  line_message : Units → List (Message V)
  unfolding strip_units trim_start_units payload same_units
  line_message line = elim (strip_units data_prefix line) [
    | none ↦ []
    | some rest ↦ payload (trim_start_units rest) ∷ []
  ]

  unfoldable pub deliver : List Units → List (Message V)
  unfolding line_message
  deliver [] = []
  deliver (l ∷ ls) = line_message l ++ deliver ls

  unfoldable pub take_piece : List (Message V) → Units → Reader V
  take_piece sent buffer =
      if ltb max_buffer (length buffer)
      then overflow sent
      else let (lines, rest) = pop_last (split_lines buffer) in reading (sent ++ deliver lines) rest

  -- one round of the read loop
  unfoldable pub receive : Units → Reader V → Reader V
  receive piece (overflow sent) = overflow sent
  receive piece (reading sent buffer) = take_piece sent (buffer ++ piece)

  unfoldable pub receive_all : List Units → Reader V → Reader V
  receive_all [] r = r
  receive_all (p ∷ ps) r = receive_all ps (receive p r)
