-- ===== src/Agent/Stdout.antt =====
-- The standard output of an agent (`handleStdoutChunk` of cc-wrapper.ts): a line is an event.
-- `JSON.parse` is a parameter.
use agent_workflow_platform.Prelude.{
  ℕ, ◌+◌, String, Bool, true, false, List, [], ◌∷◌, ◌++◌, Option, none, some, or_else,
  if◌then◌else◌, ltb, eqb, length, take, is_space, map_get,
}
use agent_workflow_platform.Sse.Framing.{Units, newline, split_lines, pop_last}
use agent_workflow_platform.Agent.Json.{Json, get, as_text}
use agent_workflow_platform.Agent.Session.{FlatChunk, blank, CcSession, stream_event, Wrapper, Host}
use agent_workflow_platform.Agent.Translate.{translate_event}
use agent_workflow_platform.Agent.Registry.{put_object, broadcast, stop_session}

abbrev pub stdout_oversize_limit : ℕ
stdout_oversize_limit = 4194304

-- `trim`, over units
abbrev keep_unit : ℕ → Units → Units
keep_unit c [] = if is_space c then [] else c ∷ []
keep_unit c (d ∷ s) = c ∷ d ∷ s

trim_end_units : Units → Units
trim_end_units [] = []
trim_end_units (c ∷ s) = keep_unit c (trim_end_units s)

unfoldable pub trim_units : Units → Units
unfolding trim_end_units
trim_units [] = []
trim_units (c ∷ s) = let rest = trim_units s in if is_space c then rest else trim_end_units (c ∷ s)

unfoldable pub is_blank : Units → Bool
unfolding trim_units
is_blank s = eqb (length (trim_units s)) 0

-- `[cc-wrapper] malformed stdout line: `
abbrev malformed_note : Units
malformed_note =
    b'[' ∷ b'c' ∷ b'c' ∷ b'-' ∷ b'w' ∷ b'r' ∷ b'a' ∷ b'p' ∷ b'p' ∷ b'e' ∷ b'r' ∷ b']' ∷ b' ' ∷ b'm'
    ∷ b'a' ∷ b'l' ∷ b'f' ∷ b'o' ∷ b'r' ∷ b'm' ∷ b'e' ∷ b'd' ∷ b' ' ∷ b's' ∷ b't' ∷ b'd' ∷ b'o'
    ∷ b'u' ∷ b't' ∷ b' ' ∷ b'l' ∷ b'i' ∷ b'n' ∷ b'e' ∷ b':' ∷ b' ' ∷ []

unfoldable pub malformed : Units → CcSession → CcSession
malformed line s = record s {
  stderr_buffer = s.stderr_buffer ++ (malformed_note ++ (take 200 line ++ newline ∷ []));
  malformed_stdout_lines = s.malformed_stdout_lines + 1;
}

-- the loop over the chunks of an event, but for the sending
unfoldable pub note_done : List FlatChunk → CcSession → CcSession
note_done [] s = s
note_done (c ∷ cs) s = note_done cs (if c.done then record s { turn_in_flight = false } else s)

-- an event that was parsed
unfoldable pub read_event : Json → CcSession → List FlatChunk × CcSession
unfolding translate_event note_done
read_event ev s =
    let typed = record s {
      last_event_type = or_else (as_text (get "type" ev)) s.last_event_type;
    } in
    let (chunks, next) = translate_event ev typed in (chunks, note_done chunks next)

unfoldable pub oversize : FlatChunk
oversize = record blank { error = some "runtime_output_oversize"; done = true }

-- the chunks of a session, one after the other
unfoldable pub send_chunks : String → List FlatChunk → Wrapper → Wrapper
unfolding broadcast
send_chunks id [] w = w
send_chunks id (c ∷ cs) w = send_chunks id cs (broadcast (stream_event id c) w)

-- what follows for the session whose buffer was appended to
unfoldable pub after_piece :
    Host → String → CcSession → Option (List FlatChunk × CcSession) → Wrapper → Wrapper
unfolding send_chunks oversize put_object broadcast stop_session
after_piece host id appended none w =
    stop_session host id (broadcast (stream_event id oversize) (put_object id appended w))
after_piece host id appended (some (chunks, next)) w = send_chunks id chunks (put_object id next w)

module _ (parse_json : Units → Option Json) where
  -- one line of the output
  unfoldable pub read_line : Units → CcSession → List FlatChunk × CcSession
  unfolding is_blank trim_units malformed read_event
  read_line raw s =
      let line = trim_units raw in
      if is_blank raw
      then ([], s)
      else elim (parse_json line) [ none ↦ ([], malformed line s) | some ev ↦ read_event ev s ]

  unfoldable pub read_lines : List Units → CcSession → List FlatChunk × CcSession
  unfolding read_line
  read_lines [] s = ([], s)
  read_lines (l ∷ ls) s =
      let (chunks, next) = read_line l s in
      let (more, last) = read_lines ls next in (chunks ++ more, last)

  -- what a piece gives, or `none` where the buffer is too long
  unfoldable pub take_stdout : Units → CcSession → Option (List FlatChunk × CcSession)
  unfolding read_lines
  take_stdout buffer s =
      if ltb stdout_oversize_limit (length buffer)
      then none
      else (let (lines, rest) = pop_last (split_lines buffer) in
          some (read_lines lines (record s { stdout_buffer = rest })))

  unfoldable pub handle_stdout_chunk : Host → String → Units → ℕ → Wrapper → Wrapper
  unfolding take_stdout after_piece
  handle_stdout_chunk host id piece now w = elim (map_get id w.objects) [
    | none ↦ w
    | some s ↦
        let buffer = s.stdout_buffer ++ piece in
        let appended = record s { stdout_buffer = buffer; last_activity_at = now } in
        after_piece host id appended (take_stdout buffer appended) w
  ]
