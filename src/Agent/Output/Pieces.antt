-- ===== src/Agent/Output/Pieces.antt =====
-- The pieces in which the output of an agent arrives (`handleStdoutChunk` of cc-wrapper.ts).
use agent_workflow_platform.Prelude.{
  ℕ, ◌≤◌, String, false, List, [], ◌∷◌, ◌++◌, Option, some, ◌≡◌, refl, sym, ◌∙◌, ap, arith,
  append_assoc, append-nil, map_get, map_get-set_self, map_set-set, ltb, length, length-append, map,
}
use agent_workflow_platform.Sse.Framing.{Units}
use agent_workflow_platform.Sse.Framing.Pieces.{cut, cut-split_lines, cut-append, length-cut, join}
use agent_workflow_platform.Agent.Json.{Json}
use agent_workflow_platform.Agent.Session.{FlatChunk, CcSession, Wrapper, Host, stream_event}
use agent_workflow_platform.Agent.Registry.{put_object, broadcast}
use agent_workflow_platform.Agent.Stdout.{
  read_line, read_lines, take_stdout, send_chunks, after_piece, handle_stdout_chunk,
  stdout_oversize_limit,
}
use agent_workflow_platform.Agent.Output.Touch.{touch, touched, Out, read_lines-touched}

put_object-put :
    (id : String) (s t : CcSession) (w : Wrapper)
    → put_object id t (put_object id s w) ≡ put_object id t w
unfolding put_object
put_object-put id s t w = ap (λ m. record w { objects = m }) (map_set-set id s t w.objects)

put_object-send_chunks :
    (id : String) (cs : List FlatChunk) (s : CcSession) (w : Wrapper)
    → put_object id s (send_chunks id cs w) ≡ send_chunks id cs (put_object id s w)
unfolding put_object send_chunks broadcast
put_object-send_chunks id [] s w = refl
put_object-send_chunks id (c ∷ cs) s w =
    put_object-send_chunks id cs s (broadcast (stream_event id c) w)

send_chunks-append :
    (id : String) (cs ds : List FlatChunk) (w : Wrapper)
    → send_chunks id ds (send_chunks id cs w) ≡ send_chunks id (cs ++ ds) w
unfolding send_chunks
send_chunks-append id [] ds w = refl
send_chunks-append id (c ∷ cs) ds w = send_chunks-append id cs ds (broadcast (stream_event id c) w)

objects-send_chunks :
    (id : String) (cs : List FlatChunk) (w : Wrapper) → (send_chunks id cs w).objects ≡ w.objects
unfolding send_chunks broadcast
objects-send_chunks id [] w = refl
objects-send_chunks id (c ∷ cs) w = objects-send_chunks id cs (broadcast (stream_event id c) w)

-- Chunks and the session behind them, sent and put.
abbrev delivered : String → Out → Wrapper → Wrapper
delivered id (cs, s) w = send_chunks id cs (put_object id s w)

delivered-twice :
    (id : String) (cs ds : List FlatChunk) (s t : CcSession) (w : Wrapper)
    → delivered id (ds, t) (delivered id (cs, s) w) ≡ delivered id (cs ++ ds, t) w
delivered-twice id cs ds s t w =
    ap (send_chunks id ds) (
      put_object-send_chunks id cs t (put_object id s w)
      ∙ ap (send_chunks id cs) (put_object-put id s t w))
    ∙ send_chunks-append id cs ds (put_object id t w)

delivered-object :
    (id : String) (cs : List FlatChunk) (s : CcSession) (w : Wrapper)
    → map_get id (delivered id (cs, s) w).objects ≡ some s
unfolding put_object
delivered-object id cs s w =
    ap (map_get id) (objects-send_chunks id cs (put_object id s w))
    ∙ map_get-set_self id s w.objects

-- the time of the last piece
abbrev pub last_time : ℕ → List (Units × ℕ) → ℕ
last_time now [] = now
last_time now ((piece, later) ∷ ps) = last_time later ps

module _ (parse_json : Units → Option Json) where
  read_lines-append :
      (ls ms : List Units) (s : CcSession)
      → read_lines parse_json (ls ++ ms) s ≡ (
        (read_lines parse_json ls s).0
            ++ (read_lines parse_json ms (read_lines parse_json ls s).1).0,
        (read_lines parse_json ms (read_lines parse_json ls s).1).1,
      )
  unfolding read_lines
  read_lines-append [] ms s = refl
  read_lines-append (l ∷ ls) ms s =
      let (cs, next) = read_line parse_json l s in
      let (ds, last) = read_lines parse_json ls next in
      let (es, end) = read_lines parse_json ms last in
      ap (λ (r : Out). (cs ++ r.0, r.1)) (read_lines-append ls ms next)
      ∙ ap (λ x. (x, end)) (sym (append_assoc cs ds es))

  -- what a text in the buffer gives
  abbrev reading_of : Units → ℕ → CcSession → Out
  reading_of text now s = touched (cut text).1 now (read_lines parse_json (cut text).0 s)

  take_stdout-fits :
      (buffer : Units) (now : ℕ) (s : CcSession)
      → length buffer ≤ stdout_oversize_limit
      → take_stdout parse_json buffer (touch buffer now s) ≡ some (reading_of buffer now s)
  unfolding take_stdout
  take_stdout-fits buffer now s h =
      let fits : ltb stdout_oversize_limit (length buffer) ≡ false = ground arith in
      rw (fits, take_stdout, cut-split_lines buffer)
        (ap some (read_lines-touched (cut buffer).1 now parse_json (cut buffer).0 s))

  handle-fits :
      (host : Host) (id : String) (piece : Units) (now : ℕ) (s : CcSession) (w : Wrapper)
      → map_get id w.objects ≡ some s
      → length (s.stdout_buffer ++ piece) ≤ stdout_oversize_limit
      → handle_stdout_chunk parse_json host id piece now w
        ≡ delivered id (reading_of (s.stdout_buffer ++ piece) now s) w
  unfolding handle_stdout_chunk after_piece
  handle-fits host id piece now s w e h =
      rw (e, handle_stdout_chunk, take_stdout-fits (s.stdout_buffer ++ piece) now s h) refl

  -- The lines of both parts, read one after the other.
  reading_of-append :
      (a b : Units) (now later : ℕ) (s : CcSession)
      → reading_of (a ++ b) later s ≡ (
        (reading_of a now s).0 ++ (reading_of ((cut a).1 ++ b) later (reading_of a now s).1).0,
        (reading_of ((cut a).1 ++ b) later (reading_of a now s).1).1,
      )
  reading_of-append a b now later s =
      let (ls, rest) = cut a in
      let (ms, last) = cut (rest ++ b) in
      let (cs, t) = read_lines parse_json ls s in
      ap (λ (c : List Units × Units). touched c.1 later (read_lines parse_json c.0 s))
        (cut-append a b)
      ∙ (ap (touched last later) (read_lines-append ls ms s)
          ∙ sym (
              ap (λ (r : Out). (cs ++ r.0, touch last later r.1))
                (read_lines-touched rest now parse_json ms t)))

  two_pieces :
      (host : Host) (id : String) (a b : Units) (now later : ℕ) (s : CcSession) (w : Wrapper)
      → map_get id w.objects ≡ some s
      → length (s.stdout_buffer ++ (a ++ b)) ≤ stdout_oversize_limit
      → handle_stdout_chunk parse_json host id b later
          (handle_stdout_chunk parse_json host id a now w)
        ≡ handle_stdout_chunk parse_json host id (a ++ b) later w
  two_pieces host id a b now later s w e h =
      let text = s.stdout_buffer ++ a in
      let (cs, t) = reading_of text now s in
      let v = delivered id (cs, t) w in
      let first = handle-fits host id a now s w e (
        omega (
          arith,
          length-append s.stdout_buffer (a ++ b),
          length-append s.stdout_buffer a,
          length-append a b,
        )) in
      let second = handle-fits host id b later t v (delivered-object id cs t w) (
        omega (
          arith,
          length-append s.stdout_buffer (a ++ b),
          length-append s.stdout_buffer a,
          length-append a b,
          length-append (cut text).1 b,
          length-cut text,
        )) in
      let whole = handle-fits host id (a ++ b) later s w e h in
      ap (handle_stdout_chunk parse_json host id b later) first
      ∙ (second
          ∙ (delivered-twice id cs (reading_of (t.stdout_buffer ++ b) later t).0 t
                (reading_of (t.stdout_buffer ++ b) later t).1 w
              ∙ (ap (λ o. delivered id o w)
                    (sym (reading_of-append text b now later s)
                      ∙ ap (λ x. reading_of x later s) (append_assoc s.stdout_buffer a b))
                  ∙ sym whole)))

  -- the pieces, each at its time, after one another
  unfoldable pub handle_pieces : Host → String → List (Units × ℕ) → Wrapper → Wrapper
  handle_pieces host id [] w = w
  handle_pieces host id ((piece, now) ∷ ps) w =
      handle_pieces host id ps (handle_stdout_chunk parse_json host id piece now w)

  -- Output that leaves room in the buffer has the same effect in pieces as in one piece at the time of
  -- the last one: the same chunks are sent in the same order, and the whole state is the same.
  pub handle_pieces-join :
      (host : Host) (id : String) (ps : List (Units × ℕ)) (piece : Units) (now : ℕ) (s : CcSession)
      (w : Wrapper)
      → map_get id w.objects ≡ some s
      → length (s.stdout_buffer ++ (piece ++ join (map (λ (p : Units × ℕ). p.0) ps)))
        ≤ stdout_oversize_limit
      → handle_pieces host id ((piece, now) ∷ ps) w
        ≡ handle_stdout_chunk parse_json host id
            (piece ++ join (map (λ (p : Units × ℕ). p.0) ps))
            (last_time now ps)
            w
  unfolding handle_pieces
  handle_pieces-join host id [] piece now s w e h =
      ap (λ t. handle_stdout_chunk parse_json host id t now w) (sym (append-nil piece))
  handle_pieces-join host id ((next, later) ∷ ps) piece now s w e h =
      let rest = join (map (λ (p : Units × ℕ). p.0) ps) in
      ap (handle_pieces host id ps) (
        two_pieces host id piece next now later s w e (
          omega (
            arith,
            length-append s.stdout_buffer (piece ++ (next ++ rest)),
            length-append piece (next ++ rest),
            length-append next rest,
            length-append s.stdout_buffer (piece ++ next),
            length-append piece next,
          )))
      ∙ (handle_pieces-join host id ps (piece ++ next) later s w e (
            omega (
              arith,
              length-append s.stdout_buffer (piece ++ (next ++ rest)),
              length-append piece (next ++ rest),
              length-append next rest,
              length-append s.stdout_buffer ((piece ++ next) ++ rest),
              length-append (piece ++ next) rest,
              length-append piece next,
            ))
          ∙ ap (λ t. handle_stdout_chunk parse_json host id t (last_time later ps) w)
              (append_assoc piece next rest))
