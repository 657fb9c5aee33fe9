-- ===== src/Agent/Owner/Reports.antt =====
-- What a process reports and what it is sent leaves the maps as they are (cc-wrapper.ts).
use mathlib.Core.Path.{subst}
use agent_workflow_platform.Prelude.{
  ℕ, String, List, [], ◌∷◌, ◌++◌, Option, some, ◌≡◌, refl, ap, Bool-cases, Option-cases, inl, inr,
  map_get, length, ltb, get_or,
}
use agent_workflow_platform.Sse.Framing.{Units, split_lines, pop_last}
use agent_workflow_platform.Agent.Json.{Json}
use agent_workflow_platform.Agent.Session.{
  FlatChunk, CcSession, Wrapper, Host, ContentBlock, stream_event,
}
use agent_workflow_platform.Agent.Registry.{is_exited, put_object, broadcast, stop_session}
use agent_workflow_platform.Agent.Stdout.{
  read_lines, take_stdout, after_piece, send_chunks, handle_stdout_chunk, oversize,
  stdout_oversize_limit,
}
use agent_workflow_platform.Agent.Process.{on_stderr, take_stderr}
use agent_workflow_platform.Agent.Send.{
  send_finish, started, WriteOutcome, written, backpressure, thrown,
}
use agent_workflow_platform.Agent.Owner.Frame.{Stays, Stays-trans, read_lines-Stays}
use agent_workflow_platform.Agent.Owner.Kept.{
  Goes, Kept, Kept-refl, Kept-trans, put_object-Kept, broadcast-Kept, ask_put-Kept,
}
use agent_workflow_platform.Agent.Owner.Stopped.{stop_session-Kept}

pub on_stderr-Kept : (id : String) (text : Units) (w : Wrapper) → Kept w (on_stderr id text w)
unfolding on_stderr
on_stderr-Kept id text w = elim (Option-cases (map_get id w.objects)) [
  | inl e ↦ rw (e, on_stderr) (Kept-refl w)
  | inr (s, e) ↦
      rw (e, on_stderr)
        (put_object-Kept id s (take_stderr text s) w e (unfold take_stderr in (refl, λ h. h)))
]

started-Goes : (now : ℕ) (outcome : WriteOutcome) (s : CcSession) → Goes s (started now outcome s)
unfolding started is_exited
started-Goes now written s = (refl, λ h. refl)
started-Goes now backpressure s = (refl, λ h. refl)
started-Goes now (thrown message) s = (refl, λ h. h)

pub send_finish-Kept :
    (id : String) (attached : List ContentBlock) (content : String) (outcome : WriteOutcome)
    (now : ℕ) (w : Wrapper)
    → Kept w (send_finish id attached content outcome now w).1
unfolding send_finish
send_finish-Kept id attached content outcome now w = elim (Option-cases (map_get id w.objects)) [
  | inl e ↦ rw (e, send_finish) (Kept-refl w)
  | inr (s, e) ↦
      rw (e, send_finish)
        (ask_put-Kept _ id s (started now outcome s) w e (started-Goes now outcome s))
]

send_chunks-Kept : (id : String) (cs : List FlatChunk) (w : Wrapper) → Kept w (send_chunks id cs w)
unfolding send_chunks
send_chunks-Kept id [] w = Kept-refl w
send_chunks-Kept id (c ∷ cs) w =
    let v = broadcast (stream_event id c) w in
    Kept-trans w v (send_chunks id cs v) (broadcast-Kept (stream_event id c) w)
      (send_chunks-Kept id cs v)

pub Stays-Goes : (s t : CcSession) → Stays s t → Goes s t
Stays-Goes s t h = (h.0, λ e. rw h.1 e)

module _ (parse_json : Units → Option Json) where
  take_stdout-Stays :
      (buffer : Units) (s t : CcSession) (cs : List FlatChunk)
      → take_stdout parse_json buffer s ≡ some (cs, t)
      → Stays s t
  unfolding take_stdout
  take_stdout-Stays buffer s t cs e =
      elim (Bool-cases (ltb stdout_oversize_limit (length buffer))) [
        | inl big ↦ (let r = rw (big, take_stdout) at e in cc)
        | inr fits ↦
            let (lines, rest) = pop_last (split_lines buffer) in
            let kept = record s { stdout_buffer = rest } in
            let r = rw (fits, take_stdout) at e in
            let read = read_lines parse_json lines kept in
            subst (λ u. Stays s u) (ap (λ o. (get_or o read).1) r)
              (read_lines-Stays parse_json lines kept)
      ]

  -- the piece is in the buffer, and is taken or is too much
  after_piece-Kept :
      (host : Host) (id : String) (s appended : CcSession) (buffer : Units) (w : Wrapper)
      → map_get id w.objects ≡ some s
      → Stays s appended
      → Kept w (after_piece host id appended (take_stdout parse_json buffer appended) w)
  unfolding after_piece
  after_piece-Kept host id s appended buffer w e h =
      elim (Option-cases (take_stdout parse_json buffer appended)) [
        | inl none_left ↦
            let put = put_object id appended w in
            let told = broadcast (stream_event id oversize) put in
            rw (none_left, after_piece)
              (Kept-trans w put (stop_session host id told)
                (put_object-Kept id s appended w e (Stays-Goes s appended h))
                (Kept-trans put told (stop_session host id told)
                  (broadcast-Kept (stream_event id oversize) put) (stop_session-Kept host id told)))
        | inr ((cs, next), taken) ↦
            let put = put_object id next w in
            let all =
              Stays-trans s appended next h (take_stdout-Stays buffer appended next cs taken) in
            rw (taken, after_piece)
              (Kept-trans w put (send_chunks id cs put)
                (put_object-Kept id s next w e (Stays-Goes s next all))
                (send_chunks-Kept id cs put))
      ]

  pub handle_stdout_chunk-Kept :
      (host : Host) (id : String) (piece : Units) (now : ℕ) (w : Wrapper)
      → Kept w (handle_stdout_chunk parse_json host id piece now w)
  unfolding handle_stdout_chunk
  handle_stdout_chunk-Kept host id piece now w = elim (Option-cases (map_get id w.objects)) [
    | inl e ↦ rw (e, handle_stdout_chunk) (Kept-refl w)
    | inr (s, e) ↦
        let buffer = s.stdout_buffer ++ piece in
        let appended = record s { stdout_buffer = buffer; last_activity_at = now } in
        rw (e, handle_stdout_chunk) (after_piece-Kept host id s appended buffer w e (refl, refl))
  ]
