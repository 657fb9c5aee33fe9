-- ===== src/Agent/Output/Touch.antt =====
-- The loop over the lines neither reads nor changes the buffer and the time of the last activity
-- (cc-wrapper.ts).
use agent_workflow_platform.Prelude.{
  ℕ, false, List, [], ◌∷◌, ◌++◌, Option, or_else, get_or, ◌≡◌, refl, ◌∙◌, ap, arith, Bool-cases,
  Option-cases, inl, inr,
}
use agent_workflow_platform.Sse.Framing.{Units}
use agent_workflow_platform.Agent.Json.{Json, get, as_text}
use agent_workflow_platform.Agent.Session.{FlatChunk, CcSession}
use agent_workflow_platform.Agent.Translate.{
  translate_event, EventType, system, assistant, rate_limit_event, result, message_start,
  content_block_start, content_block_delta, content_block_stop, message_delta, message_stop, other,
  event_type, translate_as, on_system, on_block_start, on_block_delta, on_block_stop, set_pending,
  append_pending,
}
use agent_workflow_platform.Agent.Stdout.{
  note_done, read_event, read_line, read_lines, malformed, is_blank, trim_units,
}

-- the buffer and the time are written
abbrev pub touch : Units → ℕ → CcSession → CcSession
touch b t s = record s { stdout_buffer = b; last_activity_at = t }

abbrev pub Out : Type 0
Out = List FlatChunk × CcSession

abbrev pub touched : Units → ℕ → Out → Out
touched b t (cs, s) = (cs, touch b t s)

module _ (b : Units) (t : ℕ) where
  on_system-touched :
      (ev : Json) (s : CcSession) → on_system ev (touch b t s) ≡ touched b t (on_system ev s)
  unfolding on_system
  on_system-touched ev s = ground arith

  on_block_start-touched :
      (ev : Json) (s : CcSession)
      → on_block_start ev (touch b t s) ≡ touched b t (on_block_start ev s)
  unfolding on_block_start set_pending
  on_block_start-touched ev s = ground arith

  on_block_delta-touched :
      (ev : Json) (s : CcSession)
      → on_block_delta ev (touch b t s) ≡ touched b t (on_block_delta ev s)
  unfolding on_block_delta append_pending
  on_block_delta-touched ev s = ground arith

  on_block_stop-touched :
      (ev : Json) (s : CcSession) → on_block_stop ev (touch b t s) ≡ touch b t (on_block_stop ev s)
  unfolding on_block_stop
  on_block_stop-touched ev s = ground arith

  translate_as-touched :
      (type : EventType) (ev : Json) (s : CcSession)
      → translate_as type ev (touch b t s) ≡ touched b t (translate_as type ev s)
  unfolding translate_as
  translate_as-touched system ev s = on_system-touched ev s
  translate_as-touched assistant ev s = refl
  translate_as-touched rate_limit_event ev s = refl
  translate_as-touched result ev s = refl
  translate_as-touched message_start ev s = refl
  translate_as-touched content_block_start ev s = on_block_start-touched ev s
  translate_as-touched content_block_delta ev s = on_block_delta-touched ev s
  translate_as-touched content_block_stop ev s = ap (λ x. ([], x)) (on_block_stop-touched ev s)
  translate_as-touched message_delta ev s = refl
  translate_as-touched message_stop ev s = refl
  translate_as-touched other ev s = refl

  translate_event-touched :
      (ev : Json) (s : CcSession)
      → translate_event ev (touch b t s) ≡ touched b t (translate_event ev s)
  unfolding translate_event
  translate_event-touched ev s =
      translate_as-touched (event_type (get_or (as_text (get "type" ev)) "")) ev s

  note_done-touch :
      (cs : List FlatChunk) (s : CcSession)
      → note_done cs (touch b t s) ≡ touch b t (note_done cs s)
  unfolding note_done
  note_done-touch [] s = refl
  note_done-touch (c ∷ cs) s = elim (Bool-cases c.done) [
    | inl e ↦ rw e (note_done-touch cs (record s { turn_in_flight = false }))
    | inr n ↦ rw n (note_done-touch cs s)
  ]

  read_event-touched :
      (ev : Json) (s : CcSession) → read_event ev (touch b t s) ≡ touched b t (read_event ev s)
  unfolding read_event
  read_event-touched ev s =
      let typed = record s {
        last_event_type = or_else (as_text (get "type" ev)) s.last_event_type;
      } in
      let (cs, next) = translate_event ev typed in
      ap (λ (r : Out). (r.0, note_done r.0 r.1)) (translate_event-touched ev typed)
      ∙ ap (λ x. (cs, x)) (note_done-touch cs next)

  module _ (parse_json : Units → Option Json) where
    read_line-touched :
        (raw : Units) (s : CcSession)
        → read_line parse_json raw (touch b t s) ≡ touched b t (read_line parse_json raw s)
    unfolding read_line malformed
    read_line-touched raw s = elim (Bool-cases (is_blank raw)) [
      | inl e ↦ rw e refl
      | inr n ↦ elim (Option-cases (parse_json (trim_units raw))) [
        | inl e ↦ rw (n, e) refl
        | inr (ev, e) ↦ rw (n, e) (read_event-touched ev s)
      ]
    ]

    pub read_lines-touched :
        (ls : List Units) (s : CcSession)
        → read_lines parse_json ls (touch b t s) ≡ touched b t (read_lines parse_json ls s)
    unfolding read_lines
    read_lines-touched [] s = refl
    read_lines-touched (l ∷ ls) s =
        let (cs, next) = read_line parse_json l s in
        ap
          (λ (r : Out). (r.0 ++ (read_lines parse_json ls r.1).0, (read_lines parse_json ls r.1).1))
          (read_line-touched l s)
        ∙ ap (λ (r : Out). (cs ++ r.0, r.1)) (read_lines-touched ls next)
