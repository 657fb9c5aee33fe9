-- ===== src/Agent/Owner/Frame.antt =====
-- What the events that end no session and start none leave as it is (cc-wrapper.ts).
use agent_workflow_platform.Prelude.{
  false, List, [], ◌∷◌, Option, or_else, ◌≡◌, refl, ◌∙◌, arith, Bool-cases, Option-cases, inl, inr,
  get_or,
}
use agent_workflow_platform.Sse.Framing.{Units}
use agent_workflow_platform.Agent.Json.{Json, get, as_text}
use agent_workflow_platform.Agent.Session.{FlatChunk, CcSession}
use agent_workflow_platform.Agent.Translate.{
  translate_event, EventType, system, assistant, rate_limit_event, result, message_start,
  content_block_start, content_block_delta, content_block_stop, message_delta, message_stop, other,
  event_type, translate_as, on_system, on_block_start, on_block_delta, on_block_stop, set_pending,
  append_pending,
}
use agent_workflow_platform.Agent.Stdout.{
  note_done, read_event, read_line, read_lines, malformed, is_blank, trim_units,
}

-- The conversation and the phase are the same.
abbrev pub Stays : CcSession → CcSession → Type 0
Stays s t = (t.conversation_id ≡ s.conversation_id) × (t.phase ≡ s.phase)

pub Stays-trans : (s t u : CcSession) → Stays s t → Stays t u → Stays s u
Stays-trans s t u h k = (k.0 ∙ h.0, k.1 ∙ h.1)

on_system-Stays : (ev : Json) (s : CcSession) → Stays s (on_system ev s).1
unfolding on_system
on_system-Stays ev s = ground arith

on_block_start-Stays : (ev : Json) (s : CcSession) → Stays s (on_block_start ev s).1
unfolding on_block_start set_pending
on_block_start-Stays ev s = ground arith

on_block_delta-Stays : (ev : Json) (s : CcSession) → Stays s (on_block_delta ev s).1
unfolding on_block_delta append_pending
on_block_delta-Stays ev s = ground arith

on_block_stop-Stays : (ev : Json) (s : CcSession) → Stays s (on_block_stop ev s)
unfolding on_block_stop
on_block_stop-Stays ev s = ground arith

translate_as-Stays :
    (type : EventType) (ev : Json) (s : CcSession) → Stays s (translate_as type ev s).1
unfolding translate_as
translate_as-Stays system ev s = on_system-Stays ev s
translate_as-Stays assistant ev s = (refl, refl)
translate_as-Stays rate_limit_event ev s = (refl, refl)
translate_as-Stays result ev s = (refl, refl)
translate_as-Stays message_start ev s = (refl, refl)
translate_as-Stays content_block_start ev s = on_block_start-Stays ev s
translate_as-Stays content_block_delta ev s = on_block_delta-Stays ev s
translate_as-Stays content_block_stop ev s = on_block_stop-Stays ev s
translate_as-Stays message_delta ev s = (refl, refl)
translate_as-Stays message_stop ev s = (refl, refl)
translate_as-Stays other ev s = (refl, refl)

translate_event-Stays : (ev : Json) (s : CcSession) → Stays s (translate_event ev s).1
unfolding translate_event
translate_event-Stays ev s =
    translate_as-Stays (event_type (get_or (as_text (get "type" ev)) "")) ev s

note_done-Stays : (cs : List FlatChunk) (s : CcSession) → Stays s (note_done cs s)
unfolding note_done
note_done-Stays [] s = (refl, refl)
note_done-Stays (c ∷ cs) s = elim (Bool-cases c.done) [
  | inl e ↦ rw e (note_done-Stays cs (record s { turn_in_flight = false }))
  | inr n ↦ rw n (note_done-Stays cs s)
]

read_event-Stays : (ev : Json) (s : CcSession) → Stays s (read_event ev s).1
unfolding read_event
read_event-Stays ev s =
    let typed = record s {
      last_event_type = or_else (as_text (get "type" ev)) s.last_event_type;
    } in
    let next = (translate_event ev typed).1 in
    Stays-trans s next (note_done (translate_event ev typed).0 next)
      (translate_event-Stays ev typed) (note_done-Stays (translate_event ev typed).0 next)

module _ (parse_json : Units → Option Json) where
  read_line-Stays : (raw : Units) (s : CcSession) → Stays s (read_line parse_json raw s).1
  unfolding read_line malformed
  read_line-Stays raw s = elim (Bool-cases (is_blank raw)) [
    | inl e ↦ rw e (refl, refl)
    | inr n ↦ elim (Option-cases (parse_json (trim_units raw))) [
      | inl e ↦ rw (n, e) (refl, refl)
      | inr (ev, e) ↦ rw (n, e) (read_event-Stays ev s)
    ]
  ]

  pub read_lines-Stays : (ls : List Units) (s : CcSession) → Stays s (read_lines parse_json ls s).1
  unfolding read_lines
  read_lines-Stays [] s = (refl, refl)
  read_lines-Stays (l ∷ ls) s =
      let next = (read_line parse_json l s).1 in
      Stays-trans s next (read_lines parse_json ls next).1 (read_line-Stays l s)
        (read_lines-Stays ls next)
