-- ===== src/Sse/Tests.antt =====
-- The theorems on the streams at concrete texts and states.
use agent_workflow_platform.Prelude.{
  ◌≤◌, ◌-◌, get_or, ℕ, ◌+◌, List, [], ◌∷◌, Option, none, some, ◌≡◌, arith,
}
use agent_workflow_platform.Sse.Framing.{Units, reading, deliver, receive_all}
use agent_workflow_platform.Sse.Framing.Pieces.{cut, join, messages_of_pieces, short_text_is_read}
use agent_workflow_platform.Sse.Reconnect.Bounds.{IsQuiet, due, connections-run}
use agent_workflow_platform.Sse.Reconnect.{
  start, errored, reconnect_due, run, failing, failed, on_error, on_reconnect_due, gives_up,
}

-- A parser of one digit.
abbrev digit : Units → Option ℕ
digit (c ∷ []) = some c
digit _ = none

-- `data: 1` and a newline, in two pieces, and the start of another line
abbrev pieces : List Units
pieces = (b'd' ∷ b'a' ∷ b't' ∷ []) ∷ (b'a' ∷ b':' ∷ b' ' ∷ b'1' ∷ 10 ∷ b'd' ∷ []) ∷ []

short_text_is_read_example :
    receive_all digit pieces (reading [] [])
    ≡ reading (deliver digit (cut (join pieces)).0) (cut (join pieces)).1
short_text_is_read_example = short_text_is_read digit pieces (omega arith)

messages_of_pieces_example :
    (deliver digit (cut (join pieces)).0 ≡ deliver digit (cut (join pieces)).0)
    × ((cut (join pieces)).1 ≡ (cut (join pieces)).1)
messages_of_pieces_example =
    messages_of_pieces digit pieces (deliver digit (cut (join pieces)).0) (cut (join pieces)).1
      (short_text_is_read digit pieces (omega arith))

connections-run_example :
    ((run (run (start 5) (errored ∷ [])) (reconnect_due ∷ errored ∷ [])).connections
      ≤ (run (start 5) (errored ∷ [])).connections
        + due (run (start 5) (errored ∷ []))
        + (5 - (run (start 5) (errored ∷ [])).attempt))
    × (get_or (run (run (start 5) (errored ∷ [])) (reconnect_due ∷ errored ∷ [])).reconnect_timer 0
        ≤ 8000)
connections-run_example =
    connections-run 5 (errored ∷ []) (reconnect_due ∷ errored ∷ [])
      (unfold IsQuiet in (tt, (tt, tt)))

gives_up_example :
    ((failing 5 (start 5)).connections ≡ 5 + 1)
    × ((on_error (failing 5 (start 5))).outputs ≡ failed ∷ (failing 5 (start 5)).outputs)
    × ((on_reconnect_due (on_error (failing 5 (start 5)))).connections ≡ 5 + 1)
gives_up_example = gives_up 5
