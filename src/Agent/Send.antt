-- ===== src/Agent/Send.antt =====
-- `sendMessage` of cc-wrapper.ts, in its two parts around the reading of the attachments.
use agent_workflow_platform.Prelude.{
  ℕ, String, true, List, [], ◌∷◌, ◌++◌, Option, none, some, if◌then◌else◌, map_get,
}
use agent_workflow_platform.Sse.Framing.{Units, newline}
use agent_workflow_platform.Agent.Session.{
  streaming, CcSession, ContentBlock, text_block, write_message, Wrapper,
}
use agent_workflow_platform.Agent.Registry.{find_session, is_exited, put_object, ask}

-- What a call returns: `ok` with no error, or the error.
pub data SendResult : Type 0 where
  sent : SendResult
  refused : String → SendResult

-- What `stdin.write` does.
pub data WriteOutcome : Type 0 where
  written backpressure : WriteOutcome
  thrown : String → WriteOutcome

-- the checks before the attachments are read
unfoldable pub send_refusal : String → Wrapper → Option String
unfolding find_session is_exited
send_refusal id w = elim (find_session id w) [
  | none ↦ some "unknown_session"
  | some s ↦
      if is_exited s.phase
      then some "session_exited"
      else if s.proc.stdin_open
      then none
      else some "stdin_unavailable"
]

-- `[cc-wrapper] stdin backpressure`
abbrev backpressure_note : Units
backpressure_note =
    b'[' ∷ b'c' ∷ b'c' ∷ b'-' ∷ b'w' ∷ b'r' ∷ b'a' ∷ b'p' ∷ b'p' ∷ b'e' ∷ b'r' ∷ b']' ∷ b' ' ∷ b's'
    ∷ b't' ∷ b'd' ∷ b'i' ∷ b'n' ∷ b' ' ∷ b'b' ∷ b'a' ∷ b'c' ∷ b'k' ∷ b'p' ∷ b'r' ∷ b'e' ∷ b's'
    ∷ b's' ∷ b'u' ∷ b'r' ∷ b'e' ∷ newline ∷ []

unfoldable pub in_turn : ℕ → CcSession → CcSession
in_turn now s = record s { phase = streaming; last_activity_at = now; turn_in_flight = true }

-- the session object behind the write
unfoldable pub after_write : WriteOutcome → CcSession → CcSession
after_write written s = s
after_write backpressure s = record s { stderr_buffer = s.stderr_buffer ++ backpressure_note }
after_write (thrown message) s = s

result_of : WriteOutcome → SendResult
result_of (thrown message) = refused message
result_of _ = sent

unfoldable pub started : ℕ → WriteOutcome → CcSession → CcSession
unfolding after_write in_turn
started now (thrown message) s = s
started now outcome s = in_turn now (after_write outcome s)

-- the part behind the attachments; `outcome` is what the write does
unfoldable pub send_finish :
    String → List ContentBlock → String → WriteOutcome → ℕ → Wrapper → SendResult × Wrapper
unfolding put_object ask result_of started
send_finish id attached content outcome now w = elim (map_get id w.objects) [
  | none ↦ (refused "unknown_session", w)
  | some s ↦ (
    result_of outcome,
    ask (write_message id (attached ++ text_block content ∷ []))
        (put_object id (started now outcome s) w),
  )
]
