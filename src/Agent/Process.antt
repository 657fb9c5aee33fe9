-- ===== src/Agent/Process.antt =====
-- What the process of a session reports: its exit, an error, text on the standard error
-- (the handlers of `startSession` in cc-wrapper.ts).
use agent_workflow_platform.Prelude.{
  ℕ, ◌+◌, String, Bool, true, false, ◌&&◌, ◌||◌, not, List, [], ◌∷◌, ◌++◌, Option, none, some, ◌⧺◌,
  if◌then◌else◌, eqb, ltb, length, take_last, map_get, present, option_is, get_or,
}
use agent_workflow_platform.Sse.Framing.{Units, newline}
use agent_workflow_platform.Agent.Json.{Json}
use agent_workflow_platform.Agent.Session.{
  exited, blank, CcSession, stream_event, session_exit, proc_error, early_exit, abnormal_end,
  Wrapper, Host,
}
use agent_workflow_platform.Agent.Registry.{
  put_object, broadcast, emit_failure_telemetry, forget, stop_on_exit,
}
use agent_workflow_platform.Agent.Stdout.{is_blank, handle_stdout_chunk}

abbrev one_more_failure : Wrapper → Wrapper
one_more_failure w = record w { spawn_failures = w.spawn_failures + 1 }

-- `typeof code === 'number' && code !== 0`
unfoldable pub exited_nonzero : Option ℕ → Bool
exited_nonzero none = false
exited_nonzero (some n) = not (eqb n 0)

reason : Bool → String → List String
reason b text = if b then text ∷ [] else []

-- the reasons for which an end is reported
unfoldable pub end_reasons : Option ℕ → CcSession → List String
unfolding reason exited_nonzero
end_reasons code s =
    reason s.saw_api_error "stderr_api_error"
    ++ (reason (ltb 0 s.malformed_stdout_lines) "stdout_json_parse_error"
        ++ (reason (s.turn_in_flight && not s.stop_requested) "exit_mid_turn"
            ++ reason (exited_nonzero code && not s.stop_requested) "nonzero_exit"))

-- an exit before the first event
unfoldable pub report_early : Host → Option ℕ → Option String → CcSession → Wrapper → Wrapper
unfolding emit_failure_telemetry
report_early host code signal s w =
    let counted = one_more_failure w in
    emit_failure_telemetry host
      (early_exit (get_or code 0) signal counted.spawn_failures s.conversation_id) counted

unfoldable pub report_abnormal : Host → Option ℕ → Option String → CcSession → Wrapper → Wrapper
unfolding emit_failure_telemetry end_reasons
report_abnormal host code signal s w = elim (end_reasons code s) [
  | [] ↦ w
  | r ∷ rs ↦ emit_failure_telemetry host (abnormal_end (r ∷ rs) s code signal s.conversation_id) w
]

unfoldable pub report_exit : Host → Option ℕ → Option String → CcSession → Wrapper → Wrapper
unfolding exited_nonzero report_early report_abnormal
report_exit host code signal s w =
    if exited_nonzero code && not (present s.last_event_type)
    then report_early host code signal s w
    else report_abnormal host code signal s w

-- the handler of an exit, behind the last output
unfoldable pub finish_exit : Host → String → Option ℕ → Option String → Wrapper → Wrapper
unfolding put_object stop_on_exit report_exit broadcast forget
finish_exit host id code signal w = elim (map_get id w.objects) [
  | none ↦ w
  | some s ↦
      let over = record s { phase = exited } in
      forget id s.conversation_id (
        broadcast (session_exit id code signal none)
          (report_exit host code signal over (put_object id (stop_on_exit over) w)))
]

module _ (parse_json : Units → Option Json) where
  -- the last line, which has no newline behind it
  unfoldable pub drain : Host → String → ℕ → CcSession → Wrapper → Wrapper
  unfolding is_blank put_object handle_stdout_chunk
  drain host id now s w =
      if is_blank s.stdout_buffer
      then put_object id s w
      else handle_stdout_chunk parse_json host id [] now
          (put_object id (record s { stdout_buffer = s.stdout_buffer ++ newline ∷ [] }) w)

  -- the handler of an exit; `tail` is what the decoder still held
  unfoldable pub on_exit : Host → String → Option ℕ → Option String → Units → ℕ → Wrapper → Wrapper
  unfolding drain finish_exit
  on_exit host id code signal tail now w = elim (map_get id w.objects) [
    | none ↦ w
    | some s ↦
        let ended = record s {
          proc = record s.proc { exit_code = code; signal_code = signal };
          stdout_buffer = s.stdout_buffer ++ tail;
        } in
        finish_exit host id code signal (drain host id now ended w)
  ]

-- the codes of a binary that is missing or broken
unfoldable pub is_bad_binary : Option String → Bool
is_bad_binary code =
    option_is code "ENOENT"
    || option_is code "UNKNOWN"
    || option_is code "ENOEXEC"
    || option_is code "EFTYPE"

-- `recoverFromMissingBinary`
unfoldable pub recover : Bool → Wrapper → Wrapper
recover b w = if b then record w { recoveries = w.recoveries + 1 } else w

-- the handler of an error of the process; `managed` is `managedRuntime`
unfoldable pub on_error : Host → Bool → String → Option String → String → Wrapper → Wrapper
unfolding put_object emit_failure_telemetry is_bad_binary recover broadcast forget
on_error host managed id code message w = elim (map_get id w.objects) [
  | none ↦ w
  | some s ↦
      let bad = is_bad_binary code in
      let counted = one_more_failure (put_object id (record s { phase = exited }) w) in
      let reported =
        emit_failure_telemetry host
          (proc_error code message counted.spawn_failures bad s.conversation_id) counted in
      let shown = if bad then "runtime_recovery_started" else "spawn_error:" ⧺ message in
      forget id s.conversation_id (
        broadcast (session_exit id none none (some message)) (
          broadcast (stream_event id (record blank { error = some shown; done = true }))
            (recover (bad && managed) reported)))
]

starts_with_units : Units → Units → Bool
starts_with_units [] s = true
starts_with_units (c ∷ t) [] = false
starts_with_units (c ∷ t) (d ∷ s) = eqb c d && starts_with_units t s

-- `includes`
contains_units : Units → Units → Bool
unfolding starts_with_units
contains_units t [] = starts_with_units t []
contains_units t (c ∷ s) = starts_with_units t (c ∷ s) || contains_units t s

abbrev api_error : Units
api_error = b'A' ∷ b'P' ∷ b'I' ∷ b' ' ∷ b'E' ∷ b'r' ∷ b'r' ∷ b'o' ∷ b'r' ∷ []

abbrev pub stderr_limit : ℕ
stderr_limit = 262144

-- text on the standard error, for the session
unfoldable pub take_stderr : Units → CcSession → CcSession
unfolding contains_units
take_stderr text s =
    let buffer = s.stderr_buffer ++ text in
    record s {
      saw_api_error = s.saw_api_error || contains_units api_error text;
      stderr_buffer = if ltb stderr_limit (length buffer) then take_last 131072 buffer else buffer;
    }

unfoldable pub on_stderr : String → Units → Wrapper → Wrapper
unfolding take_stderr put_object
on_stderr id text w = elim (map_get id w.objects) [
  | none ↦ w
  | some s ↦ put_object id (take_stderr text s) w
]
