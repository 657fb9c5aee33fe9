-- ===== src/Agent/Registry.antt =====
-- The maps of the sessions, and stopping a session (cc-wrapper.ts).
use agent_workflow_platform.Prelude.{
  ℕ, String, Bool, true, false, ◌||◌, List, [], ◌∷◌, Option, none, some, is_some, if◌then◌else◌,
  map_get, map_set, map_delete, option_is,
}
use agent_workflow_platform.Agent.Session.{
  Phase, exited, CcSession, StopStage, soft_wait, grace_wait, finished, Broadcast, sigterm, sigkill,
  ProcessCall, write_shutdown, kill, FailureReport, Wrapper, Host, Registered,
}

unfoldable pub is_exited : Phase → Bool
is_exited exited = true
is_exited _ = false

-- `sessions.get(id)`
unfoldable pub find_session : String → Wrapper → Option CcSession
find_session id w = elim (map_get id w.sessions) [ none ↦ none | some _ ↦ map_get id w.objects ]

-- a change of a session object
unfoldable pub put_object : String → CcSession → Wrapper → Wrapper
put_object id s w = record w { objects = map_set id s w.objects }

unfoldable pub broadcast : Broadcast → Wrapper → Wrapper
broadcast b w = record w { broadcasts = b ∷ w.broadcasts }

unfoldable pub ask : ProcessCall → Wrapper → Wrapper
ask c w = record w { calls = c ∷ w.calls }

-- `_emitFailureTelemetry`
unfoldable pub emit_failure_telemetry : Host → FailureReport → Wrapper → Wrapper
emit_failure_telemetry host r w = if host.telemetry then record w { reports = r ∷ w.reports } else w

-- the last two lines of both handlers
unfoldable pub forget : String → String → Wrapper → Wrapper
forget id conv w = record w {
  sessions = map_delete id w.sessions;
  by_conv = if option_is (map_get conv w.by_conv) id then map_delete conv w.by_conv else w.by_conv;
}

unfoldable pub has_process_exited : CcSession → Bool
unfolding is_exited
has_process_exited s = is_exited s.phase || is_some s.proc.exit_code || is_some s.proc.signal_code

-- SIGTERM, and the start of the wait behind it
unfoldable pub terminate : String → CcSession → Wrapper → Wrapper
unfolding has_process_exited put_object ask
terminate id s w = ask (kill id sigterm) (
    put_object id (record s { stop = some (if has_process_exited s then finished else grace_wait) })
      w)

-- `stopProcess` up to its first wait that does not return at once
unfoldable pub stop_process : Host → String → CcSession → Wrapper → Wrapper
unfolding has_process_exited put_object ask terminate
stop_process host id s w =
    let requested = record s { stop_requested = true } in
    if (if host.windows then s.proc.stdin_open else false)
    then ask (write_shutdown id) (
        put_object id
          (record requested { stop = some (if has_process_exited s then finished else soft_wait) })
          w)
    else terminate id requested w

-- `stopSession`
unfoldable pub stop_session : Host → String → Wrapper → Wrapper
unfolding find_session is_exited stop_process
stop_session host id w = elim (find_session id w) [
  | none ↦ w
  | some s ↦ if is_exited s.phase || is_some s.stop then w else stop_process host id s w
]

-- the two continuations of the waits
unfoldable pub timed_out : Option StopStage → String → CcSession → Wrapper → Wrapper
unfolding put_object ask terminate
timed_out (some soft_wait) id s w = terminate id s w
timed_out (some grace_wait) id s w =
    ask (kill id sigkill) (put_object id (record s { stop = some finished }) w)
timed_out _ id s w = w

-- the timer of a wait fires
unfoldable pub stop_timeout : String → Wrapper → Wrapper
unfolding timed_out
stop_timeout id w = elim (map_get id w.objects) [ none ↦ w | some s ↦ timed_out s.stop id s w ]

-- the listener that a wait has put on the exit of the process
unfoldable pub stop_on_exit : CcSession → CcSession
stop_on_exit s = elim s.stop [
  | some soft_wait ↦ record s { stop = some finished }
  | some grace_wait ↦ record s { stop = some finished }
  | _ ↦ s
]

unfoldable pub stop_all : Host → List (String × Registered) → Wrapper → Wrapper
unfolding stop_session
stop_all host [] w = w
stop_all host ((id, _) ∷ rest) w = stop_all host rest (stop_session host id w)

-- `stopAllSessions`
unfoldable pub stop_all_sessions : Host → Wrapper → Wrapper
unfolding stop_all
stop_all_sessions host w = stop_all host w.sessions w

-- What `getSessionStatus` returns.
pub record SessionStatus : Type 0 where
  pub phase : Phase
  pub pid : Option ℕ
  pub model : Option String
  pub conversation_id : Option String

unfoldable pub get_session_status : String → Wrapper → SessionStatus
unfolding find_session
get_session_status id w = elim (find_session id w) [
  | none ↦ record { phase = exited; pid = none; model = none; conversation_id = none }
  | some s ↦ record {
    phase = s.phase;
    pid = s.proc.pid;
    model = s.model;
    conversation_id = some s.conversation_id;
  }
]
