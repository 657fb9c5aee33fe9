-- ===== src/Agent/Events.antt =====
-- What can happen to the wrapper, one event after the other (cc-wrapper.ts).
use agent_workflow_platform.Prelude.{ℕ, String, Bool, List, [], ◌∷◌, Option}
use agent_workflow_platform.Sse.Framing.{Units}
use agent_workflow_platform.Agent.Json.{Json}
use agent_workflow_platform.Agent.Session.{ContentBlock, Wrapper}
use agent_workflow_platform.Agent.Registry.{stop_session, stop_timeout, stop_all_sessions}
use agent_workflow_platform.Agent.Stdout.{handle_stdout_chunk}
use agent_workflow_platform.Agent.Process.{on_exit, on_error, on_stderr}
use agent_workflow_platform.Agent.Send.{WriteOutcome, send_finish}
use agent_workflow_platform.Agent.Launch.{Machine}
use agent_workflow_platform.Agent.Start.{SpawnOutcome, start_session}

-- A start, what a process reports, the end of a call of `sendMessage`, a stop and its timers.
pub data Event : Type 0 where
  start : Json → SpawnOutcome → String → ℕ → Event
  stdout : String → Units → ℕ → Event
  stderr : String → Units → Event
  exit : String → Option ℕ → Option String → Units → ℕ → Event
  error : Bool → String → Option String → String → Event
  send : String → List ContentBlock → String → WriteOutcome → ℕ → Event
  stop : String → Event
  timeout : String → Event
  stop_all : Event

module _ (m : Machine) (parse_json : Units → Option Json) where
  unfoldable pub step : Event → Wrapper → Wrapper
  unfolding start_session handle_stdout_chunk on_stderr on_exit on_error send_finish stop_session
      stop_timeout stop_all_sessions
  step (start opts outcome id now) w = (start_session m opts outcome id now w).1
  step (stdout id piece now) w = handle_stdout_chunk parse_json m.host id piece now w
  step (stderr id text) w = on_stderr id text w
  step (exit id code signal tail now) w = on_exit parse_json m.host id code signal tail now w
  step (error managed id code message) w = on_error m.host managed id code message w
  step (send id attached content outcome now) w = (send_finish id attached content outcome now w).1
  step (stop id) w = stop_session m.host id w
  step (timeout id) w = stop_timeout id w
  step stop_all w = stop_all_sessions m.host w

  unfoldable pub run : List Event → Wrapper → Wrapper
  unfolding step
  run [] w = w
  run (e ∷ es) w = run es (step e w)
