-- ===== src/Agent/Session.antt =====
-- The sessions and what they send (`CcSession`, `FlatChunk` and the maps of cc-wrapper.ts). The
-- texts of the streams are lists of UTF-16 units.
use agent_workflow_platform.Prelude.{ℕ, String, Bool, false, List, Option, none}
use agent_workflow_platform.Sse.Framing.{Units}
use agent_workflow_platform.Agent.Json.{Number}

-- `SessionPhase`
pub data Phase : Type 0 where
  spawning idle streaming exited : Phase

-- the counts of a chunk, each where it is a number
pub record TokenCounts : Type 0 where
  pub input_tokens : Option Number
  pub output_tokens : Option Number
  pub cache_read_input_tokens : Option Number
  pub cache_creation_input_tokens : Option Number

pub record FlatChunk : Type 0 where
  pub type : Option String
  pub delta : Option String
  pub conversation_id : Option String
  pub model : Option String
  pub usage : Option TokenCounts
  pub label : Option String
  pub tool : Option String
  pub done : Bool
  pub error : Option String
  pub cc_session_id : Option String

-- `{}`; a `done` that is missing is not true
abbrev pub blank : FlatChunk
blank = record {
  type = none;
  delta = none;
  conversation_id = none;
  model = none;
  usage = none;
  label = none;
  tool = none;
  done = false;
  error = none;
  cc_session_id = none;
}

-- What the code reads of a child process.
pub record ChildProcess : Type 0 where
  pub pid : Option ℕ
  pub stdin_open : Bool
  pub exit_code : Option ℕ
  pub signal_code : Option String

-- How far `stopProcess` has come: it waits for the exit after the line that asks for a shutdown, it
-- waits for it after SIGTERM, or it has returned. `stopPromise` is set from the first stage on.
pub data StopStage : Type 0 where
  soft_wait grace_wait finished : StopStage

pub record CcSession : Type 0 where
  pub session_id : String
  pub conversation_id : String
  pub proc : ChildProcess
  pub cwd : String
  pub model : Option String
  pub phase : Phase
  pub stdout_buffer : Units
  pub stderr_buffer : Units
  pub pending_tool_input : List (Number × String)
  pub started_at : ℕ
  pub last_activity_at : ℕ
  pub cc_session_id : Option String
  pub last_event_type : Option String
  pub saw_api_error : Bool
  pub malformed_stdout_lines : ℕ
  pub turn_in_flight : Bool
  pub stop_requested : Bool
  pub stop : Option StopStage

-- What is sent to the windows.
pub data Broadcast : Type 0 where
  stream_event : String → FlatChunk → Broadcast
  session_exit : String → Option ℕ → Option String → Option String → Broadcast
  cc_error : String → String → Broadcast

pub data Signal : Type 0 where
  sigterm sigkill : Signal

-- A part of a message; a source has its media type and its bytes in base 64.
pub data ContentBlock : Type 0 where
  text_block : String → ContentBlock
  document_block : String → String → ContentBlock
  image_block : String → String → ContentBlock

-- What is asked of a process: to be made, with its command, arguments, directory and environment, a
-- line on its standard input, or a signal.
pub data ProcessCall : Type 0 where
  spawn : String → List String → String → List (String × String) → ProcessCall
  write_shutdown : String → ProcessCall
  write_message : String → List ContentBlock → ProcessCall
  kill : String → Signal → ProcessCall

-- The reports to the trace collector, with the conversation last.
pub data FailureReport : Type 0 where
  spawn_throw : String → ℕ → String → FailureReport
  proc_error : Option String → String → ℕ → Bool → String → FailureReport
  early_exit : ℕ → Option String → ℕ → String → FailureReport
  abnormal_end : List String → CcSession → Option ℕ → Option String → String → FailureReport

-- The mark of the keys of `sessions`.
pub data Registered : Type 0 where
  registered : Registered

-- The state of the module. `objects` are all session objects that were made, by their ids: a
-- callback holds on to its object when the session is no longer in the map `sessions`. What was
-- sent, asked and reported has the newest first.
pub record Wrapper : Type 0 where
  pub objects : List (String × CcSession)
  pub sessions : List (String × Registered)
  pub by_conv : List (String × String)
  pub spawn_failures : ℕ
  pub broadcasts : List Broadcast
  pub calls : List ProcessCall
  pub reports : List FailureReport
  pub recoveries : ℕ

-- What the process that holds the wrapper runs on: `win32`, and the consent to telemetry.
pub record Host : Type 0 where
  pub windows : Bool
  pub telemetry : Bool
