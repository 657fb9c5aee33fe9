-- ===== src/Agent/Start.antt =====
-- `startSession` of cc-wrapper.ts as a whole. What the spawning does and the new id are arguments.
use agent_workflow_platform.Prelude.{
  ℕ, ◌+◌, String, Bool, true, false, List, [], ◌∷◌, ◌++◌, Option, none, some, ◌⧺◌, if◌then◌else◌,
  map_get, map_set, map_delete,
}
use agent_workflow_platform.Agent.Json.{Json, is_object}
use agent_workflow_platform.Agent.Session.{
  idle, blank, ChildProcess, CcSession, spawn, stream_event, cc_error, spawn_throw, Wrapper,
  registered,
}
use agent_workflow_platform.Agent.Registry.{
  find_session, is_exited, ask, broadcast, emit_failure_telemetry,
}
use agent_workflow_platform.Agent.Config.{
  Result, ok, failed, and_then, Invocation, resolve_cli_invocation,
}
use agent_workflow_platform.Agent.Environment.{build_cc_env}
use agent_workflow_platform.Agent.Launch.{
  StartResult, started, start_failed, Machine, valid_conversation, valid_cwd, chosen_model,
  protocol_args, resume_args, mcp_args,
}

pub record CommandLine : Type 0 where
  pub exe : String
  pub argv : List String
  pub cwd : String
  pub model : Option String
  pub managed_runtime : Bool

-- What `spawn` does: it returns a process or throws, with the code and the message of the error.
pub data SpawnOutcome : Type 0 where
  spawned : ChildProcess → SpawnOutcome
  spawn_threw : Option String → String → SpawnOutcome

model_args : Option String → List String
model_args none = []
model_args (some model) = "--model" ∷ model ∷ []

-- the command line without the arguments for the servers
unfoldable pub command_line : Machine → Json → Result CommandLine
unfolding valid_cwd resolve_cli_invocation chosen_model protocol_args resume_args model_args
    and_then
command_line m opts = elim (valid_cwd m opts) [
  | none ↦ failed "invalid_working_directory"
  | some cwd ↦ and_then (resolve_cli_invocation m.parsers m.paths m.env) (λ (i : Invocation).
      and_then (chosen_model opts) (λ model. and_then (protocol_args m.env) (λ protocol.
        and_then (resume_args opts) (λ resume. ok (record {
          exe = i.exe;
          argv = i.prefix_args ++ (protocol ++ (model_args model ++ resume));
          cwd = cwd;
          model = model;
          managed_runtime = i.managed_runtime;
        })))))
]

unfoldable pub new_session : String → String → CommandLine → ChildProcess → ℕ → CcSession
new_session id conv line process now = record {
  session_id = id;
  conversation_id = conv;
  proc = process;
  cwd = line.cwd;
  model = line.model;
  phase = idle;
  stdout_buffer = [];
  stderr_buffer = [];
  pending_tool_input = [];
  started_at = now;
  last_activity_at = now;
  cc_session_id = none;
  last_event_type = none;
  saw_api_error = false;
  malformed_stdout_lines = 0;
  turn_in_flight = false;
  stop_requested = false;
  stop = none;
}

-- the new session in the maps; its handlers only run later, so that its phase is the last one given
unfoldable pub register : String → String → CommandLine → ChildProcess → ℕ → Wrapper → Wrapper
unfolding new_session
register id conv line process now w = record w {
  objects = map_set id (new_session id conv line process now) w.objects;
  sessions = map_set id registered w.sessions;
  by_conv = map_set conv id w.by_conv;
}

unfoldable pub spawn_session :
    Machine
    → String
    → CommandLine
    → List (String × String)
    → SpawnOutcome
    → String
    → ℕ
    → Wrapper
    → StartResult × Wrapper
unfolding ask register emit_failure_telemetry
spawn_session m conv line env (spawned process) id now w =
    (started id, register id conv line process now (ask (spawn line.exe line.argv line.cwd env) w))
spawn_session m conv line env (spawn_threw code message) id now w =
    let counted = record w { spawn_failures = w.spawn_failures + 1 } in
    (
      start_failed message,
      emit_failure_telemetry m.host (spawn_throw message counted.spawn_failures conv) counted,
    )

unfoldable pub fail_mcp : String → Wrapper → StartResult × Wrapper
unfolding broadcast
fail_mcp message w =
    let error = "mcp_config_render_failed:" ⧺ message in
    (
      start_failed "mcp_config_render_failed",
      broadcast (stream_event "" (record blank { error = some error; done = true })) w,
    )

unfoldable pub fail_env : String → Wrapper → StartResult × Wrapper
unfolding broadcast
fail_env code w = (
  start_failed code,
  broadcast (stream_event "" (record blank { error = some code; done = true }))
      (broadcast (cc_error code code) w),
)

-- a start behind the look for a session that exists
unfoldable pub start_new :
    Machine → Json → String → SpawnOutcome → String → ℕ → Wrapper → StartResult × Wrapper
unfolding command_line mcp_args build_cc_env spawn_session fail_mcp fail_env
start_new m opts conv outcome id now w = elim (command_line m opts) [
  | failed code ↦ (start_failed code, w)
  | ok line ↦ elim (mcp_args m conv) [
    | failed message ↦ fail_mcp message w
    | ok mcp ↦ elim (build_cc_env m.parsers m.env) [
      | failed code ↦ fail_env code w
      | ok env ↦ spawn_session m conv (record line { argv = line.argv ++ mcp }) env outcome id now w
    ]
  ]
]

-- the session that a conversation has, where it is not over
unfoldable pub existing : String → Wrapper → Option String
unfolding find_session is_exited
existing conv w = elim (map_get conv w.by_conv) [
  | none ↦ none
  | some id ↦ elim (find_session id w) [
    | none ↦ none
    | some s ↦ if is_exited s.phase then none else some id
  ]
]

unfoldable pub drop_stale : String → Wrapper → Wrapper
drop_stale conv w = record w { by_conv = map_delete conv w.by_conv }

unfoldable pub start_conversation :
    Machine → Json → String → SpawnOutcome → String → ℕ → Wrapper → StartResult × Wrapper
unfolding existing drop_stale start_new
start_conversation m opts conv outcome id now w = elim (existing conv w) [
  | some known ↦ (started known, w)
  | none ↦ start_new m opts conv outcome id now (drop_stale conv w)
]

unfoldable pub start_session :
    Machine → Json → SpawnOutcome → String → ℕ → Wrapper → StartResult × Wrapper
unfolding valid_conversation start_conversation
start_session m opts outcome id now w =
    if is_object opts
    then elim (valid_conversation opts) [
      | none ↦ (start_failed "invalid_conversation_id", w)
      | some conv ↦ start_conversation m opts conv outcome id now w
    ]
    else (start_failed "invalid_start_options", w)
