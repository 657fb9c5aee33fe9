-- ===== src/Agent/Tests/OwnerTests.antt =====
-- Starts, ends and stops of sessions at concrete events.
use agent_workflow_platform.Prelude.{
  true, false, List, [], ◌∷◌, ◌++◌, Option, none, some, ◌≡◌, refl, map_get,
}
use agent_workflow_platform.Sse.Framing.{Units}
use agent_workflow_platform.Agent.Json.{Json, str, obj, end, field}
use agent_workflow_platform.Agent.Session.{CcSession, Wrapper, Host, idle, registered}
use agent_workflow_platform.Agent.Registry.{
  find_session, is_exited, has_process_exited, stop_session, stop_timeout,
}
use agent_workflow_platform.Agent.Config.{failed}
use agent_workflow_platform.Agent.Process.{on_exit}
use agent_workflow_platform.Agent.Launch.{Machine, started}
use agent_workflow_platform.Agent.Start.{SpawnOutcome, spawned, start_session}
use agent_workflow_platform.Agent.Events.{Event, start, stdout, exit, step, run}
use agent_workflow_platform.Agent.Owner.Ended.{IsOwned}
use agent_workflow_platform.Agent.Owner.Spec.{owner, replay}
use agent_workflow_platform.Agent.Owner.Refines.{run_refines, AreFresh}
use agent_workflow_platform.Agent.Owner.Single.{
  no_sessions, no_sessions-IsOwned, run-one_session, start_session-again,
}
use agent_workflow_platform.Agent.Stops.{
  stop_session-escalates, stop_timeout-on_exit, timeouts, escalation,
}
use agent_workflow_platform.Prelude.{map_set, map_delete, trim, utf16_length}
use agent_workflow_platform.Sse.Framing.{split_lines, pop_last}
use agent_workflow_platform.Agent.Json.{is_object, as_text, get}
use agent_workflow_platform.Agent.Start.{
  start_conversation, existing, start_new, drop_stale, command_line, spawn_session, register,
  new_session,
}
use agent_workflow_platform.Agent.Registry.{
  ask, put_object, emit_failure_telemetry, forget, broadcast, stop_on_exit,
}
use agent_workflow_platform.Agent.Config.{resolve_cli_invocation, env_text, parse_configured_args}
use agent_workflow_platform.Agent.Launch.{mcp_args}
use agent_workflow_platform.Agent.Environment.{build_cc_env, parse_explicit_cli_env}
use agent_workflow_platform.Agent.Stdout.{
  handle_stdout_chunk, take_stdout, after_piece, read_lines, read_line, is_blank, trim_units,
  malformed, send_chunks,
}
use agent_workflow_platform.Agent.Process.{drain, finish_exit, report_exit}

abbrev pub windows_host : Host
windows_host = record { windows = true; telemetry = true }

-- A machine with a managed runtime and nothing in its environment.
abbrev pub machine : Machine
machine = record {
  host = windows_host;
  parsers = record { parse_json = λ s. none; hostname = λ s. none };
  paths = record { is_absolute = λ s. true; resolve = λ s. s; managed = some "agent" };
  env = λ key. none;
  working_directory = "/home";
  ide_endpoint = none;
  render_mcp_config = λ ide remote consent. failed "unused";
}

abbrev for_c1 : Json
for_c1 = obj (field "conversationId" (str "c1") end)

abbrev process : SpawnOutcome
process = spawned (record { pid = some 7; stdin_open = true; exit_code = none; signal_code = none })

abbrev pub no_parser : Units → Option Json
no_parser text = none

abbrev some_events : List Event
some_events =
    start for_c1 process "s1" 0
    ∷ stdout "s1" (65 ∷ 10 ∷ []) 1
    ∷ exit "s1" (some 0) none [] 2
    ∷ start for_c1 process "s2" 3
    ∷ []

fresh_events : AreFresh machine no_parser some_events no_sessions
unfolding step map_get map_set map_delete is_object as_text get trim utf16_length start_session
    start_conversation existing find_session start_new drop_stale command_line
    resolve_cli_invocation env_text parse_configured_args mcp_args build_cc_env
    parse_explicit_cli_env spawn_session register ask new_session handle_stdout_chunk take_stdout
    after_piece read_lines read_line is_blank trim_units malformed send_chunks put_object on_exit
    drain finish_exit report_exit emit_failure_telemetry forget broadcast stop_on_exit split_lines
    pop_last
fresh_events = (refl, (tt, (tt, (refl, tt))))

run_refines_example :
    IsOwned (run machine no_parser some_events no_sessions)
    × (owner (run machine no_parser some_events no_sessions)
        ≡ replay machine some_events (owner no_sessions))
run_refines_example =
    run_refines machine no_parser some_events no_sessions no_sessions-IsOwned fresh_events

-- The session of the first start.
abbrev pub first_session : CcSession
first_session = record {
  session_id = "s1";
  conversation_id = "c1";
  proc = record { pid = some 7; stdin_open = true; exit_code = none; signal_code = none };
  cwd = "/home";
  model = none;
  phase = idle;
  stdout_buffer = [];
  stderr_buffer = [];
  pending_tool_input = [];
  started_at = 0;
  last_activity_at = 0;
  cc_session_id = none;
  last_event_type = none;
  saw_api_error = false;
  malformed_stdout_lines = 0;
  turn_in_flight = false;
  stop_requested = false;
  stop = none;
}

abbrev one_start : List Event
one_start = start for_c1 process "s1" 0 ∷ []

first_fresh : AreFresh machine no_parser one_start no_sessions
unfolding map_get
first_fresh = (refl, tt)

first_found : find_session "s1" (run machine no_parser one_start no_sessions) ≡ some first_session
unfolding run step map_get map_set map_delete is_object as_text get trim utf16_length start_session
    start_conversation existing find_session start_new drop_stale command_line
    resolve_cli_invocation env_text parse_configured_args mcp_args build_cc_env
    parse_explicit_cli_env spawn_session register ask new_session handle_stdout_chunk take_stdout
    after_piece read_lines read_line is_blank trim_units malformed send_chunks put_object on_exit
    drain finish_exit report_exit emit_failure_telemetry forget broadcast stop_on_exit split_lines
    pop_last
first_found = refl

run-one_session_example :
    (is_exited first_session.phase ≡ false) × (first_session.session_id ≡ first_session.session_id)
run-one_session_example =
    run-one_session machine no_parser one_start first_fresh first_session.session_id
      first_session.session_id first_session first_session first_found first_found refl

first_started : (start_session machine for_c1 process "s1" 0 no_sessions).0 ≡ started "s1"
unfolding step map_get map_set map_delete is_object as_text get trim utf16_length start_session
    start_conversation existing find_session start_new drop_stale command_line
    resolve_cli_invocation env_text parse_configured_args mcp_args build_cc_env
    parse_explicit_cli_env spawn_session register ask new_session handle_stdout_chunk take_stdout
    after_piece read_lines read_line is_blank trim_units malformed send_chunks put_object on_exit
    drain finish_exit report_exit emit_failure_telemetry forget broadcast stop_on_exit split_lines
    pop_last
first_started = refl

nothing_there : map_get "s1" no_sessions.objects ≡ none
unfolding map_get
nothing_there = refl

start_session-again_example :
    start_session machine for_c1 process "s2" 5
      (start_session machine for_c1 process "s1" 0 no_sessions).1
    ≡ (started "s1", (start_session machine for_c1 process "s1" 0 no_sessions).1)
start_session-again_example =
    start_session-again machine machine for_c1 process process "s1" "s2" "s1" 0 5 no_sessions
      no_sessions-IsOwned nothing_there first_started

abbrev pub running : Wrapper
running = record no_sessions {
  objects = ("s1", first_session) ∷ [];
  sessions = ("s1", registered) ∷ [];
  by_conv = ("c1", "s1") ∷ [];
}

running_session : find_session "s1" running ≡ some first_session
unfolding find_session map_get
running_session = refl

not_exited : has_process_exited first_session ≡ false
unfolding has_process_exited
not_exited = refl

stop_session-escalates_example :
    (timeouts "s1" (stop_timeout "s1" (stop_session windows_host "s1" running))).calls
    ≡ escalation windows_host "s1" first_session ++ []
stop_session-escalates_example =
    stop_session-escalates windows_host "s1" first_session running running_session not_exited refl

stop_timeout-on_exit_example :
    stop_timeout "s1" (on_exit no_parser windows_host "s1" (some 1) none [] 9 running)
    ≡ on_exit no_parser windows_host "s1" (some 1) none [] 9 running
stop_timeout-on_exit_example =
    stop_timeout-on_exit no_parser windows_host "s1" (some 1) none [] 9 running
