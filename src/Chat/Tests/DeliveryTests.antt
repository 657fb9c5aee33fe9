-- ===== src/Chat/Tests/DeliveryTests.antt =====
-- What an agent says, from its events to the message, at concrete texts.
use agent_workflow_platform.Prelude.{true, false, String, List, [], ◌∷◌, none, some, Option}
use agent_workflow_platform.Agent.Session.{TokenCounts, CcSession, idle}
use agent_workflow_platform.Chat.Types.{Usage}
use agent_workflow_platform.Chat.State.{Chat}
use agent_workflow_platform.Chat.Tests.{busy}

abbrev no_counts : TokenCounts → Option Usage
no_counts u = none

abbrev agent : CcSession
agent = record {
  session_id = "s-1";
  conversation_id = "c-1";
  proc = record { pid = some 7; stdin_open = true; exit_code = none; signal_code = none };
  cwd = "/home";
  model = none;
  phase = idle;
  stdout_buffer = [];
  stderr_buffer = [];
  pending_tool_input = [];
  started_at = 0;
  last_activity_at = 0;
  cc_session_id = none;
  last_event_type = none;
  saw_api_error = false;
  malformed_stdout_lines = 0;
  turn_in_flight = true;
  stop_requested = false;
  stop = none;
}

abbrev waiting : Chat
waiting = record busy { streaming_reply = "" }

abbrev texts : List (List String)
texts = ("Hel" ∷ "lo" ∷ []) ∷ ("!" ∷ []) ∷ []
