-- ===== src/Chat/Tests/TurnTests.antt =====
-- Turns and their fallback at concrete states.
use agent_workflow_platform.Prelude.{◌+◌, ◌≤◌, true, false, List, [], ◌∷◌, none}
use agent_workflow_platform.Chat.State.{Chat}
use agent_workflow_platform.Chat.Transport.{Runtime}
use agent_workflow_platform.Chat.Session.{SessionExit}
use agent_workflow_platform.Chat.Dispatch.{is_request, count}
use agent_workflow_platform.Chat.Fallback.{
  TurnEvent, arrived, exited, turn_steps, requests-turn_steps,
}
use agent_workflow_platform.Chat.Tests.{now, busy, delta, from_s1}

abbrev local : Runtime
local = record {
  has_cc_start = true;
  has_cc_stop = true;
  lab_mode = false;
  server_url = "https://server";
  local_runtime_available = true;
}

abbrev idle : Chat
idle = record busy { is_streaming = false; streaming_reply = ""; cc_session_id = none }

abbrev crash : SessionExit
crash = record { session_id = "s-1"; code = "1"; error = none }

abbrev events : List TurnEvent
events = exited now crash ∷ arrived now (delta "text") from_s1 ∷ exited now crash ∷ []

requests-turn_steps_example : count is_request (turn_steps local events busy).effects ≤ 0 + 1
requests-turn_steps_example = requests-turn_steps local events busy
